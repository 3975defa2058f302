-- ===== src/Relay/Counter.antt =====
-- AES in counter mode, for a key of 32 bytes and a counter of 16.
use nap_cli.Prelude.{
  ℕ, zero, suc, ◌≤◌, ◌≡◌, refl, List, [], ◌∷◌, arith, length, length-append, length-take, take,
  drop, Bytes, length-to_big, to_big, ℕ_eq, list_eq,
}
use nap_cli.Prelude.Keystream.{keystream, length-keystream, keystream_twice}
use nap_cli.Prelude.Result.{ok}
use nap_cli.Relay.Aes.{
  aes_encrypt_block_256, aes_cipher, aes_key_expand_256, aes_add_round_key, aes_shift_rows,
}
use nap_cli.Relay.Gcm.{gcm_inc32, crypt_blocks}

pub length-aes_cipher : (words : List ℕ) (block : Bytes) → length (aes_cipher words block) ≡ 16
unfolding aes_cipher aes_add_round_key aes_shift_rows
length-aes_cipher words block = refl

-- The block cipher of a key of 32 bytes.
abbrev pub cipher : Bytes → Bytes → Bytes
cipher key block = aes_cipher (aes_key_expand_256 key) block

pub aes_encrypt_block_256-ok :
    (key block : Bytes)
    → length key ≡ 32
    → length block ≡ 16
    → aes_encrypt_block_256 key block ≡ ok (cipher key block)
unfolding aes_encrypt_block_256
aes_encrypt_block_256-ok key block k b = ground (arith, k, b)

pub length-gcm_inc32 : (counter : Bytes) → length counter ≡ 16 → length (gcm_inc32 counter) ≡ 16
unfolding gcm_inc32
length-gcm_inc32 counter h = omega (
  arith,
  h,
  length-append (take 12 counter) (to_big 4 _),
  length-take 12 counter,
  length-to_big 4 _,
)

-- The keystream of AES in counter mode, laid over the bytes.
abbrev pub covered : ℕ → Bytes → Bytes → Bytes → Bytes
covered n key = keystream 16 (cipher key) gcm_inc32 n

pub crypt_blocks-ok :
    (n : ℕ) (key cursor bytes : Bytes)
    → length key ≡ 32
    → length cursor ≡ 16
    → crypt_blocks n key cursor bytes ≡ ok (covered n key cursor bytes)
unfolding crypt_blocks keystream
crypt_blocks-ok zero key cursor bytes k c = refl
crypt_blocks-ok (suc n) key cursor [] k c = refl
crypt_blocks-ok (suc n) key cursor (b ∷ bytes) k c = rw (aes_encrypt_block_256-ok key cursor k c) (
    rw
      (crypt_blocks-ok n key (gcm_inc32 cursor) (drop 16 (b ∷ bytes)) k (length-gcm_inc32 cursor c))
      refl)

pub length-covered :
    (n : ℕ) (key cursor bytes : Bytes)
    → length bytes ≤ n
    → length (covered n key cursor bytes) ≡ length bytes
length-covered n key =
    length-keystream 16 (cipher key) gcm_inc32 (omega arith)
      (length-aes_cipher (aes_key_expand_256 key)) n

pub covered_twice :
    (n : ℕ) (key cursor bytes : Bytes)
    → length bytes ≤ n
    → covered n key cursor (covered n key cursor bytes) ≡ bytes
covered_twice n key =
    keystream_twice 16 (cipher key) gcm_inc32 (omega arith)
      (length-aes_cipher (aes_key_expand_256 key)) n
