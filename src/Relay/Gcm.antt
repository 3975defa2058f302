-- ===== src/Relay/Gcm.antt =====
-- `aes_gcm_encrypt` and `aes_gcm_decrypt` of resources/scripts/napseer_mcp_server.py.
use nap_cli.Prelude.{
  ℕ, zero, suc, ◌+◌, ◌-◌, ◌*◌, ◌/◌, ◌%◌, ◌^◌, [], ◌∷◌, ◌++◌, if◌then◌else◌, ◌==◌, ltb, length, take,
  drop, replicate, Bytes, bit_xor, xor_bytes, from_big, to_big, ℕ_eq, list_eq, ◌=?◌,
}
use nap_cli.Prelude.Result.{Result, ok, raise, ◌>>=◌}
use nap_cli.Relay.Aes.{
  CryptoError, bad_nonce, missing_tag, authentication_failed, aes_encrypt_block_256,
}

-- The loop of `_gcm_gf_mul`, over the bits of `left` from the highest of so many down.
unfoldable pub gf_loop : ℕ → ℕ → ℕ → ℕ → ℕ
gf_loop zero left z v = z
gf_loop (suc k) left z v =
    gf_loop k left (if left / 2 ^ k % 2 == 1 then bit_xor z v else z)
      (if v % 2 == 1 then bit_xor (v / 2) (0xe1 * 2 ^ 120) else v / 2)

-- `_gcm_gf_mul`
unfoldable pub gcm_gf_mul : ℕ → ℕ → ℕ
unfolding gf_loop
gcm_gf_mul left right = gf_loop 128 left 0 right

-- `b"\x00" * ((16 - len % 16) % 16)`
abbrev pub padding : ℕ → Bytes
padding n = replicate ((16 - n % 16) % 16) 0

abbrev pub ghash_data : Bytes → Bytes → Bytes
ghash_data aad ciphertext =
    aad
    ++ (padding (length aad)
        ++ (ciphertext
            ++ (padding (length ciphertext)
                ++ (to_big 8 (length aad * 8) ++ to_big 8 (length ciphertext * 8)))))

-- The loop over the blocks of 16 bytes; a block for each byte is enough.
unfoldable pub ghash_blocks : ℕ → ℕ → ℕ → Bytes → ℕ
unfolding gcm_gf_mul from_big
ghash_blocks zero h y bytes = y
ghash_blocks (suc n) h y [] = y
ghash_blocks (suc n) h y (b ∷ bytes) =
    ghash_blocks n h (gcm_gf_mul (bit_xor y (from_big (take 16 (b ∷ bytes)))) h)
      (drop 16 (b ∷ bytes))

-- `_gcm_ghash`
unfoldable pub gcm_ghash : Bytes → Bytes → Bytes → Bytes
unfolding ghash_blocks from_big to_big
gcm_ghash subkey aad ciphertext = to_big 16 (
    ghash_blocks (length (ghash_data aad ciphertext)) (from_big subkey) 0
      (ghash_data aad ciphertext))

-- `_gcm_inc32`
unfoldable pub gcm_inc32 : Bytes → Bytes
unfolding from_big to_big
gcm_inc32 counter = take 12 counter ++ to_big 4 ((from_big (drop 12 counter) + 1) % 2 ^ 32)

-- The loop of `_aes_gcm_crypt`; a block for each byte is enough.
unfoldable pub crypt_blocks : ℕ → Bytes → Bytes → Bytes → Result CryptoError Bytes
unfolding aes_encrypt_block_256 gcm_inc32
crypt_blocks zero key cursor bytes = ok []
crypt_blocks (suc n) key cursor [] = ok []
crypt_blocks (suc n) key cursor (b ∷ bytes) = do
  stream ← aes_encrypt_block_256 key cursor
  rest ← crypt_blocks n key (gcm_inc32 cursor) (drop 16 (b ∷ bytes))
  ok (xor_bytes (take 16 (b ∷ bytes)) stream ++ rest)

abbrev pub first_counter : Bytes → Bytes
first_counter nonce = nonce ++ 0 ∷ 0 ∷ 0 ∷ 1 ∷ []

-- `_aes_gcm_crypt`: the output, without the counter, which is `first_counter`.
unfoldable pub aes_gcm_crypt : Bytes → Bytes → Bytes → Result CryptoError Bytes
unfolding crypt_blocks gcm_inc32
aes_gcm_crypt key nonce bytes =
    if length nonce == 12
    then crypt_blocks (length bytes) key (gcm_inc32 (first_counter nonce)) bytes
    else raise bad_nonce

-- The tag of a ciphertext.
unfoldable pub gcm_tag : Bytes → Bytes → Bytes → Bytes → Result CryptoError Bytes
unfolding aes_encrypt_block_256 gcm_ghash
gcm_tag key nonce aad ciphertext = do
  subkey ← aes_encrypt_block_256 key (replicate 16 0)
  mask ← aes_encrypt_block_256 key (first_counter nonce)
  ok (xor_bytes (gcm_ghash subkey aad ciphertext) mask)

-- `aes_gcm_encrypt`
unfoldable pub aes_gcm_encrypt : Bytes → Bytes → Bytes → Bytes → Result CryptoError Bytes
unfolding aes_gcm_crypt gcm_tag
aes_gcm_encrypt key nonce aad plaintext = do
  ciphertext ← aes_gcm_crypt key nonce plaintext
  tag ← gcm_tag key nonce aad ciphertext
  ok (ciphertext ++ tag)

-- The comparison of the tags, and what follows.
unfoldable pub open_checked : Bytes → Bytes → Bytes → Bytes → Bytes → Result CryptoError Bytes
unfolding aes_gcm_crypt
open_checked key nonce ciphertext tag expected =
    if tag =? expected then aes_gcm_crypt key nonce ciphertext else raise authentication_failed

-- `aes_gcm_decrypt`
unfoldable pub aes_gcm_decrypt : Bytes → Bytes → Bytes → Bytes → Result CryptoError Bytes
unfolding open_checked gcm_tag
aes_gcm_decrypt key nonce aad packed = if ltb (length packed) 16 then raise missing_tag else do
  expected ← gcm_tag key nonce aad (take (length packed - 16) packed)
  open_checked key nonce (take (length packed - 16) packed) (drop (length packed - 16) packed)
      expected
