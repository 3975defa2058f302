-- ===== src/Vault/Sealing.antt =====
-- What the vault encrypts it decrypts, and it opens nothing whose tag does not match.
use nap_cli.Prelude.{
  ℕ, zero, suc, ◌+◌, ◌%◌, ◌^◌, ◌≡◌, ◌≢◌, refl, sym, ap, ◌∙◌, inl, inr, List, [], ◌∷◌, arith,
  if◌then◌else◌, length, length-append, length-to_little, to_little, get_or, take, drop, bit_and,
  from_little, Bytes, Bool-cases, ℕ_eq, list_eq, ◌=?◌, =?_refl,
}
use nap_cli.Prelude.Keystream.{keystream, length-keystream, keystream_twice}
use nap_cli.Prelude.Result.{Result, ok, raise}
use nap_cli.Vault.Chacha.{
  VaultError, open_failed, packed_sums, double_rounds, initial_state, block_of, chacha20_block,
  xor_blocks, chacha20_xor,
}
use nap_cli.Vault.Poly.{mac_blocks, poly1305_mac, aead_mac_data}
use nap_cli.Vault.Payload.{encrypt_vault_payload, decrypt_vault_payload}

length-packed_sums :
    (n : ℕ) (working state : List ℕ) → length (packed_sums n working state) ≡ n + n + n + n
unfolding packed_sums
length-packed_sums zero working state = refl
length-packed_sums (suc n) working state = omega (
  arith,
  length-append (to_little 4 ((get_or working 0 0 + get_or state 0 0) % 2 ^ 32))
      (packed_sums n (drop 1 working) (drop 1 state)),
  length-to_little 4 ((get_or working 0 0 + get_or state 0 0) % 2 ^ 32),
  length-packed_sums n (drop 1 working) (drop 1 state),
)

length-block_of : (key nonce : Bytes) (counter : ℕ) → length (block_of key nonce counter) ≡ 64
unfolding block_of
length-block_of key nonce counter =
    length-packed_sums 16 (double_rounds 10 (initial_state key nonce counter))
      (initial_state key nonce counter)

length-poly1305_mac : (message key : Bytes) → length (poly1305_mac message key) ≡ 16
unfolding poly1305_mac
length-poly1305_mac message key = length-to_little 16 (
    (mac_blocks (length message)
        (bit_and (from_little (take 16 key)) 0x0ffffffc0ffffffc0ffffffc0fffffff) 0 message
      + from_little (drop 16 key))
    % 2 ^ 128)

-- The keystream of a key of 32 bytes and a nonce of 12, laid over the bytes.
abbrev covered : Bytes → Bytes → ℕ → ℕ → Bytes → Bytes
covered key nonce = keystream 64 (block_of key nonce) (λ counter. (counter + 1) % 2 ^ 32)

module _ (key nonce : Bytes) (k : length key ≡ 32) (n : length nonce ≡ 12) where
  chacha20_block-ok :
      (counter : ℕ) → chacha20_block key counter nonce ≡ ok (block_of key nonce counter)
  unfolding chacha20_block
  chacha20_block-ok counter = rw k (rw n refl)

  xor_blocks-ok :
      (fuel counter : ℕ) (bytes : Bytes)
      → xor_blocks fuel key nonce counter bytes ≡ ok (covered key nonce fuel counter bytes)
  unfolding xor_blocks keystream
  xor_blocks-ok zero counter bytes = refl
  xor_blocks-ok (suc fuel) counter [] = refl
  xor_blocks-ok (suc fuel) counter (b ∷ bytes) =
      rw (chacha20_block-ok counter)
        (rw (xor_blocks-ok fuel ((counter + 1) % 2 ^ 32) (drop 64 (b ∷ bytes))) refl)

  chacha20_xor-ok :
      (bytes : Bytes) → chacha20_xor key nonce bytes ≡ ok (covered key nonce (length bytes) 1 bytes)
  unfolding chacha20_xor
  chacha20_xor-ok bytes = xor_blocks-ok (length bytes) 1 bytes

  length-covered :
      (bytes : Bytes) → length (covered key nonce (length bytes) 1 bytes) ≡ length bytes
  length-covered bytes =
      length-keystream 64 (block_of key nonce) _ (omega arith) (length-block_of key nonce)
        (length bytes) 1 bytes (omega arith)

  covered_twice :
      (bytes : Bytes) → chacha20_xor key nonce (covered key nonce (length bytes) 1 bytes) ≡ ok bytes
  covered_twice bytes =
      chacha20_xor-ok (covered key nonce (length bytes) 1 bytes)
      ∙ ap ok (
          ap (λ size. covered key nonce size 1 (covered key nonce (length bytes) 1 bytes))
            (length-covered bytes)
          ∙ keystream_twice 64 (block_of key nonce) _ (omega arith) (length-block_of key nonce)
              (length bytes) 1 bytes (omega arith))

  abbrev mac_of : Bytes → Bytes → Bytes
  mac_of aad ciphertext =
      poly1305_mac (aead_mac_data aad ciphertext) (take 32 (block_of key nonce 0))

  length-mac_of : (aad ciphertext : Bytes) → length (mac_of aad ciphertext) ≡ 16
  length-mac_of aad ciphertext =
      length-poly1305_mac (aead_mac_data aad ciphertext) (take 32 (block_of key nonce 0))

  encrypt_vault_payload-ok :
      (plaintext aad : Bytes)
      → encrypt_vault_payload key nonce plaintext aad
        ≡ ok (
          nonce,
          covered key nonce (length plaintext) 1 plaintext,
          mac_of aad (covered key nonce (length plaintext) 1 plaintext),
        )
  unfolding encrypt_vault_payload
  encrypt_vault_payload-ok plaintext aad =
      rw (chacha20_block-ok 0) (rw (chacha20_xor-ok plaintext) refl)

  decrypt_vault_payload_lem :
      (ciphertext tag aad : Bytes)
      → decrypt_vault_payload key nonce ciphertext tag aad ≡ (
          if mac_of aad ciphertext =? tag
          then chacha20_xor key nonce ciphertext
          else raise open_failed)
  unfolding decrypt_vault_payload
  decrypt_vault_payload_lem ciphertext tag aad = rw (chacha20_block-ok 0) refl

-- With a key of 32 bytes and a nonce of 12, encryption gives the nonce, as many bytes as the
-- plaintext has, and a tag of 16 bytes, and decryption of these gives the plaintext.
pub decrypt-encrypt_vault_payload :
    (key nonce plaintext aad : Bytes)
    → length key ≡ 32
    → length nonce ≡ 12
    → (ciphertext : Bytes) × (tag : Bytes) × (encrypt_vault_payload key nonce plaintext aad
        ≡ ok (nonce, ciphertext, tag))
      × (length ciphertext ≡ length plaintext)
      × (length tag ≡ 16)
      × (decrypt_vault_payload key nonce ciphertext tag aad ≡ ok plaintext)
decrypt-encrypt_vault_payload key nonce plaintext aad k n =
    let ciphertext = covered key nonce (length plaintext) 1 plaintext in
    (
      ciphertext,
      mac_of key nonce k n aad ciphertext,
      encrypt_vault_payload-ok key nonce k n plaintext aad,
      length-covered key nonce k n plaintext,
      length-mac_of key nonce k n aad ciphertext,
      decrypt_vault_payload_lem key nonce k n ciphertext (mac_of key nonce k n aad ciphertext) aad
          ∙ rw (=?_refl (mac_of key nonce k n aad ciphertext))
              (covered_twice key nonce k n plaintext),
    )

-- A ciphertext with any other tag than encryption gave it is refused.
pub decrypt_vault_payload-forged :
    (key nonce plaintext aad ciphertext tag forged : Bytes)
    → length key ≡ 32
    → length nonce ≡ 12
    → encrypt_vault_payload key nonce plaintext aad ≡ ok (nonce, ciphertext, tag)
    → forged ≢ tag
    → decrypt_vault_payload key nonce ciphertext forged aad ≡ raise open_failed
decrypt_vault_payload-forged key nonce plaintext aad ciphertext tag forged k n sealed differs =
    decrypt_vault_payload_lem key nonce k n ciphertext forged aad ∙ refused
  where
    value :
        (a b : Bytes × Bytes × Bytes)
        → ◌≡◌ {A = Result VaultError (Bytes × Bytes × Bytes)} (ok a) (ok b)
        → a ≡ b
    value a b e = cc

    same : mac_of key nonce k n aad ciphertext ≡ tag
    same =
        let c = covered key nonce (length plaintext) 1 plaintext in
        let e =
          value (nonce, c, mac_of key nonce k n aad c) (nonce, ciphertext, tag)
            (sym (encrypt_vault_payload-ok key nonce k n plaintext aad) ∙ sealed) in
        ap (λ (p : Bytes × Bytes × Bytes). mac_of key nonce k n aad p.1) (sym e)
        ∙ ap (λ (p : Bytes × Bytes × Bytes). p.2) e

    refused :
        (if mac_of key nonce k n aad ciphertext =? forged
          then chacha20_xor key nonce ciphertext
          else raise open_failed)
        ≡ raise open_failed
    refused = elim (Bool-cases (mac_of key nonce k n aad ciphertext =? forged)) [
      | inl e ↦ absurd (differs (sym ((list_eq.beq_iff _ _).0 e) ∙ same))
      | inr e ↦ rw e refl
    ]
