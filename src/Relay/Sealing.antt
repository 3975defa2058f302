-- ===== src/Relay/Sealing.antt =====
-- Encrypting for the relay, and decrypting.
use nap_cli.Prelude.{
  ◌+◌, ◌-◌, ◌≡◌, ◌≢◌, refl, sym, ap, ◌∙◌, inl, inr, true, false, [], ◌∷◌, ◌++◌, arith, ◌==◌, ltb,
  length, length-append, append-eq, take, drop, take-append_self, replicate, Bytes, xor_bytes,
  length-xor_bytes, length-to_big, from_big, Bool-cases, ℕ_eq, list_eq, ◌=?◌, =?_refl,
}
use nap_cli.Prelude.Result.{Result, ok, raise, ◌>>=◌}
use nap_cli.Relay.Aes.{CryptoError, authentication_failed, aes_key_expand_256}
use nap_cli.Relay.Gcm.{
  gcm_inc32, first_counter, aes_gcm_crypt, gcm_tag, gcm_ghash, ghash_blocks, ghash_data,
  aes_gcm_encrypt, open_checked, aes_gcm_decrypt,
}
use nap_cli.Relay.Counter.{
  cipher, length-aes_cipher, aes_encrypt_block_256-ok, length-gcm_inc32, covered, crypt_blocks-ok,
  length-covered, covered_twice,
}

-- The tag and the ciphertext of a key of 32 bytes and a nonce of 12.
abbrev tag_of : Bytes → Bytes → Bytes → Bytes → Bytes
tag_of key nonce aad ciphertext =
    xor_bytes (gcm_ghash (cipher key (replicate 16 0)) aad ciphertext)
      (cipher key (first_counter nonce))

length-gcm_ghash : (subkey aad ciphertext : Bytes) → length (gcm_ghash subkey aad ciphertext) ≡ 16
unfolding gcm_ghash
length-gcm_ghash subkey aad ciphertext = length-to_big 16 (
    ghash_blocks (length (ghash_data aad ciphertext)) (from_big subkey) 0
      (ghash_data aad ciphertext))

length-tag_of : (key nonce aad ciphertext : Bytes) → length (tag_of key nonce aad ciphertext) ≡ 16
length-tag_of key nonce aad ciphertext =
    let sixteen = length-gcm_ghash (cipher key (replicate 16 0)) aad ciphertext in
    length-xor_bytes (gcm_ghash (cipher key (replicate 16 0)) aad ciphertext)
      (cipher key (first_counter nonce))
      (omega (arith, sixteen, length-aes_cipher (aes_key_expand_256 key) (first_counter nonce)))
    ∙ sixteen

abbrev hidden : Bytes → Bytes → Bytes → Bytes
hidden key nonce bytes = covered (length bytes) key (gcm_inc32 (first_counter nonce)) bytes

module _ (key nonce aad : Bytes) (k : length key ≡ 32) (n : length nonce ≡ 12) where
  length-first_counter : length (first_counter nonce) ≡ 16
  length-first_counter = omega (arith, n, length-append nonce (0 ∷ 0 ∷ 0 ∷ 1 ∷ []))

  gcm_tag-ok :
      (ciphertext : Bytes) → gcm_tag key nonce aad ciphertext ≡ ok (tag_of key nonce aad ciphertext)
  unfolding gcm_tag
  gcm_tag-ok ciphertext =
      rw (aes_encrypt_block_256-ok key (replicate 16 0) k refl)
        (rw (aes_encrypt_block_256-ok key (first_counter nonce) k length-first_counter) refl)

  aes_gcm_crypt-ok : (bytes : Bytes) → aes_gcm_crypt key nonce bytes ≡ ok (hidden key nonce bytes)
  unfolding aes_gcm_crypt
  aes_gcm_crypt-ok bytes = rw (twelve n) (
      crypt_blocks-ok (length bytes) key (gcm_inc32 (first_counter nonce)) bytes k
        (length-gcm_inc32 (first_counter nonce) length-first_counter))
    where
      twelve : length nonce ≡ 12 → (length nonce == 12) ≡ true
      twelve e = ground (arith, e)

  aes_gcm_encrypt-ok :
      (plaintext : Bytes)
      → aes_gcm_encrypt key nonce aad plaintext
        ≡ ok (hidden key nonce plaintext ++ tag_of key nonce aad (hidden key nonce plaintext))
  unfolding aes_gcm_encrypt
  aes_gcm_encrypt-ok plaintext =
      rw (aes_gcm_crypt-ok plaintext) (rw (gcm_tag-ok (hidden key nonce plaintext)) refl)

  aes_gcm_decrypt-split :
      (ciphertext tag : Bytes)
      → length tag ≡ 16
      → aes_gcm_decrypt key nonce aad (ciphertext ++ tag)
        ≡ open_checked key nonce ciphertext tag (tag_of key nonce aad ciphertext)
  unfolding aes_gcm_decrypt
  aes_gcm_decrypt-split ciphertext tag t = rw enough (
      ap (λ (c : Bytes). checked c (drop (length (ciphertext ++ tag) - 16) (ciphertext ++ tag)))
        cut.0
      ∙ ap (λ (t' : Bytes). checked ciphertext t') cut.1
      ∙ rw (gcm_tag-ok ciphertext) refl)
    where
      checked : Bytes → Bytes → Result CryptoError Bytes
      checked c t' = gcm_tag key nonce aad c >>= λ expected. open_checked key nonce c t' expected

      enough : ltb (length (ciphertext ++ tag)) 16 ≡ false
      enough = ground (arith, t, length-append ciphertext tag)

      same : length (ciphertext ++ tag) - 16 ≡ length ciphertext
      same = omega (arith, t, length-append ciphertext tag)

      cut :
          (take (length (ciphertext ++ tag) - 16) (ciphertext ++ tag) ≡ ciphertext)
          × (drop (length (ciphertext ++ tag) - 16) (ciphertext ++ tag) ≡ tag)
      cut = rw same (take-append_self ciphertext tag)

  hidden_twice : (plaintext : Bytes) → hidden key nonce (hidden key nonce plaintext) ≡ plaintext
  hidden_twice plaintext =
      rw
        (length-covered (length plaintext) key (gcm_inc32 (first_counter nonce)) plaintext
          (omega arith))
        (covered_twice (length plaintext) key (gcm_inc32 (first_counter nonce)) plaintext
          (omega arith))

-- With a key of 32 bytes and a nonce of 12, encryption gives as many bytes as the plaintext has and
-- 16 more, and decryption of these gives the plaintext.
pub aes_gcm_decrypt-encrypt :
    (key nonce aad plaintext : Bytes)
    → length key ≡ 32
    → length nonce ≡ 12
    → (packed : Bytes) × (aes_gcm_encrypt key nonce aad plaintext ≡ ok packed)
      × (length packed ≡ length plaintext + 16)
      × (aes_gcm_decrypt key nonce aad packed ≡ ok plaintext)
unfolding open_checked
aes_gcm_decrypt-encrypt key nonce aad plaintext k n =
    let ciphertext = hidden key nonce plaintext in
    let tag = tag_of key nonce aad ciphertext in
    (
      ciphertext ++ tag,
      aes_gcm_encrypt-ok key nonce aad k n plaintext,
      omega (
        arith,
        length-append ciphertext tag,
        length-tag_of key nonce aad ciphertext,
        length-covered (length plaintext) key (gcm_inc32 (first_counter nonce)) plaintext
            (omega arith),
      ),
      aes_gcm_decrypt-split key nonce aad k n ciphertext tag
            (length-tag_of key nonce aad ciphertext)
          ∙ rw (=?_refl tag) (
              aes_gcm_crypt-ok key nonce aad k n ciphertext
              ∙ ap ok (hidden_twice key nonce aad k n plaintext)),
    )

-- A ciphertext that comes with another tag of 16 bytes than encryption gave it is refused.
pub aes_gcm_decrypt-forged :
    (key nonce aad plaintext ciphertext tag forged : Bytes)
    → length key ≡ 32
    → length nonce ≡ 12
    → aes_gcm_encrypt key nonce aad plaintext ≡ ok (ciphertext ++ tag)
    → length tag ≡ 16
    → length forged ≡ 16
    → forged ≢ tag
    → aes_gcm_decrypt key nonce aad (ciphertext ++ forged) ≡ raise authentication_failed
unfolding open_checked
aes_gcm_decrypt-forged key nonce aad plaintext ciphertext tag forged k n sealed t f differs =
    aes_gcm_decrypt-split key nonce aad k n ciphertext forged f ∙ refused
  where
    ok_inj : (a b : Bytes) → ◌≡◌ {A = Result CryptoError Bytes} (ok a) (ok b) → a ≡ b
    ok_inj a b e = cc

    whole :
        hidden key nonce plaintext ++ tag_of key nonce aad (hidden key nonce plaintext)
        ≡ ciphertext ++ tag
    whole = ok_inj _ _ (sym (aes_gcm_encrypt-ok key nonce aad k n plaintext) ∙ sealed)

    mine : tag_of key nonce aad ciphertext ≡ tag
    mine =
        let (a, b) =
          append-eq (hidden key nonce plaintext) (tag_of key nonce aad (hidden key nonce plaintext))
            ciphertext tag whole
            (length-tag_of key nonce aad (hidden key nonce plaintext) ∙ sym t) in
        rw a at b

    refused :
        open_checked key nonce ciphertext forged (tag_of key nonce aad ciphertext)
        ≡ raise authentication_failed
    refused = elim (Bool-cases (forged =? tag_of key nonce aad ciphertext)) [
      | inl e ↦ absurd (differs ((list_eq.beq_iff _ _).0 e ∙ mine))
      | inr e ↦ rw e refl
    ]
