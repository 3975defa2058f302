-- ===== src/Vault/Tests.antt =====
-- Runs of the vault's encryption at concrete inputs.
use nap_cli.Prelude.{ℕ, ◌≡◌, ◌≢◌, refl, [], ◌∷◌, arith, length, replicate, Bytes, ap, get_or}
use nap_cli.Prelude.Result.{ok, raise}
use nap_cli.Vault.Chacha.{
  open_failed, packed_sums, double_rounds, initial_state, block_of, chacha20_block, xor_blocks,
  chacha20_xor,
}
use nap_cli.Vault.Poly.{poly1305_mac, aead_mac_data}
use nap_cli.Vault.Payload.{encrypt_vault_payload, decrypt_vault_payload}
use nap_cli.Vault.Sealing.{decrypt-encrypt_vault_payload, decrypt_vault_payload-forged}

abbrev some_key : Bytes
some_key = replicate 32 7

abbrev some_nonce : Bytes
some_nonce = replicate 12 1

abbrev letter : Bytes
letter = 104 ∷ 105 ∷ []

decrypt-encrypt_vault_payload_example :
    (ciphertext : Bytes) × (tag : Bytes) × (encrypt_vault_payload some_key some_nonce letter []
      ≡ ok (some_nonce, ciphertext, tag))
    × (length ciphertext ≡ 2)
    × (length tag ≡ 16)
    × (decrypt_vault_payload some_key some_nonce ciphertext tag [] ≡ ok letter)
decrypt-encrypt_vault_payload_example =
    decrypt-encrypt_vault_payload some_key some_nonce letter [] refl refl

abbrev hidden_letter : Bytes
hidden_letter = 20 ∷ 35 ∷ []

abbrev letter_tag : Bytes
letter_tag =
    221 ∷ 60 ∷ 139 ∷ 84 ∷ 122 ∷ 242 ∷ 92 ∷ 68 ∷ 112 ∷ 23 ∷ 217 ∷ 213 ∷ 105 ∷ 154 ∷ 152 ∷ 156 ∷ []

letter_sealed :
    encrypt_vault_payload some_key some_nonce letter [] ≡ ok (some_nonce, hidden_letter, letter_tag)
unfolding encrypt_vault_payload chacha20_block chacha20_xor xor_blocks block_of poly1305_mac
    packed_sums double_rounds initial_state aead_mac_data
letter_sealed = refl

decrypt_vault_payload-forged_example :
    decrypt_vault_payload some_key some_nonce hidden_letter (replicate 16 0) [] ≡ raise open_failed
decrypt_vault_payload-forged_example =
    decrypt_vault_payload-forged some_key some_nonce letter [] hidden_letter letter_tag
      (replicate 16 0) refl refl letter_sealed
      (λ e. absurd (0≢221 (ap (λ (t : Bytes). get_or t 0 0) e)))
  where
    0≢221 : ◌≢◌ {A = ℕ} 0 221
    0≢221 e = omega (arith, e)
