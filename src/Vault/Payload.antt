-- ===== src/Vault/Payload.antt =====
-- `_encrypt_vault_payload` and `_decrypt_vault_payload` of resources/scripts/napseer_mcp_server.py.
use nap_cli.Prelude.{if◌then◌else◌, take, Bytes, ℕ_eq, list_eq, ◌=?◌}
use nap_cli.Prelude.Result.{Result, ok, raise, ◌>>=◌}
use nap_cli.Vault.Chacha.{VaultError, open_failed, chacha20_block, chacha20_xor}
use nap_cli.Vault.Poly.{poly1305_mac, aead_mac_data}

-- `nonce` is what secrets.token_bytes(12) gives; the nonce, the ciphertext and the tag.
unfoldable pub encrypt_vault_payload :
    Bytes → Bytes → Bytes → Bytes → Result VaultError (Bytes × Bytes × Bytes)
encrypt_vault_payload key nonce plaintext aad = do
  block ← chacha20_block key 0 nonce
  ciphertext ← chacha20_xor key nonce plaintext
  ok (nonce, ciphertext, poly1305_mac (aead_mac_data aad ciphertext) (take 32 block))

unfoldable pub decrypt_vault_payload :
    Bytes → Bytes → Bytes → Bytes → Bytes → Result VaultError Bytes
decrypt_vault_payload key nonce ciphertext tag aad = do
  block ← chacha20_block key 0 nonce
  if poly1305_mac (aead_mac_data aad ciphertext) (take 32 block) =? tag
      then chacha20_xor key nonce ciphertext
      else raise open_failed
