-- ===== src/Vault/Poly.antt =====
-- Poly1305: `_poly1305_mac` and `_aead_mac_data` of resources/scripts/napseer_mcp_server.py.
use nap_cli.Prelude.{
  ℕ, zero, suc, ◌+◌, ◌-◌, ◌*◌, ◌%◌, ◌^◌, [], ◌∷◌, ◌++◌, if◌then◌else◌, ◌==◌, length, take, drop,
  replicate, Bytes, bit_and, from_little, to_little,
}

abbrev pub poly_prime : ℕ
poly_prime = 2 ^ 130 - 5

-- The loop over the blocks of 16 bytes; a block for each byte is enough.
unfoldable pub mac_blocks : ℕ → ℕ → ℕ → Bytes → ℕ
unfolding from_little
mac_blocks zero r acc bytes = acc
mac_blocks (suc n) r acc [] = acc
mac_blocks (suc n) r acc (b ∷ bytes) =
    mac_blocks n r
      ((acc + from_little (take 16 (b ∷ bytes) ++ 1 ∷ [])) % poly_prime * r % poly_prime)
      (drop 16 (b ∷ bytes))

-- `_poly1305_mac`
unfoldable pub poly1305_mac : Bytes → Bytes → Bytes
unfolding mac_blocks from_little to_little
poly1305_mac message key = to_little 16 (
    (mac_blocks (length message)
        (bit_and (from_little (take 16 key)) 0x0ffffffc0ffffffc0ffffffc0fffffff) 0 message
      + from_little (drop 16 key))
    % 2 ^ 128)

abbrev pub pad16 : Bytes → Bytes
pad16 bytes = if length bytes % 16 == 0 then [] else replicate (16 - length bytes % 16) 0

-- `_aead_mac_data`
unfoldable pub aead_mac_data : Bytes → Bytes → Bytes
unfolding to_little
aead_mac_data aad ciphertext =
    aad
    ++ (pad16 aad
        ++ (ciphertext
            ++ (pad16 ciphertext ++ (to_little 8 (length aad) ++ to_little 8 (length ciphertext)))))
