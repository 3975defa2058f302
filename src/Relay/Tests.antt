-- ===== src/Relay/Tests.antt =====
-- Runs of the relay's framing and encryption at concrete inputs.
use nap_cli.Prelude.{
  ℕ, ◌≡◌, ◌≢◌, refl, String, none, some, [], ◌∷◌, ◌++◌, arith, length, replicate, Bytes, ap, get_or,
  drop, if◌then◌else◌, ◌==◌,
}
use nap_cli.Prelude.Result.{ok, raise}
use nap_cli.Relay.Socket.{Sock, to_come, ws_recv_exact, ws_recv_exact_lem}
use nap_cli.Relay.Frame.{ws_send_frame, ws_read_text, frame_length}
use nap_cli.Relay.FrameTrip.{ws_read_text-send}
use nap_cli.Relay.Aes.{authentication_failed, aes_encrypt_block_256}
use nap_cli.Relay.Gcm.{aes_gcm_encrypt, aes_gcm_decrypt}
use nap_cli.Relay.Sealing.{aes_gcm_decrypt-encrypt, aes_gcm_decrypt-forged}

-- Three bytes that come in two packets, and one more.
abbrev cut_up : Sock
cut_up = (1 ∷ []) ∷ (2 ∷ 3 ∷ 4 ∷ []) ∷ []

three_received :
    ((ws_recv_exact 3 cut_up).0 ≡ 1 ∷ 2 ∷ 3 ∷ []) × (to_come (ws_recv_exact 3 cut_up).1 ≡ 4 ∷ [])
three_received = ws_recv_exact_lem 3 cut_up

abbrev named : Bytes → String
named bytes = if length bytes == 2 then "hi" else "?"

abbrev frame : Bytes
frame = 129 ∷ 130 ∷ 1 ∷ 2 ∷ 3 ∷ 4 ∷ 105 ∷ 107 ∷ []

frame_sent : ws_send_frame (1 ∷ 2 ∷ 3 ∷ 4 ∷ []) 1 (104 ∷ 105 ∷ []) ≡ some frame
unfolding ws_send_frame frame_length
frame_sent = refl

ws_read_text-send_example :
    ((ws_read_text named (replicate 4 0) ((129 ∷ []) ∷ (drop 1 frame ++ (137 ∷ [])) ∷ [])).0
      ≡ record { text = some "hi"; details = none; reply = none })
    × (to_come
          (ws_read_text named (replicate 4 0) ((129 ∷ []) ∷ (drop 1 frame ++ (137 ∷ [])) ∷ [])).1
        ≡ 137 ∷ [])
ws_read_text-send_example =
    ws_read_text-send named (replicate 4 0) (1 ∷ 2 ∷ 3 ∷ 4 ∷ []) (104 ∷ 105 ∷ []) frame (137 ∷ [])
      ((129 ∷ []) ∷ (drop 1 frame ++ (137 ∷ [])) ∷ []) refl frame_sent refl

-- The example of appendix C.3 of FIPS 197.
fips_197 :
    aes_encrypt_block_256
      (0 ∷ 1 ∷ 2 ∷ 3 ∷ 4 ∷ 5 ∷ 6 ∷ 7 ∷ 8 ∷ 9 ∷ 10 ∷ 11 ∷ 12 ∷ 13 ∷ 14 ∷ 15 ∷ 16 ∷ 17 ∷ 18 ∷ 19 ∷ 20
        ∷ 21 ∷ 22 ∷ 23 ∷ 24 ∷ 25 ∷ 26 ∷ 27 ∷ 28 ∷ 29 ∷ 30 ∷ 31 ∷ [])
      (0x00 ∷ 0x11 ∷ 0x22 ∷ 0x33 ∷ 0x44 ∷ 0x55 ∷ 0x66 ∷ 0x77 ∷ 0x88 ∷ 0x99 ∷ 0xaa ∷ 0xbb ∷ 0xcc
        ∷ 0xdd ∷ 0xee ∷ 0xff ∷ [])
    ≡ ok (
        0x8e ∷ 0xa2 ∷ 0xb7 ∷ 0xca ∷ 0x51 ∷ 0x67 ∷ 0x45 ∷ 0xbf ∷ 0xea ∷ 0xfc ∷ 0x49 ∷ 0x90 ∷ 0x4b
        ∷ 0x49 ∷ 0x60 ∷ 0x89 ∷ [])
unfolding aes_encrypt_block_256
fips_197 = refl

abbrev some_key : Bytes
some_key = replicate 32 7

abbrev some_nonce : Bytes
some_nonce = replicate 12 1

abbrev hidden_letter : Bytes
hidden_letter = 30 ∷ 136 ∷ []

abbrev letter_tag : Bytes
letter_tag =
    78 ∷ 53 ∷ 170 ∷ 121 ∷ 160 ∷ 153 ∷ 189 ∷ 167 ∷ 123 ∷ 153 ∷ 52 ∷ 207 ∷ 238 ∷ 93 ∷ 8 ∷ 179 ∷ []

letter_sealed :
    aes_gcm_encrypt some_key some_nonce (120 ∷ []) (104 ∷ 105 ∷ [])
    ≡ ok (hidden_letter ++ letter_tag)
unfolding aes_gcm_encrypt aes_encrypt_block_256
letter_sealed = refl

aes_gcm_decrypt-encrypt_example :
    (packed : Bytes) × (aes_gcm_encrypt some_key some_nonce [] (104 ∷ 105 ∷ []) ≡ ok packed)
    × (length packed ≡ 18)
    × (aes_gcm_decrypt some_key some_nonce [] packed ≡ ok (104 ∷ 105 ∷ []))
aes_gcm_decrypt-encrypt_example =
    aes_gcm_decrypt-encrypt some_key some_nonce [] (104 ∷ 105 ∷ []) refl refl

aes_gcm_decrypt-forged_example :
    aes_gcm_decrypt some_key some_nonce (120 ∷ []) (hidden_letter ++ replicate 16 0)
    ≡ raise authentication_failed
aes_gcm_decrypt-forged_example =
    aes_gcm_decrypt-forged some_key some_nonce (120 ∷ []) (104 ∷ 105 ∷ []) hidden_letter letter_tag
      (replicate 16 0) refl refl letter_sealed refl refl
      (λ e. absurd (0≢78 (ap (λ (t : Bytes). get_or t 0 0) e)))
  where
    0≢78 : ◌≢◌ {A = ℕ} 0 78
    0≢78 e = omega (arith, e)
