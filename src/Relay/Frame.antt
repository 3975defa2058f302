-- ===== src/Relay/Frame.antt =====
-- `ws_send_frame` and `ws_read_text` of resources/scripts/napseer_mcp_server.py. `mask` is what
-- secrets.token_bytes(4) gives, and `decode` is decoding from UTF-8 with replacement.
use nap_cli.Prelude.{
  ℕ, ◌+◌, ◌/◌, ◌%◌, ◌^◌, String, Bool, true, false, ◌&&◌, Option, none, some, [], ◌∷◌, ◌++◌,
  if◌then◌else◌, ltb, ◌==◌, length, get_or, Bytes, bit_xor, to_big, from_big,
}
use nap_cli.Relay.Socket.{Sock, ws_recv_exact}

-- `bytes(byte ^ mask[index % 4] for index, byte in enumerate(payload))`, from an index on.
abbrev pub apply_mask : Bytes → ℕ → Bytes → Bytes
apply_mask mask index [] = []
apply_mask mask index (b ∷ payload) =
    bit_xor b (get_or mask (index % 4) 0) ∷ apply_mask mask (index + 1) payload

unfoldable pub frame_length : ℕ → Bytes
unfolding to_big
frame_length n =
    if ltb n 126
    then (128 + n) ∷ []
    else if ltb n 65536
    then (128 + 126) ∷ (n / 256 % 256) ∷ (n % 256) ∷ []
    else (128 + 127) ∷ to_big 8 n

-- `ws_send_frame`: what is sent, or `none` where to_bytes raises OverflowError.
unfoldable pub ws_send_frame : Bytes → ℕ → Bytes → Option Bytes
unfolding frame_length
ws_send_frame mask opcode payload =
    if ltb (length payload) (2 ^ 64)
    then some (
        (128 + opcode % 16)
        ∷ (frame_length (length payload) ++ (mask ++ apply_mask mask 0 payload)))
    else none

-- What WS_CLOSE_DETAILS is given: the stage at which the socket was closed, or a close frame.
pub data CloseDetails : Type 0 where
  in_header in_length in_mask in_payload : CloseDetails
  close_frame : Option ℕ → String → CloseDetails

-- The text returned (None or a text), the details, and the frame that is sent back.
pub record Received : Type 0 where
  pub text : Option String
  pub details : Option CloseDetails
  pub reply : Option Bytes

abbrev pub closed : CloseDetails → Received
closed details = record { text = none; details = some details; reply = none }

module _ (decode : Bytes → String) (reply_mask : Bytes) where
  unfoldable pub close_details : Bytes → CloseDetails
  unfolding from_big
  close_details (a ∷ b ∷ reason) = close_frame (some (from_big (a ∷ b ∷ []))) (decode reason)
  close_details (a ∷ []) = close_frame none (decode (a ∷ []))
  close_details [] = close_frame none ""

  unfoldable pub handle_payload : ℕ → Bytes → Received
  unfolding close_details ws_send_frame
  handle_payload opcode payload =
      if opcode == 8
      then record {
        text = none;
        details = some (close_details payload);
        reply = ws_send_frame reply_mask 8 payload;
      }
      else if opcode == 9
      then record { text = some ""; details = none; reply = ws_send_frame reply_mask 10 payload }
      else if opcode == 1
      then record { text = some (decode payload); details = none; reply = none }
      else record { text = some ""; details = none; reply = none }

  unfoldable pub unmask : Bytes → Bytes → Bytes
  unmask [] payload = payload
  unmask (m ∷ mask) payload = apply_mask (m ∷ mask) 0 payload

  unfoldable pub read_payload : ℕ → ℕ → Bytes → Bytes × Sock → Received × Sock
  unfolding handle_payload unmask
  read_payload opcode n mask (payload, sock) =
      if ltb (length payload) n
      then (closed in_payload, sock)
      else (handle_payload opcode (unmask mask payload), sock)

  unfoldable pub read_mask : ℕ → ℕ → Bool → Bytes × Sock → Received × Sock
  unfolding read_payload ws_recv_exact
  read_mask opcode n masked (mask, sock) =
      if masked && ltb (length mask) 4
      then (closed in_mask, sock)
      else read_payload opcode n mask (ws_recv_exact n sock)

  -- `ws_recv_exact(sock, 4) if second & 0x80 else b""`
  unfoldable pub after_length : ℕ → ℕ → Bool → Sock → Received × Sock
  unfolding read_mask
  after_length opcode n true sock = read_mask opcode n true (ws_recv_exact 4 sock)
  after_length opcode n false sock = read_mask opcode n false ([], sock)

  unfoldable pub read_length : ℕ → ℕ → Bool → Bytes × Sock → Received × Sock
  unfolding after_length from_big
  read_length opcode wanted masked (bytes, sock) =
      if ltb (length bytes) wanted
      then (closed in_length, sock)
      else after_length opcode (from_big bytes) masked sock

  -- The test of the 7-bit length.
  unfoldable pub extend_length : ℕ → ℕ → Bool → Sock → Received × Sock
  unfolding read_length
  extend_length opcode n masked sock =
      if n == 126
      then read_length opcode 2 masked (ws_recv_exact 2 sock)
      else if n == 127
      then read_length opcode 8 masked (ws_recv_exact 8 sock)
      else after_length opcode n masked sock

  unfoldable pub read_header : Bytes × Sock → Received × Sock
  unfolding extend_length
  read_header (first ∷ second ∷ [], sock) =
      extend_length (first % 16) (second % 128) (second / 128 % 2 == 1) sock
  read_header (other, sock) = (closed in_header, sock)

  unfoldable pub ws_read_text : Sock → Received × Sock
  unfolding read_header
  ws_read_text sock = read_header (ws_recv_exact 2 sock)
