-- ===== src/Relay/FrameTrip.antt =====
-- A frame that is sent is received as it was, however the network cuts it up.
use nap_cli.Prelude.{
  ℕ, suc, ◌+◌, ◌/◌, ◌%◌, ◌^◌, ◌<◌, ◌≡◌, refl, sym, ap, ◌∙◌, inl, inr, String, true, false, none,
  some, [], ◌∷◌, ◌++◌, arith, ltb, ◌==◌, length, get_or, Bytes, xor_twice, to_big, from_big,
  length-to_big, from_big-to_big, Bool-cases,
}
use mathlib.Core.List.{append_assoc}
use nap_cli.Relay.Socket.{Sock, to_come, ws_recv_exact, ws_recv_exact_whole}
use nap_cli.Relay.Frame.{
  apply_mask, frame_length, ws_send_frame, Received, handle_payload, unmask, read_payload,
  read_mask, after_length, read_length, extend_length, read_header, ws_read_text,
}

apply_mask_twice :
    (mask : Bytes) (i : ℕ) (payload : Bytes)
    → apply_mask mask i (apply_mask mask i payload) ≡ payload
apply_mask_twice mask i [] = refl
apply_mask_twice mask i (b ∷ payload) =
    cc (xor_twice b (get_or mask (i % 4) 0), apply_mask_twice mask (i + 1) payload)

length-apply_mask :
    (mask : Bytes) (i : ℕ) (payload : Bytes) → length (apply_mask mask i payload) ≡ length payload
length-apply_mask mask i [] = refl
length-apply_mask mask i (b ∷ payload) = ap suc (length-apply_mask mask (i + 1) payload)

pair_value : (n : ℕ) → n < 65536 → from_big ((n / 256 % 256) ∷ (n % 256) ∷ []) ≡ n
unfolding from_big
pair_value n h = omega arith

regroup : (f m k more : Bytes) → (f ++ (m ++ k)) ++ more ≡ f ++ (m ++ (k ++ more))
regroup f m k more =
    append_assoc f (m ++ k) more ∙ ap (λ (xs : Bytes). f ++ xs) (append_assoc m k more)

opcode_field : (opcode : ℕ) → opcode < 16 → (128 + opcode % 16) % 16 ≡ opcode
opcode_field opcode h = omega arith

length_field : (n : ℕ) → n < 128 → (128 + n) % 128 ≡ n
length_field n h = omega arith

mask_field : (n : ℕ) → n < 128 → ((128 + n) / 128 % 2 == 1) ≡ true
mask_field n h = ground arith

module _ (decode : Bytes → String) (reply_mask : Bytes) where
  -- The outcome is that of the whole payload, and what comes later is left on the socket.
  abbrev Gets : ℕ → Bytes → Bytes → Received × Sock → Type 0
  Gets opcode payload more (r, t) =
      (r ≡ handle_payload decode reply_mask opcode payload) × (to_come t ≡ more)

  read_payload-Gets :
      (opcode : ℕ) (mask masked more : Bytes) (x : Bytes × Sock)
      → x.0 ≡ masked
      → to_come x.1 ≡ more
      → Gets opcode
          (unmask decode reply_mask mask masked)
          more
          (read_payload decode reply_mask opcode (length masked) mask x)
  unfolding read_payload
  read_payload-Gets opcode mask masked more (bytes, sock) e later =
      rw e (elim (Bool-cases (ltb (length masked) (length masked))) [
        | inl short ↦ absurd (ground (arith, short))
        | inr enough ↦ rw (enough, read_payload) (refl, later)
      ])

  read_mask-Gets :
      (opcode : ℕ) (mask masked more : Bytes) (x : Bytes × Sock)
      → x.0 ≡ mask
      → length mask ≡ 4
      → to_come x.1 ≡ masked ++ more
      → Gets opcode
          (unmask decode reply_mask mask masked)
          more
          (read_mask decode reply_mask opcode (length masked) true x)
  unfolding read_mask
  read_mask-Gets opcode mask masked more (bytes, sock) e four later =
      rw e (elim (Bool-cases (ltb (length mask) 4)) [
        | inl short ↦ absurd (ground (arith, short, four))
        | inr enough ↦
            (let (a, b) = ws_recv_exact_whole (length masked) sock masked more refl later in
              rw (enough, read_mask)
                (read_payload-Gets opcode mask masked more (ws_recv_exact (length masked) sock) a
                  b))
      ])

  after_length-Gets :
      (opcode n : ℕ) (mask masked more : Bytes) (sock : Sock)
      → n ≡ length masked
      → length mask ≡ 4
      → to_come sock ≡ mask ++ (masked ++ more)
      → Gets opcode
          (unmask decode reply_mask mask masked)
          more
          (after_length decode reply_mask opcode n true sock)
  unfolding after_length
  after_length-Gets opcode n mask masked more sock same four later =
      let (a, b) = ws_recv_exact_whole 4 sock mask (masked ++ more) four later in
      rw same (read_mask-Gets opcode mask masked more (ws_recv_exact 4 sock) a four b)

  read_length-Gets :
      (opcode wanted : ℕ) (size mask masked more : Bytes) (x : Bytes × Sock)
      → x.0 ≡ size
      → length size ≡ wanted
      → from_big size ≡ length masked
      → length mask ≡ 4
      → to_come x.1 ≡ mask ++ (masked ++ more)
      → Gets opcode
          (unmask decode reply_mask mask masked)
          more
          (read_length decode reply_mask opcode wanted true x)
  unfolding read_length
  read_length-Gets opcode wanted size mask masked more (bytes, sock) e len value four later =
      rw e (elim (Bool-cases (ltb (length size) wanted)) [
        | inl short ↦ absurd (ground (arith, short, len))
        | inr enough ↦
            rw (enough, read_length)
              (after_length-Gets opcode (from_big size) mask masked more sock value four later)
      ])

  extend_length-Gets :
      (opcode n : ℕ) (size mask masked more : Bytes) (sock : Sock)
      → (128 + n) ∷ size ≡ frame_length (length masked)
      → n < 128
      → length masked < 2 ^ 64
      → length mask ≡ 4
      → to_come sock ≡ size ++ (mask ++ (masked ++ more))
      → Gets opcode
          (unmask decode reply_mask mask masked)
          more
          (extend_length decode reply_mask opcode n true sock)
  unfolding extend_length frame_length
  extend_length-Gets opcode n size mask masked more sock form low fits four later =
      elim (Bool-cases (ltb (length masked) 126)) [
        | inl small ↦
            (let same : n ≡ length masked = ground (arith, small, form) in
              let none' : size ≡ [] = ground (arith, small, form) in
              rw (not_126 same small, extend_length)
                (rw (not_127 same small) (
                  after_length-Gets opcode n mask masked more sock same four
                    (later ∙ ap (λ xs. xs ++ (mask ++ (masked ++ more))) none'))))
        | inr big ↦ elim (Bool-cases (ltb (length masked) 65536)) [
          | inl medium ↦
              (let is : n ≡ 126 = ground (arith, big, medium, form) in
                let two : size ≡ (length masked / 256 % 256) ∷ (length masked % 256) ∷ [] =
                  ground (arith, big, medium, form) in
                let (a, b) =
                  ws_recv_exact_whole 2 sock size (mask ++ (masked ++ more)) (rw two refl) later in
                rw is (
                  read_length-Gets opcode 2 size mask masked more (ws_recv_exact 2 sock) a
                    (rw two refl) (rw two (pair_value (length masked) (ground (arith, medium))))
                    four b))
          | inr large ↦
              (let is : n ≡ 127 = ground (arith, big, large, form) in
                let eight : size ≡ to_big 8 (length masked) = ground (arith, big, large, form) in
                let (a, b) =
                  ws_recv_exact_whole 8 sock size (mask ++ (masked ++ more))
                    (rw eight (length-to_big 8 (length masked))) later in
                rw is (
                  read_length-Gets opcode 8 size mask masked more (ws_recv_exact 8 sock) a
                    (rw eight (length-to_big 8 (length masked)))
                    (rw eight (from_big-to_big 8 (length masked) fits)) four b))
        ]
      ]
    where
      not_126 : n ≡ length masked → ltb (length masked) 126 ≡ true → (n == 126) ≡ false
      not_126 same small = ground (arith, same, small)

      not_127 : n ≡ length masked → ltb (length masked) 126 ≡ true → (n == 127) ≡ false
      not_127 same small = ground (arith, same, small)

  unmask_apply :
      (mask payload : Bytes)
      → length mask ≡ 4
      → unmask decode reply_mask mask (apply_mask mask 0 payload) ≡ payload
  unfolding unmask
  unmask_apply [] payload four = absurd (omega (arith, four))
  unmask_apply (m ∷ mask) payload four = apply_mask_twice (m ∷ mask) 0 payload

  frame_length_shape :
      (k : ℕ) → (n : ℕ) × (size : Bytes) × ((128 + n) ∷ size ≡ frame_length k) × (n < 128)
  unfolding frame_length
  frame_length_shape k = elim (Bool-cases (ltb k 126)) [
    | inl small ↦ (k, [], rw small refl, ground (arith, small))
    | inr big ↦ elim (Bool-cases (ltb k 65536)) [
      | inl medium ↦ (126, (k / 256 % 256) ∷ (k % 256) ∷ [], rw big (rw medium refl), omega arith)
      | inr large ↦ (127, to_big 8 k, rw big (rw large refl), omega arith)
    ]
  ]

  read_header_lem :
      (x : Bytes × Sock) (first second : ℕ)
      → x.0 ≡ first ∷ second ∷ []
      → read_header decode reply_mask x
        ≡ extend_length decode reply_mask (first % 16) (second % 128) (second / 128 % 2 == 1) x.1
  unfolding read_header
  read_header_lem (bytes, sock) first second e = rw e refl

  read_frame-Gets :
      (opcode : ℕ) (mask payload more : Bytes) (sock : Sock)
      → opcode < 16
      → length mask ≡ 4
      → length payload < 2 ^ 64
      → to_come sock ≡ (
          ((128 + opcode % 16)
            ∷ (frame_length (length payload) ++ (mask ++ apply_mask mask 0 payload)))
          ++ more)
      → Gets opcode payload more (ws_read_text decode reply_mask sock)
  unfolding ws_read_text
  read_frame-Gets opcode mask payload more sock op four fits whole =
      let (n, size, form, low) = frame_length_shape (length payload) in
      let masked = apply_mask mask 0 payload in
      let tail = size ++ (mask ++ (masked ++ more)) in
      let split : to_come sock ≡ ((128 + opcode % 16) ∷ (128 + n) ∷ []) ++ tail =
        whole
        ∙ ap (λ (xs : Bytes). (128 + opcode % 16) ∷ xs)
            (regroup (frame_length (length payload)) mask masked more
              ∙ ap (λ (xs : Bytes). xs ++ (mask ++ (masked ++ more))) (sym form)) in
      let (a, b) =
        ws_recv_exact_whole 2 sock ((128 + opcode % 16) ∷ (128 + n) ∷ []) tail refl split in
      let same = length-apply_mask mask 0 payload in
      let got =
        extend_length-Gets opcode n size mask masked more (ws_recv_exact 2 sock).1 (rw same form)
          low (rw same fits) four b in
      rw (read_header_lem (ws_recv_exact 2 sock) (128 + opcode % 16) (128 + n) a) (
        rw (opcode_field opcode op) (
          rw (length_field n low)
            (rw (mask_field n low) (rw (unmask_apply mask payload four) at got))))

  -- A text frame that is sent, with any mask and of any size that a frame can have, is received as
  -- its text, however the network cuts up what comes over it, and what comes later is left.
  pub ws_read_text-send :
      (mask payload frame more : Bytes) (sock : Sock)
      → length mask ≡ 4
      → ws_send_frame mask 1 payload ≡ some frame
      → to_come sock ≡ frame ++ more
      → ((ws_read_text decode reply_mask sock).0
          ≡ record { text = some (decode payload); details = none; reply = none })
        × (to_come (ws_read_text decode reply_mask sock).1 ≡ more)
  unfolding ws_send_frame handle_payload
  ws_read_text-send mask payload frame more sock four sends whole =
      elim (Bool-cases (ltb (length payload) (2 ^ 64))) [
        | inl fits ↦
            read_frame-Gets 1 mask payload more sock (omega arith) four (ground (arith, fits))
              (whole ∙ ap (λ (xs : Bytes). xs ++ more) (sym (sent fits sends)))
        | inr large ↦ absurd (ground (arith, sends, large))
      ]
    where
      sent :
          ltb (length payload) (2 ^ 64) ≡ true
          → ws_send_frame mask 1 payload ≡ some frame
          → (129 ∷ (frame_length (length payload) ++ (mask ++ apply_mask mask 0 payload))) ≡ frame
      sent fits e = ground (arith, fits, e)
