-- ===== src/Relay/Socket.antt =====
-- `ws_recv_exact` of resources/scripts/napseer_mcp_server.py. A socket is the packets that are still
-- to come before the other side closes it; sock.recv(n) gives at most n bytes of the first.
use nap_cli.Prelude.{
  ℕ, zero, suc, ◌+◌, ◌-◌, ◌≡◌, refl, ◌∙◌, ap, sym, inl, inr, List, [], ◌∷◌, ◌++◌, arith,
  if◌then◌else◌, leb, length, take, drop, Bytes, Bool-cases, take-append_self, take-append_within,
}

abbrev pub Sock : Type 0
Sock = List Bytes

abbrev pub to_come : Sock → Bytes
to_come [] = []
to_come (packet ∷ sock) = packet ++ to_come sock

-- The loop of `ws_recv_exact`, with the bytes that are still wanted.
unfoldable pub ws_recv_exact : ℕ → Sock → Bytes × Sock
ws_recv_exact n [] = ([], [])
ws_recv_exact n (packet ∷ sock) =
    let (more, rest) = ws_recv_exact (n - length packet) sock in
    if leb (length packet) n then (packet ++ more, rest) else (take n packet, drop n packet ∷ sock)

take-append_past {ℓ} :
    {A : Type ℓ} (n m : ℕ) (xs ys : List A)
    → n ≡ length xs + m
    → (take n (xs ++ ys) ≡ xs ++ take m ys) × (drop n (xs ++ ys) ≡ drop m ys)
take-append_past n m [] ys e =
    (ap (λ k. take k ys) (omega arith), ap (λ k. drop k ys) (omega arith))
take-append_past zero m (x ∷ xs) ys e = absurd (omega arith)
take-append_past (suc n) m (x ∷ xs) ys e =
    let (a, b) = take-append_past n m xs ys (omega arith) in (ap (λ zs. x ∷ zs) a, b)

-- However the bytes are cut into packets, the first `n` of them are read, or all there are, and the
-- others are left.
pub ws_recv_exact_lem :
    (n : ℕ) (sock : Sock)
    → ((ws_recv_exact n sock).0 ≡ take n (to_come sock))
      × (to_come (ws_recv_exact n sock).1 ≡ drop n (to_come sock))
unfolding ws_recv_exact
ws_recv_exact_lem zero [] = (refl, refl)
ws_recv_exact_lem (suc n) [] = (refl, refl)
ws_recv_exact_lem n (packet ∷ sock) = elim (Bool-cases (leb (length packet) n)) [
  | inl e ↦
      (let (a, b) = ws_recv_exact_lem (n - length packet) sock in
        let (c, d) =
          take-append_past n (n - length packet) packet (to_come sock) (ground (arith, e)) in
        rw (e, ws_recv_exact) (ap (λ zs. packet ++ zs) a ∙ sym c, b ∙ sym d))
  | inr e ↦
      (let (c, d) = take-append_within n packet (to_come sock) (ground (arith, e)) in
        rw (e, ws_recv_exact) (sym c, sym d))
]

pub ws_recv_exact_whole :
    (n : ℕ) (sock : Sock) (xs ys : Bytes)
    → length xs ≡ n
    → to_come sock ≡ xs ++ ys
    → ((ws_recv_exact n sock).0 ≡ xs) × (to_come (ws_recv_exact n sock).1 ≡ ys)
ws_recv_exact_whole n sock xs ys len e =
    let (a, b) = ws_recv_exact_lem n sock in
    let (c, d) = take-append_self xs ys in
    (
      a ∙ ap (take n) e ∙ ap (λ k. take k (xs ++ ys)) (sym len) ∙ c,
      b ∙ ap (drop n) e ∙ ap (λ k. drop k (xs ++ ys)) (sym len) ∙ d,
    )
