-- ===== src/Spake/Transcript.antt =====
-- The transcript that both sides hash determines its fields.
use nap_cli.Prelude.{
  ℕ, ◌<◌, ◌^◌, ◌≡◌, refl, sym, ap, ◌∙◌, inl, inr, List, [], ◌∷◌, ◌++◌, ltb, arith, length,
  length-append, append-eq, take, drop, take-append_self, Bytes, Bool-cases, to_little, from_little,
  length-to_little, from_little-to_little,
}
use nap_cli.Prelude.Result.{Result, ok, raise, ◌>>=◌, bind-ok}
use mathlib.Core.List.{append_assoc}
use nap_cli.Spake.Point.{SpakeError, overflow}
use nap_cli.Spake.Keys.{len_prefixed, joined}

value : (a b : Bytes) → ◌≡◌ {A = Result SpakeError Bytes} (ok a) (ok b) → a ≡ b
value a b e = cc

len_prefixed-ok :
    (v first : Bytes)
    → len_prefixed v ≡ ok first
    → (length v < 2 ^ 64) × (to_little 8 (length v) ++ v ≡ first)
unfolding len_prefixed
len_prefixed-ok v first h = elim (Bool-cases (ltb (length v) (2 ^ 64))) [
  | inl e ↦ (ground (arith, e), value (to_little 8 (length v) ++ v) first (rw e at h))
  | inr e ↦ absurd (refused (rw e at h))
]
  where
    refused : ◌≡◌ {A = Result SpakeError Bytes} (raise overflow) (ok first) → ⊥
    refused e = cc

-- What a first field adds.
joined_cons :
    (field : Bytes) (fields : List Bytes) (t : Bytes)
    → joined (field ∷ fields) ≡ ok t
    → (rest : Bytes) × (joined fields ≡ ok rest)
      × (length field < 2 ^ 64)
      × (to_little 8 (length field) ++ (field ++ rest) ≡ t)
unfolding joined
joined_cons field fields t h =
    let (first, a, later) =
      bind-ok (len_prefixed field) (λ first. joined fields >>= λ rest. ok (first ++ rest)) t h in
    let (rest, b, sum) = bind-ok (joined fields) (λ rest. ok (first ++ rest)) t later in
    let (fits, shape) = len_prefixed-ok field first a in
    (
      rest,
      b,
      fits,
      sym (append_assoc (to_little 8 (length field)) field rest)
          ∙ ap (λ (xs : Bytes). xs ++ rest) shape
          ∙ value (first ++ rest) t sum,
    )

-- Where the sizes of two fields and what follows them agree, so do the fields.
same_fields :
    (x y r s : Bytes)
    → length x < 2 ^ 64
    → length y < 2 ^ 64
    → to_little 8 (length x) ++ (x ++ r) ≡ to_little 8 (length y) ++ (y ++ s)
    → (x ≡ y) × (r ≡ s)
same_fields x y r s p q e =
    let (a, b) = take-append_self (to_little 8 (length x)) (x ++ r) in
    let (c, d) = take-append_self (to_little 8 (length y)) (y ++ s) in
    let eight : length (to_little 8 (length x)) ≡ length (to_little 8 (length y)) =
      length-to_little 8 (length x) ∙ sym (length-to_little 8 (length y)) in
    let sizes : to_little 8 (length x) ≡ to_little 8 (length y) =
      sym a
      ∙ ap (take (length (to_little 8 (length x)))) e
      ∙ ap (λ (n : ℕ). take n (to_little 8 (length y) ++ (y ++ s))) eight
      ∙ c in
    let rests : x ++ r ≡ y ++ s =
      sym b
      ∙ ap (drop (length (to_little 8 (length x)))) e
      ∙ ap (λ (n : ℕ). drop n (to_little 8 (length y) ++ (y ++ s))) eight
      ∙ d in
    let size : length x ≡ length y =
      sym (from_little-to_little 8 (length x) (omega arith))
      ∙ ap from_little sizes
      ∙ from_little-to_little 8 (length y) (omega arith) in
    append-eq x r y s rests
      (omega (arith, size, ap length rests, length-append x r, length-append y s))

longer : (field : Bytes) (fields : List Bytes) → joined (field ∷ fields) ≡ ok [] → ⊥
longer field fields h =
    let (rest, _, _, e) = joined_cons field fields [] h in
    omega (
      arith,
      ap length e,
      length-append (to_little 8 (length field)) (field ++ rest),
      length-to_little 8 (length field),
    )

-- Two lists of fields that are joined to the same bytes, each field after its length, are the same.
pub joined-eq :
    (fields others : List Bytes) (t : Bytes)
    → joined fields ≡ ok t
    → joined others ≡ ok t
    → fields ≡ others
unfolding joined
joined-eq [] [] t h k = refl
joined-eq [] (y ∷ others) t h k = absurd (longer y others (k ∙ ap ok (sym (value [] t h))))
joined-eq (x ∷ fields) [] t h k = absurd (longer x fields (h ∙ ap ok (sym (value [] t k))))
joined-eq (x ∷ fields) (y ∷ others) t h k =
    let (r, a, p, e) = joined_cons x fields t h in
    let (s, b, q, f) = joined_cons y others t k in
    let (same, later) = same_fields x y r s p q (e ∙ sym f) in
    let rest = joined-eq fields others r a (b ∙ ap ok (sym later)) in cc (same, rest)
