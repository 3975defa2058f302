-- ===== src/Gateway/Output.antt =====
-- `gateway_terminal_output_delta` of resources/scripts/napseer_mcp_server.py: what a terminal has
-- printed between two captures of its screen. A text is the list of its code points.
use mathlib.Core.List.{append-nil}
use native.Mathlib.Decide.{ℕ_discrete}
use nap_cli.Prelude.{
  false, ◌<◌, ◌≤◌, ◌≢◌, ◌∙◌, ℕ, zero, suc, ◌-◌, ◌≡◌, refl, sym, ap, ◌⊎◌, inl, inr, true, Option,
  none, some, List, [], ◌∷◌, ◌++◌, arith, if◌then◌else◌, ◌==◌, length, drop, take, min, ℕ_eq,
  list_eq, ◌=?◌, Bool-cases, Option-cases,
}

abbrev pub Text : Type 0
Text = List ℕ

-- `current[len(previous):]` if `current.startswith(previous)`
unfoldable pub strip_prefix : Text → Text → Option Text
strip_prefix [] current = some current
strip_prefix (c ∷ previous) [] = none
strip_prefix (c ∷ previous) (d ∷ current) = if c == d then strip_prefix previous current else none

-- The loop over the sizes of an overlap, from this one down to 1.
unfoldable pub after_overlap : ℕ → Text → Text → Text
after_overlap zero previous current = []
after_overlap (suc n) previous current =
    if drop (length previous - suc n) previous =? take (suc n) current
    then drop (suc n) current
    else after_overlap n previous current

unfoldable pub output_delta : Option Text → Text → Text
unfolding strip_prefix after_overlap
output_delta none current = []
output_delta (some previous) current =
    if current =? previous then [] else elim (strip_prefix previous current) [
      | some new ↦ new
      | none ↦ after_overlap (min (min (length previous) (length current)) 12000) previous current
    ]

strip_prefix-append : (previous new : Text) → strip_prefix previous (previous ++ new) ≡ some new
unfolding strip_prefix
strip_prefix-append [] new = refl
strip_prefix-append (c ∷ previous) new = ground (arith, strip_prefix-append previous new)

strip_prefix_lem :
    (previous current new : Text)
    → strip_prefix previous current ≡ some new
    → previous ++ new ≡ current
unfolding strip_prefix
strip_prefix_lem [] current new h = ground (arith, h)
strip_prefix_lem (c ∷ previous) [] new h = cc
strip_prefix_lem (c ∷ previous) (d ∷ current) new h =
    ground (arith, h, strip_prefix_lem previous current new)

-- The last `k` code points of the text before are the first `k` of the text now.
abbrev pub Overlaps : ℕ → Text → Text → Type 0
Overlaps k previous current = drop (length previous - k) previous ≡ take k current

-- What is looked at for an overlap: at most the shorter text, and at most 12000.
abbrev pub overlap_limit : Text → Text → ℕ
overlap_limit previous current = min (min (length previous) (length current)) 12000

-- The longest overlap within the limit has this size, which is 0 where no other is one, and `new`
-- is what the text now has after it, or nothing where there is none.
pub record IsAfterLongest (limit : ℕ) (previous current new : Text) (size : ℕ) : Type 0 where
  pub within : size ≤ limit
  pub longest : (k : ℕ) → size < k → k ≤ limit → ¬ Overlaps k previous current
  pub rest :
      ((size ≡ 0) × (new ≡ []))
      ⊎ ((0 < size) × Overlaps size previous current × (new ≡ drop size current))

abbrev pub IsDelta : Text → Text → Text → Type 0
IsDelta previous current new =
    (current ≡ previous ++ new)
    ⊎ (((tail : Text) → current ≢ previous ++ tail)
        × (size : ℕ) × IsAfterLongest (overlap_limit previous current) previous current new size)

after_overlap-IsAfterLongest :
    (n : ℕ) (previous current : Text)
    → (size : ℕ) × IsAfterLongest n previous current (after_overlap n previous current) size
unfolding after_overlap
after_overlap-IsAfterLongest zero previous current = (
  0,
  record {
    within = omega arith;
    longest = λ k low high. absurd (omega arith);
    rest = inl (refl, refl);
  },
)
after_overlap-IsAfterLongest (suc n) previous current =
    elim (Bool-cases (drop (length previous - suc n) previous =? take (suc n) current)) [
      | inl e ↦ (
        suc n,
        record {
          within = omega arith;
          longest = λ k low high. absurd (omega arith);
          rest = inr (omega arith, (list_eq.beq_iff _ _).0 e, rw (e, after_overlap) refl);
        },
      )
      | inr e ↦
          let (size, v) = after_overlap-IsAfterLongest n previous current in
          (
            size,
            rw (e, after_overlap)
                (record {
                  within = omega (arith, v.within);
                  longest = λ k low high. elim (ℕ_discrete k (suc n)) [
                    | yes same ↦ rw same (λ o. differs e o)
                    | no ne ↦ v.longest k low (omega arith)
                  ];
                  rest = v.rest;
                }),
          )
    ]
  where
    differs :
        (drop (length previous - suc n) previous =? take (suc n) current) ≡ false
        → ¬ Overlaps (suc n) previous current
    differs e o = true_false (sym ((list_eq.beq_iff _ _).1 o) ∙ e)
      where
        true_false : ¬ (true ≡ false)
        true_false q = cc

found_overlap :
    (previous current : Text)
    → let limit = overlap_limit previous current in
      (size : ℕ) × IsAfterLongest limit previous current (after_overlap limit previous current) size
found_overlap previous current =
    after_overlap-IsAfterLongest (overlap_limit previous current) previous current

no_prefix :
    (previous current : Text)
    → strip_prefix previous current ≡ none
    → (tail : Text) → current ≢ previous ++ tail
no_prefix previous current e tail h =
    none_some (sym e ∙ ap (strip_prefix previous) h ∙ strip_prefix-append previous tail)
  where
    none_some : {x : Text} → none ≢ some x
    none_some q = cc

-- Where the text now is the text before with more after it, that is what is reported; where it does
-- not begin with the text before, what is reported is what the text now has after the longest end
-- of the text before that it begins with, of those with 1 to 12000 code points and no longer than
-- the text now, and nothing where it begins with none of them.
pub output_delta-IsDelta :
    (previous current : Text) → IsDelta previous current (output_delta (some previous) current)
unfolding output_delta
output_delta-IsDelta previous current = elim (Bool-cases (current =? previous)) [
  | inl e ↦ rw (e, output_delta) (inl ((list_eq.beq_iff _ _).0 e ∙ sym (append-nil previous)))
  | inr e ↦ elim (Option-cases (strip_prefix previous current)) [
    | inl p ↦
        rw (e, output_delta)
          (rw p (
            inr (
              no_prefix previous current p,
              (found_overlap previous current).0,
              (found_overlap previous current).1,
            )))
    | inr (rest, p) ↦
        rw (e, output_delta) (rw p (inl (sym (strip_prefix_lem previous current rest p))))
  ]
]
