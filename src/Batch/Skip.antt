-- ===== src/Batch/Skip.antt =====
-- What the passes over the actions that skip some leave.
use mathlib.Core.List.{Memᴰ}
use nap_cli.Prelude.{
  ◌≤◌, ◌<◌, ◌≡◌, refl, ◌∙◌, ◌⊎◌, inl, inr, String, Bool, true, false, not, ◌||◌, List, [], ◌∷◌,
  arith, length, string_eq, =?_refl, contains, Bool-cases,
}
use nap_cli.Batch.Plan.{Action}
use nap_cli.Batch.Schedule.{
  Run, conclude, skip_rest, blocked, skip_one, skip_failed, skipped, stopped_after, is_empty,
}
use nap_cli.Batch.Progress.{contains-remove, length-remove, length-remove_lt, IsRun, conclude-IsRun}

-- Skipping keeps the invariant, and an action skipped is no longer pending.
pub skip_one-IsRun :
    (all : List Action) (a : Action) (bad : List String) (s : Run)
    → IsRun all s
    → IsRun all (skip_one a bad s) × (length (skip_one a bad s).pending ≤ length s.pending)
skip_one-IsRun all a [] s v = (v, omega arith)
skip_one-IsRun all a (d ∷ ds) s v = (conclude-IsRun all a _ s v, length-remove a.id s.pending)

pub skip_one-shorter :
    (a : Action) (s : Run)
    → is_empty (blocked a s) ≡ false
    → length (skip_one a (blocked a s) s).pending < length s.pending
skip_one-shorter a s e = elim (Bool-cases (contains s.pending a.id)) [
  | inr away ↦ ground (arith, away, e)
  | inl there ↦ go (blocked a s) e there
]
  where
    go :
        (bad : List String)
        → is_empty bad ≡ false
        → contains s.pending a.id ≡ true
        → length (skip_one a bad s).pending < length s.pending
    go [] e there = cc
    go (d ∷ ds) e there = length-remove_lt a.id s.pending there

pub skip_one-same :
    (a : Action) (bad : List String) (s : Run) → is_empty bad ≡ true → skip_one a bad s ≡ s
skip_one-same a [] s e = refl
skip_one-same a (d ∷ ds) s e = cc

-- The pass has left the state as it was and says so, or has skipped something and says so.
abbrev pub Skipped : List Action → Bool → Run → Bool × Run → Type 0
Skipped all any s (true, t) =
    IsRun all t
    × (length t.pending ≤ length s.pending)
    × ((any ≡ true) ⊎ (length t.pending < length s.pending))
Skipped all any s (false, t) = (t ≡ s) × (any ≡ false)

pub Skipped-step :
    (all : List Action) (any b : Bool) (s u : Run) (x : Bool × Run)
    → (b ≡ true → u ≡ s)
    → (b ≡ false → length u.pending < length s.pending)
    → Skipped all (any || not b) u x
    → Skipped all any s x
Skipped-step all true b s u (false, t) same less h = cc
Skipped-step all false false s u (false, t) same less h = cc
Skipped-step all false true s u (false, t) same less h = (h.0 ∙ same refl, refl)
Skipped-step all true true s u (true, t) same less (v, le, more) =
    (v, rw (same refl) at le, inl refl)
Skipped-step all true false s u (true, t) same less (v, le, more) =
    (v, omega (arith, le, less refl), inl refl)
Skipped-step all false true s u (true, t) same less (v, le, more) =
    (v, rw (same refl) at le, rw (same refl) at more)
Skipped-step all false false s u (true, t) same less (v, le, more) =
    (v, omega (arith, le, less refl), inr (omega (arith, le, less refl)))

pub skip_failed-Skipped :
    (all actions : List Action) (any : Bool) (s : Run)
    → IsRun all s
    → Skipped all any s (skip_failed actions any s)
unfolding skip_failed
skip_failed-Skipped all [] true s v = (v, omega arith, inl refl)
skip_failed-Skipped all [] false s v = (refl, refl)
skip_failed-Skipped all (a ∷ actions) any s v =
    Skipped-step all any (is_empty (blocked a s)) s (skip_one a (blocked a s) s) _
      (skip_one-same a (blocked a s) s) (skip_one-shorter a s)
      (skip_failed-Skipped all actions _ _ (skip_one-IsRun all a (blocked a s) s v).0)

-- What is skipped after a stop is all that is left.
pub skip_rest-IsRun :
    (at : String) (all actions : List Action) (s : Run)
    → IsRun all s
    → IsRun all (skip_rest at actions s)
skip_rest-IsRun at all [] s v = v
skip_rest-IsRun at all (a ∷ actions) s v = elim (Bool-cases (contains s.pending a.id)) [
  | inl e ↦ rw (e, skip_rest) (skip_rest-IsRun at all actions _ (conclude-IsRun all a _ s v))
  | inr e ↦ rw (e, skip_rest) (skip_rest-IsRun at all actions s v)
]

pub contains-skip_rest :
    (at k : String) (actions : List Action) (s : Run)
    → contains s.pending k ≡ false
    → contains (skip_rest at actions s).pending k ≡ false
contains-skip_rest at k [] s h = h
contains-skip_rest at k (a ∷ actions) s h = elim (Bool-cases (contains s.pending a.id)) [
  | inl e ↦
      rw (e, skip_rest)
        (contains-skip_rest at k actions (conclude a (skipped (stopped_after at)) s)
          (ground (arith, contains-remove k a.id s.pending, h)))
  | inr e ↦ rw (e, skip_rest) (contains-skip_rest at k actions s h)
]

pub skip_rest-clears :
    (at : String) (actions : List Action) (s : Run) (a : Action)
    → Memᴰ a actions
    → contains (skip_rest at actions s).pending a.id ≡ false
skip_rest-clears at [] s a m = elim m [ ]
skip_rest-clears at (b ∷ actions) s a (Memᴰ.tail m) = elim (Bool-cases (contains s.pending b.id)) [
  | inl e ↦
      rw (e, skip_rest)
        (skip_rest-clears at actions (conclude b (skipped (stopped_after at)) s) a m)
  | inr e ↦ rw (e, skip_rest) (skip_rest-clears at actions s a m)
]
skip_rest-clears at (b ∷ actions) s a (Memᴰ.head same) =
    rw same (elim (Bool-cases (contains s.pending b.id)) [
      | inl e ↦
          rw (e, skip_rest)
            (contains-skip_rest at b.id actions (conclude b (skipped (stopped_after at)) s)
              (ground (arith, contains-remove b.id b.id s.pending, =?_refl b.id)))
      | inr e ↦ rw (e, skip_rest) (contains-skip_rest at b.id actions s e)
    ])
