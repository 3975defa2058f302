-- ===== src/Schedule/Next.antt =====
-- The next run of a schedule is the first minute that matches.
use nap_cli.Prelude.{
  ℕ, zero, suc, ◌+◌, ◌<◌, ◌≡◌, ◌≢◌, sym, ap, ◌∙◌, inl, inr, Bool, true, false, Option, none, some,
  arith, Bool-cases, ◌==◌, length,
}
use mathlib.Core.Path.{subst}
use nap_cli.Prelude.Result.{Result, ok, raise, ◌>>=◌}
use nap_cli.Schedule.Text.{Text, words}
use nap_cli.Schedule.Cron.{
  Moment, ScheduleError, not_five_fields, never_matches, year, cron_expr_matches, first_match,
  found, validate_gateway_cron_expr, next_gateway_schedule_run,
}

-- None of `n` offsets from one on matches.
abbrev pub AllMiss : (ℕ → Bool) → ℕ → ℕ → Type 0
AllMiss matches zero offset = Unit
AllMiss matches (suc n) offset = (matches offset ≡ false) × AllMiss matches n (offset + 1)

-- The first offset that matches, below a number, or none does.
abbrev pub IsFirst : (ℕ → Bool) → ℕ → Option ℕ → Type 0
IsFirst matches n none = AllMiss matches n 0
IsFirst matches n (some k) = (k < n) × (matches k ≡ true) × AllMiss matches k 0

-- What a call for the next run comes to.
abbrev pub IsNext : Text → (ℕ → Moment) → (ℕ → Moment) → Result ScheduleError (Option ℕ) → Type 0
IsNext cron_expr now cursor (raise not_five_fields) = length (words cron_expr) ≢ 5
IsNext cron_expr now cursor (raise never_matches) =
    (length (words cron_expr) ≡ 5)
    × AllMiss (λ offset. cron_expr_matches cron_expr (now offset)) year 0
IsNext cron_expr now cursor (ok next) =
    (length (words cron_expr) ≡ 5)
    × IsFirst (λ offset. cron_expr_matches cron_expr (cursor offset)) year next

AllMiss-snoc :
    (matches : ℕ → Bool) (n offset : ℕ)
    → AllMiss matches n offset
    → matches (n + offset) ≡ false
    → AllMiss matches (suc n) offset
AllMiss-snoc matches zero offset a m =
    let e : 0 + offset ≡ offset = omega arith in (ap matches (sym e) ∙ m, tt)
AllMiss-snoc matches (suc n) offset a m =
    let e : n + (offset + 1) ≡ suc n + offset = omega arith in
    (a.0, AllMiss-snoc matches n (offset + 1) a.1 (ap matches e ∙ m))

-- The loop, when no offset below the one it has come to matches.
first_match-IsFirst :
    (matches : ℕ → Bool) (n offset : ℕ)
    → AllMiss matches offset 0
    → IsFirst matches (n + offset) (first_match matches n offset)
unfolding first_match
first_match-IsFirst matches zero offset missed =
    let e : 0 + offset ≡ offset = omega arith in rw e missed
first_match-IsFirst matches (suc n) offset missed = elim (Bool-cases (matches offset)) [
  | inl m ↦ rw (m, first_match) (omega arith, m, missed)
  | inr m ↦
      (let z : offset + 0 ≡ offset = omega arith in
        let s : suc offset ≡ offset + 1 = omega arith in
        let k : n + (offset + 1) ≡ suc n + offset = omega arith in
        let next : AllMiss matches (offset + 1) 0 =
          subst (λ (t : ℕ). AllMiss matches t 0) s
            (AllMiss-snoc matches offset 0 missed (ap matches z ∙ m)) in
        rw (m, first_match)
          (subst (λ (t : ℕ). IsFirst matches t (first_match matches n (offset + 1))) k
            (first_match-IsFirst matches n (offset + 1) next)))
]

whole_loop-IsFirst : (matches : ℕ → Bool) → IsFirst matches year (first_match matches year 0)
whole_loop-IsFirst matches =
    let e : year + 0 ≡ year = omega arith in
    subst (λ (t : ℕ). IsFirst matches t (first_match matches year 0)) e
      (first_match-IsFirst matches year 0 tt)

-- A call for the next run raises where the expression has not five fields, or where it has and none
-- of the minutes of a year from now on matches; else its result is the first minute of a year from
-- the cursor on that matches, and None if none does.
pub next_gateway_schedule_run-IsNext :
    (cron_expr : Text) (now cursor : ℕ → Moment)
    → IsNext cron_expr now cursor (next_gateway_schedule_run cron_expr now cursor)
unfolding next_gateway_schedule_run validate_gateway_cron_expr
next_gateway_schedule_run-IsNext cron_expr now cursor =
    elim (Bool-cases (length (words cron_expr) == 5)) [
      | inl e ↦ rw e (
          valid (omega_five e)
            (first_match (λ offset. cron_expr_matches cron_expr (now offset)) year 0)
            (whole_loop-IsFirst (λ offset. cron_expr_matches cron_expr (now offset))))
      | inr e ↦ rw e (ground (arith, e))
    ]
  where
    omega_five : (length (words cron_expr) == 5) ≡ true → length (words cron_expr) ≡ 5
    omega_five e = ground (arith, e)

    valid :
        length (words cron_expr) ≡ 5
        → (o : Option ℕ) → IsFirst (λ offset. cron_expr_matches cron_expr (now offset)) year o
        → IsNext cron_expr now cursor (
            found o >>= λ _.
            ok (first_match (λ offset. cron_expr_matches cron_expr (cursor offset)) year 0))
    valid five none missed = (five, missed)
    valid five (some k) h =
        (five, whole_loop-IsFirst (λ offset. cron_expr_matches cron_expr (cursor offset)))
