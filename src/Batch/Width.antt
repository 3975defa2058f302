-- ===== src/Batch/Width.antt =====
-- The waves that a batch runs.
use mathlib.Core.List.{append_assoc, append-nil}
use nap_cli.Prelude.{
  ℕ, zero, suc, ◌≤◌, ◌<◌, ◌≡◌, refl, sym, ◌∙◌, ap, inl, inr, String, Bool, true, false, ◌&&◌,
  Option, none, some, List, [], ◌∷◌, ◌++◌, arith, if◌then◌else◌, length, length-take, length-map,
  take, string_eq, contains, Bool-cases,
}
use nap_cli.Prelude.Result.{Result, ok, raise}
use nap_cli.Batch.Plan.{
  Action, Plan, BatchError, cancelled, dry_run, stop_on_error, continue_on_error, FailurePolicy,
}
use nap_cli.Batch.Schedule.{
  Call, Run, Report, start, skip_rest, skip_one, skip_failed, blocked, run_mutation, run_reads,
  dispatch, ready_from, run_ready, after_skip, round, stop_now, rounds, reports, report, execute,
  is_empty, has_read, plan_each,
}

abbrev pub concat : List (List String) → List String
concat [] = []
concat (wave ∷ waves) = wave ++ concat waves

abbrev pub AllWithin : ℕ → List (List String) → Type 0
AllWithin n [] = Unit
AllWithin n (wave ∷ waves) = (length wave ≤ n) × AllWithin n waves

-- The waves are within the limit, and in their order they are the order of execution.
abbrev pub InWaves : ℕ → List String → List (List String) → Type 0
InWaves n order waves = (order ≡ concat waves) × AllWithin n waves

concat-append :
    (waves : List (List String)) (wave : List String)
    → concat (waves ++ wave ∷ []) ≡ concat waves ++ wave
concat-append [] wave = append-nil wave
concat-append (w ∷ waves) wave =
    ap (λ js. w ++ js) (concat-append waves wave) ∙ sym (append_assoc w (concat waves) wave)

AllWithin-append :
    (n : ℕ) (waves : List (List String)) (wave : List String)
    → AllWithin n waves
    → length wave ≤ n
    → AllWithin n (waves ++ wave ∷ [])
AllWithin-append n [] wave h le = (le, tt)
AllWithin-append n (w ∷ waves) wave h le = (h.0, AllWithin-append n waves wave h.1 le)

InWaves-append :
    (n : ℕ) (order : List String) (waves : List (List String)) (wave : List String)
    → InWaves n order waves
    → length wave ≤ n
    → InWaves n (order ++ wave) (waves ++ wave ∷ [])
InWaves-append n order waves wave (same, h) le = (
  ap (λ js. js ++ wave) same ∙ sym (concat-append waves wave),
  AllWithin-append n waves wave h le,
)

abbrev pub Waved : ℕ → Run → Type 0
Waved n s = InWaves n s.execution_order s.execution_waves

skip_one-Waved :
    (n : ℕ) (a : Action) (bad : List String) (s : Run) → Waved n s → Waved n (skip_one a bad s)
skip_one-Waved n a [] s w = w
skip_one-Waved n a (d ∷ ds) s w = w

skip_failed-Waved :
    (n : ℕ) (actions : List Action) (any : Bool) (s : Run)
    → Waved n s
    → Waved n (skip_failed actions any s).1
unfolding skip_failed
skip_failed-Waved n [] any s w = w
skip_failed-Waved n (a ∷ actions) any s w =
    skip_failed-Waved n actions _ _ (skip_one-Waved n a (blocked a s) s w)

skip_rest-Waved :
    (n : ℕ) (at : String) (actions : List Action) (s : Run)
    → Waved n s
    → Waved n (skip_rest at actions s)
skip_rest-Waved n at [] s w = w
skip_rest-Waved n at (a ∷ actions) s w = elim (Bool-cases (contains s.pending a.id)) [
  | inl e ↦ rw (e, skip_rest) (skip_rest-Waved n at actions _ w)
  | inr e ↦ rw (e, skip_rest) (skip_rest-Waved n at actions s w)
]

abbrev pub WavedResult : ℕ → Result BatchError Run → Type 0
WavedResult n (raise e) = Unit
WavedResult n (ok s) = Waved n s

module _ (plan : Plan) (call : Action → Call) (par : 0 < plan.max_parallel) where
  dispatch-Waved :
      (ready muts : List Action) (s : Run)
      → Waved plan.max_parallel s
      → WavedResult plan.max_parallel (dispatch plan call ready muts s)
  unfolding dispatch run_reads run_mutation
  dispatch-Waved [] muts s w = tt
  dispatch-Waved (a ∷ ready) [] s w =
      InWaves-append plan.max_parallel s.execution_order s.execution_waves _ w (
        omega (
          arith,
          length-take plan.max_parallel (a ∷ ready),
          length-map (take plan.max_parallel (a ∷ ready)) (λ a. a.id),
        ))
  dispatch-Waved (a ∷ ready) (m ∷ muts) s w =
      InWaves-append plan.max_parallel s.execution_order s.execution_waves _ w (omega (arith, par))

  after_skip-Waved :
      (x : Bool × Run)
      → Waved plan.max_parallel x.1
      → WavedResult plan.max_parallel (after_skip plan call x)
  unfolding after_skip run_ready
  after_skip-Waved (true, s) w = w
  after_skip-Waved (false, s) w = dispatch-Waved (ready_from plan call s plan.actions) _ s w

  round-Waved :
      (s : Run) → Waved plan.max_parallel s → WavedResult plan.max_parallel (round plan call s)
  unfolding round
  round-Waved s w = go (stop_now plan call s)
    where
      go :
          (m : Option String)
          → WavedResult plan.max_parallel (elim m as (λ x. Result BatchError Run) [
            | some at ↦ ok (record (skip_rest at plan.actions s) { pending = [] })
            | none ↦ after_skip plan call (skip_failed plan.actions false s)
          ])
      go none = after_skip-Waved _ (skip_failed-Waved plan.max_parallel plan.actions false s w)
      go (some at) = skip_rest-Waved plan.max_parallel at plan.actions s w

  abbrev EndsWaved : Option (Result BatchError Run) → Type 0
  EndsWaved none = Unit
  EndsWaved (some r) = WavedResult plan.max_parallel r

  rounds-Waved :
      (before after : ℕ → Bool) (fuel : ℕ) (s : Run)
      → Waved plan.max_parallel s
      → EndsWaved (rounds plan call before after fuel s)
  unfolding rounds
  rounds-Waved before after zero s w = elim (Bool-cases (is_empty s.pending)) [
    | inl e ↦ rw (e, rounds) w
    | inr e ↦ rw (e, rounds) tt
  ]
  rounds-Waved before after (suc fuel) s w = elim (Bool-cases (is_empty s.pending)) [
    | inl e ↦ rw (e, rounds) w
    | inr e ↦ elim (Bool-cases (before fuel)) [
      | inl b ↦ rw (e, rounds) (rw b tt)
      | inr b ↦
          rw (e, rounds)
            (rw b (
              go (round plan call s) (round-Waved s w)
                (λ t w'. rounds-Waved before after fuel t w')))
    ]
  ]
    where
      go :
          (r : Result BatchError Run)
          → WavedResult plan.max_parallel r
          → ((t : Run)
              → Waved plan.max_parallel t
              → EndsWaved (rounds plan call before after fuel t))
          → EndsWaved (elim r as (λ x. Option (Result BatchError Run)) [
            | raise e ↦ some (raise e)
            | ok s' ↦
                if has_read plan call s s' && after fuel
                then some (raise cancelled)
                else rounds plan call before after fuel s'
          ])
      go (raise e) h again = tt
      go (ok t) h again = elim (Bool-cases (has_read plan call s t && after fuel)) [
        | inl e ↦ rw e tt
        | inr e ↦ rw e (again t h)
      ]

-- What a batch reports of its waves, if it reports.
abbrev pub ReportsWaves : ℕ → Option (Result BatchError Report) → Type 0
ReportsWaves n none = Unit
ReportsWaves n (some (raise e)) = Unit
ReportsWaves n (some (ok r)) = InWaves n r.execution_order r.execution_waves

reports-Waved :
    (plan : Plan) (call : Action → Call) (par : 0 < plan.max_parallel)
    (x : Option (Result BatchError Run))
    → EndsWaved plan call par x
    → ReportsWaves plan.max_parallel (reports plan call x)
unfolding reports report
reports-Waved plan call par none h = tt
reports-Waved plan call par (some (raise e)) h = tt
reports-Waved plan call par (some (ok s)) h = h

-- With a limit of at least one, every wave that a batch reports has at most so many actions, and
-- the waves one after the other are its order of execution.
pub execute-ReportsWaves :
    (plan : Plan) (call : Action → Call) (before after : ℕ → Bool)
    → 0 < plan.max_parallel
    → ReportsWaves plan.max_parallel (execute plan call before after)
unfolding execute
execute-ReportsWaves plan call before after par = go plan.failure_policy
  where
    ran : ReportsWaves plan.max_parallel (
        reports plan call
          (rounds plan call before after (length plan.actions) (start plan.actions)))
    ran = reports-Waved plan call par _ (
        rounds-Waved plan call par before after (length plan.actions) (start plan.actions)
          (refl, tt))

    go :
        (p : FailurePolicy)
        → ReportsWaves plan.max_parallel (elim p as (λ x. Option (Result BatchError Report)) [
          | dry_run ↦ some (
              ok (record {
                results = plan_each plan call plan.actions;
                execution_order = [];
                execution_waves = [];
                stopped_at = none;
              }))
          | _ ↦
              reports plan call
                (rounds plan call before after (length plan.actions) (start plan.actions))
        ])
    go dry_run = (refl, tt)
    go stop_on_error = ran
    go continue_on_error = ran
