-- ===== src/Batch/Rounds.antt =====
-- The rounds of the scheduler come to their end.
use mathlib.Core.List.{Memᴰ}
use nap_cli.Prelude.{
  ℕ, zero, suc, ◌≤◌, ◌<◌, ◌≡◌, refl, ◌⊎◌, inl, inr, String, Bool, true, false, ◌&&◌, Option, none,
  some, List, [], ◌∷◌, arith, if◌then◌else◌, length, take, string_eq, =?_refl, contains, Bool-cases,
}
use nap_cli.Prelude.Result.{Result, ok, raise}
use nap_cli.Batch.Plan.{Action, Plan, BatchError, ids, cancelled}
use nap_cli.Batch.Schedule.{
  Call, Run, skip_rest, skip_failed, rounds, has_read, is_empty, ready_from, earliest, run_reads,
  dispatch, run_ready, after_skip, round, start, stop_now,
}
use nap_cli.Batch.Progress.{contains-ids, IsAcyclic, IsRun}
use nap_cli.Batch.Ready.{
  find_ready, ready_from-found, AllPending, Shrinks, earliest-AllPending, mutations-AllPending,
  ready_from-AllPending,
}
use nap_cli.Batch.Waves.{run_mutation-Shrinks, run_reads-Shrinks}
use nap_cli.Batch.Skip.{Skipped, skip_failed-Skipped, skip_rest-IsRun, skip_rest-clears}

-- A round does something: it returns, with fewer actions pending.
abbrev pub Advances : List Action → Run → Result BatchError Run → Type 0
Advances all s (raise e) = ⊥
Advances all s (ok t) = Shrinks all s t

pub dispatch-Advances :
    (plan : Plan) (call : Action → Call) (ready muts : List Action) (s : Run)
    → 0 < plan.max_parallel
    → IsRun plan.actions s
    → 0 < length ready
    → AllPending s ready
    → AllPending s muts
    → Advances plan.actions s (dispatch plan call ready muts s)
unfolding dispatch
dispatch-Advances plan call [] muts s par v some' p q = absurd (omega arith)
dispatch-Advances plan call (a ∷ ready) [] s par v some' p q = go plan.max_parallel par
  where
    go : (n : ℕ) → 0 < n → Shrinks plan.actions s (run_reads plan call (take n (a ∷ ready)) s)
    go zero lt = absurd (omega arith)
    go (suc n) lt = run_reads-Shrinks plan call a (take n ready) s v p.0
dispatch-Advances plan call (a ∷ ready) (m ∷ muts) s par v some' p q =
    run_mutation-Shrinks plan call (earliest plan call m muts) s v
      (earliest-AllPending plan call s m muts q)

pub some_pending :
    (actions : List Action) (s : Run)
    → IsRun actions s
    → 0 < length s.pending
    → (a : Action) × Memᴰ a actions × (contains s.pending a.id ≡ true)
some_pending actions s v lt = go s.pending lt v.within
  where
    go :
        (js : List String)
        → 0 < length js
        → ((id : String) → contains js id ≡ true → contains (ids actions) id ≡ true)
        → (a : Action) × Memᴰ a actions × (contains js a.id ≡ true)
    go [] lt within = absurd (omega arith)
    go (j ∷ js) lt within =
        let (a, m, e) = contains-ids actions j (within j (ground (arith, =?_refl j))) in
        (a, m, rw e (ground (arith, =?_refl j)))

pub run_ready-Advances :
    (plan : Plan) (call : Action → Call) (rank : String → ℕ) (s : Run)
    → IsAcyclic rank plan
    → IsRun plan.actions s
    → 0 < length s.pending
    → Advances plan.actions s (run_ready plan call s)
unfolding run_ready
run_ready-Advances plan call rank s c v lt =
    let (a, m, p) = some_pending plan.actions s v lt in
    let (b, mb, r) = find_ready plan call rank (suc (rank a.id)) s a c v m p (omega arith) in
    let (x, rest, e) = ready_from-found plan call s plan.actions b mb r in
    dispatch-Advances plan call (ready_from plan call s plan.actions) _ s c.parallel v
      (rw e (omega arith)) (ready_from-AllPending plan call s plan.actions)
      (mutations-AllPending plan call s _ (ready_from-AllPending plan call s plan.actions))

pub after_skip-Advances :
    (plan : Plan) (call : Action → Call) (rank : String → ℕ) (s : Run) (x : Bool × Run)
    → IsAcyclic rank plan
    → IsRun plan.actions s
    → 0 < length s.pending
    → Skipped plan.actions false s x
    → Advances plan.actions s (after_skip plan call x)
unfolding after_skip
after_skip-Advances plan call rank s (true, t) c v lt (v', le, inl e) = cc
after_skip-Advances plan call rank s (true, t) c v lt (v', le, inr less) = (v', less)
after_skip-Advances plan call rank s (false, t) c v lt (same, e) =
    rw same (run_ready-Advances plan call rank s c v lt)

-- Every round of a batch whose dependencies and barriers have no cycle does something.
pub round-Advances :
    (plan : Plan) (call : Action → Call) (rank : String → ℕ) (s : Run)
    → IsAcyclic rank plan
    → IsRun plan.actions s
    → 0 < length s.pending
    → Advances plan.actions s (round plan call s)
unfolding round
round-Advances plan call rank s c v lt = go (stop_now plan call s)
  where
    go :
        (m : Option String)
        → Advances plan.actions s (elim m as (λ x. Result BatchError Run) [
          | some at ↦ ok (record (skip_rest at plan.actions s) { pending = [] })
          | none ↦ after_skip plan call (skip_failed plan.actions false s)
        ])
    go none =
        after_skip-Advances plan call rank s _ c v lt
          (skip_failed-Skipped plan.actions plan.actions false s v)
    go (some at) =
        let v' = skip_rest-IsRun at plan.actions plan.actions s v in
        (
          record {
            within = λ id h. cc;
            covered = λ a m h. v'.covered a m (skip_rest-clears at plan.actions s a m);
          },
          lt,
        )

pub start-IsRun : (actions : List Action) → IsRun actions (start actions)
start-IsRun actions = record { within = λ id h. h; covered = λ a m h. absurd (go actions a m h) }
  where
    go :
        (actions : List Action) (a : Action)
        → Memᴰ a actions
        → contains (ids actions) a.id ≡ false
        → ⊥
    go [] a m h = elim m [ ]
    go (b ∷ actions) a (Memᴰ.head e) h = ground (arith, =?_refl b.id, rw e at h)
    go (b ∷ actions) a (Memᴰ.tail m) h = go actions a m (ground (arith, h))

pub length-ids : (actions : List Action) → length (ids actions) ≡ length actions
length-ids [] = refl
length-ids (a ∷ actions) = omega (arith, length-ids actions)

-- The request was cancelled at some round.
abbrev pub WasCancelled : (ℕ → Bool) → (ℕ → Bool) → Type 0
WasCancelled before after = (n : ℕ) × ((before n ≡ true) ⊎ (after n ≡ true))

-- The rounds end, with a result for every action or because the request was cancelled.
abbrev pub Ends : List Action → (ℕ → Bool) → (ℕ → Bool) → Option (Result BatchError Run) → Type 0
Ends actions before after none = ⊥
Ends actions before after (some (raise e)) = (e ≡ cancelled) × WasCancelled before after
Ends actions before after (some (ok s)) = IsRun actions s × (s.pending ≡ [])

pub is_empty-nil : (js : List String) → is_empty js ≡ true → js ≡ []
is_empty-nil [] e = refl
is_empty-nil (j ∷ js) e = cc

pub is_empty-cons : (js : List String) → is_empty js ≡ false → 0 < length js
is_empty-cons [] e = cc
is_empty-cons (j ∷ js) e = omega arith

pub rounds-Ends :
    (plan : Plan) (call : Action → Call) (rank : String → ℕ) (before after : ℕ → Bool) (fuel : ℕ)
    (s : Run)
    → IsAcyclic rank plan
    → IsRun plan.actions s
    → length s.pending ≤ fuel
    → Ends plan.actions before after (rounds plan call before after fuel s)
unfolding rounds
rounds-Ends plan call rank before after zero s c v le = elim (Bool-cases (is_empty s.pending)) [
  | inl e ↦ rw (e, rounds) (v, is_empty-nil s.pending e)
  | inr e ↦ absurd (omega (arith, is_empty-cons s.pending e, le))
]
rounds-Ends plan call rank before after (suc fuel) s c v le =
    elim (Bool-cases (is_empty s.pending)) [
      | inl e ↦ rw (e, rounds) (v, is_empty-nil s.pending e)
      | inr e ↦ elim (Bool-cases (before fuel)) [
        | inl b ↦ rw (e, rounds) (rw b (refl, (fuel, inl b)))
        | inr b ↦
            rw (e, rounds)
              (rw b (
                go (round plan call s)
                  (round-Advances plan call rank s c v (is_empty-cons s.pending e))
                  (λ t v' less. rounds-Ends plan call rank before after fuel t c v' less)))
      ]
    ]
  where
    go :
        (r : Result BatchError Run)
        → Advances plan.actions s r
        → ((t : Run)
            → IsRun plan.actions t
            → length t.pending ≤ fuel
            → Ends plan.actions before after (rounds plan call before after fuel t))
        → Ends plan.actions before after (elim r as (λ x. Option (Result BatchError Run)) [
          | raise e ↦ some (raise e)
          | ok s' ↦
              if has_read plan call s s' && after fuel
              then some (raise cancelled)
              else rounds plan call before after fuel s'
        ])
    go (raise e) h again = absurd h
    go (ok t) (v', less) again = elim (Bool-cases (has_read plan call s t && after fuel)) [
      | inl e ↦ rw e (refl, (fuel, inr (ground (arith, e))))
      | inr e ↦ rw e (again t v' (omega (arith, less, le)))
    ]
