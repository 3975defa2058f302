-- ===== src/Batch/Complete.antt =====
-- A batch gives every action a result.
use mathlib.Core.List.{Memᴰ}
use nap_cli.Prelude.{
  ℕ, ◌≡◌, refl, ap, inl, inr, String, Bool, true, Option, none, some, List, [], ◌∷◌, arith, length,
  string_eq, Option-cases,
}
use nap_cli.Prelude.Dict.{Dict, lookup, has}
use nap_cli.Prelude.Result.{Result, ok, raise}
use nap_cli.Batch.Plan.{
  Action, Plan, BatchError, ids, cancelled, dry_run, stop_on_error, continue_on_error,
  FailurePolicy,
}
use nap_cli.Batch.Schedule.{
  Call, Status, Run, rounds, Report, reports, ordered, plan_each, execute, start,
}
use nap_cli.Batch.Progress.{IsAcyclic}
use nap_cli.Batch.Rounds.{start-IsRun, length-ids, WasCancelled, Ends, rounds-Ends}

-- Every entry has a result.
abbrev pub HasResults : List (String × Option Status) → Type 0
HasResults [] = Unit
HasResults ((id, none) ∷ items) = ⊥
HasResults ((id, some status) ∷ items) = HasResults items

abbrev pub names : List (String × Option Status) → List String
names [] = []
names ((id, r) ∷ items) = id ∷ names items

-- A batch returns a report with a result for each action, in the order of the actions, or the
-- request was cancelled.
abbrev pub IsComplete :
    List Action → (ℕ → Bool) → (ℕ → Bool) → Option (Result BatchError Report) → Type 0
IsComplete actions before after none = ⊥
IsComplete actions before after (some (raise e)) = (e ≡ cancelled) × WasCancelled before after
IsComplete actions before after (some (ok r)) =
    (names r.results ≡ ids actions) × HasResults r.results

pub ordered-HasResults :
    (plan : Plan) (call : Action → Call) (actions : List Action) (results : Dict String Status)
    → ((a : Action) → Memᴰ a actions → has a.id results ≡ true)
    → (names (ordered plan call actions results) ≡ ids actions)
      × HasResults (ordered plan call actions results)
unfolding has
ordered-HasResults plan call [] results h = (refl, tt)
ordered-HasResults plan call (a ∷ actions) results h =
    let (same, there) = ordered-HasResults plan call actions results (λ b m. h b (Memᴰ.tail m)) in
    elim (Option-cases (lookup a.id results)) [
      | inl e ↦ ground (arith, h a (Memᴰ.head refl), e)
      | inr (status, e) ↦ (ap (λ js. a.id ∷ js) same, rw e there)
    ]

pub plan_each-HasResults :
    (plan : Plan) (call : Action → Call) (actions : List Action)
    → (names (plan_each plan call actions) ≡ ids actions) × HasResults (plan_each plan call actions)
plan_each-HasResults plan call [] = (refl, tt)
plan_each-HasResults plan call (a ∷ actions) =
    let (same, there) = plan_each-HasResults plan call actions in (ap (λ js. a.id ∷ js) same, there)

pub reports-IsComplete :
    (plan : Plan) (call : Action → Call) (before after : ℕ → Bool)
    (x : Option (Result BatchError Run))
    → Ends plan.actions before after x
    → IsComplete plan.actions before after (reports plan call x)
unfolding reports
reports-IsComplete plan call before after none h = h
reports-IsComplete plan call before after (some (raise e)) h = h
reports-IsComplete plan call before after (some (ok s)) (v, e) =
    ordered-HasResults plan call plan.actions s.results (λ a m. v.covered a m (rw e refl))

-- A batch whose dependencies and barriers have no cycle runs to its end within a round for each
-- action, whatever the calls of its tools come to: it reports a result for each action, in the order
-- of the actions, or raises that it was cancelled, which it was. The scheduler never stalls.
pub execute-IsComplete :
    (plan : Plan) (call : Action → Call) (rank : String → ℕ) (before after : ℕ → Bool)
    → IsAcyclic rank plan
    → IsComplete plan.actions before after (execute plan call before after)
unfolding execute
execute-IsComplete plan call rank before after c = go plan.failure_policy
  where
    ran : IsComplete plan.actions before after (
        reports plan call
          (rounds plan call before after (length plan.actions) (start plan.actions)))
    ran = reports-IsComplete plan call before after _ (
        rounds-Ends plan call rank before after (length plan.actions) (start plan.actions) c
          (start-IsRun plan.actions) (omega (arith, length-ids plan.actions)))

    go :
        (p : FailurePolicy)
        → IsComplete plan.actions before after (elim p as (λ x. Option (Result BatchError Report)) [
          | dry_run ↦ some (
              ok (record {
                results = plan_each plan call plan.actions;
                execution_order = [];
                execution_waves = [];
                stopped_at = none;
              }))
          | _ ↦
              reports plan call
                (rounds plan call before after (length plan.actions) (start plan.actions))
        ])
    go dry_run = plan_each-HasResults plan call plan.actions
    go stop_on_error = ran
    go continue_on_error = ran
