-- ===== src/Batch/Tests.antt =====
-- Runs of batches: two reads, a mutation between them, and a read that depends on the first.
use nap_cli.Prelude.{
  ℕ, ◌≡◌, refl, String, Bool, true, false, none, List, [], ◌∷◌, arith, if◌then◌else◌, string_eq,
  ◌=?◌,
}
use nap_cli.Prelude.Dict.{lookup, insert}
use nap_cli.Prelude.Json.{null, end}
use nap_cli.Prelude.Result.{ok}
use nap_cli.Batch.Plan.{
  Action, Plan, SideEffect, no_effect, remote_write, validate_actions, stop_on_error,
  order_predecessors,
}
use nap_cli.Batch.Schedule.{Call, returned, failed_call, execute}
use nap_cli.Batch.Progress.{IsAcyclic}
use nap_cli.Batch.Barriers.{Holds, order_predecessors-Holds}
use nap_cli.Batch.Width.{ReportsWaves, execute-ReportsWaves}
use nap_cli.Batch.Ranks.{ranked-IsAcyclic}
use nap_cli.Batch.Complete.{IsComplete, execute-IsComplete}

abbrev action : ℕ → String → SideEffect → List String → Action
action index id effect deps = record {
  index = index;
  id = id;
  tool = "nap_search";
  arguments = end;
  reason = "a test";
  depends_on = deps;
  side_effect = effect;
}

abbrev actions : List Action
actions =
    action 0 "read" no_effect []
    ∷ action 1 "write" remote_write []
    ∷ action 2 "again" no_effect ("read" ∷ [])
    ∷ []

abbrev plan : Plan
plan = record {
  actions = actions;
  order_predecessors = order_predecessors actions;
  contains_mutations = true;
  failure_policy = stop_on_error;
  max_parallel = 4;
}

-- This is the plan that validation makes of the actions.
plan-valid : validate_actions (λ xs. xs) actions none none 8 ≡ ok plan
unfolding validate_actions lookup insert
plan-valid = refl

-- The write fails.
abbrev call : Action → Call
call a = if a.id =? "write" then failed_call null else returned null

abbrev rank : String → ℕ
rank id = if id =? "read" then 0 else if id =? "write" then 1 else 2

plan-IsAcyclic : IsAcyclic rank plan
unfolding order_predecessors lookup insert
plan-IsAcyclic = ranked-IsAcyclic rank plan (omega arith) refl

abbrev never : ℕ → Bool
never n = false

execute-IsComplete_example : IsComplete actions never never (execute plan call never never)
execute-IsComplete_example = execute-IsComplete plan call rank never never plan-IsAcyclic

order_predecessors-Holds_example : Holds "again" "write" (order_predecessors actions)
order_predecessors-Holds_example =
    order_predecessors-Holds (action 0 "read" no_effect [] ∷ []) (action 1 "write" remote_write [])
      [] (action 2 "again" no_effect ("read" ∷ [])) [] refl

execute-ReportsWaves_example : ReportsWaves 4 (execute plan call never never)
execute-ReportsWaves_example = execute-ReportsWaves plan call never never (omega arith)
