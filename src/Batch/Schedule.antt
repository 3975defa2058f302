-- ===== src/Batch/Schedule.antt =====
-- `execute_batch` of resources/scripts/napseer_mcp_server.py. `call` is what a tool call comes to;
-- an action is called at most once, so one answer for each action is enough. `cancels` tells at each
-- round whether the request was cancelled before it, and after the calls of reads in it.
use nap_cli.Prelude.{
  ℕ, zero, suc, ◌+◌, String, Bool, true, false, not, ◌&&◌, ◌||◌, Option, none, some, List, [], ◌∷◌,
  ◌++◌, if◌then◌else◌, ◌==◌, ltb, length, take, string_eq, ◌=?◌, contains,
}
use nap_cli.Prelude.Dict.{Dict, lookup, insert, has}
use nap_cli.Prelude.Json.{Json}
use nap_cli.Prelude.Result.{Result, ok, raise}
use nap_cli.Batch.Plan.{
  Action, mutates, Plan, stop_on_error, continue_on_error, dry_run, BatchError,
  batch_scheduler_stalled, cancelled, get_set, ids,
}

-- What a tool call comes to: `_call_batch_action` turns every exception into a failed result.
pub data Call : Type 0 where
  returned : Json → Call
  failed_call : Json → Call

pub data SkipReason : Type 0 where
  stopped_after : String → SkipReason
  dependencies_failed : List String → SkipReason

-- `_batch_action_result`, by its status; the fields that are copied from the action are left out.
pub data Status : Type 0 where
  planned : Status
  succeeded failed : Json → Status
  skipped : SkipReason → Status

abbrev pub is_succeeded : Status → Bool
is_succeeded (succeeded j) = true
is_succeeded planned = false
is_succeeded (failed j) = false
is_succeeded (skipped r) = false

abbrev pub is_failed : Status → Bool
is_failed (failed j) = true
is_failed planned = false
is_failed (succeeded j) = false
is_failed (skipped r) = false

abbrev pub status_of : Call → Status
status_of (returned j) = succeeded j
status_of (failed_call j) = failed j

pub record Run : Type 0 where
  pub pending : List String
  pub results : Dict String Status
  pub execution_order : List String
  pub execution_waves : List (List String)
  pub stopped_at : Option String
  pub parallel_read_groups : ℕ

abbrev pub start : List Action → Run
start actions = record {
  pending = ids actions;
  results = [];
  execution_order = [];
  execution_waves = [];
  stopped_at = none;
  parallel_read_groups = 0;
}

-- `pending.remove(id)`
abbrev pub remove : String → List String → List String
remove id [] = []
remove id (j ∷ js) = let rest = remove id js in if j =? id then rest else j ∷ rest

-- The result of an action, and the action is no longer pending.
abbrev pub conclude : Action → Status → Run → Run
conclude a status s = record s {
  pending = remove a.id s.pending;
  results = insert a.id status s.results;
}

abbrev pub skip_rest : String → List Action → Run → Run
skip_rest at [] s = s
skip_rest at (a ∷ actions) s =
    skip_rest at actions
      (if contains s.pending a.id then conclude a (skipped (stopped_after at)) s else s)

-- The dependencies that have a result other than success.
abbrev pub failed_dependencies : List String → Dict String Status → List String
failed_dependencies [] results = []
failed_dependencies (d ∷ deps) results =
    let rest = failed_dependencies deps results in
    elim (lookup d results) [
      | none ↦ rest
      | some status ↦ if is_succeeded status then rest else d ∷ rest
    ]

abbrev pub blocked : Action → Run → List String
blocked a s = if contains s.pending a.id then failed_dependencies a.depends_on s.results else []

abbrev pub skip_one : Action → List String → Run → Run
skip_one a [] s = s
skip_one a (d ∷ ds) s = conclude a (skipped (dependencies_failed (d ∷ ds))) s

abbrev pub is_empty {ℓ} : {A : Type ℓ} → List A → Bool
is_empty [] = true
is_empty (x ∷ xs) = false

-- The pass over the actions that skips those with a failed dependency, and `skipped_any`.
unfoldable pub skip_failed : List Action → Bool → Run → Bool × Run
skip_failed [] any s = (any, s)
skip_failed (a ∷ actions) any s =
    let bad = blocked a s in skip_failed actions (any || not (is_empty bad)) (skip_one a bad s)

abbrev pub all_terminal : List String → Dict String Status → Bool
all_terminal [] results = true
all_terminal (d ∷ deps) results = has d results && all_terminal deps results

-- What `execute_batch` returns.
pub record Report : Type 0 where
  pub results : List (String × Option Status)
  pub execution_order : List String
  pub execution_waves : List (List String)
  pub stopped_at : Option String

module _ (plan : Plan) (call : Action → Call) where
  abbrev pub is_ready : Run → Action → Bool
  is_ready s a =
      contains s.pending a.id
      && all_terminal a.depends_on s.results
      && all_terminal (get_set a.id plan.order_predecessors) s.results

  abbrev pub ready_from : Run → List Action → List Action
  ready_from s [] = []
  ready_from s (a ∷ actions) =
      let rest = ready_from s actions in if is_ready s a then a ∷ rest else rest

  abbrev pub mutations : List Action → List Action
  mutations [] = []
  mutations (a ∷ actions) =
      let rest = mutations actions in if mutates a.side_effect then a ∷ rest else rest

  -- `min(…, key=index)`
  abbrev pub earliest : Action → List Action → Action
  earliest a [] = a
  earliest a (b ∷ actions) = earliest (if ltb b.index a.index then b else a) actions

  abbrev stops : Run → Bool → Bool
  stops s failure =
      failure
      && elim plan.failure_policy [ stop_on_error ↦ true | _ ↦ false ]
      && elim s.stopped_at [ none ↦ true | some at ↦ false ]

  unfoldable pub run_mutation : Action → Run → Run
  run_mutation a s =
      let status = status_of (call a) in
      let s' = conclude a status s in
      record s' {
        execution_order = s.execution_order ++ a.id ∷ [];
        execution_waves = s.execution_waves ++ (a.id ∷ []) ∷ [];
        stopped_at = if stops s (is_failed status) then some a.id else s.stopped_at;
      }

  abbrev pub conclude_all : List Action → Run → Run
  conclude_all [] s = s
  conclude_all (a ∷ reads) s = conclude_all reads (conclude a (status_of (call a)) s)

  abbrev pub failed_reads : List Action → List Action
  failed_reads [] = []
  failed_reads (a ∷ reads) =
      let rest = failed_reads reads in if is_failed (status_of (call a)) then a ∷ rest else rest

  unfoldable pub run_reads : List Action → Run → Run
  run_reads reads s =
      let s' = conclude_all reads s in
      record s' {
        execution_order = s.execution_order ++ ids reads;
        execution_waves = s.execution_waves ++ ids reads ∷ [];
        parallel_read_groups = s.parallel_read_groups + 1;
        stopped_at = elim (failed_reads reads) [
          | [] ↦ s.stopped_at
          | a ∷ more ↦ if stops s true then some (earliest a more).id else s.stopped_at
        ];
      }

  -- What one round does with the actions that are ready.
  unfoldable pub dispatch : List Action → List Action → Run → Result BatchError Run
  unfolding run_mutation run_reads
  dispatch [] muts s = raise batch_scheduler_stalled
  dispatch (a ∷ ready) [] s = ok (run_reads (take plan.max_parallel (a ∷ ready)) s)
  dispatch (a ∷ ready) (m ∷ muts) s = ok (run_mutation (earliest m muts) s)

  abbrev pub stop_now : Run → Option String
  stop_now s = elim plan.failure_policy [
    | stop_on_error ↦ s.stopped_at
    | continue_on_error ↦ none
    | dry_run ↦ none
  ]

  -- The round after the passes that stop or skip. Its cancellation is checked after reads alone.
  unfoldable pub run_ready : Run → Result BatchError Run
  unfolding dispatch
  run_ready s = let ready = ready_from s plan.actions in dispatch ready (mutations ready) s

  unfoldable pub after_skip : Bool × Run → Result BatchError Run
  unfolding run_ready
  after_skip (true, s) = ok s
  after_skip (false, s) = run_ready s

  -- One round of the loop: what is left is skipped after a stop, or some actions are skipped and
  -- the loop goes on, or some are run.
  unfoldable pub round : Run → Result BatchError Run
  unfolding after_skip skip_failed
  round s = elim (stop_now s) [
    | some at ↦ ok (record (skip_rest at plan.actions s) { pending = [] })
    | none ↦ after_skip (skip_failed plan.actions false s)
  ]

  abbrev pub has_read : Run → Run → Bool
  has_read s s' = not (s.parallel_read_groups == s'.parallel_read_groups)

  -- The loop. The request may be cancelled before each round, and after the reads of one, told by
  -- the rounds left; `none` means that the rounds ran out.
  unfoldable pub rounds : (ℕ → Bool) → (ℕ → Bool) → ℕ → Run → Option (Result BatchError Run)
  unfolding round
  rounds before after zero s = if is_empty s.pending then some (ok s) else none
  rounds before after (suc fuel) s =
      let rest = λ (s' : Run). rounds before after fuel s' in
      if is_empty s.pending
      then some (ok s)
      else if before fuel
      then some (raise cancelled)
      else elim (round s) [
        | raise e ↦ some (raise e)
        | ok s' ↦ if has_read s s' && after fuel then some (raise cancelled) else rest s'
      ]

  abbrev pub ordered : List Action → Dict String Status → List (String × Option Status)
  ordered [] results = []
  ordered (a ∷ actions) results = (a.id, lookup a.id results) ∷ ordered actions results

  abbrev pub plan_each : List Action → List (String × Option Status)
  plan_each [] = []
  plan_each (a ∷ actions) = (a.id, some planned) ∷ plan_each actions

  unfoldable pub report : Run → Report
  report s = record {
    results = ordered plan.actions s.results;
    execution_order = s.execution_order;
    execution_waves = s.execution_waves;
    stopped_at = s.stopped_at;
  }

  unfoldable pub reports : Option (Result BatchError Run) → Option (Result BatchError Report)
  unfolding report
  reports none = none
  reports (some (raise e)) = some (raise e)
  reports (some (ok s)) = some (ok (report s))

  -- `execute_batch` on a plan: a round for each action is enough.
  unfoldable pub execute : (ℕ → Bool) → (ℕ → Bool) → Option (Result BatchError Report)
  unfolding rounds reports
  execute before after = elim plan.failure_policy [
    | dry_run ↦ some (
        ok (record {
          results = plan_each plan.actions;
          execution_order = [];
          execution_waves = [];
          stopped_at = none;
        }))
    | _ ↦ reports (rounds before after (length plan.actions) (start plan.actions))
  ]
