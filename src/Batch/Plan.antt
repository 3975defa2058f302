-- ===== src/Batch/Plan.antt =====
-- The plan of a batch: `validate_batch` from the parsed actions on, and `_batch_order_predecessors`,
-- in resources/scripts/napseer_mcp_server.py.
use nap_cli.Prelude.{
  ℕ, zero, suc, ◌-◌, String, Bool, true, false, not, ◌&&◌, ◌||◌, Option, none, some, List, [], ◌∷◌,
  ◌++◌, if◌then◌else◌, ◌==◌, length, string_eq, ◌=?◌, contains, map, min, max,
}
use nap_cli.Prelude.Dict.{Dict, lookup, insert}
use nap_cli.Prelude.Json.{Fields}
use nap_cli.Prelude.Result.{Result, ok, raise, ◌>>=◌, ◌>>◌, guard}

-- `side_effect`; validation lets no other value through.
pub data SideEffect : Type 0 where
  no_effect remote_write : SideEffect

pub record Action : Type 0 where
  pub index : ℕ
  pub id : String
  pub tool : String
  pub arguments : Fields
  pub reason : String
  pub depends_on : List String
  pub side_effect : SideEffect

pub data FailurePolicy : Type 0 where
  stop_on_error continue_on_error dry_run : FailurePolicy

pub data BatchError : Type 0 where
  batch_dependency_cycle unknown_batch_dependency batch_scheduler_stalled cancelled : BatchError

pub record Plan : Type 0 where
  pub actions : List Action
  pub order_predecessors : Dict String (List String)
  pub contains_mutations : Bool
  pub failure_policy : FailurePolicy
  pub max_parallel : ℕ

abbrev pub mutates : SideEffect → Bool
mutates no_effect = false
mutates remote_write = true

-- A Python set, without duplicates.
abbrev pub add : String → List String → List String
add x xs = if contains xs x then xs else xs ++ x ∷ []

abbrev pub add_all : List String → List String → List String
add_all [] xs = xs
add_all (y ∷ ys) xs = add_all ys (add y xs)

abbrev pub get_set : String → Dict String (List String) → List String
get_set id d = elim (lookup id d) [ none ↦ [] | some s ↦ s ]

-- `d[id].update(new)`
abbrev pub update : String → List String → Dict String (List String) → Dict String (List String)
update id new d = insert id (add_all new (get_set id d)) d

abbrev pub update_each :
    List String → String → Dict String (List String) → Dict String (List String)
update_each [] id d = d
update_each (later ∷ rest) id d = update_each rest id (update later (id ∷ []) d)

abbrev pub ids : List Action → List String
ids = map (λ a. a.id)

-- The loop over the mutations: all before one precede it, and it precedes all after it.
unfoldable pub barriers :
    List String → List Action → Dict String (List String) → Dict String (List String)
barriers before [] d = d
barriers before (a ∷ actions) d =
    barriers (before ++ a.id ∷ []) actions
      (if mutates a.side_effect then update_each (ids actions) a.id (update a.id before d) else d)

abbrev pub empty_sets : List Action → Dict String (List String)
empty_sets [] = []
empty_sets (a ∷ actions) = (a.id, []) ∷ empty_sets actions

unfoldable pub order_predecessors : List Action → Dict String (List String)
unfolding barriers
order_predecessors actions = barriers [] actions (empty_sets actions)

-- The dependencies and the barriers of each action.
abbrev pub predecessors : Dict String (List String) → List Action → Dict String (List String)
predecessors order [] = []
predecessors order (a ∷ actions) =
    (a.id, add_all (get_set a.id order) (add_all a.depends_on [])) ∷ predecessors order actions

abbrev pub without : String → Dict String (List String) → List (String × ℕ) → List (String × ℕ)
without id preds [] = []
without id preds ((j, n) ∷ indegree) =
    (j, if contains (get_set j preds) id then n - 1 else n) ∷ without id preds indegree

-- The followers of `id` whose indegree falls to zero, in the order of `sorted`.
abbrev pub released : String → Dict String (List String) → List (String × ℕ) → List String
released id preds [] = []
released id preds ((j, n) ∷ indegree) =
    let rest = released id preds indegree in
    if contains (get_set j preds) id && n == 1 then j ∷ rest else rest

-- The loop over `ready`, on fuel: the actions that it visits. `sorted` is Python's.
unfoldable pub visit :
    (List String → List String)
    → ℕ
    → Dict String (List String)
    → List String
    → List (String × ℕ)
    → ℕ
visit sorted zero preds ready indegree = zero
visit sorted (suc fuel) preds [] indegree = zero
visit sorted (suc fuel) preds (id ∷ ready) indegree = suc (
    visit sorted fuel preds (ready ++ sorted (released id preds indegree))
      (without id preds indegree))

abbrev pub indegrees : Dict String (List String) → List (String × ℕ)
indegrees [] = []
indegrees ((id, deps) ∷ preds) = (id, length deps) ∷ indegrees preds

abbrev pub zeros : List (String × ℕ) → List String
zeros [] = []
zeros ((id, n) ∷ indegree) = let rest = zeros indegree in if n == 0 then id ∷ rest else rest

-- `_batch_order_predecessors`: every action is visited at most once, so as many rounds as there are
-- actions are enough.
unfoldable pub batch_order_predecessors :
    (List String → List String) → List Action → Result BatchError (Dict String (List String))
unfolding order_predecessors visit
batch_order_predecessors sorted actions =
    let order = order_predecessors actions in
    let preds = predecessors order actions in
    let indegree = indegrees preds in
    if visit sorted (length actions) preds (zeros indegree) indegree == length actions
    then ok order
    else raise batch_dependency_cycle

-- The loop that checks the dependencies of one action.
unfoldable pub check_dependencies :
    List String → String → List String → Result BatchError (Unit {0})
check_dependencies seen id [] = ok tt
check_dependencies seen id (d ∷ deps) = do
  guard (contains seen d) unknown_batch_dependency
  guard (not (d =? id)) batch_dependency_cycle
  check_dependencies seen id deps

unfoldable pub check_all : List String → List Action → Result BatchError (Unit {0})
unfolding check_dependencies
check_all seen [] = ok tt
check_all seen (a ∷ actions) = do check_dependencies seen a.id a.depends_on; check_all seen actions

abbrev pub any_mutation : List Action → Bool
any_mutation [] = false
any_mutation (a ∷ actions) = mutates a.side_effect || any_mutation actions

-- `validate_batch` after the actions are parsed: their identifiers are distinct. `policy` is the
-- one that was asked for, `parallel` the number (0 for a negative one), and `most` the limit.
unfoldable pub validate_actions :
    (List String → List String)
    → List Action
    → Option FailurePolicy
    → Option ℕ
    → ℕ
    → Result BatchError Plan
unfolding check_all batch_order_predecessors
validate_actions sorted actions policy parallel most = do
  check_all (ids actions) actions
  order ← batch_order_predecessors sorted actions
  ok (record {
    actions = actions;
    order_predecessors = order;
    contains_mutations = any_mutation actions;
    failure_policy = elim policy [
      | none ↦ if any_mutation actions then stop_on_error else continue_on_error
      | some p ↦ p
    ];
    max_parallel = max 1 (min (elim parallel [ none ↦ min 4 most | some n ↦ n ]) most);
  })
