-- ===== src/Batch/Progress.antt =====
-- The scheduler of a batch: its invariant, and what it does to the pending actions.
use mathlib.Core.List.{Memᴰ}
use nap_cli.Prelude.{
  ℕ, ◌≤◌, ◌<◌, ◌≡◌, refl, sym, inl, inr, String, true, false, not, ◌&&◌, ◌||◌, List, [], ◌∷◌, arith,
  length, string_eq, ◌=?◌, contains, Bool-cases,
}
use text.Mathlib.TextEquality.{eq_iff}
use nap_cli.Prelude.Dict.{Dict, insert, has, lookup-insert}
use nap_cli.Batch.Plan.{Action, Plan, get_set, ids}
use nap_cli.Batch.Schedule.{Status, Run, conclude, remove, all_terminal}

pub contains-remove :
    (k id : String) (js : List String)
    → contains (remove id js) k ≡ (contains js k && not (k =? id))
contains-remove k id [] = refl
contains-remove k id (j ∷ js) =
    ground (arith, contains-remove k id js, eq_iff j id, eq_iff k j, eq_iff k id)

pub length-remove : (id : String) (js : List String) → length (remove id js) ≤ length js
length-remove id [] = omega arith
length-remove id (j ∷ js) = ground (arith, length-remove id js)

pub length-remove_lt :
    (id : String) (js : List String) → contains js id ≡ true → length (remove id js) < length js
length-remove_lt id [] h = cc
length-remove_lt id (j ∷ js) h =
    ground (arith, length-remove_lt id js, length-remove id js, eq_iff j id, eq_iff id j)

pub has-insert :
    (k j : String) (v : Status) (d : Dict String Status)
    → has k (insert j v d) ≡ ((k =? j) || has k d)
unfolding has
has-insert k j v d = ground (arith, lookup-insert k j v d)

pub all_terminal-false :
    (deps : List String) (results : Dict String Status)
    → all_terminal deps results ≡ false
    → (d : String) × (contains deps d ≡ true) × (has d results ≡ false)
all_terminal-false [] results h = cc
all_terminal-false (d ∷ deps) results h = elim (Bool-cases (has d results)) [
  | inr missing ↦ (d, ground (arith, eq_iff d d), missing)
  | inl there ↦
      let (e, within, missing) = all_terminal-false deps results (ground (arith, there, h)) in
      (e, ground (arith, within), missing)
]

pub contains-ids :
    (actions : List Action) (d : String)
    → contains (ids actions) d ≡ true
    → (a : Action) × Memᴰ a actions × (a.id ≡ d)
contains-ids [] d h = cc
contains-ids (a ∷ actions) d h = elim (Bool-cases (d =? a.id)) [
  | inl same ↦ (a, Memᴰ.head refl, sym ((eq_iff d a.id).0 same))
  | inr other ↦
      let (b, within, e) = contains-ids actions d (ground (arith, other, h)) in
      (b, Memᴰ.tail within, e)
]

-- The dependencies of every action can be ranked below it, and are actions of the batch.
pub record IsAcyclic (rank : String → ℕ) (plan : Plan) : Type 0 where
  pub parallel : 0 < plan.max_parallel
  pub depends :
      (a : Action) (d : String)
      → Memᴰ a plan.actions
      → contains a.depends_on d ≡ true
      → (rank d < rank a.id) × (contains (ids plan.actions) d ≡ true)
  pub barriers :
      (a : Action) (d : String)
      → Memᴰ a plan.actions
      → contains (get_set a.id plan.order_predecessors) d ≡ true
      → (rank d < rank a.id) × (contains (ids plan.actions) d ≡ true)

-- The pending actions are actions of the batch, and every other action has a result.
pub record IsRun (actions : List Action) (s : Run) : Type 0 where
  pub within : (id : String) → contains s.pending id ≡ true → contains (ids actions) id ≡ true
  pub covered :
      (a : Action) → Memᴰ a actions → contains s.pending a.id ≡ false → has a.id s.results ≡ true

pub conclude-IsRun :
    (actions : List Action) (a : Action) (status : Status) (s : Run)
    → IsRun actions s
    → IsRun actions (conclude a status s)
conclude-IsRun actions a status s v = record {
  within = λ id h. v.within id (ground (arith, contains-remove id a.id s.pending));
  covered = λ b m h. ground (
    arith,
    contains-remove b.id a.id s.pending,
    has-insert b.id a.id status s.results,
    v.covered b m,
  );
}
