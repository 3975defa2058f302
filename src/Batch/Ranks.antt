-- ===== src/Batch/Ranks.antt =====
-- A test that ranks put the dependencies and the barriers of every action below it.
use mathlib.Core.List.{Memᴰ}
use text.Mathlib.TextEquality.{eq_iff}
use nap_cli.Prelude.{
  ℕ, ◌<◌, ◌≡◌, String, Bool, true, ◌&&◌, List, [], ◌∷◌, arith, ltb, string_eq, ◌=?◌, contains,
  Bool-cases, inl, inr,
}
use nap_cli.Prelude.Dict.{Dict}
use nap_cli.Batch.Plan.{Action, Plan, get_set, ids}
use nap_cli.Batch.Progress.{IsAcyclic}

abbrev pub below : (String → ℕ) → ℕ → List String → List String → Bool
below rank n listed [] = true
below rank n listed (d ∷ deps) = ltb (rank d) n && contains listed d && below rank n listed deps

below_lem :
    (rank : String → ℕ) (n : ℕ) (listed deps : List String) (d : String)
    → below rank n listed deps ≡ true
    → contains deps d ≡ true
    → (rank d < n) × (contains listed d ≡ true)
below_lem rank n listed [] d t h = cc
below_lem rank n listed (e ∷ deps) d t h = elim (Bool-cases (d =? e)) [
  | inl same ↦ rw ((eq_iff d e).0 same) (ground (arith, t))
  | inr other ↦ below_lem rank n listed deps d (ground (arith, t)) (ground (arith, h, other))
]

abbrev pub ranked : (String → ℕ) → List String → Dict String (List String) → List Action → Bool
ranked rank listed order [] = true
ranked rank listed order (a ∷ actions) =
    below rank (rank a.id) listed a.depends_on
    && below rank (rank a.id) listed (get_set a.id order)
    && ranked rank listed order actions

ranked_lem :
    (rank : String → ℕ) (listed : List String) (order : Dict String (List String))
    (actions : List Action) (a : Action)
    → ranked rank listed order actions ≡ true
    → Memᴰ a actions
    → (below rank (rank a.id) listed a.depends_on ≡ true)
      × (below rank (rank a.id) listed (get_set a.id order) ≡ true)
ranked_lem rank listed order [] a t m = elim m [ ]
ranked_lem rank listed order (b ∷ actions) a t (Memᴰ.head e) =
    rw e (ground (arith, t), ground (arith, t))
ranked_lem rank listed order (b ∷ actions) a t (Memᴰ.tail m) =
    ranked_lem rank listed order actions a (ground (arith, t)) m

pub ranked-IsAcyclic :
    (rank : String → ℕ) (plan : Plan)
    → 0 < plan.max_parallel
    → ranked rank (ids plan.actions) plan.order_predecessors plan.actions ≡ true
    → IsAcyclic rank plan
ranked-IsAcyclic rank plan par t = record {
  parallel = par;
  depends = λ a d m h.
      below_lem rank (rank a.id) (ids plan.actions) a.depends_on d
        (ranked_lem rank (ids plan.actions) plan.order_predecessors plan.actions a t m).0 h;
  barriers = λ a d m h.
      below_lem rank (rank a.id) (ids plan.actions) (get_set a.id plan.order_predecessors) d
        (ranked_lem rank (ids plan.actions) plan.order_predecessors plan.actions a t m).1 h;
}
