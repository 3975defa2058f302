-- ===== src/Batch/Barriers.antt =====
-- The mutation barriers of a plan.
use text.Mathlib.TextEquality.{eq_iff}
use nap_cli.Prelude.{
  ◌≡◌, refl, String, true, ◌||◌, List, [], ◌∷◌, ◌++◌, arith, string_eq, ◌=?◌, =?_refl, contains,
  Bool-cases, inl, inr,
}
use nap_cli.Prelude.Dict.{Dict, lookup-insert}
use nap_cli.Batch.Plan.{
  Action, mutates, add, add_all, get_set, update, update_each, ids, barriers, empty_sets,
  order_predecessors,
}

contains-append :
    (xs ys : List String) (k : String) → contains (xs ++ ys) k ≡ (contains xs k || contains ys k)
contains-append [] ys k = refl
contains-append (x ∷ xs) ys k = ground (arith, contains-append xs ys k)

contains-add :
    (x : String) (xs : List String) (k : String)
    → contains (add x xs) k ≡ (contains xs k || (k =? x))
contains-add x xs k = ground (arith, contains-append xs (x ∷ []) k, eq_iff k x)

contains-add_all :
    (ys xs : List String) (k : String)
    → contains (add_all ys xs) k ≡ (contains xs k || contains ys k)
contains-add_all [] xs k = ground arith
contains-add_all (y ∷ ys) xs k =
    ground (arith, contains-add_all ys (add y xs) k, contains-add y xs k)

abbrev pub Holds : String → String → Dict String (List String) → Type 0
Holds k j d = contains (get_set k d) j ≡ true

update-keeps :
    (k j id : String) (new : List String) (d : Dict String (List String))
    → Holds k j d
    → Holds k j (update id new d)
update-keeps k j id new d h = ground (
  arith,
  lookup-insert k id (add_all new (get_set id d)) d,
  contains-add_all new (get_set id d) j,
  h,
  eq_iff k id,
)

update-adds :
    (j id : String) (new : List String) (d : Dict String (List String))
    → contains new j ≡ true
    → Holds id j (update id new d)
update-adds j id new d h = ground (
  arith,
  lookup-insert id id (add_all new (get_set id d)) d,
  contains-add_all new (get_set id d) j,
  h,
  =?_refl id,
)

update_each-keeps :
    (k j id : String) (later : List String) (d : Dict String (List String))
    → Holds k j d
    → Holds k j (update_each later id d)
update_each-keeps k j id [] d h = h
update_each-keeps k j id (l ∷ later) d h =
    update_each-keeps k j id later (update l (id ∷ []) d) (update-keeps k j l (id ∷ []) d h)

update_each-adds :
    (k id : String) (later : List String) (d : Dict String (List String))
    → contains later k ≡ true
    → Holds k id (update_each later id d)
update_each-adds k id [] d h = cc
update_each-adds k id (l ∷ later) d h = elim (Bool-cases (k =? l)) [
  | inl e ↦
      update_each-keeps k id id later (update l (id ∷ []) d)
        (rw ((eq_iff k l).0 e) (update-adds id l (id ∷ []) d (ground (arith, =?_refl id))))
  | inr e ↦ update_each-adds k id later (update l (id ∷ []) d) (ground (arith, e, h))
]

barriers-keeps :
    (k j : String) (before : List String) (actions : List Action) (d : Dict String (List String))
    → Holds k j d
    → Holds k j (barriers before actions d)
unfolding barriers
barriers-keeps k j before [] d h = h
barriers-keeps k j before (a ∷ actions) d h = elim (Bool-cases (mutates a.side_effect)) [
  | inl e ↦
      rw (e, barriers)
        (barriers-keeps k j (before ++ a.id ∷ []) actions _
          (update_each-keeps k j a.id (ids actions) _ (update-keeps k j a.id before d h)))
  | inr e ↦ rw (e, barriers) (barriers-keeps k j (before ++ a.id ∷ []) actions d h)
]

-- A mutation waits for what stands before it.
waits_before :
    (j : String) (before : List String) (q : List Action) (y : Action) (r : List Action)
    (d : Dict String (List String))
    → contains before j ≡ true
    → mutates y.side_effect ≡ true
    → Holds y.id j (barriers before (q ++ y ∷ r) d)
unfolding barriers
waits_before j before [] y r d h m =
    rw (m, barriers)
      (barriers-keeps y.id j (before ++ y.id ∷ []) r _
        (update_each-keeps y.id j y.id (ids r) _ (update-adds j y.id before d h)))
waits_before j before (z ∷ q) y r d h m =
    waits_before j (before ++ z.id ∷ []) q y r _
      (ground (arith, contains-append before (z.id ∷ []) j, h)) m

contains-ids_middle :
    (q : List Action) (y : Action) (r : List Action) → contains (ids (q ++ y ∷ r)) y.id ≡ true
contains-ids_middle [] y r = ground (arith, =?_refl y.id)
contains-ids_middle (z ∷ q) y r = ground (arith, contains-ids_middle q y r)

barriers-Holds :
    (before : List String) (p : List Action) (x : Action) (q : List Action) (y : Action)
    (r : List Action) (d : Dict String (List String))
    → (mutates x.side_effect || mutates y.side_effect) ≡ true
    → Holds y.id x.id (barriers before (p ++ x ∷ (q ++ y ∷ r)) d)
unfolding barriers
barriers-Holds before (z ∷ p) x q y r d m = barriers-Holds (before ++ z.id ∷ []) p x q y r _ m
barriers-Holds before [] x q y r d m = elim (Bool-cases (mutates x.side_effect)) [
  | inl e ↦
      rw (e, barriers)
        (barriers-keeps y.id x.id (before ++ x.id ∷ []) (q ++ y ∷ r) _
          (update_each-adds y.id x.id (ids (q ++ y ∷ r)) _ (contains-ids_middle q y r)))
  | inr e ↦
      rw (e, barriers)
        (waits_before x.id (before ++ x.id ∷ []) q y r d
          (ground (arith, contains-append before (x.id ∷ []) x.id, =?_refl x.id))
          (ground (arith, e, m)))
]

-- Of two actions of a batch, the later one waits for the earlier one if either of them mutates.
pub order_predecessors-Holds :
    (p : List Action) (x : Action) (q : List Action) (y : Action) (r : List Action)
    → (mutates x.side_effect || mutates y.side_effect) ≡ true
    → Holds y.id x.id (order_predecessors (p ++ x ∷ (q ++ y ∷ r)))
unfolding order_predecessors
order_predecessors-Holds p x q y r m =
    barriers-Holds [] p x q y r (empty_sets (p ++ x ∷ (q ++ y ∷ r))) m
