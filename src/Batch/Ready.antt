-- ===== src/Batch/Ready.antt =====
-- An action that can run is always found, as long as one is pending.
use mathlib.Core.List.{Memᴰ}
use nap_cli.Prelude.{
  ℕ, zero, suc, ◌<◌, ◌≡◌, refl, inl, inr, String, true, false, List, [], ◌∷◌, arith, ltb, length,
  take, string_eq, contains, Bool-cases,
}
use nap_cli.Prelude.Dict.{has}
use nap_cli.Batch.Plan.{Action, Plan, mutates, get_set, ids}
use nap_cli.Batch.Schedule.{Call, Run, all_terminal, is_ready, ready_from, mutations, earliest}
use nap_cli.Batch.Progress.{all_terminal-false, contains-ids, IsAcyclic, IsRun}

module _ (plan : Plan) (call : Action → Call) where
  abbrev pub Found : Run → Type 0
  Found s = (b : Action) × Memᴰ b plan.actions × (is_ready plan call s b ≡ true)

  pub descend :
      (s : Run) (d : String)
      → IsRun plan.actions s
      → ((b : Action) → Memᴰ b plan.actions → contains s.pending b.id ≡ true → b.id ≡ d → Found s)
      → contains (ids plan.actions) d ≡ true
      → has d s.results ≡ false
      → Found s
  descend s d v again listed missing =
      let (b, m, e) = contains-ids plan.actions d listed in
      elim (Bool-cases (contains s.pending b.id)) [
        | inl there ↦ again b m there e
        | inr away ↦ ground (arith, v.covered b m away, missing, e)
      ]

  -- An action that is pending waits, in the end, for one that can run.
  pub find_ready :
      (rank : String → ℕ) (n : ℕ) (s : Run) (a : Action)
      → IsAcyclic rank plan
      → IsRun plan.actions s
      → Memᴰ a plan.actions
      → contains s.pending a.id ≡ true
      → rank a.id < n
      → Found s
  find_ready rank zero s a c v m p lt = absurd (omega arith)
  find_ready rank (suc n) s a c v m p lt = elim (Bool-cases (all_terminal a.depends_on s.results)) [
    | inr e ↦
        (let (d, within, missing) = all_terminal-false a.depends_on s.results e in
          let (below, listed) = c.depends a d m within in
          descend s d v
            (λ b mb there same.
              find_ready rank n s b c v mb there (rw same (omega (arith, below, lt))))
            listed missing)
    | inl e ↦ elim (Bool-cases (all_terminal (get_set a.id plan.order_predecessors) s.results)) [
      | inr e' ↦
          (let (d, within, missing) = all_terminal-false _ s.results e' in
            let (below, listed) = c.barriers a d m within in
            descend s d v
              (λ b mb there same.
                find_ready rank n s b c v mb there (rw same (omega (arith, below, lt))))
              listed missing)
      | inl e' ↦ (a, m, ground (arith, p, e, e'))
    ]
  ]

  pub ready_from-found :
      (s : Run) (actions : List Action) (b : Action)
      → Memᴰ b actions
      → is_ready plan call s b ≡ true
      → (a : Action) × (rest : List Action) × (ready_from plan call s actions ≡ a ∷ rest)
  ready_from-found s [] b m r = elim m [ ]
  ready_from-found s (a ∷ actions) b (Memᴰ.head e) r =
      (let now : is_ready plan call s a ≡ true = rw (← e) r in
        (a, ready_from plan call s actions, rw now refl))
  ready_from-found s (a ∷ actions) b (Memᴰ.tail m) r = elim (Bool-cases (is_ready plan call s a)) [
    | inl now ↦ (a, ready_from plan call s actions, rw now refl)
    | inr later ↦ (let (x, rest, e) = ready_from-found s actions b m r in (x, rest, rw later e))
  ]

abbrev pub AllPending : Run → List Action → Type 0
AllPending s [] = Unit
AllPending s (a ∷ actions) = (contains s.pending a.id ≡ true) × AllPending s actions

-- A state that the scheduler may leave after a round: fewer actions are pending.
abbrev pub Shrinks : List Action → Run → Run → Type 0
Shrinks actions s t = IsRun actions t × (length t.pending < length s.pending)

pub take-AllPending :
    (n : ℕ) (s : Run) (actions : List Action) → AllPending s actions → AllPending s (take n actions)
take-AllPending zero s actions p = tt
take-AllPending (suc n) s [] p = tt
take-AllPending (suc n) s (a ∷ actions) p = (p.0, take-AllPending n s actions p.1)

pub earliest-AllPending :
    (plan : Plan) (call : Action → Call) (s : Run) (a : Action) (actions : List Action)
    → AllPending s (a ∷ actions)
    → contains s.pending (earliest plan call a actions).id ≡ true
earliest-AllPending plan call s a [] p = p.0
earliest-AllPending plan call s a (b ∷ actions) p = elim (Bool-cases (ltb b.index a.index)) [
  | inl e ↦ rw (e, earliest) (earliest-AllPending plan call s b actions p.1)
  | inr e ↦ rw (e, earliest) (earliest-AllPending plan call s a actions (p.0, p.1.1))
]

pub mutations-AllPending :
    (plan : Plan) (call : Action → Call) (s : Run) (actions : List Action)
    → AllPending s actions
    → AllPending s (mutations plan call actions)
mutations-AllPending plan call s [] p = tt
mutations-AllPending plan call s (a ∷ actions) p = elim (Bool-cases (mutates a.side_effect)) [
  | inl e ↦ rw e (p.0, mutations-AllPending plan call s actions p.1)
  | inr e ↦ rw e (mutations-AllPending plan call s actions p.1)
]

pub ready_from-AllPending :
    (plan : Plan) (call : Action → Call) (s : Run) (actions : List Action)
    → AllPending s (ready_from plan call s actions)
ready_from-AllPending plan call s [] = tt
ready_from-AllPending plan call s (a ∷ actions) = elim (Bool-cases (is_ready plan call s a)) [
  | inl e ↦ rw e (ground (arith, e), ready_from-AllPending plan call s actions)
  | inr e ↦ rw e (ready_from-AllPending plan call s actions)
]
