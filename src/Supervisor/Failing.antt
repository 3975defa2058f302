-- ===== src/Supervisor/Failing.antt =====
-- When a process is stopped or exits, each request that waits for it learns of that.
use native.Mathlib.Decide.{ℕ_discrete}
use nap_cli.Prelude.{
  ℕ, ◌≡◌, ◌≢◌, refl, ◌∙◌, ap, inl, inr, true, false, Option, none, some, List, [], ◌∷◌, arith,
  get_elem?, modify, ℕ_eq, list_eq, Bool-cases, get_elem?-modify_self, get_elem?-modify_ne,
}
use nap_cli.Prelude.Dict.{Dict, lookup, lookup-nil}
use nap_cli.Supervisor.Message.{Bytes}
use nap_cli.Supervisor.Worker.{
  Reply, unavailable, PendingRequest, Worker, of_generation, fail_each, fail_generation, halt,
  stop_locked,
}
use nap_cli.Supervisor.Invariant.{IsWorker, fail, fail_generation-empties, stop_locked-empties}

-- An object whose queue holds the reply.
abbrev pub Told : List PendingRequest → ℕ → Reply → Type 0
Told objects ref reply =
    (p : PendingRequest) × (get_elem? objects ref ≡ some p) × (p.response ≡ some reply)

fail-Told :
    (i ref : ℕ) (reply : Reply) (objects : List PendingRequest)
    → Told objects ref reply
    → Told (modify fail i objects) ref reply
fail-Told i ref reply objects (p, at, told) = elim (ℕ_discrete i ref) [
  | yes same ↦ (fail p, rw same (get_elem?-modify_self fail ref objects p at), ground (arith, told))
  | no differ ↦ (p, get_elem?-modify_ne fail i ref objects differ ∙ at, told)
]

fail_each-Told :
    (g : ℕ) (items : Dict Bytes ℕ) (objects : List PendingRequest) (ref : ℕ) (reply : Reply)
    → Told objects ref reply
    → Told (fail_each g items objects).1 ref reply
unfolding fail_each
fail_each-Told g [] objects ref reply t = t
fail_each-Told g ((key, i) ∷ items) objects ref reply t =
    elim (Bool-cases (of_generation g (get_elem? objects i))) [
      | inl hit ↦ rw hit (
          fail_each-Told g items (modify fail i objects) ref reply
            (fail-Told i ref reply objects t))
      | inr miss ↦ rw miss (fail_each-Told g items objects ref reply t)
    ]

-- The object of a request that has no reply yet.
abbrev Waits : ℕ → List PendingRequest → ℕ → Type 0
Waits g objects ref =
    (p : PendingRequest) × (get_elem? objects ref ≡ some p)
    × (p.generation ≡ g)
    × (p.response ≡ none)

fail-Waits :
    (g i ref : ℕ) (objects : List PendingRequest)
    → Waits g objects ref
    → i ≢ ref
    → Waits g (modify fail i objects) ref
fail-Waits g i ref objects (p, at, gen, quiet) differ =
    (p, get_elem?-modify_ne fail i ref objects differ ∙ at, gen, quiet)

fail_each-tells :
    (g : ℕ) (key : Bytes) (items : Dict Bytes ℕ) (objects : List PendingRequest) (ref : ℕ)
    → lookup key items ≡ some ref
    → Waits g objects ref
    → Told (fail_each g items objects).1 ref unavailable
unfolding fail_each lookup
fail_each-tells g key [] objects ref h w = cc
fail_each-tells g key ((k, i) ∷ items) objects ref h (p, at, gen, quiet) = elim (ℕ_discrete i ref) [
  | yes same ↦
      (let hit : of_generation g (get_elem? objects i) ≡ true =
          rw same (rw at (ground (arith, gen))) in
        rw hit (
          fail_each-Told g items (modify fail i objects) ref unavailable
            (fail p, rw same (get_elem?-modify_self fail ref objects p at), ground (arith, quiet))))
  | no differ ↦
      (let rest : lookup key items ≡ some ref = ground (arith, h, differ) in
        elim (Bool-cases (of_generation g (get_elem? objects i))) [
          | inl hit ↦ rw hit (
              fail_each-tells g key items (modify fail i objects) ref rest
                (fail-Waits g i ref objects (p, at, gen, quiet) differ))
          | inr miss ↦ rw miss (fail_each-tells g key items objects ref rest (p, at, gen, quiet))
        ])
]

halt-tells :
    (m : Option ℕ) (w : Worker) (key : Bytes) (ref : ℕ)
    → m ≢ none
    → lookup key w.pending ≡ some ref
    → Waits w.generation w.objects ref
    → Told (halt m w).objects ref unavailable
unfolding halt fail_generation
halt-tells none w key ref h l wait = absurd (h refl)
halt-tells (some g) w key ref h l wait =
    fail_each-tells w.generation key w.pending w.objects ref l wait

-- When the process of a worker that satisfies the invariant is stopped, every unfinished request is
-- taken out of the table, and each that was not cancelled finds WorkerUnavailable in its queue.
pub stop_locked-tells :
    {limit : ℕ} (w : Worker) (key : Bytes) (ref : ℕ) (p : PendingRequest)
    → IsWorker limit w
    → lookup key w.pending ≡ some ref
    → get_elem? w.objects ref ≡ some p
    → p.cancelled ≡ false
    → ((stop_locked w).pending ≡ []) × Told (stop_locked w).objects ref unavailable
unfolding stop_locked
stop_locked-tells w key ref p v l at live = (
  stop_locked-empties w v,
  halt-tells w.process _ key ref
      (λ idle. cc (ap (lookup key) (v.idle idle), lookup-nil {V = ℕ} key)) l
      (let (q, at', _, gen, quiet) = v.entries key ref l in
        (q, at', gen, quiet (ground (arith, at, at', live)))),
)

-- When the output of the current process of a worker that satisfies the invariant ends, every
-- unfinished request is taken out of the table, and each that was not cancelled finds
-- WorkerUnavailable in its queue.
pub fail_generation-tells :
    {limit : ℕ} (w : Worker) (key : Bytes) (ref : ℕ) (p : PendingRequest)
    → IsWorker limit w
    → lookup key w.pending ≡ some ref
    → get_elem? w.objects ref ≡ some p
    → p.cancelled ≡ false
    → ((fail_generation w.generation w).pending ≡ [])
      × Told (fail_generation w.generation w).objects ref unavailable
unfolding fail_generation
fail_generation-tells w key ref p v l at live =
    let (q, at', _, gen, quiet) = v.entries key ref l in
    (
      fail_generation-empties w v,
      fail_each-tells w.generation key w.pending w.objects ref l
          (q, at', gen, quiet (ground (arith, at, at', live))),
    )
