-- ===== src/Supervisor/Reverting.antt =====
-- A reload that was put off, and a source that has changed back since.
use nap_cli.Prelude.{ℕ, ◌≡◌, true, false, some, arith, get_elem?, ℕ_eq, list_eq, =?_refl}
use nap_cli.Prelude.Dict.{lookup}
use nap_cli.Supervisor.Message.{Bytes}
use nap_cli.Supervisor.Worker.{
  unavailable, PendingRequest, Identity, Worker, Spawn, launch, start, defers, restarts,
  ensure_identity, ensure_current, stop_locked,
}
use nap_cli.Supervisor.Invariant.{IsWorker}
use nap_cli.Supervisor.Failing.{Told, stop_locked-tells}

launch-objects : (e : Spawn) (w : Worker) → (launch e w).1.objects ≡ w.objects
unfolding launch
launch-objects e w = ground arith

defers-same :
    (current : Identity) (w : Worker) → w.identity ≡ some current → defers current false w ≡ false
unfolding defers
defers-same current w same = ground (arith, same, =?_refl current)

restarts-pending :
    (current : Identity) (w : Worker) → w.reload_pending ≡ true → restarts current false w ≡ true
unfolding restarts
restarts-pending current w reload = ground (arith, reload)

-- In a worker that satisfies the invariant and has put off a reload, a call of ensure_current that finds the
-- source as it was when the process started fails each of them that was not cancelled, though the
-- process lives and the source has not changed.
pub ensure_current_reverted :
    {limit : ℕ} (current : Identity) (e : Spawn) (w : Worker) (key : Bytes) (ref : ℕ)
    (p : PendingRequest)
    → IsWorker limit w
    → w.identity ≡ some current
    → w.reload_pending ≡ true
    → lookup key w.pending ≡ some ref
    → get_elem? w.objects ref ≡ some p
    → p.cancelled ≡ false
    → Told (ensure_current (some current) false e w).1.objects ref unavailable
unfolding ensure_current ensure_identity start
ensure_current_reverted current e w key ref p v same reload l at live =
    rw (defers-same current w same, ensure_identity)
      (rw (restarts-pending current w reload)
        (rw (launch-objects e (stop_locked w)) (stop_locked-tells w key ref p v l at live).1))
