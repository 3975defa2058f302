-- ===== src/Supervisor/Anytime.antt =====
-- What holds of the worker between any two sections of its threads.
use nap_cli.Prelude.{
  ℕ, ◌≡◌, ◌⊎◌, ◌≢◌, =?_refl, refl, inr, Bool, true, false, ◌&&◌, Option, none, some, List, [], ◌∷◌,
  arith, if◌then◌else◌, get_elem?, ℕ_eq, list_eq,
}
use nap_cli.Prelude.Dict.{Dict, lookup, lookup-nil, lookup-cons}
use nap_cli.Supervisor.Message.{Bytes, Config}
use nap_cli.Supervisor.Worker.{new_worker, PendingRequest, put_nowait, is_process, cancelled_reply}
use nap_cli.Supervisor.Requests.{mark_cancelled, emptied}
use nap_cli.Supervisor.Sections.{
  Shared, writing, failed, is_unwritten, new_shared, check_section, finish_section, mark_section,
  signal_section, get_section, write_section, pass_section, pop_section, defer_section,
}
use nap_cli.Supervisor.Interleaved.{
  Step, admits, checks, finishes, withdraws, hands_over, marks, drops, takes, answers, passes, gets,
  exits, clears, fails, launches, defers, Reach, begins, next, IsShared,
}
use nap_cli.Supervisor.Invariant.{IsWorker, IsEntry}
use nap_cli.Supervisor.Moves.{modifies, pops}
use nap_cli.Supervisor.Kept.{
  phases, admit_section-IsShared, withdraw_section-IsShared, take_section-IsShared,
  clear_section-IsShared, fail_section-IsShared, launch_section-IsShared,
}

new_shared-IsShared : (limit : ℕ) → IsShared limit new_shared
unfolding new_worker
new_shared-IsShared limit = record {
  nodup = tt;
  bounded = omega arith;
  items = λ key ref h. absurd (ground (arith, lookup-nil {V = ℕ} key, h));
  current = λ g e. absurd (ground (arith, e));
  halting = λ g e. absurd (ground (arith, e));
}

-- The fields that the invariant does not read.
others :
    {limit : ℕ} (sent : List (ℕ × Bytes)) (emitted : List Bytes) (reload : Bool) (s : Shared)
    → IsShared limit s
    → IsShared limit (record s {
      worker = record s.worker { sent = sent; emitted = emitted; reload_pending = reload };
    })
others sent emitted reload s v = record {
  nodup = v.nodup;
  bounded = v.bounded;
  items = v.items;
  current = v.current;
  halting = v.halting;
}

check_section-IsShared :
    {limit : ℕ} (p : PendingRequest) (ref : ℕ) (alive : Bool) (s : Shared)
    → get_elem? s.worker.objects ref ≡ some p
    → IsShared limit s
    → IsShared limit (check_section p ref alive s)
unfolding check_section
check_section-IsShared p ref alive s at v =
    phases s ref _ v
      (λ q at' h place. found q (ground (arith, at, at')) s.worker.process refl alive)
  where
    found :
        (q : PendingRequest)
        → p.generation ≡ q.generation
        → (m : Option ℕ) → s.worker.process ≡ m
        → (b : Bool)
        → ((q.generation ≡ s.worker.generation)
            × (s.worker.process ≡ some s.worker.generation ⊎ s.stopping ≡ some s.worker.generation))
          ⊎ (is_unwritten (if is_process p.generation m && b then writing else failed) ≡ true)
    found q e none r b = inr refl
    found q e (some g) r b = ground (arith, e, r, v.current g r)

empty_of_lookup : (d : Dict Bytes ℕ) → ((key : Bytes) (ref : ℕ) → lookup key d ≢ some ref) → d ≡ []
empty_of_lookup [] none_there = refl
empty_of_lookup ((key, ref) ∷ d) none_there =
    absurd (none_there key ref (ground (arith, lookup-cons key key ref d, =?_refl key)))

module _ (c : Config) where
  Step-IsShared :
      {s t : Shared} → Step c s t → IsShared c.max_in_flight s → IsShared c.max_in_flight t
  unfolding finish_section write_section mark_section signal_section pass_section get_section
      defer_section pop_section
  Step-IsShared (admits s message g old) v = admit_section-IsShared c message g s old v
  Step-IsShared (checks s ref p alive at now) v = check_section-IsShared p ref alive s at v
  Step-IsShared (finishes s ref taken now) v =
      phases s ref _ v (λ q at h place. ground (arith, now, place))
  Step-IsShared (withdraws s ref p at now) v = withdraw_section-IsShared c p ref s at v
  Step-IsShared (hands_over s g line) v = others _ _ _ s v
  Step-IsShared (marks s key ref p h at now) v =
      modifies (mark_cancelled c) ref s v (λ q at' h'. (refl, refl, λ quiet e. cc))
  Step-IsShared (drops s ref p at gone) v =
      modifies (put_nowait cancelled_reply) ref s v
        (λ q at' h. (refl, refl, λ quiet e. ground (arith, at, at', gone, e)))
  Step-IsShared (takes s key g ref p found) v = take_section-IsShared c key ref s v
  Step-IsShared (answers s ref p reply at out) v =
      modifies (put_nowait reply) ref s v (λ q at' h. absurd (out (ground (arith, at, at', h))))
  Step-IsShared (passes s line) v = others _ _ _ s v
  Step-IsShared (gets s ref) v =
      modifies (emptied c) ref s v (λ q at h. (refl, refl, λ quiet e. refl))
  Step-IsShared (exits s g) v = pops g s s.stopping v (λ ref p at other place. place) v.halting
  Step-IsShared (clears s free) v = clear_section-IsShared s free v
  Step-IsShared (fails s g held) v = fail_section-IsShared g s held v
  Step-IsShared (launches s e free idle) v = launch_section-IsShared e s free idle v
  Step-IsShared (defers s free) v = others _ _ _ s v

  -- However the sections of the threads follow each other, the table of unfinished requests has one
  -- entry for each key, at most `max_in_flight` of them; each is an object of its key, with nothing
  -- in its queue unless it was cancelled, and of a generation that has begun; and its generation is
  -- the current one, whose process is the worker's or is being stopped, or the call of `submit` that
  -- made it has still to look at the worker's process, or to take it out of the table. The worker's
  -- process is of the current generation, and so is one that is being stopped, when the worker has
  -- none.
  pub Reach-IsShared : {s : Shared} → Reach c s → IsShared c.max_in_flight s
  Reach-IsShared begins = new_shared-IsShared c.max_in_flight
  Reach-IsShared (next r step) = Step-IsShared step (Reach-IsShared r)

  -- However the sections of the threads follow each other: where no process is being stopped, and
  -- for each entry of the table the call of `submit` that made it is writing its line or is over, the
  -- table has one entry for each key, at most `max_in_flight` of them, each an object of its key and
  -- of the current generation, with nothing in its queue unless it was cancelled; it is empty when
  -- the worker has no process, and the worker's process is of the current generation.
  pub Reach-IsWorker :
      {s : Shared}
      → Reach c s
      → s.stopping ≡ none
      → ((key : Bytes) (ref : ℕ)
          → lookup key s.worker.pending ≡ some ref
          → is_unwritten (s.phase ref) ≡ false)
      → IsWorker c.max_in_flight s.worker
  Reach-IsWorker {s} reach free written = record {
    nodup = v.nodup;
    entries = entry;
    bounded = v.bounded;
    idle = λ idle. empty_of_lookup s.worker.pending (λ key ref h. vacant idle key ref h);
    current = v.current;
  }
    where
      v : IsShared c.max_in_flight s
      v = Reach-IsShared reach

      entry :
          (key : Bytes) (ref : ℕ)
          → lookup key s.worker.pending ≡ some ref
          → IsEntry s.worker.objects s.worker.generation key ref
      entry key ref h =
          let (p, at, k, quiet, _, place) = v.items key ref h in
          (p, at, k, ground (arith, place, written key ref h), quiet)

      vacant :
          s.worker.process ≡ none → (key : Bytes) (ref : ℕ) → lookup key s.worker.pending ≢ some ref
      vacant idle key ref h =
          let (p, at, k, quiet, _, place) = v.items key ref h in
          ground (arith, place, idle, free, written key ref h)
