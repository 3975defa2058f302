-- ===== src/Supervisor/Invariant.antt =====
-- What holds of a worker between two calls, where each call ends before the next one begins.
use native.Mathlib.Decide.{ℕ_discrete}
use nap_cli.Prelude.{
  ℕ, zero, suc, ◌≤◌, ◌≡◌, ◌≢◌, refl, sym, ◌∙◌, ap, Bool, true, false, Option, none, some, List, [],
  ◌∷◌, arith, if◌then◌else◌, length, get_elem?, modify, ℕ_eq, list_eq, get_elem?-modify_self,
  get_elem?-modify_ne,
}
use nap_cli.Prelude.Dict.{Dict, lookup, NodupKeys, AllItems, AllItems-of_lookup, lookup-nil}
use nap_cli.Prelude.Result.{ok}
use nap_cli.Supervisor.Message.{Bytes}
use nap_cli.Supervisor.Worker.{
  unavailable, PendingRequest, Identity, Worker, Spawn, new_worker, put_nowait, stop_timer,
  of_generation, fail_each, fail_generation, halt, launch, stop_locked, start, ensure_current,
  defers, restarts,
}

-- An unfinished request is an object of its key and generation, with nothing in its queue unless it
-- was cancelled.
abbrev pub IsEntry : List PendingRequest → ℕ → Bytes → ℕ → Type 0
IsEntry objects g key ref =
    (p : PendingRequest) × (get_elem? objects ref ≡ some p)
    × (p.key ≡ key)
    × (p.generation ≡ g)
    × (p.cancelled ≡ false → p.response ≡ none)

-- The table has one object for each key, no more than it may, all of the current generation, and
-- none unless there is a process; the process is of that generation too.
pub record IsWorker (limit : ℕ) (w : Worker) : Type 0 where
  pub nodup : NodupKeys w.pending
  pub entries :
      (key : Bytes) (ref : ℕ)
      → lookup key w.pending ≡ some ref
      → IsEntry w.objects w.generation key ref
  pub bounded : length w.pending ≤ limit
  pub idle : w.process ≡ none → w.pending ≡ []
  pub current : (g : ℕ) → w.process ≡ some g → g ≡ w.generation

-- A change of one object that such entries do not notice.
pub record Keeps (f : PendingRequest → PendingRequest) : Type 0 where
  pub key : (p : PendingRequest) → (f p).key ≡ p.key
  pub generation : (p : PendingRequest) → (f p).generation ≡ p.generation
  pub quiet :
      (p : PendingRequest)
      → (p.cancelled ≡ false → p.response ≡ none)
      → (f p).cancelled ≡ false
      → (f p).response ≡ none

pub IsEntry-modify :
    (f : PendingRequest → PendingRequest)
    → Keeps f
    → (objects : List PendingRequest) (g : ℕ) (key : Bytes) (i ref : ℕ) → IsEntry objects g key ref
    → IsEntry (modify f i objects) g key ref
IsEntry-modify f keeps objects g key i ref (p, at, k, gen, quiet) = elim (ℕ_discrete i ref) [
  | yes same ↦ (
    f p,
    rw same (get_elem?-modify_self f ref objects p at),
    keeps.key p ∙ k,
    keeps.generation p ∙ gen,
    keeps.quiet p quiet,
  )
  | no differ ↦ (p, get_elem?-modify_ne f i ref objects differ ∙ at, k, gen, quiet)
]

-- A change of an object that stands behind another key.
pub IsEntry-modify_ne :
    (f : PendingRequest → PendingRequest) (objects : List PendingRequest) (g : ℕ) (key key' : Bytes)
    (i ref : ℕ)
    → IsEntry objects g key' i
    → key ≢ key'
    → IsEntry objects g key ref
    → IsEntry (modify f i objects) g key ref
IsEntry-modify_ne f objects g key key' i ref (q, at', k', _, _) ne (p, at, k, gen, quiet) = (
  p,
  get_elem?-modify_ne f i ref objects (λ same. ne (ground (arith, at, at', k, k', same))) ∙ at,
  k,
  gen,
  quiet,
)

-- Failing a generation.
abbrev AllOf : ℕ → Dict Bytes ℕ → List PendingRequest → Type 0
AllOf g items objects = AllItems (λ key ref. of_generation g (get_elem? objects ref) ≡ true) items

abbrev pub fail : PendingRequest → PendingRequest
fail p = put_nowait unavailable (stop_timer p)

of_generation-modify :
    (g i j : ℕ) (objects : List PendingRequest)
    → of_generation g (get_elem? (modify fail i objects) j) ≡ of_generation g (get_elem? objects j)
of_generation-modify g i j [] = refl
of_generation-modify g zero zero (p ∷ objects) = refl
of_generation-modify g zero (suc j) (p ∷ objects) = refl
of_generation-modify g (suc i) zero (p ∷ objects) = refl
of_generation-modify g (suc i) (suc j) (p ∷ objects) = of_generation-modify g i j objects

AllOf-modify :
    (g i : ℕ) (items : Dict Bytes ℕ) (objects : List PendingRequest)
    → AllOf g items objects
    → AllOf g items (modify fail i objects)
AllOf-modify g i [] objects a = tt
AllOf-modify g i ((key, ref) ∷ items) objects a =
    (of_generation-modify g i ref objects ∙ a.0, AllOf-modify g i items objects a.1)

fail_each-all :
    (g : ℕ) (items : Dict Bytes ℕ) (objects : List PendingRequest)
    → AllOf g items objects
    → (fail_each g items objects).0 ≡ []
unfolding fail_each
fail_each-all g [] objects a = refl
fail_each-all g ((key, ref) ∷ items) objects a =
    rw a.0 (fail_each-all g items (modify fail ref objects) (AllOf-modify g ref items objects a.1))

entry-of_generation :
    (objects : List PendingRequest) (g : ℕ) (key : Bytes) (ref : ℕ)
    → IsEntry objects g key ref
    → of_generation g (get_elem? objects ref) ≡ true
entry-of_generation objects g key ref (p, at, _, gen, _) = rw at (ground (arith, gen))

-- Failing the current generation fails every unfinished request.
pub fail_generation-empties :
    {limit : ℕ} (w : Worker) → IsWorker limit w → (fail_generation w.generation w).pending ≡ []
unfolding fail_generation
fail_generation-empties w v = fail_each-all w.generation w.pending w.objects (
    AllItems-of_lookup _ w.pending v.nodup
      (λ key ref h. entry-of_generation w.objects w.generation key ref (v.entries key ref h)))

-- What `_fail_generation` and `_stop_locked` leave as it was.
pub fail_generation_frame :
    (g : ℕ) (w : Worker)
    → let t = fail_generation g w in
      (t.process ≡ w.process)
      × (t.generation ≡ w.generation)
      × (t.sent ≡ w.sent)
      × (t.emitted ≡ w.emitted)
      × (t.identity ≡ w.identity)
      × (t.reload_pending ≡ w.reload_pending)
unfolding fail_generation
fail_generation_frame g w = (refl, refl, refl, refl, refl, refl)

halt_frame :
    (m : Option ℕ) (w : Worker)
    → let t = halt m w in
      (t.process ≡ w.process)
      × (t.generation ≡ w.generation)
      × (t.sent ≡ w.sent)
      × (t.emitted ≡ w.emitted)
      × (t.identity ≡ w.identity)
      × (t.reload_pending ≡ w.reload_pending)
unfolding halt
halt_frame none w = (refl, refl, refl, refl, refl, refl)
halt_frame (some p) w = fail_generation_frame w.generation w

pub stop_locked_frame :
    (w : Worker)
    → let t = stop_locked w in
      (t.process ≡ none)
      × (t.generation ≡ w.generation)
      × (t.sent ≡ w.sent)
      × (t.emitted ≡ w.emitted)
      × (t.identity ≡ none)
      × (t.reload_pending ≡ false)
unfolding stop_locked
stop_locked_frame w = halt_frame w.process _

halt-empties :
    {limit : ℕ} (m : Option ℕ) (w : Worker)
    → IsWorker limit w
    → w.process ≡ m
    → (halt m (record w { process = none; identity = none; reload_pending = false })).pending ≡ []
unfolding halt
halt-empties none w v e = v.idle e
halt-empties (some p) w v e = unfold fail_generation in fail_generation-empties w v

pub stop_locked-empties : {limit : ℕ} (w : Worker) → IsWorker limit w → (stop_locked w).pending ≡ []
unfolding stop_locked
stop_locked-empties w v = halt-empties w.process w v refl

-- A worker with no unfinished request.
pub empty-IsWorker :
    (limit : ℕ) (w : Worker)
    → w.pending ≡ []
    → ((g : ℕ) → w.process ≡ some g → g ≡ w.generation)
    → IsWorker limit w
empty-IsWorker limit w e current = record {
  nodup = rw e tt;
  entries = λ key ref h. cc (lookup-nil {V = ℕ} key, ap (lookup key) e);
  bounded = rw e (omega arith);
  idle = λ p. e;
  current = current;
}

pub stop_locked-IsWorker :
    {limit : ℕ} (w : Worker) → IsWorker limit w → IsWorker limit (stop_locked w)
stop_locked-IsWorker {limit} w v =
    empty-IsWorker limit (stop_locked w) (stop_locked-empties w v)
      (λ g p. cc ((stop_locked_frame w).0))

pub launch_frame :
    (e : Spawn) (w : Worker)
    → let t = (launch e w).1 in
      (t.pending ≡ w.pending)
      × (t.objects ≡ w.objects)
      × (t.sent ≡ w.sent)
      × (t.emitted ≡ w.emitted)
      × (w.process ≡ none → (g : ℕ) → t.process ≡ some g → g ≡ t.generation)
unfolding launch
launch_frame e w = (ground arith, ground arith, ground arith, ground arith, λ p g. ground arith)

pub start-IsWorker :
    {limit : ℕ} (e : Spawn) (w : Worker) → IsWorker limit w → IsWorker limit (start e w).1
unfolding start
start-IsWorker {limit} e w v =
    empty-IsWorker limit (launch e (stop_locked w)).1
      ((launch_frame e (stop_locked w)).0 ∙ stop_locked-empties w v)
      ((launch_frame e (stop_locked w)).4 (stop_locked_frame w).0)

-- The fields that the invariant reads are the same.
pub same-IsWorker :
    {limit : ℕ} {w t : Worker}
    → t.pending ≡ w.pending
    → t.objects ≡ w.objects
    → t.generation ≡ w.generation
    → t.process ≡ w.process
    → IsWorker limit w
    → IsWorker limit t
same-IsWorker p o g q v = record {
  nodup = rw p v.nodup;
  entries = λ key ref h. rw (o, g) (v.entries key ref (rw p at h));
  bounded = rw p v.bounded;
  idle = λ h. p ∙ v.idle (sym q ∙ h);
  current = λ k h. v.current k (sym q ∙ h) ∙ sym g;
}

choose-IsWorker :
    {limit : ℕ} (e : Spawn) (wait again : Bool) (w : Worker)
    → IsWorker limit w
    → IsWorker limit
        (if wait
          then (ok tt, record w { reload_pending = true })
          else if again
          then start e w
          else (ok tt, w)).1
choose-IsWorker e true again w v = same-IsWorker refl refl refl refl v
choose-IsWorker e false true w v = start-IsWorker e w v
choose-IsWorker e false false w v = v

pub ensure_current-IsWorker :
    {limit : ℕ} (current : Option Identity) (dead : Bool) (e : Spawn) (w : Worker)
    → IsWorker limit w
    → IsWorker limit (ensure_current current dead e w).1
unfolding ensure_current
ensure_current-IsWorker none dead e w v = stop_locked-IsWorker w v
ensure_current-IsWorker (some current) dead e w v =
    choose-IsWorker e (defers current dead w) (restarts current dead w) w v

pub new_worker-IsWorker : (limit : ℕ) → IsWorker limit new_worker
unfolding new_worker
new_worker-IsWorker limit = empty-IsWorker limit new_worker refl (λ g p. cc)

-- Failing another generation touches nothing.
fail_each-none :
    (g : ℕ) (items : Dict Bytes ℕ) (objects : List PendingRequest)
    → AllItems (λ key ref. of_generation g (get_elem? objects ref) ≡ false) items
    → fail_each g items objects ≡ (items, objects)
unfolding fail_each
fail_each-none g [] objects a = refl
fail_each-none g ((key, ref) ∷ items) objects a = rw a.0 (rw (fail_each-none g items objects a.1))

pub fail_generation-old :
    {limit : ℕ} (g : ℕ) (w : Worker) → IsWorker limit w → g ≢ w.generation → fail_generation g w ≡ w
unfolding fail_generation
fail_generation-old g w v old = rw (fail_each-none g w.pending w.objects none_of)
  where
    none_of : AllItems (λ key ref. of_generation g (get_elem? w.objects ref) ≡ false) w.pending
    none_of =
        AllItems-of_lookup _ w.pending v.nodup
          (λ key ref h. let (p, at, _, gen, _) = v.entries key ref h in rw at (ground (arith, gen)))

pub fail_generation-IsWorker :
    {limit : ℕ} (g : ℕ) (w : Worker) → IsWorker limit w → IsWorker limit (fail_generation g w)
fail_generation-IsWorker {limit} g w v = elim (ℕ_discrete g w.generation) [
  | no old ↦ rw (fail_generation-old g w v old) v
  | yes same ↦ rw same (
      empty-IsWorker limit (fail_generation w.generation w) (fail_generation-empties w v)
        (unfold fail_generation in v.current))
]
