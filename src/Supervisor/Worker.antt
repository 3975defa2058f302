-- ===== src/Supervisor/Worker.antt =====
-- `Worker` of resources/scripts/napseer_mcp_supervisor.py. A request that waits is an object that
-- the table of requests and the thread that waits for it share: `objects` holds each by its number,
-- and `pending` names the objects that are unfinished. What the operating system answers (the
-- files' identities, whether the process lives, starts, or takes a line) is an argument.
use nap_cli.Prelude.{
  ℕ, ◌+◌, Bool, true, false, not, ◌&&◌, ◌||◌, Option, none, some, List, [], ◌∷◌, ◌++◌, ltb, ◌==◌,
  if◌then◌else◌, get_elem?, modify, ℕ_eq, list_eq, string_eq, ◌=?◌,
}
use nap_cli.Prelude.Dict.{Dict}
use nap_cli.Prelude.Result.{Result, ok, raise}
use nap_cli.Supervisor.Message.{Bytes, with_newline}

-- What is put in the queue of a request: its response, a WorkerUnavailable, or `_CANCELLED`.
pub data Reply : Type 0 where
  response_line : Bytes → Reply
  unavailable cancelled_reply : Reply

-- `cancel_timer`: None, started, or cancelled.
pub data Timer : Type 0 where
  unset started stopped : Timer

-- `PendingRequest`; its queue holds at most one reply.
pub record PendingRequest : Type 0 where
  pub message : Bytes
  pub key : Bytes
  pub generation : ℕ
  pub response : Option Reply
  pub cancelled : Bool
  pub cancel_timer : Timer

-- `runtime_identity`: inode, size and time of each file.
abbrev pub Identity : Type 0
Identity = List (List ℕ)

pub record Worker : Type 0 where
  -- the process, by the generation that it was started in
  pub process : Option ℕ
  pub identity : Option Identity
  pub generation : ℕ
  pub pending : Dict Bytes ℕ
  pub reload_pending : Bool
  pub objects : List PendingRequest
  -- the lines that were handed to a process's input, with its generation
  pub sent : List (ℕ × Bytes)
  -- the lines passed on by `unsolicited`
  pub emitted : List Bytes

pub data Failure : Type 0 where
  worker_unavailable request_rejected : Failure

unfoldable pub new_worker : Worker
new_worker = record {
  process = none;
  identity = none;
  generation = 0;
  pending = [];
  reload_pending = false;
  objects = [];
  sent = [];
  emitted = [];
}

-- `queue.put_nowait`, where a full queue stays as it is
abbrev pub put_nowait : Reply → PendingRequest → PendingRequest
put_nowait reply p = record p { response = elim p.response [ none ↦ some reply | some r ↦ some r ] }

unfoldable pub signal : Reply → ℕ → Worker → Worker
signal reply ref w = record w { objects = modify (put_nowait reply) ref w.objects }

-- `if pending.cancel_timer is not None: pending.cancel_timer.cancel()`
abbrev pub stop_timer : PendingRequest → PendingRequest
stop_timer p = record p {
  cancel_timer = elim p.cancel_timer [ unset ↦ unset | started ↦ stopped | stopped ↦ stopped ];
}

abbrev pub of_generation : ℕ → Option PendingRequest → Bool
of_generation g none = false
of_generation g (some p) = p.generation == g

-- The loop of `_fail_generation`: the requests that are left, and the objects.
unfoldable pub fail_each :
    ℕ → Dict Bytes ℕ → List PendingRequest → Dict Bytes ℕ × List PendingRequest
fail_each g [] objects = ([], objects)
fail_each g ((key, ref) ∷ items) objects =
    let hit = of_generation g (get_elem? objects ref) in
    let (rest, objects') =
      fail_each g items (
        if hit then modify (λ p. put_nowait unavailable (stop_timer p)) ref objects else objects) in
    (if hit then rest else (key, ref) ∷ rest, objects')

unfoldable pub fail_generation : ℕ → Worker → Worker
unfolding fail_each
fail_generation g w =
    let (pending, objects) = fail_each g w.pending w.objects in
    record w { pending = pending; objects = objects }

-- `_pending_count(generation)`
unfoldable pub pending_count : ℕ → Dict Bytes ℕ → List PendingRequest → ℕ
pending_count g [] objects = 0
pending_count g ((key, ref) ∷ items) objects =
    (if of_generation g (get_elem? objects ref) then 1 else 0) + pending_count g items objects

-- The requests of a process that was stopped fail; without one there is nothing more to do.
unfoldable pub halt : Option ℕ → Worker → Worker
unfolding fail_generation
halt none w = w
halt (some p) w = fail_generation w.generation w

-- `_stop_locked`
unfoldable pub stop_locked : Worker → Worker
unfolding halt
stop_locked w =
    halt w.process (record w { process = none; identity = none; reload_pending = false })

-- What starting a process meets: the files' identities, and whether Popen gives a process with pipes.
pub record Spawn : Type 0 where
  pub current : Option Identity
  pub starts : Bool

unfoldable pub launch : Spawn → Worker → Result Failure (Unit {0}) × Worker
launch e w = elim e.current [
  | none ↦ (raise worker_unavailable, w)
  | some identity ↦
      if e.starts
      then (
        ok tt,
        record w {
          generation = w.generation + 1;
          process = some (w.generation + 1);
          identity = some identity;
        },
      )
      else (raise worker_unavailable, w)
]

unfoldable pub start : Spawn → Worker → Result Failure (Unit {0}) × Worker
unfolding launch stop_locked
start e w = launch e (stop_locked w)

abbrev pub is_none {ℓ} : {A : Type ℓ} → Option A → Bool
is_none none = true
is_none (some a) = false

abbrev differs : Option Identity → Identity → Bool
differs none current = false
differs (some old) current = not (old =? current)

-- `process_dead`, where `dead` is `process.poll() is not None`.
abbrev pub is_dead : Bool → Worker → Bool
is_dead dead w = is_none w.process || dead

abbrev pub source_changed : Identity → Worker → Bool
source_changed current w = differs w.identity current

-- A change of the source waits for the requests of the living process.
unfoldable pub defers : Identity → Bool → Worker → Bool
unfolding pending_count
defers current dead w =
    source_changed current w
    && not (is_dead dead w)
    && ltb 0 (pending_count w.generation w.pending w.objects)

unfoldable pub restarts : Identity → Bool → Worker → Bool
restarts current dead w =
    is_dead dead w || is_none w.identity || source_changed current w || w.reload_pending

-- `ensure_current` at the identity of the files.
unfoldable pub ensure_identity :
    Identity → Bool → Spawn → Worker → Result Failure (Unit {0}) × Worker
unfolding start defers restarts
ensure_identity current dead e w =
    if defers current dead w
    then (ok tt, record w { reload_pending = true })
    else if restarts current dead w
    then start e w
    else (ok tt, w)

unfoldable pub ensure_current :
    Option Identity → Bool → Spawn → Worker → Result Failure (Unit {0}) × Worker
unfolding ensure_identity stop_locked
ensure_current none dead e w = (raise worker_unavailable, stop_locked w)
ensure_current (some current) dead e w = ensure_identity current dead e w

-- `self.process is process`
abbrev pub is_process : ℕ → Option ℕ → Bool
is_process g none = false
is_process g (some p) = p == g

-- `_write` to the process of a generation. `alive` is that the process runs; `taken` that its input
-- takes the whole line before the deadline. A line that is not taken may still have been begun.
unfoldable pub write : ℕ → Bytes → Bool → Bool → Worker → Result Failure (Unit {0}) × Worker
write g message alive taken w =
    if is_process g w.process && alive
    then (let w' = record w { sent = w.sent ++ (g, with_newline message) ∷ [] } in
        if taken then (ok tt, w') else (raise worker_unavailable, w'))
    else (raise worker_unavailable, w)
