-- ===== src/Supervisor/Sections.antt =====
-- The worker as its threads share it: what each does while it holds a lock once, or between two
-- locks, is one section here, so `submit`, `cancel`, `wait`, `_stop_locked`, `_deliver_response`,
-- `_fail_generation` and `start` of resources/scripts/napseer_mcp_supervisor.py are several sections
-- each, and other threads run in between.
use nap_cli.Prelude.{
  ℕ, Bool, true, false, ◌&&◌, Option, none, some, List, [], ◌∷◌, ◌++◌, ◌==◌, if◌then◌else◌,
  get_elem?, modify, ℕ_eq, list_eq, string_eq,
}
use nap_cli.Prelude.Dict.{Dict}
use nap_cli.Prelude.Result.{Result, ok, raise}
use nap_cli.Supervisor.Message.{Bytes, Config}
use nap_cli.Supervisor.Worker.{
  Reply, PendingRequest, Worker, Failure, Spawn, new_worker, signal, stop_timer, of_generation,
  launch, is_process,
}
use nap_cli.Supervisor.Requests.{admit, withdraw, take_out, mark_cancelled, emptied}

-- How far the call of `submit` that made a request has come: it is in the table, `_write` has found
-- the process running, `_write` has raised, or the call is over with the request.
pub data Phase : Type 0 where
  admitted writing failed settled : Phase

-- The request is in the table, and its call of `submit` has still to find that its process runs, or
-- has found that its line was not taken and has still to take it out.
abbrev pub is_unwritten : Phase → Bool
is_unwritten admitted = true
is_unwritten writing = false
is_unwritten failed = true
is_unwritten settled = false

pub record Shared : Type 0 where
  pub worker : Worker
  -- of each request, by its number
  pub phase : ℕ → Phase
  -- the generation that a `_stop_locked` has still to fail, with `_lifecycle_lock` held
  pub stopping : Option ℕ

abbrev pub new_shared : Shared
new_shared = record { worker = new_worker; phase = λ ref. settled; stopping = none }

abbrev pub set_phase : ℕ → Phase → (ℕ → Phase) → ℕ → Phase
set_phase ref x phase r = if r == ref then x else phase r

abbrev pub entered : Result Failure ℕ → (ℕ → Phase) → ℕ → Phase
entered (ok ref) phase = set_phase ref admitted phase
entered (raise e) phase = phase

module _ (c : Config) where
  -- `submit`, under `_pending_lock`, with a generation read before.
  unfoldable pub admit_section : Bytes → ℕ → Shared → Shared
  unfolding admit
  admit_section message g s =
      let (result, w) = admit c message g s.worker in
      record s { worker = w; phase = entered result s.phase }

  -- `submit`, under `_pending_lock` again, where the write has raised.
  unfoldable pub withdraw_section : PendingRequest → ℕ → Shared → Shared
  unfolding withdraw
  withdraw_section p ref s = record s {
    worker = withdraw c p.key ref s.worker;
    phase = set_phase ref settled s.phase;
  }

  -- `cancel`, under `_pending_lock`, on the request that it has found.
  unfoldable pub mark_section : ℕ → Shared → Shared
  mark_section ref s = record s {
    worker = record s.worker { objects = modify (mark_cancelled c) ref s.worker.objects };
  }

  -- `_deliver_response`, under `_pending_lock`, on the request that it has found.
  unfoldable pub take_section : Bytes → ℕ → Shared → Shared
  unfolding take_out
  take_section key ref s = record s { worker = take_out c key ref s.worker }

  -- `pending.response.get` in `wait`
  unfoldable pub get_section : ℕ → Shared → Shared
  get_section ref s = record s {
    worker = record s.worker { objects = modify (emptied c) ref s.worker.objects };
  }

-- The first test of `_write` in `submit`; `alive` is that the process runs.
unfoldable pub check_section : PendingRequest → ℕ → Bool → Shared → Shared
check_section p ref alive s = record s {
  phase =
      set_phase ref (if is_process p.generation s.worker.process && alive then writing else failed)
        s.phase;
}

-- The end of `_write` in `submit`; `taken` is that the input has taken the whole line.
unfoldable pub finish_section : ℕ → Bool → Shared → Shared
finish_section ref taken s = record s {
  phase = set_phase ref (if taken then settled else failed) s.phase;
}

-- `_signal`, with no lock held.
unfoldable pub signal_section : Reply → ℕ → Shared → Shared
unfolding signal
signal_section reply ref s = record s { worker = signal reply ref s.worker }

-- A line is handed to the input of a process, with `_stdin_lock` held.
unfoldable pub write_section : ℕ → Bytes → Shared → Shared
write_section g line s = record s {
  worker = record s.worker { sent = s.worker.sent ++ (g, line) ∷ [] };
}

-- `unsolicited`, with no lock held.
unfoldable pub pass_section : Bytes → Shared → Shared
pass_section line s = record s {
  worker = record s.worker { emitted = s.worker.emitted ++ line ∷ [] };
}

-- The block of `_fail_generation` under `_pending_lock`: what it leaves, and the timers.
unfoldable pub left : ℕ → Dict Bytes ℕ → List PendingRequest → Dict Bytes ℕ
left g [] objects = []
left g ((key, ref) ∷ items) objects =
    let rest = left g items objects in
    if of_generation g (get_elem? objects ref) then rest else (key, ref) ∷ rest

unfoldable pub timers_stopped : ℕ → Dict Bytes ℕ → List PendingRequest → List PendingRequest
timers_stopped g [] objects = objects
timers_stopped g ((key, ref) ∷ items) objects =
    let rest = timers_stopped g items objects in
    if of_generation g (get_elem? objects ref) then modify stop_timer ref rest else rest

unfoldable pub pop_section : ℕ → Shared → Shared
unfolding left timers_stopped
pop_section g s = record s {
  worker = record s.worker {
    pending = left g s.worker.pending s.worker.objects;
    objects = timers_stopped g s.worker.pending s.worker.objects;
  };
}

-- What `_stop_locked` has still to do.
abbrev pub to_fail : Option ℕ → ℕ → Option ℕ
to_fail none g = none
to_fail (some p) g = some g

-- `_stop_locked` up to `_fail_generation`.
unfoldable pub clear_section : Shared → Shared
clear_section s = record s {
  worker = record s.worker { process = none; identity = none; reload_pending = false };
  stopping = to_fail s.worker.process s.worker.generation;
}

-- `_stop_locked` from `_fail_generation` on.
unfoldable pub fail_section : ℕ → Shared → Shared
unfolding pop_section
fail_section g s = record (pop_section g s) { stopping = none }

-- `start` after its `_stop_locked`.
unfoldable pub launch_section : Spawn → Shared → Shared
unfolding launch
launch_section e s = record s { worker = (launch e s.worker).1 }

-- `ensure_current`, where a reload waits for the requests of the process.
unfoldable pub defer_section : Shared → Shared
defer_section s = record s { worker = record s.worker { reload_pending = true } }
