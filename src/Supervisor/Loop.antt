-- ===== src/Supervisor/Loop.antt =====
-- `supervise` of resources/scripts/napseer_mcp_supervisor.py: the loop over the client's lines, and
-- the threads that wait for the responses.
use nap_cli.Prelude.{
  ℕ, suc, Bool, true, false, ◌&&◌, ◌||◌, Option, none, some, List, [], ◌∷◌, ◌++◌, if◌then◌else◌,
  get_elem?, take, drop, leb, ◌==◌,
}
use nap_cli.Prelude.Json.{Json}
use nap_cli.Prelude.Result.{Result, ok, raise}
use nap_cli.Supervisor.Message.{
  Bytes, Config, cancelled_request_id, is_notification, with_newline, worker_error,
}
use nap_cli.Supervisor.Worker.{Worker, Failure, worker_unavailable, request_rejected}
use nap_cli.Supervisor.Requests.{Surroundings, submit, cancel, wait}

-- The worker, the lines written to the client, the requests whose thread waits, and `closing`.
pub record Supervisor : Type 0 where
  pub worker : Worker
  pub output : List Bytes
  pub waiters : List (Bytes × ℕ)
  pub closing : Bool

unfoldable pub emit : Bytes → Supervisor → Supervisor
emit response s =
    if s.closing then s else record s { output = s.output ++ with_newline response ∷ [] }

abbrev is_space : ℕ → Bool
is_space b = b == 32 || leb 9 b && leb b 13

-- `not message.strip()`
abbrev pub is_blank : Bytes → Bool
is_blank [] = true
is_blank (b ∷ bytes) = is_space b && is_blank bytes

abbrev pub is_rejected : Failure → Bool
is_rejected request_rejected = true
is_rejected worker_unavailable = false

-- A line of the client, or the end of the wait of a thread.
pub data Event : Type 0 where
  line : Bytes → Surroundings → Event
  waited : ℕ → Bool → Bool → Event

module _ (c : Config) where
  unfoldable pub submitted : Bytes → Supervisor → Result Failure (Option ℕ) × Worker → Supervisor
  unfolding emit
  submitted message s (ok none, w) = record s { worker = w }
  submitted message s (ok (some ref), w) = record s {
    worker = w;
    waiters = s.waiters ++ (message, ref) ∷ [];
  }
  submitted message s (raise e, w) =
      if is_notification c message
      then record s { worker = w }
      else emit (worker_error c message (is_rejected e)) (record s { worker = w })

  unfoldable pub handle_message : Bytes → Surroundings → Option Json → Supervisor → Supervisor
  unfolding submitted
  handle_message message e (some value) s = record s {
    worker = (cancel c value none e.alive e.taken s.worker).1;
  }
  handle_message message e none s = submitted message s (submit c message e s.worker)

  -- One line from the client.
  unfoldable pub handle_line : Bytes → Surroundings → Supervisor → Supervisor
  unfolding handle_message
  handle_line message e s =
      if is_blank message then s else handle_message message e (cancelled_request_id c message) s

  unfoldable pub finished : Bytes → Supervisor → Result Failure (Option Bytes) × Worker → Supervisor
  unfolding emit
  finished message s (ok none, w) = record s { worker = w }
  finished message s (ok (some response), w) = emit response (record s { worker = w })
  finished message s (raise e, w) = emit (worker_error c message false) (record s { worker = w })

  -- `finish`: one of the waiting threads, whichever, ends.
  unfoldable pub finish : ℕ → Bool → Bool → Supervisor → Supervisor
  unfolding finished
  finish i alive taken s = elim (get_elem? s.waiters i) [
    | none ↦ s
    | some (message, ref) ↦
        finished message (record s { waiters = take i s.waiters ++ drop (suc i) s.waiters })
          (wait c ref alive taken s.worker)
  ]

  unfoldable pub step : Event → Supervisor → Supervisor
  step (line message e) s = handle_line message e s
  step (waited i alive taken) s = finish i alive taken s

  unfoldable pub run : List Event → Supervisor → Supervisor
  run [] s = s
  run (e ∷ events) s = run events (step e s)
