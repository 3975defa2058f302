-- ===== src/Supervisor/Interleaved.antt =====
-- The sections of the worker's threads in any order.
use nap_cli.Prelude.{
  ℕ, ◌≤◌, ◌≡◌, ◌≢◌, ◌⊎◌, Bool, true, false, none, some, length, get_elem?, ℕ_eq, list_eq,
}
use nap_cli.Prelude.Dict.{lookup, NodupKeys}
use nap_cli.Supervisor.Message.{Bytes, Config}
use nap_cli.Supervisor.Worker.{Reply, cancelled_reply, PendingRequest, Spawn}
use nap_cli.Supervisor.Requests.{awaited}
use nap_cli.Supervisor.Sections.{
  Shared, admitted, writing, failed, is_unwritten, new_shared, admit_section, withdraw_section,
  mark_section, take_section, get_section, check_section, finish_section, signal_section,
  write_section, pass_section, pop_section, clear_section, fail_section, launch_section,
  defer_section,
}

-- One section of one thread. A step that the code takes in fewer cases than these is there in all of
-- them: a line may be handed to any process, or passed on, at any time.
pub data Step (c : Config) : Shared → Shared → Type 0 where
  -- `submit` has read the generation at some time before
  admits :
      (s : Shared) (message : Bytes) (g : ℕ)
      → g ≤ s.worker.generation
      → Step c s (admit_section c message g s)
  checks :
      (s : Shared) (ref : ℕ) (p : PendingRequest) (alive : Bool)
      → get_elem? s.worker.objects ref ≡ some p
      → s.phase ref ≡ admitted
      → Step c s (check_section p ref alive s)
  finishes :
      (s : Shared) (ref : ℕ) (taken : Bool)
      → s.phase ref ≡ writing
      → Step c s (finish_section ref taken s)
  withdraws :
      (s : Shared) (ref : ℕ) (p : PendingRequest)
      → get_elem? s.worker.objects ref ≡ some p
      → s.phase ref ≡ failed
      → Step c s (withdraw_section c p ref s)
  hands_over : (s : Shared) (g : ℕ) (line : Bytes) → Step c s (write_section g line s)
  marks :
      (s : Shared) (key : Bytes) (ref : ℕ) (p : PendingRequest)
      → lookup key s.worker.pending ≡ some ref
      → get_elem? s.worker.objects ref ≡ some p
      → p.cancelled ≡ false
      → Step c s (mark_section c ref s)
  -- `_signal` of `cancel`
  drops :
      (s : Shared) (ref : ℕ) (p : PendingRequest)
      → get_elem? s.worker.objects ref ≡ some p
      → p.cancelled ≡ true
      → Step c s (signal_section cancelled_reply ref s)
  takes :
      (s : Shared) (key : Bytes) (g ref : ℕ) (p : PendingRequest)
      → awaited c key g s.worker ≡ some (ref, p)
      → Step c s (take_section c key ref s)
  -- `_signal` of `_deliver_response` and `_fail_generation`, on a request taken out before
  answers :
      (s : Shared) (ref : ℕ) (p : PendingRequest) (reply : Reply)
      → get_elem? s.worker.objects ref ≡ some p
      → lookup p.key s.worker.pending ≢ some ref
      → Step c s (signal_section reply ref s)
  passes : (s : Shared) (line : Bytes) → Step c s (pass_section line s)
  gets : (s : Shared) (ref : ℕ) → Step c s (get_section c ref s)
  -- the output of the process of a generation has ended
  exits : (s : Shared) (g : ℕ) → Step c s (pop_section g s)
  -- the sections under `_lifecycle_lock`, which a `_stop_locked` that is not over holds
  clears : (s : Shared) → s.stopping ≡ none → Step c s (clear_section s)
  fails : (s : Shared) (g : ℕ) → s.stopping ≡ some g → Step c s (fail_section g s)
  launches :
      (s : Shared) (e : Spawn)
      → s.stopping ≡ none
      → s.worker.process ≡ none
      → Step c s (launch_section e s)
  defers : (s : Shared) → s.stopping ≡ none → Step c s (defer_section s)

pub data Reach (c : Config) : Shared → Type 0 where
  begins : Reach c new_shared
  next : {s t : Shared} → Reach c s → Step c s t → Reach c t

-- The request is of the generation of the worker's process or of the one that is being stopped, or
-- its call of `submit` has still to look at the worker's process or to take it out of the table.
abbrev pub IsPlaced : Shared → ℕ → PendingRequest → Type 0
IsPlaced s ref p =
    ((p.generation ≡ s.worker.generation)
      × ((s.worker.process ≡ some s.worker.generation) ⊎ (s.stopping ≡ some s.worker.generation)))
    ⊎ (is_unwritten (s.phase ref) ≡ true)

abbrev pub IsItem : Shared → Bytes → ℕ → Type 0
IsItem s key ref =
    (p : PendingRequest) × (get_elem? s.worker.objects ref ≡ some p)
    × (p.key ≡ key)
    × (p.cancelled ≡ false → p.response ≡ none)
    × (p.generation ≤ s.worker.generation)
    × IsPlaced s ref p

-- One item for each key, no more than there may be, each in place; the worker's process, or the one
-- that is being stopped, is of the current generation.
pub record IsShared (limit : ℕ) (s : Shared) : Type 0 where
  pub nodup : NodupKeys s.worker.pending
  pub bounded : length s.worker.pending ≤ limit
  pub items : (key : Bytes) (ref : ℕ) → lookup key s.worker.pending ≡ some ref → IsItem s key ref
  pub current : (g : ℕ) → s.worker.process ≡ some g → g ≡ s.worker.generation
  pub halting :
      (g : ℕ) → s.stopping ≡ some g → (g ≡ s.worker.generation) × (s.worker.process ≡ none)
