-- ===== src/Supervisor/Requests.antt =====
-- The calls of `Worker` that admit, cancel, answer and await requests, from
-- resources/scripts/napseer_mcp_supervisor.py.
use nap_cli.Prelude.{
  ℕ, Bool, true, false, not, ◌&&◌, Option, none, some, [], ◌∷◌, ◌++◌, leb, ◌==◌, if◌then◌else◌,
  length, get_elem?, modify, ℕ_eq, list_eq, string_eq, ◌=?◌,
}
use nap_cli.Prelude.Dict.{lookup, insert, erase, has}
use nap_cli.Prelude.Json.{Json, Fields, str, obj, end, field, get}
use nap_cli.Prelude.Result.{Result, ok, raise}
use nap_cli.Supervisor.Message.{
  Bytes, Config, with_newline, parse_message, request_id, request_key, request_method,
  is_notification, params_request_id, is_method,
}
use nap_cli.Supervisor.Worker.{
  Reply, response_line, unavailable, cancelled_reply, unset, started, PendingRequest, Identity,
  Worker, Failure, worker_unavailable, request_rejected, Spawn, signal, stop_timer, stop_locked,
  ensure_current, write, is_none,
}

-- What a call of `submit` meets: the files, the process when it is polled first and when the line
-- is written, a start, and whether the line is taken.
pub record Surroundings : Type 0 where
  pub current : Option Identity
  pub dead : Bool
  pub spawn : Spawn
  pub alive : Bool
  pub taken : Bool

module _ (c : Config) where
  abbrev pub new_request : Bytes → ℕ → PendingRequest
  new_request message g = record {
    message = message;
    key = request_key c (request_id c message);
    generation = g;
    response = none;
    cancelled = false;
    cancel_timer = unset;
  }

  -- The block of `submit` under `_pending_lock`: the number of the new request.
  unfoldable pub admit : Bytes → ℕ → Worker → Result Failure ℕ × Worker
  admit message g w =
      let key = request_key c (request_id c message) in
      if has key w.pending
      then (raise request_rejected, w)
      else if leb c.max_in_flight (length w.pending)
      then (raise request_rejected, w)
      else (
        ok (length w.objects),
        record w {
          objects = w.objects ++ new_request message g ∷ [];
          pending = insert key (length w.objects) w.pending;
        },
      )

  -- `if self._pending.get(key) is pending: self._pending.pop(key, None)`
  abbrev pub same_ref : ℕ → Option ℕ → Bool
  same_ref ref none = false
  same_ref ref (some r) = r == ref

  unfoldable pub withdraw : Bytes → ℕ → Worker → Worker
  withdraw key ref w =
      if same_ref ref (lookup key w.pending) then record w { pending = erase key w.pending } else w

  -- A failed write of a request: it is taken out of the table and the process is stopped.
  unfoldable pub settle :
      Bytes → ℕ → Result Failure (Unit {0}) × Worker → Result Failure (Option ℕ) × Worker
  unfolding withdraw stop_locked
  settle key ref (ok _, w) = (ok (some ref), w)
  settle key ref (raise e, w) = (raise e, stop_locked (withdraw key ref w))

  unfoldable pub forward :
      Bytes → ℕ → Bool → Bool → Result Failure ℕ × Worker → Result Failure (Option ℕ) × Worker
  unfolding write settle
  forward message g alive taken (raise e, w) = (raise e, w)
  forward message g alive taken (ok ref, w) =
      settle (request_key c (request_id c message)) ref (write g message alive taken w)

  -- A failed write of a notification.
  unfoldable pub settle_notification :
      Result Failure (Unit {0}) × Worker → Result Failure (Option ℕ) × Worker
  unfolding stop_locked
  settle_notification (ok _, w) = (ok none, w)
  settle_notification (raise e, w) = (raise e, stop_locked w)

  -- `submit` to the process of generation `g`.
  unfoldable pub submit_to : Bytes → ℕ → Bool → Bool → Worker → Result Failure (Option ℕ) × Worker
  unfolding settle_notification forward admit
  submit_to message g alive taken w =
      if is_notification c message
      then settle_notification (write g message alive taken w)
      else forward message g alive taken (admit message g w)

  unfoldable pub submit_current :
      Bytes → Bool → Bool → Result Failure (Unit {0}) × Worker → Result Failure (Option ℕ) × Worker
  unfolding submit_to
  submit_current message alive taken (raise e, w) = (raise e, w)
  submit_current message alive taken (ok _, w) = elim w.process [
    | none ↦ (raise worker_unavailable, w)
    | some p ↦ submit_to message w.generation alive taken w
  ]

  unfoldable pub submit : Bytes → Surroundings → Worker → Result Failure (Option ℕ) × Worker
  unfolding submit_current ensure_current
  submit message e w =
      submit_current message e.alive e.taken (ensure_current e.current e.dead e.spawn w)

  -- `_expire_cancelled`
  unfoldable pub expire_cancelled : ℕ → Worker → Worker
  unfolding stop_locked
  expire_cancelled ref w = elim (get_elem? w.objects ref) [
    | none ↦ w
    | some p ↦
        if same_ref ref (lookup p.key w.pending) && p.generation == w.generation
        then stop_locked w
        else w
  ]

  abbrev pub mark_cancelled : PendingRequest → PendingRequest
  mark_cancelled p = record p { cancelled = true; cancel_timer = started }

  abbrev pub cancel_message : Json → Json
  cancel_message value = obj (
      field "jsonrpc" (str "2.0") (
        field "method" (str "notifications/cancelled")
          (field "params" (obj (field "requestId" value end)) end)))

  unfoldable pub cancel_written : ℕ → Result Failure (Unit {0}) × Worker → Worker
  unfolding expire_cancelled
  cancel_written ref (ok _, w) = w
  cancel_written ref (raise e, w) = expire_cancelled ref w

  -- What `cancel` does to the request that it has found.
  unfoldable pub cancel_request : Json → ℕ → PendingRequest → Bool → Bool → Worker → Worker
  unfolding signal cancel_written write
  cancel_request value ref p alive taken w =
      let marked = record w { objects = modify mark_cancelled ref w.objects } in
      let signalled = signal cancelled_reply ref marked in
      elim w.process [
        | none ↦ signalled
        | some g ↦
            if p.generation == w.generation
            then cancel_written ref (write g (c.dumps (cancel_message value)) alive taken signalled)
            else signalled
      ]

  abbrev pub is_expected : Option ℕ → Option ℕ → Bool
  is_expected none found = true
  is_expected (some e) found = same_ref e found

  -- `cancel`; `expected` names the request that the caller means.
  unfoldable pub cancel_found :
      Json → ℕ → Option PendingRequest → Bool → Bool → Worker → Bool × Worker
  unfolding cancel_request
  cancel_found value ref none alive taken w = (false, w)
  cancel_found value ref (some p) alive taken w =
      if request_method c p.message =? "initialize"
      then (false, w)
      else if p.cancelled
      then (true, w)
      else (true, cancel_request value ref p alive taken w)

  unfoldable pub cancel : Json → Option ℕ → Bool → Bool → Worker → Bool × Worker
  unfolding cancel_found
  cancel value expected alive taken w =
      let found = lookup (request_key c value) w.pending in
      if is_expected expected found
      then elim found [
        | none ↦ (false, w)
        | some ref ↦ cancel_found value ref (get_elem? w.objects ref) alive taken w
      ]
      else (false, w)

  -- The pending request of a key, if it is one of generation `g`.
  abbrev pub awaited : Bytes → ℕ → Worker → Option (ℕ × PendingRequest)
  awaited key g w = elim (lookup key w.pending) [
    | none ↦ none
    | some ref ↦ elim (get_elem? w.objects ref) [
      | none ↦ none
      | some p ↦ if p.generation == g then some (ref, p) else none
    ]
  ]

  -- `self._pending.pop(key, None)`, and the timer is cancelled.
  unfoldable pub take_out : Bytes → ℕ → Worker → Worker
  take_out key ref w = record w {
    pending = erase key w.pending;
    objects = modify stop_timer ref w.objects;
  }

  -- The acknowledgement of a cancelled request.
  unfoldable pub finish_awaited : Bytes → Worker → Option (ℕ × PendingRequest) → Worker
  unfolding take_out
  finish_awaited key w none = w
  finish_awaited key w (some (ref, p)) = if p.cancelled then take_out key ref w else w

  unfoldable pub finish_request : ℕ → Worker → Option Json → Worker
  unfolding finish_awaited
  finish_request g w none = w
  finish_request g w (some value) =
      finish_awaited (request_key c value) w (awaited (request_key c value) g w)

  -- A message that answers no request is passed on to the client, from the current process only.
  unfoldable pub pass_on : ℕ → Fields → Bytes → Worker → Worker
  pass_on g payload line w =
      if g == w.generation && not (is_none (get "method" payload))
      then record w { emitted = w.emitted ++ line ∷ [] }
      else w

  -- A message with an id: a response to a request, or one to pass on.
  unfoldable pub answer : ℕ → Bytes → Fields → Bytes → Worker → Option (ℕ × PendingRequest) → Worker
  unfolding take_out signal pass_on
  answer g line payload key w none = pass_on g payload line w
  answer g line payload key w (some (ref, p)) =
      if p.cancelled
      then take_out key ref w
      else signal (response_line line) ref (take_out key ref w)

  unfoldable pub deliver_id : ℕ → Bytes → Fields → Worker → Option Json → Worker
  unfolding answer
  deliver_id g line payload w none = pass_on g payload line w
  deliver_id g line payload w (some id) =
      answer g line payload (request_key c id) w (awaited (request_key c id) g w)

  -- `_deliver_response`
  unfoldable pub deliver_payload : ℕ → Bytes → Fields → Worker → Worker
  unfolding finish_request deliver_id
  deliver_payload g line payload w =
      if is_method c "notifications/napseer/requestFinished" payload
      then finish_request g w (params_request_id c payload)
      else deliver_id g line payload w (get "id" payload)

  unfoldable pub deliver_response : ℕ → Bytes → Worker → Bool × Worker
  unfolding deliver_payload
  deliver_response g response w = elim (parse_message c response) [
    | none ↦ (false, w)
    | some payload ↦ (true, deliver_payload g (with_newline response) payload w)
  ]

  -- `wait`: with no reply in the queue by the deadline the request is cancelled, or, if it is an
  -- initialization, the process is stopped.
  unfoldable pub wait_reply :
      ℕ
      → PendingRequest
      → Option Reply
      → Bool
      → Bool
      → Worker
      → Result Failure (Option Bytes) × Worker
  unfolding cancel expire_cancelled
  wait_reply ref p (some (response_line line)) alive taken w = (ok (some line), w)
  wait_reply ref p (some unavailable) alive taken w = (raise worker_unavailable, w)
  wait_reply ref p (some cancelled_reply) alive taken w = (ok none, w)
  wait_reply ref p none alive taken w =
      if request_method c p.message =? "initialize"
      then (raise worker_unavailable, expire_cancelled ref w)
      else (raise worker_unavailable, (cancel (request_id c p.message) (some ref) alive taken w).1)

  abbrev pub emptied : PendingRequest → PendingRequest
  emptied p = record p { response = none }

  unfoldable pub wait : ℕ → Bool → Bool → Worker → Result Failure (Option Bytes) × Worker
  unfolding wait_reply
  wait ref alive taken w = elim (get_elem? w.objects ref) [
    | none ↦ (raise worker_unavailable, w)
    | some p ↦
        wait_reply ref p p.response alive taken
          (record w { objects = modify emptied ref w.objects })
  ]
