-- ===== src/Runtime/Dispatch.antt =====
-- `McpRequestState` and `McpRequestRuntime` of resources/scripts/napseer_mcp_server.py, with
-- `rpc_error`. A request is an object that the table and its thread share: the objects stand in a
-- list, and the table and the threads name them by their number. The executor runs the work that
-- is queued in any order. What a handler comes to is an argument.
use nap_cli.Prelude.{
  ℕ, max, String, Bool, true, false, Option, none, some, List, [], ◌∷◌, ◌++◌, map, if◌then◌else◌,
  leb, ◌==◌ as nat_eq, string_eq, ℕ_eq, list_eq, ◌=?◌, length, get_elem?, modify, Bytes,
}
use nap_cli.Prelude.Dict.{Dict, lookup, insert, erase, has}
use nap_cli.Prelude.Int.{ℤ, negsuc}
use nap_cli.Prelude.Json.{Json, null, num, str, obj, Fields, end, field, get, get_or_null, truthy}

-- Where the future of a request is: waiting for a thread, run by one, done, or cancelled by close.
pub data Stage : Type 0 where
  queued running finished dropped : Stage

-- `McpRequestState`
pub record Request : Type 0 where
  pub message : Fields
  pub cancelled : Bool
  pub stage : Stage

-- `sent` is what the sender was given, and `handled` the requests that the handler was called on.
pub record Runtime : Type 0 where
  pub objects : List Request
  pub requests : Dict Bytes ℕ
  pub closed : Bool
  pub sent : List Json
  pub handled : List ℕ

-- `dumps` is json.dumps in the compact form, `supervised` is MCP_SUPERVISED, and `finished_method`
-- MCP_REQUEST_FINISHED.
pub record Setting : Type 0 where
  pub dumps : Json → Bytes
  pub max_in_flight : ℕ
  pub supervised : Bool
  pub finished_method : String

-- What `self.handler(state.message)` comes to.
pub data Outcome : Type 0 where
  responded : Option Json → Outcome
  failed : Outcome

abbrev pub new_runtime : Runtime
new_runtime = record { objects = []; requests = []; closed = false; sent = []; handled = [] }

abbrev error_fields : Option Json → Fields
error_fields none = end
error_fields (some details) = field "data" (obj (field "details" details end)) end

unfoldable pub rpc_error : Json → ℤ → String → Option Json → Json
rpc_error id code message details = obj (
    field "jsonrpc" (str "2.0") (
      field "id" id (
        field "error"
          (obj (field "code" (num code) (field "message" (str message) (error_fields details))))
          end)))

-- `message.get("method") == text`
abbrev pub is_method : String → Fields → Bool
is_method text message = elim (get_or_null "method" message) [ str s ↦ s =? text | _ ↦ false ]

-- The "requestId" of `message.get("params") or {}`, if that is a dict that has one.
abbrev pub cancel_target : Fields → Option Json
cancel_target message =
    let params = get_or_null "params" message in
    if truthy params then elim params [ obj fields ↦ get "requestId" fields | _ ↦ none ] else none

abbrev pub emit : Json → Runtime → Runtime
emit message r = record r { sent = r.sent ++ message ∷ [] }

abbrev pub emit_some : Option Json → Runtime → Runtime
emit_some none r = r
emit_some (some message) r = emit message r

abbrev pub started_stage : Stage → Stage
started_stage queued = running
started_stage stage = stage

abbrev pub start : Request → Request
start q = record q { stage = started_stage q.stage }

abbrev pub finish : Request → Request
finish q = record q { stage = finished }

abbrev pub set_cancelled : Request → Request
set_cancelled q = record q { cancelled = true }

abbrev pub dropped_stage : Stage → Stage
dropped_stage queued = dropped
dropped_stage stage = stage

-- `state.cancelled.set()` and `state.future.cancel()`, which stops only what waits.
abbrev pub drop_request : Request → Request
drop_request q = record q { cancelled = true; stage = dropped_stage q.stage }

module _ (c : Setting) where
  abbrev pub key_of : Fields → Bytes
  key_of message = c.dumps (get_or_null "id" message)

  -- `max(2, int(max_in_flight))`
  abbrev pub limit : ℕ
  limit = max 2 c.max_in_flight

  abbrev pub finished_notice : Fields → Json
  finished_notice message = obj (
      field "jsonrpc" (str "2.0") (
        field "method" (str c.finished_method)
          (field "params" (obj (field "requestId" (get_or_null "id" message) end)) end)))

  unfoldable pub notify_finished : Request → Runtime → Runtime
  notify_finished q r = if c.supervised then emit (finished_notice q.message) r else r

  -- `_execute` up to the call of the handler, which a request that is cancelled by then does not reach.
  unfoldable pub begin_staged : ℕ → Request → Stage → Runtime → Runtime
  begin_staged ref q queued r = record r {
    objects = modify start ref r.objects;
    handled = if q.cancelled then r.handled else r.handled ++ ref ∷ [];
  }
  begin_staged ref q stage r = r

  abbrev pub begin_one : ℕ → Option Request → Runtime → Runtime
  begin_one ref none r = r
  begin_one ref (some q) r = begin_staged ref q q.stage r

  unfoldable pub begin_execute : ℕ → Runtime → Runtime
  begin_execute ref r = begin_one ref (get_elem? r.objects ref) r

  -- `if self._requests.get(key) is state: self._requests.pop(key, None)`
  abbrev pub taken_out : Bytes → ℕ → Option ℕ → Dict Bytes ℕ → Dict Bytes ℕ
  taken_out key ref none requests = requests
  taken_out key ref (some held) requests = if nat_eq held ref then erase key requests else requests

  abbrev pub response_of : Fields → Outcome → Option Json
  response_of message (responded response) = response
  response_of message failed =
      some (rpc_error (get_or_null "id" message) (negsuc 32602) "Internal error" none)

  abbrev pub close_entry : ℕ → Request → Runtime → Runtime
  close_entry ref q r =
      let key = key_of q.message in
      record r {
        objects = modify finish ref r.objects;
        requests = taken_out key ref (lookup key r.requests) r.requests;
      }

  -- The rest of `_execute`: the entry is taken out, and then the notice or the response sent.
  unfoldable pub finish_staged : ℕ → Outcome → Request → Stage → Runtime → Runtime
  finish_staged ref outcome q running r =
      if q.cancelled
      then notify_finished q (close_entry ref q r)
      else emit_some (response_of q.message outcome) (close_entry ref q r)
  finish_staged ref outcome q stage r = r

  abbrev pub finish_one : ℕ → Outcome → Option Request → Runtime → Runtime
  finish_one ref outcome none r = r
  finish_one ref outcome (some q) r = finish_staged ref outcome q q.stage r

  unfoldable pub finish_execute : ℕ → Outcome → Runtime → Runtime
  finish_execute ref outcome r = finish_one ref outcome (get_elem? r.objects ref) r

  unfoldable pub cancel_one : ℕ → Option Request → Runtime → Bool × Runtime
  cancel_one ref none r = (false, r)
  cancel_one ref (some q) r =
      if is_method "initialize" q.message
      then (false, r)
      else (true, record r { objects = modify set_cancelled ref r.objects })

  unfoldable pub cancel_found : Option ℕ → Runtime → Bool × Runtime
  cancel_found none r = (false, r)
  cancel_found (some ref) r = cancel_one ref (get_elem? r.objects ref) r

  unfoldable pub cancel : Json → Runtime → Bool × Runtime
  cancel id r = cancel_found (lookup (c.dumps id) r.requests) r

  unfoldable pub cancel_some : Option Json → Runtime → Runtime
  cancel_some none r = r
  cancel_some (some id) r = (cancel id r).1

  -- `dispatch` of a message without an id.
  unfoldable pub dispatch_notification : Fields → Runtime → Runtime
  dispatch_notification message r =
      if is_method "notifications/cancelled" message
      then cancel_some (cancel_target message) r
      else r

  -- `dispatch` of a message with an id, under the lock: the number of the request, if it is taken.
  unfoldable pub admit : Fields → Runtime → Option ℕ × Runtime
  admit message r =
      let key = key_of message in
      let id = get_or_null "id" message in
      if r.closed
      then (none, r)
      else if has key r.requests
      then (none, emit (rpc_error id (negsuc 32599) "Duplicate in-flight request id" none) r)
      else if leb limit (length r.requests)
      then (
        none,
        emit
            (rpc_error id (negsuc 32096)
              "Napseer MCP is busy; this request was not started. Retry later." none)
            r,
      )
      else (
        some (length r.objects),
        record r {
          objects =
              r.objects ++ record { message = message; cancelled = false; stage = queued } ∷ [];
          requests = insert key (length r.objects) r.requests;
        },
      )

  abbrev pub dispatch_of : Option Json → Fields → Runtime → Option ℕ × Runtime
  dispatch_of none message r = (none, dispatch_notification message r)
  dispatch_of (some id) message r = admit message r

  unfoldable pub dispatch_fields : Fields → Runtime → Option ℕ × Runtime
  dispatch_fields message r = dispatch_of (get "id" message) message r

  unfoldable pub dispatch : Json → Runtime → Option ℕ × Runtime
  dispatch (obj message) r = dispatch_fields message r
  dispatch message r = (none, emit (rpc_error null (negsuc 32599) "Invalid Request" none) r)

-- `close`: under the lock, and then for each of the requests that were in the table.
unfoldable pub shut : Runtime → Runtime
shut r = record r { closed = true }

unfoldable pub drop_one : ℕ → Runtime → Runtime
drop_one ref r = record r { objects = modify drop_request ref r.objects }

unfoldable pub drop_all : List ℕ → Runtime → Runtime
drop_all [] r = r
drop_all (ref ∷ refs) r = drop_all refs (drop_one ref r)

unfoldable pub close : Runtime → Runtime
close r = drop_all (map (λ (item : Bytes × ℕ). item.1) r.requests) (shut r)
