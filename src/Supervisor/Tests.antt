-- ===== src/Supervisor/Tests.antt =====
-- Runs of the supervisor at concrete lines, over a table of four messages in place of json.
use nap_cli.Prelude.{
  zero, suc, ◌≤◌, ◌≡◌, ◌≢◌, refl, true, false, Option, none, some, List, [], ◌∷◌, ◌+◌, String,
  get_elem?, ℕ_eq, list_eq,
}
use nap_cli.Prelude.Dict.{lookup, has, insert}
use nap_cli.Prelude.Int.{pos}
use nap_cli.Prelude.Json.{Json, null, num, str, obj, field, end}
use nap_cli.Prelude.Result.{ok, raise}
use nap_cli.Supervisor.Message.{
  Bytes, Config, request_key, is_notification, cancelled_request_id, request_id, request_method,
  with_newline, parse_message,
}
use nap_cli.Supervisor.Worker.{
  Worker, PendingRequest, new_worker, cancelled_reply, started, ensure_current, Identity,
  unavailable, request_rejected, stop_locked, fail_generation, stop_timer,
}
use nap_cli.Supervisor.Requests.{Surroundings, submit, cancel, deliver_response, wait, new_request}
use nap_cli.Supervisor.Invariant.{IsWorker}
use nap_cli.Supervisor.Invariant.{new_worker-IsWorker, ensure_current-IsWorker}
use nap_cli.Supervisor.Preserved.{submit-IsWorker}
use nap_cli.Supervisor.Answers.{cancel-IsWorker}
use nap_cli.Supervisor.Reverting.{ensure_current_reverted}
use nap_cli.Supervisor.Failing.{Told, stop_locked-tells, fail_generation-tells}
use nap_cli.Supervisor.Answering.{
  IsResponse, response_reaches_waiter, response_after_cancel, stale_process_ignored,
}
use nap_cli.Supervisor.Admission.{SentOnce, submit-SentOnce, submit-rejected}
use nap_cli.Supervisor.Loop.{Supervisor, Event, line, waited, handle_line, run}
use nap_cli.Supervisor.Responses.{answers, requests, handle_line-answers, run-answers}

abbrev pub call_tool : Bytes
call_tool = 1 ∷ []

abbrev tool_result : Bytes
tool_result = 2 ∷ []

abbrev cancel_tool : Bytes
cancel_tool = 3 ∷ []

abbrev initialized : Bytes
initialized = 4 ∷ []

abbrev pub seven : Json
seven = num (pos 7)

abbrev loads : Bytes → Option Json
loads (suc zero ∷ bytes) = some (obj (field "id" seven (field "method" (str "tools/call") end)))
loads (suc (suc zero) ∷ bytes) = some (obj (field "id" seven (field "result" null end)))
loads (suc (suc (suc zero)) ∷ bytes) = some (
    obj (
      field "method" (str "notifications/cancelled")
        (field "params" (obj (field "requestId" seven end)) end)))
loads (suc (suc (suc (suc zero))) ∷ bytes) =
    some (obj (field "method" (str "notifications/initialized") end))
loads bytes = none

abbrev dumps : Json → Bytes
dumps (num (pos n)) = n ∷ []
dumps (obj fields) = 123 ∷ 125 ∷ []
dumps j = 48 ∷ []

abbrev text : Json → String
text (str s) = s
text j = ""

abbrev pub config : Config
config = record { loads = loads; dumps = dumps; text = text; max_in_flight = 1 }

abbrev pub surroundings : Surroundings
surroundings = record {
  current = some ((1 ∷ 2 ∷ 3 ∷ []) ∷ []);
  dead = false;
  spawn = record { current = some ((1 ∷ 2 ∷ 3 ∷ []) ∷ []); starts = true };
  alive = true;
  taken = true;
}

abbrev busy : Worker
busy = (submit config call_tool surroundings new_worker).1

abbrev pub asked : PendingRequest
asked = new_request config call_tool 1

busy-IsWorker : IsWorker 1 busy
busy-IsWorker = submit-IsWorker config call_tool surroundings new_worker (new_worker-IsWorker 1)

abbrev gone : Worker
gone = (cancel config seven none true true busy).1

gone-IsWorker : IsWorker 1 gone
gone-IsWorker = cancel-IsWorker config seven none true true busy busy-IsWorker

tool_result-IsResponse : IsResponse config tool_result seven
unfolding parse_message
tool_result-IsResponse = record {
  payload = field "id" seven (field "result" null end);
  parsed = refl;
  plain = refl;
  id_of = refl;
}

busy-lookup : lookup (request_key config seven) busy.pending ≡ some 0
unfolding lookup submit new_worker is_notification has insert request_key request_id
busy-lookup = refl

busy-object : get_elem? busy.objects 0 ≡ some asked
unfolding submit new_worker is_notification has insert request_key request_id
busy-object = refl

abbrev dropped : PendingRequest
dropped = record asked { cancelled = true; response = some cancelled_reply; cancel_timer = started }

gone-lookup : lookup (request_key config seven) gone.pending ≡ some 0
unfolding lookup cancel request_method submit new_worker is_notification has insert request_key
    request_id
gone-lookup = refl

gone-object : get_elem? gone.objects 0 ≡ some dropped
unfolding lookup cancel request_method submit new_worker is_notification has insert request_key
    request_id
gone-object = refl

response_reaches_waiter_example :
    let t = (deliver_response config busy.generation tool_result busy).1 in
    ((wait config 0 true true t).0 ≡ ok (some (with_newline tool_result)))
    × (lookup (request_key config seven) t.pending ≡ none)
    × ((key : Bytes)
        → key ≢ request_key config seven
        → lookup key t.pending ≡ lookup key busy.pending)
response_reaches_waiter_example =
    response_reaches_waiter config tool_result seven 0 asked true true busy busy-IsWorker
      tool_result-IsResponse busy-lookup busy-object refl

late_response_dropped :
    let t = (deliver_response config gone.generation tool_result gone).1 in
    (lookup (request_key config seven) t.pending ≡ none)
    × (get_elem? t.objects 0 ≡ some (stop_timer dropped))
    × (t.emitted ≡ gone.emitted)
late_response_dropped =
    response_after_cancel config tool_result seven 0 dropped gone gone-IsWorker
      tool_result-IsResponse gone-lookup gone-object refl

other_generation : 7 ≢ busy.generation
unfolding submit new_worker is_notification has insert request_key request_id
other_generation = λ e. cc

stale_process_ignored_example : (deliver_response config 7 tool_result busy).1 ≡ busy
stale_process_ignored_example =
    stale_process_ignored config 7 tool_result busy busy-IsWorker other_generation

stop_locked-tells_example :
    ((stop_locked busy).pending ≡ []) × Told (stop_locked busy).objects 0 unavailable
stop_locked-tells_example =
    stop_locked-tells busy (request_key config seven) 0 asked busy-IsWorker busy-lookup busy-object
      refl

fail_generation-tells_example :
    ((fail_generation busy.generation busy).pending ≡ [])
    × Told (fail_generation busy.generation busy).objects 0 unavailable
fail_generation-tells_example =
    fail_generation-tells busy (request_key config seven) 0 asked busy-IsWorker busy-lookup
      busy-object refl

submit-SentOnce_example :
    SentOnce (with_newline call_tool) busy.sent (submit config call_tool surroundings busy).1.sent
submit-SentOnce_example = submit-SentOnce config call_tool surroundings busy

busy-rejects : (submit config call_tool surroundings busy).0 ≡ raise request_rejected
unfolding submit new_worker is_notification has insert request_key request_id
busy-rejects = refl

submit-rejected_example :
    ((submit config call_tool surroundings busy).1.sent ≡ busy.sent)
    × ((submit config call_tool surroundings busy).1
        ≡ (ensure_current surroundings.current surroundings.dead surroundings.spawn busy).1)
submit-rejected_example = submit-rejected config call_tool surroundings busy busy-rejects

abbrev opened : Supervisor
opened = record { worker = new_worker; output = []; waiters = []; closing = false }

handle_line-answers_example :
    answers config (handle_line config call_tool surroundings opened) ≡ answers config opened + 1
unfolding is_notification cancelled_request_id
handle_line-answers_example = handle_line-answers config call_tool surroundings opened refl

abbrev events : List Event
events =
    line call_tool surroundings
    ∷ line initialized surroundings
    ∷ line cancel_tool surroundings
    ∷ waited 0 true true
    ∷ []

run-answers_example :
    answers config (run config events opened) ≤ answers config opened + requests config events
run-answers_example = run-answers config events opened

-- The source changes while the tool runs, and changes back.
abbrev changed : Worker
changed = (ensure_current (some ((9 ∷ []) ∷ [])) false surroundings.spawn busy).1

abbrev source : Identity
source = (1 ∷ 2 ∷ 3 ∷ []) ∷ []

changed-IsWorker : IsWorker 1 changed
changed-IsWorker =
    ensure_current-IsWorker (some ((9 ∷ []) ∷ [])) false surroundings.spawn busy busy-IsWorker

changed-identity : changed.identity ≡ some source
unfolding ensure_current submit new_worker is_notification has insert request_key request_id
changed-identity = refl

changed-reload : changed.reload_pending ≡ true
unfolding ensure_current submit new_worker is_notification has insert request_key request_id
changed-reload = refl

changed-lookup : lookup (request_key config seven) changed.pending ≡ some 0
unfolding ensure_current lookup submit new_worker is_notification has insert request_key request_id
changed-lookup = refl

changed-object : get_elem? changed.objects 0 ≡ some asked
unfolding ensure_current submit new_worker is_notification has insert request_key request_id
changed-object = refl

ensure_current_reverted_example :
    Told (ensure_current (some source) false surroundings.spawn changed).1.objects 0 unavailable
ensure_current_reverted_example =
    ensure_current_reverted source surroundings.spawn changed (request_key config seven) 0 asked
      changed-IsWorker changed-identity changed-reload changed-lookup changed-object refl
