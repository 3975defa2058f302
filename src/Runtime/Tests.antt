-- ===== src/Runtime/Tests.antt =====
-- Runs of the dispatcher at concrete inputs.
use nap_cli.Prelude.{
  ℕ, ◌+◌, ◌≤◌, ◌≡◌, refl, true, some, [], ◌∷◌, length, get_elem?, Bytes, ℕ_eq, list_eq,
}
use nap_cli.Prelude.Dict.{lookup, has, insert}
use nap_cli.Prelude.Int.{pos}
use nap_cli.Prelude.Json.{Json, null, num, str, obj, end, field}
use nap_cli.Runtime.Dispatch.{
  queued, Request, Runtime, Setting, responded, failed, new_runtime, begin_execute, finish_execute,
  dispatch, dispatch_fields, dispatch_notification, cancel_some, cancel, cancel_found, admit,
  cancel_one,
}
use nap_cli.Runtime.Steps.{
  Steps, none_yet, dispatches, begins, finishes, HasTable, reached-HasTable,
}
use nap_cli.Runtime.Cancelled.{called}
use nap_cli.Runtime.Silence.{IsSilent, Steps-IsSilent}
use nap_cli.Runtime.Weights.{waiting, asked}
use nap_cli.Runtime.Answers.{Steps-answers}

-- A rendering of the ids that the tests use.
abbrev rendered : Json → Bytes
rendered (num (pos n)) = n ∷ []
rendered json = []

abbrev here : Setting
here = record { dumps = rendered; max_in_flight = 2; supervised = true; finished_method = "done" }

abbrev request : ℕ → Json
request n = obj (field "id" (num (pos n)) (field "method" (str "tools/call") end))

abbrev cancellation : ℕ → Json
cancellation n = obj (
    field "method" (str "notifications/cancelled")
      (field "params" (obj (field "requestId" (num (pos n)) end)) end))

abbrev twice : Runtime
twice = (dispatch here (request 8) (dispatch here (request 7) new_runtime).1).1

two_steps : Steps here new_runtime twice
two_steps = dispatches (request 8) (dispatches (request 7) none_yet)

-- A third request is refused, the limit being two.
reached-HasTable_example : HasTable here (dispatch here (request 9) twice).1
reached-HasTable_example = reached-HasTable here (dispatches (request 9) two_steps)

Steps-answers_example :
    length (finish_execute here 0 failed (begin_execute here 0 twice)).sent
      + waiting (finish_execute here 0 failed (begin_execute here 0 twice)).objects
    ≤ 0 + waiting [] + asked (finishes 0 failed (begins 0 two_steps))
Steps-answers_example = Steps-answers here (finishes 0 failed (begins 0 two_steps))

-- The first request is cancelled while it waits, and then begun.
abbrev cancelled_first : Runtime
cancelled_first = (dispatch here (cancellation 7) twice).1

abbrev first_request : Request
first_request = record {
  message = field "id" (num (pos 7)) (field "method" (str "tools/call") end);
  cancelled = true;
  stage = queued;
}

first_cancelled : get_elem? cancelled_first.objects 0 ≡ some first_request
unfolding dispatch dispatch_fields dispatch_notification cancel_some cancel cancel_found lookup
    admit has insert cancel_one
first_cancelled = refl

Steps-IsSilent_example :
    (p : Request) × (get_elem? (begin_execute here 0 cancelled_first).objects 0 ≡ some p)
    × (p.message ≡ first_request.message)
    × (p.cancelled ≡ true)
    × (called 0 (begin_execute here 0 cancelled_first).handled ≡ called 0 cancelled_first.handled)
    × IsSilent here 0 (responded (some null)) p p.stage (begin_execute here 0 cancelled_first)
Steps-IsSilent_example =
    Steps-IsSilent here 0 (responded (some null)) first_request
      (reached-HasTable here (dispatches (cancellation 7) two_steps)) first_cancelled refl
      (begins 0 none_yet)
