-- ===== src/Runtime/Answers.antt =====
-- How many messages the runtime sends.
use nap_cli.Prelude.{
  ℕ, suc, ◌+◌, ◌≤◌, ◌≡◌, refl, inl, inr, false, Option, none, some, [], ◌∷◌, ◌++◌, leb, arith,
  length, get_elem?, modify, Bool-cases, ℕ_eq, list_eq,
}
use nap_cli.Prelude.Dict.{lookup, insert, has}
use nap_cli.Prelude.Json.{Json, null, bool, num, str, arr, obj, Fields, get}
use nap_cli.Runtime.Dispatch.{
  Stage, queued, running, finished, dropped, Request, Runtime, Setting, Outcome, key_of, limit,
  start, set_cancelled, is_method, cancel_target, notify_finished, finished_notice, begin_staged,
  begin_one, begin_execute, finish_staged, finish_one, finish_execute, cancel_one, cancel_found,
  cancel, cancel_some, dispatch_of, dispatch_notification, admit, dispatch_fields, dispatch, emit,
  emit_some, response_of, close_entry,
}
use nap_cli.Runtime.Steps.{Steps, none_yet, dispatches, begins, finishes, shuts, drops}
use nap_cli.Runtime.Weights.{
  waiting, asks, asked, answers, waiting-modify, waiting-finish, waiting-append, started, if-le,
  answers-emit, emit_some-le, objects-le, entered, rejected, entry_closed, shut-le, drop_one-le,
  asks_id,
}

module _ (c : Setting) where
  begin_execute-le : (ref : ℕ) (r : Runtime) → answers (begin_execute c ref r) ≤ answers r
  unfolding begin_execute begin_staged
  begin_execute-le ref r = go (get_elem? r.objects ref)
    where
      staged : (q : Request) (s : Stage) → answers (begin_staged c ref q s r) ≤ answers r
      staged q queued =
          objects-le r (begin_staged c ref q queued r) refl
            (waiting-modify start ref r.objects (λ p. started p.stage))
      staged q running = omega arith
      staged q finished = omega arith
      staged q dropped = omega arith

      go : (o : Option Request) → answers (begin_one c ref o r) ≤ answers r
      go none = omega arith
      go (some q) = staged q q.stage

  finish_execute-le :
      (ref : ℕ) (outcome : Outcome) (r : Runtime)
      → answers (finish_execute c ref outcome r) ≤ answers r
  unfolding finish_execute finish_staged notify_finished
  finish_execute-le ref outcome r = go (get_elem? r.objects ref) refl
    where
      ends :
          (q : Request)
          → get_elem? r.objects ref ≡ some q
          → q.stage ≡ running
          → suc (answers (close_entry c ref q r)) ≡ answers r
      ends q at e =
          entry_closed (close_entry c ref q r) r refl (waiting-finish ref r.objects q at e)

      staged :
          (q : Request) (s : Stage)
          → get_elem? r.objects ref ≡ some q
          → q.stage ≡ s
          → answers (finish_staged c ref outcome q s r) ≤ answers r
      staged q running at e =
          let closed = close_entry c ref q r in
          if-le q.cancelled (notify_finished c q closed)
            (emit_some (response_of c q.message outcome) closed) (answers r)
            (if-le c.supervised (emit (finished_notice c q.message) closed) closed (answers r)
              (omega (arith, answers-emit (finished_notice c q.message) closed, ends q at e))
              (omega (arith, ends q at e)))
            (omega (arith, emit_some-le (response_of c q.message outcome) closed, ends q at e))
      staged q queued at e = omega arith
      staged q finished at e = omega arith
      staged q dropped at e = omega arith

      go :
          (o : Option Request)
          → get_elem? r.objects ref ≡ o
          → answers (finish_one c ref outcome o r) ≤ answers r
      go none e = omega arith
      go (some q) e = staged q q.stage e refl

  cancel-le : (id : Json) (r : Runtime) → answers (cancel c id r).1 ≤ answers r
  unfolding cancel cancel_found cancel_one
  cancel-le id r = found (lookup (c.dumps id) r.requests)
    where
      one : (i : ℕ) (o : Option Request) → answers (cancel_one c i o r).1 ≤ answers r
      one i none = omega arith
      one i (some p) = elim (Bool-cases (is_method "initialize" p.message)) [
        | inl e ↦ rw e (omega arith)
        | inr e ↦ rw e (
            objects-le r (record r { objects = modify set_cancelled i r.objects }) refl
              (waiting-modify set_cancelled i r.objects (λ p. omega arith)))
      ]

      found : (o : Option ℕ) → answers (cancel_found c o r).1 ≤ answers r
      found none = omega arith
      found (some i) = one i (get_elem? r.objects i)

  admit-le : (message : Fields) (r : Runtime) → answers (admit c message r).1 ≤ suc (answers r)
  unfolding admit answers
  admit-le message r = elim (Bool-cases r.closed) [
    | inl a ↦ rw a (omega arith)
    | inr a ↦ elim (Bool-cases (has (key_of c message) r.requests)) [
      | inl b ↦ rw (a, b) (omega (arith, answers-emit _ r))
      | inr b ↦ elim (Bool-cases (leb (limit c) (length r.requests))) [
        | inl d ↦ rw (a, b, d) (omega (arith, answers-emit _ r))
        | inr d ↦
            rw (a, b, d)
              (entered r
                (record r {
                  objects =
                      r.objects
                      ++ record { message = message; cancelled = false; stage = queued } ∷ [];
                  requests = insert (key_of c message) (length r.objects) r.requests;
                })
                refl
                (waiting-append r.objects
                  (record { message = message; cancelled = false; stage = queued })))
      ]
    ]
  ]

  dispatch-le :
      (message : Json) (r : Runtime) → answers (dispatch c message r).1 ≤ asks message + answers r
  unfolding dispatch dispatch_fields dispatch_notification cancel_some asks
  dispatch-le (obj message) r = go (get "id" message)
    where
      target : (o : Option Json) → answers (cancel_some c o r) ≤ answers r
      target none = omega arith
      target (some id) = cancel-le id r

      go : (o : Option Json) → answers (dispatch_of c o message r).1 ≤ asks_id o + answers r
      go (some id) = omega (arith, admit-le message r)
      go none = omega (
        arith,
        if-le (is_method "notifications/cancelled" message)
            (cancel_some c (cancel_target message) r) r (answers r) (target (cancel_target message))
            (omega arith),
      )
  dispatch-le null r = rejected (dispatch c null r).1 r refl
  dispatch-le (bool b) r = rejected (dispatch c (bool b) r).1 r refl
  dispatch-le (num n) r = rejected (dispatch c (num n) r).1 r refl
  dispatch-le (str s) r = rejected (dispatch c (str s) r).1 r refl
  dispatch-le (arr items) r = rejected (dispatch c (arr items) r).1 r refl

  Steps-le : {first r : Runtime} (s : Steps c first r) → answers r ≤ answers first + asked s
  unfolding asked
  Steps-le none_yet = omega arith
  Steps-le (dispatches {r} message s) = omega (arith, dispatch-le message r, Steps-le s)
  Steps-le (begins {r} ref s) = omega (arith, begin_execute-le ref r, Steps-le s)
  Steps-le (finishes {r} ref outcome s) = omega (arith, finish_execute-le ref outcome r, Steps-le s)
  Steps-le (shuts {r} s) = omega (arith, shut-le r, Steps-le s)
  Steps-le (drops {r} ref s) = omega (arith, drop_one-le ref r, Steps-le s)

  -- Over any steps, the messages sent and the requests that wait or are run grow together by no more
  -- than the messages with an id, or that are no dictionary, among those dispatched.
  pub Steps-answers :
      {first r : Runtime} (s : Steps c first r)
      → length r.sent + waiting r.objects ≤ length first.sent + waiting first.objects + asked s
  unfolding answers
  Steps-answers s = Steps-le s
