-- ===== src/Runtime/Steps.antt =====
-- The runtime over any sequence of steps: messages that are dispatched, threads that begin and finish
-- requests, and the parts of `close`.
use nap_cli.Prelude.{
  ℕ, ◌≡◌, refl, sym, ◌∙◌, inl, inr, Bool, true, false, Option, none, some, if◌then◌else◌, leb,
  arith, length, get_elem?, Bool-cases, ℕ_eq, list_eq, ◌==◌ as nat_eq,
}
use nap_cli.Prelude.Dict.{lookup, has, lookup-nil, lookup-none_of_has}
use nap_cli.Prelude.Json.{Json, null, bool, num, str, arr, obj, Fields, get}
use nap_cli.Runtime.Dispatch.{
  Stage, queued, running, finished, dropped, Request, Runtime, Setting, Outcome, new_runtime,
  key_of, limit, start, set_cancelled, drop_request, started_stage, dropped_stage, begin_staged,
  finish_staged, cancel_some, dispatch_of, is_method, cancel_target, notify_finished, begin_one,
  begin_execute, finish_one, finish_execute, cancel_one, cancel_found, cancel,
  dispatch_notification, admit, dispatch_fields, dispatch, shut, drop_one, emit, finished_notice,
  emit_some, response_of, close_entry,
}
use nap_cli.Runtime.Table.{IsLive, IsTable, Keeps, modify-IsTable}
use nap_cli.Runtime.Entries.{finish-IsTable, admit-IsTable}

-- The steps that lead from a runtime to another.
pub data Steps (c : Setting) (first : Runtime) : Runtime → Type 0 where
  none_yet : Steps c first first
  dispatches :
      {r : Runtime} (message : Json) → Steps c first r → Steps c first (dispatch c message r).1
  begins : {r : Runtime} (ref : ℕ) → Steps c first r → Steps c first (begin_execute c ref r)
  finishes :
      {r : Runtime} (ref : ℕ) (outcome : Outcome)
      → Steps c first r
      → Steps c first (finish_execute c ref outcome r)
  shuts : {r : Runtime} → Steps c first r → Steps c first (shut r)
  drops : {r : Runtime} (ref : ℕ) → Steps c first r → Steps c first (drop_one ref r)

-- The table of a runtime.
abbrev pub HasTable : Setting → Runtime → Type 0
HasTable c r = IsTable c r.objects r.requests

set_cancelled-Keeps : Keeps set_cancelled
set_cancelled-Keeps = record { message = λ q. refl; stays = λ q h. h; was = λ q h. h }

drop_request-Keeps : Keeps drop_request
drop_request-Keeps = record {
  message = λ q. refl;
  stays = λ q. stays q.stage;
  was = λ q. was q.stage;
}
  where
    stays : (s : Stage) → IsLive s → IsLive (dropped_stage s)
    stays queued h = tt
    stays running h = tt
    stays dropped h = tt
    stays finished h = h

    was : (s : Stage) → IsLive (dropped_stage s) → IsLive s
    was queued h = tt
    was running h = tt
    was dropped h = tt
    was finished h = h

start-Keeps : Keeps start
start-Keeps = record { message = λ q. refl; stays = λ q. stays q.stage; was = λ q. was q.stage }
  where
    stays : (s : Stage) → IsLive s → IsLive (started_stage s)
    stays queued h = tt
    stays running h = tt
    stays dropped h = tt
    stays finished h = h

    was : (s : Stage) → IsLive (started_stage s) → IsLive s
    was queued h = tt
    was running h = tt
    was dropped h = tt
    was finished h = h

module _ (c : Setting) where
  begin_staged-HasTable :
      (ref : ℕ) (q : Request) (s : Stage) (r : Runtime)
      → HasTable c r
      → HasTable c (begin_staged c ref q s r)
  unfolding begin_staged
  begin_staged-HasTable ref q queued r t =
      modify-IsTable c start start-Keeps ref r.objects r.requests t
  begin_staged-HasTable ref q running r t = t
  begin_staged-HasTable ref q finished r t = t
  begin_staged-HasTable ref q dropped r t = t

  begin_execute-HasTable :
      (ref : ℕ) (r : Runtime) → HasTable c r → HasTable c (begin_execute c ref r)
  unfolding begin_execute
  begin_execute-HasTable ref r t = go (get_elem? r.objects ref)
    where
      go : (o : Option Request) → HasTable c (begin_one c ref o r)
      go none = t
      go (some q) = begin_staged-HasTable ref q q.stage r t

  close_entry-HasTable :
      (ref : ℕ) (q : Request) (r : Runtime)
      → get_elem? r.objects ref ≡ some q
      → IsLive q.stage
      → HasTable c r
      → HasTable c (close_entry c ref q r)
  close_entry-HasTable ref q r at live t =
      rw (t.held ref q at live)
        (rw (nat_eq_refl ref) (finish-IsTable c ref q r.objects r.requests at live t))
    where
      nat_eq_refl : (n : ℕ) → nat_eq n n ≡ true
      nat_eq_refl n = ground arith

  if-HasTable :
      (b : Bool) (x y : Runtime) → HasTable c x → HasTable c y → HasTable c (if b then x else y)
  if-HasTable true x y s t = s
  if-HasTable false x y s t = t

  emit_some-HasTable : (o : Option Json) (r : Runtime) → HasTable c r → HasTable c (emit_some o r)
  emit_some-HasTable none r t = t
  emit_some-HasTable (some message) r t = t

  notify_finished-HasTable :
      (q : Request) (r : Runtime) → HasTable c r → HasTable c (notify_finished c q r)
  unfolding notify_finished
  notify_finished-HasTable q r t =
      if-HasTable c.supervised (emit (finished_notice c q.message) r) r t t

  finish_staged-HasTable :
      (ref : ℕ) (outcome : Outcome) (q : Request) (s : Stage) (r : Runtime)
      → get_elem? r.objects ref ≡ some q
      → q.stage ≡ s
      → HasTable c r
      → HasTable c (finish_staged c ref outcome q s r)
  unfolding finish_staged
  finish_staged-HasTable ref outcome q running r at e t =
      let closed = close_entry-HasTable ref q r at (rw e tt) t in
      if-HasTable q.cancelled (notify_finished c q (close_entry c ref q r))
        (emit_some (response_of c q.message outcome) (close_entry c ref q r))
        (notify_finished-HasTable q (close_entry c ref q r) closed)
        (emit_some-HasTable (response_of c q.message outcome) (close_entry c ref q r) closed)
  finish_staged-HasTable ref outcome q queued r at e t = t
  finish_staged-HasTable ref outcome q finished r at e t = t
  finish_staged-HasTable ref outcome q dropped r at e t = t

  finish_execute-HasTable :
      (ref : ℕ) (outcome : Outcome) (r : Runtime)
      → HasTable c r
      → HasTable c (finish_execute c ref outcome r)
  unfolding finish_execute
  finish_execute-HasTable ref outcome r t = go (get_elem? r.objects ref) refl
    where
      go :
          (o : Option Request)
          → get_elem? r.objects ref ≡ o
          → HasTable c (finish_one c ref outcome o r)
      go none e = t
      go (some q) e = finish_staged-HasTable ref outcome q q.stage r e refl t

  cancel-HasTable : (id : Json) (r : Runtime) → HasTable c r → HasTable c (cancel c id r).1
  unfolding cancel cancel_found cancel_one
  cancel-HasTable id r t = found (lookup (c.dumps id) r.requests)
    where
      one : (ref : ℕ) (o : Option Request) → HasTable c (cancel_one c ref o r).1
      one ref none = t
      one ref (some q) = elim (Bool-cases (is_method "initialize" q.message)) [
        | inl e ↦ rw e t
        | inr e ↦
            rw e (modify-IsTable c set_cancelled set_cancelled-Keeps ref r.objects r.requests t)
      ]

      found : (o : Option ℕ) → HasTable c (cancel_found c o r).1
      found none = t
      found (some ref) = one ref (get_elem? r.objects ref)

  admit-HasTable :
      (message : Fields) (r : Runtime) → HasTable c r → HasTable c (admit c message r).1
  unfolding admit
  admit-HasTable message r t = elim (Bool-cases r.closed) [
    | inl a ↦ rw a t
    | inr a ↦ elim (Bool-cases (has (key_of c message) r.requests)) [
      | inl b ↦ rw (a, b) t
      | inr b ↦ elim (Bool-cases (leb (limit c) (length r.requests))) [
        | inl d ↦ rw (a, b, d) t
        | inr d ↦
            rw (a, b, d)
              (admit-IsTable c (record { message = message; cancelled = false; stage = queued })
                r.objects r.requests (lookup-none_of_has (key_of c message) r.requests b)
                (ground (arith, d)) tt t)
      ]
    ]
  ]

  dispatch-HasTable :
      (message : Json) (r : Runtime) → HasTable c r → HasTable c (dispatch c message r).1
  unfolding dispatch dispatch_fields dispatch_notification cancel_some
  dispatch-HasTable (obj message) r t = go (get "id" message)
    where
      target : (o : Option Json) → HasTable c (cancel_some c o r)
      target none = t
      target (some id) = cancel-HasTable id r t

      go : (o : Option Json) → HasTable c (dispatch_of c o message r).1
      go (some id) = admit-HasTable message r t
      go none = elim (Bool-cases (is_method "notifications/cancelled" message)) [
        | inl e ↦ rw e (target (cancel_target message))
        | inr e ↦ rw e t
      ]
  dispatch-HasTable null r t = t
  dispatch-HasTable (bool b) r t = t
  dispatch-HasTable (num n) r t = t
  dispatch-HasTable (str s) r t = t
  dispatch-HasTable (arr items) r t = t

  pub Steps-HasTable : {first r : Runtime} → Steps c first r → HasTable c first → HasTable c r
  unfolding shut drop_one
  Steps-HasTable none_yet t = t
  Steps-HasTable (dispatches message s) t = dispatch-HasTable message _ (Steps-HasTable s t)
  Steps-HasTable (begins ref s) t = begin_execute-HasTable ref _ (Steps-HasTable s t)
  Steps-HasTable (finishes ref outcome s) t =
      finish_execute-HasTable ref outcome _ (Steps-HasTable s t)
  Steps-HasTable (shuts s) t = Steps-HasTable s t
  Steps-HasTable (drops {r} ref s) t =
      modify-IsTable c drop_request drop_request-Keeps ref r.objects r.requests (Steps-HasTable s t)

  new_runtime-HasTable : HasTable c new_runtime
  new_runtime-HasTable = record {
    nodup = tt;
    bounded = omega arith;
    listed = λ key ref h. absurd (empty ref (sym (lookup-nil key) ∙ h));
    held = λ ref q h live. absurd (nothing q h);
  }
    where
      empty : (ref : ℕ) → ◌≡◌ {A = Option ℕ} none (some ref) → ⊥
      empty ref e = cc

      nothing : (q : Request) → ◌≡◌ {A = Option Request} none (some q) → ⊥
      nothing q e = cc

  -- Whatever has been dispatched, begun, finished and dropped since the runtime was made, in any
  -- order: the table has one entry for each id, at most max_in_flight of them, or two if that is
  -- less, each for a request of that id that is not finished, and each request that is not finished
  -- has its entry.
  pub reached-HasTable : {r : Runtime} → Steps c new_runtime r → HasTable c r
  reached-HasTable s = Steps-HasTable s new_runtime-HasTable
