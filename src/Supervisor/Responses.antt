-- ===== src/Supervisor/Responses.antt =====
-- How many responses the client is given.
use nap_cli.Prelude.{
  ℕ, zero, suc, ◌+◌, ◌≤◌, ◌≡◌, refl, inl, inr, Bool, true, false, ◌&&◌, not, Option, none, some,
  List, [], ◌∷◌, ◌++◌, arith, length, length-append, get_elem?, take, drop, Bool-cases,
  Option-cases,
}
use nap_cli.Prelude.Result.{Result, ok, raise}
use nap_cli.Supervisor.Message.{
  Bytes, Config, request_key, request_id, cancelled_request_id, is_notification, with_newline,
  worker_error,
}
use nap_cli.Supervisor.Worker.{Worker, Failure, worker_unavailable, ensure_current, write, is_none}
use nap_cli.Supervisor.Requests.{
  Surroundings, submit, submit_current, submit_to, forward, settle, settle_notification, admit,
  wait,
}
use nap_cli.Supervisor.Loop.{
  Supervisor, emit, is_blank, submitted, is_rejected, handle_message, handle_line, finished, finish,
  Event, line, waited, step, run,
}

length-removed {ℓ} :
    {A : Type ℓ} (i : ℕ) (xs : List A) (x : A)
    → get_elem? xs i ≡ some x
    → length (take i xs ++ drop (suc i) xs) + 1 ≡ length xs
length-removed i [] x h = cc
length-removed zero (y ∷ xs) x h = omega arith
length-removed (suc i) (y ∷ xs) x h = omega (arith, length-removed i xs x h)

module _ (c : Config) where
  -- The outcome of a submission: a notification gets no waiter, and a request does not go without.
  abbrev Suits : Bool → Result Failure (Option ℕ) → Type 0
  Suits notification (ok none) = notification ≡ true
  Suits notification (ok (some ref)) = notification ≡ false
  Suits notification (raise e) = Unit

  settle_notification-Suits :
      (r : Result Failure (Unit {0})) (w : Worker) → Suits true (settle_notification c (r, w)).0
  unfolding settle_notification
  settle_notification-Suits (ok u) w = refl
  settle_notification-Suits (raise e) w = tt

  settle-Suits :
      (key : Bytes) (ref : ℕ) (r : Result Failure (Unit {0})) (w : Worker)
      → Suits false (settle c key ref (r, w)).0
  unfolding settle
  settle-Suits key ref (ok u) w = refl
  settle-Suits key ref (raise e) w = tt

  forward-Suits :
      (message : Bytes) (g : ℕ) (alive taken : Bool) (r : Result Failure ℕ) (w : Worker)
      → Suits false (forward c message g alive taken (r, w)).0
  unfolding forward
  forward-Suits message g alive taken (raise e) w = tt
  forward-Suits message g alive taken (ok ref) w =
      (let (r, w') = write g message alive taken w in
        settle-Suits (request_key c (request_id c message)) ref r w')

  submit_to-Suits :
      (message : Bytes) (g : ℕ) (alive taken : Bool) (w : Worker)
      → Suits (is_notification c message) (submit_to c message g alive taken w).0
  unfolding submit_to
  submit_to-Suits message g alive taken w = elim (Bool-cases (is_notification c message)) [
    | inl yes' ↦
        rw (yes', submit_to)
          (settle_notification-Suits (write g message alive taken w).0
            (write g message alive taken w).1)
    | inr no' ↦
        rw (no', submit_to)
          (forward-Suits message g alive taken (admit c message g w).0 (admit c message g w).1)
  ]

  submit_current-Suits :
      (message : Bytes) (alive taken : Bool) (r : Result Failure (Unit {0})) (w : Worker)
      → Suits (is_notification c message) (submit_current c message alive taken (r, w)).0
  unfolding submit_current
  submit_current-Suits message alive taken (raise e) w = tt
  submit_current-Suits message alive taken (ok u) w = go w.process
    where
      go :
          (m : Option ℕ)
          → Suits
              (is_notification c message)
              (elim m as (λ x. Result Failure (Option ℕ) × Worker) [
                | none ↦ (raise worker_unavailable, w)
                | some p ↦ submit_to c message w.generation alive taken w
              ]).0
      go none = tt
      go (some p) = submit_to-Suits message w.generation alive taken w

  submit-Suits :
      (message : Bytes) (e : Surroundings) (w : Worker)
      → Suits (is_notification c message) (submit c message e w).0
  unfolding submit
  submit-Suits message e w =
      submit_current-Suits message e.alive e.taken (ensure_current e.current e.dead e.spawn w).0
        (ensure_current e.current e.dead e.spawn w).1

  -- The answers given and the answers to come.
  abbrev pub answers : Supervisor → ℕ
  answers s = length s.output + length s.waiters

  emit-answers :
      (response : Bytes) (s : Supervisor)
      → (answers (emit response s) ≤ answers s + 1)
        × (s.closing ≡ false → answers (emit response s) ≡ answers s + 1)
  unfolding emit
  emit-answers response s = (
    ground (arith, length-append s.output (with_newline response ∷ [])),
    λ e. ground (arith, e, length-append s.output (with_newline response ∷ [])),
  )

  -- The lines that call for an answer: requests, but no cancellation and no blank line.
  abbrev pub asks : Bytes → Bool
  asks message =
      not (is_blank message)
      && not (is_notification c message)
      && is_none (cancelled_request_id c message)

  abbrev one : Bool → ℕ
  one true = 1
  one false = 0

  submitted-answers :
      (message : Bytes) (s : Supervisor) (r : Result Failure (Option ℕ)) (w : Worker)
      → Suits (is_notification c message) r
      → (answers (submitted c message s (r, w)) ≤ answers s + one (not (is_notification c message)))
        × (s.closing ≡ false
            → answers (submitted c message s (r, w))
              ≡ answers s + one (not (is_notification c message)))
  unfolding submitted
  submitted-answers message s (ok none) w n = rw n (omega arith, λ e. omega arith)
  submitted-answers message s (ok (some ref)) w n = rw n (
    omega (arith, length-append s.waiters ((message, ref) ∷ [])),
    λ e. omega (arith, length-append s.waiters ((message, ref) ∷ [])),
  )
  submitted-answers message s (raise e) w n = elim (Bool-cases (is_notification c message)) [
    | inl yes' ↦ rw yes' (omega arith, λ e. omega arith)
    | inr no' ↦
        rw no' (emit-answers (worker_error c message (is_rejected e)) (record s { worker = w }))
  ]

  -- A line that asks for an answer brings exactly one, an error now or a waiting thread, while the
  -- supervisor is not closing; any other line brings none.
  pub handle_line-answers :
      (message : Bytes) (e : Surroundings) (s : Supervisor)
      → s.closing ≡ false
      → answers (handle_line c message e s) ≡ answers s + one (asks message)
  unfolding handle_line handle_message
  handle_line-answers message e s open' = elim (Bool-cases (is_blank message)) [
    | inl blank ↦ rw (blank, handle_line) (omega arith)
    | inr text ↦ elim (Option-cases (cancelled_request_id c message)) [
      | inr (value, cancels) ↦ rw (text, handle_line) (rw (cancels, handle_message) (ground arith))
      | inl other ↦
          rw (text, handle_line)
            (rw (other, handle_message)
              (ground (
                arith,
                (submitted-answers message s (submit c message e s.worker).0
                      (submit c message e s.worker).1 (submit-Suits message e s.worker)).1
                    open',
              )))
    ]
  ]

  finished-answers :
      (message : Bytes) (s : Supervisor) (r : Result Failure (Option Bytes)) (w : Worker)
      → answers (finished c message s (r, w)) ≤ answers s + 1
  unfolding finished
  finished-answers message s (ok none) w = omega arith
  finished-answers message s (ok (some response)) w =
      (emit-answers response (record s { worker = w })).0
  finished-answers message s (raise e) w =
      (emit-answers (worker_error c message false) (record s { worker = w })).0

  -- A thread that ends gives the answer that it stood for, or none if the request was cancelled.
  pub finish-answers :
      (i : ℕ) (alive taken : Bool) (s : Supervisor) → answers (finish c i alive taken s) ≤ answers s
  unfolding finish finished
  finish-answers i alive taken s = elim (Option-cases (get_elem? s.waiters i)) [
    | inl e ↦ rw (e, finish) (omega arith)
    | inr ((message, ref), e) ↦
        rw (e, finish)
          (omega (
            arith,
            length-removed i s.waiters (message, ref) e,
            finished-answers message
                (record s { waiters = take i s.waiters ++ drop (suc i) s.waiters })
                (wait c ref alive taken s.worker).0 (wait c ref alive taken s.worker).1,
          ))
  ]

  -- The requests among the events.
  abbrev pub requests : List Event → ℕ
  requests [] = 0
  requests (line message e ∷ events) = one (asks message) + requests events
  requests (waited i alive taken ∷ events) = requests events

  handle_line-bound :
      (message : Bytes) (e : Surroundings) (s : Supervisor)
      → answers (handle_line c message e s) ≤ answers s + one (asks message)
  unfolding handle_line handle_message
  handle_line-bound message e s = elim (Bool-cases (is_blank message)) [
    | inl blank ↦ rw (blank, handle_line) (omega arith)
    | inr text ↦ elim (Option-cases (cancelled_request_id c message)) [
      | inr (value, cancels) ↦ rw (text, handle_line) (rw (cancels, handle_message) (omega arith))
      | inl other ↦
          rw (text, handle_line)
            (rw (other, handle_message)
              (ground (
                arith,
                (submitted-answers message s (submit c message e s.worker).0
                    (submit c message e s.worker).1 (submit-Suits message e s.worker)).0,
              )))
    ]
  ]

  -- However lines arrive and threads end, the client is never given more answers than it has sent
  -- requests: a notification, a cancellation and a blank line bring none.
  pub run-answers :
      (events : List Event) (s : Supervisor)
      → answers (run c events s) ≤ answers s + requests events
  unfolding run step
  run-answers [] s = omega arith
  run-answers (line message e ∷ events) s =
      omega (arith, handle_line-bound message e s, run-answers events (handle_line c message e s))
  run-answers (waited i alive taken ∷ events) s =
      omega (arith, finish-answers i alive taken s, run-answers events (finish c i alive taken s))
