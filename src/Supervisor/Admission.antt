-- ===== src/Supervisor/Admission.antt =====
-- What is sent to a worker process, and what is refused before it is sent.
use nap_cli.Prelude.{
  ℕ, ◌≡◌, ◌≢◌, refl, ◌∙◌, ap, ◌⊎◌, inl, inr, Bool, true, false, ◌&&◌, Option, none, some, List, [],
  ◌∷◌, ◌++◌, arith, if◌then◌else◌, ℕ_eq, list_eq, string_eq, Bool-cases,
}
use nap_cli.Prelude.Result.{Result, ok, raise}
use nap_cli.Supervisor.Message.{Bytes, Config, is_notification, with_newline}
use nap_cli.Supervisor.Worker.{
  Worker, Failure, worker_unavailable, request_rejected, Identity, Spawn, stop_locked, start,
  launch, defers, restarts, ensure_current, write, is_process,
}
use nap_cli.Supervisor.Requests.{
  Surroundings, admit, withdraw, settle, settle_notification, forward, submit_to, submit_current,
  submit,
}
use nap_cli.Supervisor.Invariant.{stop_locked_frame, launch_frame}

start-sent : (e : Spawn) (w : Worker) → (start e w).1.sent ≡ w.sent
unfolding start
start-sent e w = (launch_frame e (stop_locked w)).2 ∙ (stop_locked_frame w).2

choose-sent :
    (e : Spawn) (wait again : Bool) (w : Worker)
    → (if wait
        then (ok tt, record w { reload_pending = true })
        else if again
        then start e w
        else (ok tt, w)).1.sent
      ≡ w.sent
choose-sent e true again w = refl
choose-sent e false true w = start-sent e w
choose-sent e false false w = refl

pub ensure_current-sent :
    (current : Option Identity) (dead : Bool) (e : Spawn) (w : Worker)
    → (ensure_current current dead e w).1.sent ≡ w.sent
unfolding ensure_current
ensure_current-sent none dead e w = (stop_locked_frame w).2
ensure_current-sent (some current) dead e w =
    choose-sent e (defers current dead w) (restarts current dead w) w

start-error : (e : Spawn) (w : Worker) → (start e w).0 ≢ raise request_rejected
unfolding start launch
start-error e w = λ p. ground (arith, p)

choose-error :
    (e : Spawn) (wait again : Bool) (w : Worker)
    → (if wait
        then (ok tt, record w { reload_pending = true })
        else if again
        then start e w
        else (ok tt, w)).0
      ≢ raise request_rejected
choose-error e true again w = λ p. cc
choose-error e false true w = start-error e w
choose-error e false false w = λ p. cc

ensure_current-error :
    (current : Option Identity) (dead : Bool) (e : Spawn) (w : Worker)
    → (ensure_current current dead e w).0 ≢ raise request_rejected
unfolding ensure_current
ensure_current-error none dead e w = λ p. cc
ensure_current-error (some current) dead e w =
    choose-error e (defers current dead w) (restarts current dead w) w

-- What a call has sent: nothing, or the line once.
abbrev pub SentOnce : Bytes → List (ℕ × Bytes) → List (ℕ × Bytes) → Type 0
SentOnce line before after = (after ≡ before) ⊎ ((g : ℕ) × (after ≡ before ++ (g, line) ∷ []))

SentOnce-trans :
    (line : Bytes) {a b c : List (ℕ × Bytes)} → SentOnce line a b → c ≡ b → SentOnce line a c
SentOnce-trans line (inl e) q = inl (q ∙ e)
SentOnce-trans line (inr (g, e)) q = inr (g, q ∙ e)

SentOnce-from :
    (line : Bytes) {a b c : List (ℕ × Bytes)} → b ≡ a → SentOnce line b c → SentOnce line a c
SentOnce-from line q (inl e) = inl (e ∙ q)
SentOnce-from line q (inr (g, e)) = inr (g, e ∙ ap (λ s. s ++ (g, line) ∷ []) q)

module _ (c : Config) where
  write-SentOnce :
      (g : ℕ) (message : Bytes) (alive taken : Bool) (w : Worker)
      → SentOnce (with_newline message) w.sent (write g message alive taken w).1.sent
  unfolding write
  write-SentOnce g message alive taken w = elim (Bool-cases (is_process g w.process && alive)) [
    | inr gone ↦ rw (gone, write) (inl refl)
    | inl there ↦ elim (Bool-cases taken) [
      | inl whole ↦ rw (there, write) (rw whole (inr (g, refl)))
      | inr part ↦ rw (there, write) (rw part (inr (g, refl)))
    ]
  ]

  settle-sent :
      (key : Bytes) (ref : ℕ) (r : Result Failure (Unit {0})) (w : Worker)
      → (settle c key ref (r, w)).1.sent ≡ w.sent
  unfolding settle withdraw
  settle-sent key ref (ok u) w = refl
  settle-sent key ref (raise e) w = (stop_locked_frame (withdraw c key ref w)).2 ∙ ground arith

  admit-sent : (message : Bytes) (g : ℕ) (w : Worker) → (admit c message g w).1.sent ≡ w.sent
  unfolding admit
  admit-sent message g w = ground arith

  settle_notification-sent :
      (r : Result Failure (Unit {0})) (w : Worker) → (settle_notification c (r, w)).1.sent ≡ w.sent
  unfolding settle_notification
  settle_notification-sent (ok u) w = refl
  settle_notification-sent (raise e) w = (stop_locked_frame w).2

  forward-SentOnce :
      (message : Bytes) (g : ℕ) (alive taken : Bool) (r : Result Failure ℕ) (w : Worker)
      → SentOnce (with_newline message) w.sent (forward c message g alive taken (r, w)).1.sent
  unfolding forward
  forward-SentOnce message g alive taken (raise e) w = inl refl
  forward-SentOnce message g alive taken (ok ref) w =
      SentOnce-trans (with_newline message) (write-SentOnce g message alive taken w)
        (settle-sent _ ref _ _)

  submit_to-SentOnce :
      (message : Bytes) (g : ℕ) (alive taken : Bool) (w : Worker)
      → SentOnce (with_newline message) w.sent (submit_to c message g alive taken w).1.sent
  unfolding submit_to
  submit_to-SentOnce message g alive taken w = elim (Bool-cases (is_notification c message)) [
    | inl yes' ↦
        rw (yes', submit_to)
          (SentOnce-trans (with_newline message) (write-SentOnce g message alive taken w)
            (settle_notification-sent _ _))
    | inr no' ↦
        rw (no', submit_to)
          (SentOnce-from (with_newline message) (admit-sent message g w)
            (forward-SentOnce message g alive taken _ _))
  ]

  submit_current-SentOnce :
      (message : Bytes) (alive taken : Bool) (r : Result Failure (Unit {0})) (w : Worker)
      → SentOnce (with_newline message) w.sent (submit_current c message alive taken (r, w)).1.sent
  unfolding submit_current
  submit_current-SentOnce message alive taken (raise e) w = inl refl
  submit_current-SentOnce message alive taken (ok u) w = go w.process
    where
      go :
          (m : Option ℕ)
          → SentOnce
              (with_newline message)
              w.sent
              (elim m as (λ x. Result Failure (Option ℕ) × Worker) [
                | none ↦ (raise worker_unavailable, w)
                | some p ↦ submit_to c message w.generation alive taken w
              ]).1.sent
      go none = inl refl
      go (some p) = submit_to-SentOnce message w.generation alive taken w

  -- A call of `submit` hands the message to a process at most once, even where it has to start
  -- one first or the write fails.
  pub submit-SentOnce :
      (message : Bytes) (e : Surroundings) (w : Worker)
      → SentOnce (with_newline message) w.sent (submit c message e w).1.sent
  unfolding submit
  submit-SentOnce message e w =
      SentOnce-from (with_newline message) (ensure_current-sent e.current e.dead e.spawn w)
        (submit_current-SentOnce message e.alive e.taken _ _)

  write-error :
      (g : ℕ) (message : Bytes) (alive taken : Bool) (w : Worker)
      → (write g message alive taken w).0 ≢ raise request_rejected
  unfolding write
  write-error g message alive taken w = λ p. ground (arith, p)

  settle-error :
      (key : Bytes) (ref : ℕ) (r : Result Failure (Unit {0})) (w : Worker)
      → (settle c key ref (r, w)).0 ≡ raise request_rejected
      → r ≡ raise request_rejected
  unfolding settle
  settle-error key ref (ok u) w p = cc
  settle-error key ref (raise e) w p = ground (arith, p)

  settle_notification-error :
      (r : Result Failure (Unit {0})) (w : Worker)
      → (settle_notification c (r, w)).0 ≡ raise request_rejected
      → r ≡ raise request_rejected
  unfolding settle_notification
  settle_notification-error (ok u) w p = cc
  settle_notification-error (raise e) w p = ground (arith, p)

  admit-error :
      (message : Bytes) (g : ℕ) (w : Worker)
      → (admit c message g w).0 ≡ raise request_rejected
      → (admit c message g w).1 ≡ w
  unfolding admit
  admit-error message g w p = ground (arith, p)

  forward-error :
      (message : Bytes) (g : ℕ) (alive taken : Bool) (r : Result Failure ℕ) (w : Worker)
      → (forward c message g alive taken (r, w)).0 ≡ raise request_rejected
      → (r ≡ raise request_rejected) × ((forward c message g alive taken (r, w)).1 ≡ w)
  unfolding forward
  forward-error message g alive taken (raise e) w p = (ground (arith, p), refl)
  forward-error message g alive taken (ok ref) w p =
      absurd (write-error g message alive taken w (settle-error _ ref _ _ p))

  submit_to-error :
      (message : Bytes) (g : ℕ) (alive taken : Bool) (w : Worker)
      → (submit_to c message g alive taken w).0 ≡ raise request_rejected
      → (submit_to c message g alive taken w).1 ≡ w
  unfolding submit_to
  submit_to-error message g alive taken w p = elim (Bool-cases (is_notification c message)) [
    | inl yes' ↦ absurd (
        write-error g message alive taken w
          (settle_notification-error _ _ (rw (yes', submit_to) at p)))
    | inr no' ↦
        (let (r, same) = forward-error message g alive taken _ _ (rw (no', submit_to) at p) in
          rw (no', submit_to) (same ∙ admit-error message g w r))
  ]

  submit_current-error :
      (message : Bytes) (alive taken : Bool) (r : Result Failure (Unit {0})) (w : Worker)
      → r ≢ raise request_rejected
      → (submit_current c message alive taken (r, w)).0 ≡ raise request_rejected
      → (submit_current c message alive taken (r, w)).1 ≡ w
  unfolding submit_current
  submit_current-error message alive taken (raise e) w ne p = refl
  submit_current-error message alive taken (ok u) w ne p = go w.process p
    where
      choose : Option ℕ → Result Failure (Option ℕ) × Worker
      choose m = elim m as (λ x. Result Failure (Option ℕ) × Worker) [
        | none ↦ (raise worker_unavailable, w)
        | some p ↦ submit_to c message w.generation alive taken w
      ]

      go : (m : Option ℕ) → (choose m).0 ≡ raise request_rejected → (choose m).1 ≡ w
      go none q = refl
      go (some g) q = submit_to-error message w.generation alive taken w q

  -- A message that is rejected (error -32097) was not sent to any process, and the call has done
  -- nothing but see to it that the process is current.
  pub submit-rejected :
      (message : Bytes) (e : Surroundings) (w : Worker)
      → (submit c message e w).0 ≡ raise request_rejected
      → ((submit c message e w).1.sent ≡ w.sent)
        × ((submit c message e w).1 ≡ (ensure_current e.current e.dead e.spawn w).1)
  unfolding submit
  submit-rejected message e w p =
      let same =
        submit_current-error message e.alive e.taken _ _
          (ensure_current-error e.current e.dead e.spawn w) p in
      (ap (λ t. t.sent) same ∙ ensure_current-sent e.current e.dead e.spawn w, same)
