-- ===== src/Runtime/Silence.antt =====
-- A request that is cancelled is neither begun nor answered.
use nap_cli.Prelude.{
  ℕ, ◌≡◌, refl, ap, ◌∙◌, Bool, true, false, Option, none, some, [], ◌∷◌, ◌++◌, if◌then◌else◌, arith,
  get_elem?, ℕ_eq, list_eq, ◌==◌ as nat_eq,
}
use nap_cli.Prelude.Dict.{lookup, lookup-erase_self}
use nap_cli.Runtime.Dispatch.{
  Stage, queued, running, finished, dropped, Request, Runtime, Setting, Outcome, key_of,
  notify_finished, finished_notice, finish_staged, finish_one, finish_execute, emit, emit_some,
  response_of, close_entry,
}
use nap_cli.Runtime.Steps.{Steps, HasTable, Steps-HasTable}
use nap_cli.Runtime.Cancelled.{called, Steps-IsCancelled}

-- What the end of a cancelled request in a stage brings: the notice to a supervisor and the end of
-- its entry while it runs, and nothing in any other stage.
abbrev pub IsSilent : Setting → ℕ → Outcome → Request → Stage → Runtime → Type 0
IsSilent c ref outcome q running r =
    ((finish_execute c ref outcome r).sent
      ≡ (if c.supervised then r.sent ++ finished_notice c q.message ∷ [] else r.sent))
    × (lookup (key_of c q.message) (finish_execute c ref outcome r).requests ≡ none)
IsSilent c ref outcome q stage r = finish_execute c ref outcome r ≡ r

module _ (c : Setting) where
  close_entry-sent :
      (ref : ℕ) (q : Request) (r : Runtime)
      → (notify_finished c q (close_entry c ref q r)).sent
        ≡ (if c.supervised then r.sent ++ finished_notice c q.message ∷ [] else r.sent)
  unfolding notify_finished
  close_entry-sent ref q r = go c.supervised
    where
      go :
          (b : Bool)
          → (if b
              then emit (finished_notice c q.message) (close_entry c ref q r)
              else close_entry c ref q r).sent
            ≡ (if b then r.sent ++ finished_notice c q.message ∷ [] else r.sent)
      go true = refl
      go false = refl

  close_entry-requests :
      (ref : ℕ) (q : Request) (r : Runtime)
      → lookup (key_of c q.message) r.requests ≡ some ref
      → lookup (key_of c q.message) (notify_finished c q (close_entry c ref q r)).requests ≡ none
  unfolding notify_finished
  close_entry-requests ref q r held = go c.supervised
    where
      same : (n : ℕ) → nat_eq n n ≡ true
      same n = ground arith

      gone : lookup (key_of c q.message) (close_entry c ref q r).requests ≡ none
      gone = rw held (rw (same ref) (lookup-erase_self (key_of c q.message) r.requests))

      go :
          (b : Bool)
          → lookup
              (key_of c q.message)
              (if b
                then emit (finished_notice c q.message) (close_entry c ref q r)
                else close_entry c ref q r).requests
            ≡ none
      go true = gone
      go false = gone

  finish_execute_lem :
      (ref : ℕ) (outcome : Outcome) (q : Request) (r : Runtime)
      → get_elem? r.objects ref ≡ some q
      → finish_execute c ref outcome r ≡ finish_staged c ref outcome q q.stage r
  unfolding finish_execute
  finish_execute_lem ref outcome q r at =
      ap (λ (o : Option Request). finish_one c ref outcome o r) at

  finish_execute-IsSilent :
      (ref : ℕ) (outcome : Outcome) (q : Request) (s : Stage) (r : Runtime)
      → get_elem? r.objects ref ≡ some q
      → q.stage ≡ s
      → q.cancelled ≡ true
      → HasTable c r
      → IsSilent c ref outcome q s r
  unfolding finish_staged
  finish_execute-IsSilent ref outcome q running r at e x t =
      let held = t.held ref q at (rw e tt) in
      let ends : finish_execute c ref outcome r ≡ notify_finished c q (close_entry c ref q r) =
        finish_execute_lem ref outcome q r at
        ∙ ap (λ (s : Stage). finish_staged c ref outcome q s r) e
        ∙ ap
            (λ (b : Bool).
              if b
              then notify_finished c q (close_entry c ref q r)
              else emit_some (response_of c q.message outcome) (close_entry c ref q r))
            x in
      (
        ap (λ (r : Runtime). r.sent) ends ∙ close_entry-sent ref q r,
        ap (λ (r : Runtime). lookup (key_of c q.message) r.requests) ends
            ∙ close_entry-requests ref q r held,
      )
  finish_execute-IsSilent ref outcome q queued r at e x t =
      finish_execute_lem ref outcome q r at
      ∙ ap (λ (s : Stage). finish_staged c ref outcome q s r) e
  finish_execute-IsSilent ref outcome q finished r at e x t =
      finish_execute_lem ref outcome q r at
      ∙ ap (λ (s : Stage). finish_staged c ref outcome q s r) e
  finish_execute-IsSilent ref outcome q dropped r at e x t =
      finish_execute_lem ref outcome q r at
      ∙ ap (λ (s : Stage). finish_staged c ref outcome q s r) e

  -- After any steps from a runtime with a sound table in which a request is cancelled: the request is
  -- still there, with its message, and cancelled; the handler has not been called on it since; and
  -- whatever its handler comes to, its end while it runs sends no response, only the notice if there
  -- is a supervisor, and takes its entry out of the table, and there is no end at any other time.
  pub Steps-IsSilent :
      {first r : Runtime} (ref : ℕ) (outcome : Outcome) (q : Request)
      → HasTable c first
      → get_elem? first.objects ref ≡ some q
      → q.cancelled ≡ true
      → Steps c first r
      → (p : Request) × (get_elem? r.objects ref ≡ some p)
        × (p.message ≡ q.message)
        × (p.cancelled ≡ true)
        × (called ref r.handled ≡ called ref first.handled)
        × IsSilent c ref outcome p p.stage r
  Steps-IsSilent {first} {r} ref outcome q t at x s =
      let (p, there, m, y, h) =
        Steps-IsCancelled ref q.message (called ref first.handled) c s (q, at, refl, x, refl) in
      (
        p,
        there,
        m,
        y,
        h,
        finish_execute-IsSilent ref outcome p p.stage r there refl y (Steps-HasTable c s t),
      )
