-- ===== src/Runtime/Cancelled.antt =====
-- What becomes of a request that is cancelled.
use native.Mathlib.Decide.{ℕ_discrete}
use nap_cli.Prelude.{
  ℕ, ◌≡◌, ◌≢◌, refl, sym, ap, ◌∙◌, inl, inr, Bool, true, false, ◌||◌, Option, none, some, List, [],
  ◌∷◌, ◌++◌, if◌then◌else◌, leb, arith, length, get_elem?, modify, Bool-cases, ℕ_eq, list_eq,
  ◌==◌ as nat_eq, get_elem?-modify_self, get_elem?-modify_ne, get_elem?-append_old,
}
use nap_cli.Prelude.Dict.{lookup, has}
use nap_cli.Prelude.Json.{Json, null, bool, num, str, arr, obj, Fields, get}
use nap_cli.Runtime.Dispatch.{
  Stage, queued, running, finished, dropped, Request, Runtime, Setting, Outcome, key_of, limit,
  start, finish, set_cancelled, drop_request, is_method, cancel_target, notify_finished,
  finished_notice, begin_staged, begin_one, begin_execute, finish_staged, finish_one,
  finish_execute, cancel_one, cancel_found, cancel, cancel_some, dispatch_of, dispatch_notification,
  admit, dispatch_fields, dispatch, shut, drop_one, emit, emit_some, response_of, close_entry,
}
use nap_cli.Runtime.Table.{some_inj}
use nap_cli.Runtime.Steps.{Steps, none_yet, dispatches, begins, finishes, shuts, drops}

-- The handler was called on the request.
abbrev pub called : ℕ → List ℕ → Bool
called ref [] = false
called ref (n ∷ handled) = nat_eq ref n || called ref handled

called-append :
    (ref n : ℕ) (handled : List ℕ) → n ≢ ref → called ref (handled ++ n ∷ []) ≡ called ref handled
called-append ref n [] h = ground (arith, h)
called-append ref n (k ∷ handled) h = rw (called-append ref n handled h) refl

-- A request with that message that is cancelled, where the handler was called on it or not.
abbrev pub IsCancelled : ℕ → Fields → Bool → Runtime → Type 0
IsCancelled ref message was r =
    (q : Request) × (get_elem? r.objects ref ≡ some q)
    × (q.message ≡ message)
    × (q.cancelled ≡ true)
    × (called ref r.handled ≡ was)

module _ (ref : ℕ) (message : Fields) (was : Bool) where
  modify-IsCancelled :
      (f : Request → Request) (i : ℕ) (objects : List Request) (q : Request)
      → ((p : Request) → (f p).message ≡ p.message)
      → ((p : Request) → p.cancelled ≡ true → (f p).cancelled ≡ true)
      → get_elem? objects ref ≡ some q
      → q.message ≡ message
      → q.cancelled ≡ true
      → (p : Request) × (get_elem? (modify f i objects) ref ≡ some p)
        × (p.message ≡ message)
        × (p.cancelled ≡ true)
  modify-IsCancelled f i objects q keeps stays at m x = elim (ℕ_discrete i ref) [
    | yes e ↦ (f q, rw e (get_elem?-modify_self f ref objects q at), keeps q ∙ m, stays q x)
    | no ne ↦ (q, get_elem?-modify_ne f i ref objects ne ∙ at, m, x)
  ]

  module _ (c : Setting) where
    begin_staged-IsCancelled :
        (i : ℕ) (p : Request) (s : Stage) (r : Runtime)
        → get_elem? r.objects i ≡ some p
        → IsCancelled ref message was r
        → IsCancelled ref message was (begin_staged c i p s r)
    unfolding begin_staged
    begin_staged-IsCancelled i p queued r there (q, at, m, x, h) =
        let (o, at', m', x') =
          modify-IsCancelled start i r.objects q (λ p. refl) (λ p e. e) at m x in
        (o, at', m', x', same)
      where
        true≢false : ◌≡◌ {A = Bool} true false → ⊥
        true≢false e = cc

        same : called ref (if p.cancelled then r.handled else r.handled ++ i ∷ []) ≡ was
        same = elim (Bool-cases p.cancelled) [
          | inl e ↦ rw e h
          | inr e ↦
              (let other : i ≢ ref = λ d. absurd (
                  true≢false (
                    sym x
                    ∙ ap (λ (o : Request). o.cancelled)
                        (some_inj q p (sym at ∙ ap (get_elem? r.objects) (sym d) ∙ there))
                    ∙ e)) in
                rw e (called-append ref i r.handled other ∙ h))
        ]
    begin_staged-IsCancelled i p running r there k = k
    begin_staged-IsCancelled i p finished r there k = k
    begin_staged-IsCancelled i p dropped r there k = k

    begin_execute-IsCancelled :
        (i : ℕ) (r : Runtime)
        → IsCancelled ref message was r
        → IsCancelled ref message was (begin_execute c i r)
    unfolding begin_execute
    begin_execute-IsCancelled i r k = go (get_elem? r.objects i) refl
      where
        go :
            (o : Option Request)
            → get_elem? r.objects i ≡ o
            → IsCancelled ref message was (begin_one c i o r)
        go none e = k
        go (some p) e = begin_staged-IsCancelled i p p.stage r e k

    if-IsCancelled :
        (b : Bool) (x y : Runtime)
        → IsCancelled ref message was x
        → IsCancelled ref message was y
        → IsCancelled ref message was (if b then x else y)
    if-IsCancelled true x y s t = s
    if-IsCancelled false x y s t = t

    emit_some-IsCancelled :
        (o : Option Json) (r : Runtime)
        → IsCancelled ref message was r
        → IsCancelled ref message was (emit_some o r)
    emit_some-IsCancelled none r k = k
    emit_some-IsCancelled (some m) r k = k

    finish_staged-IsCancelled :
        (i : ℕ) (outcome : Outcome) (p : Request) (s : Stage) (r : Runtime)
        → IsCancelled ref message was r
        → IsCancelled ref message was (finish_staged c i outcome p s r)
    unfolding finish_staged notify_finished
    finish_staged-IsCancelled i outcome p running r (q, at, m, x, h) =
        let (o, at', m', x') =
          modify-IsCancelled finish i r.objects q (λ p. refl) (λ p e. e) at m x in
        let closed : IsCancelled ref message was (close_entry c i p r) = (o, at', m', x', h) in
        if-IsCancelled p.cancelled (notify_finished c p (close_entry c i p r))
          (emit_some (response_of c p.message outcome) (close_entry c i p r))
          (if-IsCancelled c.supervised (emit (finished_notice c p.message) (close_entry c i p r))
            (close_entry c i p r) closed closed)
          (emit_some-IsCancelled (response_of c p.message outcome) (close_entry c i p r) closed)
    finish_staged-IsCancelled i outcome p queued r k = k
    finish_staged-IsCancelled i outcome p finished r k = k
    finish_staged-IsCancelled i outcome p dropped r k = k

    finish_execute-IsCancelled :
        (i : ℕ) (outcome : Outcome) (r : Runtime)
        → IsCancelled ref message was r
        → IsCancelled ref message was (finish_execute c i outcome r)
    unfolding finish_execute
    finish_execute-IsCancelled i outcome r k = go (get_elem? r.objects i)
      where
        go : (o : Option Request) → IsCancelled ref message was (finish_one c i outcome o r)
        go none = k
        go (some p) = finish_staged-IsCancelled i outcome p p.stage r k

    cancel-IsCancelled :
        (id : Json) (r : Runtime)
        → IsCancelled ref message was r
        → IsCancelled ref message was (cancel c id r).1
    unfolding cancel cancel_found cancel_one
    cancel-IsCancelled id r (q, at, m, x, h) = found (lookup (c.dumps id) r.requests)
      where
        one : (i : ℕ) (o : Option Request) → IsCancelled ref message was (cancel_one c i o r).1
        one i none = (q, at, m, x, h)
        one i (some p) = elim (Bool-cases (is_method "initialize" p.message)) [
          | inl e ↦ rw e (q, at, m, x, h)
          | inr e ↦
              (let (o, at', m', x') =
                  modify-IsCancelled set_cancelled i r.objects q (λ p. refl) (λ p e. refl) at m x in
                rw e (o, at', m', x', h))
        ]

        found : (o : Option ℕ) → IsCancelled ref message was (cancel_found c o r).1
        found none = (q, at, m, x, h)
        found (some i) = one i (get_elem? r.objects i)

    admit-IsCancelled :
        (new : Fields) (r : Runtime)
        → IsCancelled ref message was r
        → IsCancelled ref message was (admit c new r).1
    unfolding admit
    admit-IsCancelled new r (q, at, m, x, h) = elim (Bool-cases r.closed) [
      | inl a ↦ rw a (q, at, m, x, h)
      | inr a ↦ elim (Bool-cases (has (key_of c new) r.requests)) [
        | inl b ↦ rw (a, b) (q, at, m, x, h)
        | inr b ↦ elim (Bool-cases (leb (limit c) (length r.requests))) [
          | inl d ↦ rw (a, b, d) (q, at, m, x, h)
          | inr d ↦ rw (a, b, d) (q, get_elem?-append_old r.objects _ ref q at, m, x, h)
        ]
      ]
    ]

    dispatch-IsCancelled :
        (new : Json) (r : Runtime)
        → IsCancelled ref message was r
        → IsCancelled ref message was (dispatch c new r).1
    unfolding dispatch dispatch_fields dispatch_notification cancel_some
    dispatch-IsCancelled (obj new) r k = go (get "id" new)
      where
        target : (o : Option Json) → IsCancelled ref message was (cancel_some c o r)
        target none = k
        target (some id) = cancel-IsCancelled id r k

        go : (o : Option Json) → IsCancelled ref message was (dispatch_of c o new r).1
        go (some id) = admit-IsCancelled new r k
        go none =
            if-IsCancelled (is_method "notifications/cancelled" new)
              (cancel_some c (cancel_target new) r) r (target (cancel_target new)) k
    dispatch-IsCancelled null r k = k
    dispatch-IsCancelled (bool b) r k = k
    dispatch-IsCancelled (num n) r k = k
    dispatch-IsCancelled (str s) r k = k
    dispatch-IsCancelled (arr items) r k = k

    drop_one-IsCancelled :
        (i : ℕ) (r : Runtime)
        → IsCancelled ref message was r
        → IsCancelled ref message was (drop_one i r)
    unfolding drop_one
    drop_one-IsCancelled i r (q, at, m, x, h) =
        let (o, at', m', x') =
          modify-IsCancelled drop_request i r.objects q (λ p. refl) (λ p e. refl) at m x in
        (o, at', m', x', h)

    pub Steps-IsCancelled :
        {first r : Runtime}
        → Steps c first r
        → IsCancelled ref message was first
        → IsCancelled ref message was r
    unfolding shut
    Steps-IsCancelled none_yet k = k
    Steps-IsCancelled (dispatches {r} new s) k = dispatch-IsCancelled new r (Steps-IsCancelled s k)
    Steps-IsCancelled (begins {r} i s) k = begin_execute-IsCancelled i r (Steps-IsCancelled s k)
    Steps-IsCancelled (finishes {r} i outcome s) k =
        finish_execute-IsCancelled i outcome r (Steps-IsCancelled s k)
    Steps-IsCancelled (shuts s) k = Steps-IsCancelled s k
    Steps-IsCancelled (drops {r} i s) k = drop_one-IsCancelled i r (Steps-IsCancelled s k)
