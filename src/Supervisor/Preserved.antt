-- ===== src/Supervisor/Preserved.antt =====
-- Submitting and expiring, each as a whole call, keep the invariant.
use nap_cli.Prelude.{
  ℕ, ◌≡◌, ◌≢◌, refl, inl, inr, Bool, ◌&&◌, Option, none, some, List, [], ◌∷◌, ◌++◌, arith, ◌==◌,
  length, leb, get_elem?, modify, ℕ_eq, list_eq, list_beq_iff, string_eq, ◌=?◌, Bool-cases,
  Option-cases, get_elem?-append_old, get_elem?-append_new,
}
use nap_cli.Prelude.Dict.{
  Dict, lookup, lookup-none_of_has, insert, erase, has, lookup-insert, lookup-erase,
  insert-NodupKeys, erase-NodupKeys, length-insert, length-erase, lookup-nil,
}
use nap_cli.Prelude.Result.{Result, ok, raise}
use nap_cli.Supervisor.Message.{Bytes, Config, request_key, request_id, is_notification}
use nap_cli.Supervisor.Worker.{PendingRequest, Worker, Failure, worker_unavailable, write}
use nap_cli.Supervisor.Requests.{
  Surroundings, new_request, admit, withdraw, settle, forward, settle_notification, submit_to,
  submit_current, submit, expire_cancelled, same_ref,
}
use nap_cli.Supervisor.Invariant.{
  IsEntry, IsWorker, Keeps, IsEntry-modify, IsEntry-modify_ne, same-IsWorker, stop_locked-IsWorker,
  ensure_current-IsWorker,
}

module _ (c : Config) where
  IsEntry-insert :
      (objects : List PendingRequest) (pending : Dict Bytes ℕ) (g : ℕ) (q : PendingRequest)
      → q.generation ≡ g
      → q.response ≡ none
      → ((key : Bytes) (ref : ℕ) → lookup key pending ≡ some ref → IsEntry objects g key ref)
      → (key : Bytes) (ref : ℕ) → lookup key (insert q.key (length objects) pending) ≡ some ref
      → IsEntry (objects ++ q ∷ []) g key ref
  IsEntry-insert objects pending g q gen quiet old key ref h = elim (Bool-cases (key =? q.key)) [
    | inl same ↦ (
      q,
      ground
          (arith, lookup-insert key q.key (length objects) pending, get_elem?-append_new objects q),
      ground (arith, list_beq_iff key q.key),
      gen,
      λ _. quiet,
    )
    | inr differ ↦
        let (p, at, k, gen', quiet') =
          old key ref (ground (arith, lookup-insert key q.key (length objects) pending)) in
        (p, get_elem?-append_old objects (q ∷ []) ref p at, k, gen', quiet')
  ]

  pub admit-IsWorker :
      (message : Bytes) (w : Worker)
      → IsWorker c.max_in_flight w
      → (w.process ≢ none)
      → IsWorker c.max_in_flight (admit c message w.generation w).1
  unfolding admit
  admit-IsWorker message w v running = elim (Bool-cases (has key w.pending)) [
    | inl duplicate ↦ rw (duplicate, admit) v
    | inr fresh ↦ elim (Bool-cases (leb c.max_in_flight (length w.pending))) [
      | inl full ↦ rw (fresh, admit) (rw full v)
      | inr room ↦
          rw (fresh, admit)
            (rw room (record {
              nodup = insert-NodupKeys key (length w.objects) w.pending v.nodup;
              entries =
                  IsEntry-insert w.objects w.pending w.generation
                    (new_request c message w.generation) refl refl v.entries;
              bounded = ground (
                arith,
                length-insert key (length w.objects) w.pending
                    (lookup-none_of_has key w.pending fresh),
              );
              idle = λ p. absurd (running p);
              current = v.current;
            }))
    ]
  ]
    where
      key : Bytes
      key = request_key c (request_id c message)

  IsEntry-erase :
      (w : Worker) (k : Bytes)
      → ((key : Bytes) (ref : ℕ)
          → lookup key w.pending ≡ some ref
          → IsEntry w.objects w.generation key ref)
      → (key : Bytes) (ref : ℕ) → lookup key (erase k w.pending) ≡ some ref
      → (lookup key w.pending ≡ some ref) × (key ≢ k)
  IsEntry-erase w k old key ref h = (
    ground (arith, lookup-erase key k w.pending),
    λ same. ground (arith, lookup-erase key k w.pending, list_beq_iff key k),
  )

  -- Taking a key out of the table, with any change of the object that stood there.
  pub erase-IsWorker :
      {limit : ℕ} (f : PendingRequest → PendingRequest) (w : Worker) (key : Bytes) (ref : ℕ)
      → IsWorker limit w
      → lookup key w.pending ≡ some ref
      → IsWorker limit
          (record w { pending = erase key w.pending; objects = modify f ref w.objects })
  erase-IsWorker f w key ref v found = record {
    nodup = erase-NodupKeys key w.pending v.nodup;
    entries = λ k r h.
        let (old, ne) = IsEntry-erase w key v.entries k r h in
        IsEntry-modify_ne f w.objects w.generation k key ref r (v.entries key ref found) ne
          (v.entries k r old);
    bounded = omega (arith, v.bounded, length-erase key w.pending);
    idle = λ p. cc (v.idle p, lookup-nil {V = ℕ} key);
    current = v.current;
  }

  -- A change of an object that the invariant does not notice.
  pub modify-IsWorker :
      {limit : ℕ} (f : PendingRequest → PendingRequest) (ref : ℕ) (w : Worker)
      → Keeps f
      → IsWorker limit w
      → IsWorker limit (record w { objects = modify f ref w.objects })
  modify-IsWorker f ref w keeps v = record {
    nodup = v.nodup;
    entries = λ k r h. IsEntry-modify f keeps w.objects w.generation k ref r (v.entries k r h);
    bounded = v.bounded;
    idle = v.idle;
    current = v.current;
  }

  withdraw-IsWorker :
      {limit : ℕ} (key : Bytes) (ref : ℕ) (w : Worker)
      → IsWorker limit w
      → IsWorker limit (withdraw c key ref w)
  unfolding withdraw
  withdraw-IsWorker key ref w v = elim (Option-cases (lookup key w.pending)) [
    | inl e ↦ rw (e, withdraw) v
    | inr (r, e) ↦ elim (Bool-cases (r == ref)) [
      | inl same ↦
          rw (e, withdraw)
            (rw same (record {
              nodup = erase-NodupKeys key w.pending v.nodup;
              entries = λ k i h. v.entries k i (IsEntry-erase w key v.entries k i h).0;
              bounded = omega (arith, v.bounded, length-erase key w.pending);
              idle = λ p. cc (v.idle p, lookup-nil {V = ℕ} key);
              current = v.current;
            }))
      | inr differ ↦ rw (e, withdraw) (rw differ v)
    ]
  ]

  pub write-IsWorker :
      {limit : ℕ} (g : ℕ) (message : Bytes) (alive taken : Bool) (w : Worker)
      → IsWorker limit w
      → IsWorker limit (write g message alive taken w).1
  unfolding write
  write-IsWorker g message alive taken w v =
      same-IsWorker (ground arith) (ground arith) (ground arith) (ground arith) v

  settle-IsWorker :
      {limit : ℕ} (key : Bytes) (ref : ℕ) (r : Result Failure (Unit {0})) (w : Worker)
      → IsWorker limit w
      → IsWorker limit (settle c key ref (r, w)).1
  unfolding settle
  settle-IsWorker key ref (ok u) w v = v
  settle-IsWorker key ref (raise e) w v =
      stop_locked-IsWorker (withdraw c key ref w) (withdraw-IsWorker key ref w v)

  settle_notification-IsWorker :
      {limit : ℕ} (r : Result Failure (Unit {0})) (w : Worker)
      → IsWorker limit w
      → IsWorker limit (settle_notification c (r, w)).1
  unfolding settle_notification
  settle_notification-IsWorker (ok u) w v = v
  settle_notification-IsWorker (raise e) w v = stop_locked-IsWorker w v

  forward-IsWorker :
      {limit : ℕ} (message : Bytes) (g : ℕ) (alive taken : Bool) (r : Result Failure ℕ) (w : Worker)
      → IsWorker limit w
      → IsWorker limit (forward c message g alive taken (r, w)).1
  unfolding forward
  forward-IsWorker message g alive taken (raise e) w v = v
  forward-IsWorker message g alive taken (ok ref) w v =
      settle-IsWorker (request_key c (request_id c message)) ref _ _
        (write-IsWorker g message alive taken w v)

  submit_to-IsWorker :
      (message : Bytes) (alive taken : Bool) (w : Worker)
      → IsWorker c.max_in_flight w
      → w.process ≢ none
      → IsWorker c.max_in_flight (submit_to c message w.generation alive taken w).1
  unfolding submit_to
  submit_to-IsWorker message alive taken w v running =
      elim (Bool-cases (is_notification c message)) [
        | inl yes' ↦
            rw (yes', submit_to)
              (settle_notification-IsWorker _ _
                (write-IsWorker w.generation message alive taken w v))
        | inr no' ↦
            rw (no', submit_to)
              (forward-IsWorker message w.generation alive taken _ _
                (admit-IsWorker message w v running))
      ]

  submit_current-IsWorker :
      (message : Bytes) (alive taken : Bool) (r : Result Failure (Unit {0})) (w : Worker)
      → IsWorker c.max_in_flight w
      → IsWorker c.max_in_flight (submit_current c message alive taken (r, w)).1
  unfolding submit_current
  submit_current-IsWorker message alive taken (raise e) w v = v
  submit_current-IsWorker message alive taken (ok u) w v = go w.process refl
    where
      go :
          (m : Option ℕ)
          → w.process ≡ m
          → IsWorker c.max_in_flight
              (elim m as (λ x. Result Failure (Option ℕ) × Worker) [
                | none ↦ (raise worker_unavailable, w)
                | some p ↦ submit_to c message w.generation alive taken w
              ]).1
      go none e = v
      go (some p) e = submit_to-IsWorker message alive taken w v (λ q. cc)

  pub submit-IsWorker :
      (message : Bytes) (e : Surroundings) (w : Worker)
      → IsWorker c.max_in_flight w
      → IsWorker c.max_in_flight (submit c message e w).1
  unfolding submit
  submit-IsWorker message e w v =
      submit_current-IsWorker message e.alive e.taken _ _
        (ensure_current-IsWorker e.current e.dead e.spawn w v)

  pub expire_cancelled-IsWorker :
      {limit : ℕ} (ref : ℕ) (w : Worker)
      → IsWorker limit w
      → IsWorker limit (expire_cancelled c ref w)
  unfolding expire_cancelled
  expire_cancelled-IsWorker ref w v = elim (Option-cases (get_elem? w.objects ref)) [
    | inl e ↦ rw (e, expire_cancelled) v
    | inr (p, e) ↦
        elim (Bool-cases
          (same_ref c ref (lookup p.key w.pending) && p.generation == w.generation)) [
            | inl hit ↦ rw (e, expire_cancelled) (rw hit (stop_locked-IsWorker w v))
            | inr miss ↦ rw (e, expire_cancelled) (rw miss v)
          ]
  ]
