-- ===== src/Supervisor/Answers.antt =====
-- Cancelling, answering and awaiting a request, each as a whole call, keep the invariant.
use nap_cli.Prelude.{
  ℕ, ◌≡◌, refl, inl, inr, Bool, true, false, Option, none, some, arith, ◌==◌, if◌then◌else◌,
  get_elem?, modify, modify-modify, ℕ_eq, list_eq, string_eq, ◌=?◌, Bool-cases, Option-cases,
}
use nap_cli.Prelude.Dict.{lookup}
use nap_cli.Prelude.Json.{Json, Fields}
use nap_cli.Prelude.Result.{Result, ok, raise}
use nap_cli.Supervisor.Message.{
  Bytes, Config, request_key, request_id, request_method, is_method, parse_message,
}
use nap_cli.Supervisor.Worker.{
  Reply, response_line, cancelled_reply, unavailable, PendingRequest, Worker, Failure, put_nowait,
  stop_timer, signal, write,
}
use nap_cli.Supervisor.Requests.{
  mark_cancelled, cancel_message, cancel_written, cancel_request, cancel_found, cancel, awaited,
  take_out, finish_request, is_expected, pass_on, deliver_payload, finish_awaited, answer,
  deliver_id, deliver_response, wait_reply, wait, emptied,
}
use nap_cli.Supervisor.Invariant.{IsWorker, same-IsWorker}
use nap_cli.Supervisor.Preserved.{
  erase-IsWorker, modify-IsWorker, write-IsWorker, expire_cancelled-IsWorker,
}

module _ (c : Config) where
  cancel_written-IsWorker :
      {limit : ℕ} (ref : ℕ) (r : Result Failure (Unit {0})) (w : Worker)
      → IsWorker limit w
      → IsWorker limit (cancel_written c ref (r, w))
  unfolding cancel_written
  cancel_written-IsWorker ref (ok u) w v = v
  cancel_written-IsWorker ref (raise e) w v = expire_cancelled-IsWorker c ref w v

  -- A request that is marked may have a reply in its queue.
  modify_twice-IsWorker :
      {limit : ℕ} (reply : Reply) (ref : ℕ) (w : Worker)
      → IsWorker limit w
      → IsWorker limit
          (signal reply ref (record w { objects = modify (mark_cancelled c) ref w.objects }))
  unfolding signal
  modify_twice-IsWorker reply ref w v = rw modify-modify (
      modify-IsWorker c (λ p. put_nowait reply (mark_cancelled c p)) ref w
        (record { key = λ p. refl; generation = λ p. refl; quiet = λ p h e. cc }) v)

  cancel_request-IsWorker :
      {limit : ℕ} (value : Json) (ref : ℕ) (p : PendingRequest) (alive taken : Bool) (w : Worker)
      → IsWorker limit w
      → IsWorker limit (cancel_request c value ref p alive taken w)
  unfolding cancel_request
  cancel_request-IsWorker {limit} value ref p alive taken w v = go w.process
    where
      t : Worker
      t =
          signal cancelled_reply ref
            (record w { objects = modify (mark_cancelled c) ref w.objects })

      vt : IsWorker limit t
      vt = modify_twice-IsWorker cancelled_reply ref w v

      choose :
          (g : ℕ) (b : Bool)
          → IsWorker limit (
              if b
              then cancel_written c ref (write g (c.dumps (cancel_message c value)) alive taken t)
              else t)
      choose g true =
          cancel_written-IsWorker ref _ _
            (write-IsWorker c g (c.dumps (cancel_message c value)) alive taken t vt)
      choose g false = vt

      go :
          (m : Option ℕ)
          → IsWorker limit (elim m as (λ x. Worker) [
            | none ↦ t
            | some g ↦
                if p.generation == w.generation
                then cancel_written c ref (write g (c.dumps (cancel_message c value)) alive taken t)
                else t
          ])
      go none = vt
      go (some g) = choose g (p.generation == w.generation)

  cancel_found-IsWorker :
      {limit : ℕ} (value : Json) (ref : ℕ) (m : Option PendingRequest) (alive taken : Bool)
      (w : Worker)
      → IsWorker limit w
      → IsWorker limit (cancel_found c value ref m alive taken w).1
  unfolding cancel_found
  cancel_found-IsWorker value ref none alive taken w v = v
  cancel_found-IsWorker value ref (some p) alive taken w v =
      elim (Bool-cases (request_method c p.message =? "initialize")) [
        | inl first ↦ rw (first, cancel_found) v
        | inr other ↦ elim (Bool-cases p.cancelled) [
          | inl before ↦ rw (other, cancel_found) (simp before v)
          | inr now ↦
              rw (other, cancel_found)
                (simp now (cancel_request-IsWorker value ref p alive taken w v))
        ]
      ]

  pub cancel-IsWorker :
      {limit : ℕ} (value : Json) (expected : Option ℕ) (alive taken : Bool) (w : Worker)
      → IsWorker limit w
      → IsWorker limit (cancel c value expected alive taken w).1
  unfolding cancel
  cancel-IsWorker value expected alive taken w v =
      elim (Bool-cases (is_expected c expected (lookup (request_key c value) w.pending))) [
        | inr other ↦ rw (other, cancel) v
        | inl meant ↦ elim (Option-cases (lookup (request_key c value) w.pending)) [
          | inl e ↦ rw (meant, cancel) (rw (e, cancel) v)
          | inr (ref, e) ↦
              rw (meant, cancel)
                (rw (e, cancel) (cancel_found-IsWorker value ref _ alive taken w v))
        ]
      ]

  -- `awaited` finds an item of the table.
  pub lookup-awaited :
      (key : Bytes) (g : ℕ) (w : Worker) (ref : ℕ) (p : PendingRequest)
      → awaited c key g w ≡ some (ref, p)
      → (lookup key w.pending ≡ some ref) × (get_elem? w.objects ref ≡ some p) × (p.generation ≡ g)
  lookup-awaited key g w ref p h = ground arith

  pub take_out-IsWorker :
      {limit : ℕ} (key : Bytes) (ref : ℕ) (w : Worker)
      → IsWorker limit w
      → lookup key w.pending ≡ some ref
      → IsWorker limit (take_out c key ref w)
  unfolding take_out
  take_out-IsWorker key ref w v found = erase-IsWorker c stop_timer w key ref v found

  answer-IsWorker :
      {limit : ℕ} (reply : Reply) (key : Bytes) (ref : ℕ) (w : Worker)
      → IsWorker limit w
      → lookup key w.pending ≡ some ref
      → IsWorker limit (signal reply ref (take_out c key ref w))
  unfolding take_out signal
  answer-IsWorker reply key ref w v found =
      rw modify-modify (erase-IsWorker c (λ p. put_nowait reply (stop_timer p)) w key ref v found)

  pass_on-IsWorker :
      {limit : ℕ} (g : ℕ) (payload : Fields) (line : Bytes) (w : Worker)
      → IsWorker limit w
      → IsWorker limit (pass_on c g payload line w)
  unfolding pass_on
  pass_on-IsWorker g payload line w v =
      same-IsWorker (ground arith) (ground arith) (ground arith) (ground arith) v

  finish_awaited-IsWorker :
      {limit : ℕ} (key : Bytes) (g : ℕ) (w : Worker) (m : Option (ℕ × PendingRequest))
      → IsWorker limit w
      → awaited c key g w ≡ m
      → IsWorker limit (finish_awaited c key w m)
  unfolding finish_awaited
  finish_awaited-IsWorker key g w none v e = v
  finish_awaited-IsWorker key g w (some (ref, p)) v e = elim (Bool-cases p.cancelled) [
    | inl yes' ↦ simp yes' (take_out-IsWorker key ref w v (lookup-awaited key g w ref p e).0)
    | inr no' ↦ simp no' v
  ]

  finish_request-IsWorker :
      {limit : ℕ} (g : ℕ) (w : Worker) (m : Option Json)
      → IsWorker limit w
      → IsWorker limit (finish_request c g w m)
  unfolding finish_request
  finish_request-IsWorker g w none v = v
  finish_request-IsWorker g w (some value) v =
      finish_awaited-IsWorker (request_key c value) g w _ v refl

  answer-awaited-IsWorker :
      {limit : ℕ} (g : ℕ) (line : Bytes) (payload : Fields) (key : Bytes) (w : Worker)
      (m : Option (ℕ × PendingRequest))
      → IsWorker limit w
      → awaited c key g w ≡ m
      → IsWorker limit (answer c g line payload key w m)
  unfolding answer
  answer-awaited-IsWorker g line payload key w none v e = pass_on-IsWorker g payload line w v
  answer-awaited-IsWorker g line payload key w (some (ref, p)) v e = elim (Bool-cases p.cancelled) [
    | inl yes' ↦ simp yes' (take_out-IsWorker key ref w v (lookup-awaited key g w ref p e).0)
    | inr no' ↦
        simp no'
          (answer-IsWorker (response_line line) key ref w v (lookup-awaited key g w ref p e).0)
  ]

  deliver_id-IsWorker :
      {limit : ℕ} (g : ℕ) (line : Bytes) (payload : Fields) (w : Worker) (m : Option Json)
      → IsWorker limit w
      → IsWorker limit (deliver_id c g line payload w m)
  unfolding deliver_id
  deliver_id-IsWorker g line payload w none v = pass_on-IsWorker g payload line w v
  deliver_id-IsWorker g line payload w (some id) v =
      answer-awaited-IsWorker g line payload (request_key c id) w _ v refl

  deliver_payload-IsWorker :
      {limit : ℕ} (g : ℕ) (line : Bytes) (payload : Fields) (w : Worker)
      → IsWorker limit w
      → IsWorker limit (deliver_payload c g line payload w)
  unfolding deliver_payload
  deliver_payload-IsWorker g line payload w v =
      elim (Bool-cases (is_method c "notifications/napseer/requestFinished" payload)) [
        | inl done ↦ rw (done, deliver_payload) (finish_request-IsWorker g w _ v)
        | inr other ↦ rw (other, deliver_payload) (deliver_id-IsWorker g line payload w _ v)
      ]

  pub deliver_response-IsWorker :
      {limit : ℕ} (g : ℕ) (response : Bytes) (w : Worker)
      → IsWorker limit w
      → IsWorker limit (deliver_response c g response w).1
  unfolding deliver_response
  deliver_response-IsWorker g response w v = elim (Option-cases (parse_message c response)) [
    | inl e ↦ rw (e, deliver_response) v
    | inr (payload, e) ↦ rw (e, deliver_response) (deliver_payload-IsWorker g _ payload w v)
  ]

  wait_reply-IsWorker :
      {limit : ℕ} (ref : ℕ) (p : PendingRequest) (r : Option Reply) (alive taken : Bool)
      (w : Worker)
      → IsWorker limit w
      → IsWorker limit (wait_reply c ref p r alive taken w).1
  unfolding wait_reply
  wait_reply-IsWorker ref p (some (response_line line)) alive taken w v = v
  wait_reply-IsWorker ref p (some unavailable) alive taken w v = v
  wait_reply-IsWorker ref p (some cancelled_reply) alive taken w v = v
  wait_reply-IsWorker ref p none alive taken w v =
      elim (Bool-cases (request_method c p.message =? "initialize")) [
        | inl first ↦ rw (first, wait_reply) (expire_cancelled-IsWorker c ref w v)
        | inr other ↦
            rw (other, wait_reply)
              (cancel-IsWorker (request_id c p.message) (some ref) alive taken w v)
      ]

  pub wait-IsWorker :
      {limit : ℕ} (ref : ℕ) (alive taken : Bool) (w : Worker)
      → IsWorker limit w
      → IsWorker limit (wait c ref alive taken w).1
  unfolding wait
  wait-IsWorker ref alive taken w v = elim (Option-cases (get_elem? w.objects ref)) [
    | inl e ↦ rw (e, wait) v
    | inr (p, e) ↦
        rw (e, wait)
          (wait_reply-IsWorker ref p p.response alive taken _ (
            modify-IsWorker c (emptied c) ref w
              (record { key = λ q. refl; generation = λ q. refl; quiet = λ q h k. refl }) v))
  ]
