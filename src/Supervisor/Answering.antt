-- ===== src/Supervisor/Answering.antt =====
-- What becomes of the lines that a worker process prints.
use nap_cli.Prelude.{
  ℕ, ◌≡◌, ◌≢◌, refl, inl, inr, Bool, true, false, Option, none, some, arith, get_elem?,
  modify-modify, ℕ_eq, list_eq, string_eq, Bool-cases, Option-cases, get_elem?-modify_self,
}
use nap_cli.Prelude.Dict.{lookup, lookup-erase_self, lookup-erase_ne}
use nap_cli.Prelude.Json.{Json, Fields, get}
use nap_cli.Prelude.Result.{ok}
use nap_cli.Supervisor.Message.{Bytes, Config, request_key, with_newline, parse_message, is_method}
use nap_cli.Supervisor.Worker.{
  Reply, response_line, cancelled_reply, unavailable, PendingRequest, Worker, put_nowait,
  stop_timer, signal,
}
use nap_cli.Supervisor.Requests.{
  awaited, take_out, finish_awaited, finish_request, pass_on, answer, deliver_id, deliver_payload,
  deliver_response, wait_reply, wait,
}
use nap_cli.Supervisor.Invariant.{IsWorker}

-- The line of a process is a response with this id.
pub record IsResponse (c : Config) (response : Bytes) (id : Json) : Type 0 where
  pub payload : Fields
  pub parsed : parse_message c response ≡ some payload
  pub plain : is_method c "notifications/napseer/requestFinished" payload ≡ false
  pub id_of : get "id" payload ≡ some id

module _ (c : Config) where
  deliver-answer :
      (g : ℕ) (response : Bytes) (id : Json) (w : Worker) (r : IsResponse c response id)
      → (deliver_response c g response w).1
        ≡ answer c g
            (with_newline response)
            r.payload
            (request_key c id)
            w
            (awaited c (request_key c id) g w)
  unfolding deliver_response deliver_payload deliver_id
  deliver-answer g response id w r =
      rw (r.parsed, deliver_response) (rw (r.plain, deliver_payload) (rw r.id_of))

  awaited_of :
      (key : Bytes) (g : ℕ) (w : Worker) (ref : ℕ) (p : PendingRequest)
      → lookup key w.pending ≡ some ref
      → get_elem? w.objects ref ≡ some p
      → p.generation ≡ g
      → awaited c key g w ≡ some (ref, p)
  awaited_of key g w ref p l at gen = ground (arith, l, at, gen)

  wait_told :
      (ref : ℕ) (reply : Reply) (p : PendingRequest) (alive taken : Bool) (w : Worker)
      → get_elem? w.objects ref ≡ some p
      → p.response ≡ some reply
      → (wait c ref alive taken w).0 ≡ (wait_reply c ref p (some reply) alive taken w).0
  unfolding wait wait_reply
  wait_told ref (response_line line) p alive taken w at told = rw (at, wait) (simp told)
  wait_told ref unavailable p alive taken w at told = rw (at, wait) (simp told)
  wait_told ref cancelled_reply p alive taken w at told = rw (at, wait) (simp told)

  answer-live :
      (g : ℕ) (line : Bytes) (payload : Fields) (key : Bytes) (w : Worker) (ref : ℕ)
      (p : PendingRequest)
      → p.cancelled ≡ false
      → answer c g line payload key w (some (ref, p))
        ≡ signal (response_line line) ref (take_out c key ref w)
  unfolding answer
  answer-live g line payload key w ref p live = simp live

  answer-dropped :
      (g : ℕ) (line : Bytes) (payload : Fields) (key : Bytes) (w : Worker) (ref : ℕ)
      (p : PendingRequest)
      → p.cancelled ≡ true
      → answer c g line payload key w (some (ref, p)) ≡ take_out c key ref w
  unfolding answer
  answer-dropped g line payload key w ref p gone = simp gone

  -- A worker whose queue for the request holds the line, and whose table lacks the key.
  signalled :
      (line : Bytes) (key : Bytes) (w : Worker) (ref : ℕ) (p : PendingRequest) (alive taken : Bool)
      → get_elem? w.objects ref ≡ some p
      → p.response ≡ none
      → let t = signal (response_line line) ref (take_out c key ref w) in
        ((wait c ref alive taken t).0 ≡ ok (some line))
        × (lookup key t.pending ≡ none)
        × ((k : Bytes) → k ≢ key → lookup k t.pending ≡ lookup k w.pending)
  unfolding signal take_out wait_reply
  signalled line key w ref p alive taken at quiet = (
    wait_told ref (response_line line) (put_nowait (response_line line) (stop_timer p)) alive taken
        _ (rw modify-modify (get_elem?-modify_self _ ref w.objects p at)) (ground (arith, quiet)),
    lookup-erase_self key w.pending,
    λ k ne. lookup-erase_ne k key w.pending ne,
  )

  -- In a worker that satisfies the invariant, the response of the current process to an unfinished
  -- request that was not cancelled takes it out of the table, and whoever waits for the request is given the line, ended by a newline. The other
  -- requests stay in the table.
  pub response_reaches_waiter :
      {limit : ℕ} (response : Bytes) (id : Json) (ref : ℕ) (p : PendingRequest) (alive taken : Bool)
      (w : Worker)
      → IsWorker limit w
      → IsResponse c response id
      → lookup (request_key c id) w.pending ≡ some ref
      → get_elem? w.objects ref ≡ some p
      → p.cancelled ≡ false
      → let t = (deliver_response c w.generation response w).1 in
        ((wait c ref alive taken t).0 ≡ ok (some (with_newline response)))
        × (lookup (request_key c id) t.pending ≡ none)
        × ((key : Bytes) → key ≢ request_key c id → lookup key t.pending ≡ lookup key w.pending)
  response_reaches_waiter response id ref p alive taken w v r l at live =
      rw (deliver-answer w.generation response id w r) (
        rw (awaited_of (request_key c id) w.generation w ref p l at facts.0) (
          rw
            (answer-live w.generation (with_newline response) r.payload (request_key c id) w ref p
              live)
            (signalled (with_newline response) (request_key c id) w ref p alive taken at facts.1)))
    where
      facts : (p.generation ≡ w.generation) × (p.response ≡ none)
      facts =
          let (q, at', _, gen, quiet) = v.entries (request_key c id) ref l in
          (ground (arith, at, at', gen), ground (arith, at, at', quiet, live))

  -- In a worker that satisfies the invariant, the response to a cancelled request frees its place in the table and reaches no one: the queue
  -- keeps what it held, and nothing is passed on to the client.
  pub response_after_cancel :
      {limit : ℕ} (response : Bytes) (id : Json) (ref : ℕ) (p : PendingRequest) (w : Worker)
      → IsWorker limit w
      → IsResponse c response id
      → lookup (request_key c id) w.pending ≡ some ref
      → get_elem? w.objects ref ≡ some p
      → p.cancelled ≡ true
      → let t = (deliver_response c w.generation response w).1 in
        (lookup (request_key c id) t.pending ≡ none)
        × (get_elem? t.objects ref ≡ some (stop_timer p))
        × (t.emitted ≡ w.emitted)
  response_after_cancel response id ref p w v r l at gone =
      rw (deliver-answer w.generation response id w r) (
        rw (awaited_of (request_key c id) w.generation w ref p l at gen) (
          rw
            (answer-dropped w.generation (with_newline response) r.payload (request_key c id) w ref
              p gone)
            (unfold take_out in
              (
                lookup-erase_self (request_key c id) w.pending,
                get_elem?-modify_self stop_timer ref w.objects p at,
                refl,
              ))))
    where
      gen : p.generation ≡ w.generation
      gen = let (q, at', _, g, _) = v.entries (request_key c id) ref l in ground (arith, at, at', g)

  awaited_stale :
      {limit : ℕ} (key : Bytes) (g : ℕ) (w : Worker)
      → IsWorker limit w
      → g ≢ w.generation
      → awaited c key g w ≡ none
  awaited_stale key g w v old = elim (Option-cases (lookup key w.pending)) [
    | inl e ↦ ground (arith, e)
    | inr (ref, e) ↦ let (p, at, _, gen, _) = v.entries key ref e in ground (arith, e, at, gen, old)
  ]

  stale_finish :
      {limit : ℕ} (g : ℕ) (w : Worker) (m : Option Json)
      → IsWorker limit w
      → g ≢ w.generation
      → finish_request c g w m ≡ w
  unfolding finish_request finish_awaited
  stale_finish g w none v old = refl
  stale_finish g w (some value) v old = rw (awaited_stale (request_key c value) g w v old)

  stale_pass :
      (g : ℕ) (payload : Fields) (line : Bytes) (w : Worker)
      → g ≢ w.generation
      → pass_on c g payload line w ≡ w
  unfolding pass_on
  stale_pass g payload line w old = ground arith

  stale_id :
      {limit : ℕ} (g : ℕ) (line : Bytes) (payload : Fields) (w : Worker) (m : Option Json)
      → IsWorker limit w
      → g ≢ w.generation
      → deliver_id c g line payload w m ≡ w
  unfolding deliver_id answer
  stale_id g line payload w none v old = stale_pass g payload line w old
  stale_id g line payload w (some id) v old =
      rw (awaited_stale (request_key c id) g w v old) (stale_pass g payload line w old)

  -- Whatever a process that was replaced still prints changes nothing in a worker that satisfies
  -- the invariant: it answers no request of
  -- the process that took its place, even one with the same id, and none of it reaches the client.
  pub stale_process_ignored :
      {limit : ℕ} (g : ℕ) (response : Bytes) (w : Worker)
      → IsWorker limit w
      → g ≢ w.generation
      → (deliver_response c g response w).1 ≡ w
  unfolding deliver_response deliver_payload
  stale_process_ignored g response w v old = elim (Option-cases (parse_message c response)) [
    | inl e ↦ rw (e, deliver_response) refl
    | inr (payload, e) ↦
        elim (Bool-cases (is_method c "notifications/napseer/requestFinished" payload)) [
          | inl done ↦
              rw (e, deliver_response) (rw (done, deliver_payload) (stale_finish g w _ v old))
          | inr other ↦
              rw (e, deliver_response)
                (rw (other, deliver_payload) (stale_id g (with_newline response) payload w _ v old))
        ]
  ]
