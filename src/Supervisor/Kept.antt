-- ===== src/Supervisor/Kept.antt =====
-- Sections of the threads that keep what holds of the shared worker.
use nap_cli.Prelude.{
  ℕ, ◌≤◌, ◌≡◌, ◌⊎◌, refl, ◌∙◌, ap, inl, inr, Bool, true, Option, none, some, [], ◌∷◌, ◌++◌, arith,
  ◌==◌, leb, length, get_elem?, ℕ_eq, list_eq, list_beq_iff, string_eq, ◌=?◌, Bool-cases,
  get_elem?-append_old, get_elem?-append_new,
}
use nap_cli.Prelude.Dict.{
  lookup, lookup-none_of_has, insert, erase, has, lookup-insert, lookup-erase, insert-NodupKeys,
  erase-NodupKeys, length-insert, length-erase,
}
use nap_cli.Supervisor.Message.{Bytes, Config, request_key, request_id}
use nap_cli.Supervisor.Worker.{PendingRequest, Spawn, launch, stop_timer}
use nap_cli.Supervisor.Requests.{new_request, admit, withdraw, same_ref}
use nap_cli.Supervisor.Sections.{
  Shared, Phase, admitted, settled, is_unwritten, set_phase, admit_section, withdraw_section,
  take_section, clear_section, fail_section, launch_section, to_fail,
}
use nap_cli.Supervisor.Interleaved.{IsPlaced, IsItem, IsShared}
use nap_cli.Supervisor.Invariant.{launch_frame}
use nap_cli.Supervisor.Moves.{moves, modifies, pops}

-- Another phase of one request, if it is in place with it.
pub phases :
    {limit : ℕ} (s : Shared) (ref : ℕ) (x : Phase)
    → IsShared limit s
    → ((p : PendingRequest)
        → get_elem? s.worker.objects ref ≡ some p
        → lookup p.key s.worker.pending ≡ some ref
        → IsPlaced s ref p
        → ((p.generation ≡ s.worker.generation)
            × (s.worker.process ≡ some s.worker.generation ⊎ s.stopping ≡ some s.worker.generation))
          ⊎ (is_unwritten x ≡ true))
    → IsShared limit (record s { phase = set_phase ref x s.phase })
phases s ref x v placed =
    moves s (record s { phase = set_phase ref x s.phase }) v refl (omega arith) v.nodup
      (omega arith)
      (λ key r p h at k place. elim (Bool-cases (r == ref)) [
        | inl same ↦
            let e : r ≡ ref = ground (arith, same) in
            rw same (
              placed p (rw e at at) (ap (λ x. lookup x s.worker.pending) k ∙ h ∙ ap some e)
                (rw e at place))
        | inr differ ↦ rw differ place
      ])
      (λ key r h. h) v.current v.halting

-- A key is taken out of the table.
erases :
    {limit : ℕ} (key : Bytes) (s : Shared)
    → IsShared limit s
    → IsShared limit
        (record s { worker = record s.worker { pending = erase key s.worker.pending } })
erases key s v =
    moves s (record s { worker = record s.worker { pending = erase key s.worker.pending } }) v refl
      (omega arith) (erase-NodupKeys key s.worker.pending v.nodup)
      (length-erase key s.worker.pending) (λ k r p h at e place. place)
      (λ k r h. ground (arith, lookup-erase k key s.worker.pending, h)) v.current v.halting

module _ (c : Config) where
  pub admit_section-IsShared :
      (message : Bytes) (g : ℕ) (s : Shared)
      → g ≤ s.worker.generation
      → IsShared c.max_in_flight s
      → IsShared c.max_in_flight (admit_section c message g s)
  unfolding admit_section
  admit_section-IsShared message g s old v = elim (Bool-cases (has key s.worker.pending)) [
    | inl duplicate ↦ rw (duplicate, admit) v
    | inr fresh ↦ elim (Bool-cases (leb c.max_in_flight (length s.worker.pending))) [
      | inl full ↦ rw (fresh, admit) (rw full v)
      | inr room ↦
          rw (fresh, admit)
            (rw room (record {
              nodup = insert-NodupKeys key (length s.worker.objects) s.worker.pending v.nodup;
              bounded = ground (
                arith,
                length-insert key (length s.worker.objects) s.worker.pending
                    (lookup-none_of_has key s.worker.pending fresh),
              );
              items = added;
              current = v.current;
              halting = v.halting;
            }))
    ]
  ]
    where
      key : Bytes
      key = request_key c (request_id c message)

      t : Shared
      t = record s {
        worker = record s.worker {
          objects = s.worker.objects ++ new_request c message g ∷ [];
          pending = insert key (length s.worker.objects) s.worker.pending;
        };
        phase = set_phase (length s.worker.objects) admitted s.phase;
      }

      added : (k : Bytes) (ref : ℕ) → lookup k t.worker.pending ≡ some ref → IsItem t k ref
      added k ref h = elim (Bool-cases (k =? key)) [
        | inl same ↦
            let e : ref ≡ length s.worker.objects =
              ground (arith, lookup-insert k key (length s.worker.objects) s.worker.pending) in
            (
              new_request c message g,
              rw e (get_elem?-append_new s.worker.objects (new_request c message g)),
              ground (arith, list_beq_iff k key),
              λ _. refl,
              old,
              inr (ground (arith, e)),
            )
        | inr differ ↦
            let (p, at, named, quiet, older, place) =
              v.items k ref
                (ground (arith, lookup-insert k key (length s.worker.objects) s.worker.pending)) in
            (
              p,
              get_elem?-append_old s.worker.objects (new_request c message g ∷ []) ref p at,
              named,
              quiet,
              older,
              kept place,
            )
      ]
        where
          kept :
              {a : ℕ} {A : Type 0}
              → ((a ≡ s.worker.generation) × A) ⊎ (is_unwritten (s.phase ref) ≡ true)
              → ((a ≡ s.worker.generation) × A) ⊎ (is_unwritten (t.phase ref) ≡ true)
          kept (inl place) = inl place
          kept (inr place) = inr (ground (arith, place))

  pub withdraw_section-IsShared :
      {limit : ℕ} (p : PendingRequest) (ref : ℕ) (s : Shared)
      → get_elem? s.worker.objects ref ≡ some p
      → IsShared limit s
      → IsShared limit (withdraw_section c p ref s)
  unfolding withdraw_section
  withdraw_section-IsShared {limit} p ref s at v =
      elim (Bool-cases (same_ref c ref (lookup p.key s.worker.pending))) [
        | inl there ↦
            rw (there, withdraw)
              (phases t ref settled tv (λ q at' h place. absurd (erased q at' h)))
        | inr away ↦
            rw (away, withdraw)
              (phases s ref settled v (λ q at' h place. absurd (ground (arith, at, at', h, away))))
      ]
    where
      t : Shared
      t = record s { worker = record s.worker { pending = erase p.key s.worker.pending } }

      tv : IsShared limit t
      tv = erases p.key s v

      erased :
          (q : PendingRequest)
          → get_elem? s.worker.objects ref ≡ some q
          → ¬ (lookup q.key t.worker.pending ≡ some ref)
      erased q at' h =
          ground
            (arith, at, at', h, lookup-erase q.key p.key s.worker.pending, list_beq_iff q.key p.key)

  pub take_section-IsShared :
      {limit : ℕ} (key : Bytes) (ref : ℕ) (s : Shared)
      → IsShared limit s
      → IsShared limit (take_section c key ref s)
  unfolding take_section
  take_section-IsShared {limit} key ref s v =
      modifies stop_timer ref
        (record s { worker = record s.worker { pending = erase key s.worker.pending } })
        (erases key s v) (λ p at h. (refl, refl, λ quiet. quiet))

pub clear_section-IsShared :
    {limit : ℕ} (s : Shared)
    → s.stopping ≡ none
    → IsShared limit s
    → IsShared limit (clear_section s)
unfolding clear_section
clear_section-IsShared s free v =
    moves s (clear_section s) v refl (omega arith) v.nodup (omega arith)
      (λ key ref p h at k place. halted s.worker.process refl place) (λ key ref h. h)
      (λ g e. absurd (ground (arith, e))) (λ g e. (ground (arith, e), refl))
  where
    halted :
        (m : Option ℕ) {a : ℕ} {b : Bool}
        → s.worker.process ≡ m
        → ((a ≡ s.worker.generation)
            × (s.worker.process ≡ some s.worker.generation ⊎ s.stopping ≡ some s.worker.generation))
          ⊎ (b ≡ true)
        → ((a ≡ s.worker.generation)
            × (none ≡ some s.worker.generation
                ⊎ to_fail s.worker.process s.worker.generation ≡ some s.worker.generation))
          ⊎ (b ≡ true)
    halted none e place = ground (arith, e, free, place)
    halted (some q) e place = ground (arith, e, free, place)

pub fail_section-IsShared :
    {limit : ℕ} (g : ℕ) (s : Shared)
    → s.stopping ≡ some g
    → IsShared limit s
    → IsShared limit (fail_section g s)
unfolding fail_section
fail_section-IsShared g s held v =
    pops g s none v (λ ref p at other place. ground (arith, held, other, place, v.halting))
      (λ h e. absurd (ground (arith, e)))

pub launch_section-IsShared :
    {limit : ℕ} (e : Spawn) (s : Shared)
    → s.stopping ≡ none
    → s.worker.process ≡ none
    → IsShared limit s
    → IsShared limit (launch_section e s)
unfolding launch_section launch
launch_section-IsShared e s free idle v =
    let (pending, objects, _, _, current) = launch_frame e s.worker in
    moves s (record s { worker = (launch e s.worker).1 }) v objects grows (rw pending v.nodup)
      (rw pending (omega arith)) (λ key ref p h at k place. inr (ground (arith, free, idle, place)))
      (λ key ref h. rw (← pending) h) (current idle) (λ g q. absurd (ground (arith, q, free)))
  where
    grows : s.worker.generation ≤ (launch e s.worker).1.generation
    grows = ground arith
