-- ===== src/Supervisor/Moves.antt =====
-- Changes of the shared worker that keep what holds of it.
use native.Mathlib.Decide.{ℕ_discrete}
use nap_cli.Prelude.{
  ℕ, ◌≤◌, ◌≡◌, refl, sym, ◌∙◌, ap, inl, inr, false, Option, none, some, List, [], ◌∷◌, arith,
  length, get_elem?, modify, ℕ_eq, list_eq, list_beq_iff, Bool-cases, Option-cases, ◌≢◌,
  get_elem?-modify_self, get_elem?-modify_ne, ◌=?◌,
}
use nap_cli.Prelude.Dict.{Dict, lookup, NodupKeys}
use nap_cli.Supervisor.Message.{Bytes}
use nap_cli.Supervisor.Worker.{PendingRequest, stop_timer, of_generation}
use nap_cli.Supervisor.Sections.{Shared, left, timers_stopped, pop_section}
use nap_cli.Supervisor.Interleaved.{IsPlaced, IsItem, IsShared}

-- Some items leave the table, and the others are still in place.
pub moves :
    {limit : ℕ} (s t : Shared)
    → IsShared limit s
    → t.worker.objects ≡ s.worker.objects
    → s.worker.generation ≤ t.worker.generation
    → NodupKeys t.worker.pending
    → length t.worker.pending ≤ length s.worker.pending
    → ((key : Bytes) (ref : ℕ) (p : PendingRequest)
        → lookup key t.worker.pending ≡ some ref
        → get_elem? s.worker.objects ref ≡ some p
        → p.key ≡ key
        → IsPlaced s ref p
        → IsPlaced t ref p)
    → ((key : Bytes) (ref : ℕ)
        → lookup key t.worker.pending ≡ some ref
        → lookup key s.worker.pending ≡ some ref)
    → ((g : ℕ) → t.worker.process ≡ some g → g ≡ t.worker.generation)
    → ((g : ℕ) → t.stopping ≡ some g → (g ≡ t.worker.generation) × (t.worker.process ≡ none))
    → IsShared limit t
moves {limit} s t v same grows nodup shorter placed kept current halting = record {
  nodup = nodup;
  bounded = omega (arith, v.bounded, shorter);
  items = item;
  current = current;
  halting = halting;
}
  where
    item : (key : Bytes) (ref : ℕ) → lookup key t.worker.pending ≡ some ref → IsItem t key ref
    item key ref h =
        let (p, at, k, quiet, old, place) = v.items key ref (kept key ref h) in
        (
          p,
          ap (λ os. get_elem? os ref) same ∙ at,
          k,
          quiet,
          omega (arith, old, grows),
          placed key ref p h at k place,
        )

-- What a change of a request of the table may do.
abbrev pub IsKept : (PendingRequest → PendingRequest) → PendingRequest → Type 0
IsKept f p =
    ((f p).key ≡ p.key)
    × ((f p).generation ≡ p.generation)
    × ((p.cancelled ≡ false → p.response ≡ none) → (f p).cancelled ≡ false → (f p).response ≡ none)

abbrev pub with_objects : List PendingRequest → Shared → Shared
with_objects objects s = record s { worker = record s.worker { objects = objects } }

pub modifies :
    {limit : ℕ} (f : PendingRequest → PendingRequest) (i : ℕ) (s : Shared)
    → IsShared limit s
    → ((p : PendingRequest)
        → get_elem? s.worker.objects i ≡ some p
        → lookup p.key s.worker.pending ≡ some i
        → IsKept f p)
    → IsShared limit (with_objects (modify f i s.worker.objects) s)
modifies {limit} f i s v keeps = record {
  nodup = v.nodup;
  bounded = v.bounded;
  items = item;
  current = v.current;
  halting = v.halting;
}
  where
    item :
        (key : Bytes) (ref : ℕ)
        → lookup key s.worker.pending ≡ some ref
        → IsItem (with_objects (modify f i s.worker.objects) s) key ref
    item key ref h =
        let (p, at, k, quiet, old, place) = v.items key ref h in
        elim (ℕ_discrete i ref) [
          | no differ ↦
              (p, get_elem?-modify_ne f i ref s.worker.objects differ ∙ at, k, quiet, old, place)
          | yes same ↦
              let (same_key, same_generation, still) =
                keeps p (ap (get_elem? s.worker.objects) same ∙ at)
                  (ap (λ x. lookup x s.worker.pending) k ∙ h ∙ ap some (sym same)) in
              (
                f p,
                rw same (get_elem?-modify_self f ref s.worker.objects p at),
                same_key ∙ k,
                still quiet,
                rw same_generation old,
                rw same_generation place,
              )
        ]

-- What a `_fail_generation` leaves.
lookup-left :
    (g : ℕ) (items : Dict Bytes ℕ) (objects : List PendingRequest) (key : Bytes) (ref : ℕ)
    → NodupKeys items
    → lookup key (left g items objects) ≡ some ref
    → (lookup key items ≡ some ref) × (of_generation g (get_elem? objects ref) ≡ false)
unfolding left lookup
lookup-left g [] objects key ref u h = ground (arith, h)
lookup-left g ((k, r) ∷ items) objects key ref u h =
    elim (Bool-cases (of_generation g (get_elem? objects r))) [
      | inl hit ↦
          let (old, other) = lookup-left g items objects key ref u.1 (rw hit at h) in
          (ground (arith, old, u.0, list_beq_iff key k), other)
      | inr miss ↦ elim (Bool-cases (key =? k)) [
        | inl same ↦
            (rw same (rw same at (rw miss at h)), ground (arith, rw same at (rw miss at h), miss))
        | inr differ ↦
            let (old, other) =
              lookup-left g items objects key ref u.1 (rw differ at (rw miss at h)) in
            (rw differ old, other)
      ]
    ]

left-NodupKeys :
    (g : ℕ) (items : Dict Bytes ℕ) (objects : List PendingRequest)
    → NodupKeys items
    → NodupKeys (left g items objects)
unfolding left
left-NodupKeys g [] objects u = tt
left-NodupKeys g ((k, r) ∷ items) objects u =
    elim (Bool-cases (of_generation g (get_elem? objects r))) [
      | inl hit ↦ rw hit (left-NodupKeys g items objects u.1)
      | inr miss ↦ rw miss (absent, left-NodupKeys g items objects u.1)
    ]
  where
    absent : lookup k (left g items objects) ≡ none
    absent = elim (Option-cases (lookup k (left g items objects))) [
      | inl e ↦ e
      | inr (ref, e) ↦ absurd (ground (arith, u.0, (lookup-left g items objects k ref u.1 e).0))
    ]

length-left :
    (g : ℕ) (items : Dict Bytes ℕ) (objects : List PendingRequest)
    → length (left g items objects) ≤ length items
unfolding left
length-left g [] objects = omega arith
length-left g ((k, r) ∷ items) objects = ground (arith, length-left g items objects)

stops_timers :
    {limit : ℕ} (g : ℕ) (items : Dict Bytes ℕ) (s : Shared)
    → IsShared limit s
    → IsShared limit (with_objects (timers_stopped g items s.worker.objects) s)
unfolding timers_stopped
stops_timers g [] s v = v
stops_timers {limit} g ((k, r) ∷ items) s v =
    elim (Bool-cases (of_generation g (get_elem? s.worker.objects r))) [
      | inl hit ↦ rw hit (
          modifies stop_timer r (with_objects (timers_stopped g items s.worker.objects) s)
            (stops_timers g items s v) (λ p at h. (refl, refl, λ quiet. quiet)))
      | inr miss ↦ rw miss (stops_timers g items s v)
    ]

-- Popping a generation, while the worker is let go on as it was or its `_stop_locked` ends.
pub pops :
    {limit : ℕ} (g : ℕ) (s : Shared) (stopping : Option ℕ)
    → IsShared limit s
    → ((ref : ℕ) (p : PendingRequest)
        → get_elem? s.worker.objects ref ≡ some p
        → p.generation ≢ g
        → IsPlaced s ref p
        → IsPlaced (record s { stopping = stopping }) ref p)
    → ((h : ℕ) → stopping ≡ some h → (h ≡ s.worker.generation) × (s.worker.process ≡ none))
    → IsShared limit (record (pop_section g s) { stopping = stopping })
unfolding pop_section
pops {limit} g s stopping v placed halting = stops_timers g s.worker.pending t vt
  where
    t : Shared
    t = record s {
      worker = record s.worker { pending = left g s.worker.pending s.worker.objects };
      stopping = stopping;
    }

    vt : IsShared limit t
    vt =
        moves s t v refl (omega arith) (left-NodupKeys g s.worker.pending s.worker.objects v.nodup)
          (length-left g s.worker.pending s.worker.objects)
          (λ key ref p h at k place.
            placed ref p at
              (λ same. ground (
                arith,
                same,
                at,
                (lookup-left g s.worker.pending s.worker.objects key ref v.nodup h).1,
              ))
              place)
          (λ key ref h. (lookup-left g s.worker.pending s.worker.objects key ref v.nodup h).0)
          v.current halting
