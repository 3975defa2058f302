-- ===== src/Runtime/Table.antt =====
-- What holds of the table of requests, whatever the order of the calls, the threads and `close`.
use native.Mathlib.Decide.{ℕ_discrete}
use nap_cli.Prelude.{
  ℕ, suc, ◌≤◌, ◌≡◌, refl, sym, ap, ◌∙◌, ◌⊎◌, zero, inl, inr, Option, none, some, List, [], ◌∷◌,
  length, get_elem?, modify, Bytes, ℕ_eq, list_eq, get_elem?-modify_self, get_elem?-modify_ne,
}
use nap_cli.Prelude.Dict.{Dict, lookup, NodupKeys}
use nap_cli.Runtime.Dispatch.{Stage, finished, Request, Setting, key_of, limit}

-- A request whose entry has not been taken out.
abbrev pub IsLive : Stage → Type 0
IsLive finished = ⊥
IsLive stage = Unit

-- The table has one entry for each id, no more than it may, each for a live request of that id, and
-- each live request has its entry.
pub record IsTable (c : Setting) (objects : List Request) (requests : Dict Bytes ℕ) : Type 0 where
  pub nodup : NodupKeys requests
  pub bounded : length requests ≤ limit c
  pub listed :
      (key : Bytes) (ref : ℕ)
      → lookup key requests ≡ some ref
      → (q : Request) × (get_elem? objects ref ≡ some q)
        × (key_of c q.message ≡ key)
        × IsLive q.stage
  pub held :
      (ref : ℕ) (q : Request)
      → get_elem? objects ref ≡ some q
      → IsLive q.stage
      → lookup (key_of c q.message) requests ≡ some ref

-- A change of a request that keeps its message and whether it is live.
pub record Keeps (f : Request → Request) : Type 0 where
  pub message : (q : Request) → (f q).message ≡ q.message
  pub stays : (q : Request) → IsLive q.stage → IsLive (f q).stage
  pub was : (q : Request) → IsLive (f q).stage → IsLive q.stage

pub some_inj : (a b : Request) → some a ≡ some b → a ≡ b
some_inj a b e = cc

pub ref_inj : (a b : ℕ) → some a ≡ some b → a ≡ b
ref_inj a b e = cc

-- What stood at a number before a change.
modify_origin :
    (f : Request → Request) (i j : ℕ) (objects : List Request) (q : Request)
    → get_elem? (modify f i objects) j ≡ some q
    → (p : Request) × (get_elem? objects j ≡ some p) × ((q ≡ p) ⊎ ((i ≡ j) × (q ≡ f p)))
modify_origin f i j [] q h = absurd (none≢some h)
  where
    none≢some : ◌≡◌ {A = Option Request} none (some q) → ⊥
    none≢some e = cc
modify_origin f zero zero (p ∷ objects) q h = (p, refl, inr (refl, sym (some_inj (f p) q h)))
modify_origin f zero (suc j) (p ∷ objects) q h = (q, h, inl refl)
modify_origin f (suc i) zero (p ∷ objects) q h = (q, h, inl refl)
modify_origin f (suc i) (suc j) (p ∷ objects) q h =
    let (o, at, how) = modify_origin f i j objects q h in
    (o, at, elim how [ inl e ↦ inl e | inr e ↦ inr (ap suc e.0, e.1) ])

module _ (c : Setting) where
  pub modify-IsTable :
      (f : Request → Request)
      → Keeps f
      → (i : ℕ) (objects : List Request) (requests : Dict Bytes ℕ) → IsTable c objects requests
      → IsTable c (modify f i objects) requests
  modify-IsTable f keeps i objects requests t = record {
    nodup = t.nodup;
    bounded = t.bounded;
    listed = λ key ref h. listed_after key ref (t.listed key ref h);
    held = λ ref q at live. held_after ref q (modify_origin f i ref objects q at) live;
  }
    where
      listed_after :
          (key : Bytes) (ref : ℕ)
          → ((q : Request) × (get_elem? objects ref ≡ some q)
              × (key_of c q.message ≡ key)
              × IsLive q.stage)
          → (q : Request) × (get_elem? (modify f i objects) ref ≡ some q)
            × (key_of c q.message ≡ key)
            × IsLive q.stage
      listed_after key ref (q, at, same, live) = elim (ℕ_discrete i ref) [
        | yes e ↦ (
          f q,
          rw e (get_elem?-modify_self f ref objects q at),
          ap (key_of c) (keeps.message q) ∙ same,
          keeps.stays q live,
        )
        | no ne ↦ (q, get_elem?-modify_ne f i ref objects ne ∙ at, same, live)
      ]

      held_after :
          (ref : ℕ) (q : Request)
          → ((p : Request) × (get_elem? objects ref ≡ some p) × ((q ≡ p) ⊎ ((i ≡ ref) × (q ≡ f p))))
          → IsLive q.stage
          → lookup (key_of c q.message) requests ≡ some ref
      held_after ref q (p, at, inl e) live = rw e (t.held ref p at (rw e at live))
      held_after ref q (p, at, inr e) live =
          rw (e.1) (rw (keeps.message p) (t.held ref p at (keeps.was p (rw (e.1) at live))))
