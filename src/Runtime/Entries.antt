-- ===== src/Runtime/Entries.antt =====
-- The table of requests after a new request, and after the end of one.
use native.Mathlib.Decide.{ℕ_discrete}
use nap_cli.Prelude.{
  ℕ, suc, ◌≤◌, ◌≡◌, ◌≢◌, refl, sym, ap, ◌∙◌, ◌⊎◌, zero, ◌=?◌, inl, inr, Option, none, some, List,
  [], ◌∷◌, ◌++◌, arith, length, get_elem?, modify, Bytes, Bool-cases, ℕ_eq, list_eq,
  get_elem?-modify_self, get_elem?-modify_ne, get_elem?-append_old, get_elem?-append_new,
}
use nap_cli.Prelude.Dict.{
  Dict, lookup, insert, erase, lookup-insert, lookup-insert_self, lookup-insert_ne,
  lookup-erase_self, lookup-erase_ne, erase-NodupKeys, insert-NodupKeys, length-erase,
  length-insert,
}
use nap_cli.Runtime.Dispatch.{Request, Setting, key_of, limit, finish}
use nap_cli.Runtime.Table.{IsLive, IsTable, some_inj, ref_inj}

module _ (c : Setting) where
  erased :
      (j k : Bytes) (v : ℕ) (d : Dict Bytes ℕ)
      → lookup j (erase k d) ≡ some v
      → (j ≢ k) × (lookup j d ≡ some v)
  erased j k v d h = (other, sym (lookup-erase_ne j k d other) ∙ h)
    where
      none≢some : ◌≡◌ {A = Option ℕ} none (some v) → ⊥
      none≢some e = cc

      other : j ≢ k
      other e =
          none≢some
            (sym (lookup-erase_self k d) ∙ ap (λ (i : Bytes). lookup i (erase k d)) (sym e) ∙ h)

  -- The entry of a request that is done is taken out.
  pub finish-IsTable :
      (ref : ℕ) (q : Request) (objects : List Request) (requests : Dict Bytes ℕ)
      → get_elem? objects ref ≡ some q
      → IsLive q.stage
      → IsTable c objects requests
      → IsTable c (modify finish ref objects) (erase (key_of c q.message) requests)
  finish-IsTable ref q objects requests at live t = record {
    nodup = erase-NodupKeys (key_of c q.message) requests t.nodup;
    bounded = omega (arith, t.bounded, length-erase (key_of c q.message) requests);
    listed = λ key i h.
        (let (other, here) = erased key (key_of c q.message) i requests h in
          listed_after key i other (t.listed key i here));
    held = λ i p there alive. elim (ℕ_discrete ref i) [
      | yes e ↦ absurd (gone p (ap (get_elem? (modify finish ref objects)) e ∙ there) alive)
      | no ne ↦ held_after i p ne (sym (get_elem?-modify_ne finish ref i objects ne) ∙ there) alive
    ];
  }
    where
      listed_after :
          (key : Bytes) (i : ℕ)
          → key ≢ key_of c q.message
          → ((p : Request) × (get_elem? objects i ≡ some p)
              × (key_of c p.message ≡ key)
              × IsLive p.stage)
          → (p : Request) × (get_elem? (modify finish ref objects) i ≡ some p)
            × (key_of c p.message ≡ key)
            × IsLive p.stage
      listed_after key i other (p, there, same, alive) =
          let ne : ref ≢ i = λ e. other (
            sym same
            ∙ ap (λ (r : Request). key_of c r.message)
                (some_inj p q (sym there ∙ ap (get_elem? objects) (sym e) ∙ at))) in
          (p, get_elem?-modify_ne finish ref i objects ne ∙ there, same, alive)

      gone : (p : Request) → get_elem? (modify finish ref objects) ref ≡ some p → IsLive p.stage → ⊥
      gone p there alive =
          let e =
            some_inj (finish q) p (sym (get_elem?-modify_self finish ref objects q at) ∙ there) in
          rw (← e) at alive

      held_after :
          (i : ℕ) (p : Request)
          → ref ≢ i
          → get_elem? objects i ≡ some p
          → IsLive p.stage
          → lookup (key_of c p.message) (erase (key_of c q.message) requests) ≡ some i
      held_after i p ne there alive =
          let here = t.held i p there alive in
          let other : key_of c p.message ≢ key_of c q.message = λ e. ne (
            ref_inj ref i (
              sym (t.held ref q at live) ∙ ap (λ (k : Bytes). lookup k requests) (sym e) ∙ here)) in
          lookup-erase_ne (key_of c p.message) (key_of c q.message) requests other ∙ here

  -- What stands at a number after an addition.
  append_origin :
      (objects : List Request) (new : Request) (i : ℕ) (p : Request)
      → get_elem? (objects ++ new ∷ []) i ≡ some p
      → (get_elem? objects i ≡ some p) ⊎ ((i ≡ length objects) × (p ≡ new))
  append_origin [] new zero p h = inr (refl, sym (some_inj new p h))
  append_origin [] new (suc i) p h = inl h
  append_origin (o ∷ objects) new zero p h = inl h
  append_origin (o ∷ objects) new (suc i) p h = elim (append_origin objects new i p h) [
    | inl e ↦ inl e
    | inr e ↦ inr (ap suc e.0, e.1)
  ]

  -- The entry of a new request.
  pub admit-IsTable :
      (new : Request) (objects : List Request) (requests : Dict Bytes ℕ)
      → lookup (key_of c new.message) requests ≡ none
      → suc (length requests) ≤ limit c
      → IsLive new.stage
      → IsTable c objects requests
      → IsTable c (objects ++ new ∷ []) (insert (key_of c new.message) (length objects) requests)
  admit-IsTable new objects requests fresh room live t = record {
    nodup = insert-NodupKeys (key_of c new.message) (length objects) requests t.nodup;
    bounded =
        omega (arith, room, length-insert (key_of c new.message) (length objects) requests fresh);
    listed = λ key i h. listed_after key i h;
    held = λ i p there alive. held_after i p (append_origin objects new i p there) alive;
  }
    where
      listed_after :
          (key : Bytes) (i : ℕ)
          → lookup key (insert (key_of c new.message) (length objects) requests) ≡ some i
          → (p : Request) × (get_elem? (objects ++ new ∷ []) i ≡ some p)
            × (key_of c p.message ≡ key)
            × IsLive p.stage
      listed_after key i h = elim (Bool-cases (key =? key_of c new.message)) [
        | inl e ↦
            (let same = (list_eq.beq_iff key (key_of c new.message)).0 e in
              let at : length objects ≡ i = ref_inj (length objects) i (
                sym (lookup-insert_self (key_of c new.message) (length objects) requests)
                ∙ ap
                    (λ (k : Bytes).
                      lookup k (insert (key_of c new.message) (length objects) requests))
                    (sym same)
                ∙ h) in
              (
                new,
                ap (get_elem? (objects ++ new ∷ [])) (sym at) ∙ get_elem?-append_new objects new,
                sym same,
                live,
              ))
        | inr e ↦
            (let old : lookup key requests ≡ some i =
                sym (lookup-insert key (key_of c new.message) (length objects) requests ∙ rw e refl)
                ∙ h in
              let (p, there, same, alive) = t.listed key i old in
              (p, get_elem?-append_old objects (new ∷ []) i p there, same, alive))
      ]

      held_after :
          (i : ℕ) (p : Request)
          → ((get_elem? objects i ≡ some p) ⊎ ((i ≡ length objects) × (p ≡ new)))
          → IsLive p.stage
          → lookup (key_of c p.message) (insert (key_of c new.message) (length objects) requests)
            ≡ some i
      held_after i p (inr e) alive =
          rw (e.1, e.0) (lookup-insert_self (key_of c new.message) (length objects) requests)
      held_after i p (inl there) alive =
          let here = t.held i p there alive in
          let other : key_of c p.message ≢ key_of c new.message =
            λ e. none≢some (sym fresh ∙ ap (λ (k : Bytes). lookup k requests) (sym e) ∙ here) in
          lookup-insert_ne (key_of c p.message) (key_of c new.message) (length objects) requests
            other
          ∙ here
        where
          none≢some : ◌≡◌ {A = Option ℕ} none (some i) → ⊥
          none≢some e = cc
