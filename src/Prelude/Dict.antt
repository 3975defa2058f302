-- ===== src/Prelude/Dict.antt =====
-- Python's `dict`: the items in insertion order.
use Prim.Native.Nat.{suc, ◌≤◌}
use mathlib.Core.Path.{◌≡◌, refl}
use mathlib.Core.Logic.{◌≢◌}
use mathlib.Core.Bool.{Bool, true, false}
use mathlib.Core.Option.{Option, none, some}
use mathlib.Core.List.{List, [], ◌∷◌}
use native.Mathlib.Omega.{arith}
use nap_cli.Prelude.Tests.{if◌then◌else◌}
use nap_cli.Prelude.Lists.{length}
use nap_cli.Prelude.Equality.{Eq, ◌=?◌, =?_refl}

abbrev pub Dict {ℓ κ} : Type ℓ → Type κ → Type (ℓ ⊔ κ)
Dict K V = List (K × V)

module _ {ℓ κ} {K : Type ℓ} {V : Type κ} ⦃e : Eq K⦄ where
  -- `d.get(k)`
  unfoldable pub lookup : K → Dict K V → Option V
  lookup k [] = none
  lookup k ((j, v) ∷ d) = if k =? j then some v else lookup k d

  -- `d[k] = v`
  unfoldable pub insert : K → V → Dict K V → Dict K V
  insert k v [] = (k, v) ∷ []
  insert k v ((j, w) ∷ d) = let rest = insert k v d in if k =? j then (j, v) ∷ d else (j, w) ∷ rest

  -- `d.pop(k, None)`
  unfoldable pub erase : K → Dict K V → Dict K V
  erase k [] = []
  erase k ((j, w) ∷ d) = let rest = erase k d in if k =? j then rest else (j, w) ∷ rest

  -- `k in d`
  unfoldable pub has : K → Dict K V → Bool
  unfolding lookup
  has k d = elim (lookup k d) [ none ↦ false | some _ ↦ true ]

  abbrev pub NodupKeys : Dict K V → Type κ
  NodupKeys [] = Unit
  NodupKeys ((k, _) ∷ d) = (lookup k d ≡ none) × NodupKeys d

  pub lookup-nil : (k : K) → lookup k [] ≡ none
  unfolding lookup
  lookup-nil k = refl

  pub lookup-cons :
      (j k : K) (v : V) (d : Dict K V)
      → lookup j ((k, v) ∷ d) ≡ (if j =? k then some v else lookup j d)
  unfolding lookup
  lookup-cons j k v d = refl

  pub lookup-insert :
      (j k : K) (v : V) (d : Dict K V)
      → lookup j (insert k v d) ≡ (if j =? k then some v else lookup j d)
  unfolding lookup insert
  lookup-insert j k v [] = refl
  lookup-insert j k v ((i, w) ∷ d) =
      ground (arith, lookup-insert j k v d, e.beq_iff j k, e.beq_iff k i, e.beq_iff j i)

  pub lookup-erase :
      (j k : K) (d : Dict K V) → lookup j (erase k d) ≡ (if j =? k then none else lookup j d)
  unfolding lookup erase
  lookup-erase j k [] = ground arith
  lookup-erase j k ((i, w) ∷ d) =
      ground (arith, lookup-erase j k d, e.beq_iff j k, e.beq_iff k i, e.beq_iff j i)

  pub erase-NodupKeys : (k : K) (d : Dict K V) → NodupKeys d → NodupKeys (erase k d)
  unfolding erase
  erase-NodupKeys k [] u = tt
  erase-NodupKeys k ((j, w) ∷ d) u = ground (arith, erase-NodupKeys k d u.1, lookup-erase j k d)

  pub insert-NodupKeys : (k : K) (v : V) (d : Dict K V) → NodupKeys d → NodupKeys (insert k v d)
  unfolding insert
  insert-NodupKeys k v [] u = (lookup-nil k, tt)
  insert-NodupKeys k v ((j, w) ∷ d) u =
      ground
        (arith, insert-NodupKeys k v d u.1, lookup-insert j k v d, e.beq_iff k j, e.beq_iff j k)

  pub length-erase : (k : K) (d : Dict K V) → length (erase k d) ≤ length d
  unfolding erase
  length-erase k [] = omega arith
  length-erase k ((j, w) ∷ d) = ground (arith, length-erase k d)

  pub length-insert :
      (k : K) (v : V) (d : Dict K V) → lookup k d ≡ none → length (insert k v d) ≡ suc (length d)
  unfolding insert lookup
  length-insert k v [] h = refl
  length-insert k v ((j, w) ∷ d) h = ground (arith, length-insert k v d)

  pub lookup-insert_self : (k : K) (v : V) (d : Dict K V) → lookup k (insert k v d) ≡ some v
  lookup-insert_self k v d = ground (arith, lookup-insert k k v d, =?_refl k)

  pub lookup-insert_ne :
      (j k : K) (v : V) (d : Dict K V) → j ≢ k → lookup j (insert k v d) ≡ lookup j d
  lookup-insert_ne j k v d ne = ground (arith, lookup-insert j k v d, e.beq_iff j k)

  pub lookup-erase_self : (k : K) (d : Dict K V) → lookup k (erase k d) ≡ none
  lookup-erase_self k d = ground (arith, lookup-erase k k d, =?_refl k)

  pub lookup-erase_ne : (j k : K) (d : Dict K V) → j ≢ k → lookup j (erase k d) ≡ lookup j d
  lookup-erase_ne j k d ne = ground (arith, lookup-erase j k d, e.beq_iff j k)

  -- Every item has the property.
  abbrev pub AllItems {κ'} : (K → V → Type κ') → Dict K V → Type κ'
  AllItems P [] = Unit
  AllItems P ((k, v) ∷ d) = P k v × AllItems P d

  AllItems-mono {κ' κ''} :
      (P : K → V → Type κ') (Q : K → V → Type κ'') (d : Dict K V)
      → ((k : K) (v : V) → P k v → Q k v)
      → AllItems P d
      → AllItems Q d
  AllItems-mono P Q [] f a = tt
  AllItems-mono P Q ((k, v) ∷ d) f a = (f k v a.0, AllItems-mono P Q d f a.1)

  abbrev IsItem : Dict K V → K → V → Type κ
  IsItem d k v = lookup k d ≡ some v

  AllItems-lookup : (d : Dict K V) → NodupKeys d → AllItems (IsItem d) d
  unfolding lookup
  AllItems-lookup [] u = tt
  AllItems-lookup ((j, w) ∷ d) u = (
    ground (arith, =?_refl j),
    AllItems-mono (IsItem d) (IsItem ((j, w) ∷ d)) d
        (λ k v h. ground (arith, e.beq_iff k j, u.0, h)) (AllItems-lookup d u.1),
  )

  -- What holds of every key that is looked up holds of every item.
  pub AllItems-of_lookup {κ'} :
      (P : K → V → Type κ') (d : Dict K V)
      → NodupKeys d
      → ((k : K) (v : V) → lookup k d ≡ some v → P k v)
      → AllItems P d
  AllItems-of_lookup P d u f = AllItems-mono (IsItem d) P d f (AllItems-lookup d u)

  pub lookup-none_of_has : (k : K) (d : Dict K V) → has k d ≡ false → lookup k d ≡ none
  unfolding has
  lookup-none_of_has k d h = ground arith

  pub lookup-some_of_has : (k : K) (d : Dict K V) → has k d ≡ true → (v : V) × (lookup k d ≡ some v)
  unfolding has
  lookup-some_of_has k d h = ground arith
