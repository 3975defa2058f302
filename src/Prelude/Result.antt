-- ===== src/Prelude/Result.antt =====
-- A Python call that returns a value or raises an exception of the type `E`.
use nap_cli.Prelude.{◌≡◌, refl, Bool, true, false}

pub data Result {ℓ} (E : Type 0) (A : Type ℓ) : Type ℓ where
  ok : A → Result E A
  raise : E → Result E A

-- `if not test: raise exception`
abbrev pub guard : {E : Type 0} → Bool → E → Result E (Unit {0})
guard false exception = raise exception
guard true exception = ok tt

-- What comes after a call runs if the call has returned.
infixl 5 ◌>>◌ ◌>>=◌
abbrev pub ◌>>=◌ {ℓ κ} :
    {A : Type ℓ} {B : Type κ} {E : Type 0} → Result E A → (A → Result E B) → Result E B
raise exception >>= rest = raise exception
ok value >>= rest = rest value

abbrev pub ◌>>◌ {κ} : {B : Type κ} {E : Type 0} → Result E (Unit {0}) → Result E B → Result E B
raise exception >> rest = raise exception
ok _ >> rest = rest

-- A chain that has returned has come through its first call.
pub bind-ok {ℓ κ} :
    {A : Type ℓ} {B : Type κ} {E : Type 0} (r : Result E A) (rest : A → Result E B) (b : B)
    → r >>= rest ≡ ok b
    → (a : A) × (r ≡ ok a) × (rest a ≡ ok b)
bind-ok (ok a) rest b h = (a, refl, h)
bind-ok {B = B} {E = E} (raise exception) rest b h = absurd (raise≢ok h)
  where
    raise≢ok : ◌≡◌ {A = Result E B} (raise exception) (ok b) → ⊥
    raise≢ok e = cc
