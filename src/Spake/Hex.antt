-- ===== src/Spake/Hex.antt =====
-- What resources/scripts/napseer_spake2.py uses of Python's `bytes.hex` and `bytes.fromhex`. A text
-- is the list of its characters' codes.
use nap_cli.Prelude.{
  ℕ, ◌+◌, ◌-◌, ◌*◌, ◌/◌, ◌%◌, ◌<◌, ◌≡◌, refl, ap, Bool, true, false, ◌&&◌, ◌||◌, Option, none, some,
  List, [], ◌∷◌, inl, inr, Bool-cases, if◌then◌else◌, ltb, leb, ◌==◌, ℕ_eq, arith, Bytes, AllBytes,
}

abbrev pub Text : Type 0
Text = List ℕ

abbrev hex_digit : ℕ → ℕ
hex_digit n = if ltb n 10 then 48 + n else 87 + n

-- `bytes.hex`
unfoldable pub to_hex : Bytes → Text
to_hex [] = []
to_hex (b ∷ bytes) = hex_digit (b / 16) ∷ hex_digit (b % 16) ∷ to_hex bytes

unfoldable digit_value : ℕ → Option ℕ
digit_value c =
    if leb 48 c && leb c 57
    then some (c - 48)
    else if leb 97 c && leb c 102
    then some (c - 87)
    else if leb 65 c && leb c 70
    then some (c - 55)
    else none

is_space : ℕ → Bool
is_space c = c == 32 || (leb 9 c && leb c 13)

is_digit : Option ℕ → Bool
is_digit none = false
is_digit (some d) = true

-- A byte from its two digits, before the bytes that follow.
prepend : ℕ → Option ℕ → Option Bytes → Option Bytes
prepend high (some low) (some bytes) = some ((16 * high + low) ∷ bytes)
prepend high (some low) none = none
prepend high none rest = none

-- With the digit that waits for its second one. Space may stand between bytes.
unfoldable pub from_digits : Option ℕ → Text → Option Bytes
unfolding is_space is_digit prepend digit_value
from_digits none [] = some []
from_digits (some high) [] = none
from_digits none (c ∷ text) =
    let rest = from_digits (digit_value c) text in
    if is_space c || is_digit (digit_value c) then rest else none
from_digits (some high) (c ∷ text) = prepend high (digit_value c) (from_digits none text)

-- `bytes.fromhex`, `none` where it raises ValueError.
unfoldable pub from_hex : Text → Option Bytes
from_hex text = from_digits none text

digit_value-hex_digit : (n : ℕ) → n < 16 → digit_value (hex_digit n) ≡ some n
unfolding digit_value
digit_value-hex_digit n h = ground arith

or_true : (b : Bool) → (b || true) ≡ true
or_true true = refl
or_true false = refl

from_digits-to_hex : (bytes : Bytes) → AllBytes bytes → from_digits none (to_hex bytes) ≡ some bytes
unfolding from_digits to_hex prepend is_digit
from_digits-to_hex [] all = refl
from_digits-to_hex (b ∷ bytes) all = rw (digit_value-hex_digit (b / 16) (omega (arith, all.0))) (
    rw (or_true (is_space (hex_digit (b / 16)))) (
      rw (digit_value-hex_digit (b % 16) (omega arith))
        (rw (from_digits-to_hex bytes all.1) (ap (λ (n : ℕ). some (n ∷ bytes)) (omega arith)))))

pub from_hex-to_hex : (bytes : Bytes) → AllBytes bytes → from_hex (to_hex bytes) ≡ some bytes
unfolding from_hex
from_hex-to_hex = from_digits-to_hex

some_inj : (a b : Bytes) → some a ≡ some b → a ≡ b
some_inj a b e = cc

none≢some : {A : Type 0} (a : A) → ◌≡◌ {A = Option A} none (some a) → ⊥
none≢some a e = cc

digit_value-lt : (c d : ℕ) → digit_value c ≡ some d → d < 16
unfolding digit_value
digit_value-lt c d h = ground (arith, h)

prepend-AllBytes :
    (high : ℕ) (low : Option ℕ) (rest : Option Bytes) (raw : Bytes)
    → high < 16
    → ((d : ℕ) → low ≡ some d → d < 16)
    → ((bytes : Bytes) → rest ≡ some bytes → AllBytes bytes)
    → prepend high low rest ≡ some raw
    → AllBytes raw
unfolding prepend
prepend-AllBytes high (some low) (some bytes) raw h l r e =
    rw (← some_inj ((16 * high + low) ∷ bytes) raw e) (omega (arith, l low refl), r bytes refl)
prepend-AllBytes high (some low) none raw h l r e = absurd (none≢some raw e)
prepend-AllBytes high none rest raw h l r e = absurd (none≢some raw e)

from_digits-AllBytes :
    (pending : Option ℕ) (text : Text) (raw : Bytes)
    → ((d : ℕ) → pending ≡ some d → d < 16)
    → from_digits pending text ≡ some raw
    → AllBytes raw
unfolding from_digits
from_digits-AllBytes none [] raw p e = rw (← some_inj [] raw e) tt
from_digits-AllBytes (some high) [] raw p e = absurd (none≢some raw e)
from_digits-AllBytes none (c ∷ text) raw p e =
    elim (Bool-cases (is_space c || is_digit (digit_value c))) [
      | inl t ↦ from_digits-AllBytes (digit_value c) text raw (digit_value-lt c) (rw t at e)
      | inr t ↦ absurd (none≢some raw (rw t at e))
    ]
from_digits-AllBytes (some high) (c ∷ text) raw p e =
    prepend-AllBytes high (digit_value c) (from_digits none text) raw (p high refl)
      (digit_value-lt c)
      (λ bytes. from_digits-AllBytes none text bytes (λ d n. absurd (none≢some d n))) e

-- What `bytes.fromhex` gives is bytes.
pub from_hex-AllBytes : (text : Text) (raw : Bytes) → from_hex text ≡ some raw → AllBytes raw
unfolding from_hex
from_hex-AllBytes text raw e = from_digits-AllBytes none text raw (λ d n. absurd (none≢some d n)) e
