-- ===== src/Prelude/Words.antt =====
-- Numbers as bytes: `int.to_bytes` and `int.from_bytes`.
use Prim.Native.Nat.{ℕ, zero, suc, ◌+◌, ◌*◌, ◌/◌, ◌%◌, ◌^◌, ◌<◌}
use mathlib.Core.Path.{◌≡◌, refl, ap, sym, ◌∙◌}
use mathlib.Core.List.{[], ◌∷◌, ◌++◌, append_assoc, append-nil}
use native.Mathlib.Nat.{pow-suc, mul_assoc, mul_comm}
use native.Mathlib.Omega.{arith}
use nap_cli.Prelude.Lists.{length, length-append}
use nap_cli.Prelude.Bits.{Bytes, IsByte, AllBytes}

-- `v.to_bytes(n, "big")`. Python refuses a number that does not fit; here the high part is lost.
unfoldable pub to_big : ℕ → ℕ → Bytes
to_big zero v = []
to_big (suc n) v = to_big n (v / 256) ++ (v % 256) ∷ []

abbrev from_big_after : ℕ → Bytes → ℕ
from_big_after high [] = high
from_big_after high (b ∷ bytes) = from_big_after (high * 256 + b) bytes

-- `int.from_bytes(bytes, "big")`
unfoldable pub from_big : Bytes → ℕ
from_big bytes = from_big_after 0 bytes

-- `v.to_bytes(n, "little")`, in the same way.
unfoldable pub to_little : ℕ → ℕ → Bytes
to_little zero v = []
to_little (suc n) v = v % 256 ∷ to_little n (v / 256)

-- `int.from_bytes(bytes, "little")`
unfoldable pub from_little : Bytes → ℕ
from_little [] = 0
from_little (b ∷ bytes) = b + 256 * from_little bytes

pub length-to_big : (n v : ℕ) → length (to_big n v) ≡ n
unfolding to_big
length-to_big zero v = refl
length-to_big (suc n) v =
    omega (arith, length-to_big n (v / 256), length-append (to_big n (v / 256)) ((v % 256) ∷ []))

AllBytes-append_byte :
    (bytes : Bytes) (b : ℕ) → AllBytes bytes → IsByte b → AllBytes (bytes ++ b ∷ [])
AllBytes-append_byte [] b h k = (k, tt)
AllBytes-append_byte (c ∷ bytes) b h k = (h.0, AllBytes-append_byte bytes b h.1 k)

pub to_big-AllBytes : (n v : ℕ) → AllBytes (to_big n v)
unfolding to_big
to_big-AllBytes zero v = tt
to_big-AllBytes (suc n) v =
    AllBytes-append_byte (to_big n (v / 256)) (v % 256) (to_big-AllBytes n (v / 256)) (omega arith)

from_big_after-append :
    (high : ℕ) (bytes : Bytes) (b : ℕ)
    → from_big_after high (bytes ++ b ∷ []) ≡ from_big_after high bytes * 256 + b
from_big_after-append high [] b = refl
from_big_after-append high (c ∷ bytes) b = from_big_after-append (high * 256 + c) bytes b

pub from_big-to_big : (n v : ℕ) → v < 256 ^ n → from_big (to_big n v) ≡ v
unfolding from_big to_big
from_big-to_big zero v h = omega arith
from_big-to_big (suc n) v h = omega (
  arith,
  from_big_after-append 0 (to_big n (v / 256)) (v % 256),
  from_big-to_big n (v / 256) (omega (arith, pow-suc 256 n)),
)

from_big_after-lt :
    (high k : ℕ) (bytes : Bytes)
    → AllBytes bytes
    → high < k
    → from_big_after high bytes < k * 256 ^ length bytes
from_big_after-lt high k [] all h = omega arith
from_big_after-lt high k (b ∷ bytes) all h =
    let ih = from_big_after-lt (high * 256 + b) (k * 256) bytes all.1 (omega (arith, all.0)) in
    omega (
      arith,
      ih,
      mul_assoc k 256 (256 ^ length bytes),
      ap (λ (t : ℕ). k * t) (pow-suc 256 (length bytes)),
      ap (λ (t : ℕ). k * t) (mul_comm 256 (256 ^ length bytes)),
    )

pub from_big-lt : (bytes : Bytes) → AllBytes bytes → from_big bytes < 256 ^ length bytes
unfolding from_big
from_big-lt bytes all = omega (arith, from_big_after-lt 0 1 bytes all (omega arith))

to_big-from_big_after :
    (k high : ℕ) (bytes : Bytes)
    → AllBytes bytes
    → to_big (k + length bytes) (from_big_after high bytes) ≡ to_big k high ++ bytes
unfolding to_big
to_big-from_big_after k high [] all =
    let same : k + 0 ≡ k = omega arith in
    ap (λ (n : ℕ). to_big n high) same ∙ sym (append-nil (to_big k high))
to_big-from_big_after k high (b ∷ bytes) all =
    let low : (high * 256 + b) / 256 ≡ high = omega (arith, all.0) in
    let byte : (high * 256 + b) % 256 ≡ b = omega (arith, all.0) in
    let shift : k + suc (length bytes) ≡ suc k + length bytes = omega arith in
    ap (λ (n : ℕ). to_big n (from_big_after (high * 256 + b) bytes)) shift
    ∙ to_big-from_big_after (suc k) (high * 256 + b) bytes all.1
    ∙ rw (low, byte) (append_assoc (to_big k high) (b ∷ []) bytes)

pub to_big-from_big :
    (bytes : Bytes) → AllBytes bytes → to_big (length bytes) (from_big bytes) ≡ bytes
unfolding from_big to_big
to_big-from_big bytes all =
    let size : length bytes ≡ 0 + length bytes = omega arith in
    ap (λ (n : ℕ). to_big n (from_big_after 0 bytes)) size ∙ to_big-from_big_after 0 0 bytes all

pub length-to_little : (n v : ℕ) → length (to_little n v) ≡ n
unfolding to_little
length-to_little zero v = refl
length-to_little (suc n) v = ap suc (length-to_little n (v / 256))

pub from_little-to_little : (n v : ℕ) → v < 256 ^ n → from_little (to_little n v) ≡ v
unfolding from_little to_little
from_little-to_little zero v h = omega arith
from_little-to_little (suc n) v h =
    omega (arith, from_little-to_little n (v / 256) (omega (arith, pow-suc 256 n)))
