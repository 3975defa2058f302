-- ===== src/Spake/Curve.antt =====
-- The arithmetic of the curve: from the constants to `scalar_mult` of
-- resources/scripts/napseer_spake2.py. A difference that the source takes before it reduces is
-- taken modulo the prime here.
use nap_cli.Prelude.{
  ℕ, zero, suc, ◌+◌, ◌-◌, ◌*◌, ◌/◌, ◌%◌, ◌&&◌, Option, none, some, if◌then◌else◌, ◌==◌, ℕ_eq,
}

abbrev pub p256_p : ℕ
p256_p = 0xffffffff00000001000000000000000000000000ffffffffffffffffffffffff

abbrev pub p256_n : ℕ
p256_n = 0xffffffff00000000ffffffffffffffffbce6faada7179e84f3b9cac2fc632551

abbrev pub p256_a : ℕ
p256_a = 0xffffffff00000001000000000000000000000000fffffffffffffffffffffffc

abbrev pub p256_b : ℕ
p256_b = 0x5ac635d8aa3a93e7b3ebbd55769886bc651d06b0cc53b0f63bce3c3e27d2604b

abbrev pub p256_g : ℕ × ℕ
p256_g = (
  0x6b17d1f2e12c4247f8bce6e563a440f277037d812deb33a0f4a13945d898c296,
  0x4fe342e2fe1a7f9b8ee7eb4a7c0f9e162bce33576b315ececbb6406837bf51f5,
)

-- None is the point at infinity.
abbrev pub Point : Type 0
Point = Option (ℕ × ℕ)

-- `modp(a - b)`
unfoldable pub mod_sub : ℕ → ℕ → ℕ
mod_sub a b = (a + (p256_p - b % p256_p)) % p256_p

-- `pow(base, exponent, modulus)` for an exponent below two to the number of rounds.
unfoldable pub pow_mod : ℕ → ℕ → ℕ → ℕ → ℕ
pow_mod zero base exponent modulus = 1 % modulus
pow_mod (suc n) base exponent modulus =
    let rest = pow_mod n (base * base % modulus) (exponent / 2) modulus in
    if exponent % 2 == 1 then base * rest % modulus else rest

unfoldable pub invp : ℕ → ℕ
invp v = pow_mod 256 (v % p256_p) (p256_p - 2) p256_p

-- The slope of the chord, or of the tangent where the two points are one.
unfoldable pub slope_of : ℕ → ℕ → ℕ → ℕ → ℕ
slope_of x1 y1 x2 y2 =
    if x1 == x2 && y1 == y2
    then (3 * x1 * x1 + p256_a) * invp (2 * y1) % p256_p
    else mod_sub y2 y1 * invp (mod_sub x2 x1) % p256_p

-- The third point on the line with that slope, reflected.
unfoldable pub reflected : ℕ → ℕ → ℕ → ℕ → ℕ × ℕ
reflected slope x1 y1 x2 =
    let x3 = mod_sub (slope * slope) (x1 + x2) in (x3, mod_sub (slope * mod_sub x1 x3) y1)

unfoldable pub point_add : Point → Point → Point
point_add none right = right
point_add (some left) none = some left
point_add (some (x1, y1)) (some (x2, y2)) =
    if x1 == x2 && ((y1 + y2) % p256_p == 0)
    then none
    else some (reflected (slope_of x1 y1 x2 y2) x1 y1 x2)

unfoldable pub point_negate : Point → Point
point_negate none = none
point_negate (some (x, y)) = some (x, mod_sub 0 y)

-- The loop of `scalar_mult`; `none` while the cursor is not yet zero.
unfoldable pub scalar_loop : ℕ → ℕ → Point → Point → Option Point
scalar_loop zero cursor result addend = if cursor == 0 then some result else none
scalar_loop (suc n) cursor result addend =
    let rest =
      scalar_loop n (cursor / 2) (if cursor % 2 == 1 then point_add result addend else result)
        (point_add addend addend) in
    if cursor == 0 then some result else rest

unfoldable pub scalar_mult : ℕ → Point → Option Point
scalar_mult scalar point = scalar_loop 256 (scalar % p256_n) none point
