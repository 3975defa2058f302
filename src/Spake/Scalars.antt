-- ===== src/Spake/Scalars.antt =====
-- `scalar_mult` ends, and stays below the prime.
use nap_cli.Prelude.{
  ℕ, zero, suc, ◌+◌, ◌*◌, ◌/◌, ◌%◌, ◌<◌, ◌^◌, ◌≡◌, refl, inl, inr, true, ◌&&◌, none, some,
  if◌then◌else◌, ◌==◌, arith, Bool-cases,
}
use native.Mathlib.Nat.{pow-suc}
use nap_cli.Spake.Curve.{
  p256_p, p256_n, Point, mod_sub, slope_of, reflected, point_add, scalar_loop, scalar_mult,
}

-- The coordinates of a point are below the prime.
abbrev pub IsReduced : Point → Type 0
IsReduced none = Unit
IsReduced (some q) = (q.0 < p256_p) × (q.1 < p256_p)

mod_sub-lt : (a b : ℕ) → mod_sub a b < p256_p
unfolding mod_sub
mod_sub-lt a b = omega arith

reflected-IsReduced : (slope x1 y1 x2 : ℕ) → IsReduced (some (reflected slope x1 y1 x2))
unfolding reflected
reflected-IsReduced slope x1 y1 x2 = (
  mod_sub-lt (slope * slope) (x1 + x2),
  mod_sub-lt (slope * mod_sub x1 (mod_sub (slope * slope) (x1 + x2))) y1,
)

point_add-IsReduced : (l r : Point) → IsReduced l → IsReduced r → IsReduced (point_add l r)
unfolding point_add
point_add-IsReduced none r a b = b
point_add-IsReduced (some l) none a b = a
point_add-IsReduced (some (x1, y1)) (some (x2, y2)) a b =
    elim (Bool-cases (x1 == x2 && ((y1 + y2) % p256_p == 0))) [
      | inl e ↦ rw e tt
      | inr e ↦ rw e (reflected-IsReduced (slope_of x1 y1 x2 y2) x1 y1 x2)
    ]

scalar_loop-IsReduced :
    (n cursor : ℕ) (result addend : Point)
    → cursor < 2 ^ n
    → IsReduced result
    → IsReduced addend
    → (q : Point) × (scalar_loop n cursor result addend ≡ some q) × IsReduced q
unfolding scalar_loop
scalar_loop-IsReduced zero cursor result addend h r a =
    let e : (cursor == 0) ≡ true = ground (arith, h) in (result, rw e refl, r)
scalar_loop-IsReduced (suc n) cursor result addend h r a = elim (Bool-cases (cursor == 0)) [
  | inl e ↦ (result, rw (e, scalar_loop) refl, r)
  | inr e ↦
      (let next = if cursor % 2 == 1 then point_add result addend else result in
        let (q, eq, red) =
          scalar_loop-IsReduced n (cursor / 2) next (point_add addend addend)
            (omega (arith, h, pow-suc 2 n)) next-IsReduced
            (point_add-IsReduced addend addend a a) in
        (q, rw (e, scalar_loop) eq, red))
]
  where
    next-IsReduced : IsReduced (if cursor % 2 == 1 then point_add result addend else result)
    next-IsReduced = elim (Bool-cases (cursor % 2 == 1)) [
      | inl e ↦ rw e (point_add-IsReduced result addend r a)
      | inr e ↦ rw e r
    ]

-- `scalar_mult` of any number and a point with coordinates below the prime has ended after 256
-- rounds, with the point at infinity or coordinates below the prime.
pub scalar_mult-IsReduced :
    (scalar : ℕ) (point : Point)
    → IsReduced point
    → (q : Point) × (scalar_mult scalar point ≡ some q) × IsReduced q
unfolding scalar_mult
scalar_mult-IsReduced scalar point a =
    scalar_loop-IsReduced 256 (scalar % p256_n) none point (omega arith) tt a
