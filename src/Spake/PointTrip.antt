-- ===== src/Spake/PointTrip.antt =====
-- A point that is encoded is decoded, and what is decoded is the encoding of a point of the curve.
use nap_cli.Prelude.{
  ℕ, ◌*◌, ◌<◌, ◌≡◌, refl, sym, ap, ◌∙◌, inl, inr, false, not, ◌||◌, Option, none, some, [], ◌∷◌,
  ◌++◌, leb, ◌==◌, ℕ_eq, arith, length, zero, suc, length-append, length-take, length-drop,
  take-append-drop, ==_iff, take, drop, take-append_self, Bytes, AllBytes, Bool-cases, to_big,
  from_big, length-to_big, to_big-AllBytes, from_big-to_big, to_big-from_big,
}
use nap_cli.Prelude.Result.{Result, ok, raise, bind-ok}
use nap_cli.Spake.Hex.{Text, to_hex, from_hex, from_hex-to_hex, from_hex-AllBytes}
use nap_cli.Spake.Curve.{p256_p, mod_sub}
use nap_cli.Spake.Point.{
  SpakeError, bad_hex, hex_result, out_of_range, off_curve, invalid_encoding, parse_hex,
  int_to_bytes, cubic, encode_point, check_point, decode_raw, decode_point,
}

-- A point of the curve, with coordinates below the prime.
pub record IsOnCurve (x y : ℕ) : Type 0 where
  pub x_lt : x < p256_p
  pub y_lt : y < p256_p
  pub on_curve : mod_sub (y * y) (cubic x) ≡ 0

int_to_bytes-ok : (v : ℕ) → v < p256_p → int_to_bytes v ≡ ok (to_big 32 v)
unfolding int_to_bytes
int_to_bytes-ok v h = ground arith

from_big_field : (v : ℕ) → v < p256_p → from_big (to_big 32 v) ≡ v
from_big_field v h = from_big-to_big 32 v (omega arith)

AllBytes-append : (xs ys : Bytes) → AllBytes xs → AllBytes ys → AllBytes (xs ++ ys)
AllBytes-append [] ys a b = b
AllBytes-append (x ∷ xs) ys a b = (a.0, AllBytes-append xs ys a.1 b)

check_point-ok : (x y : ℕ) → IsOnCurve x y → check_point x y ≡ ok (x, y)
unfolding check_point
check_point-ok x y h =
    let a : leb p256_p x ≡ false = ground (arith, h.x_lt) in
    let b : leb p256_p y ≡ false = ground (arith, h.y_lt) in rw a (rw b (rw h.on_curve refl))

-- The 64 bytes of a point.
abbrev pub packed : ℕ → ℕ → Bytes
packed x y = to_big 32 x ++ to_big 32 y

decode_raw-packed : (x y : ℕ) → IsOnCurve x y → decode_raw (4 ∷ packed x y) ≡ ok (x, y)
unfolding decode_raw
decode_raw-packed x y h =
    let size : length (packed x y) ≡ 64 =
      length-append (to_big 32 x) (to_big 32 y)
      ∙ rw (length-to_big 32 x, length-to_big 32 y) refl in
    let (a, b) = take-append_self (to_big 32 x) (to_big 32 y) in
    let first : take 32 (packed x y) ≡ to_big 32 x =
      ap (λ n. take n (packed x y)) (sym (length-to_big 32 x)) ∙ a in
    let second : drop 32 (packed x y) ≡ to_big 32 y =
      ap (λ n. drop n (packed x y)) (sym (length-to_big 32 x)) ∙ b in
    rw size (
      rw first (
        rw second
          (rw (from_big_field x h.x_lt) (rw (from_big_field y h.y_lt) (check_point-ok x y h)))))

encode_point-ok :
    (x y : ℕ) → IsOnCurve x y → encode_point (some (x, y)) ≡ ok (to_hex (4 ∷ packed x y))
unfolding encode_point
encode_point-ok x y h = rw (int_to_bytes-ok x h.x_lt) (rw (int_to_bytes-ok y h.y_lt) refl)

decode_point_lem :
    (text : Text) (raw : Bytes) → from_hex text ≡ some raw → decode_point text ≡ decode_raw raw
unfolding decode_point parse_hex
decode_point_lem text raw e = rw e refl

-- A point of the curve, with coordinates below the prime, is encoded, and its encoding decoded to it.
pub decode_point-encode :
    (x y : ℕ)
    → IsOnCurve x y
    → (text : Text) × (encode_point (some (x, y)) ≡ ok text) × (decode_point text ≡ ok (x, y))
decode_point-encode x y h =
    let all =
      AllBytes-append (to_big 32 x) (to_big 32 y) (to_big-AllBytes 32 x) (to_big-AllBytes 32 y) in
    (
      to_hex (4 ∷ packed x y),
      encode_point-ok x y h,
      decode_point_lem (to_hex (4 ∷ packed x y)) (4 ∷ packed x y)
            (from_hex-to_hex (4 ∷ packed x y) (omega arith, all))
          ∙ decode_raw-packed x y h,
    )

AllBytes-take : (n : ℕ) (xs : Bytes) → AllBytes xs → AllBytes (take n xs)
AllBytes-take zero xs all = tt
AllBytes-take (suc n) [] all = tt
AllBytes-take (suc n) (x ∷ xs) all = (all.0, AllBytes-take n xs all.1)

AllBytes-drop : (n : ℕ) (xs : Bytes) → AllBytes xs → AllBytes (drop n xs)
AllBytes-drop zero xs all = all
AllBytes-drop (suc n) [] all = tt
AllBytes-drop (suc n) (x ∷ xs) all = AllBytes-drop n xs all.1

ok_inj : (p q : ℕ × ℕ) → ◌≡◌ {A = Result SpakeError (ℕ × ℕ)} (ok p) (ok q) → p ≡ q
ok_inj p q e = cc

raise≢ok :
    (error : SpakeError) (q : ℕ × ℕ) → ◌≡◌ {A = Result SpakeError (ℕ × ℕ)} (raise error) (ok q) → ⊥
raise≢ok error q e = cc

-- What `check_point` has let through.
check_point-IsOnCurve :
    (a b : ℕ) (q : ℕ × ℕ) → check_point a b ≡ ok q → IsOnCurve a b × ((a, b) ≡ q)
unfolding check_point
check_point-IsOnCurve a b q e = elim (Bool-cases (leb p256_p a || leb p256_p b)) [
  | inl t ↦ absurd (raise≢ok out_of_range q (rw t at e))
  | inr t ↦ elim (Bool-cases (mod_sub (b * b) (cubic a) == 0)) [
    | inl z ↦ (
      record {
        x_lt = ground (arith, t);
        y_lt = ground (arith, t);
        on_curve = (==_iff (mod_sub (b * b) (cubic a)) 0).0 z;
      },
      ok_inj (a, b) q (rw (t, z) at e),
    )
    | inr z ↦ absurd (raise≢ok off_curve q (rw (t, z) at e))
  ]
]

decode_raw-IsOnCurve :
    (raw : Bytes) (q : ℕ × ℕ)
    → AllBytes raw
    → decode_raw raw ≡ ok q
    → IsOnCurve q.0 q.1 × (raw ≡ 4 ∷ packed q.0 q.1)
unfolding decode_raw
decode_raw-IsOnCurve [] q all e = absurd (raise≢ok invalid_encoding q e)
decode_raw-IsOnCurve (kind ∷ rest) q all e =
    elim (Bool-cases (not (length rest == 64) || not (kind == 4))) [
      | inl t ↦ absurd (raise≢ok invalid_encoding q (rw t at e))
      | inr t ↦
          (let size : length rest ≡ 64 = ground (arith, t) in
            let four : kind ≡ 4 = ground (arith, t) in
            let (valid, same) =
              check_point-IsOnCurve (from_big (take 32 rest)) (from_big (drop 32 rest)) q
                (rw t at e) in
            let first =
              field (take 32 rest) (AllBytes-take 32 rest all.1)
                (omega (arith, size, length-take 32 rest)) in
            let second =
              field (drop 32 rest) (AllBytes-drop 32 rest all.1)
                (omega (arith, size, length-drop 32 rest)) in
            let whole : packed (from_big (take 32 rest)) (from_big (drop 32 rest)) ≡ rest =
              rw (first, second) (take-append-drop 32 rest) in
            rw (← same) (valid, rw (four, whole) refl))
    ]
  where
    field :
        (bytes : Bytes) → AllBytes bytes → length bytes ≡ 32 → to_big 32 (from_big bytes) ≡ bytes
    field bytes h size =
        ap (λ (n : ℕ). to_big n (from_big bytes)) (sym size) ∙ to_big-from_big bytes h

hex_result-ok : (o : Option Bytes) (raw : Bytes) → hex_result o ≡ ok raw → o ≡ some raw
hex_result-ok none raw h = absurd (refused h)
  where
    refused : ◌≡◌ {A = Result SpakeError Bytes} (raise bad_hex) (ok raw) → ⊥
    refused e = cc
hex_result-ok (some given) raw h = cc (h)

-- A text that is decoded to a point is, up to the spelling of its digits, the encoding of that point,
-- and the point is on the curve with coordinates below the prime.
pub decode_point-IsOnCurve :
    (text : Text) (x y : ℕ)
    → decode_point text ≡ ok (x, y)
    → IsOnCurve x y × (from_hex text ≡ some (4 ∷ packed x y))
unfolding decode_point parse_hex
decode_point-IsOnCurve text x y e =
    let (raw, parses, decodes) = bind-ok (parse_hex text) decode_raw (x, y) e in
    let given = hex_result-ok (from_hex text) raw parses in
    let (valid, shape) =
      decode_raw-IsOnCurve raw (x, y) (from_hex-AllBytes text raw given) decodes in
    (valid, given ∙ ap some shape)
