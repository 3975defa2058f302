-- ===== src/Spake/Point.antt =====
-- Points as texts: `decompress_point`, `encode_point` and `decode_point` of
-- resources/scripts/napseer_spake2.py.
use nap_cli.Prelude.{
  ℕ, ◌+◌, ◌*◌, ◌/◌, ◌%◌, ◌^◌, not, ◌||◌, Option, none, some, [], ◌∷◌, ◌++◌, if◌then◌else◌, ltb, leb,
  ◌==◌, ℕ_eq, length, take, drop, Bytes, to_big, from_big,
}
use nap_cli.Prelude.Result.{Result, ok, raise, ◌>>=◌}
use nap_cli.Spake.Hex.{Text, to_hex, from_hex}
use nap_cli.Spake.Curve.{p256_p, p256_a, p256_b, Point, mod_sub, pow_mod}

-- Each `raise` of the file, the errors of `bytes.fromhex`, of `to_bytes`, of `bytes([counter])` and
-- of `encode`, and a loop that has not ended.
pub data SpakeError : Type 0 where
  bad_hex overflow bad_counter encode_error unfinished : SpakeError
  invalid_compressed compressed_out_of_range compressed_off_curve : SpakeError
  invalid_point invalid_encoding out_of_range off_curve invalid_shared_point : SpakeError

abbrev pub hex_result : Option Bytes → Result SpakeError Bytes
hex_result none = raise bad_hex
hex_result (some raw) = ok raw

unfoldable pub parse_hex : Text → Result SpakeError Bytes
parse_hex text = hex_result (from_hex text)

unfoldable pub int_to_bytes : ℕ → Result SpakeError Bytes
int_to_bytes v = if ltb v (2 ^ 256) then ok (to_big 32 v) else raise overflow

-- The right-hand side of the equation of the curve.
abbrev pub cubic : ℕ → ℕ
cubic x = x * x * x + p256_a * x + p256_b

unfoldable pub decompress_raw : Bytes → Result SpakeError (ℕ × ℕ)
decompress_raw [] = raise invalid_compressed
decompress_raw (prefix ∷ rest) =
    let x = from_big rest in
    let y2 = cubic x % p256_p in
    let y = pow_mod 256 y2 ((p256_p + 1) / 4) p256_p in
    if not (length rest == 32) || not (prefix == 2 || prefix == 3)
    then raise invalid_compressed
    else if leb p256_p x
    then raise compressed_out_of_range
    else if not (mod_sub (y * y) y2 == 0)
    then raise compressed_off_curve
    else if y % 2 == prefix % 2
    then ok (x, y)
    else ok (x, mod_sub 0 y)

unfoldable pub decompress_point : Text → Result SpakeError (ℕ × ℕ)
decompress_point text = do raw ← parse_hex text; decompress_raw raw

unfoldable pub encode_point : Point → Result SpakeError Text
encode_point none = raise invalid_point
encode_point (some (x, y)) = do
  first ← int_to_bytes x
  second ← int_to_bytes y
  ok (to_hex (4 ∷ (first ++ second)))

unfoldable pub check_point : ℕ → ℕ → Result SpakeError (ℕ × ℕ)
check_point x y =
    if leb p256_p x || leb p256_p y
    then raise out_of_range
    else if not (mod_sub (y * y) (cubic x) == 0)
    then raise off_curve
    else ok (x, y)

unfoldable pub decode_raw : Bytes → Result SpakeError (ℕ × ℕ)
decode_raw [] = raise invalid_encoding
decode_raw (kind ∷ rest) =
    if not (length rest == 64) || not (kind == 4)
    then raise invalid_encoding
    else check_point (from_big (take 32 rest)) (from_big (drop 32 rest))

unfoldable pub decode_point : Text → Result SpakeError (ℕ × ℕ)
decode_point text = do raw ← parse_hex text; decode_raw raw
