-- ===== src/Spake/Tests.antt =====
-- Runs of the key exchange at concrete inputs.
use nap_cli.Prelude.{
  ◌≡◌, refl, some, List, [], ◌∷◌, ◌++◌, arith, length, take, replicate, length-replicate, Bytes,
  to_little, to_big, from_big, ◌+◌, ◌*◌, ◌%◌,
}
use nap_cli.Prelude.Result.{ok, raise}
use nap_cli.Spake.Hex.{Text, to_hex, from_hex, from_digits}
use nap_cli.Spake.Curve.{p256_g, Point, scalar_mult, mod_sub}
use nap_cli.Spake.Point.{
  encode_error, encode_point, decode_point, parse_hex, decode_raw, check_point,
}
use nap_cli.Spake.Keys.{
  hkdf_sha256, len_prefixed, joined, RelayContext, relay_key_from_secret, relay_info, encode_utf8,
  encode_code_point, lane_of,
}
use nap_cli.Spake.Expand.{expand, hkdf_sha256-expand}
use nap_cli.Spake.Transcript.{joined-eq}
use nap_cli.Spake.PointTrip.{IsOnCurve, packed, decode_point-encode, decode_point-IsOnCurve}
use nap_cli.Spake.Scalars.{IsReduced, scalar_mult-IsReduced}

g-IsOnCurve : IsOnCurve (p256_g.0) (p256_g.1)
unfolding mod_sub
g-IsOnCurve = record { x_lt = omega arith; y_lt = omega arith; on_curve = refl }

decode_point-encode_example :
    (text : Text) × (encode_point (some p256_g) ≡ ok text) × (decode_point text ≡ ok p256_g)
decode_point-encode_example = decode_point-encode (p256_g.0) (p256_g.1) g-IsOnCurve

-- The text of the generator.
abbrev g_text : Text
g_text = to_hex (4 ∷ packed (p256_g.0) (p256_g.1))

g_decoded : decode_point g_text ≡ ok p256_g
unfolding decode_point parse_hex from_hex from_digits to_hex to_big decode_raw check_point from_big
    mod_sub
g_decoded = refl

decode_point-IsOnCurve_example :
    IsOnCurve (p256_g.0) (p256_g.1) × (from_hex g_text ≡ some (4 ∷ packed (p256_g.0) (p256_g.1)))
decode_point-IsOnCurve_example = decode_point-IsOnCurve g_text (p256_g.0) (p256_g.1) g_decoded

scalar_mult-IsReduced_example : (q : Point) × (scalar_mult 3 (some p256_g) ≡ some q) × IsReduced q
scalar_mult-IsReduced_example = scalar_mult-IsReduced 3 (some p256_g) (omega arith, omega arith)

-- A function in the place of HMAC that has 32 bytes too.
abbrev mixed : Bytes → Bytes → Bytes
mixed key message = replicate 32 ((length key + 3 * length message) % 256)

abbrev same : Bytes → Bytes
same bytes = bytes

length-mixed : (key message : Bytes) → length (mixed key message) ≡ 32
length-mixed key message = length-replicate 32 ((length key + 3 * length message) % 256)

hkdf_sha256-expand_example :
    (hkdf_sha256 same mixed same (1 ∷ []) [] [] 40
      ≡ ok (take 40 (expand (mixed (mixed [] (1 ∷ []))) [] 255 1 [])))
    × (length (take 40 (expand (mixed (mixed [] (1 ∷ []))) [] 255 1 [])) ≡ 40)
hkdf_sha256-expand_example =
    hkdf_sha256-expand same mixed same length-mixed (1 ∷ []) [] [] 40 (omega arith)

-- A context with a lane of one letter that UTF-8 takes two bytes for.
abbrev some_context : RelayContext
some_context = record { canonical = 123 ∷ 125 ∷ []; relay_lane = 0xe9 ∷ []; relay_socket = [] }

-- "napseer-relay-aes-gcm:", the lane, and ":x", encoded.
abbrev encoded_info : Bytes
encoded_info = relay_info ++ (0xc3 ∷ 0xa9 ∷ 58 ∷ 120 ∷ [])

lane-encoded :
    relay_key_from_secret same mixed same (1 ∷ []) some_context (120 ∷ [])
    ≡ hkdf_sha256 same mixed same (1 ∷ []) (123 ∷ 125 ∷ []) encoded_info 32
unfolding relay_key_from_secret encode_utf8 encode_code_point lane_of
lane-encoded = refl

-- A direction that is a lone surrogate.
surrogate-raises :
    relay_key_from_secret same mixed same (1 ∷ []) some_context (0xd800 ∷ []) ≡ raise encode_error
unfolding relay_key_from_secret encode_utf8 encode_code_point lane_of
surrogate-raises = refl

abbrev fields : List Bytes
fields = (7 ∷ []) ∷ [] ∷ (8 ∷ 9 ∷ []) ∷ []

three_joined :
    joined fields
    ≡ ok (
        1 ∷ 0 ∷ 0 ∷ 0 ∷ 0 ∷ 0 ∷ 0 ∷ 0 ∷ 7 ∷ 0 ∷ 0 ∷ 0 ∷ 0 ∷ 0 ∷ 0 ∷ 0 ∷ 0 ∷ 2 ∷ 0 ∷ 0 ∷ 0 ∷ 0 ∷ 0
        ∷ 0 ∷ 0 ∷ 8 ∷ 9 ∷ [])
unfolding joined len_prefixed to_little
three_joined = refl

joined-eq_example : fields ≡ fields
joined-eq_example =
    joined-eq fields fields
      (1 ∷ 0 ∷ 0 ∷ 0 ∷ 0 ∷ 0 ∷ 0 ∷ 0 ∷ 7 ∷ 0 ∷ 0 ∷ 0 ∷ 0 ∷ 0 ∷ 0 ∷ 0 ∷ 0 ∷ 2 ∷ 0 ∷ 0 ∷ 0 ∷ 0 ∷ 0 ∷ 0
        ∷ 0 ∷ 8 ∷ 9 ∷ [])
      three_joined three_joined
