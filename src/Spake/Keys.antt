-- ===== src/Spake/Keys.antt =====
-- The keys of the gateway's side: `hkdf_sha256`, `random_scalar`, `password_scalar`, `len_prefixed`,
-- `_spake2_finish_b_with_labels` and the keys of the relay, of
-- resources/scripts/napseer_spake2.py. `sha256` is hashlib's digest, `hmac` is
-- `hmac.new(key, message, hashlib.sha256).digest()`, and `b64` is base64.b64encode as a text.
use nap_cli.Prelude.{
  ℕ, zero, suc, ◌+◌, ◌-◌, ◌/◌, ◌%◌, ◌^◌, ◌&&◌, Option, none, some, List, [], ◌∷◌, ◌++◌,
  if◌then◌else◌, ltb, leb, ◌==◌, ℕ_eq, length, take, drop, Bytes, to_big, from_big, to_little,
}
use nap_cli.Prelude.Result.{Result, ok, raise, ◌>>=◌}
use nap_cli.Spake.Hex.{Text, to_hex}
use nap_cli.Spake.Curve.{p256_n, p256_g, Point, point_add, point_negate, scalar_mult}
use nap_cli.Spake.Point.{
  SpakeError, overflow, bad_counter, encode_error, unfinished, invalid_shared_point, parse_hex,
  int_to_bytes, decompress_point, encode_point, decode_point,
}

unfoldable pub p256_m_compressed : Text
p256_m_compressed =
    to_hex (2 ∷ to_big 32 0x886e2f97ace46e55ba9dd7242579f2993b64e16ef3dcab95afd497333d8fa12f)

unfoldable pub p256_n_compressed : Text
p256_n_compressed =
    to_hex (3 ∷ to_big 32 0xd8bbd6c639c62937b04d997f38c3770719c629d7014d49a24b4f98baa1292b49)

-- "client" and "gateway", encoded.
abbrev pub spake2_client_label : Bytes
spake2_client_label = 99 ∷ 108 ∷ 105 ∷ 101 ∷ 110 ∷ 116 ∷ []

abbrev pub spake2_gateway_label : Bytes
spake2_gateway_label = 103 ∷ 97 ∷ 116 ∷ 101 ∷ 119 ∷ 97 ∷ 121 ∷ []

-- "ConfirmationKeys", encoded.
abbrev pub confirmation_info : Bytes
confirmation_info =
    67 ∷ 111 ∷ 110 ∷ 102 ∷ 105 ∷ 114 ∷ 109 ∷ 97 ∷ 116 ∷ 105 ∷ 111 ∷ 110 ∷ 75 ∷ 101 ∷ 121 ∷ 115 ∷ []

-- "napseer-relay-aes-gcm:" and "terminal".
abbrev pub relay_info : Text
relay_info =
    110 ∷ 97 ∷ 112 ∷ 115 ∷ 101 ∷ 101 ∷ 114 ∷ 45 ∷ 114 ∷ 101 ∷ 108 ∷ 97 ∷ 121 ∷ 45 ∷ 97 ∷ 101 ∷ 115
    ∷ 45 ∷ 103 ∷ 99 ∷ 109 ∷ 58 ∷ []

abbrev pub terminal_lane : Text
terminal_lane = 116 ∷ 101 ∷ 114 ∷ 109 ∷ 105 ∷ 110 ∷ 97 ∷ 108 ∷ []

-- `random_scalar` over the 32 bytes of each draw.
unfoldable pub random_scalar : List Bytes → Result SpakeError ℕ
random_scalar [] = raise unfinished
random_scalar (bytes ∷ draws) =
    let rest = random_scalar draws in
    if from_big bytes % p256_n == 0 then rest else ok (from_big bytes % p256_n)

-- `scalar_y or random_scalar()`
unfoldable pub chosen_scalar : Option ℕ → List Bytes → Result SpakeError ℕ
chosen_scalar none draws = random_scalar draws
chosen_scalar (some y) draws = if y == 0 then random_scalar draws else ok y

unfoldable pub password_scalar : Bytes → ℕ
password_scalar secret = from_big secret % (p256_n - 1) + 1

unfoldable pub len_prefixed : Bytes → Result SpakeError Bytes
len_prefixed v =
    if ltb (length v) (2 ^ 64) then ok (to_little 8 (length v) ++ v) else raise overflow

-- `b"".join` of the fields, each with its length before it.
unfoldable pub joined : List Bytes → Result SpakeError Bytes
joined [] = ok []
joined (field ∷ fields) = do first ← len_prefixed field; rest ← joined fields; ok (first ++ rest)

-- `scalar_mult`, which returns after 256 rounds at most.
unfoldable pub multiplied : ℕ → Point → Result SpakeError Point
multiplied scalar point = elim (scalar_mult scalar point) [
  | none ↦ raise unfinished
  | some result ↦ ok result
]

-- `if k is None: raise`
unfoldable pub shared_point : Point → Result SpakeError (ℕ × ℕ)
shared_point none = raise invalid_shared_point
shared_point (some k) = ok k

unfoldable pub point_bytes : Point → Result SpakeError Bytes
point_bytes point = do text ← encode_point point; parse_hex text

pub record Finished (B : Type 0) : Type 0 where
  pub message : Text
  pub confirmation : B
  pub expected_client_confirmation : B
  pub secret : Bytes
  pub transcript_hash : Text

-- What the context of the relay holds that the keys depend on: its canonical JSON, which json.dumps
-- writes in ASCII, and its two fields as `str` makes a text of them, empty where they are missing
-- or false.
pub record RelayContext : Type 0 where
  pub canonical : Bytes
  pub relay_lane : Text
  pub relay_socket : Text

-- `encode("utf-8")` of one code point; a surrogate raises UnicodeEncodeError.
unfoldable pub encode_code_point : ℕ → Result SpakeError Bytes
encode_code_point c =
    if ltb c 0x80
    then ok (c ∷ [])
    else if ltb c 0x800
    then ok ((0xc0 + c / 0x40) ∷ (0x80 + c % 0x40) ∷ [])
    else if leb 0xd800 c && ltb c 0xe000
    then raise encode_error
    else if ltb c 0x10000
    then ok ((0xe0 + c / 0x1000) ∷ (0x80 + c / 0x40 % 0x40) ∷ (0x80 + c % 0x40) ∷ [])
    else ok (
        (0xf0 + c / 0x40000)
        ∷ (0x80 + c / 0x1000 % 0x40)
        ∷ (0x80 + c / 0x40 % 0x40)
        ∷ (0x80 + c % 0x40)
        ∷ [])

unfoldable pub encode_utf8 : Text → Result SpakeError Bytes
encode_utf8 [] = ok []
encode_utf8 (c ∷ text) = do first ← encode_code_point c; rest ← encode_utf8 text; ok (first ++ rest)

unfoldable pub lane_of : RelayContext → Text
lane_of context =
    if length context.relay_lane == 0
    then (if length context.relay_socket == 0 then terminal_lane else context.relay_socket)
    else context.relay_lane

module _ {B : Type 0} (sha256 : Bytes → Bytes) (hmac : Bytes → Bytes → Bytes)
    (b64 : Bytes → B) where
  -- The loop of `hkdf_sha256`. It ends before its fuel: bytes([256]) raises ValueError.
  unfoldable pub hkdf_loop : ℕ → ℕ → Bytes → Bytes → ℕ → Bytes → Bytes → Result SpakeError Bytes
  hkdf_loop zero wanted prk info counter previous output = raise unfinished
  hkdf_loop (suc n) wanted prk info counter previous output =
      let block = hmac prk (previous ++ (info ++ counter ∷ [])) in
      let rest = hkdf_loop n wanted prk info (counter + 1) block (output ++ block) in
      if leb wanted (length output)
      then ok (take wanted output)
      else if leb 256 counter
      then raise bad_counter
      else rest

  unfoldable pub hkdf_sha256 : Bytes → Bytes → Bytes → ℕ → Result SpakeError Bytes
  hkdf_sha256 secret salt info wanted = hkdf_loop 257 wanted (hmac salt secret) info 1 [] []

  -- The fields of the transcript, and what is derived from it.
  unfoldable pub finish_with : Bytes → Text → Bytes → Result SpakeError (Finished B)
  finish_with aad message tt = do
    let digest = sha256 tt
    keys ← hkdf_sha256 (drop 16 digest) [] (confirmation_info ++ aad) 32
    ok (record {
      message = message;
      confirmation = b64 (hmac (drop 16 keys) tt);
      expected_client_confirmation = b64 (hmac (take 16 keys) tt);
      secret = take 16 digest;
      transcript_hash = to_hex digest;
    })

  unfoldable pub transcript : Bytes → Bytes → Text → Point → ℕ × ℕ → ℕ → Result SpakeError Bytes
  transcript client_label gateway_label browser_message p_b k w = do
    browser ← parse_hex browser_message
    ours ← point_bytes p_b
    shared ← point_bytes (some k)
    password ← int_to_bytes w
    joined (client_label ∷ gateway_label ∷ browser ∷ ours ∷ shared ∷ password ∷ [])

  -- `_spake2_finish_b_with_labels`
  unfoldable pub spake2_finish_b_with_labels :
      Bytes → Bytes → Bytes → Bytes → Text → Option ℕ → List Bytes → Result SpakeError (Finished B)
  spake2_finish_b_with_labels secret client_label gateway_label aad browser_message scalar_y draws =
      do
        let w = password_scalar secret
        y ← chosen_scalar scalar_y draws
        p_a ← decode_point browser_message
        own ← multiplied y (some p256_g)
        n_point ← decompress_point p256_n_compressed
        mask ← multiplied w (some n_point)
        let p_b = point_add own mask
        m_point ← decompress_point p256_m_compressed
        blind ← multiplied w (some m_point)
        product ← multiplied y (point_add (some p_a) (point_negate blind))
        k ← shared_point product
        tt ← transcript client_label gateway_label browser_message p_b k w
        message ← encode_point p_b
        finish_with aad message tt

  unfoldable pub spake2_finish_b :
      Bytes → Bytes → Text → Option ℕ → List Bytes → Result SpakeError (Finished B)
  spake2_finish_b secret aad browser_message scalar_y draws =
      spake2_finish_b_with_labels secret spake2_client_label spake2_gateway_label aad
        browser_message scalar_y draws

  unfoldable pub spake2_gateway_finish :
      Bytes → RelayContext → Text → List Bytes → Result SpakeError (Finished B)
  spake2_gateway_finish secret context browser_message draws =
      spake2_finish_b secret context.canonical browser_message none draws

  -- `hkdf_sha256` encodes the text that it is given for `info`.
  unfoldable pub relay_key_from_secret : Bytes → RelayContext → Text → Result SpakeError Bytes
  relay_key_from_secret secret context direction = do
    info ← encode_utf8 (relay_info ++ (lane_of context ++ (58 ∷ direction)))
    hkdf_sha256 secret (sha256 context.canonical) info 32

  unfoldable pub relay_context_hash : RelayContext → B
  relay_context_hash context = b64 (sha256 context.canonical)
