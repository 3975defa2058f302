-- ===== src/Relay/Aes.antt =====
-- AES-256 on one block: `_aes_encrypt_block_256` of resources/scripts/napseer_mcp_server.py.
use nap_cli.Prelude.{
  ℕ, zero, suc, ◌+◌, ◌-◌, ◌*◌, ◌/◌, ◌%◌, ◌^◌, List, [], ◌∷◌, ◌++◌, if◌then◌else◌, ◌==◌, length,
  take, drop, get_or, map, Bytes, bit_xor, xor_bytes, from_big,
}
use nap_cli.Prelude.Result.{Result, ok, raise}

pub data CryptoError : Type 0 where
  bad_key bad_block bad_nonce missing_tag authentication_failed : CryptoError

abbrev pub aes_sbox : Bytes
aes_sbox =
    0x63 ∷ 0x7c ∷ 0x77 ∷ 0x7b ∷ 0xf2 ∷ 0x6b ∷ 0x6f ∷ 0xc5 ∷ 0x30 ∷ 0x01 ∷ 0x67 ∷ 0x2b ∷ 0xfe ∷ 0xd7
    ∷ 0xab ∷ 0x76 ∷ 0xca ∷ 0x82 ∷ 0xc9 ∷ 0x7d ∷ 0xfa ∷ 0x59 ∷ 0x47 ∷ 0xf0 ∷ 0xad ∷ 0xd4 ∷ 0xa2
    ∷ 0xaf ∷ 0x9c ∷ 0xa4 ∷ 0x72 ∷ 0xc0 ∷ 0xb7 ∷ 0xfd ∷ 0x93 ∷ 0x26 ∷ 0x36 ∷ 0x3f ∷ 0xf7 ∷ 0xcc
    ∷ 0x34 ∷ 0xa5 ∷ 0xe5 ∷ 0xf1 ∷ 0x71 ∷ 0xd8 ∷ 0x31 ∷ 0x15 ∷ 0x04 ∷ 0xc7 ∷ 0x23 ∷ 0xc3 ∷ 0x18
    ∷ 0x96 ∷ 0x05 ∷ 0x9a ∷ 0x07 ∷ 0x12 ∷ 0x80 ∷ 0xe2 ∷ 0xeb ∷ 0x27 ∷ 0xb2 ∷ 0x75 ∷ 0x09 ∷ 0x83
    ∷ 0x2c ∷ 0x1a ∷ 0x1b ∷ 0x6e ∷ 0x5a ∷ 0xa0 ∷ 0x52 ∷ 0x3b ∷ 0xd6 ∷ 0xb3 ∷ 0x29 ∷ 0xe3 ∷ 0x2f
    ∷ 0x84 ∷ 0x53 ∷ 0xd1 ∷ 0x00 ∷ 0xed ∷ 0x20 ∷ 0xfc ∷ 0xb1 ∷ 0x5b ∷ 0x6a ∷ 0xcb ∷ 0xbe ∷ 0x39
    ∷ 0x4a ∷ 0x4c ∷ 0x58 ∷ 0xcf ∷ 0xd0 ∷ 0xef ∷ 0xaa ∷ 0xfb ∷ 0x43 ∷ 0x4d ∷ 0x33 ∷ 0x85 ∷ 0x45
    ∷ 0xf9 ∷ 0x02 ∷ 0x7f ∷ 0x50 ∷ 0x3c ∷ 0x9f ∷ 0xa8 ∷ 0x51 ∷ 0xa3 ∷ 0x40 ∷ 0x8f ∷ 0x92 ∷ 0x9d
    ∷ 0x38 ∷ 0xf5 ∷ 0xbc ∷ 0xb6 ∷ 0xda ∷ 0x21 ∷ 0x10 ∷ 0xff ∷ 0xf3 ∷ 0xd2 ∷ 0xcd ∷ 0x0c ∷ 0x13
    ∷ 0xec ∷ 0x5f ∷ 0x97 ∷ 0x44 ∷ 0x17 ∷ 0xc4 ∷ 0xa7 ∷ 0x7e ∷ 0x3d ∷ 0x64 ∷ 0x5d ∷ 0x19 ∷ 0x73
    ∷ 0x60 ∷ 0x81 ∷ 0x4f ∷ 0xdc ∷ 0x22 ∷ 0x2a ∷ 0x90 ∷ 0x88 ∷ 0x46 ∷ 0xee ∷ 0xb8 ∷ 0x14 ∷ 0xde
    ∷ 0x5e ∷ 0x0b ∷ 0xdb ∷ 0xe0 ∷ 0x32 ∷ 0x3a ∷ 0x0a ∷ 0x49 ∷ 0x06 ∷ 0x24 ∷ 0x5c ∷ 0xc2 ∷ 0xd3
    ∷ 0xac ∷ 0x62 ∷ 0x91 ∷ 0x95 ∷ 0xe4 ∷ 0x79 ∷ 0xe7 ∷ 0xc8 ∷ 0x37 ∷ 0x6d ∷ 0x8d ∷ 0xd5 ∷ 0x4e
    ∷ 0xa9 ∷ 0x6c ∷ 0x56 ∷ 0xf4 ∷ 0xea ∷ 0x65 ∷ 0x7a ∷ 0xae ∷ 0x08 ∷ 0xba ∷ 0x78 ∷ 0x25 ∷ 0x2e
    ∷ 0x1c ∷ 0xa6 ∷ 0xb4 ∷ 0xc6 ∷ 0xe8 ∷ 0xdd ∷ 0x74 ∷ 0x1f ∷ 0x4b ∷ 0xbd ∷ 0x8b ∷ 0x8a ∷ 0x70
    ∷ 0x3e ∷ 0xb5 ∷ 0x66 ∷ 0x48 ∷ 0x03 ∷ 0xf6 ∷ 0x0e ∷ 0x61 ∷ 0x35 ∷ 0x57 ∷ 0xb9 ∷ 0x86 ∷ 0xc1
    ∷ 0x1d ∷ 0x9e ∷ 0xe1 ∷ 0xf8 ∷ 0x98 ∷ 0x11 ∷ 0x69 ∷ 0xd9 ∷ 0x8e ∷ 0x94 ∷ 0x9b ∷ 0x1e ∷ 0x87
    ∷ 0xe9 ∷ 0xce ∷ 0x55 ∷ 0x28 ∷ 0xdf ∷ 0x8c ∷ 0xa1 ∷ 0x89 ∷ 0x0d ∷ 0xbf ∷ 0xe6 ∷ 0x42 ∷ 0x68
    ∷ 0x41 ∷ 0x99 ∷ 0x2d ∷ 0x0f ∷ 0xb0 ∷ 0x54 ∷ 0xbb ∷ 0x16 ∷ []

abbrev pub aes_rcon : Bytes
aes_rcon = 0x00 ∷ 0x01 ∷ 0x02 ∷ 0x04 ∷ 0x08 ∷ 0x10 ∷ 0x20 ∷ 0x40 ∷ 0x80 ∷ 0x1b ∷ 0x36 ∷ []

unfoldable pub sub_byte : ℕ → ℕ
sub_byte value = get_or aes_sbox value 0

-- `_aes_xtime`
unfoldable pub aes_xtime : ℕ → ℕ
aes_xtime value = (if value * 2 / 256 % 2 == 1 then bit_xor (value * 2) 0x11b else value * 2) % 256

-- `_aes_mix_single_column`
unfoldable pub aes_mix_single_column : Bytes → Bytes
unfolding aes_xtime
aes_mix_single_column (a ∷ b ∷ c ∷ d ∷ []) =
    let total = bit_xor (bit_xor (bit_xor a b) c) d in
    bit_xor a (bit_xor total (aes_xtime (bit_xor a b)))
    ∷ bit_xor b (bit_xor total (aes_xtime (bit_xor b c)))
    ∷ bit_xor c (bit_xor total (aes_xtime (bit_xor c d)))
    ∷ bit_xor d (bit_xor total (aes_xtime (bit_xor d a)))
    ∷ []
aes_mix_single_column column = column

-- The bytes of a word, the highest first.
abbrev pub word_bytes : ℕ → Bytes
word_bytes w = (w / 2 ^ 24 % 256) ∷ (w / 2 ^ 16 % 256) ∷ (w / 2 ^ 8 % 256) ∷ (w % 256) ∷ []

abbrev pub round_key : List ℕ → ℕ → Bytes
round_key words round =
    word_bytes (get_or words (round * 4) 0)
    ++ (word_bytes (get_or words (round * 4 + 1) 0)
        ++ (word_bytes (get_or words (round * 4 + 2) 0)
            ++ word_bytes (get_or words (round * 4 + 3) 0)))

-- `_aes_add_round_key`
unfoldable pub aes_add_round_key : Bytes → List ℕ → ℕ → Bytes
aes_add_round_key state words round = xor_bytes state (round_key words round)

-- `_aes_sub_bytes`
unfoldable pub aes_sub_bytes : Bytes → Bytes
unfolding sub_byte
aes_sub_bytes = map sub_byte

-- `_aes_shift_rows`: where each byte of the new state comes from.
unfoldable pub aes_shift_rows : Bytes → Bytes
aes_shift_rows state =
    map (λ i. get_or state i 0)
      (0 ∷ 5 ∷ 10 ∷ 15 ∷ 4 ∷ 9 ∷ 14 ∷ 3 ∷ 8 ∷ 13 ∷ 2 ∷ 7 ∷ 12 ∷ 1 ∷ 6 ∷ 11 ∷ [])

-- `_aes_mix_columns`
unfoldable pub aes_mix_columns : Bytes → Bytes
unfolding aes_mix_single_column
aes_mix_columns state =
    aes_mix_single_column (take 4 state)
    ++ (aes_mix_single_column (take 4 (drop 4 state))
        ++ (aes_mix_single_column (take 4 (drop 8 state))
            ++ aes_mix_single_column (take 4 (drop 12 state))))

-- A word with its bytes substituted, from four bytes.
abbrev pub sub_word : ℕ → ℕ → ℕ → ℕ → ℕ
sub_word a b c d = sub_byte a * 2 ^ 24 + sub_byte b * 2 ^ 16 + sub_byte c * 2 ^ 8 + sub_byte d

-- `temp` in `_aes_key_expand_256`.
unfoldable pub expand_word : ℕ → ℕ → ℕ
unfolding sub_byte
expand_word index temp =
    let a = temp / 2 ^ 24 % 256 in
    let b = temp / 2 ^ 16 % 256 in
    let c = temp / 2 ^ 8 % 256 in
    let d = temp % 256 in
    if index % 8 == 0
    then bit_xor (sub_word b c d a) (get_or aes_rcon (index / 8) 0 * 2 ^ 24)
    else if index % 8 == 4
    then sub_word a b c d
    else temp

-- The loop over the indices, so many of them from this one on.
unfoldable pub expand_words : ℕ → ℕ → List ℕ → List ℕ
unfolding expand_word
expand_words zero index words = words
expand_words (suc n) index words = expand_words n (index + 1) (
    words
    ++ bit_xor (get_or words (index - 8) 0) (expand_word index (get_or words (index - 1) 0)) ∷ [])

abbrev pub key_words : ℕ → Bytes → List ℕ
key_words zero key = []
key_words (suc n) key = from_big (take 4 key) ∷ key_words n (drop 4 key)

-- `_aes_key_expand_256` of a key of 32 bytes.
unfoldable pub aes_key_expand_256 : Bytes → List ℕ
unfolding expand_words from_big
aes_key_expand_256 key = expand_words 52 8 (key_words 8 key)

unfoldable pub aes_round : List ℕ → ℕ → Bytes → Bytes
unfolding aes_add_round_key aes_mix_columns aes_shift_rows aes_sub_bytes
aes_round words round state =
    aes_add_round_key (aes_mix_columns (aes_shift_rows (aes_sub_bytes state))) words round

-- The loop over the rounds, so many of them from this one on.
unfoldable pub aes_rounds : ℕ → List ℕ → ℕ → Bytes → Bytes
unfolding aes_round
aes_rounds zero words round state = state
aes_rounds (suc n) words round state = aes_rounds n words (round + 1) (aes_round words round state)

unfoldable pub aes_cipher : List ℕ → Bytes → Bytes
unfolding aes_rounds aes_add_round_key aes_shift_rows aes_sub_bytes
aes_cipher words block =
    aes_add_round_key
      (aes_shift_rows (aes_sub_bytes (aes_rounds 13 words 1 (aes_add_round_key block words 0))))
      words 14

-- `_aes_encrypt_block_256`
unfoldable pub aes_encrypt_block_256 : Bytes → Bytes → Result CryptoError Bytes
unfolding aes_cipher aes_key_expand_256
aes_encrypt_block_256 key block =
    if length block == 16
    then if length key == 32 then ok (aes_cipher (aes_key_expand_256 key) block) else raise bad_key
    else raise bad_block
