-- ===== src/Vault/Chacha.antt =====
-- ChaCha20: `_rotl32`, `_quarter_round`, `_chacha20_block` and `_chacha20_xor` of
-- resources/scripts/napseer_mcp_server.py.
use nap_cli.Prelude.{
  ℕ, zero, suc, ◌+◌, ◌-◌, ◌*◌, ◌/◌, ◌%◌, ◌^◌, ◌&&◌, List, [], ◌∷◌, ◌++◌, if◌then◌else◌, ◌==◌,
  length, take, drop, get_or, set, Bytes, bit_or, bit_xor, xor_bytes, from_little, to_little,
}
use nap_cli.Prelude.Result.{Result, ok, raise, ◌>>=◌}

-- struct.error, and the ValueError of `_decrypt_vault_payload`.
pub data VaultError : Type 0 where
  struct_error open_failed : VaultError

-- `_rotl32`
unfoldable pub rotl32 : ℕ → ℕ → ℕ
rotl32 value shift = bit_or (value * 2 ^ shift % 2 ^ 32) (value / 2 ^ (32 - shift))

abbrev at : List ℕ → ℕ → ℕ
at state i = get_or state i 0

-- `state[a] = (state[a] + state[b]) & 0xFFFFFFFF`
unfoldable pub add_word : ℕ → ℕ → List ℕ → List ℕ
add_word a b state = set state a ((at state a + at state b) % 2 ^ 32)

-- `state[d] ^= state[a]` and `state[d] = _rotl32(state[d], shift)`
unfoldable pub mix_word : ℕ → ℕ → ℕ → List ℕ → List ℕ
unfolding rotl32
mix_word d a shift state = set state d (rotl32 (bit_xor (at state d) (at state a)) shift)

-- `_quarter_round`
unfoldable pub quarter_round : ℕ → ℕ → ℕ → ℕ → List ℕ → List ℕ
unfolding add_word mix_word
quarter_round a b c d state = mix_word b c 7 (
    add_word c d (
      mix_word d a 8
        (add_word a b (mix_word b c 12 (add_word c d (mix_word d a 16 (add_word a b state)))))))

-- The eight quarter rounds of the loop in `_chacha20_block`.
unfoldable pub double_round : List ℕ → List ℕ
unfolding quarter_round
double_round state = quarter_round 3 4 9 14 (
    quarter_round 2 7 8 13 (
      quarter_round 1 6 11 12 (
        quarter_round 0 5 10 15 (
          quarter_round 3 7 11 15
            (quarter_round 2 6 10 14 (quarter_round 1 5 9 13 (quarter_round 0 4 8 12 state)))))))

unfoldable pub double_rounds : ℕ → List ℕ → List ℕ
unfolding double_round
double_rounds zero state = state
double_rounds (suc n) state = double_rounds n (double_round state)

-- `struct.unpack("<…I", bytes)` of so many words.
unfoldable pub words_of : ℕ → Bytes → List ℕ
unfolding from_little
words_of zero bytes = []
words_of (suc n) bytes = from_little (take 4 bytes) ∷ words_of n (drop 4 bytes)

-- `struct.pack` of the sums of `working` and `state`, for so many words.
unfoldable pub packed_sums : ℕ → List ℕ → List ℕ → Bytes
unfolding to_little
packed_sums zero working state = []
packed_sums (suc n) working state =
    to_little 4 ((get_or working 0 0 + get_or state 0 0) % 2 ^ 32)
    ++ packed_sums n (drop 1 working) (drop 1 state)

-- b"expand 32-byte k"
abbrev pub constants : Bytes
constants =
    101 ∷ 120 ∷ 112 ∷ 97 ∷ 110 ∷ 100 ∷ 32 ∷ 51 ∷ 50 ∷ 45 ∷ 98 ∷ 121 ∷ 116 ∷ 101 ∷ 32 ∷ 107 ∷ []

unfoldable pub initial_state : Bytes → Bytes → ℕ → List ℕ
unfolding words_of
initial_state key nonce counter =
    words_of 4 constants ++ (words_of 8 key ++ (counter % 2 ^ 32 ∷ words_of 3 nonce))

-- The block of a key of 32 bytes and a nonce of 12.
unfoldable pub block_of : Bytes → Bytes → ℕ → Bytes
block_of key nonce counter =
    let state = initial_state key nonce counter in packed_sums 16 (double_rounds 10 state) state

-- `_chacha20_block`
unfoldable pub chacha20_block : Bytes → ℕ → Bytes → Result VaultError Bytes
chacha20_block key counter nonce =
    if length key == 32 && length nonce == 12
    then ok (block_of key nonce counter)
    else raise struct_error

-- The loop of `_chacha20_xor`; a block for each byte is enough.
unfoldable pub xor_blocks : ℕ → Bytes → Bytes → ℕ → Bytes → Result VaultError Bytes
xor_blocks zero key nonce counter bytes = ok []
xor_blocks (suc n) key nonce counter [] = ok []
xor_blocks (suc n) key nonce counter (b ∷ bytes) = do
  block ← chacha20_block key counter nonce
  rest ← xor_blocks n key nonce ((counter + 1) % 2 ^ 32) (drop 64 (b ∷ bytes))
  ok (xor_bytes (take 64 (b ∷ bytes)) block ++ rest)

-- `_chacha20_xor`
unfoldable pub chacha20_xor : Bytes → Bytes → Bytes → Result VaultError Bytes
chacha20_xor key nonce bytes = xor_blocks (length bytes) key nonce 1 bytes
