-- ===== src/Prelude/Keystream.antt =====
-- A stream cipher: blocks of a keystream, made from a cursor that moves on, laid over the bytes.
use nap_cli.Prelude.{
  ℕ, zero, suc, ◌≤◌, ◌<◌, ◌≡◌, refl, sym, ◌⊎◌, inl, inr, [], ◌∷◌, ◌++◌, arith, ltb, min, length,
  length-append, length-take, length-drop, take, drop, take-append-drop, take-append_block,
  drop-past, drop-nil, Bytes, xor_bytes, xor_bytes_twice, length-xor_bytes, Bool-cases,
}

take-nil : (n : ℕ) → take {A = ℕ} n [] ≡ []
take-nil zero = refl
take-nil (suc n) = refl

module _ {C : Type 0} (size : ℕ) (block : C → Bytes) (next : C → C) where
  -- So many blocks at most, from a cursor on.
  unfoldable pub keystream : ℕ → C → Bytes → Bytes
  keystream zero cursor bytes = []
  keystream (suc n) cursor [] = []
  keystream (suc n) cursor (b ∷ bytes) =
      xor_bytes (take size (b ∷ bytes)) (block cursor)
      ++ keystream n (next cursor) (drop size (b ∷ bytes))

  pub keystream-nil : (n : ℕ) (cursor : C) → keystream n cursor [] ≡ []
  unfolding keystream
  keystream-nil zero cursor = refl
  keystream-nil (suc n) cursor = refl

  pub keystream-cons :
      (n : ℕ) (cursor : C) (b : ℕ) (bytes : Bytes)
      → keystream (suc n) cursor (b ∷ bytes)
        ≡ xor_bytes (take size (b ∷ bytes)) (block cursor)
          ++ keystream n (next cursor) (drop size (b ∷ bytes))
  unfolding keystream
  keystream-cons n cursor b bytes = refl

  keystream-suc :
      (n : ℕ) (cursor : C) (bytes : Bytes)
      → keystream (suc n) cursor bytes
        ≡ xor_bytes (take size bytes) (block cursor) ++ keystream n (next cursor) (drop size bytes)
  unfolding keystream
  keystream-suc n cursor [] =
      rw (take-nil size) (rw (drop-nil size) (sym (keystream-nil n (next cursor))))
  keystream-suc n cursor (b ∷ bytes) = refl

  -- A block of the output.
  abbrev block_out : C → Bytes → Bytes
  block_out cursor bytes = xor_bytes (take size bytes) (block cursor)

  module _ (pos : 0 < size) (len : (c : C) → length (block c) ≡ size) where
    length-block_in :
        (cursor : C) (bytes : Bytes) → length (take size bytes) ≤ length (block cursor)
    length-block_in cursor bytes = omega (arith, length-take size bytes, len cursor)

    length-block_out :
        (cursor : C) (bytes : Bytes) → length (block_out cursor bytes) ≡ min size (length bytes)
    length-block_out cursor bytes = omega (
      arith,
      length-xor_bytes (take size bytes) (block cursor) (length-block_in cursor bytes),
      length-take size bytes,
    )

    pub length-keystream :
        (n : ℕ) (cursor : C) (bytes : Bytes)
        → length bytes ≤ n
        → length (keystream n cursor bytes) ≡ length bytes
    length-keystream zero cursor [] h = rw (keystream-nil zero cursor) refl
    length-keystream zero cursor (b ∷ bytes) h = absurd (omega arith)
    length-keystream (suc n) cursor bytes h = rw (keystream-suc n cursor bytes) (
        omega (
          arith,
          length-append (block_out cursor bytes) (keystream n (next cursor) (drop size bytes)),
          length-block_out cursor bytes,
          length-keystream n (next cursor) (drop size bytes)
              (omega (arith, pos, length-drop size bytes)),
          length-drop size bytes,
        ))

    -- Laid over twice, the keystream is gone.
    pub keystream_twice :
        (n : ℕ) (cursor : C) (bytes : Bytes)
        → length bytes ≤ n
        → keystream n cursor (keystream n cursor bytes) ≡ bytes
    keystream_twice zero cursor [] h = rw (keystream-nil zero cursor) (keystream-nil zero cursor)
    keystream_twice zero cursor (b ∷ bytes) h = absurd (omega arith)
    keystream_twice (suc n) cursor bytes h = rw (keystream-suc n cursor bytes) (
        rw
          (keystream-suc n cursor
            (block_out cursor bytes ++ keystream n (next cursor) (drop size bytes)))
          (rw parts.0 (
            rw parts.1 (
              rw (xor_bytes_twice (take size bytes) (block cursor) (length-block_in cursor bytes)) (
                rw
                  (keystream_twice n (next cursor) (drop size bytes)
                    (omega (arith, pos, length-drop size bytes)))
                  (take-append-drop size bytes))))))
      where
        ends :
            (length (block_out cursor bytes) ≡ size)
            ⊎ (keystream n (next cursor) (drop size bytes) ≡ [])
        ends = elim (Bool-cases (ltb (length bytes) size)) [
          | inr long ↦ inl (ground (arith, long, length-block_out cursor bytes))
          | inl short ↦
              inr
                (rw (drop-past size bytes (ground (arith, short))) (keystream-nil n (next cursor)))
        ]

        parts :
            (take size (block_out cursor bytes ++ keystream n (next cursor) (drop size bytes))
              ≡ block_out cursor bytes)
            × (drop size (block_out cursor bytes ++ keystream n (next cursor) (drop size bytes))
                ≡ keystream n (next cursor) (drop size bytes))
        parts =
            take-append_block size (block_out cursor bytes) _
              (omega (arith, length-block_out cursor bytes)) ends
