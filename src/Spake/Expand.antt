-- ===== src/Spake/Expand.antt =====
-- What `hkdf_sha256` comes to: the expansion of RFC 5869, cut to the length wanted.
use nap_cli.Prelude.{
  ℕ, zero, suc, ◌+◌, ◌*◌, ◌<◌, ◌≤◌, ◌≡◌, refl, sym, ap, ◌∙◌, inl, inr, true, false, [], ◌∷◌, ◌++◌,
  leb, arith, length, length-append, length-take, take, take-append_within, Bytes, Bool-cases,
}
use nap_cli.Prelude.Result.{ok}
use mathlib.Core.List.{append_assoc}
use nap_cli.Spake.Keys.{hkdf_loop, hkdf_sha256}

-- The blocks T(counter), T(counter + 1), ... of RFC 5869, where `previous` is T(counter - 1).
unfoldable pub expand : (Bytes → Bytes) → Bytes → ℕ → ℕ → Bytes → Bytes
expand mac info zero counter previous = []
expand mac info (suc n) counter previous =
    mac (previous ++ (info ++ counter ∷ []))
    ++ expand mac info n (counter + 1) (mac (previous ++ (info ++ counter ∷ [])))

module _ {B : Type 0} (sha256 : Bytes → Bytes) (hmac : Bytes → Bytes → Bytes) (b64 : Bytes → B)
    (digest_length : (key message : Bytes) → length (hmac key message) ≡ 32) where
  length-expand :
      (prk info : Bytes) (n counter : ℕ) (previous : Bytes)
      → length (expand (hmac prk) info n counter previous) ≡ 32 * n
  unfolding expand
  length-expand prk info zero counter previous = refl
  length-expand prk info (suc n) counter previous =
      let block = hmac prk (previous ++ (info ++ counter ∷ [])) in
      omega (
        arith,
        length-append block (expand (hmac prk) info n (counter + 1) block),
        digest_length prk (previous ++ (info ++ counter ∷ [])),
        length-expand prk info n (counter + 1) block,
      )

  hkdf_loop-expand :
      (left fuel wanted : ℕ) (prk info : Bytes) (counter : ℕ) (previous output : Bytes)
      → left < fuel
      → counter + left ≤ 256
      → wanted ≤ length output + 32 * left
      → hkdf_loop sha256 hmac b64 fuel wanted prk info counter previous output
        ≡ ok (take wanted (output ++ expand (hmac prk) info left counter previous))
  unfolding hkdf_loop expand
  hkdf_loop-expand left zero wanted prk info counter previous output h room enough =
      absurd (omega arith)
  hkdf_loop-expand zero (suc fuel) wanted prk info counter previous output h room enough =
      let e : leb wanted (length output) ≡ true = ground (arith, enough) in
      rw e (ap ok (sym ((take-append_within wanted output [] (omega arith)).0)))
  hkdf_loop-expand (suc left) (suc fuel) wanted prk info counter previous output h room enough =
      elim (Bool-cases (leb wanted (length output))) [
        | inl e ↦
            (let rest = expand (hmac prk) info (suc left) counter previous in
              rw (e, hkdf_loop)
                (ap ok (sym ((take-append_within wanted output rest (ground (arith, e))).0))))
        | inr e ↦
            (let block = hmac prk (previous ++ (info ++ counter ∷ [])) in
              let size = length-append output block in
              let ih =
                hkdf_loop-expand left fuel wanted prk info (counter + 1) block (output ++ block)
                  (omega arith) (omega arith)
                  (omega (arith, size, digest_length prk (previous ++ (info ++ counter ∷ [])))) in
              let low : leb 256 counter ≡ false = ground arith in
              rw (e, hkdf_loop)
                (rw low (
                  ih
                  ∙ ap (λ (xs : Bytes). ok (take wanted xs))
                      (append_assoc output block
                        (expand (hmac prk) info left (counter + 1) block)))))
      ]

  -- Where a digest has 32 bytes, up to 8160 bytes are those of the expansion of RFC 5869, and no
  -- fewer than wanted.
  pub hkdf_sha256-expand :
      (secret salt info : Bytes) (wanted : ℕ)
      → wanted ≤ 8160
      → (hkdf_sha256 sha256 hmac b64 secret salt info wanted
          ≡ ok (take wanted (expand (hmac (hmac salt secret)) info 255 1 [])))
        × (length (take wanted (expand (hmac (hmac salt secret)) info 255 1 [])) ≡ wanted)
  unfolding hkdf_sha256
  hkdf_sha256-expand secret salt info wanted h = (
    hkdf_loop-expand 255 257 wanted (hmac salt secret) info 1 [] [] (omega arith) (omega arith)
        (omega arith),
    omega (
      arith,
      length-take wanted (expand (hmac (hmac salt secret)) info 255 1 []),
      length-expand (hmac salt secret) info 255 1 [],
    ),
  )
