-- ===== src/Gateway/Log.antt =====
-- `compact_log_file` of resources/scripts/napseer_mcp_server.py.
use nap_cli.Prelude.{
  ℕ, zero, suc, ◌-◌, ◌≤◌, ◌<◌, ◌≡◌, refl, sym, ◌∙◌, ap, ◌⊎◌, inl, inr, Bool, true, ◌&&◌, Option,
  none, some, List, [], ◌∷◌, ◌++◌, arith, if◌then◌else◌, ◌==◌, leb, length, drop, length-drop, take,
  take-append-drop, length-append, Bool-cases,
}
use mathlib.Core.List.{append_assoc}

abbrev pub Bytes : Type 0
Bytes = List ℕ

-- What follows the first newline.
unfoldable pub after_newline : Bytes → Option Bytes
after_newline [] = none
after_newline (b ∷ bytes) = if b == 10 then some bytes else after_newline bytes

abbrev or_chunk : Bytes → Option Bytes → Bytes
or_chunk chunk none = chunk
or_chunk chunk (some []) = chunk
or_chunk chunk (some (b ∷ bytes)) = b ∷ bytes

-- The chunk from its second line on, unless that is empty.
unfoldable pub whole_lines : Bytes → Bytes
unfolding after_newline
whole_lines chunk = or_chunk chunk (after_newline chunk)

-- `compact_log_file`: the file before, if it exists, and after. `reads` and `writes` tell whether
-- the file can be opened and read, and opened and written; a write that fails half-way is left out.
unfoldable pub compact_log_file : ℕ → Bool → Bool → Option Bytes → Option Bytes
unfolding whole_lines
compact_log_file zero reads writes file = file
compact_log_file (suc n) reads writes none = none
compact_log_file (suc n) reads writes (some bytes) =
    if leb (length bytes) (suc n)
    then some bytes
    else if reads && writes
    then some (whole_lines (drop (length bytes - suc n) bytes))
    else some bytes

after_newline_lem :
    (bytes rest : Bytes)
    → after_newline bytes ≡ some rest
    → (line : Bytes) × ((line ++ 10 ∷ []) ++ rest ≡ bytes)
unfolding after_newline
after_newline_lem [] rest h = cc
after_newline_lem (b ∷ bytes) rest h = elim (Bool-cases (b == 10)) [
  | inl e ↦ ([], ground (arith, e, h))
  | inr e ↦
      (let (line, whole) = after_newline_lem bytes rest (ground (arith, e, h)) in
        (b ∷ line, ap (λ xs. b ∷ xs) whole))
]

-- No newline but at the end.
abbrev pub OneLine : Bytes → Type 0
OneLine bytes = (after_newline bytes ≡ none) ⊎ (after_newline bytes ≡ some [])

-- The new content is the end of the old one, of at most `n` bytes and not empty; nothing was cut
-- off of a content of at most `n` bytes, and what was cut off of a longer one ends with a newline, or
-- leaves `n` bytes of one line.
pub record IsTail (n : ℕ) (bytes new : Bytes) : Type 0 where
  cut : Bytes
  whole : cut ++ new ≡ bytes
  fits : length new ≤ n
  some_left : 0 < length new
  clean :
      ((length bytes ≤ n) × (cut ≡ []))
      ⊎ ((n < length bytes)
          × (((line : Bytes) × (cut ≡ line ++ 10 ∷ [])) ⊎ ((length new ≡ n) × OneLine new)))

whole_lines-IsTail :
    (n : ℕ) (old chunk : Bytes) (m : Option Bytes)
    → after_newline chunk ≡ m
    → length chunk ≡ suc n
    → suc n < length (old ++ chunk)
    → IsTail (suc n) (old ++ chunk) (or_chunk chunk m)
whole_lines-IsTail n old chunk none e len long = record {
  cut = old;
  whole = refl;
  fits = omega (arith, len);
  some_left = omega (arith, len);
  clean = inr (long, inr (len, inl e));
}
whole_lines-IsTail n old chunk (some []) e len long = record {
  cut = old;
  whole = refl;
  fits = omega (arith, len);
  some_left = omega (arith, len);
  clean = inr (long, inr (len, inr e));
}
whole_lines-IsTail n old chunk (some (b ∷ bytes)) e len long =
    let (line, whole) = after_newline_lem chunk (b ∷ bytes) e in
    record {
      cut = old ++ (line ++ 10 ∷ []);
      whole = append_assoc old (line ++ 10 ∷ []) (b ∷ bytes) ∙ ap (λ xs. old ++ xs) whole;
      fits = omega (arith, len, ap length whole, length-append (line ++ 10 ∷ []) (b ∷ bytes));
      some_left = omega arith;
      clean = inr (long, inl (old ++ line, sym (append_assoc old line (10 ∷ []))));
    }

abbrev pub IsCompacted : ℕ → Bytes → Option Bytes → Type 0
IsCompacted n bytes none = ⊥
IsCompacted n bytes (some new) = IsTail n bytes new

-- A log that is not empty is compacted, to a positive number of bytes and where the file can be
-- read and written, to its end: at most that many bytes and at least one. Of a log with no more
-- than that many bytes nothing is cut off; what is cut off of a longer one ends with a newline, or
-- leaves just that many bytes, with no newline but at the end.
pub compact_log_file-IsCompacted :
    (n : ℕ) (bytes : Bytes)
    → 0 < n
    → 0 < length bytes
    → IsCompacted n bytes (compact_log_file n true true (some bytes))
unfolding compact_log_file whole_lines
compact_log_file-IsCompacted zero bytes pos some' = absurd (omega arith)
compact_log_file-IsCompacted (suc n) bytes pos some' =
    elim (Bool-cases (leb (length bytes) (suc n))) [
      | inl small ↦
          rw (small, compact_log_file)
            (record {
              cut = [];
              whole = refl;
              fits = ground (arith, small);
              some_left = some';
              clean = inl (ground (arith, small), refl);
            })
      | inr large ↦
          rw (large, compact_log_file)
            (rw (take-append-drop (length bytes - suc n) bytes) at (
              whole_lines-IsTail n (take (length bytes - suc n) bytes)
                (drop (length bytes - suc n) bytes) _ refl
                (ground (arith, large, length-drop (length bytes - suc n) bytes))
                (rw (take-append-drop (length bytes - suc n) bytes) (ground (arith, large)))))
    ]
