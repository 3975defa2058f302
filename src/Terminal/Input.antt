-- ===== src/Terminal/Input.antt =====
-- What `write` hands to the terminal, and the size that `resize` sets.
use nap_cli.Prelude.{
  ℕ, zero, suc, ◌+◌, ◌≤◌, ◌≡◌, refl, ◌⊎◌, Bool, true, false, Option, none, some, List, [], ◌∷◌,
  ◌++◌, arith, drop, ◌||◌, inl, inr, ap, Bool-cases, take-append-drop, length-drop, length, sym,
  ◌∙◌,
}
use mathlib.Core.List.{append_assoc, append-nil}
use nap_cli.Prelude.Int.{ℤ, pos, negsuc, ◌≤ℤ◌, ◌<ℤ◌}
use nap_cli.Prelude.Result.{Result, ok, raise}
use nap_cli.Terminal.Session.{
  Bytes, Session, Written, wrote, blocked, failed, finished, write_all, write, deliver, admit,
  admitted, opened, ensure_open, resize, resized, set_winsize, packs, is_exited, Finish, waiting,
  broken, os_error, TerminalError, pack_error,
}

-- What is handed over is the input from its start, in order, and all of it once the loop is over.
pub write_all_prefix :
    (w : List Written) (bytes : Bytes)
    → (rest : Bytes) × ((write_all w bytes).0 ++ rest ≡ bytes)
      × ((write_all w bytes).1 ≡ finished → rest ≡ [])
unfolding write_all
write_all_prefix w [] = ([], refl, λ e. refl)
write_all_prefix [] (b ∷ bytes) = (b ∷ bytes, refl, λ e. cc)
write_all_prefix (wrote n ∷ w) (b ∷ bytes) =
    let (rest, whole, over) = write_all_prefix w (drop n (b ∷ bytes)) in
    (rest, rw append_assoc (rw whole (take-append-drop n (b ∷ bytes))), over)
write_all_prefix (blocked ∷ w) (b ∷ bytes) = write_all_prefix w (b ∷ bytes)
write_all_prefix (failed ∷ w) (b ∷ bytes) = (b ∷ bytes, refl, λ e. cc)

-- The bytes that the answers of os.write take.
abbrev pub taken : List Written → ℕ
taken [] = 0
taken (wrote n ∷ w) = n + taken w
taken (blocked ∷ w) = taken w
taken (failed ∷ w) = 0

abbrev pub NoFailure : List Written → Type 0
NoFailure [] = Unit
NoFailure (failed ∷ w) = ⊥
NoFailure (_ ∷ w) = NoFailure w

write_all-finishes :
    (w : List Written) (bytes : Bytes)
    → NoFailure w
    → length bytes ≤ taken w
    → write_all w bytes ≡ (bytes, finished)
unfolding write_all
write_all-finishes w [] nf h = refl
write_all-finishes [] (b ∷ bytes) nf h = absurd (omega arith)
write_all-finishes (wrote n ∷ w) (b ∷ bytes) nf h =
    rw (write_all-finishes w (drop n (b ∷ bytes)) nf (omega (arith, length-drop n (b ∷ bytes))))
      (rw (take-append-drop n (b ∷ bytes)))
write_all-finishes (blocked ∷ w) (b ∷ bytes) nf h = write_all-finishes w (b ∷ bytes) nf h
write_all-finishes (failed ∷ w) (b ∷ bytes) nf h = absurd nf

-- What a call that returned or raised says of the bytes that were sent and of the rest.
abbrev pub Says : Result TerminalError (Option Bool) → Bytes → Bytes → Type 0
Says (ok (some true)) sent rest = rest ≡ []
Says (ok (some false)) sent rest = sent ≡ []
Says (ok none) sent rest = Unit
Says (raise e) sent rest = Unit

-- Some prefix of the bytes has reached the terminal: all if the call returned true, none if false.
abbrev pub InOrder : Bytes → Session → Result TerminalError (Option Bool) × Session → Type 0
InOrder bytes s (r, t) =
    (sent : Bytes) × (rest : Bytes) × (sent ++ rest ≡ bytes)
    × (t.input ≡ s.input ++ sent)
    × Says r sent rest

deliver-InOrder :
    (w : List Written) (bytes : Bytes) (s t : Session)
    → t.input ≡ s.input
    → InOrder bytes s (deliver w bytes t)
unfolding deliver
deliver-InOrder w bytes s t e =
    let (rest, whole, over) = write_all_prefix w bytes in
    go (write_all w bytes).0 (write_all w bytes).1 rest whole over
  where
    go :
        (sent : Bytes) (end : Finish) (rest : Bytes)
        → sent ++ rest ≡ bytes
        → (end ≡ finished → rest ≡ [])
        → InOrder bytes s (elim end as (λ x. Result TerminalError (Option Bool) × Session) [
          | finished ↦ (ok (some true), record t { input = t.input ++ sent })
          | waiting ↦ (ok none, record t { input = t.input ++ sent })
          | broken ↦ (raise os_error, record t { input = t.input ++ sent })
        ])
    go sent finished rest whole over = (sent, rest, whole, ap (λ i. i ++ sent) e, over refl)
    go sent waiting rest whole over = (sent, rest, whole, ap (λ i. i ++ sent) e, tt)
    go sent broken rest whole over = (sent, rest, whole, ap (λ i. i ++ sent) e, tt)

admitted-InOrder :
    (m : Option Session) (w : List Written) (bytes : Bytes) (s t : Session)
    → t.input ≡ s.input
    → ((u : Session) → m ≡ some u → u.input ≡ s.input)
    → InOrder bytes s (admitted m w bytes t)
unfolding admitted
admitted-InOrder none w bytes s t e k = ([], bytes, refl, e ∙ sym (append-nil _), refl)
admitted-InOrder (some u) w bytes s t e k = deliver-InOrder w bytes s u (k u refl)

admit-input :
    (seq : Option ℤ) (now : ℕ) (s u : Session) → admit seq now s ≡ some u → u.input ≡ s.input
unfolding admit
admit-input seq now s u e = ground arith

opened-InOrder :
    (o : Result TerminalError (Unit {0}) × Session) (seq : Option ℤ) (now : ℕ) (w : List Written)
    (bytes : Bytes) (s : Session)
    → o.1.input ≡ s.input
    → InOrder bytes s (opened o seq now w bytes)
unfolding opened
opened-InOrder (ok _, t) seq now w bytes s e =
    admitted-InOrder (admit seq now t) w bytes s t e (λ u p. admit-input seq now t u p ∙ e)
opened-InOrder (raise x, t) seq now w bytes s e = ([], bytes, refl, e ∙ sym (append-nil _), tt)

ensure_open-input :
    (poll poll' : Option ℤ) (s : Session) → (ensure_open poll poll' s).1.input ≡ s.input
unfolding ensure_open
ensure_open-input poll poll' s = ground arith

-- A write never loses or reorders input: whatever os.write answers and whatever the call returns
-- or raises, the terminal has gained a prefix of the bytes, the whole of them if `write` returned
-- true, and nothing if it returned false.
pub write-InOrder :
    (bytes : Bytes) (seq : Option ℤ) (now : ℕ) (poll poll' : Option ℤ) (w : List Written)
    (s : Session)
    → InOrder bytes s (write bytes seq now poll poll' w s)
unfolding write
write-InOrder [] seq now poll poll' w s = ([], [], refl, sym (append-nil _), refl)
write-InOrder (b ∷ bytes) seq now poll poll' w s =
    opened-InOrder (ensure_open poll poll' s) seq now w (b ∷ bytes) s
      (ensure_open-input poll poll' s)

-- An input number at or below one that was accepted is refused, whatever is written with it.
pub write-replay :
    (bytes : Bytes) (seq last : ℤ) (now : ℕ) (poll poll' : Option ℤ) (w : List Written)
    (s : Session)
    → s.last_input_seq ≡ some last
    → seq ≤ℤ last
    → ((write bytes (some seq) now poll poll' w s).1.input ≡ s.input)
      × ((write bytes (some seq) now poll poll' w s).1.last_input_seq ≡ some last)
unfolding write
write-replay [] seq last now poll poll' w s e h = (refl, e)
write-replay (b ∷ bytes) seq last now poll poll' w s e h = ground arith

-- An open session whose terminal takes the bytes, in whatever parts, writes them all, remembers
-- the input number, and returns true, if that number is above the last that was accepted.
pub write_accepts :
    (b : ℕ) (bytes : Bytes) (seq last : ℤ) (now : ℕ) (poll' : Option ℤ) (w : List Written)
    (s : Session)
    → s.closed ≡ false
    → s.last_input_seq ≡ some last
    → last <ℤ seq
    → NoFailure w
    → length (b ∷ bytes) ≤ taken w
    → let (r, t) = write (b ∷ bytes) (some seq) now none poll' w s in
      (r ≡ ok (some true)) × (t.input ≡ s.input ++ b ∷ bytes) × (t.last_input_seq ≡ some seq)
unfolding write
write_accepts b bytes seq last now poll' w s live seen newer nf fits =
    ground (arith, write_all-finishes w (b ∷ bytes) nf fits)

abbrev pub SameSize : Session → Session → Type 0
SameSize s t = (t.winsize ≡ s.winsize) × (t.rows ≡ s.rows) × (t.cols ≡ s.cols)

-- What a resize that has returned or raised leaves of the sizes.
abbrev pub IsResized : ℤ → ℤ → Session → Result TerminalError (Unit {0}) × Session → Type 0
IsResized rows cols s (ok _, t) =
    (t.winsize ≡ (t.rows, t.cols)) × (pos t.rows ≡ rows) × (pos t.cols ≡ cols)
IsResized rows cols s (raise pack_error, t) =
    (t.winsize ≡ s.winsize)
    × (pos t.rows ≡ rows)
    × (pos t.cols ≡ cols)
    × ((65536 ≤ t.rows) ⊎ (65536 ≤ t.cols))
IsResized rows cols s (raise e, t) = SameSize s t

set_winsize-IsResized :
    (r c : ℕ) (s t : Session)
    → t.winsize ≡ s.winsize
    → IsResized (pos r) (pos c) s (set_winsize r c (record t { rows = r; cols = c }))
unfolding set_winsize
set_winsize-IsResized r c s t e = elim (Bool-cases (packs r c)) [
  | inl fits ↦ rw (fits, set_winsize) (refl, refl, refl)
  | inr large ↦ rw (large, set_winsize) (e, refl, refl, ground (arith, large))
]

resized-IsResized :
    (poll poll' : Option ℤ) (r c now : ℕ) (s : Session)
    → IsResized (pos r) (pos c) s (resized (ensure_open poll poll' s) r c now)
unfolding resized ensure_open
resized-IsResized poll poll' r c now s = elim (Bool-cases (s.closed || is_exited poll)) [
  | inl over ↦ rw (over, ensure_open) (refl, refl, refl)
  | inr live ↦
      rw (live, ensure_open) (set_winsize-IsResized r c s (record s { last_activity = now }) refl)
]

-- A resize to a size that fits the kernel's 16 bits sets the session's size and the window's, and
-- one below 1 or on a closed session leaves both as they were. Past 16 bits the session has taken
-- the new size when the call raises, and the window has kept its own.
pub resize_lem :
    (rows cols : ℤ) (now : ℕ) (poll poll' : Option ℤ) (s : Session)
    → IsResized rows cols s (resize rows cols now poll poll' s)
unfolding resize
resize_lem (pos zero) cols now poll poll' s = (refl, refl, refl)
resize_lem (pos (suc r)) (pos zero) now poll poll' s = (refl, refl, refl)
resize_lem (pos (suc r)) (pos (suc c)) now poll poll' s =
    resized-IsResized poll poll' (suc r) (suc c) now s
resize_lem (pos (suc r)) (negsuc c) now poll poll' s = (refl, refl, refl)
resize_lem (negsuc r) cols now poll poll' s = (refl, refl, refl)
