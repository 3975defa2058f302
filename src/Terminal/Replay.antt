-- ===== src/Terminal/Replay.antt =====
-- What a client that attaches to a session is given, against all that the terminal ever printed.
use nap_cli.Prelude.{
  ℕ, zero, suc, ◌+◌, ◌-◌, ◌<◌, ◌≡◌, refl, ◌∙◌, false, Option, some, List, [], ◌∷◌, ◌++◌, String,
  arith, length, length-append, drop, drop-append, drop-drop, drop-nil, length-drop, sym, ap,
  if◌then◌else◌, ltb, ◌&&◌, Bool-cases, inl, inr,
}
use nap_cli.Prelude.Int.{ℤ, pos, ltb_ℤ}
use nap_cli.Terminal.Session.{
  Bytes, OutputChunk, Session, Callback, Written, new_session, append_ring, read_chunk, read_end,
  attach, after, is_gap, first_seq, write, resize, close, info, subscribe, unsubscribe,
}

-- The numbers of the chunks follow one another.
abbrev pub Numbered : ℕ → List OutputChunk → Type 0
Numbered n [] = Unit
Numbered n (c ∷ chunks) = (c.seq ≡ n) × Numbered (n + 1) chunks

Numbered-append :
    (n : ℕ) (h : List OutputChunk) (c : OutputChunk)
    → Numbered n h
    → c.seq ≡ n + length h
    → Numbered n (h ++ c ∷ [])
Numbered-append n [] c u e = (omega arith, tt)
Numbered-append n (d ∷ h) c u e = (u.0, Numbered-append (n + 1) h c u.1 (omega arith))

first_seq-drop :
    (n d : ℕ) (h : List OutputChunk)
    → Numbered n h
    → d < length h
    → first_seq (drop d h) ≡ some (n + d)
first_seq-drop n d [] u lt = absurd (omega arith)
first_seq-drop n zero (c ∷ h) u lt = ap some (u.0 ∙ omega arith)
first_seq-drop n (suc d) (c ∷ h) u lt =
    first_seq-drop (n + 1) d h u.1 (omega arith) ∙ ap some (omega arith)

-- What a client has seen is not lost by dropping it.
after-drop :
    (n d : ℕ) (last : ℤ) (h : List OutputChunk)
    → Numbered n h
    → ltb_ℤ last (pos (n + d - 1)) ≡ false
    → after last (drop d h) ≡ after last h
after-drop n zero last h u lt = refl
after-drop n (suc d) last [] u lt = refl
after-drop n (suc d) last (c ∷ h) u lt = ground (arith, after-drop (n + 1) d last h u.1)

-- The ring of a session holds the newest chunks of what was printed, as many as fit.
pub record IsReplay (h : List OutputChunk) (s : Session) : Type 0 where
  pub numbered : Numbered 1 h
  pub counted : s.output_seq ≡ length h
  pub newest : s.ring ≡ drop (length h - s.ring_chunks) h
  pub room : 0 < s.ring_chunks

append_ring-drop :
    (cap : ℕ) (h : List OutputChunk) (c : OutputChunk)
    → 0 < cap
    → append_ring cap (drop (length h - cap) h) c ≡ drop (length (h ++ c ∷ []) - cap) (h ++ c ∷ [])
append_ring-drop cap h c room =
    rw (← drop-append (length h - cap) h (c ∷ []) (omega arith))
      (drop-drop _ (length h - cap) (h ++ c ∷ []) ∙ ap (λ k. drop k (h ++ c ∷ [])) same)
  where
    same :
        length h - cap + (length (drop (length h - cap) (h ++ c ∷ [])) - cap)
        ≡ length (h ++ c ∷ []) - cap
    same = omega (arith, length-drop (length h - cap) (h ++ c ∷ []), length-append h (c ∷ []))

abbrev pub chunk : Session → Bytes → ℕ → OutputChunk
chunk s bytes now = record { seq = s.output_seq + 1; bytes = bytes; ts = now }

read_chunk-IsReplay :
    (h : List OutputChunk) (s : Session) (bytes : Bytes) (now : ℕ)
    → IsReplay h s
    → IsReplay (h ++ chunk s bytes now ∷ []) (read_chunk bytes now s).1
unfolding read_chunk
read_chunk-IsReplay h s bytes now i = record {
  numbered = Numbered-append 1 h _ i.numbered (omega (arith, i.counted));
  counted = omega (arith, i.counted, length-append h (chunk s bytes now ∷ []));
  newest = rw i.newest (append_ring-drop s.ring_chunks h _ i.room);
  room = i.room;
}

-- The fields on which a replay rests are left as they are.
record SameRing (s t : Session) : Type 0 where
  ring : t.ring ≡ s.ring
  output_seq : t.output_seq ≡ s.output_seq
  ring_chunks : t.ring_chunks ≡ s.ring_chunks

SameRing-IsReplay :
    {h : List OutputChunk} {s t : Session} → SameRing s t → IsReplay h s → IsReplay h t
SameRing-IsReplay e i = ground (arith, e.ring, e.output_seq, e.ring_chunks)

write-SameRing :
    (bytes : Bytes) (seq : Option ℤ) (now : ℕ) (poll poll' : Option ℤ) (w : List Written)
    (s : Session)
    → SameRing s (write bytes seq now poll poll' w s).1
unfolding write
write-SameRing [] seq now poll poll' w s = ground arith
write-SameRing (b ∷ bytes) seq now poll poll' w s = ground arith

resize-SameRing :
    (rows cols : ℤ) (now : ℕ) (poll poll' : Option ℤ) (s : Session)
    → SameRing s (resize rows cols now poll poll' s).1
unfolding resize
resize-SameRing rows cols now poll poll' s = ground arith

close-SameRing : (now : ℕ) (poll : Option ℤ) (s : Session) → SameRing s (close now poll s)
unfolding close
close-SameRing now poll s = ground arith

-- The life of a session: its calls, in any order, and what the terminal has printed so far.
pub data Life : List OutputChunk → Session → Type 0 where
  born :
      (id : String) (pid : ℕ) (command : List String) (cwd : String) (rows cols cap : ℕ)
      (callback : Option Callback) (winsize : ℕ × ℕ) (now : ℕ)
      → 0 < cap
      → Life [] (new_session id pid command cwd rows cols cap callback winsize now)
  reads :
      {h : List OutputChunk} {s : Session} (bytes : Bytes) (now : ℕ)
      → Life h s
      → Life (h ++ chunk s bytes now ∷ []) (read_chunk bytes now s).1
  ends :
      {h : List OutputChunk} {s : Session} (poll : Option ℤ) → Life h s → Life h (read_end poll s)
  writes :
      {h : List OutputChunk} {s : Session} (bytes : Bytes) (seq : Option ℤ) (now : ℕ)
      (poll poll' : Option ℤ) (w : List Written)
      → Life h s
      → Life h (write bytes seq now poll poll' w s).1
  resizes :
      {h : List OutputChunk} {s : Session} (rows cols : ℤ) (now : ℕ) (poll poll' : Option ℤ)
      → Life h s
      → Life h (resize rows cols now poll poll' s).1
  attaches :
      {h : List OutputChunk} {s : Session} (last : Option ℤ) (now : ℕ)
      → Life h s
      → Life h (attach last now s).1
  closes :
      {h : List OutputChunk} {s : Session} (now : ℕ) (poll : Option ℤ)
      → Life h s
      → Life h (close now poll s)
  informs :
      {h : List OutputChunk} {s : Session} (poll : Option ℤ) → Life h s → Life h (info poll s).1
  subscribes :
      {h : List OutputChunk} {s : Session} (id : String) (callback : Callback)
      → Life h s
      → Life h (subscribe id callback s)
  unsubscribes :
      {h : List OutputChunk} {s : Session} (id : String) → Life h s → Life h (unsubscribe id s)

-- Whatever was called, the chunks printed are numbered 1, 2, … up to `output_seq`, and the ring
-- holds the newest of them, as many as the ring has room for.
pub Life-IsReplay : {h : List OutputChunk} {s : Session} → Life h s → IsReplay h s
unfolding new_session read_end attach info subscribe unsubscribe
Life-IsReplay (born id pid command cwd rows cols cap callback winsize now room) = record {
  numbered = tt;
  counted = refl;
  newest = sym (drop-nil (0 - cap));
  room = room;
}
Life-IsReplay (reads bytes now l) = read_chunk-IsReplay _ _ bytes now (Life-IsReplay l)
Life-IsReplay (ends poll l) = ground (arith, Life-IsReplay l)
Life-IsReplay (writes bytes seq now poll poll' w l) =
    SameRing-IsReplay (write-SameRing bytes seq now poll poll' w _) (Life-IsReplay l)
Life-IsReplay (resizes rows cols now poll poll' l) =
    SameRing-IsReplay (resize-SameRing rows cols now poll poll' _) (Life-IsReplay l)
Life-IsReplay (attaches last now l) = ground (arith, Life-IsReplay l)
Life-IsReplay (closes now poll l) = SameRing-IsReplay (close-SameRing now poll _) (Life-IsReplay l)
Life-IsReplay (informs poll l) = ground (arith, Life-IsReplay l)
Life-IsReplay (subscribes id callback l) = ground (arith, Life-IsReplay l)
Life-IsReplay (unsubscribes id l) = ground (arith, Life-IsReplay l)

is_gap-ring :
    {h : List OutputChunk} {s : Session} (last : ℤ)
    → IsReplay h s
    → is_gap last (first_seq s.ring)
      ≡ (ltb 0 (length h) && ltb_ℤ last (pos (length h - s.ring_chunks)))
is_gap-ring {h = []} {s} last i = rw i.newest (rw drop-nil)
is_gap-ring {h = c ∷ h} {s} last i =
    rw i.newest (
      rw (first_seq-drop 1 (length (c ∷ h) - s.ring_chunks) (c ∷ h) i.numbered below)
        (ground arith))
  where
    below : length (c ∷ h) - s.ring_chunks < length (c ∷ h)
    below = omega (arith, i.room)

after-ring :
    {h : List OutputChunk} {s : Session} (last : ℤ)
    → IsReplay h s
    → (ltb 0 (length h) && ltb_ℤ last (pos (length h - s.ring_chunks))) ≡ false
    → after last s.ring ≡ after last h
after-ring {h = []} {s} last i e = rw i.newest (rw drop-nil)
after-ring {h = c ∷ h} {s} last i e =
    rw i.newest
      (after-drop 1 (length (c ∷ h) - s.ring_chunks) last (c ∷ h) i.numbered (ground arith))

-- A client attaches and names the last chunk it has seen. The gap is flagged exactly when the
-- terminal has printed something and that number is below the number of chunks that the ring has
-- dropped. Without the flag the client is given all that was printed since then; with it, all that
-- the ring holds. The newest number is the count of all chunks.
pub attach_exact :
    {h : List OutputChunk} {s : Session} (last : ℤ) (now : ℕ)
    → Life h s
    → let r = (attach (some last) now s).0 in
      (r.newest_seq ≡ length h)
      × (r.replay_gap ≡ (ltb 0 (length h) && ltb_ℤ last (pos (length h - s.ring_chunks))))
      × (r.chunks ≡ (if r.replay_gap then drop (length h - s.ring_chunks) h else after last h))
unfolding attach
attach_exact {h} {s} last now l =
    let i = Life-IsReplay l in
    elim (Bool-cases (ltb 0 (length h) && ltb_ℤ last (pos (length h - s.ring_chunks)))) [
      | inl gap ↦ (
        i.counted,
        ground (arith, is_gap-ring last i),
        ground (arith, is_gap-ring last i, i.newest),
      )
      | inr whole ↦ (
        i.counted,
        ground (arith, is_gap-ring last i),
        ground (arith, is_gap-ring last i, after-ring last i whole),
      )
    ]
