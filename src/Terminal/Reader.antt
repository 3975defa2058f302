-- ===== src/Terminal/Reader.antt =====
-- The reader thread of a session: what it records, and what its listeners are told.
use nap_cli.Prelude.{
  ℕ, ◌+◌, ◌≡◌, refl, false, Option, none, some, List, [], ◌∷◌, ◌++◌, String, arith, ap, map,
}
use mathlib.Core.List.{append_assoc, append-nil}
use nap_cli.Prelude.Int.{ℤ}
use nap_cli.Terminal.Session.{
  Bytes, OutputChunk, Session, Callback, Call, Round, idle, arrived, read_gone, read_failed,
  select_failed, read_chunk, read_end, read_loop, round, next_of,
}
use nap_cli.Terminal.Replay.{Life, reads, ends, chunk}

-- The chunks of the bytes that arrive before the first round that ends the loop.
abbrev pub recorded : ℕ → List Round → List OutputChunk
recorded n [] = []
recorded n (idle none ∷ rounds) = recorded n rounds
recorded n (idle (some code) ∷ rounds) = []
recorded n (arrived [] now ∷ rounds) = []
recorded n (arrived (b ∷ bytes) now ∷ rounds) =
    record { seq = n + 1; bytes = b ∷ bytes; ts = now } ∷ recorded (n + 1) rounds
recorded n (read_gone ∷ rounds) = []
recorded n (read_failed ∷ rounds) = recorded n rounds
recorded n (select_failed ∷ rounds) = []

abbrev call : String → Callback → OutputChunk → Call
call id to c = record { to = to; terminal_id = id; seq = c.seq; bytes = c.bytes }

read_loop-running :
    (r : Round) (rounds : List Round) (poll : Option ℤ) (s : Session)
    → s.stop ≡ false
    → read_loop (r ∷ rounds) poll s ≡ round (next_of false r) (read_loop rounds poll) poll s
unfolding read_loop
read_loop-running r rounds poll s run =
    ap (λ b. round (next_of b r) (read_loop rounds poll) poll s) run

-- The calls made and the life after the loop, from a number and a history.
abbrev pub IsRecorded :
    List OutputChunk → String → Callback → List OutputChunk → List Call × Session → Type 0
IsRecorded h id to new (calls, t) = (calls ≡ map (call id to) new) × Life (h ++ new) t

leaves-IsRecorded :
    (poll : Option ℤ) (to : Callback) (h : List OutputChunk) (s : Session)
    → Life h s
    → IsRecorded h s.terminal_id to [] ([], read_end poll s)
leaves-IsRecorded poll to h s l = (refl, rw append-nil (ends poll l))

takes-IsRecorded :
    (bytes : Bytes) (now : ℕ) (to : Callback) (h new : List OutputChunk) (s : Session)
    (more : List Call) (t : Session)
    → s.output_callback ≡ some to
    → s.callbacks ≡ []
    → IsRecorded (h ++ chunk s bytes now ∷ []) s.terminal_id to new (more, t)
    → IsRecorded h s.terminal_id to
        (chunk s bytes now ∷ new)
        ((read_chunk bytes now s).0 ++ more, t)
unfolding read_chunk
takes-IsRecorded bytes now to h new s more t c cs (calls, life) =
    (rw (c, cs) (ground (arith, calls)), rw append_assoc at life)

-- For a session that has a life, is not stopped and has its own callback as its only listener,
-- however the terminal's output is cut up and whatever errors come between, that callback is told
-- of every chunk that arrives before the loop ends, in order and once, with the numbers that follow
-- `output_seq`, and just these chunks are recorded for a later attach.
pub read_loop-IsRecorded :
    (rounds : List Round) (poll : Option ℤ) (to : Callback) {h : List OutputChunk} (s : Session)
    → Life h s
    → s.stop ≡ false
    → s.output_callback ≡ some to
    → s.callbacks ≡ []
    → IsRecorded h s.terminal_id to (recorded s.output_seq rounds) (read_loop rounds poll s)
unfolding read_loop
read_loop-IsRecorded [] poll to {h} s l run c cs = (refl, rw append-nil l)
read_loop-IsRecorded (idle none ∷ rounds) poll to s l run c cs =
    rw (read_loop-running _ rounds poll s run) (read_loop-IsRecorded rounds poll to s l run c cs)
read_loop-IsRecorded (arrived (b ∷ bytes) now ∷ rounds) poll to {h} s l run c cs =
    rw (read_loop-running _ rounds poll s run) (
      takes-IsRecorded (b ∷ bytes) now to h _ s _ _ c cs (
        read_loop-IsRecorded rounds poll to (read_chunk (b ∷ bytes) now s).1
          (reads (b ∷ bytes) now l) run c cs))
read_loop-IsRecorded (read_failed ∷ rounds) poll to s l run c cs =
    rw (read_loop-running _ rounds poll s run) (read_loop-IsRecorded rounds poll to s l run c cs)
read_loop-IsRecorded (idle (some code) ∷ rounds) poll to s l run c cs =
    rw (read_loop-running _ rounds poll s run) (leaves-IsRecorded poll to _ s l)
read_loop-IsRecorded (arrived [] now ∷ rounds) poll to s l run c cs =
    rw (read_loop-running _ rounds poll s run) (leaves-IsRecorded poll to _ s l)
read_loop-IsRecorded (read_gone ∷ rounds) poll to s l run c cs =
    rw (read_loop-running _ rounds poll s run) (leaves-IsRecorded poll to _ s l)
read_loop-IsRecorded (select_failed ∷ rounds) poll to s l run c cs =
    rw (read_loop-running _ rounds poll s run) (leaves-IsRecorded poll to _ s l)
