-- ===== src/Terminal/Session.antt =====
-- `TerminalSession` of resources/scripts/terminal/pty_manager.py. A method takes the session and
-- returns its result with the session that it leaves. What the operating system answers is an
-- argument: `now` for time.time(), `poll` for process.poll(), `writes` for the results of os.write.
use nap_cli.Prelude.{
  ℕ, suc, ◌+◌, ◌-◌, String, Bool, true, false, ◌&&◌, ◌||◌, Option, none, some, List, [], ◌∷◌, ◌++◌,
  ltb, if◌then◌else◌, length, take, drop, string_eq, map,
}
use nap_cli.Prelude.Dict.{Dict, insert, erase}
use nap_cli.Prelude.Int.{ℤ, pos, leb_ℤ, ltb_ℤ}
use nap_cli.Prelude.Result.{Result, ok, raise}

abbrev pub Bytes : Type 0
Bytes = List ℕ

pub record OutputChunk : Type 0 where
  pub seq : ℕ
  pub bytes : Bytes
  pub ts : ℕ

pub data TerminalError : Type 0 where
  closed_terminal bad_size pack_error os_error unknown_terminal no_cwd : TerminalError

-- An output callback, by a number of its own.
abbrev pub Callback : Type 0
Callback = ℕ

pub record Session : Type 0 where
  pub terminal_id : String
  pub pid : ℕ
  pub command : List String
  pub cwd : String
  pub rows : ℕ
  pub cols : ℕ
  pub created_at : ℕ
  pub last_activity : ℕ
  pub output_seq : ℕ
  pub last_input_seq : Option ℤ
  pub closed : Bool
  pub exit_code : Option ℤ
  pub ring : List OutputChunk
  pub ring_chunks : ℕ
  pub callbacks : Dict String Callback
  pub stop : Bool
  pub output_callback : Option Callback
  -- what the kernel holds for the terminal: its window size, and the input that it was given
  pub winsize : ℕ × ℕ
  pub input : Bytes

pub record AttachResult : Type 0 where
  pub terminal_id : String
  pub chunks : List OutputChunk
  pub replay_gap : Bool
  pub requested_after_seq : Option ℤ
  pub oldest_seq : Option ℕ
  pub newest_seq : ℕ

pub record TerminalInfo : Type 0 where
  pub terminal_id : String
  pub pid : ℕ
  pub command : List String
  pub cwd : String
  pub rows : ℕ
  pub cols : ℕ
  pub output_seq : ℕ
  pub oldest_output_seq : Option ℕ
  pub created_at : ℕ
  pub last_activity : ℕ
  pub closed : Bool
  pub exit_code : Option ℤ

-- `TerminalSession.__init__`
unfoldable pub new_session :
    String → ℕ → List String → String → ℕ → ℕ → ℕ → Option Callback → ℕ × ℕ → ℕ → Session
new_session terminal_id pid command cwd rows cols ring_chunks output_callback winsize now = record {
  terminal_id = terminal_id;
  pid = pid;
  command = command;
  cwd = cwd;
  rows = rows;
  cols = cols;
  created_at = now;
  last_activity = now;
  output_seq = 0;
  last_input_seq = none;
  closed = false;
  exit_code = none;
  ring = [];
  ring_chunks = ring_chunks;
  callbacks = [];
  stop = false;
  output_callback = output_callback;
  winsize = winsize;
  input = [];
}

abbrev pub is_exited : Option ℤ → Bool
is_exited none = false
is_exited (some code) = true

-- `_ensure_open`: the process is polled for the test, and again for the exit code.
unfoldable pub ensure_open :
    Option ℤ → Option ℤ → Session → Result TerminalError (Unit {0}) × Session
ensure_open poll poll' s =
    if s.closed || is_exited poll
    then (raise closed_terminal, record s { closed = true; exit_code = poll' })
    else (ok tt, s)

-- The answer of one os.write: so many bytes taken, BlockingIOError, or another OSError.
pub data Written : Type 0 where
  wrote : ℕ → Written
  blocked failed : Written

pub data Finish : Type 0 where
  finished waiting broken : Finish

-- `_write_all`: what reached the terminal, and how the loop stands after these answers.
unfoldable pub write_all : List Written → Bytes → Bytes × Finish
write_all writes [] = ([], finished)
write_all [] (b ∷ view) = ([], waiting)
write_all (wrote n ∷ writes) (b ∷ view) =
    let (sent, end) = write_all writes (drop n (b ∷ view)) in (take n (b ∷ view) ++ sent, end)
write_all (blocked ∷ writes) (b ∷ view) = write_all writes (b ∷ view)
write_all (failed ∷ writes) (b ∷ view) = ([], broken)

-- The part of `write` under the lock, after `_ensure_open`: `none` for an input that was seen.
unfoldable pub admit : Option ℤ → ℕ → Session → Option Session
admit none now s = some (record s { last_activity = now })
admit (some seq) now s =
    let s' = record s { last_input_seq = some seq; last_activity = now } in
    elim s.last_input_seq [ none ↦ some s' | some last ↦ if leb_ℤ seq last then none else some s' ]

-- The rest of `write`. While os.write blocks, the caller is still inside the loop.
unfoldable pub deliver :
    List Written → Bytes → Session → Result TerminalError (Option Bool) × Session
unfolding write_all
deliver writes bytes s =
    let (sent, end) = write_all writes bytes in
    let s' = record s { input = s.input ++ sent } in
    elim end [
      | finished ↦ (ok (some true), s')
      | waiting ↦ (ok none, s')
      | broken ↦ (raise os_error, s')
    ]

unfoldable pub admitted :
    Option Session → List Written → Bytes → Session → Result TerminalError (Option Bool) × Session
unfolding deliver
admitted none writes bytes s = (ok (some false), s)
admitted (some s') writes bytes s = deliver writes bytes s'

unfoldable pub opened :
    Result TerminalError (Unit {0}) × Session
    → Option ℤ
    → ℕ
    → List Written
    → Bytes
    → Result TerminalError (Option Bool) × Session
unfolding admit admitted
opened (ok _, s) input_seq now writes bytes = admitted (admit input_seq now s) writes bytes s
opened (raise e, s) input_seq now writes bytes = (raise e, s)

-- `write`: the result is `none` while the caller waits for the terminal to take more.
unfoldable pub write :
    Bytes
    → Option ℤ
    → ℕ
    → Option ℤ
    → Option ℤ
    → List Written
    → Session
    → Result TerminalError (Option Bool) × Session
unfolding ensure_open opened
write [] input_seq now poll poll' writes s = (ok (some false), s)
write (b ∷ bytes) input_seq now poll poll' writes s =
    opened (ensure_open poll poll' s) input_seq now writes (b ∷ bytes)

-- `_normalize_size`
unfoldable pub normalize_size : ℤ → ℤ → Result TerminalError (ℕ × ℕ)
normalize_size (pos (suc r)) (pos (suc c)) = ok (suc r, suc c)
normalize_size rows cols = raise bad_size

-- struct.pack("HHHH", rows, cols, 0, 0) refuses what does not fit 16 bits.
abbrev pub packs : ℕ → ℕ → Bool
packs rows cols = ltb rows 65536 && ltb cols 65536

-- `_set_winsize`
unfoldable pub set_winsize : ℕ → ℕ → Session → Result TerminalError (Unit {0}) × Session
set_winsize rows cols s =
    if packs rows cols then (ok tt, record s { winsize = (rows, cols) }) else (raise pack_error, s)

unfoldable pub resized :
    Result TerminalError (Unit {0}) × Session
    → ℕ
    → ℕ
    → ℕ
    → Result TerminalError (Unit {0}) × Session
unfolding set_winsize
resized (raise e, s) rows cols now = (raise e, s)
resized (ok _, s) rows cols now =
    set_winsize rows cols (record s { rows = rows; cols = cols; last_activity = now })

-- `resize`, less the signal to the process.
unfoldable pub resize :
    ℤ → ℤ → ℕ → Option ℤ → Option ℤ → Session → Result TerminalError (Unit {0}) × Session
unfolding normalize_size ensure_open resized
resize rows cols now poll poll' s = elim (normalize_size rows cols) [
  | ok size ↦ resized (ensure_open poll poll' s) size.0 size.1 now
  | raise e ↦ (raise e, s)
]

abbrev pub first_seq : List OutputChunk → Option ℕ
first_seq [] = none
first_seq (c ∷ chunks) = some c.seq

-- The chunks after a sequence number.
abbrev pub after : ℤ → List OutputChunk → List OutputChunk
after last [] = []
after last (c ∷ chunks) =
    let rest = after last chunks in if ltb_ℤ last (pos c.seq) then c ∷ rest else rest

-- `oldest_seq is not None and last_output_seq < oldest_seq - 1`
abbrev pub is_gap : ℤ → Option ℕ → Bool
is_gap last none = false
is_gap last (some oldest) = ltb_ℤ (last) (pos (oldest - 1))

abbrev select : Option ℤ → List OutputChunk → List OutputChunk × Bool
select none chunks = (chunks, false)
select (some last) chunks =
    if is_gap last (first_seq chunks) then (chunks, true) else (after last chunks, false)

unfoldable pub attach : Option ℤ → ℕ → Session → AttachResult × Session
attach last_output_seq now s =
    let (selected, gap) = select last_output_seq s.ring in
    (
      record {
        terminal_id = s.terminal_id;
        chunks = selected;
        replay_gap = gap;
        requested_after_seq = last_output_seq;
        oldest_seq = first_seq s.ring;
        newest_seq = s.output_seq;
      },
      record s { last_activity = now },
    )

-- `close`, with what process.poll() answers once the process was waited for.
unfoldable pub close : ℕ → Option ℤ → Session → Session
close now poll s =
    if s.closed
    then s
    else record s { closed = true; last_activity = now; stop = true; exit_code = poll }

unfoldable pub info : Option ℤ → Session → TerminalInfo × Session
info poll s =
    let code : Option ℤ = elim poll [ none ↦ s.exit_code | some c ↦ some c ] in
    (
      record {
        terminal_id = s.terminal_id;
        pid = s.pid;
        command = s.command;
        cwd = s.cwd;
        rows = s.rows;
        cols = s.cols;
        output_seq = s.output_seq;
        oldest_output_seq = first_seq s.ring;
        created_at = s.created_at;
        last_activity = s.last_activity;
        closed = s.closed;
        exit_code = code;
      },
      record s { exit_code = code },
    )

-- `deque.append` under `maxlen`.
abbrev pub append_ring : ℕ → List OutputChunk → OutputChunk → List OutputChunk
append_ring cap ring c = drop (length (ring ++ c ∷ []) - cap) (ring ++ c ∷ [])

-- A call of an output callback.
abbrev pub Call : Type 0
Call = record { to : Callback; terminal_id : String; seq : ℕ; bytes : Bytes }

abbrev listeners : Option Callback → Dict String Callback → List Callback
listeners none callbacks = map (λ (_, c). c) callbacks
listeners (some c) callbacks = c ∷ map (λ (_, c). c) callbacks

-- One round of `_read_loop` that has read `bytes`: the calls that it makes, in order.
unfoldable pub read_chunk : Bytes → ℕ → Session → List Call × Session
read_chunk bytes now s =
    let seq = s.output_seq + 1 in
    let chunk : OutputChunk = record { seq = seq; bytes = bytes; ts = now } in
    (
      map (λ to. record { to = to; terminal_id = s.terminal_id; seq = seq; bytes = bytes })
          (listeners s.output_callback s.callbacks),
      record s {
        output_seq = seq;
        ring = append_ring s.ring_chunks s.ring chunk;
        last_activity = now;
      },
    )

-- What `_read_loop` does once it has left the loop.
unfoldable pub read_end : Option ℤ → Session → Session
read_end poll s = record s { exit_code = poll; closed = true; stop = true }

-- What one round of `_read_loop` meets: select finds nothing and the process is polled, os.read
-- gives bytes (none at the end of the file), os.read fails with EIO or EBADF, or with another
-- error, or select fails.
pub data Round : Type 0 where
  idle : Option ℤ → Round
  arrived : Bytes → ℕ → Round
  read_gone read_failed select_failed : Round

-- What the loop does next: it goes on, it ends, or it takes the bytes.
pub data Next : Type 0 where
  stays leaves : Next
  takes : Bytes → ℕ → Next

unfoldable pub next_of : Bool → Round → Next
next_of true r = leaves
next_of false (idle none) = stays
next_of false (idle (some code)) = leaves
next_of false (arrived [] now) = leaves
next_of false (arrived (b ∷ bytes) now) = takes (b ∷ bytes) now
next_of false read_gone = leaves
next_of false read_failed = stays
next_of false select_failed = leaves

unfoldable pub round :
    Next → (Session → List Call × Session) → Option ℤ → Session → List Call × Session
round stays rest poll s = rest s
round leaves rest poll s = ([], read_end poll s)
round (takes bytes now) rest poll s =
    let (calls, s') = read_chunk bytes now s in let (more, s'') = rest s' in (calls ++ more, s'')

-- `_read_loop` over these rounds; with none left it waits for more.
unfoldable pub read_loop : List Round → Option ℤ → Session → List Call × Session
unfolding read_chunk read_end next_of round
read_loop [] poll s = ([], s)
read_loop (r ∷ rounds) poll s = round (next_of s.stop r) (read_loop rounds poll) poll s

unfoldable pub subscribe : String → Callback → Session → Session
subscribe subscription_id callback s = record s {
  callbacks = insert subscription_id callback s.callbacks;
}

unfoldable pub unsubscribe : String → Session → Session
unsubscribe subscription_id s = record s { callbacks = erase subscription_id s.callbacks }
