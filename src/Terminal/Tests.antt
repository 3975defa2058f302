-- ===== src/Terminal/Tests.antt =====
-- Runs of the PTY sessions at concrete inputs.
use mathlib.Core.Bool.{false≢true}
use nap_cli.Prelude.{
  ◌-◌, ◌≡◌, ◌≢◌, refl, String, true, false, ◌&&◌, none, some, List, [], ◌∷◌, ◌++◌, arith, length,
  drop, ltb, if◌then◌else◌, string_eq, ap, ◌=?◌,
}
use nap_cli.Prelude.Dict.{lookup}
use nap_cli.Prelude.Int.{pos, ltb_ℤ}
use nap_cli.Prelude.Result.{Result, ok, raise}
use nap_cli.Terminal.Session.{
  OutputChunk, Session, wrote, blocked, Round, idle, arrived, read_failed, read_gone, new_session,
  read_chunk, attach, after, write, resize, read_loop, unknown_terminal, info, TerminalError,
  TerminalInfo,
}
use nap_cli.Terminal.Replay.{
  Life, born, reads, writes, chunk, IsReplay, Life-IsReplay, attach_exact,
}
use nap_cli.Terminal.Reader.{recorded, IsRecorded, read_loop-IsRecorded}
use nap_cli.Terminal.Input.{
  InOrder, IsResized, write-InOrder, write-replay, write_accepts, resize_lem,
}
use nap_cli.Terminal.Manager.{
  Manager, Spawn, terminal, line, open_terminal, close_terminal, on_session, total,
}
use nap_cli.Terminal.Manager.Laws.{
  IsOpened, open_terminal-IsOpened, close_terminal_lem, on_session_isolated,
}

abbrev fresh : Session
fresh = new_session "t1" 42 ("/bin/sh" ∷ []) "/work" 24 80 2 (some 1) (24, 80) 100

fresh-Life : Life [] fresh
fresh-Life = born "t1" 42 ("/bin/sh" ∷ []) "/work" 24 80 2 (some 1) (24, 80) 100 (omega arith)

abbrev used : Session
used =
    (write (104 ∷ 105 ∷ []) (some (pos 5)) 101 none none (wrote 1 ∷ blocked ∷ wrote 1 ∷ []) fresh).1

used-Life : Life [] used
used-Life =
    writes (104 ∷ 105 ∷ []) (some (pos 5)) 101 none none (wrote 1 ∷ blocked ∷ wrote 1 ∷ [])
      fresh-Life

abbrev once : Session
once = (read_chunk (36 ∷ []) 102 used).1

abbrev twice : Session
twice = (read_chunk (37 ∷ []) 103 once).1

abbrev thrice : Session
thrice = (read_chunk (38 ∷ []) 104 twice).1

abbrev printed : List OutputChunk
printed =
    (([] ++ chunk used (36 ∷ []) 102 ∷ []) ++ chunk once (37 ∷ []) 103 ∷ [])
    ++ chunk twice (38 ∷ []) 104 ∷ []

thrice-Life : Life printed thrice
thrice-Life = reads (38 ∷ []) 104 (reads (37 ∷ []) 103 (reads (36 ∷ []) 102 used-Life))

Life-IsReplay_example : IsReplay printed thrice
Life-IsReplay_example = Life-IsReplay thrice-Life

attach_exact_example :
    let r = (attach (some (pos 1)) 105 thrice).0 in
    (r.newest_seq ≡ length printed)
    × (r.replay_gap
        ≡ (ltb 0 (length printed) && ltb_ℤ (pos 1) (pos (length printed - thrice.ring_chunks))))
    × (r.chunks ≡ (
        if r.replay_gap
        then drop (length printed - thrice.ring_chunks) printed
        else after (pos 1) printed))
attach_exact_example = attach_exact (pos 1) 105 thrice-Life

abbrev rounds : List Round
rounds =
    arrived (104 ∷ []) 101
    ∷ read_failed
    ∷ idle none
    ∷ arrived (105 ∷ []) 102
    ∷ read_gone
    ∷ arrived (106 ∷ []) 103
    ∷ []

read_loop-IsRecorded_example :
    IsRecorded [] fresh.terminal_id 1
      (recorded fresh.output_seq rounds)
      (read_loop rounds (some (pos 0)) fresh)
unfolding new_session
read_loop-IsRecorded_example =
    read_loop-IsRecorded rounds (some (pos 0)) 1 fresh fresh-Life refl refl refl

write-InOrder_example :
    InOrder
      (104 ∷ 105 ∷ [])
      fresh
      (write (104 ∷ 105 ∷ []) (some (pos 5)) 101 none none (wrote 1 ∷ blocked ∷ []) fresh)
write-InOrder_example =
    write-InOrder (104 ∷ 105 ∷ []) (some (pos 5)) 101 none none (wrote 1 ∷ blocked ∷ []) fresh

used-seen : used.last_input_seq ≡ some (pos 5)
unfolding new_session write
used-seen = refl

used-open : used.closed ≡ false
unfolding new_session write
used-open = refl

write-replay_example :
    ((write (33 ∷ []) (some (pos 4)) 110 none none (wrote 1 ∷ []) used).1.input ≡ used.input)
    × ((write (33 ∷ []) (some (pos 4)) 110 none none (wrote 1 ∷ []) used).1.last_input_seq
        ≡ some (pos 5))
write-replay_example =
    write-replay (33 ∷ []) (pos 4) (pos 5) 110 none none (wrote 1 ∷ []) used used-seen (omega arith)

write_accepts_example :
    let (r, t) =
      write (33 ∷ 34 ∷ []) (some (pos 6)) 110 none none (wrote 1 ∷ blocked ∷ wrote 1 ∷ []) used in
    (r ≡ ok (some true))
    × (t.input ≡ used.input ++ 33 ∷ 34 ∷ [])
    × (t.last_input_seq ≡ some (pos 6))
write_accepts_example =
    write_accepts 33 (34 ∷ []) (pos 6) (pos 5) 110 none (wrote 1 ∷ blocked ∷ wrote 1 ∷ []) used
      used-open used-seen (omega arith) tt (omega arith)

resize_lem_example :
    IsResized (pos 70000) (pos 80) fresh (resize (pos 70000) (pos 80) 105 none none fresh)
resize_lem_example = resize_lem (pos 70000) (pos 80) 105 none none fresh

abbrev empty : Manager
empty = record { ring_chunks = 2; output_callback = none; sessions = [] }

abbrev spawn : Spawn
spawn = record {
  cwd_path = "/work";
  is_dir = true;
  starts = true;
  pid = 42;
  poll = none;
  terminal_id = "t1";
  now = 100;
}

-- A command line without spaces.
abbrev split : String → List String
split l = l ∷ []

open_terminal-IsOpened_example :
    IsOpened
      (pos 24)
      (pos 80)
      spawn
      empty
      (open_terminal split none spawn (line "ls") (pos 24) (pos 80) empty)
open_terminal-IsOpened_example =
    open_terminal-IsOpened split none spawn (line "ls") (pos 24) (pos 80) empty

abbrev two : Manager
two = record empty { sessions = ("t1", fresh) ∷ ("t2", used) ∷ [] }

abbrev look : Session → Result TerminalError TerminalInfo × Session
look s = total (info none s)

t1-there : lookup "t1" two.sessions ≡ some fresh
unfolding lookup
t1-there = refl

close_terminal_lem_example :
    let n = (close_terminal "t1" 105 none two).1 in
    ((close_terminal "t1" 106 none n).0 ≡ raise (terminal unknown_terminal))
    × ((on_session "t1" look n).0 ≡ raise (terminal unknown_terminal))
    × ((j : String) → j ≢ "t1" → lookup j n.sessions ≡ lookup j two.sessions)
close_terminal_lem_example = close_terminal_lem "t1" 105 106 none none look two fresh t1-there

other_name : ◌≢◌ {A = String} "t2" "t1"
other_name = λ e. (let h : false ≡ true = ap (λ (s : String). s =? "t1") e in false≢true h)

other_untouched : lookup "t2" (on_session "t1" look two).1.sessions ≡ lookup "t2" two.sessions
other_untouched = on_session_isolated "t1" "t2" look two other_name
