-- ===== src/Terminal/Manager/Laws.antt =====
-- What the calls of the manager do to the dictionary of sessions.
use nap_cli.Prelude.{
  ℕ, suc, ◌≡◌, ◌≢◌, refl, String, Option, none, some, List, [], string_eq, ◌∙◌, not, Option-cases,
  Bool-cases, inl, inr, ◌⊎◌,
}
use nap_cli.Prelude.Dict.{
  lookup, insert, erase, lookup-insert_self, lookup-insert_ne, lookup-erase_self, lookup-erase_ne,
}
use nap_cli.Prelude.Int.{ℤ, pos}
use nap_cli.Prelude.Result.{Result, ok, raise}
use nap_cli.Terminal.Session.{
  Session, TerminalError, TerminalInfo, unknown_terminal, info, new_session, packs, close,
}
use nap_cli.Terminal.Manager.{
  Manager, ManagerError, terminal, Command, Spawn, on_session, spawned, commanded,
  normalize_command, open_terminal, close_terminal,
}

-- A call on one terminal leaves the entry of every other as it was, whatever it does to its own.
pub on_session_isolated {ℓ} :
    {A : Type ℓ} (id j : String) (method : Session → Result TerminalError A × Session) (m : Manager)
    → j ≢ id
    → lookup j (on_session id method m).1.sessions ≡ lookup j m.sessions
unfolding on_session
on_session_isolated id j method m ne = elim (Option-cases (lookup id m.sessions)) [
  | inl e ↦ rw (e, on_session) refl
  | inr (s, e) ↦ rw (e, on_session) (lookup-insert_ne j id (method s).1 m.sessions ne)
]

-- The session that `open` makes.
abbrev fresh : Spawn → List String → ℕ × ℕ → Manager → Session
fresh e command size m =
    (info e.poll (
      new_session e.terminal_id e.pid command e.cwd_path size.0 size.1 m.ring_chunks
        m.output_callback size e.now)).1

-- `open` has raised, or has added that session.
abbrev Opened : Spawn → ℕ × ℕ → Manager → Result ManagerError TerminalInfo × Manager → Type 0
Opened e size m (r, n) =
    (((x : ManagerError) × (r ≡ raise x)) × (n ≡ m))
    ⊎ (((i : TerminalInfo) × (r ≡ ok i))
        × ((command : List String) × (n
              ≡ record m { sessions = insert e.terminal_id (fresh e command size m) m.sessions })))

spawned-Opened :
    (e : Spawn) (command : List String) (size : ℕ × ℕ) (m : Manager)
    → Opened e size m (spawned e command size m)
unfolding spawned
spawned-Opened e command size m = elim (Bool-cases (not e.is_dir)) [
  | inl a ↦ rw (a, spawned) (inl ((_, refl), refl))
  | inr a ↦ elim (Bool-cases (not (packs size.0 size.1))) [
    | inl b ↦ rw (a, spawned) (rw b (inl ((_, refl), refl)))
    | inr b ↦ elim (Bool-cases (not e.starts)) [
      | inl c ↦ rw (a, spawned) (rw (b, c) (inl ((_, refl), refl)))
      | inr c ↦ rw (a, spawned) (rw (b, c) (inr ((_, refl), (command, refl))))
    ]
  ]
]

abbrev pub IsOpened : ℤ → ℤ → Spawn → Manager → Result ManagerError TerminalInfo × Manager → Type 0
IsOpened rows cols e m (raise x, n) = n ≡ m
IsOpened rows cols e m (ok i, n) =
    (s : Session) × (lookup e.terminal_id n.sessions ≡ some s)
    × (s.winsize ≡ (s.rows, s.cols))
    × (pos s.rows ≡ rows)
    × (pos s.cols ≡ cols)
    × (s.ring ≡ [])
    × (s.output_seq ≡ 0)
    × (s.ring_chunks ≡ m.ring_chunks)
    × ((j : String) → j ≢ e.terminal_id → lookup j n.sessions ≡ lookup j m.sessions)

Opened-IsOpened :
    (e : Spawn) (r c : ℕ) (m : Manager) (x : Result ManagerError TerminalInfo) (n : Manager)
    → Opened e (r, c) m (x, n)
    → IsOpened (pos r) (pos c) e m (x, n)
unfolding info new_session
Opened-IsOpened e r c m (raise x) n (inl (failed, same)) = same
Opened-IsOpened e r c m (ok i) n (inl ((x, failed), same)) = cc
Opened-IsOpened e r c m (raise x) n (inr ((i, done), new)) = cc
Opened-IsOpened e r c m (ok i) n (inr (done, (command, new))) = rw new (
  fresh e command (r, c) m,
  lookup-insert_self e.terminal_id _ m.sessions,
  refl,
  refl,
  refl,
  refl,
  refl,
  refl,
  λ j ne. lookup-insert_ne j e.terminal_id _ m.sessions ne,
)

commanded-IsOpened :
    (e : Spawn) (command : Result ManagerError (List String)) (r c : ℕ) (m : Manager)
    → IsOpened (pos r) (pos c) e m (commanded e command (r, c) m)
unfolding commanded
commanded-IsOpened e (ok command) r c m =
    Opened-IsOpened e r c m _ _ (spawned-Opened e command (r, c) m)
commanded-IsOpened e (raise x) r c m = refl

-- A call of `open` that raises changes nothing. One that returns has added the one terminal of the
-- identifier drawn, whose size is the one asked for and the one of its window, with no output and
-- room for the manager's number of chunks, and has left every other entry as it was.
pub open_terminal-IsOpened :
    (split : String → List String) (env : Option String) (e : Spawn) (command : Command)
    (rows cols : ℤ) (m : Manager)
    → IsOpened rows cols e m (open_terminal split env e command rows cols m)
unfolding open_terminal
open_terminal-IsOpened split env e command (pos (suc r)) (pos (suc c)) m =
    commanded-IsOpened e (normalize_command split env command) (suc r) (suc c) m
open_terminal-IsOpened split env e command (pos (suc r)) cols m = refl
open_terminal-IsOpened split env e command rows cols m = refl

-- After `close` of a terminal that was there it is unknown: a second `close` raises KeyError, and
-- so does any other call on it. The other terminals stay as they were.
pub close_terminal_lem {ℓ} :
    {A : Type ℓ} (id : String) (now now' : ℕ) (poll poll' : Option ℤ)
    (method : Session → Result TerminalError A × Session) (m : Manager) (s : Session)
    → lookup id m.sessions ≡ some s
    → let n = (close_terminal id now poll m).1 in
      ((close_terminal id now' poll' n).0 ≡ raise (terminal unknown_terminal))
      × ((on_session id method n).0 ≡ raise (terminal unknown_terminal))
      × ((j : String) → j ≢ id → lookup j n.sessions ≡ lookup j m.sessions)
unfolding on_session close_terminal
close_terminal_lem id now now' poll poll' method m s e =
    rw (e, close_terminal)
      (
        rw (gone, close_terminal),
        rw (gone, on_session),
        λ j ne. lookup-erase_ne j id _ ne ∙ lookup-insert_ne j id _ m.sessions ne,
      )
  where
    gone : lookup id (erase id (insert id (close now poll s) m.sessions)) ≡ none
    gone = lookup-erase_self id _
