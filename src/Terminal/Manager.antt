-- ===== src/Terminal/Manager.antt =====
-- `PtySessionManager` of resources/scripts/terminal/pty_manager.py. The sessions are shared
-- objects: a method of a session changes the entry of its identifier.
pub mod Laws
use nap_cli.Prelude.{
  ℕ, zero, suc, ◌<◌, ◌≡◌, ◌≢◌, refl, String, Bool, true, false, Option, none, some, List, [], ◌∷◌,
  arith, not, if◌then◌else◌, string_eq, ◌=?◌, ◌∙◌, =?_refl, Eq, sym, ap,
}
use nap_cli.Prelude.Dict.{
  Dict, lookup, insert, erase, NodupKeys, lookup-insert, lookup-erase, insert-NodupKeys,
  erase-NodupKeys,
}
use nap_cli.Prelude.Int.{ℤ}
use nap_cli.Prelude.Result.{Result, ok, raise}
use nap_cli.Terminal.Session.{
  Bytes, Session, Callback, Written, TerminalError, TerminalInfo, AttachResult, unknown_terminal,
  no_cwd, bad_size, pack_error, new_session, write, resize, attach, close, info, subscribe,
  normalize_size, packs, os_error,
}

pub record Manager : Type 0 where
  pub ring_chunks : ℕ
  pub output_callback : Option Callback
  pub sessions : Dict String Session

pub data ManagerError : Type 0 where
  terminal : TerminalError → ManagerError
  bad_ring_chunks empty_command : ManagerError

unfoldable pub new_manager : ℕ → Option Callback → Result ManagerError Manager
new_manager zero output_callback = raise bad_ring_chunks
new_manager (suc n) output_callback =
    ok (record { ring_chunks = suc n; output_callback = output_callback; sessions = [] })

-- The `command` argument of `open`: None, a line, or the words.
pub data Command : Type 0 where
  shell : Command
  line : String → Command
  words : List String → Command

-- `_normalize_command`, over shlex.split and the environment's SHELL.
unfoldable pub normalize_command :
    (String → List String) → Option String → Command → Result ManagerError (List String)
normalize_command split env shell =
    ok (elim env [ none ↦ "/bin/sh" | some s ↦ if s =? "" then "/bin/sh" else s ] ∷ [])
normalize_command split env (line l) = ok (split l)
normalize_command split env (words []) = raise empty_command
normalize_command split env (words (w ∷ ws)) = ok (w ∷ ws)

lift {ℓ} : {A : Type ℓ} → Result TerminalError A → Result ManagerError A
lift (ok a) = ok a
lift (raise e) = raise (terminal e)

-- What the operating system gives to `open`: the directory (with whether it is one), the process
-- (with whether it starts, and what it is polled for), the identifier of uuid4, and the time.
pub record Spawn : Type 0 where
  pub cwd_path : String
  pub is_dir : Bool
  pub starts : Bool
  pub pid : ℕ
  pub poll : Option ℤ
  pub terminal_id : String
  pub now : ℕ

-- `open` once the size and the command are normal.
unfoldable pub spawned :
    Spawn → List String → ℕ × ℕ → Manager → Result ManagerError TerminalInfo × Manager
unfolding new_session info
spawned e command size m =
    if not e.is_dir
    then (raise (terminal no_cwd), m)
    else if not (packs size.0 size.1)
    then (raise (terminal pack_error), m)
    else if not e.starts
    then (raise (terminal os_error), m)
    else (let s =
          new_session e.terminal_id e.pid command e.cwd_path size.0 size.1 m.ring_chunks
            m.output_callback size e.now in
        let (i, s') = info e.poll s in
        (ok i, record m { sessions = insert e.terminal_id s' m.sessions }))

unfoldable pub commanded :
    Spawn
    → Result ManagerError (List String)
    → ℕ × ℕ
    → Manager
    → Result ManagerError TerminalInfo × Manager
unfolding spawned
commanded e (ok command) size m = spawned e command size m
commanded e (raise x) size m = (raise x, m)

unfoldable pub open_terminal :
    (String → List String)
    → Option String
    → Spawn
    → Command
    → ℤ
    → ℤ
    → Manager
    → Result ManagerError TerminalInfo × Manager
unfolding normalize_size normalize_command commanded
open_terminal split env e command rows cols m = elim (normalize_size rows cols) [
  | ok size ↦ commanded e (normalize_command split env command) size m
  | raise x ↦ (raise (terminal x), m)
]

-- `self._get(terminal_id).method(…)`, for a method that may raise.
unfoldable pub on_session {ℓ} :
    {A : Type ℓ}
    → String
    → (Session → Result TerminalError A × Session)
    → Manager
    → Result ManagerError A × Manager
unfolding lift
on_session id method m = elim (lookup id m.sessions) [
  | none ↦ (raise (terminal unknown_terminal), m)
  | some s ↦ let (r, s') = method s in (lift r, record m { sessions = insert id s' m.sessions })
]

-- For a method that does not.
abbrev pub total {ℓ} : {A : Type ℓ} → A × Session → Result TerminalError A × Session
total (a, s) = (ok a, s)

unfoldable pub write_terminal :
    String
    → Bytes
    → Option ℤ
    → ℕ
    → Option ℤ
    → Option ℤ
    → List Written
    → Manager
    → Result ManagerError (Option Bool) × Manager
unfolding on_session
write_terminal id bytes seq now poll poll' w = on_session id (write bytes seq now poll poll' w)

and_info :
    Option ℤ
    → Result TerminalError (Unit {0}) × Session
    → Result TerminalError TerminalInfo × Session
and_info poll (ok _, s) = total (info poll s)
and_info poll (raise e, s) = (raise e, s)

unfoldable pub resize_terminal :
    String → ℤ → ℤ → ℕ → Option ℤ → Option ℤ → Manager → Result ManagerError TerminalInfo × Manager
unfolding on_session and_info
resize_terminal id rows cols now poll poll' =
    on_session id (λ s. and_info poll' (resize rows cols now poll poll' s))

unfoldable pub attach_terminal :
    String → Option ℤ → ℕ → Manager → Result ManagerError AttachResult × Manager
unfolding on_session
attach_terminal id last now = on_session id (λ s. total (attach last now s))

unfoldable pub subscribe_terminal :
    String → String → Callback → Manager → Result ManagerError (Unit {0}) × Manager
unfolding on_session
subscribe_terminal id subscription callback =
    on_session id (λ s. (ok tt, subscribe subscription callback s))

-- The session is closed, and then taken out of the dictionary.
unfoldable pub close_terminal :
    String → ℕ → Option ℤ → Manager → Result ManagerError (Unit {0}) × Manager
unfolding close
close_terminal id now poll m = elim (lookup id m.sessions) [
  | none ↦ (raise (terminal unknown_terminal), m)
  | some s ↦ (ok tt, record m { sessions = erase id (insert id (close now poll s) m.sessions) })
]

list_from : (String → Option ℤ) → Dict String Session → List TerminalInfo × Dict String Session
list_from poll [] = ([], [])
list_from poll ((id, s) ∷ sessions) =
    let (i, s') = info (poll id) s in
    let (infos, rest) = list_from poll sessions in (i ∷ infos, (id, s') ∷ rest)

-- `list`, with what each process is polled for.
unfoldable pub list_terminals : (String → Option ℤ) → Manager → List TerminalInfo × Manager
unfolding list_from
list_terminals poll m =
    let (infos, sessions) = list_from poll m.sessions in (infos, record m { sessions = sessions })
