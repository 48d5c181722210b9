-- ===== src/Cli/Daemon.antt =====
-- `handle_rpc_stream` and the start and the loop of `run_daemon` in crates/langshell-cli/src/lib.rs. The tasks
-- of the connections share the shell, so their turns come in any order: an event is a turn of the loop of one
-- connection, with what its reads and writes answer.
pub mod Sent
pub mod Replies
use langshell.Common.{
  ℕ, Bool, true, false, not, ◌||◌, ◌<>◌, eqb, len, any, String, Option, none, some, List, [], ◌∷◌,
  ◌++◌, map, Result, ok, err, map_err, ok_or, trim, strip_prefix, if◌then◌else◌,
}
use langshell.Core.{ErrorObject, new_error}
use langshell.Sdk.{LanguageRuntime, LangShell}
use langshell.Cli.Store.Sessions.{io_error}
use langshell.Cli.Rpc.{RpcResponse, Formats, handle_rpc_request}

-- What the start of the daemon uses of the system: paths are texts here, and `bind` makes the listener.
pub record Sockets (W : Type 0) : Type 0 where
  pub exists : String → W → Bool
  pub remove_file : String → W → Result String (Unit {0}) × W
  pub bind : String → W → Result String (Unit {0}) × W

-- `run_daemon` before its loop: a file that is there is removed, then the listener is bound.
module _ {W : Type 0} (sockets : Sockets W) where
  bound : String → Result String (Unit {0}) × W → Result ErrorObject (Unit {0}) × W
  bound path (r, w) = (map_err (λ e. io_error ("binding " <> path <> ": " <> e)) r, w)

  bind_freed : String → Result String (Unit {0}) × W → Result ErrorObject (Unit {0}) × W
  unfolding bound
  bind_freed path (err e, w) =
      (err (io_error ("removing existing socket " <> path <> ": " <> e)), w)
  bind_freed path (ok u, w) = bound path (sockets.bind path w)

  listen_at : Result ErrorObject String → W → Result ErrorObject (Unit {0}) × W
  unfolding bind_freed
  listen_at (err e) w = (err e, w)
  listen_at (ok path) w =
      bind_freed path (if sockets.exists path w then sockets.remove_file path w else (ok tt, w))

  unfoldable pub listen : String → W → Result ErrorObject (Unit {0}) × W
  unfolding listen_at strip_prefix
  listen address w =
      listen_at
        (ok_or (strip_prefix address "unix://")
          (new_error "INVALID_ARGUMENT" "Only unix:// daemon listeners are currently supported."))
        w

pub record Event : Type 0 where
  pub connection : ℕ
  pub next_line : Result String (Option String)
  pub text_written : Result String (Unit {0})
  pub newline_written : Result String (Unit {0})

-- What a turn leaves: whether the loop goes on, the texts that it wrote, the shell and the world.
pub record Turn (S W : Type 0) : Type 0 where
  pub goes_on : Result ErrorObject Bool
  pub written : List String
  pub shell : LangShell S
  pub world : W

-- The shell and the world of all connections, and the connections whose task has ended.
pub record Daemon (S W : Type 0) : Type 0 where
  pub shell : LangShell S
  pub world : W
  pub ended : List ℕ

-- A blank line, which is passed over.
unfoldable pub is_blank : String → Bool
unfolding trim
is_blank line = eqb (len (trim line)) 0

-- The two writes of a response; one that fails is taken to write nothing.
write_both :
    String
    → Result String (Unit {0})
    → Result String (Unit {0})
    → Result ErrorObject Bool × List String
write_both text (err e) newline = (err (io_error ("writing rpc response: " <> e)), [])
write_both text (ok u) (err e) = (err (io_error ("writing rpc newline: " <> e)), text ∷ [])
write_both text (ok u) (ok v) = (ok true, text ∷ "\n" ∷ [])

writes : Event → String → Result ErrorObject Bool × List String
unfolding write_both
writes event text = write_both text event.text_written event.newline_written

-- Whether the task runs on; its error is dropped.
abbrev pub is_going : Result ErrorObject Bool → Bool
is_going (ok b) = b
is_going (err e) = false

abbrev pub has_ended : ℕ → List ℕ → Bool
has_ended connection ended = any (λ n. eqb n connection) ended

module _ {S W : Type 0} (formats : Formats) (to_string : RpcResponse → String)
    (rt : LanguageRuntime S W) where
  answered : Event → (RpcResponse × LangShell S) × W → Turn S W
  unfolding writes
  answered event ((response, shell), w) =
      let (goes_on, written) = writes event (to_string response) in
      record { goes_on = goes_on; written = written; shell = shell; world = w }

  turn_line : Event → Result String (Option String) → LangShell S → W → Turn S W
  unfolding answered handle_rpc_request is_blank
  turn_line event (err e) shell w = record {
    goes_on = err (io_error ("reading rpc line: " <> e));
    written = [];
    shell = shell;
    world = w;
  }
  turn_line event (ok none) shell w = record {
    goes_on = ok false;
    written = [];
    shell = shell;
    world = w;
  }
  turn_line event (ok (some line)) shell w =
      if is_blank line
      then record { goes_on = ok true; written = []; shell = shell; world = w }
      else answered event (handle_rpc_request formats rt shell line w)

  -- A turn of the loop of `handle_rpc_stream`.
  unfoldable pub turn : Event → LangShell S → W → Turn S W
  unfolding turn_line
  turn event shell w = turn_line event event.next_line shell w

  abbrev pub after_turn : ℕ → List ℕ → Turn S W → Daemon S W
  after_turn connection ended t = record {
    shell = t.shell;
    world = t.world;
    ended = if is_going t.goes_on then ended else connection ∷ ended;
  }

  -- An event of a task that has ended does not happen.
  unfoldable pub step : Event → Daemon S W → List (ℕ × String) × Daemon S W
  unfolding turn
  step event daemon =
      if has_ended event.connection daemon.ended
      then ([], daemon)
      else let t = turn event daemon.shell daemon.world in
        (
          map (λ text. (event.connection, text)) t.written,
          after_turn event.connection daemon.ended t,
        )

  -- What the connections are sent, in order, with the daemon that is left.
  unfoldable pub serve : List Event → Daemon S W → List (ℕ × String) × Daemon S W
  unfolding step
  serve [] daemon = ([], daemon)
  serve (event ∷ events) daemon =
      let (sent, daemon') = step event daemon in
      let (rest, last) = serve events daemon' in (sent ++ rest, last)

  -- `run_daemon` when its loop takes these events and then fails to accept, with what the connections are sent.
  unfoldable pub run_daemon :
      Sockets W
      → String
      → List Event
      → String
      → LangShell S × W
      → (Result ErrorObject (Unit {0}) × (LangShell S × W)) × List (ℕ × String)
  unfolding listen serve
  run_daemon sockets address events accept_error (shell, w) =
      let (r, w') = listen sockets address w in
      let (sent, last) = serve events (record { shell = shell; world = w'; ended = [] }) in
      elim r [
        | err e ↦ ((err e, (shell, w')), [])
        | ok u ↦ ((err (io_error ("accept: " <> accept_error)), (last.shell, last.world)), sent)
      ]
