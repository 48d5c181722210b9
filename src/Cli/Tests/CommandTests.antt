-- ===== src/Cli/Tests/CommandTests.antt =====
-- Runs of the commands and of the daemon, and instances of their theorems.
use langshell.Common.{ℕ, String, ◌≡◌, refl, true, false, Option, none, some, List, [], ◌∷◌, ok, err}
use langshell.Core.{Value, Language}
use langshell.Cli.Rpc.{handle_rpc_request}
use langshell.Sdk.{snapshot_session_with_language}
use langshell.Sdk.Restore.{restore_session}
use langshell.Cli.Store.Sessions.{load_session_if_exists, loaded}
use langshell.Cli.Params.{parse_language}
use langshell.Cli.Daemon.{Sockets, Event, Daemon, is_blank, listen, serve}
use langshell.Cli.Daemon.Replies.{Replies, serve-Replies}
use langshell.Cli.Daemon.Sent.{sent_to}
use langshell.Cli.Rpc.{RpcResponse}
use langshell.Core.{new_error}
use langshell.Cli.Commands
use langshell.Cli.Commands.{
  ExitCode, RunCommand, ReplCommand, SessionAction, ToolsAction, Console, run_code, run_repl,
  run_session_command, run_tools_command,
}
use langshell.Cli.Commands.Stored.{PrintsOnly, run_code-stored}
use langshell.Cli.Main.{Command, Input, run_cli}
use langshell.Cli.Tests.{steady, shell, formats, one_file, one_file-KeepsFiles, two_bytes}

-- A console that prints nothing.
abbrev quiet : Console (Option (List ℕ))
quiet = record {
  prompt = λ text w. (ok tt, w);
  print_line = λ text w. w;
  to_string_pretty = λ v. ok "{}";
  result_value = λ r. Value.null;
  path_value = λ path. Value.null;
  read_to_string = λ path w. err "not found";
}

quiet-PrintsOnly : PrintsOnly one_file quiet
quiet-PrintsOnly = record {
  exists-print_line = λ path text w. refl;
  read-print_line = λ path text w. refl;
}

abbrev command : RunCommand
command = record {
  eval = some "1";
  file = none;
  session_id = "s";
  timeout_ms = none;
  language = "python";
}

ran :
    run_code one_file ("d" ∷ []) two_bytes quiet command false (shell, none)
    ≡ (ok ExitCode.success, (shell, some (1 ∷ 2 ∷ [])))
unfolding run_code Commands.bound
ran = refl

run_code-stored_example :
    (language : Language) × (bytes : List ℕ) × (parse_language "python" ≡ ok language)
    × (snapshot_session_with_language two_bytes shell "s" language ≡ ok bytes)
    × (load_session_if_exists one_file ("d" ∷ []) two_bytes shell "s" (some (1 ∷ 2 ∷ []))
        ≡ loaded one_file ("d" ∷ []) two_bytes (restore_session two_bytes shell bytes (some "s")))
run_code-stored_example =
    run_code-stored one_file ("d" ∷ []) two_bytes quiet one_file-KeepsFiles quiet-PrintsOnly command
      shell shell shell none (some (1 ∷ 2 ∷ [])) ran

-- A repl stores the session after each line, and ends at `exit`; a destroyed session is gone.
commanded :
    (run_repl one_file
        ("d" ∷ [])
        two_bytes
        quiet
        (record { session_id = "s"; language = "py" })
        []
        (shell, none)
      ≡ (err (new_error "UNSUPPORTED_FEATURE" "Language py is not supported."), (shell, none)))
    × (run_repl one_file
          ("d" ∷ [])
          two_bytes
          quiet
          (record { session_id = "s"; language = "python" })
          (ok "1\n" ∷ ok " exit\n" ∷ err "closed" ∷ [])
          (shell, none)
        ≡ (ok ExitCode.success, (shell, some (1 ∷ 2 ∷ []))))
    × (run_session_command one_file
          ("d" ∷ [])
          two_bytes
          quiet
          (SessionAction.destroy "s")
          (shell, some [])
        ≡ (ok ExitCode.success, (shell, none)))
    × (run_session_command one_file
          ("d" ∷ [])
          two_bytes
          quiet
          (SessionAction.restore ("f" ∷ []) "s")
          (shell, none)
        ≡ (err (new_error "IO_ERROR" "reading file: not found"), (shell, none)))
    × (run_tools_command one_file ("d" ∷ []) two_bytes quiet (ToolsAction.list "s") (shell, none)
        ≡ (ok ExitCode.success, (shell, none)))
unfolding run_repl run_session_command run_tools_command parse_language Commands.bound
commanded = (refl, refl, refl, refl, refl)

-- A serializer that shows the version of a response.
abbrev to_string : RpcResponse → String
to_string response = response.jsonrpc

abbrev read_ok : ℕ → String → Event
read_ok connection line = record {
  connection = connection;
  next_line = ok (some line);
  text_written = ok tt;
  newline_written = ok tt;
}

-- Two connections: the second one breaks when its response is written.
abbrev events : List Event
events =
    read_ok 1 "session.destroy"
    ∷ record (read_ok 2 "tools.list") { newline_written = err "broken pipe" }
    ∷ read_ok 1 " "
    ∷ read_ok 2 "tools.list"
    ∷ read_ok 1 "no.method"
    ∷ record (read_ok 1 "") { next_line = ok none }
    ∷ []

abbrev daemon : Daemon (Unit {0}) (Option (List ℕ))
daemon = record { shell = shell; world = none; ended = [] }

serve-Replies_example :
    Replies formats to_string 1 true events
      (sent_to 1 (serve formats to_string steady events daemon).0)
serve-Replies_example = serve-Replies formats to_string steady events daemon 1

served :
    ((serve formats to_string steady events daemon).0
      ≡ ((1, "2.0") ∷ (1, "\n") ∷ (2, "2.0") ∷ (1, "2.0") ∷ (1, "\n") ∷ []))
    × ((serve formats to_string steady events daemon).1.ended ≡ (1 ∷ 2 ∷ []))
unfolding serve handle_rpc_request is_blank
served = (refl, refl)

abbrev sockets : Sockets (List String)
sockets = record {
  exists = λ path w. true;
  remove_file = λ path w. (ok tt, "removed" ∷ w);
  bind = λ path w. (ok tt, "bound" ∷ w);
}

listens :
    (listen sockets "unix:///tmp/s" [] ≡ (ok tt, "bound" ∷ "removed" ∷ []))
    × (listen sockets "tcp://x" [] ≡ (
      err (new_error "INVALID_ARGUMENT" "Only unix:// daemon listeners are currently supported."),
      [],
    ))
unfolding listen
listens = (refl, refl)

abbrev deaf : Sockets (Option (List ℕ))
deaf = record {
  exists = λ path w. false;
  remove_file = λ path w. (ok tt, w);
  bind = λ path w. (err "in use", w);
}

abbrev input : Input
input = record { lines = []; events = events; accept_error = "closed" }

-- A command that ends with an error exits with a failure; a validation that succeeds, with success.
exits :
    (run_cli one_file
        ("d" ∷ [])
        two_bytes
        quiet
        deaf
        formats
        to_string
        input
        (Command.daemon "unix://s")
        (shell, none)
      ≡ (ExitCode.failure, none))
    × (run_cli one_file
          ("d" ∷ [])
          two_bytes
          quiet
          deaf
          formats
          to_string
          input
          (Command.validate command)
          (shell, none)
        ≡ (ExitCode.success, none))
    × (run_cli one_file
          ("d" ∷ [])
          two_bytes
          quiet
          deaf
          formats
          to_string
          input
          (Command.session SessionAction.list)
          (shell, none)
        ≡ (ExitCode.success, none))
unfolding run_cli Commands.bound
exits = (refl, refl, refl)
