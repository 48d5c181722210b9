-- ===== src/Cli/Main.antt =====
-- `Command`, `run_inner` and `run` of crates/langshell-cli/src/lib.rs, over the shell that `default_shell` makes.
use langshell.Common.{true, false, String, List, Result, map_ok}
use langshell.Core.{ErrorObject}
use langshell.Sdk.{LanguageRuntime, LangShell}
use langshell.Cli.Store.Sessions.{Disk}
use langshell.Cli.Rpc.{RpcResponse, Formats}
use langshell.Cli.Daemon.{Sockets, Event, run_daemon}
use langshell.Cli.Commands.{
  ExitCode, RunCommand, ReplCommand, SessionAction, ToolsAction, Console, run_code, run_repl,
  run_session_command, run_tools_command, exit_of,
}

pub data Command : Type 0 where
  run : RunCommand → Command
  validate : RunCommand → Command
  repl : ReplCommand → Command
  daemon : (listen : String) → Command
  session : SessionAction → Command
  tools : ToolsAction → Command

-- What comes from outside: the lines of the standard input, and the events of the daemon's connections until
-- `accept` fails.
pub record Input : Type 0 where
  pub lines : List (Result String String)
  pub events : List Event
  pub accept_error : String

module _ {S W : Type 0} (disk : Disk W) (session_dir : List String) (rt : LanguageRuntime S W)
    (console : Console W) (sockets : Sockets W) (formats : Formats)
    (to_string : RpcResponse → String) (input : Input) where
  abbrev ended :
      Result ErrorObject (Unit {0}) × (LangShell S × W)
      → Result ErrorObject ExitCode × (LangShell S × W)
  ended (r, s) = (map_ok (λ u. ExitCode.success) r, s)

  unfoldable pub run_inner :
      Command → LangShell S × W → Result ErrorObject ExitCode × (LangShell S × W)
  unfolding run_code run_repl run_daemon run_session_command run_tools_command
  run_inner (Command.run command) s = run_code disk session_dir rt console command false s
  run_inner (Command.validate command) s = run_code disk session_dir rt console command true s
  run_inner (Command.repl command) s = run_repl disk session_dir rt console command input.lines s
  run_inner (Command.daemon address) s =
      ended (run_daemon formats to_string rt sockets address input.events input.accept_error s).0
  run_inner (Command.session action) s = run_session_command disk session_dir rt console action s
  run_inner (Command.tools action) s = run_tools_command disk session_dir rt console action s

  unfoldable pub run_cli : Command → LangShell S × W → ExitCode × W
  unfolding run_inner exit_of
  run_cli command s = exit_of disk session_dir rt console (run_inner command s)
