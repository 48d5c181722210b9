-- ===== src/Cli/Commands.antt =====
-- The commands of crates/langshell-cli/src/lib.rs: `run_code`, `run_repl`, `run_session_command`,
-- `run_tools_command` and `run`, over a shell, a file system and a console. Arguments come parsed.
pub mod Stored
pub mod Validated
pub mod Resumed
use langshell.Common.{
  ℕ, ◌≡◌, Bool, true, false, not, ◌&&◌, ◌||◌, ◌==◌, ◌<>◌, eqb, len, String, Option, none, some,
  List, [], ◌∷◌, Result, ok, err, map_err, debug, trim, map, if◌then◌else◌,
}
use langshell.Core.{
  Value, Fields, to_fields, to_items, ErrorObject, new_error, Language, RunRequest, RunResult,
  RunStatus, is_ok_status, SessionId, error_result, default_metrics,
}
use langshell.Core.Session.{new_request}
use langshell.Sdk.{LanguageRuntime, LangShell, snapshot_session}
use langshell.Sdk
use langshell.Sdk.Restore.{restore_session}
use langshell.Sdk.Handle.{session, session_with_language, execute}
use langshell.Sdk.Handle
use langshell.Cli.Params.{parse_language, read_code}
use langshell.Cli.Store.Sessions.{
  Disk, io_error, list_stored_sessions, load_session_if_exists, save_session, save_any_session,
  destroy_stored,
}

pub data ExitCode : Type 0 where
  success failure : ExitCode

pub record RunCommand : Type 0 where
  pub eval : Option String
  pub file : Option String
  pub session_id : String
  pub timeout_ms : Option ℕ
  pub language : String

pub record ReplCommand : Type 0 where
  pub session_id : String
  pub language : String

pub data SessionAction : Type 0 where
  list : SessionAction
  snapshot : (session_id : String) → (out : List String) → SessionAction
  restore : (from : List String) → (session_id : String) → SessionAction
  destroy : (session_id : String) → SessionAction

pub data ToolsAction : Type 0 where
  list : (session_id : String) → ToolsAction
  describe : (name : String) → (session_id : String) → ToolsAction

-- The standard output and the serializers: `prompt` prints and flushes, `print_line` is `println!`.
pub record Console (W : Type 0) : Type 0 where
  pub prompt : String → W → Result String (Unit {0}) × W
  pub print_line : String → W → W
  pub to_string_pretty : Value → Result String String
  pub result_value : RunResult → Value
  pub path_value : List String → Value
  pub read_to_string : String → W → Result String String

abbrev status_ok : List (String × Value) → Value
status_ok fields = Value.object (to_fields (("status", Value.string "ok") ∷ fields))

abbrev pub exit_code : RunResult → ExitCode
exit_code result = if is_ok_status result.status then ExitCode.success else ExitCode.failure

module _ {S W : Type 0} (disk : Disk W) (session_dir : List String) (rt : LanguageRuntime S W)
    (console : Console W) where
  -- What a command does to the shell and the world, until an error ends it.
  abbrev pub M : Type 0 → Type 0
  M A = LangShell S × W → Result ErrorObject A × (LangShell S × W)

  unfoldable pub bound :
      {A B : Type 0}
      → (A → M B)
      → Result ErrorObject A × (LangShell S × W)
      → Result ErrorObject B × (LangShell S × W)
  bound next (err e, s) = (err e, s)
  bound next (ok a, s) = next a s

  infixl 5 ◌>>=◌ ◌>>◌
  abbrev ◌>>=◌ : {A B : Type 0} → M A → (A → M B) → M B
  ◌>>=◌ first next s = bound next (first s)

  abbrev ◌>>◌ : {B : Type 0} → M (Unit {0}) → M B → M B
  ◌>>◌ first next = first >>= λ _. next

  abbrev pure : {A : Type 0} → A → M A
  pure a s = (ok a, s)

  abbrev lift : {A : Type 0} → Result ErrorObject A → M A
  lift r s = (r, s)

  abbrev when : Bool → M (Unit {0}) → M (Unit {0})
  when test action s = if test then action s else (ok tt, s)

  load : String → M (Unit {0})
  unfolding load_session_if_exists
  load session_id (shell, w) =
      let (r, shell') = load_session_if_exists disk session_dir rt shell session_id w in
      (r, (shell', w))

  save : String → Language → M (Unit {0})
  unfolding save_session
  save session_id language (shell, w) =
      let (r, w') = save_session disk session_dir rt shell session_id language w in (r, (shell, w'))

  run_request : RunRequest → M RunResult
  unfolding Sdk.run
  run_request request (shell, w) =
      let ((result, shell'), w') = Sdk.run rt shell request w in (ok result, (shell', w'))

  -- `shell.session_with_language(id, language).run(code).execute()`
  run_in_session : String → Language → String → M RunResult
  unfolding execute
  run_in_session session_id language code (shell, w) =
      let ((result, shell'), w') =
        execute rt (Handle.run_code (session_with_language shell session_id language) code) w in
      (ok result, (shell', w'))

  abbrev printed : Result String String → M (Unit {0})
  printed (err e) s = (err (new_error "SERIALIZE_ERROR" ("json output: " <> e)), s)
  printed (ok text) (shell, w) = (ok tt, (shell, console.print_line text w))

  unfoldable pub print_json : Value → M (Unit {0})
  print_json value s = printed (console.to_string_pretty value) s

  code_of : RunCommand → M String
  unfolding read_code
  code_of command (shell, w) =
      (read_code (λ path. console.read_to_string path w) command.eval command.file, (shell, w))

  unfoldable pub run_code : RunCommand → Bool → M ExitCode
  unfolding load parse_language code_of new_request run_request save print_json
  run_code command validate_only = do
    when (not validate_only) (load command.session_id)
    language ← lift (parse_language command.language)
    code ← code_of command
    request ← lift (new_request command.session_id code)
    result ← run_request (record request {
      language = language;
      validate_only = validate_only;
      timeout_ms = command.timeout_ms;
    })
    when (not validate_only && is_ok_status result.status) (save command.session_id language)
    print_json (console.result_value result)
    pure (exit_code result)

  -- A line of `run_repl`, and whether the loop goes on.
  repl_line : String → Language → String → M (Unit {0})
  unfolding run_in_session print_json save
  repl_line session_id language line = do
    result ← run_in_session session_id language line
    print_json (console.result_value result)
    when (is_ok_status result.status) (save session_id language)

  abbrev ends_repl : String → Bool
  unfolding trim
  ends_repl line = eqb (len line) 0 || (trim line == "exit") || (trim line == "quit")

  prompt : String → M (Unit {0})
  prompt session_id (shell, w) =
      let (r, w') = console.prompt ("langshell:" <> session_id <> "> ") w in
      (map_err (λ e. io_error ("stdout: " <> e)) r, (shell, w'))

  -- The loop of `run_repl` over what `read_line` gives; after the last line there is the end of the input.
  unfoldable pub repl_loop : String → Language → List (Result String String) → M (Unit {0})
  unfolding prompt repl_line trim
  repl_loop session_id language [] = prompt session_id
  repl_loop session_id language (err e ∷ lines) =
      prompt session_id >> lift (err (io_error ("stdin: " <> e)))
  repl_loop session_id language (ok line ∷ lines) = prompt session_id >> (λ s.
      if ends_repl line
      then (ok tt, s)
      else (repl_line session_id language line >> repl_loop session_id language lines) s)

  unfoldable pub run_repl : ReplCommand → List (Result String String) → M ExitCode
  unfolding parse_language load repl_loop
  run_repl command lines = do
    language ← lift (parse_language command.language)
    load command.session_id
    repl_loop command.session_id language lines
    pure ExitCode.success

  of_world : {A : Type 0} → (W → Result ErrorObject A × W) → M A
  of_world f (shell, w) = let (r, w') = f w in (r, (shell, w'))

  of_shell : {A : Type 0} → (LangShell S → Result ErrorObject A) → M A
  of_shell f (shell, w) = (f shell, (shell, w))

  restore_bytes : List ℕ → String → M SessionId
  unfolding restore_session
  restore_bytes bytes session_id (shell, w) =
      let (r, shell') = restore_session rt shell bytes (some session_id) in (r, (shell', w))

  abbrev described :
      String → List String → Result String (Unit {0}) × W → Result ErrorObject (Unit {0}) × W
  described what path (r, w) =
      (map_err (λ e. io_error (what <> " " <> disk.display path <> ": " <> e)) r, w)

  unfoldable pub run_session_command : SessionAction → M ExitCode
  unfolding of_world of_shell load restore_bytes print_json list_stored_sessions destroy_stored
      save_any_session snapshot_session
  run_session_command SessionAction.list = do
    ids ← of_world (λ w. (list_stored_sessions disk session_dir rt w, w))
    print_json (status_ok (("sessions", Value.array (to_items (map Value.string ids))) ∷ []))
    pure ExitCode.success
  run_session_command (SessionAction.snapshot session_id out) = do
    load session_id
    bytes ← of_shell (λ shell. snapshot_session rt shell session_id)
    of_world (λ w. described "writing" out (disk.write out bytes w))
    print_json (status_ok (("out", console.path_value out) ∷ []))
    pure ExitCode.success
  run_session_command (SessionAction.restore from session_id) = do
    bytes ← of_world (λ w. (
      map_err (λ e. io_error ("reading " <> disk.display from <> ": " <> e)) (disk.read from w),
      w,
    ))
    id ← restore_bytes bytes session_id
    λ s. of_world (save_any_session disk session_dir rt s.0 session_id) s
    print_json (status_ok (("session_id", Value.string session_id) ∷ []))
    pure ExitCode.success
  run_session_command (SessionAction.destroy session_id) = do
    removed ← of_world (destroy_stored disk session_dir rt session_id)
    print_json (status_ok (("removed", Value.bool removed) ∷ []))
    pure ExitCode.success

  unfoldable pub run_tools_command : ToolsAction → M ExitCode
  unfolding load run_in_session print_json
  run_tools_command (ToolsAction.list session_id) = do
    load session_id
    result ← run_in_session session_id Language.python "result = list_tools()"
    print_json (console.result_value result)
    pure ExitCode.success
  run_tools_command (ToolsAction.describe name session_id) = do
    load session_id
    result ←
        run_in_session session_id Language.python ("result = describe_tool(" <> debug name <> ")")
    print_json (console.result_value result)
    pure ExitCode.success

  -- The end of `run`: an error is printed as a result, and a failure of that is ignored.
  unfoldable pub exit_of : Result ErrorObject ExitCode × (LangShell S × W) → ExitCode × W
  unfolding print_json
  exit_of (ok code, s) = (code, s.1)
  exit_of (err error, s) = (
    ExitCode.failure,
    (print_json
        (console.result_value (error_result RunStatus.runtime_error error "" default_metrics))
        s).1.1,
  )
