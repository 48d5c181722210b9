-- ===== src/Monty/Tests/SessionTests/ResumedTests.antt =====
-- A run of the command line over the runtime of crates/langshell-monty/src/lib.rs, with the small interpreter.
use langshell.Common.{
  ℕ, ◌≡◌, refl, true, false, len, Option, none, some, is_some, ok_or, lookup, put, List, [], ◌∷◌,
  ok, err,
}
use langshell.Core.{Value, SessionId, RunRequest, default_limits}
use langshell.Core.Digest.{digest_json, to_hex}
use langshell.Core.Session.{new_session_id}
use langshell.Sdk.Restore.Alone.{alone}
use langshell.Monty.Objects.{Interpreter}
use langshell.Monty.Snippet.Termination.{IsBounded}
use langshell.Monty.Validate.{Nodes}
use langshell.Monty.Session.{MontySession, Packages}
use langshell.Monty.Session.Total.{StartsWithin, turns_of}
use langshell.Monty.Runtime.{MontyRuntime, run, with_sessions}
use langshell.Monty.Runtime.Snapshots.{restored}
use langshell.Monty.Runtime.Total.{run-total}
use langshell.Monty.Instance.{language_runtime}
use langshell.Cli.Store.Sessions.{Disk, load_session_if_exists}
use langshell.Cli.Store.Sessions.Saved.{KeepsFiles}
use langshell.Cli.Commands
use langshell.Cli.Commands.{ExitCode, RunCommand, Console, run_code}
use langshell.Cli.Commands.Stored.{PrintsOnly}
use langshell.Cli.Commands.Resumed.{run_code-resumed}
use langshell.Cli.Commands.Validated.{Unchanged, run_code-validated}
use langshell.Monty.Instance.Validation.{language_runtime-ValidatesPurely}
use langshell.Monty.Tests.{interpreter, library, hashing, stop-ResumedWithin}
use langshell.Monty.Tests.SessionTests.{id, request, storage, storage-RoundTrips}

abbrev stopping : Interpreter ℕ ℕ
stopping = record interpreter { into_repl = λ k. 3 }

-- The world is a file.
abbrev File : Type 0
File = Option (List ℕ)

abbrev packages : Packages ℕ ℕ File
packages = record {
  interpreter = stopping;
  library = library;
  hashing = hashing;
  host = record { elapsed = λ w w'. 1; choose = λ w. 0 };
  parse_module = λ code. some Nodes.nil;
  current_memory = λ repl. repl;
  set_max_duration = λ repl ms. repl;
}

stopping-IsBounded : IsBounded (λ (k : ℕ). k) stopping
stopping-IsBounded = record {
  lookup = λ k r. stop-ResumedWithin k;
  call = λ k r. stop-ResumedWithin k;
  pending = stop-ResumedWithin;
  futures = λ k rs. stop-ResumedWithin k;
  os = stop-ResumedWithin;
}

stopping-StartsWithin : StartsWithin (λ (k : ℕ). k) stopping len
stopping-StartsWithin = record { start = λ repl code inputs. stop-ResumedWithin (len code) }

abbrev fresh : MontyRuntime ℕ File
fresh = record { sessions = []; registry = record { tools = [] }; default_limits = default_limits }

run-total_example : is_some (run packages storage (turns_of len request) fresh request none) ≡ true
run-total_example =
    run-total packages storage (λ (k : ℕ). k) len stopping-IsBounded stopping-StartsWithin fresh
      request none

ends :
    (rt : MontyRuntime ℕ File) (request : RunRequest) (w : File)
    → is_some (run packages storage (turns_of len request) rt request w) ≡ true
ends rt request w =
    run-total packages storage (λ (k : ℕ). k) len stopping-IsBounded stopping-StartsWithin rt
      request w

abbrev disk : Disk File
disk = record {
  display = λ path. "file";
  exists = λ path w. is_some w;
  read = λ path w. ok_or w "not found";
  create_dir_all = λ path w. (ok tt, w);
  write = λ path bytes w. (ok tt, some bytes);
  remove_file = λ path w. (ok tt, none);
  read_dir = λ path w. ok [];
}

disk-KeepsFiles : KeepsFiles disk
disk-KeepsFiles = record {
  exists-write = λ path bytes w h. refl;
  read-write = λ path bytes w h. refl;
}

abbrev console : Console File
console = record {
  prompt = λ text w. (ok tt, w);
  print_line = λ text w. w;
  to_string_pretty = λ v. ok "{}";
  result_value = λ r. Value.null;
  path_value = λ path. Value.null;
  read_to_string = λ path w. err "not found";
}

console-PrintsOnly : PrintsOnly disk console
console-PrintsOnly = record {
  exists-print_line = λ path text w. refl;
  read-print_line = λ path text w. refl;
}

abbrev command : RunCommand
command = record {
  eval = some "";
  file = none;
  session_id = "s";
  timeout_ms = none;
  language = "python";
}

abbrev left : MontyRuntime ℕ File
left = record fresh { sessions = ("s", record { id = id; limits = default_limits; repl = 3 }) ∷ [] }

ran :
    run_code disk
      ("d" ∷ [])
      (language_runtime packages storage (turns_of len) ends)
      console
      command
      false
      (alone fresh, none)
    ≡ (ok ExitCode.success, (alone left, some (1 ∷ [])))
unfolding run_code Commands.bound language_runtime storage digest_json to_hex
ran = refl

run_code-resumed_example :
    (id : SessionId) × (session : MontySession ℕ) × (new_session_id "s" ≡ ok id)
    × (lookup id.id left.sessions ≡ some session)
    × (load_session_if_exists disk
          ("d" ∷ [])
          (language_runtime packages storage (turns_of len) ends)
          (alone fresh)
          "s"
          (some (1 ∷ []))
        ≡ (
          ok tt,
          alone (
              with_sessions packages storage fresh
                (put id.id (restored packages storage id session.limits session.repl) [])),
        ))
run_code-resumed_example =
    run_code-resumed packages storage (turns_of len) ends disk ("d" ∷ []) console disk-KeepsFiles
      console-PrintsOnly storage-RoundTrips command (alone fresh) left fresh none (some (1 ∷ []))
      ran refl

run_code-validated_example :
    Unchanged disk
      ("d" ∷ [])
      (language_runtime packages storage (turns_of len) ends)
      console
      (alone fresh, none)
      (run_code disk
        ("d" ∷ [])
        (language_runtime packages storage (turns_of len) ends)
        console
        command
        true
        (alone fresh, none)).1
run_code-validated_example =
    run_code-validated disk ("d" ∷ []) (language_runtime packages storage (turns_of len) ends)
      console console-PrintsOnly
      (language_runtime-ValidatesPurely packages storage (turns_of len) ends) command
      (alone fresh, none)
