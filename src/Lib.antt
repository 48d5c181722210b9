-- ===== src/Lib.antt =====
-- LangShell: a runtime for untrusted scripts that call registered tools.
--
-- The program's parts are crates. langshell-core has the data model, the tool registry and small routines;
-- langshell-tools has the built-in tools, with the file mounts and the HTTP allowlist that confine them;
-- langshell-monty runs Python programs with the Monty interpreter, keeps sessions and makes snapshots of
-- them; langshell (the SDK) puts language runtimes behind one shell, and builds it; langshell-deno runs
-- TypeScript, and langshell-cli is the command line and the daemon. A client builds a shell, which makes
-- the built-in tools and a runtime for each language; a run goes to the runtime of its language, which
-- takes the session out of its map, validates the program, drives the interpreter, calls a tool of the
-- registry whenever the program does, and puts the session back.
--
-- Files, with the code that they model:
-- - Common and its children: what the other files share. Results is Rust's `Result`, Maps and Order
--   are its maps (a `BTreeMap` is a sorted association list), Text and TextLaws its strings.
-- - Core (crates/langshell-core/src/lib.rs): Enums, Types and Json are its data; Session is `SessionId`
--   and its pattern, Truncate is `truncate_utf8`, Digest is `to_hex`, `digest_json` and `digest_bytes`, and
--   Registry is `ToolRegistry`.
-- - Tools (crates/langshell-tools/src/lib.rs): Urls is `ensure_url_allowed`, Mounts `resolve_virtual_path`,
--   Files the file tools, Discovery the discovery tools, and Builtin `register_builtin_tools`.
-- - Monty (crates/langshell-monty/src/lib.rs): Objects is what it uses of the interpreter, Convert the
--   conversions, Errors the error codes, Limits the limits, Calls `run_tool_async` and its helpers,
--   Snippet `run_repl_snippet`, Validate `static_validation_error`, Session `run_session`, Runtime
--   `MontyRuntime`, and Instance its `LanguageRuntime`.
-- - Sdk (crates/langshell/src/lib.rs): Sdk is `LangShell`, Restore its `restore_session`, Handle
--   `SessionHandle` and `RunBuilder`, and Builder `LangShellBuilder`.
-- - Cli (crates/langshell-cli/src/lib.rs): Params is `request_from_params`, Rpc `handle_rpc_request` and the
--   functions of its methods, Store the files of sessions, Commands the commands `run`, `validate`,
--   `repl`, `session` and `tools`, Daemon `run_daemon` with `handle_rpc_stream`, and Main `run`.
-- - Deno (crates/langshell-deno/src/lib.rs): Ops is `DenoOpState`, `op_print`, the two ops that call a tool
--   and `reset_run_state`, and Calls the orders in which a program's calls begin and end;
--   Streams is `apply_streams`, Errors the error codes and limits, Validate `static_validation_error`, Engine
--   what is used of the JavaScript engine, Scripts the scripts of a session, Session `DenoSession`, and
--   Worker `DenoWorker`, whose child Commands is the loop of its thread with the commands.
-- The modules named Tests run the definitions on small inputs.
--
-- An operation that changes state takes the state and gives it back; a panic or a loop without an end is
-- `none`. A handler of a tool is a function of the call and of the world `W` that all tools share. What
-- other packages do is a parameter: the hash, the file system, the interpreter with its object library,
-- the parsers, the CBOR and base64 codecs, the serializers, the conversion of a text to lower case, and
-- the host's clock and its choice of the future that completes next. A future runs in one piece when it
-- completes. The ops of Deno are steps: an asynchronous call is one step that begins it and one that ends it,
-- and other steps may stand between them. A script of JavaScript is a tree of what it does next, which ends: the
-- timer ends one that would not.
--
-- Machine integers are natural numbers; where the code saturates or cuts them, the model does: the count
-- of started calls and the milliseconds saturate at 2^32 - 1, the number of records is cut to 32 bits, the
-- memory limit saturates at 2^64 - 1. The loop of a snippet runs on fuel. Its turns are bounded by the
-- number of times that the interpreter stops, and Termination shows that one more than that is enough (Runtime/Total, for a run with its probe); the
-- inner loop that waits for a future is given the number of futures, each of which it takes once.
--
-- Not modelled: the JavaScript text that langshell-deno runs in a new session, and its timer's thread, of
-- which only the flag is read; the argument parser of langshell-cli and `default_shell`, which names the two
-- runtimes; the Debug and Display instances; `now_unix_ms`, which reads the clock; and the instance
-- `LanguageRuntime` of `DenoRuntime`, which only forwards its calls: a runtime behind the shell is taken to be
-- left as it is by a snapshot, while Deno's runs a script of the session.
mod Common
pub mod Core
pub mod Tools
pub mod Monty
pub mod Sdk
pub mod Cli
pub mod Deno
