-- ===== src/Cli/Rpc.antt =====
-- `handle_rpc_request` and the `rpc_` functions of crates/langshell-cli/src/lib.rs. The parser of a line, the
-- base64 codec and the serializers of results are other packages' code, so they are parameters.
pub mod Responses
use langshell.Common.{
  ℕ, ◌≡◌, Bool, true, false, ◌==◌, String, Option, none, some, get_or, or_else, List, [], ◌∷◌,
  Result, ok, err, ok_or, map_err, map_ok, ◌>>=◌, ◌<>◌, debug, if◌then◌else◌,
}
use langshell.Core.{
  Value, Number, to_fields, ErrorObject, RunRequest, RunResult, SessionId, SessionLimits, new_error,
}
use langshell.Sdk.{
  LanguageRuntime, LangShell, run, create_session, snapshot_session, destroy_session,
}
use langshell.Sdk.Restore.{restore_session}
use langshell.Sdk.Handle.{session, run_code, execute}
use langshell.Cli.Params.{string_param, session_or_default, request_from_params}

pub record RpcRequest : Type 0 where
  pub id : Value
  pub method : String
  pub params : Value

pub record RpcResponse : Type 0 where
  pub jsonrpc : String
  pub id : Value
  pub result : Option Value
  pub error : Option Value

pub record Formats : Type 0 where
  pub from_str : String → Result String RpcRequest
  pub limits_from_value : Value → Result String SessionLimits
  pub result_value : RunResult → Value
  pub error_value : ErrorObject → Value
  pub encode : List ℕ → String
  pub decode : String → Result String (List ℕ)

-- The error object of a response; a code is negative: `neg_int n` is -(n + 1).
abbrev rpc_error : ℕ → String → List (String × Value) → Value
rpc_error n message more = Value.object (
    to_fields
      (("code", Value.number (Number.neg_int n)) ∷ ("message", Value.string message) ∷ more))

abbrev pub status_ok : List (String × Value) → Value
status_ok fields = Value.object (to_fields (("status", Value.string "ok") ∷ fields))

module _ {S W : Type 0} (formats : Formats) (rt : LanguageRuntime S W) where
  -- The answer of a method, the shell and the world after it.
  abbrev pub Answer : Type 0
  Answer = (Result ErrorObject Value × LangShell S) × W

  unfoldable pub rpc_session_create : LangShell S → Value → W → Answer
  unfolding create_session
  rpc_session_create shell params w =
      let id = session_or_default params in
      let (r, shell') = create_session rt shell id in
      ((map_ok (λ u. status_ok (("session_id", Value.string id) ∷ [])) r, shell'), w)

  ran : (RunResult × LangShell S) × W → Answer
  ran ((result, shell), w) = ((ok (formats.result_value result), shell), w)

  run_request : LangShell S → Result ErrorObject RunRequest → Bool → W → Answer
  unfolding ran run
  run_request shell (err e) validate_only w = ((err e, shell), w)
  run_request shell (ok request) validate_only w =
      ran (run rt shell (record request { validate_only = validate_only }) w)

  unfoldable pub rpc_session_run : LangShell S → Value → Bool → W → Answer
  unfolding run_request request_from_params
  rpc_session_run shell params validate_only w =
      run_request shell (request_from_params formats.limits_from_value params) validate_only w

  abbrev pub snapshot_answer : String → List ℕ → Value
  snapshot_answer id snapshot = status_ok (
      ("snapshot_id", Value.string ("snap_" <> id))
      ∷ ("snapshot", Value.string (formats.encode snapshot))
      ∷ [])

  unfoldable pub rpc_session_snapshot : LangShell S → Value → W → Answer
  unfolding snapshot_session
  rpc_session_snapshot shell params w =
      let id = session_or_default params in
      ((map_ok (snapshot_answer id) (snapshot_session rt shell id), shell), w)

  restored : Result ErrorObject SessionId × LangShell S → W → Answer
  restored (r, shell) w = (
    (map_ok (λ (id : SessionId). status_ok (("session_id", Value.string id.id) ∷ [])) r, shell),
    w,
  )

  restore_bytes : LangShell S → Result ErrorObject (List ℕ) → Option String → W → Answer
  unfolding restored restore_session
  restore_bytes shell (err e) session_id w = ((err e, shell), w)
  restore_bytes shell (ok snapshot) session_id w =
      restored (restore_session rt shell snapshot session_id) w

  unfoldable pub rpc_session_restore : LangShell S → Value → W → Answer
  unfolding restore_bytes string_param
  rpc_session_restore shell params w =
      let snapshot =
        ok_or (string_param params "snapshot")
          (new_error "INVALID_ARGUMENT" "session.restore requires snapshot.") in
      restore_bytes shell
        (snapshot >>= λ text.
          map_err (λ e. new_error "SNAPSHOT_CORRUPT" ("base64: " <> e)) (formats.decode text))
        (string_param params "session_id") w

  unfoldable pub rpc_session_destroy : LangShell S → Value → W → Answer
  unfolding destroy_session
  rpc_session_destroy shell params w =
      let (r, shell') = destroy_session rt shell (session_or_default params) in
      ((map_ok (λ b. status_ok (("removed", Value.bool b) ∷ [])) r, shell'), w)

  -- The end of the methods that run one line of Python.
  run_line : LangShell S → Value → String → W → Answer
  unfolding ran execute
  run_line shell params code w =
      ran (execute rt (run_code (session shell (session_or_default params)) code) w)

  abbrev pub rpc_tools_list : LangShell S → Value → W → Answer
  unfolding run_line
  rpc_tools_list shell params w = run_line shell params "result = list_tools()" w

  describe_named : LangShell S → Value → Result ErrorObject String → W → Answer
  unfolding run_line
  describe_named shell params (err e) w = ((err e, shell), w)
  describe_named shell params (ok name) w =
      run_line shell params ("result = describe_tool(" <> debug name <> ")") w

  unfoldable pub rpc_tools_describe : LangShell S → Value → W → Answer
  unfolding describe_named string_param
  rpc_tools_describe shell params w =
      describe_named shell params
        (ok_or (or_else (string_param params "name") (string_param params "tool"))
          (new_error "INVALID_ARGUMENT" "tools.describe requires name."))
        w

  abbrev pub rpc_policy_get : LangShell S → Value → W → Answer
  unfolding run_line
  rpc_policy_get shell params w = run_line shell params "result = current_policy()" w

  -- The match on the method.
  unfoldable pub dispatch : LangShell S → String → Value → W → Answer
  unfolding rpc_session_create rpc_session_run rpc_session_snapshot rpc_session_restore
      rpc_session_destroy rpc_tools_list rpc_tools_describe rpc_policy_get
  dispatch shell method params w =
      if method == "session.create"
      then rpc_session_create shell params w
      else if method == "session.run"
      then rpc_session_run shell params false w
      else if method == "session.validate"
      then rpc_session_run shell params true w
      else if method == "session.snapshot"
      then rpc_session_snapshot shell params w
      else if method == "session.restore"
      then rpc_session_restore shell params w
      else if method == "session.destroy"
      then rpc_session_destroy shell params w
      else if method == "tools.list"
      then rpc_tools_list shell params w
      else if method == "tools.describe"
      then rpc_tools_describe shell params w
      else if method == "policy.get"
      then rpc_policy_get shell params w
      else ((err (new_error "METHOD_NOT_FOUND" ("Unknown method " <> method <> ".")), shell), w)

  respond : Value → Result ErrorObject Value → RpcResponse
  respond id (ok value) = record { jsonrpc = "2.0"; id = id; result = some value; error = none }
  respond id (err e) = record {
    jsonrpc = "2.0";
    id = id;
    result = none;
    error = some (rpc_error 31_999 e.message (("data", formats.error_value e) ∷ []));
  }

  handle_parsed : LangShell S → Result String RpcRequest → W → (RpcResponse × LangShell S) × W
  unfolding respond dispatch
  handle_parsed shell (err e) w = (
    (
      record {
        jsonrpc = "2.0";
        id = Value.null;
        result = none;
        error = some (rpc_error 32_699 e []);
      },
      shell,
    ),
    w,
  )
  handle_parsed shell (ok request) w =
      let ((r, shell'), w') = dispatch shell request.method request.params w in
      ((respond request.id r, shell'), w')

  unfoldable pub handle_rpc_request : LangShell S → String → W → (RpcResponse × LangShell S) × W
  unfolding handle_parsed
  handle_rpc_request shell line w = handle_parsed shell (formats.from_str line) w
