-- ===== src/Cli/Tests.antt =====
-- Instances of the theorems on the daemon's requests and the stored sessions.
pub mod CommandTests
use langshell.Common.{
  str_lt, ℕ, is_some, ok_or, ◌≡◌, refl, ◌⊎◌, true, false, Option, none, some, List, [], ◌∷◌, ok,
  err,
}
use langshell.Core.{
  Value, Number, Fields, to_fields, Language, RunRequest, ok_result, default_metrics,
  default_limits,
}
use langshell.Core.Session.{MatchesPattern, invalid_session_id}
use langshell.Sdk.{LanguageRuntime, LangShell}
use langshell.Cli.Params.{request_from_params}
use langshell.Cli.Params.Requests.{IsRequestOf, request_from_params-IsRequestOf}
use langshell.Cli.Rpc.{Formats, handle_rpc_request, status_ok}
use langshell.Cli.Rpc.Responses.{IsResponse, id_of, handle_rpc_request-IsResponse}
use langshell.Sdk.Restore.{restore_session}
use langshell.Cli.Store.{session_file, session_file_lem}
use langshell.Cli.Store.Sessions.{Disk, list_stored_sessions, save_any_session, destroy_stored}
use langshell.Cli.Store.Sessions.Saved.{KeepsFiles}

-- A runtime that answers every request in the same way.
abbrev steady : LanguageRuntime (Unit {0}) (Option (List ℕ))
steady = record {
  language = λ s. Language.python;
  create_session = λ s id limits. (ok tt, s);
  run = λ s request w. ((ok_result none "" default_metrics, s), w);
  destroy_session = λ s id. (ok true, s);
  list_sessions = λ s. ok [];
  snapshot_session = λ s id. ok [];
  restore_session = λ s bs id. (ok (record { id = "r" }), s);
  can_restore_snapshot = λ s bs. true;
}

abbrev shell : LangShell (Unit {0})
shell = record { runtimes = tt ∷ [] }

abbrev formats : Formats
formats = record {
  from_str = λ line. ok (record {
    id = Value.number (Number.pos_int 7);
    method = line;
    params = Value.object (to_fields (("session_id", Value.string "s") ∷ []));
  });
  limits_from_value = λ v. ok default_limits;
  result_value = λ r. Value.null;
  error_value = λ e. Value.string e.code;
  encode = λ bs. "";
  decode = λ s. ok [];
}

handle_rpc_request-IsResponse_example :
    IsResponse
      (id_of (formats.from_str "session.destroy"))
      (handle_rpc_request formats steady shell "session.destroy" none).0.0
handle_rpc_request-IsResponse_example =
    handle_rpc_request-IsResponse formats steady shell "session.destroy" none

destroyed :
    (handle_rpc_request formats steady shell "session.destroy" none).0.0.result
    ≡ some (status_ok (("removed", Value.bool true) ∷ []))
unfolding handle_rpc_request
destroyed = refl

abbrev params : Value
params = Value.object (
    to_fields (
      ("code", Value.string "1")
      ∷ ("language", Value.string "typescript")
      ∷ ("timeout_ms", Value.number (Number.pos_int 4_294_967_296))
      ∷ []))

abbrev request : RunRequest
request = record {
  session_id = record { id = "default" };
  language = Language.type_script;
  code = "1";
  inputs = Fields.end;
  timeout_ms = none;
  limits = none;
  return_snapshot = false;
  validate_only = false;
}

request-eq : request_from_params formats.limits_from_value params ≡ ok request
unfolding request_from_params
request-eq = refl

request_from_params-IsRequestOf_example : IsRequestOf params request
request_from_params-IsRequestOf_example =
    request_from_params-IsRequestOf formats.limits_from_value params request request-eq

session_file_lem_example :
    (MatchesPattern "../x" × (session_file ("tmp" ∷ []) "../x" ≡ ok ("tmp" ∷ "../x.cbor" ∷ [])))
    ⊎ ((¬ MatchesPattern "../x") × (session_file ("tmp" ∷ []) "../x" ≡ err invalid_session_id))
session_file_lem_example = session_file_lem ("tmp" ∷ []) "../x"

-- A disk that remembers the file that was written last, whatever its path.
abbrev one_file : Disk (Option (List ℕ))
one_file = record {
  display = λ path. "file";
  exists = λ path w. is_some w;
  read = λ path w. ok_or w "not found";
  create_dir_all = λ path w. (ok tt, w);
  write = λ path bytes w. (ok tt, some bytes);
  remove_file = λ path w. (ok tt, none);
  read_dir =
      λ path w. ok (ok (some "b.cbor") ∷ ok (some "a.cbor") ∷ ok (some "a.txt") ∷ ok none ∷ []);
}

one_file-KeepsFiles : KeepsFiles one_file
one_file-KeepsFiles = record {
  exists-write = λ path bytes w h. refl;
  read-write = λ path bytes w h. refl;
}

-- The runtime above, with a snapshot of two bytes.
abbrev two_bytes : LanguageRuntime (Unit {0}) (Option (List ℕ))
two_bytes = record steady { snapshot_session = λ s id. ok (1 ∷ 2 ∷ []) }

stored :
    (list_stored_sessions one_file ("d" ∷ []) two_bytes (some []) ≡ ok ("a" ∷ "b" ∷ []))
    × (destroy_stored one_file ("d" ∷ []) two_bytes "s" (some []) ≡ (ok true, none))
    × (destroy_stored one_file ("d" ∷ []) two_bytes "s" none ≡ (ok false, none))
    × (save_any_session one_file ("d" ∷ []) two_bytes shell "s" none ≡ (ok tt, some (1 ∷ 2 ∷ [])))
unfolding list_stored_sessions destroy_stored save_any_session str_lt
stored = (refl, refl, refl, refl)
