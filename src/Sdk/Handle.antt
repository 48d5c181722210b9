-- ===== src/Sdk/Handle.antt =====
-- `SessionHandle` and `RunBuilder` of crates/langshell/src/lib.rs.
use langshell.Common.{ℕ, Bool, true, false, String, none, some}
use langshell.Core.{Value, Fields, insert_field, Language, RunRequest, RunResult}
use langshell.Sdk.{LanguageRuntime, LangShell, run}

pub record SessionHandle (S : Type 0) : Type 0 where
  pub shell : LangShell S
  pub session_id : String
  pub language : Language

pub record RunBuilder (S : Type 0) : Type 0 where
  pub shell : LangShell S
  pub request : RunRequest

module _ {S : Type 0} where
  abbrev pub session_with_language : LangShell S → String → Language → SessionHandle S
  session_with_language shell id language = record {
    shell = shell;
    session_id = id;
    language = language;
  }

  abbrev pub session : LangShell S → String → SessionHandle S
  session shell id = session_with_language shell id Language.python

  abbrev pub typescript_session : LangShell S → String → SessionHandle S
  typescript_session shell id = session_with_language shell id Language.type_script

  abbrev pub with_language : SessionHandle S → Language → SessionHandle S
  with_language handle language = record handle { language = language }

  -- `SessionHandle::run`: the id is not checked here.
  abbrev pub run_code : SessionHandle S → String → RunBuilder S
  run_code handle code = record {
    shell = handle.shell;
    request = record {
      session_id = record { id = handle.session_id };
      language = handle.language;
      code = code;
      inputs = Fields.end;
      timeout_ms = none;
      limits = none;
      return_snapshot = false;
      validate_only = false;
    };
  }

  -- `SessionHandle::validate`.
  abbrev pub validate_code : SessionHandle S → String → RunBuilder S
  validate_code handle code =
      let builder = run_code handle code in
      record builder { request = record builder.request { validate_only = true } }

  abbrev pub input : RunBuilder S → String → Value → RunBuilder S
  unfolding insert_field
  input builder key value = record builder {
    request = record builder.request { inputs = insert_field key value builder.request.inputs };
  }

  abbrev pub inputs : RunBuilder S → Fields → RunBuilder S
  inputs builder fields = record builder { request = record builder.request { inputs = fields } }

  abbrev pub timeout_ms : RunBuilder S → ℕ → RunBuilder S
  timeout_ms builder ms = record builder {
    request = record builder.request { timeout_ms = some ms };
  }

  abbrev pub return_snapshot : RunBuilder S → Bool → RunBuilder S
  return_snapshot builder enabled = record builder {
    request = record builder.request { return_snapshot = enabled };
  }

unfoldable pub execute :
    {S W : Type 0} → LanguageRuntime S W → RunBuilder S → W → (RunResult × LangShell S) × W
unfolding run
execute rt builder w = run rt builder.shell builder.request w
