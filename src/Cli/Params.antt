-- ===== src/Cli/Params.antt =====
-- `string_param`, `request_from_params`, `parse_language` and `read_code` of crates/langshell-cli/src/lib.rs.
pub mod Requests
use langshell.Common.{
  ℕ, ◌≡◌, Bool, true, false, leb, contains, String, Option, none, some, get_or, and_then, List, [],
  ◌∷◌, Result, ok, err, ok_or, map_ok, map_err, ◌>>=◌, ◌<>◌, if◌then◌else◌,
}
use langshell.Core.{
  Value, Fields, get, as_str, as_u64, as_bool, as_object, Language, ErrorObject, RunRequest,
  SessionLimits, new_error,
}
use langshell.Core.Session.{new_request}
use langshell.Monty.Limits.{u32_max}

unfoldable pub string_param : Value → String → Option String
unfolding get
string_param params key = and_then (get key params) as_str

abbrev pub session_or_default : Value → String
unfolding string_param
session_or_default params = get_or (string_param params "session_id") "default"

abbrev pub unsupported_language : String → ErrorObject
unsupported_language language =
    new_error "UNSUPPORTED_FEATURE" ("Language " <> language <> " is not supported.")

-- The language of a request: the names that `request_from_params` takes.
unfoldable pub language_param : Option String → Result ErrorObject Language
language_param none = ok Language.python
language_param (some name) =
    if contains ("python" ∷ "Python" ∷ []) name
    then ok Language.python
    else if contains ("typescript" ∷ "TypeScript" ∷ []) name
    then ok Language.type_script
    else err (unsupported_language name)

-- The command line's names.
unfoldable pub parse_language : String → Result ErrorObject Language
parse_language name =
    if contains ("python" ∷ "Python" ∷ []) name
    then ok Language.python
    else if contains ("typescript" ∷ "TypeScript" ∷ "ts" ∷ "TS" ∷ []) name
    then ok Language.type_script
    else err (unsupported_language name)

-- `u32::try_from(value).ok()`
abbrev as_u32 : ℕ → Option ℕ
as_u32 n = if leb n u32_max then some n else none

-- The limits of a request, read by `from_value`.
limits_param :
    (Value → Result String SessionLimits) → Option Value → Result ErrorObject (Option SessionLimits)
limits_param from_value none = ok none
limits_param from_value (some value) =
    map_ok some
      (map_err (λ e. new_error "INVALID_ARGUMENT" ("invalid limits: " <> e)) (from_value value))

unfoldable pub request_from_params :
    (Value → Result String SessionLimits) → Value → Result ErrorObject RunRequest
unfolding string_param language_param limits_param new_request get
request_from_params from_value params = do
  code ←
      ok_or (string_param params "code") (new_error "INVALID_ARGUMENT" "session.run requires code.")
  request ← new_request (session_or_default params) code
  language ← language_param (string_param params "language")
  limits ← limits_param from_value (get "limits" params)
  ok (record request {
    language = language;
    inputs = get_or (and_then (get "inputs" params) as_object) request.inputs;
    timeout_ms = and_then (and_then (get "timeout_ms" params) as_u64) as_u32;
    return_snapshot = get_or (and_then (get "return_snapshot" params) as_bool) false;
    limits = limits;
  })

-- `read_code` by `-e` and `-f`; the file is read by `read_to_string`.
unfoldable pub read_code :
    (String → Result String String) → Option String → Option String → Result ErrorObject String
read_code read_to_string (some code) none = ok code
read_code read_to_string none (some path) =
    map_err (λ e. new_error "IO_ERROR" ("reading " <> path <> ": " <> e)) (read_to_string path)
read_code read_to_string none none =
    err (new_error "INVALID_ARGUMENT" "Provide code with -e or -f.")
read_code read_to_string (some code) (some path) =
    err (new_error "INVALID_ARGUMENT" "Use either -e or -f, not both.")
