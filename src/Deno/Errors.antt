-- ===== src/Deno/Errors.antt =====
-- `effective_limits`, `code_to_status`, `error_from_js` and the other makers of errors and metrics of
-- crates/langshell-deno/src/lib.rs.
use Prim.Native.String.{[] as nil, ◌∷◌ as ◌::◌}
use langshell.Common.{
  ℕ, ◌≡◌, ◌≢◌, refl, Bool, ◌||◌, ◌==◌, String, Option, none, some, get_or, [], ◌∷◌, map, contains,
  starts_with, if◌then◌else◌,
}
use langshell.Core.{
  Value, to_items, ErrorObject, new_error, Metrics, default_metrics, RunRequest, RunResult,
  RunStatus, SessionLimits, error_result,
}
use langshell.Core.Digest.{Hashing, digest_json}
use langshell.Core.Registry.{ToolRegistry, names}
use langshell.Monty.Limits.{saturate, u32_max}
use langshell.Monty.Errors

set_wall : SessionLimits → Option ℕ → SessionLimits
set_wall limits none = limits
set_wall limits (some timeout_ms) = record limits { wall_ms = timeout_ms }

unfoldable pub effective_limits : SessionLimits → RunRequest → SessionLimits
unfolding set_wall
effective_limits default_limits request =
    set_wall (get_or request.limits default_limits) request.timeout_ms

unfoldable pub code_to_status : String → Bool → RunStatus
code_to_status code validation =
    if code == "PERMISSION_DENIED"
    then RunStatus.permission_denied
    else if code == "WAITING_FOR_APPROVAL"
    then RunStatus.waiting_for_approval
    else if contains ("TIMEOUT_WALL" ∷ "TIMEOUT_CPU" ∷ "TIMEOUT_TOOL" ∷ []) code
    then RunStatus.timeout
    else if code == "CANCELLED"
    then RunStatus.cancelled
    else if contains
        ("MEMORY_EXCEEDED" ∷ "STDOUT_EXCEEDED" ∷ "EXTERNAL_CALLS_EXCEEDED" ∷ "STACK_OVERFLOW" ∷ [])
        code
    then RunStatus.resource_exhausted
    else if contains
        ("SYNTAX_ERROR" ∷ "TYPE_ERROR" ∷ "UNKNOWN_TOOL" ∷ "UNSUPPORTED_FEATURE"
          ∷ "RESULT_NOT_SERIALIZABLE" ∷ "SNAPSHOT_VERSION_MISMATCH" ∷ "SNAPSHOT_CAPABILITY_MISMATCH"
          ∷ "SNAPSHOT_CORRUPT" ∷ [])
        code
    then RunStatus.validation_error
    else if validation
    then RunStatus.validation_error
    else RunStatus.runtime_error

-- The two backends give every code the same state.
code_to_status_same :
    (code : String) (validation : Bool)
    → code_to_status code validation ≡ Errors.code_to_status code validation
unfolding code_to_status Errors.code_to_status
code_to_status_same code validation = refl

pub code_to_status-ne-ok :
    (code : String) (validation : Bool) → code_to_status code validation ≢ RunStatus.ok
code_to_status-ne-ok code validation =
    rw (code_to_status_same code validation) (Errors.code_to_status-not_ok code validation)

-- `str::contains`.
contains_text : String → String → Bool
unfolding starts_with
contains_text nil part = starts_with nil part
contains_text (c :: s) part = starts_with (c :: s) part || contains_text s part

unfoldable pub error_from_js : String → Bool → ErrorObject
unfolding contains_text
error_from_js message validation =
    let code =
      if validation || contains_text message "SyntaxError"
      then "SYNTAX_ERROR"
      else if contains_text message "execution terminated"
      then "TIMEOUT_WALL"
      else "RUNTIME_ERROR" in
    new_error code message

abbrev pub timeout_error : ErrorObject
timeout_error = new_error "TIMEOUT_WALL" "TypeScript execution exceeded the wall-clock limit."

abbrev pub runtime_error_result : ErrorObject → RunResult
runtime_error_result error = error_result RunStatus.runtime_error error "" default_metrics

abbrev pub worker_closed_error : ErrorObject
worker_closed_error = new_error "RUNTIME_ERROR" "LangShell Deno worker is not available."

abbrev pub elapsed_ms : ℕ → ℕ
elapsed_ms millis = saturate u32_max millis

abbrev pub metrics : ℕ → ℕ → Metrics
metrics millis external_calls_count = record {
  duration_ms = elapsed_ms millis;
  memory_peak_bytes = 0;
  instructions = 0;
  external_calls_count = external_calls_count;
}

unfoldable pub capability_digest : {W : Type 0} → Hashing → ToolRegistry W → String
unfolding names digest_json
capability_digest hashing registry =
    digest_json hashing (Value.array (to_items (map Value.string (names registry))))
