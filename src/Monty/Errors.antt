-- ===== src/Monty/Errors.antt =====
-- `error_object_to_exception`, `error_from_exception` and `code_to_status` of
-- crates/langshell-monty/src/lib.rs.
use langshell.Common.{
  true≢false, sym, ap, ◌∙◌, ◌≡◌, refl, ◌≢◌, Bool, true, false, ◌==◌, ◌<>◌, String, Option, none,
  some, [], ◌∷◌, contains, if◌then◌else◌, eq_iff, Bool-cases, inl, inr,
}
use langshell.Core.{ErrorObject, RunStatus, Span, is_ok_status}
use langshell.Monty.Objects.{ExcType, MontyException, Frame, Library}

abbrev exc_type_of : String → ExcType
exc_type_of code =
    if code == "PERMISSION_DENIED"
    then ExcType.permission_error
    else if code == "TYPE_ERROR"
    then ExcType.type_error
    else if code == "UNKNOWN_TOOL"
    then ExcType.name_error
    else if contains ("TIMEOUT_TOOL" ∷ "TIMEOUT_WALL" ∷ []) code
    then ExcType.timeout_error
    else ExcType.runtime_error

unfoldable pub error_object_to_exception : Library → ErrorObject → MontyException
error_object_to_exception lib error =
    lib.new_exception (exc_type_of error.code) (error.code <> ": " <> error.message)

abbrev exception_code : ExcType → Bool → String
exception_code ExcType.syntax_error validation = "SYNTAX_ERROR"
exception_code ExcType.type_error true = "TYPE_ERROR"
exception_code ExcType.name_error validation = "UNKNOWN_TOOL"
exception_code ExcType.not_implemented_error validation = "UNSUPPORTED_FEATURE"
exception_code ExcType.import_error validation = "UNSUPPORTED_FEATURE"
exception_code ExcType.module_not_found_error validation = "UNSUPPORTED_FEATURE"
exception_code ExcType.permission_error validation = "PERMISSION_DENIED"
exception_code ExcType.timeout_error validation = "TIMEOUT_WALL"
exception_code ExcType.memory_error validation = "MEMORY_EXCEEDED"
exception_code ExcType.recursion_error validation = "STACK_OVERFLOW"
exception_code _ validation = "RUNTIME_ERROR"

abbrev exception_hint : String → Option String
exception_hint code =
    if code == "UNKNOWN_TOOL"
    then some "Call list_tools() or describe_tool() to inspect registered functions."
    else none

abbrev exception_span : Option Frame → Option Span
exception_span none = none
exception_span (some frame) = some (record {
  line = frame.start_line;
  column = frame.start_column;
  end_line = some frame.end_line;
  end_column = some frame.end_column;
})

unfoldable pub error_from_exception : MontyException → Bool → ErrorObject
error_from_exception error validation =
    let code = exception_code error.exc_type validation in
    record {
      code = code;
      message = error.summary;
      hint = exception_hint code;
      span = exception_span error.last_frame;
    }

unfoldable pub code_to_status : String → Bool → RunStatus
code_to_status code validation =
    if code == "PERMISSION_DENIED"
    then RunStatus.permission_denied
    else if code == "WAITING_FOR_APPROVAL"
    then RunStatus.waiting_for_approval
    else if contains ("TIMEOUT_WALL" ∷ "TIMEOUT_CPU" ∷ "TIMEOUT_TOOL" ∷ []) code
    then RunStatus.timeout
    else if code == "CANCELLED"
    then RunStatus.cancelled
    else if contains
        ("MEMORY_EXCEEDED" ∷ "STDOUT_EXCEEDED" ∷ "EXTERNAL_CALLS_EXCEEDED" ∷ "STACK_OVERFLOW" ∷ [])
        code
    then RunStatus.resource_exhausted
    else if contains
        ("SYNTAX_ERROR" ∷ "TYPE_ERROR" ∷ "UNKNOWN_TOOL" ∷ "UNSUPPORTED_FEATURE"
          ∷ "RESULT_NOT_SERIALIZABLE" ∷ "SNAPSHOT_VERSION_MISMATCH" ∷ "SNAPSHOT_CAPABILITY_MISMATCH"
          ∷ "SNAPSHOT_CORRUPT" ∷ [])
        code
    then RunStatus.validation_error
    else if validation
    then RunStatus.validation_error
    else RunStatus.runtime_error

pub differs : (s : RunStatus) → is_ok_status s ≡ false → s ≢ RunStatus.ok
differs s h eq = true≢false (sym (ap is_ok_status eq) ∙ h)

neither :
    (b : Bool) {s t : RunStatus}
    → s ≢ RunStatus.ok
    → t ≢ RunStatus.ok
    → (if b then s else t) ≢ RunStatus.ok
neither true hs ht = hs
neither false hs ht = ht

-- No error has the state `ok`.
pub code_to_status-not_ok :
    (code : String) (validation : Bool) → code_to_status code validation ≢ RunStatus.ok
unfolding code_to_status
code_to_status-not_ok code validation = neither _ (differs RunStatus.permission_denied refl) (
    neither _ (differs RunStatus.waiting_for_approval refl) (
      neither _ (differs RunStatus.timeout refl) (
        neither _ (differs RunStatus.cancelled refl) (
          neither _ (differs RunStatus.resource_exhausted refl) (
            neither _ (differs RunStatus.validation_error refl) (
              neither validation (differs RunStatus.validation_error refl)
                (differs RunStatus.runtime_error refl)))))))

-- The state of a run that a failing tool ends, by the error of the tool, when the exception that the
-- interpreter makes keeps its type and the program does not catch it.
unfoldable pub uncaught : Library → ErrorObject → RunStatus
unfolding error_object_to_exception error_from_exception code_to_status
uncaught lib error =
    code_to_status (error_from_exception (error_object_to_exception lib error) false).code false

status_of : ExcType → RunStatus
unfolding code_to_status
status_of t = code_to_status (exception_code t false) false

pub expected_uncaught : String → RunStatus
expected_uncaught code =
    if code == "PERMISSION_DENIED"
    then RunStatus.permission_denied
    else if contains ("TIMEOUT_TOOL" ∷ "TIMEOUT_WALL" ∷ []) code
    then RunStatus.timeout
    else if code == "UNKNOWN_TOOL"
    then RunStatus.validation_error
    else RunStatus.runtime_error

status_of-exc_type_of : (code : String) → status_of (exc_type_of code) ≡ expected_uncaught code
unfolding status_of expected_uncaught code_to_status
status_of-exc_type_of code = elim (Bool-cases (code == "PERMISSION_DENIED")) [
  | inl h ↦ rw h refl
  | inr h ↦ elim (Bool-cases (code == "TYPE_ERROR")) [
    | inl t ↦ rw ((eq_iff code "TYPE_ERROR").0 t) refl
    | inr t ↦ elim (Bool-cases (code == "UNKNOWN_TOOL")) [
      | inl u ↦ rw ((eq_iff code "UNKNOWN_TOOL").0 u) refl
      | inr u ↦ elim (Bool-cases (contains ("TIMEOUT_TOOL" ∷ "TIMEOUT_WALL" ∷ []) code)) [
        | inl w ↦ rw (h, t, u, w) refl
        | inr w ↦ rw (h, t, u, w) refl
      ]
    ]
  ]
]

-- A tool's error goes through `error_object_to_exception`, `error_from_exception` and `code_to_status`
-- when nothing catches it: where `new` keeps the type of an exception, the run is denied for
-- PERMISSION_DENIED, timed out for TIMEOUT_TOOL and TIMEOUT_WALL, a validation error for UNKNOWN_TOOL, and
-- a runtime error for every other code.
pub uncaught_lem :
    (lib : Library)
    → ((t : ExcType) (s : String) → (lib.new_exception t s).exc_type ≡ t)
    → (error : ErrorObject) → uncaught lib error ≡ expected_uncaught error.code
unfolding uncaught error_object_to_exception error_from_exception status_of
uncaught_lem lib keeps error =
    rw (keeps (exc_type_of error.code) (error.code <> ": " <> error.message))
      (status_of-exc_type_of error.code)
