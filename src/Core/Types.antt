-- ===== src/Core/Types.antt =====
-- The records of langshell-core (crates/langshell-core/src/lib.rs). A `u16`, `u32` or `u64` field is a
-- natural number; a constructor is the function of the same name.
use langshell.Common.{ℕ, Bool, true, String, Option, none, some, List, [], ◌∷◌}
use langshell.Core.Enums.{Language, SideEffect, ApprovalPolicy, RunStatus, Severity, CallStatus}
use langshell.Core.Json.{Value, Fields, to_fields}

abbrev pub snapshot_version : ℕ
snapshot_version = 2

pub record SessionId : Type 0 where
  pub id : String

pub record SessionLimits : Type 0 where
  pub memory_mb : ℕ
  pub cpu_ms : ℕ
  pub wall_ms : ℕ
  pub max_stdout_bytes : ℕ
  pub max_external_calls : ℕ
  pub max_stack_depth : ℕ

abbrev pub default_limits : SessionLimits
default_limits = record {
  memory_mb = 64;
  cpu_ms = 2_000;
  wall_ms = 5_000;
  max_stdout_bytes = 65_536;
  max_external_calls = 32;
  max_stack_depth = 256;
}

pub record CapabilityLimits : Type 0 where
  pub timeout_ms : ℕ
  pub max_request_bytes : ℕ
  pub max_response_bytes : ℕ
  pub concurrency : ℕ
  pub rate_per_min : Option ℕ

abbrev pub default_capability_limits : CapabilityLimits
default_capability_limits = record {
  timeout_ms = 5_000;
  max_request_bytes = 1_048_576;
  max_response_bytes = 1_048_576;
  concurrency = 16;
  rate_per_min = none;
}

pub record Capability : Type 0 where
  pub name : String
  pub description : String
  pub input_schema : Value
  pub output_schema : Value
  pub side_effect : SideEffect
  pub limits : CapabilityLimits
  pub approval_policy : ApprovalPolicy
  pub idempotent : Bool

-- `Capability::new`.
unfoldable pub new_capability : String → String → SideEffect → Capability
new_capability name description side_effect = record {
  name = name;
  description = description;
  input_schema = Value.object (to_fields (("type", Value.string "array") ∷ []));
  output_schema = Value.object Fields.end;
  side_effect = side_effect;
  limits = default_capability_limits;
  approval_policy = ApprovalPolicy.none;
  idempotent = true;
}

abbrev pub with_input_schema : Capability → Value → Capability
with_input_schema c schema = record c { input_schema = schema }

abbrev pub with_output_schema : Capability → Value → Capability
with_output_schema c schema = record c { output_schema = schema }

pub record RunRequest : Type 0 where
  pub session_id : SessionId
  pub language : Language
  pub code : String
  pub inputs : Fields
  pub timeout_ms : Option ℕ
  pub limits : Option SessionLimits
  pub return_snapshot : Bool
  pub validate_only : Bool

pub record Span : Type 0 where
  pub line : ℕ
  pub column : ℕ
  pub end_line : Option ℕ
  pub end_column : Option ℕ

pub record ErrorObject : Type 0 where
  pub code : String
  pub message : String
  pub hint : Option String
  pub span : Option Span

-- `ErrorObject::new` and `with_hint`.
abbrev pub new_error : String → String → ErrorObject
new_error code message = record { code = code; message = message; hint = none; span = none }

abbrev pub with_hint : ErrorObject → String → ErrorObject
with_hint e hint = record e { hint = some hint }

pub record Diagnostic : Type 0 where
  pub severity : Severity
  pub code : String
  pub message : String
  pub hint : Option String
  pub span : Option Span

-- `Diagnostic::error` and `Diagnostic::warning`.
abbrev pub error_diagnostic : ErrorObject → Diagnostic
error_diagnostic e = record {
  severity = Severity.error;
  code = e.code;
  message = e.message;
  hint = e.hint;
  span = e.span;
}

abbrev pub warning_diagnostic : String → String → Diagnostic
warning_diagnostic code message = record {
  severity = Severity.warning;
  code = code;
  message = message;
  hint = none;
  span = none;
}

pub record ExternalCallRecord : Type 0 where
  pub name : String
  pub side_effect : SideEffect
  pub duration_ms : ℕ
  pub status : CallStatus
  pub request_digest : String
  pub response_digest : Option String
  pub error : Option ErrorObject

pub record Metrics : Type 0 where
  pub duration_ms : ℕ
  pub memory_peak_bytes : ℕ
  pub instructions : ℕ
  pub external_calls_count : ℕ

abbrev pub default_metrics : Metrics
default_metrics = record {
  duration_ms = 0;
  memory_peak_bytes = 0;
  instructions = 0;
  external_calls_count = 0;
}

pub record RunResult : Type 0 where
  pub status : RunStatus
  pub result : Option Value
  pub stdout : String
  pub stderr : String
  pub diagnostics : List Diagnostic
  pub external_calls : List ExternalCallRecord
  pub snapshot_id : Option String
  pub metrics : Metrics
  pub error : Option ErrorObject

-- `RunResult::ok` and `RunResult::error`.
abbrev pub ok_result : Option Value → String → Metrics → RunResult
ok_result result stdout metrics = record {
  status = RunStatus.ok;
  result = result;
  stdout = stdout;
  stderr = "";
  diagnostics = [];
  external_calls = [];
  snapshot_id = none;
  metrics = metrics;
  error = none;
}

abbrev pub error_result : RunStatus → ErrorObject → String → Metrics → RunResult
error_result status error stdout metrics = record {
  status = status;
  result = none;
  stdout = stdout;
  stderr = "";
  diagnostics = error_diagnostic error ∷ [];
  external_calls = [];
  snapshot_id = none;
  metrics = metrics;
  error = some error;
}

pub record ToolCallContext : Type 0 where
  pub name : String
  pub args : List Value
  pub kwargs : Fields

pub record ToolError : Type 0 where
  pub code : String
  pub message : String

abbrev pub tool_error : String → String → ToolError
tool_error code message = record { code = code; message = message }
