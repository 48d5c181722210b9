-- ===== src/Monty/Limits.antt =====
-- `effective_limits`, `resource_limits`, `elapsed_ms`, `metrics` and `truncate_stdout` of
-- crates/langshell-monty/src/lib.rs.
use langshell.Common.{
  ℕ, ◌-◌, ◌*◌, ◌^◌, ◌≡◌, refl, Bool, true, false, ltb, leb, String, len, Option, none, some, get_or,
  ◌<>◌, if◌then◌else◌, decimal, is_some,
}
use langshell.Core.{SessionLimits, RunRequest, Metrics, Diagnostic, warning_diagnostic}
use langshell.Core.Truncate.{truncate_utf8}
use langshell.Core.Truncate.Longest.{truncate_utf8_lem, IsLongestPrefix}

abbrev pub u32_max : ℕ
u32_max = 2 ^ 32 - 1

abbrev pub usize_max : ℕ
usize_max = 2 ^ 64 - 1

abbrev pub set_wall : Option ℕ → SessionLimits → SessionLimits
set_wall none limits = limits
set_wall (some ms) limits = record limits { wall_ms = ms }

unfoldable pub effective_limits : SessionLimits → RunRequest → SessionLimits
effective_limits default_limits request =
    set_wall request.timeout_ms (get_or request.limits default_limits)

abbrev pub saturate : ℕ → ℕ → ℕ
saturate max n = if leb n max then n else max

-- `ResourceLimits` of Monty, as built here.
pub record ResourceLimits : Type 0 where
  pub max_duration_ms : ℕ
  pub max_memory : ℕ
  pub max_recursion_depth : Option ℕ

unfoldable pub resource_limits : SessionLimits → ResourceLimits
resource_limits limits = record {
  max_duration_ms = limits.wall_ms;
  max_memory = saturate usize_max (limits.memory_mb * (1_024 * 1_024));
  max_recursion_depth = some limits.max_stack_depth;
}

-- Milliseconds as a `u32`.
abbrev pub elapsed_ms : ℕ → ℕ
elapsed_ms millis = saturate u32_max millis

abbrev pub metrics : ℕ → ℕ → ℕ → Metrics
metrics millis memory_bytes external_calls_count = record {
  duration_ms = elapsed_ms millis;
  memory_peak_bytes = memory_bytes;
  instructions = 0;
  external_calls_count = external_calls_count;
}

abbrev stdout_warning : SessionLimits → Bool → Option Diagnostic
stdout_warning limits false = none
stdout_warning limits true = some (
    warning_diagnostic "STDOUT_EXCEEDED" (
      "stdout exceeded the "
      <> decimal limits.max_stdout_bytes
      <> " byte limit and was truncated."))

-- `truncate_utf8` in place. Its `none`, a panic, never occurs (Core.Truncate.Longest), so the text that
-- stands for it here is never used.
abbrev truncated_text : String → ℕ → String × Bool
unfolding truncate_utf8
truncated_text text max_bytes = get_or (truncate_utf8 text max_bytes) (text, false)

is_some-stdout_warning : (limits : SessionLimits) (b : Bool) → is_some (stdout_warning limits b) ≡ b
is_some-stdout_warning limits true = refl
is_some-stdout_warning limits false = refl

unfoldable pub truncate_stdout : String → SessionLimits → String × Option Diagnostic
unfolding truncate_utf8
truncate_stdout stdout limits =
    let (kept, truncated) = truncated_text stdout limits.max_stdout_bytes in
    (kept, stdout_warning limits truncated)

-- `truncate_stdout` keeps the longest prefix of whole characters that has at most `max_stdout_bytes`
-- bytes, and it warns exactly when the text has more bytes than that.
pub truncate_stdout_lem :
    (stdout : String) (limits : SessionLimits)
    → IsLongestPrefix limits.max_stdout_bytes stdout (truncate_stdout stdout limits).0
      × (is_some (truncate_stdout stdout limits).1 ≡ ltb limits.max_stdout_bytes (len stdout))
unfolding truncate_stdout
truncate_stdout_lem stdout limits =
    let (kept, eq, longest) = truncate_utf8_lem stdout limits.max_stdout_bytes in
    rw eq (longest, is_some-stdout_warning limits _)
