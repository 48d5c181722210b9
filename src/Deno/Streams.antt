-- ===== src/Deno/Streams.antt =====
-- `RunStateSnapshot`, `truncate_stdout` and `apply_streams` of crates/langshell-deno/src/lib.rs: what a run
-- of TypeScript printed and called, put into its result.
use langshell.Common.{
  ◌≡◌, refl, Bool, false, ltb, ◌||◌, String, len, Option, get_or, List, [], ◌∷◌, ◌++◌, ◌<>◌,
  decimal, if◌then◌else◌,
}
use langshell.Core.{
  SessionLimits, RunResult, ErrorObject, ExternalCallRecord, Diagnostic, warning_diagnostic,
}
use langshell.Core.Truncate.{truncate_utf8}
use langshell.Core.Truncate.Longest.{truncate_utf8_lem, IsLongestPrefix}

pub record RunStateSnapshot : Type 0 where
  pub stdout : String
  pub stderr : String
  pub records : List ExternalCallRecord
  pub error : Option ErrorObject

-- `truncate_utf8` in place. Its `none`, a panic, never occurs (Core.Truncate.Longest), so the text that
-- stands for it here is never used.
truncate_stdout : String → SessionLimits → String × Bool
unfolding truncate_utf8
truncate_stdout stdout limits =
    get_or (truncate_utf8 stdout limits.max_stdout_bytes) (stdout, false)

abbrev pub streams_warning : SessionLimits → Diagnostic
streams_warning limits = warning_diagnostic "STDOUT_EXCEEDED" (
    "stdout/stderr exceeded the "
    <> decimal limits.max_stdout_bytes
    <> " byte limit and was truncated.")

unfoldable pub apply_streams : RunResult → RunStateSnapshot → SessionLimits → RunResult
unfolding truncate_stdout
apply_streams result state limits =
    let (stdout, stdout_truncated) = truncate_stdout state.stdout limits in
    let (stderr, stderr_truncated) = truncate_stdout state.stderr limits in
    record result {
      stdout = stdout;
      stderr = stderr;
      external_calls = state.records;
      diagnostics =
          if stdout_truncated || stderr_truncated
          then result.diagnostics ++ streams_warning limits ∷ []
          else result.diagnostics;
    }

truncate_stdout_fits :
    (stdout : String) (limits : SessionLimits)
    → IsLongestPrefix limits.max_stdout_bytes stdout (truncate_stdout stdout limits).0
      × ((truncate_stdout stdout limits).1 ≡ ltb limits.max_stdout_bytes (len stdout))
unfolding truncate_stdout
truncate_stdout_fits stdout limits =
    let (kept, eq, longest) = truncate_utf8_lem stdout limits.max_stdout_bytes in
    rw eq (longest, refl)

-- What a result owes to the streams and the calls of its run.
pub record HasStreams (result : RunResult) (state : RunStateSnapshot) (limits : SessionLimits)
    (after : RunResult) : Type 0 where
  pub stdout_kept : IsLongestPrefix limits.max_stdout_bytes state.stdout after.stdout
  pub stderr_kept : IsLongestPrefix limits.max_stdout_bytes state.stderr after.stderr
  pub calls_kept : after.external_calls ≡ state.records
  pub same_status : after.status ≡ result.status
  pub warned : after.diagnostics ≡ (
      if ltb limits.max_stdout_bytes (len state.stdout)
        || ltb limits.max_stdout_bytes (len state.stderr)
      then result.diagnostics ++ streams_warning limits ∷ []
      else result.diagnostics)

-- After `apply_streams` each stream is the longest prefix of whole characters of what the run printed that
-- has at most `max_stdout_bytes` bytes, the calls are the run's, the status is as it was, and a warning is
-- added exactly when one of the two streams has more bytes than that.
pub apply_streams-HasStreams :
    (result : RunResult) (state : RunStateSnapshot) (limits : SessionLimits)
    → HasStreams result state limits (apply_streams result state limits)
unfolding apply_streams
apply_streams-HasStreams result state limits =
    let out = truncate_stdout_fits state.stdout limits in
    let e = truncate_stdout_fits state.stderr limits in
    record {
      stdout_kept = out.0;
      stderr_kept = e.0;
      calls_kept = refl;
      same_status = refl;
      warned = rw (out.1, e.1) refl;
    }
