-- ===== src/Deno/Tests.antt =====
-- `apply_streams` of crates/langshell-deno/src/lib.rs on a run that prints too much, and its theorem there.
mod WorkerTests
use langshell.Common.{◌≡◌, refl, none, [], ◌∷◌}
use langshell.Core.{SessionLimits, default_limits, RunResult, ok_result, default_metrics}
use langshell.Core.Truncate.{truncate_utf8}
use langshell.Deno.Streams.{
  RunStateSnapshot, apply_streams, HasStreams, apply_streams-HasStreams, streams_warning,
}

abbrev few_bytes : SessionLimits
few_bytes = record default_limits { max_stdout_bytes = 2 }

abbrev printed : RunStateSnapshot
printed = record { stdout = "ok"; stderr = "héllo"; records = []; error = none }

abbrev answer : RunResult
answer = ok_result none "" default_metrics

stderr_cut : (apply_streams answer printed few_bytes).stderr ≡ "h"
unfolding apply_streams truncate_utf8
stderr_cut = refl

one_warning : (apply_streams answer printed few_bytes).diagnostics ≡ streams_warning few_bytes ∷ []
unfolding apply_streams truncate_utf8
one_warning = refl

apply_streams-HasStreams_example :
    HasStreams answer printed few_bytes (apply_streams answer printed few_bytes)
apply_streams-HasStreams_example = apply_streams-HasStreams answer printed few_bytes
