-- ===== src/Monty/Tests/SessionTests.antt =====
-- Runs, sessions and snapshots of crates/langshell-monty/src/lib.rs with the small interpreter.
pub mod ResumedTests
use langshell.Common.{
  ℕ, len, ◌≤◌, ◌≡◌, refl, ap, sym, Bool, true, false, not, ◌&&◌, ◌||◌, ◌==◌, eq_iff, eqb, String,
  none, some, List, [], ◌∷◌, Result, ok, err, lookup, put, contains, arith,
}
use langshell.Core.{
  ErrorObject, Value, Fields, RunRequest, SessionId, SessionLimits, default_limits, Language,
  ok_result, new_capability,
}
use langshell.Core.Digest.{digest_json, to_hex}
use langshell.Monty.Limits.{metrics}
use langshell.Monty.Validate.{Nodes}
use langshell.Monty.Session.{MontySession, Packages, Done, after_program}
use langshell.Monty.Session.Run.{run_session}
use langshell.Monty.Session.Bounded.{run_session-stdout_fits}
use langshell.Monty.Convert.{is_plain_json}
use langshell.Monty.Objects.{MontyObject}
use langshell.Monty.Snippet.{SnippetOutcome}
use langshell.Monty.Session.Coherent.{IsCoherent, run_session-IsCoherent}
use langshell.Monty.Runtime.{
  SnapshotEnvelope, monty_snapshot_magic, Storage, MontyRuntime, create_session, take, taken,
  finish, run, destroy_session, snapshot_session, restore_session, with_sessions,
}
use langshell.Monty.Runtime.Snapshots.{
  RoundTrips, restored, IsRestored, restore_session-IsRestored, restore_session-snapshot_session,
}
use langshell.Monty.Runtime.Sessions.{
  session_ids, list_sessions-create-destroy, take-destroy-finish, run-isolation,
}
use langshell.Monty.Tests.{interpreter, library, hashing, host, registry, ticked}

abbrev pkg : Packages ℕ ℕ ℕ
pkg = record {
  interpreter = interpreter;
  library = library;
  hashing = hashing;
  host = host;
  parse_module = λ code. some Nodes.nil;
  current_memory = λ repl. repl;
  set_max_duration = λ repl ms. repl;
}

abbrev id : SessionId
id = record { id = "s" }

abbrev session : MontySession ℕ
session = record { id = id; limits = default_limits; repl = 3 }

abbrev other : MontySession ℕ
other = record { id = record { id = "t" }; limits = default_limits; repl = 8 }

abbrev request : RunRequest
request = record {
  session_id = id;
  language = Language.python;
  code = "ab";
  inputs = Fields.end;
  timeout_ms = none;
  limits = none;
  return_snapshot = false;
  validate_only = false;
}

-- The program makes two calls and the probe six.
abbrev first_run : Done pkg
first_run = (
  (
    record session { repl = 5 },
    record (ok_result (some Value.null) "**********" (metrics 1 5 8)) {
      external_calls = ticked ∷ ticked ∷ ticked ∷ ticked ∷ ticked ∷ ticked ∷ ticked ∷ ticked ∷ [];
    },
  ),
  8,
)

first_run-eq : run_session pkg 9 session request registry 0 ≡ some first_run
unfolding run_session digest_json to_hex new_capability
first_run-eq = refl

run_session-IsCoherent_example : IsCoherent first_run.0.1
run_session-IsCoherent_example =
    run_session-IsCoherent pkg 9 session request registry 0 first_run first_run-eq

abbrev rt : MontyRuntime ℕ ℕ
rt = record {
  sessions = ("s", session) ∷ ("t", other) ∷ [];
  registry = registry;
  default_limits = default_limits;
}

-- An archive of one envelope, that of the session above.
abbrev envelope : SnapshotEnvelope
envelope = record {
  magic = monty_snapshot_magic;
  version = 2;
  session_id = "s";
  limits = default_limits;
  repl_dump = 3 ∷ [];
  capability_digest = "";
}

list_eq : List ℕ → List ℕ → Bool
list_eq [] [] = true
list_eq (x ∷ xs) (y ∷ ys) = eqb x y && list_eq xs ys
list_eq _ _ = false

list_eq_sound : (xs ys : List ℕ) → list_eq xs ys ≡ true → xs ≡ ys
unfolding list_eq
list_eq_sound [] [] h = refl
list_eq_sound [] (y ∷ ys) h = cc
list_eq_sound (x ∷ xs) [] h = cc
list_eq_sound (x ∷ xs) (y ∷ ys) h = ground (arith, list_eq_sound xs ys)

limits_eq : SessionLimits → SessionLimits → Bool
limits_eq a b =
    (eqb a.memory_mb b.memory_mb && (eqb a.cpu_ms b.cpu_ms && eqb a.wall_ms b.wall_ms))
    && (eqb a.max_stdout_bytes b.max_stdout_bytes
        && (eqb a.max_external_calls b.max_external_calls
            && eqb a.max_stack_depth b.max_stack_depth))

limits_eq_sound : (a b : SessionLimits) → limits_eq a b ≡ true → a ≡ b
unfolding limits_eq
limits_eq_sound a b h = ground arith

is_envelope : SnapshotEnvelope → Bool
unfolding limits_eq list_eq
is_envelope s =
    ((s.magic == monty_snapshot_magic) && (eqb s.version 2 && (s.session_id == "s")))
    && (limits_eq s.limits default_limits
        && (list_eq s.repl_dump (3 ∷ []) && (s.capability_digest == "")))

is_envelope_sound : (s : SnapshotEnvelope) → is_envelope s ≡ true → s ≡ envelope
unfolding is_envelope
is_envelope_sound s h = ground (
  arith,
  eq_iff s.magic monty_snapshot_magic,
  eq_iff s.session_id "s",
  eq_iff s.capability_digest "",
  limits_eq_sound s.limits default_limits,
  list_eq_sound s.repl_dump (3 ∷ []),
)

abbrev first : List ℕ → ℕ
first [] = 0
first (b ∷ bs) = b

archive : Bool → Result String (List ℕ)
archive true = ok (1 ∷ [])
archive false = err "another envelope"

abbrev storage : Storage ℕ
unfolding is_envelope archive
storage = record {
  new_repl = λ limits. 1;
  check_program = λ code names. ok tt;
  dump = λ repl. ok (repl ∷ []);
  load = λ bs. ok (first bs);
  encode = λ s. archive (is_envelope s);
  decode = λ bs. ok envelope;
  peek_magic = λ bs. ok monty_snapshot_magic;
}

load-dump : (r : ℕ) (bs : List ℕ) → storage.dump r ≡ ok bs → storage.load bs ≡ ok r
unfolding storage
load-dump r [] h = cc
load-dump r (b ∷ bs) h = cc

archive-eq-ok : (b : Bool) (bs : List ℕ) → archive b ≡ ok bs → b ≡ true
unfolding archive
archive-eq-ok true bs h = refl
archive-eq-ok false bs h = cc

decode-encode :
    (s : SnapshotEnvelope) (bs : List ℕ) → storage.encode s ≡ ok bs → storage.decode bs ≡ ok s
unfolding storage
decode-encode s bs h = ap ok (sym (is_envelope_sound s (archive-eq-ok _ bs h)))

storage-RoundTrips : RoundTrips storage
storage-RoundTrips = record { load-dump = load-dump; decode-encode = decode-encode }

snapshot-eq : snapshot_session pkg storage rt id ≡ ok (1 ∷ [])
unfolding snapshot_session storage digest_json to_hex lookup
snapshot-eq = refl

abbrev empty : MontyRuntime ℕ ℕ
empty = record rt { sessions = [] }

restore_session-snapshot_session_example :
    (s : MontySession ℕ) × (lookup "s" rt.sessions ≡ some s)
    × (restore_session pkg storage empty (1 ∷ []) none
        ≡ ok (
          with_sessions pkg storage empty (put "s" (restored pkg storage id s.limits s.repl) []),
          id,
        ))
restore_session-snapshot_session_example =
    restore_session-snapshot_session pkg storage storage-RoundTrips rt empty id (1 ∷ []) refl
      snapshot-eq

abbrev reopened : MontyRuntime ℕ ℕ
reopened = record rt { sessions = ("s", record session { repl = 3 }) ∷ [] }

reopened-eq : restore_session pkg storage empty (1 ∷ []) none ≡ ok (reopened, id)
unfolding restore_session storage digest_json to_hex
reopened-eq = refl

restore_session-IsRestored_example : IsRestored pkg storage empty (1 ∷ []) reopened id
restore_session-IsRestored_example =
    restore_session-IsRestored pkg storage empty reopened (1 ∷ []) none id reopened-eq

list_sessions-create-destroy_example :
    (contains (session_ids pkg storage (create_session pkg storage rt id none)) "t"
      ≡ (("s" == "t") || contains (session_ids pkg storage rt) "t"))
    × (contains (session_ids pkg storage (destroy_session pkg storage rt id).0) "t"
        ≡ (not ("s" == "t") && contains (session_ids pkg storage rt) "t"))
    × ((destroy_session pkg storage rt id).1 ≡ contains (session_ids pkg storage rt) "s")
list_sessions-create-destroy_example = list_sessions-create-destroy pkg storage rt id none "t"

take-eq : take pkg storage rt request 0 ≡ taken session (("t", other) ∷ [])
unfolding take
take-eq = refl

take-destroy-finish_example :
    let running = with_sessions pkg storage rt (("t", other) ∷ []) in
    ((e : ErrorObject) × (snapshot_session pkg storage running id ≡ err e)
      × (e.code ≡ "SESSION_NOT_FOUND"))
    × (contains (session_ids pkg storage running) "s" ≡ false)
    × (destroy_session pkg storage running id ≡ (running, false))
    × (lookup "s"
          (finish pkg storage (destroy_session pkg storage running id).0 id session).sessions
        ≡ some session)
take-destroy-finish_example =
    take-destroy-finish pkg storage rt request 0 session session (("t", other) ∷ []) take-eq

abbrev after_run : MontyRuntime ℕ ℕ
after_run = record rt { sessions = ("s", record session { repl = 5 }) ∷ ("t", other) ∷ [] }

run-eq : run pkg storage 9 rt request 0 ≡ some ((after_run, first_run.0.1), 8)
unfolding run digest_json to_hex new_capability
run-eq = refl

run-isolation_example : lookup "t" after_run.sessions ≡ lookup "t" rt.sessions
run-isolation_example =
    run-isolation pkg storage 9 rt after_run request 0 8 first_run.0.1 run-eq "t" refl

run_session-stdout_fits_example : len first_run.0.1.stdout ≤ default_limits.max_stdout_bytes
run_session-stdout_fits_example =
    run_session-stdout_fits pkg 9 session request registry 0 first_run first_run-eq refl
