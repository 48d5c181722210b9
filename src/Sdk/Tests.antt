-- ===== src/Sdk/Tests.antt =====
-- Instances of the theorems on `LangShell`, with a runtime that keeps the names of its sessions.
use langshell.Common.{
  ℕ, ◌≤◌, ◌≡◌, refl, true, false, any, contains, IsSorted, length, map, String, none, List, [], ◌∷◌,
  ok, err,
}
use langshell.Core.{Language, ErrorObject, new_error, ok_result, default_metrics}
use langshell.Core.Registry.{ToolRegistry, new_registry}
use langshell.Tools.Mounts.{FileSystem}
use langshell.Tools.Builtin.{register_builtin_tools}
use langshell.Sdk.{
  LanguageRuntime, LangShell, string_ids, list_sessions, snapshot_first,
  no_runtime_registered_error,
}
use langshell.Sdk.Sessions.{lists, list_sessions-IsSorted}
use langshell.Sdk.Snapshots.{answers, first_settled, snapshot_first-first_settled}
use langshell.Sdk.Builder.{LangShellBuilder, builder, runtime, build}
use langshell.Sdk.Builder.Languages.{DistinctLanguages, build-DistinctLanguages}

-- A language and the ids of its sessions.
abbrev Store : Type 0
Store = Language × List String

abbrev missing : ErrorObject
missing = new_error "SESSION_NOT_FOUND" "no session"

abbrev stores : LanguageRuntime Store ℕ
stores = record {
  language = λ s. s.0;
  create_session = λ s id limits. (ok tt, (s.0, id.id ∷ s.1));
  run = λ s request w. ((ok_result none "" default_metrics, s), w);
  destroy_session = λ s id. (ok (contains s.1 id.id), s);
  list_sessions = λ s. ok (map (λ id. record { id = id }) s.1);
  snapshot_session = λ s id. elim (contains s.1 id.id) [ true ↦ ok [] | false ↦ err missing ];
  restore_session = λ s bs id. (err missing, s);
  can_restore_snapshot = λ s bs. false;
}

abbrev shell : LangShell Store
shell = record {
  runtimes = (Language.python, "b" ∷ "a" ∷ []) ∷ (Language.type_script, "c" ∷ "a" ∷ []) ∷ [];
}

list_sessions-IsSorted_example :
    IsSorted (string_ids (list_sessions stores shell))
    × (contains (string_ids (list_sessions stores shell)) "c"
        ≡ any (lists stores "c") shell.runtimes)
list_sessions-IsSorted_example = list_sessions-IsSorted stores shell "c"

snapshot_first-first_settled_example :
    snapshot_first stores shell.runtimes (record { id = "c" }) none
    ≡ first_settled
        (err (no_runtime_registered_error none))
        (answers stores shell.runtimes (record { id = "c" }))
snapshot_first-first_settled_example =
    snapshot_first-first_settled stores shell.runtimes (record { id = "c" })

-- No files.
abbrev no_files : FileSystem ℕ
no_files = record {
  canonicalize = λ p w. err "not found";
  exists = λ p w. false;
  read_to_string = λ p w. err "not found";
  create_dir_all = λ p w. (ok tt, w);
  write = λ p s w. (ok tt, w);
  read_dir = λ p w. ok [];
}

abbrev lower : String → String
lower s = s

abbrev two_languages : LangShellBuilder Store ℕ
two_languages =
    runtime (runtime builder (λ registry limits. (Language.python, [])))
      (λ registry limits. (Language.type_script, []))

abbrev built : LangShell Store
built = record { runtimes = (Language.python, []) ∷ (Language.type_script, []) ∷ [] }

built-eq : build stores lower no_files two_languages ≡ ok built
unfolding build
built-eq = refl

build-DistinctLanguages_example :
    (registry : ToolRegistry ℕ) × (register_builtin_tools lower no_files new_registry
        (record { file_mounts = []; http_allowlist = [] })
      ≡ ok registry)
    × (built.runtimes ≡ map (λ f. f registry two_languages.limits) two_languages.runtime_factories)
    × (1 ≤ length built.runtimes)
    × DistinctLanguages stores built.runtimes
build-DistinctLanguages_example =
    build-DistinctLanguages stores lower no_files two_languages built built-eq
