-- ===== src/Cli/Commands/Validated.antt =====
-- `langshell validate` changes no session, in the shell or in a file.
use langshell.Common.{◌≡◌, refl, ap, ◌∙◌, true, String, List, Result, ok, err}
use langshell.Core.{ErrorObject, RunRequest}
use langshell.Sdk.{LanguageRuntime, LangShell}
use langshell.Sdk.Validation.{ValidatesPurely, run-validated}
use langshell.Cli.Store.Sessions.{Disk}
use langshell.Cli.Commands.{
  RunCommand, Console, M, bound, run_request, printed, code_of, print_json, run_code,
}
use langshell.Cli.Commands.Stored.{PrintsOnly}

module _ {S W : Type 0} (disk : Disk W) (session_dir : List String) (rt : LanguageRuntime S W)
    (console : Console W) where
  -- The same shell, and the same files.
  pub record Unchanged (s t : LangShell S × W) : Type 0 where
    pub shell : t.0 ≡ s.0
    pub exists : (path : List String) → disk.exists path t.1 ≡ disk.exists path s.1
    pub read : (path : List String) → disk.read path t.1 ≡ disk.read path s.1

  same : (s t : LangShell S × W) → t ≡ s → Unchanged s t
  same s t h = record {
    shell = ap (λ x. x.0) h;
    exists = λ path. ap (λ x. disk.exists path x.1) h;
    read = λ path. ap (λ x. disk.read path x.1) h;
  }

  bound-Unchanged :
      {A B : Type 0} (s : LangShell S × W) (next : A → M disk session_dir rt console B)
      (r : Result ErrorObject A × (LangShell S × W))
      → Unchanged s r.1
      → ((a : A) (t : LangShell S × W) → Unchanged t (next a t).1)
      → Unchanged s (bound disk session_dir rt console next r).1
  unfolding bound
  bound-Unchanged s next (err e, t) first later = first
  bound-Unchanged s next (ok a, t) first later =
      let second = later a t in
      record {
        shell = second.shell ∙ first.shell;
        exists = λ path. second.exists path ∙ first.exists path;
        read = λ path. second.read path ∙ first.read path;
      }

  printed-Unchanged :
      PrintsOnly disk console
      → (r : Result String String) (s : LangShell S × W)
      → Unchanged s (printed disk session_dir rt console r s).1
  printed-Unchanged prints (err e) s = same s s refl
  printed-Unchanged prints (ok text) (shell, w) = record {
    shell = refl;
    exists = λ path. prints.exists-print_line path text w;
    read = λ path. prints.read-print_line path text w;
  }

  run_request-Unchanged :
      ValidatesPurely rt
      → (request : RunRequest) (s : LangShell S × W) → request.validate_only ≡ true
      → Unchanged s (run_request disk session_dir rt console request s).1
  unfolding run_request
  run_request-Unchanged pure request (shell, w) only =
      let (shell_same, world_same) = run-validated rt pure shell request w only in
      record {
        shell = shell_same;
        exists = λ path. ap (disk.exists path) world_same;
        read = λ path. ap (disk.read path) world_same;
      }

  -- Where printing changes no file and a runtime's validation changes neither the runtime nor the world,
  -- `langshell validate` leaves the shell and all files as they are, on every branch, errors included.
  pub run_code-validated :
      PrintsOnly disk console
      → ValidatesPurely rt
      → (command : RunCommand) (s : LangShell S × W)
      → Unchanged s (run_code disk session_dir rt console command true s).1
  unfolding run_code print_json code_of
  run_code-validated prints pure command s = bound-Unchanged s _ _ (same s s refl) λ _ s1.
      bound-Unchanged s1 _ _ (same s1 s1 refl) λ language s2.
        bound-Unchanged s2 _ _ (same s2 _ refl) λ code s3.
          bound-Unchanged s3 _ _ (same s3 s3 refl) λ request s4.
            bound-Unchanged s4 _ _ (run_request-Unchanged pure _ s4 refl) λ result s5.
              bound-Unchanged s5 _ _ (same s5 s5 refl) λ _ s6.
                bound-Unchanged s6 _ _ (printed-Unchanged prints _ s6) λ _ s7. same s7 s7 refl
