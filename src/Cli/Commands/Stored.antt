-- ===== src/Cli/Commands/Stored.antt =====
-- A run of the command line that succeeds is stored for the next one.
use langshell.Common.{
  ℕ, ◌≡◌, refl, sym, ap, ◌∙◌, subst, Bool, true, false, String, some, List, Result, ok, err,
  if◌then◌else◌,
}
use langshell.Core.{ErrorObject, Language, is_ok_status}
use langshell.Sdk.{LanguageRuntime, LangShell, snapshot_session_with_language}
use langshell.Sdk.Restore.{restore_session}
use langshell.Cli.Params.{parse_language}
use langshell.Cli.Store.Sessions.{Disk, loaded, load_session_if_exists, save_session}
use langshell.Cli.Store.Sessions.Saved.{
  KeepsFiles, load_session_if_exists-save_session, load_session_if_exists-same,
}
use langshell.Cli.Commands.{
  ExitCode, RunCommand, Console, M, bound, when, save, printed, print_json, run_code,
}

-- Printing changes no file.
pub record PrintsOnly {W : Type 0} (disk : Disk W) (console : Console W) : Type 0 where
  pub exists-print_line :
      (path : List String) (text : String) (w : W)
      → disk.exists path (console.print_line text w) ≡ disk.exists path w
  pub read-print_line :
      (path : List String) (text : String) (w : W)
      → disk.read path (console.print_line text w) ≡ disk.read path w

module _ {S W : Type 0} (disk : Disk W) (session_dir : List String) (rt : LanguageRuntime S W)
    (console : Console W) where
  abbrev Done : Type 0 → Type 0
  Done A = Result ErrorObject A × (LangShell S × W)

  -- A bind that succeeds: its first action did.
  bound-eq-ok :
      {A B : Type 0} (next : A → M disk session_dir rt console B) (r : Done A) {b : B}
      {s : LangShell S × W}
      → bound disk session_dir rt console next r ≡ (ok b, s)
      → (a : A) × (t : LangShell S × W) × (r ≡ (ok a, t)) × (next a t ≡ (ok b, s))
  unfolding bound
  bound-eq-ok next (ok a, t) h = (a, t, refl, h)
  bound-eq-ok next (err e, t) h = cc

  chosen :
      (b : Bool)
      → Path
          (Result ErrorObject ExitCode)
          (ok (if b then ExitCode.success else ExitCode.failure))
          (ok ExitCode.success)
      → b ≡ true
  chosen true h = refl
  chosen false h = cc

  printed-eq-ok :
      (r : Result String String) (s s' : LangShell S × W)
      → printed disk session_dir rt console r s ≡ (ok tt, s')
      → (text : String) × (s' ≡ (s.0, console.print_line text s.1))
  printed-eq-ok (err e) s s' h = cc
  printed-eq-ok (ok text) (shell, w) s' h = (text, sym (ap (λ p. p.1) h))

  save-eq-ok :
      (session_id : String) (language : Language) (s s' : LangShell S × W)
      → save disk session_dir rt console session_id language s ≡ (ok tt, s')
      → (save_session disk session_dir rt s.0 session_id language s.1 ≡ (ok tt, s'.1))
        × (s'.0 ≡ s.0)
  unfolding save
  save-eq-ok session_id language (shell, w) s' h =
      (ap (λ p. (p.0, p.1.1)) h, sym (ap (λ p. p.1.0) h))

  -- The end of a run that succeeds: the snapshot is stored, then the result is printed.
  abbrev Kept : LangShell S → String → Language → LangShell S × W → Type 0
  Kept other session_id language s =
      (bytes : List ℕ) × (snapshot_session_with_language rt s.0 session_id language ≡ ok bytes)
      × (load_session_if_exists disk session_dir rt other session_id s.1
          ≡ loaded disk session_dir rt (restore_session rt other bytes (some session_id)))

  save-printed :
      KeepsFiles disk
      → PrintsOnly disk console
      → (other : LangShell S) (session_id : String) (language : Language)
        (text : Result String String) (s s6 s7 : LangShell S × W)
      → save disk session_dir rt console session_id language s ≡ (ok tt, s6)
      → printed disk session_dir rt console text s6 ≡ (ok tt, s7)
      → Kept other session_id language s7
  save-printed keeps prints other session_id language text s s6 s7 saves shows =
      let (saved, same) = save-eq-ok session_id language s s6 saves in
      let (line, after) = printed-eq-ok text s6 s7 shows in
      let (bytes, taken, loads) =
        load_session_if_exists-save_session disk session_dir rt keeps s.0 other session_id language
          s.1 s6.1 saved in
      let unseen =
        load_session_if_exists-same disk session_dir rt other session_id s6.1
          (console.print_line line s6.1) (λ path. prints.exists-print_line path line s6.1)
          (λ path. prints.read-print_line path line s6.1) in
      let kept : Kept other session_id language (s6.0, console.print_line line s6.1) = (
        bytes,
        ap (λ shell. snapshot_session_with_language rt shell session_id language) same ∙ taken,
        unseen ∙ loads,
      ) in
      subst (Kept other session_id language) (sym after) kept

  -- Where files are kept and printing changes none, a `langshell run` that exits with success has stored its
  -- session: the next command, in any shell, loads it from the bytes of the snapshot that the shell of the run gave
  -- for the language, the one that the command names.
  pub run_code-stored :
      KeepsFiles disk
      → PrintsOnly disk console
      → (command : RunCommand) (shell shell' other : LangShell S) (w w' : W)
      → run_code disk session_dir rt console command false (shell, w)
        ≡ (ok ExitCode.success, (shell', w'))
      → (language : Language) × (bytes : List ℕ) × (parse_language command.language ≡ ok language)
        × (snapshot_session_with_language rt shell' command.session_id language ≡ ok bytes)
        × (load_session_if_exists disk session_dir rt other command.session_id w'
            ≡ loaded disk session_dir rt (restore_session rt other bytes (some command.session_id)))
  unfolding run_code print_json
  run_code-stored keeps prints command shell shell' other w w' h =
      let (_, s1, loads, h1) = bound-eq-ok _ _ h in
      let (language, s2, parsed, h2) = bound-eq-ok _ _ h1 in
      let (code, s3, read, h3) = bound-eq-ok _ _ h2 in
      let (request, s4, made, h4) = bound-eq-ok _ _ h3 in
      let (result, s5, ran, h5) = bound-eq-ok _ _ h4 in
      let (_, s6, saves, h6) = bound-eq-ok _ _ h5 in
      let (_, s7, shows, h7) = bound-eq-ok _ _ h6 in
      let is_ok = chosen (is_ok_status result.status) (ap (λ p. p.0) h7) in
      let kept =
        save-printed keeps prints other command.session_id language _ s5 s6 s7
          (subst
            (λ b.
              when disk session_dir rt console b
                (save disk session_dir rt console command.session_id language) s5
              ≡ (ok tt, s6))
            is_ok saves)
          shows in
      let (bytes, taken, loaded_from) =
        subst (Kept other command.session_id language) (ap (λ p. p.1) h7) kept in
      (language, bytes, ap (λ p. p.0) parsed, taken, loaded_from)
