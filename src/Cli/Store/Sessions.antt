-- ===== src/Cli/Store/Sessions.antt =====
-- `load_session_if_exists`, `save_session`, `save_any_session`, `list_stored_sessions` and the removal of a
-- stored session in crates/langshell-cli/src/lib.rs, over a file system that is a parameter.
pub mod Saved
use Prim.Native.String.{[] as nil, ◌∷◌ as ◌::◌}
use langshell.Common.{
  ℕ, ◌≡◌, refl, Bool, true, false, ◌==◌, String, Option, none, some, and_then, List, [], ◌∷◌, ◌++◌,
  Result, ok, err, map_ok, map_err, ◌>>=◌, ◌<>◌, sort, dedup, if◌then◌else◌,
}
use langshell.Core.{Language, SessionId, ErrorObject, new_error}
use langshell.Sdk.{LanguageRuntime, LangShell, snapshot_session, snapshot_session_with_language}
use langshell.Sdk.Restore.{restore_session}
use langshell.Cli.Store.{session_file}

-- `std::fs`, whose error is its message; a path is shown by `display`. An entry of `read_dir` is a name, if it
-- is a text.
pub record Disk (W : Type 0) : Type 0 where
  pub display : List String → String
  pub exists : List String → W → Bool
  pub read : List String → W → Result String (List ℕ)
  pub create_dir_all : List String → W → Result String (Unit {0}) × W
  pub write : List String → List ℕ → W → Result String (Unit {0}) × W
  pub remove_file : List String → W → Result String (Unit {0}) × W
  pub read_dir : List String → W → Result String (List (Result String (Option String)))

abbrev pub io_error : String → ErrorObject
io_error message = new_error "IO_ERROR" message

-- `name.strip_suffix(".cbor")`
unfoldable pub strip_cbor : String → Option String
strip_cbor nil = none
strip_cbor (c :: s) =
    let rest = strip_cbor s in
    if (c :: s) == ".cbor" then some nil else and_then rest λ stem. some (c :: stem)

abbrev push_stem : Option String → List String → List String
push_stem none names = names
push_stem (some stem) names = stem ∷ names

-- The loop over the entries, which ends at an error.
stems : List (Result String (Option String)) → Result ErrorObject (List String)
unfolding strip_cbor
stems [] = ok []
stems (err e ∷ entries) = err (io_error ("reading session entry: " <> e))
stems (ok name ∷ entries) = map_ok (push_stem (and_then name strip_cbor)) (stems entries)

module _ {S W : Type 0} (disk : Disk W) (session_dir : List String) (rt : LanguageRuntime S W) where
  unfoldable pub list_stored_sessions : W → Result ErrorObject (List String)
  unfolding stems sort dedup
  list_stored_sessions w =
      if disk.exists session_dir w
      then map_ok (λ names. dedup (sort names))
          (map_err (λ e. io_error ("reading " <> disk.display session_dir <> ": " <> e))
              (disk.read_dir session_dir w)
            >>= stems)
      else ok []

  abbrev pub loaded :
      Result ErrorObject SessionId × LangShell S → Result ErrorObject (Unit {0}) × LangShell S
  loaded (r, shell) = (map_ok (λ id. tt) r, shell)

  load_bytes :
      LangShell S
      → String
      → Result ErrorObject (List ℕ)
      → Result ErrorObject (Unit {0}) × LangShell S
  unfolding restore_session
  load_bytes shell session_id (err e) = (err e, shell)
  load_bytes shell session_id (ok bytes) = loaded (restore_session rt shell bytes (some session_id))

  load_file :
      LangShell S
      → String
      → Result ErrorObject (List String)
      → W
      → Result ErrorObject (Unit {0}) × LangShell S
  unfolding load_bytes
  load_file shell session_id (err e) w = (err e, shell)
  load_file shell session_id (ok path) w =
      if disk.exists path w
      then load_bytes shell session_id (
          map_err (λ e. io_error ("reading " <> disk.display path <> ": " <> e)) (disk.read path w))
      else (ok tt, shell)

  unfoldable pub load_session_if_exists :
      LangShell S → String → W → Result ErrorObject (Unit {0}) × LangShell S
  unfolding load_file session_file
  load_session_if_exists shell session_id w =
      load_file shell session_id (session_file session_dir session_id) w

  write_made :
      List String → List ℕ → Result String (Unit {0}) × W → Result ErrorObject (Unit {0}) × W
  write_made path bytes (err e, w) =
      (err (io_error ("creating " <> disk.display session_dir <> ": " <> e)), w)
  write_made path bytes (ok u, w) =
      let (r, w') = disk.write path bytes w in
      (map_err (λ e. io_error ("writing " <> disk.display path <> ": " <> e)) r, w')

  -- The end of `save_session` and of `save_any_session`, whose paths have `session_dir` as parent.
  write_snapshot : Result ErrorObject (List ℕ × List String) → W → Result ErrorObject (Unit {0}) × W
  unfolding write_made
  write_snapshot (err e) w = (err e, w)
  write_snapshot (ok (bytes, path)) w = write_made path bytes (disk.create_dir_all session_dir w)

  unfoldable pub save_session :
      LangShell S → String → Language → W → Result ErrorObject (Unit {0}) × W
  unfolding write_snapshot session_file snapshot_session_with_language
  save_session shell session_id language w =
      write_snapshot
        (snapshot_session_with_language rt shell session_id language >>= λ bytes.
          map_ok (λ path. (bytes, path)) (session_file session_dir session_id))
        w

  unfoldable pub save_any_session : LangShell S → String → W → Result ErrorObject (Unit {0}) × W
  unfolding write_snapshot session_file snapshot_session
  save_any_session shell session_id w =
      write_snapshot
        (snapshot_session rt shell session_id >>= λ bytes.
          map_ok (λ path. (bytes, path)) (session_file session_dir session_id))
        w

  remove_path : Result ErrorObject (List String) → W → Result ErrorObject Bool × W
  remove_path (err e) w = (err e, w)
  remove_path (ok path) w =
      let (r, w') = disk.remove_file path w in
      if disk.exists path w
      then (
        map_ok (λ u. true)
            (map_err (λ e. io_error ("removing " <> disk.display path <> ": " <> e)) r),
        w',
      )
      else (ok false, w)

  -- `SessionAction::Destroy`
  unfoldable pub destroy_stored : String → W → Result ErrorObject Bool × W
  unfolding remove_path session_file
  destroy_stored session_id w = remove_path (session_file session_dir session_id) w
