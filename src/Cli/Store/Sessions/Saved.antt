-- ===== src/Cli/Store/Sessions/Saved.antt =====
-- A session that is saved is loaded from the bytes of its snapshot.
use langshell.Common.{
  ℕ, ◌≡◌, refl, ◌∙◌, ap, subst, map_err-eq-ok, true, String, some, List, Result, ok, err, map_ok,
  >>=-eq-ok,
}
use langshell.Core.{Language, ErrorObject}
use langshell.Sdk.{LanguageRuntime, LangShell, snapshot_session_with_language}
use langshell.Sdk.Restore.{restore_session}
use langshell.Cli.Store.{session_file}
use langshell.Cli.Store.Sessions.{
  Disk, loaded, load_bytes, load_file, load_session_if_exists, write_made, write_snapshot,
  save_session,
}

-- What is written is there and is read back.
pub record KeepsFiles {W : Type 0} (disk : Disk W) : Type 0 where
  pub exists-write :
      (path : List String) (bytes : List ℕ) (w : W)
      → (disk.write path bytes w).0 ≡ ok tt
      → disk.exists path (disk.write path bytes w).1 ≡ true
  pub read-write :
      (path : List String) (bytes : List ℕ) (w : W)
      → (disk.write path bytes w).0 ≡ ok tt
      → disk.read path (disk.write path bytes w).1 ≡ ok bytes

pair_ok {ℓ κ μ} :
    {E : Type ℓ} {A : Type κ} {B : Type μ} (r : Result E A) (b b' : B) (a : A)
    → map_ok {B = B × A} (λ x. (b, x)) r ≡ ok (b', a)
    → (r ≡ ok a) × (b ≡ b')
pair_ok (ok x) b b' a h = (cc, cc)
pair_ok (err e) b b' a h = (cc, cc)

module _ {S W : Type 0} (disk : Disk W) (session_dir : List String) (rt : LanguageRuntime S W) where
  abbrev Written : List String → List ℕ → W → Type 0
  Written path bytes w' =
      (w : W) × ((disk.write path bytes w).0 ≡ ok tt) × ((disk.write path bytes w).1 ≡ w')

  write_made-eq-ok :
      (path : List String) (bytes : List ℕ) (made : Result String (Unit {0}) × W) (w' : W)
      → write_made disk session_dir rt path bytes made ≡ (ok tt, w')
      → Written path bytes w'
  unfolding write_made
  write_made-eq-ok path bytes (err e, w) w' h = cc
  write_made-eq-ok path bytes (ok u, w) w' h =
      (w, map_err-eq-ok _ _ (ap (λ p. p.0) h), ap (λ p. p.1) h)

  write_snapshot-eq-ok :
      (r : Result ErrorObject (List ℕ × List String)) (w w' : W)
      → write_snapshot disk session_dir rt r w ≡ (ok tt, w')
      → (bytes : List ℕ) × (path : List String) × (r ≡ ok (bytes, path)) × Written path bytes w'
  unfolding write_snapshot
  write_snapshot-eq-ok (err e) w w' h = cc
  write_snapshot-eq-ok (ok (bytes, path)) w w' h =
      (bytes, path, refl, write_made-eq-ok path bytes (disk.create_dir_all session_dir w) w' h)

  -- Where the file system reads back what is written, a session that `save_session` stores without an error is
  -- restored by `load_session_if_exists`, in any shell, from the bytes of the snapshot that was taken.
  pub load_session_if_exists-save_session :
      KeepsFiles disk
      → (shell other : LangShell S) (session_id : String) (language : Language) (w w' : W)
      → save_session disk session_dir rt shell session_id language w ≡ (ok tt, w')
      → (bytes : List ℕ) × (snapshot_session_with_language rt shell session_id language ≡ ok bytes)
        × (load_session_if_exists disk session_dir rt other session_id w'
            ≡ loaded disk session_dir rt (restore_session rt other bytes (some session_id)))
  unfolding save_session load_session_if_exists load_file load_bytes
  load_session_if_exists-save_session keeps shell other session_id language w w' h =
      let (bytes, path, both, written) = write_snapshot-eq-ok _ w w' h in
      let (w1, wrote, after) = written in
      let (taken, snapshot, filed) =
        >>=-eq-ok (snapshot_session_with_language rt shell session_id language) _ both in
      let (file, same) = pair_ok (session_file session_dir session_id) taken bytes path filed in
      let there : disk.exists path w' ≡ true =
        subst (λ x. disk.exists path x ≡ true) after (keeps.exists-write path bytes w1 wrote) in
      let reads : disk.read path w' ≡ ok bytes =
        subst (λ x. disk.read path x ≡ ok bytes) after (keeps.read-write path bytes w1 wrote) in
      (bytes, snapshot ∙ ap ok same, rw (file, there, reads) refl)

  load_file-same :
      (shell : LangShell S) (session_id : String) (r : Result ErrorObject (List String)) (w w' : W)
      → ((path : List String) → disk.exists path w' ≡ disk.exists path w)
      → ((path : List String) → disk.read path w' ≡ disk.read path w)
      → load_file disk session_dir rt shell session_id r w'
        ≡ load_file disk session_dir rt shell session_id r w
  unfolding load_file
  load_file-same shell session_id (err e) w w' there reads = refl
  load_file-same shell session_id (ok path) w w' there reads = rw (there path, reads path) refl

  -- A load sees of the world only the files.
  pub load_session_if_exists-same :
      (shell : LangShell S) (session_id : String) (w w' : W)
      → ((path : List String) → disk.exists path w' ≡ disk.exists path w)
      → ((path : List String) → disk.read path w' ≡ disk.read path w)
      → load_session_if_exists disk session_dir rt shell session_id w'
        ≡ load_session_if_exists disk session_dir rt shell session_id w
  unfolding load_session_if_exists
  load_session_if_exists-same shell session_id w w' there reads =
      load_file-same shell session_id (session_file session_dir session_id) w w' there reads
