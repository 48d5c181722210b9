-- ===== src/Monty/Runtime/Snapshots.antt =====
-- Snapshots of a session, and what `restore_session` accepts.
use langshell.Common.{
  eqb_iff, subst, ℕ, ◌≡◌, refl, ◌∙◌, eqb, ◌==◌, eq_iff, eq_refl, String, Option, none, some, get_or,
  List, Result, ok, ok_or, ensure, map_err, >>=-eq-ok, ensure-eq-ok, ok_or-eq-ok, map_err-eq-ok,
  lookup, put, lookup-put,
}
use langshell.Core.{SessionId, SessionLimits, snapshot_version}
use langshell.Monty.Session.{MontySession, Packages}
use langshell.Monty.Runtime.{
  SnapshotEnvelope, monty_snapshot_magic, Storage, MontyRuntime, capability_digest,
  snapshot_session, check_envelope, restore_session, with_sessions,
}

-- The other packages read what they wrote.
pub record RoundTrips {Repl : Type 0} (storage : Storage Repl) : Type 0 where
  pub load-dump : (r : Repl) (bs : List ℕ) → storage.dump r ≡ ok bs → storage.load bs ≡ ok r
  pub decode-encode :
      (s : SnapshotEnvelope) (bs : List ℕ) → storage.encode s ≡ ok bs → storage.decode bs ≡ ok s

module _ {Repl K W : Type 0} (pkg : Packages Repl K W) (storage : Storage Repl) where
  ok-injective {ℓ κ} :
      {E : Type ℓ} {A : Type κ} {a b : A} → let r : Result E A = ok a in r ≡ ok b → a ≡ b
  ok-injective h = cc

  lookup-put-same :
      (k : String) (v : MontySession Repl) (m : List (String × MontySession Repl))
      → lookup k (put k v m) ≡ some v
  lookup-put-same k v m = lookup-put k k v m ∙ rw (eq_refl k) refl

  -- The session that `restore_session` puts into the map.
  abbrev pub restored : SessionId → SessionLimits → Repl → MontySession Repl
  restored id limits repl = record { id = id; limits = limits; repl = repl }

  -- What a restored snapshot has been, and where its session is.
  pub record IsRestored (rt : MontyRuntime Repl W) (bytes : List ℕ) (rt' : MontyRuntime Repl W)
      (id : SessionId) : Type 0 where
    pub envelope : SnapshotEnvelope
    pub repl : Repl
    pub decoded : storage.decode bytes ≡ ok envelope
    pub magic : envelope.magic ≡ monty_snapshot_magic
    pub version : envelope.version ≡ snapshot_version
    pub same_capabilities : envelope.capability_digest ≡ capability_digest pkg storage rt.registry
    pub loaded : storage.load envelope.repl_dump ≡ ok repl
    pub stored : lookup id.id rt'.sessions ≡ some (restored id envelope.limits repl)

  check_envelope-eq-ok :
      (rt : MontyRuntime Repl W) (e : SnapshotEnvelope) (u : Unit {0})
      → check_envelope pkg storage rt e ≡ ok u
      → (e.magic ≡ monty_snapshot_magic)
        × (e.version ≡ snapshot_version)
        × (e.capability_digest ≡ capability_digest pkg storage rt.registry)
  unfolding check_envelope
  check_envelope-eq-ok rt e u h =
      let (u1, magic, h1) = >>=-eq-ok (ensure (e.magic == monty_snapshot_magic) _) _ h in
      let (u2, version, h2) = >>=-eq-ok (ensure (eqb e.version snapshot_version) _) _ h1 in
      (
        (eq_iff _ _).0 (ensure-eq-ok _ _ u1 magic),
        (eqb_iff e.version snapshot_version).0 (ensure-eq-ok _ _ u2 version),
        (eq_iff _ _).0 (ensure-eq-ok _ _ u h2),
      )

  -- `restore_session` gives a runtime only for bytes that decode to an envelope with this runtime's magic,
  -- version and capability digest and with a state that loads; the session is then in the map under the
  -- answered id, with the limits of the envelope and that state.
  pub restore_session-IsRestored :
      (rt rt' : MontyRuntime Repl W) (bytes : List ℕ) (session_id : Option SessionId)
      (id : SessionId)
      → restore_session pkg storage rt bytes session_id ≡ ok (rt', id)
      → IsRestored rt bytes rt' id
  unfolding restore_session
  restore_session-IsRestored rt rt' bytes session_id id h =
      let (envelope, decoded, h1) = >>=-eq-ok (map_err _ (storage.decode bytes)) _ h in
      let (u, checked, h2) = >>=-eq-ok (check_envelope pkg storage rt envelope) _ h1 in
      let (repl, loaded, h3) = >>=-eq-ok (map_err _ (storage.load envelope.repl_dump)) _ h2 in
      let (magic, version, same) = check_envelope-eq-ok rt envelope u checked in
      record {
        envelope = envelope;
        repl = repl;
        decoded = map_err-eq-ok _ _ decoded;
        magic = magic;
        version = version;
        same_capabilities = same;
        loaded = map_err-eq-ok _ _ loaded;
        stored =
            subst
              (λ (p : MontyRuntime Repl W × SessionId).
                lookup p.1.id p.0.sessions ≡ some (restored p.1 envelope.limits repl))
              (ok-injective h3) (lookup-put-same _ _ rt.sessions);
      }

  -- The session that a snapshot restores to, under the id that the restore is given.
  pub restore_session-snapshot_session_as :
      RoundTrips storage
      → (rt rt' : MontyRuntime Repl W) (id : SessionId) (bytes : List ℕ)
        (session_id : Option SessionId)
      → capability_digest pkg storage rt.registry ≡ capability_digest pkg storage rt'.registry
      → snapshot_session pkg storage rt id ≡ ok bytes
      → let named = get_or session_id id in
        (session : MontySession Repl) × (lookup id.id rt.sessions ≡ some session)
        × (restore_session pkg storage rt' bytes session_id
            ≡ ok (
              with_sessions pkg storage rt'
                  (put named.id (restored named session.limits session.repl) rt'.sessions),
              named,
            ))
  unfolding restore_session snapshot_session check_envelope
  restore_session-snapshot_session_as trips rt rt' id bytes session_id same h =
      let (session, found, h1) = >>=-eq-ok (ok_or (lookup id.id rt.sessions) _) _ h in
      let (dump, dumped, h2) = >>=-eq-ok (map_err _ (storage.dump session.repl)) _ h1 in
      let decoded = trips.decode-encode _ bytes (map_err-eq-ok _ _ h2) in
      let loaded = trips.load-dump session.repl dump (map_err-eq-ok _ _ dumped) in
      (
        session,
        ok_or-eq-ok _ _ found,
        rw (decoded, same, eq_refl (capability_digest pkg storage rt'.registry), loaded) refl,
      )

  -- Where the other packages read what they wrote, the bytes that `snapshot_session` gives restore, in a
  -- runtime whose tools have the same names, to a session of the same id, limits and state.
  pub restore_session-snapshot_session :
      RoundTrips storage
      → (rt rt' : MontyRuntime Repl W) (id : SessionId) (bytes : List ℕ)
      → capability_digest pkg storage rt.registry ≡ capability_digest pkg storage rt'.registry
      → snapshot_session pkg storage rt id ≡ ok bytes
      → (session : MontySession Repl) × (lookup id.id rt.sessions ≡ some session)
        × (restore_session pkg storage rt' bytes none
            ≡ ok (
              with_sessions pkg storage rt'
                  (put id.id (restored id session.limits session.repl) rt'.sessions),
              id,
            ))
  restore_session-snapshot_session trips rt rt' id bytes same h =
      restore_session-snapshot_session_as trips rt rt' id bytes none same h
