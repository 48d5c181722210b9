-- ===== src/Tools/Mounts/Confined.antt =====
-- A path that `resolve_virtual_path` hands out lies in a mount that authorizes it.
use mathlib.Core.List.{Memᴰ}
use langshell.Common.{
  ◌≤◌, ◌≡◌, refl, ◌∙◌, ◌⊎◌, inl, inr, Bool, true, false, not, ◌&&◌, String, ◌==◌, eq_refl, len,
  Option, none, some, List, [], ◌∷◌, ◌++◌, ok, ok_or, map_err, ensure, any, leb, starts_with,
  strip_prefix, trim_start_matches, split, unwrap_or, All, Bool-cases, >>=-eq-ok, ensure-eq-ok,
  ok_or-eq-ok, map_err-eq-ok, contains, arith, bytes, eqb,
}
use langshell.Tools.Mounts.{
  HostPath, FileMount, FileSystem, Component, root_dir, cur_dir, parent_dir, normal,
  later_component, later_components, first_components, components, escapes, component_names, join,
  parent, path_starts_with, authorizes, better, pick_mount, settle, resolve_virtual_path,
}

path_starts_with-append : (root xs : HostPath) → path_starts_with (root ++ xs) root ≡ true
path_starts_with-append [] [] = refl
path_starts_with-append [] (x ∷ xs) = refl
path_starts_with-append (r ∷ root) xs = rw (eq_refl r, path_starts_with-append root xs) refl

-- A list of components with nothing that escapes is joined below the root.
join-plain :
    (root : HostPath) (cs : List Component)
    → any escapes cs ≡ false
    → join root cs ≡ root ++ component_names cs
join-plain root [] h = refl
join-plain root (root_dir ∷ cs) h = cc
join-plain root (cur_dir ∷ cs) h = refl
join-plain root (parent_dir ∷ cs) h = cc
join-plain root (normal s ∷ cs) h = refl

-- A `normal` component is never "..".
abbrev IsPlain : Component → Type 0
IsPlain (normal s) = (s == "..") ≡ false
IsPlain _ = Unit

later_component-IsPlain :
    (part : String) (cs : List Component)
    → All IsPlain cs
    → All IsPlain (later_component part ++ cs)
unfolding later_component
later_component-IsPlain part cs h = ground arith

later_components-IsPlain : (parts : List String) → All IsPlain (later_components parts)
unfolding later_components
later_components-IsPlain [] = tt
later_components-IsPlain (part ∷ parts) =
    later_component-IsPlain part _ (later_components-IsPlain parts)

first_components-IsPlain : (parts : List String) → All IsPlain (first_components parts)
unfolding first_components
first_components-IsPlain [] = tt
first_components-IsPlain (part ∷ parts) = ground (
  arith,
  later_component-IsPlain part _ (later_components-IsPlain parts),
  later_components-IsPlain parts,
)

components-IsPlain : (text : String) → All IsPlain (components text)
unfolding components
components-IsPlain text =
    ground (
      arith,
      first_components-IsPlain (split b'/' text),
      later_components-IsPlain (split b'/' text),
    )

names-plain :
    (cs : List Component)
    → All IsPlain cs
    → any escapes cs ≡ false
    → contains (component_names cs) ".." ≡ false
names-plain [] a h = refl
names-plain (root_dir ∷ cs) a h = cc
names-plain (cur_dir ∷ cs) a h = names-plain cs a.1 h
names-plain (parent_dir ∷ cs) a h = cc
names-plain (normal s ∷ cs) a h = rw (a.0) (names-plain cs a.1 h)

-- The later of two maxima is kept.
record IsBetter (b : Option FileMount) (x m : FileMount) : Type 0 where
  source : (b ≡ some m) ⊎ (m ≡ x)
  ge_new : len x.virtual_path ≤ len m.virtual_path
  ge_old : (o : FileMount) → b ≡ some o → len o.virtual_path ≤ len m.virtual_path

better-IsBetter : (b : Option FileMount) (x : FileMount) → IsBetter b x (better b x)
better-IsBetter none x = record { source = inr refl; ge_new = omega arith; ge_old = λ o e. cc }
better-IsBetter (some best) x =
    elim (Bool-cases (leb (len best.virtual_path) (len x.virtual_path))) [
      | inl h ↦
          rw h (record { source = inr refl; ge_new = omega arith; ge_old = λ o e. ground arith })
      | inr h ↦
          rw h (record { source = inl refl; ge_new = ground arith; ge_old = λ o e. ground arith })
    ]

-- Where the mount that is picked comes from, and that none that authorizes the path is longer.
record IsPicked (vp : String) (best : Option FileMount) (ms : List FileMount) (m : FileMount)
    : Type 0 where
  source : (best ≡ some m) ⊎ (Memᴰ m ms × (authorizes vp m ≡ true))
  longest : All (λ x. authorizes vp x ≡ true → len x.virtual_path ≤ len m.virtual_path) ms
  ge_best : (o : FileMount) → best ≡ some o → len o.virtual_path ≤ len m.virtual_path

pick_mount-IsPicked :
    (vp : String) (best : Option FileMount) (ms : List FileMount) (m : FileMount)
    → pick_mount vp best ms ≡ some m
    → IsPicked vp best ms m
unfolding pick_mount
pick_mount-IsPicked vp best [] m h = record {
  source = inl h;
  longest = tt;
  ge_best = λ o e. ground arith;
}
pick_mount-IsPicked vp best (x ∷ ms) m h = elim (Bool-cases (authorizes vp x)) [
  | inl a ↦
      let v = pick_mount-IsPicked vp (some (better best x)) ms m (rw a at h) in
      let b = better-IsBetter best x in
      record {
        source = elim v.source [
          | inl e ↦ elim b.source [
            | inl old ↦ inl (old ∙ e)
            | inr new ↦ let same : m ≡ x = ground arith in inr (Memᴰ.head same, rw same a)
          ]
          | inr p ↦ inr (Memᴰ.tail p.0, p.1)
        ];
        longest = ((λ _. omega (arith, b.ge_new, v.ge_best (better best x) refl)), v.longest);
        ge_best = λ o e. omega (arith, b.ge_old o e, v.ge_best (better best x) refl);
      }
  | inr a ↦
      let v = pick_mount-IsPicked vp best ms m (rw a at h) in
      record {
        source = elim v.source [ inl e ↦ inl e | inr p ↦ inr (Memᴰ.tail p.0, p.1) ];
        longest = ((λ yes'. ground arith), v.longest);
        ge_best = v.ge_best;
      }
]

-- A path where nothing exists yet, whose parent has its canonical form below the root: no link on the way to
-- the parent leads out.
pub record IsNew {W : Type 0} (fs : FileSystem W) (root names : HostPath) (w : W) (path : HostPath)
    : Type 0 where
  pub absent : fs.exists path w ≡ false
  pub joined : path ≡ root ++ names
  pub canonical_parent : HostPath
  pub parent_found : fs.canonicalize (unwrap_or (parent path) root) w ≡ ok canonical_parent
  pub parent_within : path_starts_with canonical_parent root ≡ true

-- What a resolved path owes to the mount that it lies in.
pub record IsConfined {W : Type 0} (fs : FileSystem W) (mounts : List FileMount)
    (virtual_path : String) (write : Bool) (w : W) (path : HostPath) : Type 0 where
  pub mount : FileMount
  pub listed : Memᴰ mount mounts
  pub authorized : authorizes virtual_path mount ≡ true
  pub longest :
      All
        (λ m. authorizes virtual_path m ≡ true → len m.virtual_path ≤ len mount.virtual_path)
        mounts
  pub permitted : write ≡ true → mount.writable ≡ true
  pub root : HostPath
  pub canonical_root : fs.canonicalize mount.host_path w ≡ ok root
  pub names : List String
  pub plain : contains names ".." ≡ false
  pub within : path_starts_with path root ≡ true
  pub settled : (fs.canonicalize (root ++ names) w ≡ ok path) ⊎ IsNew fs root names w path

module _ {W : Type 0} (fs : FileSystem W) where
  settle-within :
      (virtual_path : String) (root names : HostPath) (w : W) (path : HostPath)
      → settle fs virtual_path root (root ++ names) w ≡ ok path
      → (path_starts_with path root ≡ true)
        × ((fs.canonicalize (root ++ names) w ≡ ok path) ⊎ IsNew fs root names w path)
  unfolding settle
  settle-within virtual_path root names w path h = elim (Bool-cases (fs.exists (root ++ names) w)) [
    | inl there ↦
        let h₁ = rw there at h in
        let (canonical, e₁, h₂) = >>=-eq-ok (map_err _ (fs.canonicalize (root ++ names) w)) _ h₁ in
        let (u, e₂, h₃) = >>=-eq-ok (ensure (path_starts_with canonical root) _) _ h₂ in
        let same : canonical ≡ path = ground arith in
        (rw (← same) (ensure-eq-ok _ _ u e₂), inl (rw (← same) (map_err-eq-ok _ _ e₁)))
    | inr absent ↦
        let h₁ = rw absent at h in
        let (canonical, e₁, h₂) =
          >>=-eq-ok (map_err _ (fs.canonicalize (unwrap_or (parent (root ++ names)) root) w)) _
            h₁ in
        let (u, e₂, h₃) = >>=-eq-ok (ensure (path_starts_with canonical root) _) _ h₂ in
        let same : root ++ names ≡ path = ground arith in
        (
          rw (← same) (path_starts_with-append root names),
          inr (
              rw (← same) (record {
                absent = absent;
                joined = refl;
                canonical_parent = canonical;
                parent_found = map_err-eq-ok _ _ e₁;
                parent_within = ensure-eq-ok _ _ u e₂;
              })),
        )
  ]

  not-eq-true : (b : Bool) → not b ≡ true → b ≡ false
  not-eq-true true h = cc
  not-eq-true false h = refl

  may_write :
      (write writable : Bool) → not (write && not writable) ≡ true → write ≡ true → writable ≡ true
  may_write true true h e = refl
  may_write true false h e = cc
  may_write false writable h e = cc

  -- A path that is handed out lies below the canonical root of a listed mount that authorizes the
  -- virtual path, none that does being longer; for a write that mount is writable. It is the canonical
  -- form of the root joined with names of which none is "..", or that join itself where nothing exists; then the
  -- canonical form of its parent lies below the root too, so that no link on the way leads out of the mount.
  pub resolve_virtual_path-IsConfined :
      (mounts : List FileMount) (virtual_path : String) (write : Bool) (w : W) (path : HostPath)
      → resolve_virtual_path fs mounts virtual_path write w ≡ ok path
      → IsConfined fs mounts virtual_path write w path
  unfolding resolve_virtual_path
  resolve_virtual_path-IsConfined mounts virtual_path write w path h =
      let (u₁, e₁, h₁) =
        >>=-eq-ok
          (ensure (not (any (eqb 0) (bytes virtual_path)) && starts_with virtual_path "/") _) _ h in
      let (mount, e₂, h₂) = >>=-eq-ok (ok_or (pick_mount virtual_path none mounts) _) _ h₁ in
      let (u₃, e₃, h₃) = >>=-eq-ok (ensure (not (write && not mount.writable)) _) _ h₂ in
      let suffix =
        trim_start_matches b'/'
          (unwrap_or (strip_prefix virtual_path mount.virtual_path) virtual_path) in
      let (u₄, e₄, h₄) = >>=-eq-ok (ensure (not (any escapes (components suffix))) _) _ h₃ in
      let (root, e₅, h₅) = >>=-eq-ok (map_err _ (fs.canonicalize mount.host_path w)) _ h₄ in
      let safe : any escapes (components suffix) ≡ false = not-eq-true _ (ensure-eq-ok _ _ u₄ e₄) in
      let picked = pick_mount-IsPicked virtual_path none mounts mount (ok_or-eq-ok _ _ e₂) in
      let (within, settled) =
        settle-within virtual_path root (component_names (components suffix)) w path
          (rw (join-plain root (components suffix) safe) at h₅) in
      let (listed, authorized) = from_list (picked.source) in
      record {
        mount = mount;
        listed = listed;
        authorized = authorized;
        longest = picked.longest;
        permitted = may_write write mount.writable (ensure-eq-ok _ _ u₃ e₃);
        root = root;
        canonical_root = map_err-eq-ok _ _ e₅;
        names = component_names (components suffix);
        plain = names-plain (components suffix) (components-IsPlain suffix) safe;
        within = within;
        settled = settled;
      }
    where
      from_list :
          {m : FileMount}
          → (◌≡◌ {A = Option FileMount} none (some m))
            ⊎ (Memᴰ m mounts × (authorizes virtual_path m ≡ true))
          → Memᴰ m mounts × (authorizes virtual_path m ≡ true)
      from_list (inl e) = cc
      from_list (inr p) = p
