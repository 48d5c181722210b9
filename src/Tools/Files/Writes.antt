-- ===== src/Tools/Files/Writes.antt =====
-- What the file tools do to the world.
use langshell.Common.{
  ◌≡◌, refl, sym, ◌∙◌, ap, ◌⊎◌, inl, inr, true, String, len, none, some, List, [], ◌∷◌, map_ok,
  map_err, ◌<>◌, Result, ok, err, ok_or, and_then, get_elem?, >>=-eq-ok, Result-cases, Option-cases,
  ok_or-eq-ok, arith,
}
use langshell.Core.{Value, as_str, ToolCallContext, ToolError}
use langshell.Tools.Schemas.{obj, num, first_string_arg}
use langshell.Tools.Mounts.{HostPath, FileMount, FileSystem, parent, resolve_virtual_path}
use langshell.Tools.Mounts.Confined.{IsConfined, resolve_virtual_path-IsConfined}
use langshell.Tools.Files.{tool_failed, write_target, make_parent, write_file, write_to, write_text}

err-injective :
    {a b : ToolError} → Path (Result ToolError (String × String × HostPath)) (err a) (err b) → a ≡ b
err-injective h = cc

module _ {W : Type 0} (fs : FileSystem W) (mounts : List FileMount) where
  -- The arguments of a call, and the host path that they name.
  pub record IsTarget (ctx : ToolCallContext) (w : W) (virtual_path text : String) (path : HostPath)
      : Type 0 where
    pub named : first_string_arg ctx "write_text" ≡ ok virtual_path
    pub given : and_then (get_elem? ctx.args 1) as_str ≡ some text
    pub confined : IsConfined fs mounts virtual_path true w path

  -- Why a call names no place to write at: its path or its text is missing, or the path is refused.
  pub data IsRefused (ctx : ToolCallContext) (w : W) (e : ToolError) : Type 0 where
    unnamed : first_string_arg ctx "write_text" ≡ err e → IsRefused ctx w e
    textless :
        and_then (get_elem? ctx.args 1) as_str ≡ none → e.code ≡ "TYPE_ERROR" → IsRefused ctx w e
    unresolved :
        {virtual_path : String}
        → first_string_arg ctx "write_text" ≡ ok virtual_path
        → resolve_virtual_path fs mounts virtual_path true w ≡ err e
        → IsRefused ctx w e

  write_target-IsRefused :
      (ctx : ToolCallContext) (w : W) (e : ToolError)
      → write_target fs mounts ctx w ≡ err e
      → IsRefused ctx w e
  unfolding write_target
  write_target-IsRefused ctx w e h = elim (Result-cases (first_string_arg ctx "write_text")) [
    | inr (e', named) ↦ IsRefused.unnamed (named ∙ ap err (err-injective (rw named at h)))
    | inl (vp, named) ↦ elim (Option-cases (and_then (get_elem? ctx.args 1) as_str)) [
      | inl missing ↦
          IsRefused.textless missing
            (ap (λ (x : ToolError). x.code) (err-injective (sym (rw (named, missing) at h))))
      | inr (text, given) ↦ elim (Result-cases (resolve_virtual_path fs mounts vp true w)) [
        | inl (path, found) ↦ let clash = rw (named, given, found) at h in cc
        | inr (e', refused) ↦
            IsRefused.unresolved named
              (refused ∙ ap err (err-injective (rw (named, given, refused) at h)))
      ]
    ]
  ]

  -- The directory of a path is made, if it has one: what that answers, and the world after it.
  pub data Makes (path : HostPath) (w : W) : Result String (Unit {0}) → W → Type 0 where
    no_parent : parent path ≡ none → Makes path w (ok tt) w
    asked :
        {dir : HostPath} {r : Result String (Unit {0})} {w' : W}
        → parent path ≡ some dir
        → fs.create_dir_all dir w ≡ (r, w')
        → Makes path w r w'

  -- The directory of a path is made and then the text is written at the path, each once and up to the first that
  -- fails; the answer, and the world after it.
  pub data Writes (virtual_path text : String) (path : HostPath) (w : W)
      : Result ToolError Value × W → Type 0 where
    unmade :
        {e : String} {error : ToolError} {w' : W}
        → Makes path w (err e) w'
        → error.code ≡ "TOOL_ERROR"
        → Writes virtual_path text path w (err error, w')
    unwritten :
        {e : String} {error : ToolError} {w' w'' : W}
        → Makes path w (ok tt) w'
        → fs.write path text w' ≡ (err e, w'')
        → error.code ≡ "TOOL_ERROR"
        → Writes virtual_path text path w (err error, w'')
    written :
        {w' w'' : W}
        → Makes path w (ok tt) w'
        → fs.write path text w' ≡ (ok tt, w'')
        → Writes virtual_path text path w
            (ok (obj (("path", Value.string virtual_path) ∷ ("bytes", num (len text)) ∷ [])), w'')

  make_parent-Makes :
      (path : HostPath) (w : W)
      → Makes path w (make_parent fs mounts path w).0 (make_parent fs mounts path w).1
  unfolding make_parent
  make_parent-Makes path w = elim (Option-cases (parent path)) [
    | inl h ↦ rw (h, make_parent) (Makes.no_parent h)
    | inr (dir, h) ↦ rw (h, make_parent) (Makes.asked h refl)
  ]

  write_file-Writes :
      (virtual_path text : String) (path : HostPath) (w : W) (made : Result String (Unit {0}) × W)
      → Makes path w made.0 made.1
      → Writes virtual_path text path w (write_file fs mounts virtual_path text path made)
  unfolding write_file
  write_file-Writes virtual_path text path w (err e, w') made = Writes.unmade made refl
  write_file-Writes virtual_path text path w (ok u, w') made = answered (fs.write path text w') refl
    where
      answered :
          (r : Result String (Unit {0}) × W)
          → fs.write path text w' ≡ r
          → Writes virtual_path text path w (
            map_ok
                (λ _. obj (("path", Value.string virtual_path) ∷ ("bytes", num (len text)) ∷ []))
                (map_err (λ e. tool_failed ("write_text(" <> virtual_path <> "): " <> e)) r.0),
            r.1,
          )
      answered (ok u', w'') h = Writes.written made h
      answered (err e, w'') h = Writes.unwritten made h refl

  write_target-IsTarget :
      (ctx : ToolCallContext) (w : W) (virtual_path text : String) (path : HostPath)
      → write_target fs mounts ctx w ≡ ok (virtual_path, text, path)
      → IsTarget ctx w virtual_path text path
  unfolding write_target
  write_target-IsTarget ctx w virtual_path text path h =
      let (vp, e₁, h₁) = >>=-eq-ok (first_string_arg ctx "write_text") _ h in
      let (t, e₂, h₂) = >>=-eq-ok (ok_or (and_then (get_elem? ctx.args 1) as_str) _) _ h₁ in
      let (p, e₃, h₃) = >>=-eq-ok (resolve_virtual_path fs mounts vp true w) _ h₂ in
      let same_vp : vp ≡ virtual_path = ground arith in
      let same_t : t ≡ text = ground arith in
      let same_p : p ≡ path = ground arith in
      record {
        named = rw (← same_vp) e₁;
        given = rw (← same_t) (ok_or-eq-ok _ _ e₂);
        confined =
            rw (← same_vp, ← same_p) (resolve_virtual_path-IsConfined fs mounts vp true w p e₃);
      }

  -- `write_text` either fails and leaves the world as it was, since its path or its text is missing or the path is
  -- refused for writing; or it has a path that is confined to a writable mount
  -- that authorizes the first argument: it asks the file system to make the parent directory of that path, if it
  -- has one, and then to write the text of the second argument at that path, and nothing else. It fails where one
  -- of the two does, with TOOL_ERROR, and else answers the first argument and the bytes of the text.
  pub write_text-IsConfined :
      (ctx : ToolCallContext) (w : W)
      → ((e : ToolError) × IsRefused ctx w e × (write_text fs mounts ctx w ≡ (err e, w)))
        ⊎ ((virtual_path : String) × (text : String) × (path : HostPath) × IsTarget ctx w
              virtual_path text path
            × Writes virtual_path text path w (write_text fs mounts ctx w))
  unfolding write_text write_to
  write_text-IsConfined ctx w = elim (Result-cases (write_target fs mounts ctx w)) [
    | inl ((vp, text, path), e) ↦ inr (
      vp,
      text,
      path,
      write_target-IsTarget ctx w vp text path e,
      rw e (
          write_file-Writes vp text path w (make_parent fs mounts path w)
            (make_parent-Makes path w)),
    )
    | inr (e, h) ↦ inl (e, write_target-IsRefused ctx w e h, ap (λ r. write_to fs mounts r w) h)
  ]
