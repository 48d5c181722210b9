-- ===== src/Tools/Mounts/RootMount.antt =====
-- A mount at "/".
use langshell.Common.{
  ◌≡◌, refl, Bool, false, String, ◌==◌, [], ◌∷◌, err, starts_with, eqb, ◌<>◌, any, bytes, not, ◌&&◌,
  Bool-cases, inl, inr, debug,
}
use langshell.Core.{ToolError}
use langshell.Tools.Mounts.{
  HostPath, FileSystem, authorizes, pick_mount, resolve_virtual_path, denied, readwrite,
}

authorizes-root :
    (host : HostPath) (p : String)
    → (p == "/") ≡ false
    → starts_with p "//" ≡ false
    → authorizes p (readwrite "/" host) ≡ false
unfolding authorizes readwrite
authorizes-root host p h k = rw (h, k) refl

-- A mount at "/" grants nothing below it: its prefix is compared as "//", so any path that is not "/"
-- itself and does not begin with "//" is answered by PERMISSION_DENIED, for reading and for writing.
pub resolve_virtual_path-root :
    {W : Type 0} (fs : FileSystem W) (host : HostPath) (p : String) (write : Bool) (w : W)
    → (p == "/") ≡ false
    → starts_with p "//" ≡ false
    → (e : ToolError) × (resolve_virtual_path fs (readwrite "/" host ∷ []) p write w ≡ err e)
      × (e.code ≡ "PERMISSION_DENIED")
unfolding resolve_virtual_path pick_mount
resolve_virtual_path-root fs host p write w h k =
    elim (Bool-cases (not (any (eqb 0) (bytes p)) && starts_with p "/")) [
      | inl absolute ↦ (
        denied ("No mount authorizes " <> p <> "."),
        rw (absolute, authorizes-root host p h k) refl,
        refl,
      )
      | inr other ↦
          (denied ("Path " <> debug p <> " is not an absolute virtual path."), rw other refl, refl)
    ]
