-- ===== src/Tools/Tests.antt =====
-- Runs of langshell-tools on concrete inputs.
use langshell.Common.{
  ℕ, ◌≡◌, refl, ◌⊎◌, Bool, true, false, String, ◌==◌, some, List, [], ◌∷◌, Result, ok, err, ok_or,
  has_char, contains, any, str_lt, if◌then◌else◌,
}
use mathlib.Core.Option
use langshell.Core.{Value, Fields, ToolCallContext, ToolError}
use langshell.Core.Registry.{ToolRegistry, RegisteredTool, new_registry, register, get_tool, names}
use langshell.Core.Registry.Names.{new_registry-IsWellFormed}
use langshell.Tools.Schemas.{capability_value}
use langshell.Tools.Urls.{
  HasHost, ensure_url_allowed, host_denied, bad_scheme, ensure_url_allowed-total,
  ensure_url_allowed-userinfo,
}
use langshell.Tools.Mounts.{
  HostPath, FileMount, FileSystem, normalize_virtual_root, readonly, readwrite,
  resolve_virtual_path,
}
use langshell.Tools.Mounts.Confined.{IsConfined, resolve_virtual_path-IsConfined}
use langshell.Tools.Mounts.RootMount.{resolve_virtual_path-root}
use langshell.Tools.Files.{read_text, write_text}
use langshell.Tools.Files.Writes.{IsRefused, IsTarget, Writes, write_text-IsConfined}
use langshell.Tools.Discovery.{register_discovery_tools, unknown_tool}
use langshell.Tools.Discovery.Describe.{describe_tool-register_discovery_tools}

-- A file system in memory: files by their paths, and no links.
abbrev Files : Type 0
Files = List (HostPath × String)

same_path : HostPath → HostPath → Bool
same_path [] [] = true
same_path (x ∷ xs) (y ∷ ys) = elim (x == y) [ true ↦ same_path xs ys | false ↦ false ]
same_path _ _ = false

stored : HostPath → Files → Result String String
unfolding same_path
stored p [] = err "not found"
stored p ((q, s) ∷ files) = let rest = stored p files in if same_path p q then ok s else rest

memory_fs : FileSystem Files
unfolding stored same_path
memory_fs = record {
  canonicalize = λ p w. ok p;
  exists = λ p w. any (λ f. same_path p f.0) w;
  read_to_string = stored;
  create_dir_all = λ p w. (ok tt, w);
  write = λ p s w. (ok tt, (p, s) ∷ w);
  read_dir = λ p w. ok (ok "b" ∷ ok "a" ∷ []);
}

abbrev mounts : List FileMount
unfolding readwrite readonly
mounts =
    readonly "workspace/" ("srv" ∷ "ro" ∷ []) ∷ readwrite "/workspace/tmp" ("srv" ∷ "tmp" ∷ []) ∷ []

files : Unit {0}
unfolding memory_fs resolve_virtual_path readwrite readonly read_text write_text
files = tt

roots :
    (normalize_virtual_root "data//" ≡ "/data")
    × (normalize_virtual_root "//" ≡ "/")
    × (normalize_virtual_root "/data" ≡ "/data")
unfolding normalize_virtual_root
roots = (refl, refl, refl)

resolved :
    (resolve_virtual_path memory_fs mounts "/workspace/tmp/a/./b" true []
      ≡ ok ("srv" ∷ "tmp" ∷ "a" ∷ "b" ∷ []))
    × (resolve_virtual_path memory_fs mounts "/workspace/x" false [] ≡ ok ("srv" ∷ "ro" ∷ "x" ∷ []))
unfolding files
resolved = (refl, refl)

refused :
    (resolve_virtual_path memory_fs mounts "/workspace/x" true []
      ≡ err (record { code = "PERMISSION_DENIED"; message = "Mount /workspace is read-only." }))
    × (resolve_virtual_path memory_fs mounts "/workspace/../etc" false []
        ≡ err (record {
          code = "PERMISSION_DENIED";
          message = "Path traversal is not allowed: /workspace/../etc.";
        }))
unfolding files
refused = (refl, refl)

resolve_virtual_path-IsConfined_example :
    IsConfined memory_fs mounts "/workspace/tmp/a/./b" true [] ("srv" ∷ "tmp" ∷ "a" ∷ "b" ∷ [])
resolve_virtual_path-IsConfined_example =
    resolve_virtual_path-IsConfined memory_fs mounts "/workspace/tmp/a/./b" true []
      ("srv" ∷ "tmp" ∷ "a" ∷ "b" ∷ []) (resolved.0)

resolve_virtual_path-root_example :
    (e : ToolError) × (resolve_virtual_path memory_fs
        (readwrite "/" ("srv" ∷ []) ∷ [])
        "/notes.txt"
        false
        []
      ≡ err e)
    × (e.code ≡ "PERMISSION_DENIED")
unfolding files
resolve_virtual_path-root_example =
    resolve_virtual_path-root memory_fs ("srv" ∷ []) "/notes.txt" false [] refl refl

abbrev write_call : ToolCallContext
write_call = record {
  name = "write_text";
  args = Value.string "/workspace/tmp/a" ∷ Value.string "hi" ∷ [];
  kwargs = Fields.end;
}

write_text-IsConfined_example :
    ((e : ToolError) × IsRefused memory_fs mounts write_call [] e
      × (write_text memory_fs mounts write_call [] ≡ (err e, [])))
    ⊎ ((virtual_path : String) × (text : String) × (path : HostPath) × IsTarget memory_fs mounts
          write_call [] virtual_path text path
        × Writes memory_fs mounts virtual_path text path []
            (write_text memory_fs mounts write_call []))
write_text-IsConfined_example = write_text-IsConfined memory_fs mounts write_call []

written : (write_text memory_fs mounts write_call []).1 ≡ ("srv" ∷ "tmp" ∷ "a" ∷ [], "hi") ∷ []
unfolding files
written = refl

-- Texts in lower case already.
abbrev lower : String → String
lower s = s

urls :
    (ensure_url_allowed lower ("api.example.com" ∷ []) "https://api.example.com:443/items" ≡ ok tt)
    × (ensure_url_allowed lower ("api.example.com" ∷ []) "ftp://api.example.com/"
        ≡ err (bad_scheme lower))
    × (ensure_url_allowed lower ("api.example.com" ∷ []) "http://evil.example/"
        ≡ err (host_denied lower "evil.example"))
unfolding ensure_url_allowed
urls = (refl, refl, refl)

ensure_url_allowed-total_example :
    ((host : String) × HasHost lower "http://a.b/c" host
      × (ensure_url_allowed lower [] "http://a.b/c"
          ≡ (if contains [] (lower host) then ok tt else err (host_denied lower (lower host)))))
    ⊎ (((host : String) → ¬ HasHost lower "http://a.b/c" host)
        × (ensure_url_allowed lower [] "http://a.b/c" ≡ err (bad_scheme lower)))
ensure_url_allowed-total_example = ensure_url_allowed-total lower [] "http://a.b/c"

ensure_url_allowed-userinfo_example :
    ensure_url_allowed lower ("good.example" ∷ []) "https://good.example:x@evil.example/p" ≡ ok tt
unfolding has_char
ensure_url_allowed-userinfo_example =
    ensure_url_allowed-userinfo lower ("good.example" ∷ []) "good.example" "x" "evil.example" "p"
      refl refl refl refl refl

built : ToolRegistry ℕ
unfolding register_discovery_tools register
built = elim (register_discovery_tools new_registry) [ ok r ↦ r | err e ↦ new_registry ]

built-eq : register_discovery_tools new_registry ≡ ok built
unfolding built str_lt
built-eq = refl

built_names : names built ≡ "current_policy" ∷ "describe_tool" ∷ "list_tools" ∷ []
unfolding built str_lt names
built_names = refl

describe_tool-register_discovery_tools_example :
    (tool : RegisteredTool ℕ) × (get_tool built "describe_tool" ≡ some tool)
    × ((ctx : ToolCallContext) (name : String) (rest : List Value) (w : ℕ)
        → ctx.args ≡ Value.string name ∷ rest
        → tool.handler ctx w ≡ (
          ok_or
              (Option.map (λ t. capability_value t.capability) (get_tool built name))
              (unknown_tool name),
          w,
        ))
unfolding get_tool
describe_tool-register_discovery_tools_example =
    describe_tool-register_discovery_tools new_registry built new_registry-IsWellFormed refl refl
      built-eq
