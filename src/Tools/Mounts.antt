-- ===== src/Tools/Mounts.antt =====
-- `FileMount`, `normalize_virtual_root` and `resolve_virtual_path` of crates/langshell-tools/src/lib.rs. A
-- host path is the list of its components, as `std::path` compares paths on Unix; the file system is a
-- parameter.
pub mod Confined
pub mod RootMount
use langshell.Common.{
  ℕ, ◌≡◌, refl, Bool, true, false, not, ◌&&◌, ◌||◌, String, ◌==◌, len, Option, none, some, List, [],
  ◌∷◌, ◌++◌, Result, ok, err, ok_or, map_err, ensure, ◌>>=◌, ◌>>◌, any, bytes, eqb, leb, is_empty,
  starts_with, strip_prefix, trim_start_matches, trim_end_matches, split, unwrap_or, debug, ◌<>◌,
  if◌then◌else◌,
}
use langshell.Core.{ToolError, tool_error}

abbrev pub HostPath : Type 0
HostPath = List String

pub record FileMount : Type 0 where
  pub virtual_path : String
  pub host_path : HostPath
  pub writable : Bool

unfoldable pub normalize_virtual_root : String → String
unfolding trim_end_matches starts_with
normalize_virtual_root path =
    let trimmed = trim_end_matches b'/' path in
    if is_empty trimmed then "/" else if starts_with trimmed "/" then trimmed else "/" <> trimmed

unfoldable pub readonly : String → HostPath → FileMount
unfolding normalize_virtual_root
readonly virtual_path host_path = record {
  virtual_path = normalize_virtual_root virtual_path;
  host_path = host_path;
  writable = false;
}

unfoldable pub readwrite : String → HostPath → FileMount
unfolding normalize_virtual_root
readwrite virtual_path host_path = record {
  virtual_path = normalize_virtual_root virtual_path;
  host_path = host_path;
  writable = true;
}

-- What the tools ask of `std::fs`. An error is its text.
pub record FileSystem (W : Type 0) : Type 0 where
  pub canonicalize : HostPath → W → Result String HostPath
  pub exists : HostPath → W → Bool
  pub read_to_string : HostPath → W → Result String String
  pub create_dir_all : HostPath → W → Result String (Unit {0}) × W
  pub write : HostPath → String → W → Result String (Unit {0}) × W
  pub read_dir : HostPath → W → Result String (List (Result String String))

-- `std::path::Component`, on Unix.
pub data Component : Type 0 where
  root_dir cur_dir parent_dir : Component
  normal : String → Component

later_component : String → List Component
later_component part =
    if is_empty part || part == "."
    then []
    else if part == ".."
    then parent_dir ∷ []
    else normal part ∷ []

later_components : List String → List Component
unfolding later_component
later_components [] = []
later_components (part ∷ parts) = later_component part ++ later_components parts

first_components : List String → List Component
unfolding later_components
first_components [] = []
first_components (part ∷ parts) =
    (if part == "." then cur_dir ∷ [] else later_component part) ++ later_components parts

-- `Path::components`: "." counts at the front of a relative path only.
unfoldable pub components : String → List Component
unfolding first_components split starts_with
components text =
    if starts_with text "/"
    then root_dir ∷ later_components (split b'/' text)
    else first_components (split b'/' text)

-- `ParentDir | RootDir | Prefix(_)`; the last is Windows'.
abbrev pub escapes : Component → Bool
escapes root_dir = true
escapes cur_dir = false
escapes parent_dir = true
escapes (normal s) = false

abbrev component_names : List Component → List String
component_names [] = []
component_names (root_dir ∷ cs) = component_names cs
component_names (cur_dir ∷ cs) = component_names cs
component_names (parent_dir ∷ cs) = ".." ∷ component_names cs
component_names (normal s ∷ cs) = s ∷ component_names cs

-- `Path::join`: an absolute path replaces the first.
abbrev pub join : HostPath → List Component → HostPath
join root (root_dir ∷ cs) = component_names cs
join root cs = root ++ component_names cs

-- `Path::parent`.
abbrev pub parent : HostPath → Option HostPath
parent [] = none
parent (x ∷ []) = some []
parent (x ∷ y ∷ xs) = elim (parent (y ∷ xs)) [ none ↦ none | some ys ↦ some (x ∷ ys) ]

-- `Path::starts_with`.
abbrev pub path_starts_with : HostPath → HostPath → Bool
path_starts_with xs [] = true
path_starts_with [] (y ∷ ys) = false
path_starts_with (x ∷ xs) (y ∷ ys) = (x == y) && path_starts_with xs ys

-- The filter of `resolve_virtual_path`.
unfoldable pub authorizes : String → FileMount → Bool
unfolding starts_with
authorizes virtual_path mount =
    (virtual_path == mount.virtual_path) || starts_with virtual_path (mount.virtual_path <> "/")

-- One round of `max_by_key`, in which the later of two maxima wins.
abbrev better : Option FileMount → FileMount → FileMount
better none m = m
better (some best) m = if leb (len best.virtual_path) (len m.virtual_path) then m else best

pick_mount : String → Option FileMount → List FileMount → Option FileMount
unfolding authorizes
pick_mount virtual_path best [] = best
pick_mount virtual_path best (m ∷ ms) =
    pick_mount virtual_path (if authorizes virtual_path m then some (better best m) else best) ms

denied : String → ToolError
denied message = tool_error "PERMISSION_DENIED" message

module _ {W : Type 0} (fs : FileSystem W) where
  -- From `candidate.exists()` on.
  settle : String → HostPath → HostPath → W → Result ToolError HostPath
  unfolding denied
  settle virtual_path host_root candidate w =
      if fs.exists candidate w
      then (do
        canonical ←
            map_err (λ e. denied ("Path is not accessible: " <> e)) (fs.canonicalize candidate w)
        ensure (path_starts_with canonical host_root)
            (denied ("Path escapes mount boundary: " <> virtual_path <> "."))
        ok canonical)
      else (do
        canonical_parent ←
            map_err (λ e. denied ("Parent path is not accessible: " <> e))
              (fs.canonicalize (unwrap_or (parent candidate) host_root) w)
        ensure (path_starts_with canonical_parent host_root)
            (denied ("Path escapes mount boundary: " <> virtual_path <> "."))
        ok candidate)

  unfoldable pub resolve_virtual_path :
      List FileMount → String → Bool → W → Result ToolError HostPath
  unfolding settle pick_mount components trim_start_matches strip_prefix bytes starts_with denied
  resolve_virtual_path mounts virtual_path write w = do
    ensure (not (any (eqb 0) (bytes virtual_path)) && starts_with virtual_path "/")
        (denied ("Path " <> debug virtual_path <> " is not an absolute virtual path."))
    mount ←
        ok_or (pick_mount virtual_path none mounts)
          (denied ("No mount authorizes " <> virtual_path <> "."))
    ensure (not (write && not mount.writable))
        (denied ("Mount " <> mount.virtual_path <> " is read-only."))
    let suffix =
        trim_start_matches b'/'
          (unwrap_or (strip_prefix virtual_path mount.virtual_path) virtual_path)
    ensure (not (any escapes (components suffix)))
        (denied ("Path traversal is not allowed: " <> virtual_path <> "."))
    host_root ←
        map_err (λ e. denied ("Mount root is not accessible: " <> e))
          (fs.canonicalize mount.host_path w)
    settle virtual_path host_root (join host_root (components suffix)) w
