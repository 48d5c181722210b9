-- ===== src/Tools/Files.antt =====
-- `register_file_tools` of crates/langshell-tools/src/lib.rs, with the handlers of its three tools.
pub mod Writes
use langshell.Common.{
  ℕ, Bool, true, false, String, len, Option, none, some, List, [], ◌∷◌, map, Result, ok, err, ok_or,
  map_ok, map_err, and_then, get_elem?, sort, ◌<>◌, ◌>>=◌,
}
use langshell.Core.{
  Value, as_str, ToolCallContext, ToolError, tool_error, ErrorObject, new_capability,
  with_input_schema, with_output_schema, SideEffect,
}
use langshell.Core.Registry.{ToolRegistry, ToolFn, RegisteredTool, sync, register}
use langshell.Tools.Schemas.{
  obj, arr, num, typed, single_string_arg_schema, write_text_input_schema, write_text_output_schema,
  first_string_arg,
}
use langshell.Tools.Mounts.{HostPath, FileMount, FileSystem, parent, resolve_virtual_path}

abbrev tool_failed : String → ToolError
tool_failed message = tool_error "TOOL_ERROR" message

-- The loop over the entries: the first that fails ends it.
abbrev collect : List (Result String String) → Result ToolError (List String)
collect [] = ok []
collect (err e ∷ entries) = err (tool_failed ("list_dir entry: " <> e))
collect (ok name ∷ entries) = let rest = collect entries in map_ok (λ names. name ∷ names) rest

module _ {W : Type 0} (fs : FileSystem W) (mounts : List FileMount) where
  unfoldable pub read_text : ToolFn W
  unfolding resolve_virtual_path first_string_arg
  read_text ctx w = (read, w)
    where
      read : Result ToolError Value
      read = do
        virtual_path ← first_string_arg ctx "read_text"
        resolved ← resolve_virtual_path fs mounts virtual_path false w
        map_ok Value.string (
            map_err (λ e. tool_failed ("read_text(" <> virtual_path <> "): " <> e))
              (fs.read_to_string resolved w))

  -- What `write_text` settles before it changes anything: the virtual path, the text, the host path.
  write_target : ToolCallContext → W → Result ToolError (String × String × HostPath)
  unfolding resolve_virtual_path first_string_arg
  write_target ctx w = do
    virtual_path ← first_string_arg ctx "write_text"
    text ←
        ok_or (and_then (get_elem? ctx.args 1) as_str)
          (tool_error "TYPE_ERROR" "write_text requires path and text arguments.")
    resolved ← resolve_virtual_path fs mounts virtual_path true w
    ok (virtual_path, text, resolved)

  -- `if let Some(parent) = resolved.parent() { fs::create_dir_all(parent)?; }`
  make_parent : HostPath → W → Result String (Unit {0}) × W
  make_parent resolved w = elim (parent resolved) [
    | none ↦ (ok tt, w)
    | some dir ↦ fs.create_dir_all dir w
  ]

  write_file :
      String → String → HostPath → Result String (Unit {0}) × W → Result ToolError Value × W
  write_file virtual_path text resolved (err e, w) =
      (err (tool_failed ("creating parent directory: " <> e)), w)
  write_file virtual_path text resolved (ok u, w) =
      let (written, w') = fs.write resolved text w in
      (
        map_ok (λ _. obj (("path", Value.string virtual_path) ∷ ("bytes", num (len text)) ∷ []))
            (map_err (λ e. tool_failed ("write_text(" <> virtual_path <> "): " <> e)) written),
        w',
      )

  write_to : Result ToolError (String × String × HostPath) → W → Result ToolError Value × W
  unfolding make_parent write_file
  write_to (err e) w = (err e, w)
  write_to (ok (virtual_path, text, resolved)) w =
      write_file virtual_path text resolved (make_parent resolved w)

  unfoldable pub write_text : ToolFn W
  unfolding write_to write_target
  write_text ctx w = write_to (write_target ctx w) w

  unfoldable pub list_dir : ToolFn W
  unfolding resolve_virtual_path first_string_arg sort
  list_dir ctx w = (listed, w)
    where
      listed : Result ToolError Value
      listed = do
        virtual_path ← first_string_arg ctx "list_dir"
        resolved ← resolve_virtual_path fs mounts virtual_path false w
        entries ←
            map_err (λ e. tool_failed ("list_dir(" <> virtual_path <> "): " <> e))
              (fs.read_dir resolved w)
        names ← collect entries
        ok (arr (map Value.string (sort names)))

  unfoldable pub read_text_tool : RegisteredTool W
  unfolding new_capability read_text
  read_text_tool =
      sync
        (with_output_schema
          (with_input_schema
            (new_capability "read_text" "Read UTF-8 text from an authorized virtual path."
              SideEffect.read)
            (single_string_arg_schema "path"))
          (typed "string"))
        read_text

  unfoldable pub write_text_tool : RegisteredTool W
  unfolding new_capability write_text
  write_text_tool =
      sync
        (with_output_schema
          (with_input_schema
            (new_capability "write_text" "Write UTF-8 text to an authorized writable virtual path."
              SideEffect.write)
            write_text_input_schema)
          write_text_output_schema)
        write_text

  unfoldable pub list_dir_tool : RegisteredTool W
  unfolding new_capability list_dir
  list_dir_tool =
      sync
        (with_output_schema
          (with_input_schema
            (new_capability "list_dir" "List direct children of an authorized virtual directory."
              SideEffect.read)
            (single_string_arg_schema "path"))
          (obj (("type", Value.string "array") ∷ ("items", typed "string") ∷ [])))
        list_dir

  unfoldable pub register_file_tools : ToolRegistry W → Result ErrorObject (ToolRegistry W)
  unfolding register read_text_tool write_text_tool list_dir_tool
  register_file_tools registry = do
    r₁ ← register registry read_text_tool
    r₂ ← register r₁ write_text_tool
    register r₂ list_dir_tool
