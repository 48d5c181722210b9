-- ===== src/Tools/Builtin.antt =====
-- `register_http_tools` and `register_builtin_tools` of crates/langshell-tools/src/lib.rs.
use langshell.Common.{String, List, [], ◌∷◌, map, Result, ok, err, ◌>>=◌}
use langshell.Core.{
  Value, Fields, tool_error, ErrorObject, new_capability, with_input_schema, with_output_schema,
  SideEffect,
}
use langshell.Core.Registry.{ToolRegistry, ToolFn, RegisteredTool, asynchronous, register}
use langshell.Tools.Schemas.{typed, single_string_arg_schema, first_string_arg}
use langshell.Tools.Urls.{ensure_url_allowed}
use langshell.Tools.Mounts.{FileMount, FileSystem}
use langshell.Tools.Files.{register_file_tools}
use langshell.Tools.Discovery.{register_discovery_tools}

pub record ToolConfig : Type 0 where
  pub file_mounts : List FileMount
  pub http_allowlist : List String

module _ {W : Type 0} (to_lowercase : String → String) where
  -- Both handlers end in the same way: the transport is not built in.
  unfoldable pub fetch : String → String → List String → ToolFn W
  unfolding first_string_arg ensure_url_allowed
  fetch name message allowlist ctx w = (
    (do
      url ← first_string_arg ctx name
      _ ← ensure_url_allowed to_lowercase allowlist url
      err (tool_error "TOOL_ERROR" message)),
    w,
  )

  unfoldable pub fetch_text_tool : List String → RegisteredTool W
  unfolding new_capability fetch
  fetch_text_tool allowlist =
      asynchronous
        (with_output_schema
          (with_input_schema
            (new_capability "fetch_text" "Fetch text from an allowlisted HTTP(S) URL."
              SideEffect.network)
            (single_string_arg_schema "url"))
          (typed "string"))
        (fetch "fetch_text" "fetch_text transport is not configured in this build." allowlist)

  unfoldable pub fetch_json_tool : List String → RegisteredTool W
  unfolding new_capability fetch
  fetch_json_tool allowlist =
      asynchronous
        (with_output_schema
          (with_input_schema
            (new_capability "fetch_json" "Fetch JSON from an allowlisted HTTP(S) URL."
              SideEffect.network)
            (single_string_arg_schema "url"))
          (Value.object Fields.end))
        (fetch "fetch_json"
          "fetch_json transport is not configured in this build; register a host fetch_json capability."
          allowlist)

  unfoldable pub register_http_tools :
      List String → ToolRegistry W → Result ErrorObject (ToolRegistry W)
  unfolding register fetch_text_tool fetch_json_tool
  register_http_tools hosts registry = do
    let allowlist = map to_lowercase hosts
    r₁ ← register registry (fetch_text_tool allowlist)
    register r₁ (fetch_json_tool allowlist)

  -- `if !xs.is_empty() { step(registry, xs)?; }`
  abbrev if_any {ℓ} :
      {A : Type ℓ}
      → List A
      → (ToolRegistry W → Result ErrorObject (ToolRegistry W))
      → ToolRegistry W
      → Result ErrorObject (ToolRegistry W)
  if_any [] step registry = ok registry
  if_any (x ∷ xs) step registry = step registry

  unfoldable pub register_builtin_tools :
      FileSystem W → ToolRegistry W → ToolConfig → Result ErrorObject (ToolRegistry W)
  unfolding register_file_tools register_http_tools register_discovery_tools
  register_builtin_tools fs registry config = do
    r₁ ← if_any config.file_mounts (register_file_tools fs config.file_mounts) registry
    r₂ ← if_any config.http_allowlist (register_http_tools config.http_allowlist) r₁
    register_discovery_tools r₂
