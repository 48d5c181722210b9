-- ===== src/Tools/Discovery.antt =====
-- `register_discovery_tools` of crates/langshell-tools/src/lib.rs.
pub mod Describe
use mathlib.Core.Option
use langshell.Common.{
  ℕ, Bool, String, ◌==◌, Option, none, some, List, [], ◌∷◌, ◌++◌, map, Result, ok, err, ok_or, find,
  ◌<>◌, ◌>>=◌,
}
use langshell.Core.{
  Value, ToolCallContext, ToolError, tool_error, ErrorObject, Capability, new_capability,
  with_input_schema, with_output_schema, SideEffect,
}
use langshell.Core.Registry.{ToolRegistry, ToolFn, RegisteredTool, sync, register, capabilities}
use langshell.Tools.Schemas.{
  obj, arr, typed, no_args_schema, single_string_arg_schema, capability_schema, capability_value,
  first_string_arg,
}

unfoldable pub list_capability : Capability
unfolding new_capability
list_capability =
    with_output_schema
      (with_input_schema
        (new_capability "list_tools" "List capabilities registered in this session."
          SideEffect.none)
        no_args_schema)
      (obj (("type", Value.string "array") ∷ ("items", capability_schema) ∷ []))

unfoldable pub describe_capability : Capability
unfolding new_capability
describe_capability =
    with_output_schema
      (with_input_schema
        (new_capability "describe_tool" "Describe one registered capability by name."
          SideEffect.none)
        (single_string_arg_schema "name"))
      capability_schema

unfoldable pub policy_capability : Capability
unfolding new_capability
policy_capability =
    with_output_schema
      (with_input_schema
        (new_capability "current_policy" "Return the current sandbox policy summary."
          SideEffect.none)
        no_args_schema)
      (typed "object")

abbrev pub unknown_tool : String → ToolError
unknown_tool name = tool_error "UNKNOWN_TOOL" ("Function " <> name <> " is not registered.")

unfoldable pub described : List Capability → String → Result ToolError Value
described captured name =
    ok_or (Option.map capability_value (find (λ c. c.name == name) captured)) (unknown_tool name)

module _ {W : Type 0} where
  -- The handlers, over the capabilities that they capture.
  unfoldable pub list_tools : List Capability → ToolFn W
  list_tools captured ctx w = (ok (arr (map capability_value captured)), w)

  unfoldable pub describe_tool : List Capability → ToolFn W
  unfolding described first_string_arg
  describe_tool captured ctx w =
      ((do name ← first_string_arg ctx "describe_tool"; described captured name), w)

  unfoldable pub current_policy : List Capability → ToolFn W
  current_policy captured ctx w = (
    ok (
        obj (
          ("default_permissions", Value.string "none")
          ∷ ("filesystem", Value.string "capability_only")
          ∷ ("network", Value.string "capability_only")
          ∷ ("subprocess", Value.string "denied")
          ∷ ("tools", arr (map capability_value captured))
          ∷ [])),
    w,
  )

  unfoldable pub list_capabilities_for_describe : ToolRegistry W → List Capability
  unfolding capabilities
  list_capabilities_for_describe registry =
      (capabilities registry ++ describe_capability ∷ []) ++ policy_capability ∷ []

  unfoldable pub list_capabilities_for_policy : ToolRegistry W → List Capability
  unfolding capabilities
  list_capabilities_for_policy registry = capabilities registry ++ policy_capability ∷ []

  -- `list_tool`, `describe_tool` and `current_policy`: each handler captures the capabilities of the
  -- registry at its registration.
  discovery_list : ToolRegistry W → RegisteredTool W
  unfolding list_tools capabilities list_capability describe_capability policy_capability
  discovery_list registry = sync list_capability (
      list_tools (
        ((capabilities registry ++ list_capability ∷ []) ++ describe_capability ∷ [])
        ++ policy_capability ∷ []))

  discovery_describe : ToolRegistry W → RegisteredTool W
  unfolding describe_tool list_capabilities_for_describe
  discovery_describe registry =
      sync describe_capability (describe_tool (list_capabilities_for_describe registry))

  discovery_policy : ToolRegistry W → RegisteredTool W
  unfolding current_policy list_capabilities_for_policy
  discovery_policy registry =
      sync policy_capability (current_policy (list_capabilities_for_policy registry))

  unfoldable pub register_discovery_tools : ToolRegistry W → Result ErrorObject (ToolRegistry W)
  unfolding discovery_list discovery_describe discovery_policy
  register_discovery_tools registry = do
    r₁ ← register registry (discovery_list registry)
    r₂ ← register r₁ (discovery_describe r₁)
    register r₂ (discovery_policy r₂)
