-- ===== src/Tools/Schemas.antt =====
-- The JSON schemas of the built-in tools, and `first_string_arg`.
use langshell.Common.{
  ℕ, String, Option, none, some, List, [], ◌∷◌, Result, ok_or, and_then, get_elem?, ◌<>◌,
}
use langshell.Core.{
  Value, Number, to_items, to_fields, as_str, ToolCallContext, ToolError, tool_error, Capability,
  SideEffect, CapabilityLimits, ApprovalPolicy,
}

abbrev pub obj : List (String × Value) → Value
obj fs = Value.object (to_fields fs)

abbrev pub arr : List Value → Value
arr vs = Value.array (to_items vs)

abbrev pub num : ℕ → Value
num n = Value.number (Number.pos_int n)

-- `{"type": t}`
abbrev pub typed : String → Value
typed t = obj (("type", Value.string t) ∷ [])

unfoldable pub no_args_schema : Value
no_args_schema = obj (("type", Value.string "array") ∷ ("maxItems", num 0) ∷ [])

unfoldable pub single_string_arg_schema : String → Value
single_string_arg_schema name = obj (
    ("type", Value.string "array")
    ∷ (
      "prefixItems",
      arr (obj (("type", Value.string "string") ∷ ("description", Value.string name) ∷ []) ∷ []),
    )
    ∷ ("minItems", num 1)
    ∷ ("maxItems", num 1)
    ∷ [])

unfoldable pub capability_schema : Value
capability_schema = obj (
    ("type", Value.string "object")
    ∷ (
      "properties",
      obj (
          ("name", typed "string")
          ∷ ("description", typed "string")
          ∷ ("input_schema", typed "object")
          ∷ ("output_schema", typed "object")
          ∷ ("side_effect", typed "string")
          ∷ []),
    )
    ∷ (
      "required",
      arr (
          Value.string "name"
          ∷ Value.string "description"
          ∷ Value.string "input_schema"
          ∷ Value.string "output_schema"
          ∷ Value.string "side_effect"
          ∷ []),
    )
    ∷ [])

unfoldable pub write_text_input_schema : Value
write_text_input_schema = obj (
    ("type", Value.string "array")
    ∷ (
      "prefixItems",
      arr (
          obj (
            ("type", Value.string "string")
            ∷ ("description", Value.string "Authorized virtual path.")
            ∷ [])
          ∷ obj (
              ("type", Value.string "string")
              ∷ ("description", Value.string "UTF-8 text content.")
              ∷ [])
          ∷ []),
    )
    ∷ ("minItems", num 2)
    ∷ ("maxItems", num 2)
    ∷ [])

unfoldable pub write_text_output_schema : Value
write_text_output_schema = obj (
    ("type", Value.string "object")
    ∷ (
      "properties",
      obj (
          ("path", typed "string")
          ∷ ("bytes", obj (("type", Value.string "integer") ∷ ("minimum", num 0) ∷ []))
          ∷ []),
    )
    ∷ ("required", arr (Value.string "path" ∷ Value.string "bytes" ∷ []))
    ∷ [])

-- The `snake_case` names that serde derives for the enumerations.
abbrev pub side_effect_value : SideEffect → Value
side_effect_value SideEffect.none = Value.string "none"
side_effect_value SideEffect.read = Value.string "read"
side_effect_value SideEffect.write = Value.string "write"
side_effect_value SideEffect.network = Value.string "network"
side_effect_value SideEffect.database = Value.string "database"
side_effect_value SideEffect.external_system = Value.string "external_system"

abbrev pub approval_policy_value : ApprovalPolicy → Value
approval_policy_value ApprovalPolicy.none = Value.string "none"
approval_policy_value (ApprovalPolicy.auto rule) =
    obj (("auto", obj (("rule", Value.string rule) ∷ [])) ∷ [])
approval_policy_value ApprovalPolicy.manual = Value.string "manual"

abbrev optional_num : Option ℕ → Value
optional_num none = Value.null
optional_num (some n) = num n

abbrev pub capability_limits_value : CapabilityLimits → Value
capability_limits_value l = obj (
    ("timeout_ms", num l.timeout_ms)
    ∷ ("max_request_bytes", num l.max_request_bytes)
    ∷ ("max_response_bytes", num l.max_response_bytes)
    ∷ ("concurrency", num l.concurrency)
    ∷ ("rate_per_min", optional_num l.rate_per_min)
    ∷ [])

-- `json!(capability)`, as serde derives it.
unfoldable pub capability_value : Capability → Value
capability_value c = obj (
    ("name", Value.string c.name)
    ∷ ("description", Value.string c.description)
    ∷ ("input_schema", c.input_schema)
    ∷ ("output_schema", c.output_schema)
    ∷ ("side_effect", side_effect_value c.side_effect)
    ∷ ("limits", capability_limits_value c.limits)
    ∷ ("approval_policy", approval_policy_value c.approval_policy)
    ∷ ("idempotent", Value.bool c.idempotent)
    ∷ [])

-- The first argument, if it is a string.
unfoldable pub first_string_arg : ToolCallContext → String → Result ToolError String
first_string_arg ctx function =
    ok_or (and_then (get_elem? ctx.args 0) as_str)
      (tool_error "TYPE_ERROR" (function <> " requires a string first argument."))
