-- ===== src/Core/Registry.antt =====
-- `ToolRegistry`, `RegisteredTool` and `is_python_identifier` of crates/langshell-core/src/lib.rs. A
-- handler is a function of the call and of the world that it may change; a future is its result.
pub mod Names
use Prim.Native.String.{[] as nil, ◌∷◌ as ◌::◌}
use langshell.Common.{
  ℕ, ◌≡◌, refl, Bool, true, false, ◌&&◌, ◌||◌, code, String, Option, none, some, List, [], ◌∷◌, map,
  Result, ok, err, eqb, is_some, is_ascii_alphabetic, is_ascii_alphanumeric, ◌<>◌, if◌then◌else◌,
  lookup, insert, keys, values,
}
use langshell.Core.{Capability, ToolCallContext, ToolError, Value, ErrorObject, new_error}

identifier_chars : String → Bool
identifier_chars nil = true
identifier_chars (c :: s) =
    (eqb (code c) b'_' || is_ascii_alphanumeric (code c)) && identifier_chars s

unfoldable pub is_python_identifier : String → Bool
unfolding identifier_chars
is_python_identifier nil = false
is_python_identifier (first :: chars) =
    (eqb (code first) b'_' || is_ascii_alphabetic (code first)) && identifier_chars chars

module _ (W : Type 0) where
  abbrev pub ToolFn : Type 0
  ToolFn = ToolCallContext → W → Result ToolError Value × W

pub record RegisteredTool (W : Type 0) : Type 0 where
  pub capability : Capability
  pub async_mode : Bool
  pub handler : ToolFn W

pub record ToolRegistry (W : Type 0) : Type 0 where
  pub tools : List (String × RegisteredTool W)

abbrev pub invalid_tool_name : String → ErrorObject
invalid_tool_name name =
    new_error "INVALID_TOOL_NAME"
      ("Capability name '" <> name <> "' is not a valid Python identifier.")

module _ {W : Type 0} where
  -- `RegisteredTool::sync`: the handler cannot wait.
  abbrev pub sync : Capability → ToolFn W → RegisteredTool W
  sync c f = record { capability = c; async_mode = false; handler = f }

  -- `RegisteredTool::asynchronous`.
  abbrev pub asynchronous : Capability → ToolFn W → RegisteredTool W
  asynchronous c f = record { capability = c; async_mode = true; handler = f }

  -- `RegisteredTool::call`.
  abbrev pub call : RegisteredTool W → ToolFn W
  call tool ctx w = tool.handler ctx w

  abbrev pub new_registry : ToolRegistry W
  new_registry = record { tools = [] }

  -- The registry afterwards, or the error, which leaves it as it was.
  unfoldable pub register : ToolRegistry W → RegisteredTool W → Result ErrorObject (ToolRegistry W)
  unfolding is_python_identifier insert
  register r tool =
      if is_python_identifier tool.capability.name
      then ok (record { tools = insert tool.capability.name tool r.tools })
      else err (invalid_tool_name tool.capability.name)

  unfoldable pub get_tool : ToolRegistry W → String → Option (RegisteredTool W)
  unfolding lookup
  get_tool r name = lookup name r.tools

  unfoldable pub contains_tool : ToolRegistry W → String → Bool
  unfolding lookup
  contains_tool r name = is_some (lookup name r.tools)

  unfoldable pub capabilities : ToolRegistry W → List Capability
  capabilities r = map (λ tool. tool.capability) (values r.tools)

  unfoldable pub names : ToolRegistry W → List String
  names r = keys r.tools
