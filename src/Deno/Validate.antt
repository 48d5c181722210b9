-- ===== src/Deno/Validate.antt =====
-- `static_validation_error` and its tables in crates/langshell-deno/src/lib.rs. The parser and the default walk
-- are another package's code: a program comes as the tree of its nodes, the children in the order of the walk.
pub mod Walk
use langshell.Common.{
  Bool, true, false, not, ◌&&◌, ◌<>◌, String, Option, none, some, List, [], ◌∷◌, contains, debug,
  or_else, if◌then◌else◌,
}
use langshell.Core.{ErrorObject, new_error, with_hint}
use langshell.Core.Registry.{ToolRegistry, contains_tool}

-- `ModuleDecl`, by its variant.
pub data ModuleDecl : Type 0 where
  import export_decl export_named export_default_decl export_default_expr export_all : ModuleDecl
  ts_import_equals ts_export_assignment ts_namespace_export : ModuleDecl

-- `Callee`: an expression by its name, if it is an identifier.
pub data Callee : Type 0 where
  super import : Callee
  ident : String → Callee
  expr : Callee

-- What the visitor looks at: the variant of a declaration of the module, the callee of a call, and the object
-- of a member expression by its name, if it is an identifier.
pub data Shape : Type 0 where
  module_decl : ModuleDecl → Shape
  call_expr : Callee → Shape
  member_ident : String → Shape
  other : Shape

mutual
  pub data Node : Type 0 where
    node : Shape → Nodes → Node

  pub data Nodes : Type 0 where
    nil : Nodes
    cons : Node → Nodes → Nodes

abbrev ts_blocked_globals : List String
ts_blocked_globals =
    "Deno" ∷ "process" ∷ "Bun" ∷ "XMLHttpRequest" ∷ "WebSocket" ∷ "Worker" ∷ "SharedWorker"
    ∷ "navigator" ∷ "globalThis" ∷ []

abbrev ts_banned_callables : List String
ts_banned_callables = "eval" ∷ "Function" ∷ "require" ∷ "fetch" ∷ []

abbrev ts_suspicious_names : List String
ts_suspicious_names = "fetch_url" ∷ "query_db" ∷ "send_email" ∷ []

abbrev unsupported : String → ErrorObject
unsupported what =
    with_hint
      (new_error "UNSUPPORTED_FEATURE"
        ("Use of " <> debug what <> " is not supported in the LangShell Deno sandbox."))
      "Use a registered capability such as read_text, fetch_json, or list_tools instead."

abbrev unknown_tool : String → ErrorObject
unknown_tool name =
    with_hint (new_error "UNKNOWN_TOOL" ("Function " <> name <> " is not registered."))
      "Call list_tools() to inspect available capabilities."

-- `flag_unsupported` and `flag_unknown_tool`: an error that is there stays.
abbrev flag_error : ErrorObject → Option ErrorObject → Option ErrorObject
flag_error found error = or_else error (some found)

-- The match of `visit_module_decl`, which walks no declaration.
visit_module_decl : ModuleDecl → Option ErrorObject → Option ErrorObject
visit_module_decl ModuleDecl.ts_import_equals error = error
visit_module_decl ModuleDecl.ts_export_assignment error = error
visit_module_decl ModuleDecl.ts_namespace_export error = error
visit_module_decl _ error = flag_error (unsupported "import/export") error

module _ {W : Type 0} (registry : ToolRegistry W) where
  -- The error that `visit_call_expr` flags; with none it walks the call.
  callee_error : Callee → Option ErrorObject
  unfolding contains_tool
  callee_error Callee.super = none
  callee_error Callee.import = some (unsupported "dynamic import()")
  callee_error (Callee.ident name) =
      if contains ts_banned_callables name
      then some (unsupported (name <> "(...)"))
      else if contains ts_suspicious_names name && not (contains_tool registry name)
      then some (unknown_tool name)
      else none
  callee_error Callee.expr = none

  -- The same of `visit_member_expr`.
  member_error : String → Option ErrorObject
  member_error name = if contains ts_blocked_globals name then some (unsupported name) else none

  -- `self.error` before and after a node, with what the walk of its children makes of it.
  visit_shape : Shape → Option ErrorObject → Option ErrorObject → Option ErrorObject
  unfolding visit_module_decl callee_error member_error
  visit_shape (Shape.module_decl d) error walked = elim error [
    | none ↦ visit_module_decl d none
    | some e ↦ some e
  ]
  visit_shape (Shape.call_expr callee) error walked = elim error [
    | none ↦ elim (callee_error callee) [ none ↦ walked | some e ↦ flag_error e none ]
    | some e ↦ some e
  ]
  visit_shape (Shape.member_ident name) error walked = elim error [
    | none ↦ elim (member_error name) [ none ↦ walked | some e ↦ flag_error e none ]
    | some e ↦ some e
  ]
  visit_shape Shape.other error walked = walked

  unfoldable mutual
    unfolding visit_shape

    pub visit : Node → Option ErrorObject → Option ErrorObject
    visit (Node.node shape children) error = visit_shape shape error (visit_all children error)

    pub visit_all : Nodes → Option ErrorObject → Option ErrorObject
    visit_all Nodes.nil error = error
    visit_all (Nodes.cons n ns) error = visit_all ns (visit n error)

  -- `none` for the tree: the code did not parse.
  unfoldable pub static_validation_error : Option Nodes → Option ErrorObject
  unfolding visit_all
  static_validation_error none = none
  static_validation_error (some program) = visit_all program none
