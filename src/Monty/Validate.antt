-- ===== src/Monty/Validate.antt =====
-- `static_validation_error` and its tables in crates/langshell-monty/src/lib.rs. The parser and the walk are
-- another package's code: a program comes as the tree of its statements and expressions, the children in
-- the order of the walk.
pub mod Preorder
use langshell.Common.{
  ℕ, ◌<◌, ◌≡◌, refl, Bool, true, false, not, ◌&&◌, ◌==◌, ◌<>◌, ltb, String, Option, none, some,
  List, [], ◌∷◌, contains, split, debug, or_else, is_some, get_or, if◌then◌else◌,
}
use langshell.Core.{ErrorObject, new_error, with_hint}
use langshell.Core.Registry.{ToolRegistry, contains_tool}

-- What the visitor looks at: `Stmt::Import` by its names, `Stmt::ImportFrom` by its module and level,
-- `Expr::Attribute` by its name, and `Expr::Call` of an `Expr::Name` by that name.
pub data Shape : Type 0 where
  import : (names : List String) → Shape
  import_from : (from_module : Option String) → (level : ℕ) → Shape
  attribute call_name : String → Shape
  other : Shape

mutual
  pub data Node : Type 0 where
    node : Shape → Nodes → Node

  pub data Nodes : Type 0 where
    nil : Nodes
    cons : Node → Nodes → Nodes

abbrev py_blocked_modules : List String
py_blocked_modules =
    "os" ∷ "subprocess" ∷ "socket" ∷ "urllib" ∷ "requests" ∷ "ctypes" ∷ "sys" ∷ "shutil" ∷ "pathlib"
    ∷ "io" ∷ "multiprocessing" ∷ "threading" ∷ "http" ∷ []

abbrev py_blocked_attrs : List String
py_blocked_attrs =
    "__class__" ∷ "__bases__" ∷ "__subclasses__" ∷ "__mro__" ∷ "__globals__" ∷ "__builtins__"
    ∷ "__import__" ∷ []

abbrev py_suspicious_names : List String
py_suspicious_names = "fetch_url" ∷ "query_db" ∷ "send_email" ∷ []

abbrev py_banned_builtins : List String
py_banned_builtins = "open" ∷ "exec" ∷ "eval" ∷ "compile" ∷ "__import__" ∷ []

abbrev unsupported : String → ErrorObject
unsupported what =
    with_hint
      (new_error "UNSUPPORTED_FEATURE"
        ("Use of " <> debug what <> " is not supported in the LangShell sandbox."))
      "Use a registered capability such as read_text, fetch_json, or list_tools instead."

abbrev unknown_tool : String → ErrorObject
unknown_tool name =
    with_hint
      (new_error "UNKNOWN_TOOL" ("Function " <> name <> " is not registered in this session."))
      "Call list_tools() to inspect available capabilities."

-- `name.split('.').next().unwrap_or(name)`
abbrev head_or : String → List String → String
head_or name [] = name
head_or name (part ∷ parts) = part

module_blocked : String → Bool
unfolding split
module_blocked name = contains py_blocked_modules (head_or name (split b'.' name))

import_error : List String → Option ErrorObject
unfolding module_blocked
import_error [] = none
import_error (name ∷ names) =
    let rest = import_error names in
    if module_blocked name then some (unsupported ("import " <> name)) else rest

import_from_error : Option String → ℕ → Option ErrorObject
unfolding module_blocked
import_from_error (some name) level =
    if module_blocked name then some (unsupported ("from " <> name <> " import ...")) else none
import_from_error none level = if ltb 0 level then some (unsupported "relative import") else none

-- `self.error` of the visitor: the first that is set is kept.
abbrev keep : Option ErrorObject → Option ErrorObject → Option ErrorObject
keep (some e) _ = some e
keep none found = found

module _ {W : Type 0} (registry : ToolRegistry W) where
  call_error : String → Option ErrorObject
  unfolding contains_tool
  call_error name =
      if contains py_banned_builtins name
      then some (unsupported (name <> "(...)"))
      else if contains py_suspicious_names name && not (contains_tool registry name)
      then some (unknown_tool name)
      else none

  -- The error that the match on a node flags.
  unfoldable pub flag : Shape → Option ErrorObject
  unfolding import_error import_from_error call_error
  flag (Shape.import names) = import_error names
  flag (Shape.import_from from_module level) = import_from_error from_module level
  flag (Shape.attribute name) =
      if contains py_blocked_attrs name then some (unsupported name) else none
  flag (Shape.call_name name) = call_error name
  flag Shape.other = none

  -- `visit_stmt` and `visit_expr`: `self.error` before and after. A node that is flagged is not walked.
  unfoldable mutual
    unfolding flag

    pub visit : Node → Option ErrorObject → Option ErrorObject
    visit (Node.node shape children) (some e) = some e
    visit (Node.node shape children) none =
        let walked = visit_all children none in
        elim (flag shape) [ none ↦ walked | some e ↦ some e ]

    pub visit_all : Nodes → Option ErrorObject → Option ErrorObject
    visit_all Nodes.nil error = error
    visit_all (Nodes.cons n ns) error = visit_all ns (visit n error)

  -- The loop over the body, which ends at an error. No body: the code did not parse.
  unfoldable pub visit_body : Nodes → Option ErrorObject → Option ErrorObject
  unfolding visit
  visit_body Nodes.nil error = error
  visit_body (Nodes.cons stmt body) error = elim (visit stmt error) [
    | none ↦ visit_body body none
    | some e ↦ some e
  ]

  unfoldable pub static_validation_error : Option Nodes → Option ErrorObject
  unfolding visit_body
  static_validation_error none = none
  static_validation_error (some body) = visit_body body none
