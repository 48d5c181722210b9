-- ===== src/Deno/Validate/Walk.antt =====
-- The visitor reports the first flagged node of those that it walks.
use langshell.Common.{◌≡◌, refl, sym, ◌∙◌, ap, Option, none, some, List, [], ◌∷◌, ◌++◌, or_else}
use langshell.Core.{ErrorObject}
use langshell.Core.Registry.{ToolRegistry}
use langshell.Deno.Validate.{
  Shape, Node, Nodes, visit_module_decl, callee_error, member_error, visit_shape, visit, visit_all,
  static_validation_error,
}

-- The shapes in the order of the walk, each before its children; what stands inside a declaration of the
-- module is left out.
abbrev inside : Shape → List Shape → List Shape
inside (Shape.module_decl d) shapes = []
inside shape shapes = shapes

mutual
  pub walk : Node → List Shape
  walk (Node.node shape children) = shape ∷ inside shape (walk_all children)

  pub walk_all : Nodes → List Shape
  walk_all Nodes.nil = []
  walk_all (Nodes.cons n ns) = walk n ++ walk_all ns

module _ {W : Type 0} (registry : ToolRegistry W) where
  pub shape_error : Shape → Option ErrorObject
  shape_error (Shape.module_decl d) = visit_module_decl d none
  shape_error (Shape.call_expr callee) = callee_error registry callee
  shape_error (Shape.member_ident name) = member_error registry name
  shape_error Shape.other = none

  pub first_error : List Shape → Option ErrorObject
  first_error [] = none
  first_error (shape ∷ shapes) = or_else (shape_error shape) (first_error shapes)

  or_else_assoc : (a b c : Option ErrorObject) → or_else a (or_else b c) ≡ or_else (or_else a b) c
  or_else_assoc none b c = refl
  or_else_assoc (some e) b c = refl

  first_error-append :
      (xs ys : List Shape) → first_error (xs ++ ys) ≡ or_else (first_error xs) (first_error ys)
  unfolding first_error
  first_error-append [] ys = refl
  first_error-append (x ∷ xs) ys =
      ap (or_else (shape_error x)) (first_error-append xs ys)
      ∙ or_else_assoc (shape_error x) (first_error xs) (first_error ys)

  flagged :
      (found walked : Option ErrorObject)
      → elim found [ none ↦ walked | some e ↦ some e ] ≡ or_else found walked
  flagged none walked = refl
  flagged (some e) walked = refl

  or_else-none : (o : Option ErrorObject) → or_else o none ≡ o
  or_else-none none = refl
  or_else-none (some e) = refl

  -- A shape, when the walk of its children keeps an error that is there.
  visit_shape-first_error :
      (shape : Shape) (error : Option ErrorObject) (shapes : List Shape)
      → visit_shape registry shape error (or_else error (first_error shapes))
        ≡ or_else error (first_error (shape ∷ inside shape shapes))
  unfolding visit_shape first_error shape_error
  visit_shape-first_error (Shape.module_decl d) none shapes =
      sym (or_else-none (visit_module_decl d none))
  visit_shape-first_error (Shape.module_decl d) (some e) shapes = refl
  visit_shape-first_error (Shape.call_expr callee) none shapes =
      flagged (callee_error registry callee) (first_error shapes)
  visit_shape-first_error (Shape.call_expr callee) (some e) shapes = refl
  visit_shape-first_error (Shape.member_ident name) none shapes =
      flagged (member_error registry name) (first_error shapes)
  visit_shape-first_error (Shape.member_ident name) (some e) shapes = refl
  visit_shape-first_error Shape.other error shapes = refl

  mutual
    unfolding visit walk first_error

    visit-walk :
        (n : Node) (error : Option ErrorObject)
        → visit registry n error ≡ or_else error (first_error (walk n))
    visit-walk (Node.node shape children) error =
        ap (visit_shape registry shape error) (visit_all-walk children error)
        ∙ visit_shape-first_error shape error (walk_all children)

    visit_all-walk :
        (ns : Nodes) (error : Option ErrorObject)
        → visit_all registry ns error ≡ or_else error (first_error (walk_all ns))
    visit_all-walk Nodes.nil error = sym (or_else-none error)
    visit_all-walk (Nodes.cons n ns) error =
        visit_all-walk ns (visit registry n error)
        ∙ ap (λ e. or_else e (first_error (walk_all ns))) (visit-walk n error)
        ∙ sym (or_else_assoc error (first_error (walk n)) (first_error (walk_all ns)))
        ∙ ap (or_else error) (sym (first_error-append (walk n) (walk_all ns)))

  -- On code that parses, the visitor, with its error as state and its early returns, reports the error of the
  -- first node that is flagged, in the order of the walk, each node before its children; what stands inside a
  -- declaration of the module is not looked at. It reports none when no such node is flagged.
  pub static_validation_error-first_error :
      (program : Nodes)
      → static_validation_error registry (some program) ≡ first_error (walk_all program)
  unfolding static_validation_error
  static_validation_error-first_error program = visit_all-walk program none
