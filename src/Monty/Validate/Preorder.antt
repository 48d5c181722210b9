-- ===== src/Monty/Validate/Preorder.antt =====
-- The visitor reports the first flagged node of the program.
use langshell.Common.{◌≡◌, refl, sym, ◌∙◌, ap, Option, none, some, List, [], ◌∷◌, ◌++◌, or_else}
use langshell.Core.{ErrorObject}
use langshell.Core.Registry.{ToolRegistry}
use langshell.Monty.Validate.{
  Shape, Node, Nodes, flag, visit, visit_all, visit_body, static_validation_error,
}

-- The nodes, each before its children.
mutual
  pub preorder : Node → List Shape
  preorder (Node.node shape children) = shape ∷ preorder_all children

  pub preorder_all : Nodes → List Shape
  preorder_all Nodes.nil = []
  preorder_all (Nodes.cons n ns) = preorder n ++ preorder_all ns

module _ {W : Type 0} (registry : ToolRegistry W) where
  pub first_flagged : List Shape → Option ErrorObject
  first_flagged [] = none
  first_flagged (shape ∷ shapes) = or_else (flag registry shape) (first_flagged shapes)

  first_flagged-append :
      (xs ys : List Shape)
      → first_flagged (xs ++ ys) ≡ or_else (first_flagged xs) (first_flagged ys)
  unfolding first_flagged
  first_flagged-append [] ys = refl
  first_flagged-append (x ∷ xs) ys =
      ap (or_else (flag registry x)) (first_flagged-append xs ys)
      ∙ or_else-assoc (flag registry x) (first_flagged xs) (first_flagged ys)
    where
      or_else-assoc :
          (a b c : Option ErrorObject) → or_else a (or_else b c) ≡ or_else (or_else a b) c
      or_else-assoc none b c = refl
      or_else-assoc (some e) b c = refl

  visit-some : (n : Node) (e : ErrorObject) → visit registry n (some e) ≡ some e
  unfolding visit
  visit-some (Node.node shape children) e = refl

  visit_all-some : (ns : Nodes) (e : ErrorObject) → visit_all registry ns (some e) ≡ some e
  unfolding visit_all
  visit_all-some Nodes.nil e = refl
  visit_all-some (Nodes.cons n ns) e = rw (visit-some n e) (visit_all-some ns e)

  with_children :
      (found : Option ErrorObject) (walked : Option ErrorObject)
      → elim found [ none ↦ walked | some e ↦ some e ] ≡ or_else found walked
  with_children none walked = refl
  with_children (some e) walked = refl

  visit_all_after :
      (ns : Nodes) (found : Option ErrorObject)
      → visit_all registry ns none ≡ first_flagged (preorder_all ns)
      → visit_all registry ns found ≡ or_else found (first_flagged (preorder_all ns))
  visit_all_after ns none h = h
  visit_all_after ns (some e) h = visit_all-some ns e

  mutual
    unfolding visit preorder first_flagged

    visit-preorder : (n : Node) → visit registry n none ≡ first_flagged (preorder n)
    visit-preorder (Node.node shape children) =
        with_children (flag registry shape) _
        ∙ ap (or_else (flag registry shape)) (visit_all-preorder children)

    visit_all-preorder : (ns : Nodes) → visit_all registry ns none ≡ first_flagged (preorder_all ns)
    visit_all-preorder Nodes.nil = refl
    visit_all-preorder (Nodes.cons n ns) =
        visit_all_after ns (visit registry n none) (visit_all-preorder ns)
        ∙ ap (λ found. or_else found (first_flagged (preorder_all ns))) (visit-preorder n)
        ∙ sym (first_flagged-append (preorder n) (preorder_all ns))

  visit_body-preorder :
      (body : Nodes) → visit_body registry body none ≡ first_flagged (preorder_all body)
  unfolding visit_body preorder first_flagged
  visit_body-preorder Nodes.nil = refl
  visit_body-preorder (Nodes.cons stmt body) =
      with_children (visit registry stmt none) _
      ∙ ap (or_else (visit registry stmt none)) (visit_body-preorder body)
      ∙ ap (λ found. or_else found (first_flagged (preorder_all body))) (visit-preorder stmt)
      ∙ sym (first_flagged-append (preorder stmt) (preorder_all body))

  -- On code that parses, the visitor of `static_validation_error`, with its error as state and its early
  -- returns, reports the error of the first node in preorder that is flagged: it misses none, and it
  -- reports none when no node is flagged.
  pub static_validation_error-first_flagged :
      (body : Nodes)
      → static_validation_error registry (some body) ≡ first_flagged (preorder_all body)
  unfolding static_validation_error
  static_validation_error-first_flagged body = visit_body-preorder body
