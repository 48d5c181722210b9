-- ===== src/Tools/Discovery/Describe.antt =====
-- `describe_tool` answers for the registry that `register_discovery_tools` returns.
use mathlib.Core.Option
use langshell.Common.{
  ◌≡◌, refl, ◌∙◌, sym, ap, Bool, true, false, String, ◌==◌, eq_iff, Option, none, some, List, [],
  ◌∷◌, ◌++◌, map, ok, ok_or, or_else, find, find-append, All, values, lookup, if◌then◌else◌,
  true≢false, >>=-eq-ok, arith, ◌>>=◌,
}
use langshell.Core.{Value, ToolCallContext, Capability}
use langshell.Core.Registry.{ToolRegistry, RegisteredTool, register, get_tool, capabilities}
use langshell.Core.Registry.Names.{IsWellFormed, IsFiled, register-IsWellFormed, get_tool-register}
use langshell.Tools.Schemas.{capability_value, first_string_arg}
use langshell.Tools.Discovery.{
  describe_capability, policy_capability, described, describe_tool, list_capabilities_for_describe,
  unknown_tool, discovery_list, discovery_describe, discovery_policy, register_discovery_tools,
}

or_else_assoc : {A : Type 0} (o p q : Option A) → or_else (or_else o p) q ≡ or_else o (or_else p q)
or_else_assoc none p q = refl
or_else_assoc (some a) p q = refl

or_else-if :
    {A : Type 0} (a b : Bool) (x y : A)
    → or_else (if a then some x else none) (if b then some y else none)
      ≡ (if a then some x else if b then some y else none)
or_else-if true b x y = refl
or_else-if false b x y = refl

describe_name : describe_capability.name ≡ "describe_tool"
unfolding describe_capability
describe_name = refl

policy_name : policy_capability.name ≡ "current_policy"
unfolding policy_capability
policy_name = refl

module _ {W : Type 0} where
  find-values :
      (name : String) (m : List (String × RegisteredTool W))
      → All IsFiled m
      → find (λ (c : Capability). c.name == name) (map (λ tool. tool.capability) (values m))
        ≡ Option.map (λ tool. tool.capability) (lookup name m)
  unfolding lookup
  find-values name [] h = refl
  find-values name ((k, tool) ∷ m) h = ground (arith, eq_iff k name, find-values name m h.1)

  find-capabilities :
      (name : String) (r : ToolRegistry W)
      → IsWellFormed r
      → find (λ c. c.name == name) (capabilities r)
        ≡ Option.map (λ tool. tool.capability) (get_tool r name)
  unfolding capabilities get_tool
  find-capabilities name r v = find-values name r.tools v.filed

  find-describe_list :
      (name : String) (r : ToolRegistry W)
      → IsWellFormed r
      → find (λ c. c.name == name) (list_capabilities_for_describe r)
        ≡ or_else (Option.map (λ tool. tool.capability) (get_tool r name)) (
            if "describe_tool" == name
            then some describe_capability
            else if "current_policy" == name
            then some policy_capability
            else none)
  unfolding list_capabilities_for_describe
  find-describe_list name r v =
      let has = λ (c : Capability). c.name == name in
      find-append has (capabilities r ++ describe_capability ∷ []) (policy_capability ∷ [])
      ∙ ap (λ o. or_else o (find has (policy_capability ∷ [])))
          (find-append has (capabilities r) (describe_capability ∷ []))
      ∙ or_else_assoc (find has (capabilities r)) (find has (describe_capability ∷ []))
          (find has (policy_capability ∷ []))
      ∙ (rw (find-capabilities name r v, or_else-if, describe_name, policy_name) refl)

  -- The three ways in which a name is found agree, where the two names are new and differ.
  captured_cases :
      (is_describe is_policy : Bool) (o : Option (RegisteredTool W))
      (describe policy : RegisteredTool W)
      → describe.capability ≡ describe_capability
      → policy.capability ≡ policy_capability
      → (is_describe ≡ true → o ≡ none)
      → (is_policy ≡ true → (o ≡ none) × (is_describe ≡ false))
      → or_else (Option.map (λ tool. tool.capability) o) (
          if is_describe
          then some describe_capability
          else if is_policy
          then some policy_capability
          else none)
        ≡ Option.map
            (λ tool. tool.capability)
            (if is_policy then some policy else if is_describe then some describe else o)
  captured_cases true true o describe policy dc pc h k = absurd (true≢false (k refl).1)
  captured_cases true false o describe policy dc pc h k = rw (h refl) (ap some (sym dc))
  captured_cases false true o describe policy dc pc h k = rw ((k refl).0) (ap some (sym pc))
  captured_cases false false none describe policy dc pc h k = refl
  captured_cases false false (some t) describe policy dc pc h k = refl

  -- What the captured list finds is what the registry holds once the two tools after it are in.
  find-captured :
      (name : String) (r₁ r₂ r' : ToolRegistry W) (describe policy : RegisteredTool W)
      → IsWellFormed r₁
      → register r₁ describe ≡ ok r₂
      → register r₂ policy ≡ ok r'
      → describe.capability ≡ describe_capability
      → policy.capability ≡ policy_capability
      → get_tool r₁ "describe_tool" ≡ none
      → get_tool r₁ "current_policy" ≡ none
      → find (λ c. c.name == name) (list_capabilities_for_describe r₁)
        ≡ Option.map (λ tool. tool.capability) (get_tool r' name)
  find-captured name r₁ r₂ r' describe policy v e₂ e' dc pc dn pn =
      find-describe_list name r₁ v
      ∙ captured_cases ("describe_tool" == name) ("current_policy" == name) (get_tool r₁ name)
          describe policy dc pc (λ h. rw (← (eq_iff "describe_tool" name).0 h) dn)
          (λ h. let e = (eq_iff "current_policy" name).0 h in rw (← e) (pn, refl))
      ∙ ap (Option.map (λ tool. tool.capability)) (sym found)
    where
      found : get_tool r' name ≡ (
          if "current_policy" == name
          then some policy
          else if "describe_tool" == name
          then some describe
          else get_tool r₁ name)
      found =
          get_tool-register r₂ r' policy name e'
          ∙ (rw (get_tool-register r₁ r₂ describe name e₂, dc, pc, describe_name, policy_name) refl)

  three_steps :
      (r r' : ToolRegistry W)
      → register_discovery_tools r ≡ ok r'
      → (r₁ : ToolRegistry W) × (r₂ : ToolRegistry W) × (register r (discovery_list r) ≡ ok r₁)
        × (register r₁ (discovery_describe r₁) ≡ ok r₂)
        × (register r₂ (discovery_policy r₂) ≡ ok r')
  unfolding register_discovery_tools
  three_steps r r' h =
      let (r₁, e₁, h₁) =
        >>=-eq-ok (register r (discovery_list r))
          (λ r₁. register r₁ (discovery_describe r₁) >>= λ r₂. register r₂ (discovery_policy r₂))
          h in
      let (r₂, e₂, h₂) =
        >>=-eq-ok (register r₁ (discovery_describe r₁)) (λ r₂. register r₂ (discovery_policy r₂))
          h₁ in
      (r₁, r₂, e₁, e₂, h₂)

  describe_capability_eq :
      (r : ToolRegistry W) → (discovery_describe r).capability ≡ describe_capability
  unfolding discovery_describe
  describe_capability_eq r = refl

  policy_capability_eq : (r : ToolRegistry W) → (discovery_policy r).capability ≡ policy_capability
  unfolding discovery_policy
  policy_capability_eq r = refl

  list_name : (r : ToolRegistry W) → (discovery_list r).capability.name ≡ "list_tools"
  unfolding discovery_list
  list_name r = refl

  -- Registering `list_tools` leaves the other names.
  kept :
      (r r₁ : ToolRegistry W) (name : String)
      → register r (discovery_list r) ≡ ok r₁
      → ("list_tools" == name) ≡ false
      → get_tool r name ≡ none
      → get_tool r₁ name ≡ none
  kept r r₁ name e ne absent =
      get_tool-register r r₁ (discovery_list r) name e ∙ (rw (list_name r, ne) absent)

  describe_found :
      (r₁ r₂ r' : ToolRegistry W)
      → register r₁ (discovery_describe r₁) ≡ ok r₂
      → register r₂ (discovery_policy r₂) ≡ ok r'
      → get_tool r' "describe_tool" ≡ some (discovery_describe r₁)
  describe_found r₁ r₂ r' e₂ e₃ =
      get_tool-register r₂ r' (discovery_policy r₂) "describe_tool" e₃
      ∙ (rw
          (
            policy_capability_eq r₂,
            policy_name,
            get_tool-register r₁ r₂ (discovery_describe r₁) "describe_tool" e₂,
            describe_capability_eq r₁,
            describe_name,
          )
          refl)

  answers :
      (ctx : ToolCallContext) (name : String) (rest : List Value) (w : W) (r : ToolRegistry W)
      → ctx.args ≡ Value.string name ∷ rest
      → (discovery_describe r).handler ctx w ≡ (
        ok_or
            (Option.map capability_value
              (find (λ c. c.name == name) (list_capabilities_for_describe r)))
            (unknown_tool name),
        w,
      )
  unfolding discovery_describe describe_tool first_string_arg described
  answers ctx name rest w r e = rw e refl

  map-map :
      (o : Option (RegisteredTool W))
      → Option.map capability_value (Option.map (λ tool. tool.capability) o)
        ≡ Option.map (λ t. capability_value t.capability) o
  map-map none = refl
  map-map (some t) = refl

  -- After `register_discovery_tools` on a well-formed registry that has no "describe_tool" and no
  -- "current_policy" yet, `describe_tool` answers every name with the capability that the resulting
  -- registry holds under it, and with UNKNOWN_TOOL exactly where it holds none. It changes nothing.
  pub describe_tool-register_discovery_tools :
      (r r' : ToolRegistry W)
      → IsWellFormed r
      → get_tool r "describe_tool" ≡ none
      → get_tool r "current_policy" ≡ none
      → register_discovery_tools r ≡ ok r'
      → (tool : RegisteredTool W) × (get_tool r' "describe_tool" ≡ some tool)
        × ((ctx : ToolCallContext) (name : String) (rest : List Value) (w : W)
            → ctx.args ≡ Value.string name ∷ rest
            → tool.handler ctx w ≡ (
              ok_or
                  (Option.map (λ t. capability_value t.capability) (get_tool r' name))
                  (unknown_tool name),
              w,
            ))
  describe_tool-register_discovery_tools r r' v dn pn h =
      let (r₁, r₂, e₁, e₂, e₃) = three_steps r r' h in
      let v₁ = register-IsWellFormed r r₁ (discovery_list r) e₁ v in
      (
        discovery_describe r₁,
        describe_found r₁ r₂ r' e₂ e₃,
        λ ctx name rest w e.
            answers ctx name rest w r₁ e
            ∙ ap (λ o. (ok_or o (unknown_tool name), w))
                (ap (Option.map capability_value) (
                    find-captured name r₁ r₂ r' (discovery_describe r₁) (discovery_policy r₂) v₁ e₂
                      e₃ (describe_capability_eq r₁) (policy_capability_eq r₂)
                      (kept r r₁ "describe_tool" e₁ refl dn)
                      (kept r r₁ "current_policy" e₁ refl pn))
                  ∙ map-map (get_tool r' name)),
      )
