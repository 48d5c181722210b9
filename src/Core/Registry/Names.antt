-- ===== src/Core/Registry/Names.antt =====
-- What a registry keeps true of its names, and what a registration changes.
use langshell.Common.{
  ◌≡◌, refl, subst, ◌⊎◌, inl, inr, true, false, String, ◌==◌, some, List, [], ◌∷◌, ok, err,
  Bool-cases, is_some, if◌then◌else◌, All, keys, insert, IsSorted, lookup-insert, insert-IsSorted,
  contains, contains-keys, arith,
}
use langshell.Core.Registry.{
  RegisteredTool, ToolRegistry, is_python_identifier, register, get_tool, names, new_registry,
  invalid_tool_name,
}

module _ {W : Type 0} where
  -- A tool stands under its own name, and that name is an identifier.
  abbrev pub IsFiled : String × RegisteredTool W → Type 0
  IsFiled e = (e.0 ≡ e.1.capability.name) × (is_python_identifier e.0 ≡ true)

  pub record IsWellFormed (r : ToolRegistry W) : Type 0 where
    pub sorted : IsSorted (keys r.tools)
    pub filed : All IsFiled r.tools

  insert-IsFiled :
      (k : String) (tool : RegisteredTool W) (m : List (String × RegisteredTool W))
      → IsFiled (k, tool)
      → All IsFiled m
      → All IsFiled (insert k tool m)
  unfolding insert
  insert-IsFiled k tool [] f a = (f, tt)
  insert-IsFiled k tool ((j, t) ∷ m) f a = ground (arith, insert-IsFiled k tool m f a.1)

  pub new_registry-IsWellFormed : IsWellFormed (new_registry {W = W})
  new_registry-IsWellFormed = record { sorted = tt; filed = tt }

  pub register-IsWellFormed :
      (r r' : ToolRegistry W) (tool : RegisteredTool W)
      → register r tool ≡ ok r'
      → IsWellFormed r
      → IsWellFormed r'
  unfolding register
  register-IsWellFormed r r' tool e v =
      elim (Bool-cases (is_python_identifier tool.capability.name)) [
        | inl h ↦
            let same : record { tools = insert tool.capability.name tool r.tools } ≡ r' =
              ground arith in
            subst IsWellFormed same (record {
              sorted = insert-IsSorted tool.capability.name tool r.tools v.sorted;
              filed = insert-IsFiled tool.capability.name tool r.tools (refl, h) v.filed;
            })
        | inr h ↦ ground arith
      ]

  pub get_tool-register :
      (r r' : ToolRegistry W) (tool : RegisteredTool W) (name : String)
      → register r tool ≡ ok r'
      → get_tool r' name ≡ (if tool.capability.name == name then some tool else get_tool r name)
  unfolding register get_tool
  get_tool-register r r' tool name e =
      ground (arith, lookup-insert tool.capability.name name tool r.tools)

  -- What a registration establishes of the new registry.
  pub record Registers (r r' : ToolRegistry W) (tool : RegisteredTool W) : Type 0 where
    pub well_formed : IsWellFormed r'
    pub found :
        (name : String)
        → get_tool r' name ≡ (if tool.capability.name == name then some tool else get_tool r name)
    pub listed :
        (name : String)
        → contains (names r') name
          ≡ (if tool.capability.name == name then true else contains (names r) name)

  contains-names :
      (r : ToolRegistry W) (name : String) → contains (names r) name ≡ is_some (get_tool r name)
  unfolding names get_tool
  contains-names r name = contains-keys name r.tools

  register-Registers :
      (r r' : ToolRegistry W) (tool : RegisteredTool W)
      → register r tool ≡ ok r'
      → IsWellFormed r
      → Registers r r' tool
  register-Registers r r' tool e v = record {
    well_formed = register-IsWellFormed r r' tool e v;
    found = λ name. get_tool-register r r' tool name e;
    listed = λ name.
        ground (
          arith,
          contains-names r name,
          contains-names r' name,
          get_tool-register r r' tool name e,
        );
  }

  register-ok_iff :
      (r : ToolRegistry W) (tool : RegisteredTool W)
      → ((is_python_identifier tool.capability.name ≡ true)
          × ((r' : ToolRegistry W) × (register r tool ≡ ok r')))
        ⊎ ((is_python_identifier tool.capability.name ≡ false)
            × (register r tool ≡ err (invalid_tool_name tool.capability.name)))
  unfolding register
  register-ok_iff r tool = elim (Bool-cases (is_python_identifier tool.capability.name)) [
    | inl h ↦ inl (h, (record { tools = insert tool.capability.name tool r.tools }, rw h))
    | inr h ↦ inr (h, rw h)
  ]

  -- A registration under a Python identifier succeeds: the registry stays well formed (its names strictly
  -- ascend, are identifiers, and each tool stands under its own name), the new tool takes the place of
  -- an earlier one of its name, and every other name is found and listed as before. Under any other
  -- name it is refused with INVALID_TOOL_NAME.
  pub register_lem :
      (r : ToolRegistry W) (tool : RegisteredTool W)
      → IsWellFormed r
      → ((is_python_identifier tool.capability.name ≡ true)
          × (r' : ToolRegistry W) × (register r tool ≡ ok r')
          × Registers r r' tool)
        ⊎ ((is_python_identifier tool.capability.name ≡ false)
            × (register r tool ≡ err (invalid_tool_name tool.capability.name)))
  register_lem r tool v = elim (register-ok_iff r tool) [
    | inl (h, (r', e)) ↦ inl (h, r', e, register-Registers r r' tool e v)
    | inr h ↦ inr h
  ]
