-- ===== src/Tools/Serving.antt =====
-- The tools of mcp/tools are registered with the harness and served by mcp/server.py.
use mathlib.Core.Path.{subst, ap₂}
use industrial_aiops_energy.Prelude.{
  ℕ, ◌≡◌, inl, inr, refl, sym, ap, ◌∙◌, arith, Bool, true, false, some, List, [], ◌∷◌, ◌++◌, map,
  All, All-of, Text, text_eq, codes, if◌then◌else◌, Bool-cases,
}
use industrial_aiops_energy.Python.{Result, ok, raise}
use industrial_aiops_energy.Server.{
  Tool, Servers, Package, energy_tool_modules, is_name, names_of, annotated, import_brain,
  import_all, add_tools, mount_tools, mount_base_brain_tools, register, main,
}
use industrial_aiops_energy.Server.Adding.{AllNew, DistinctNames, add_tools-AllNew, add_tools-All}
use industrial_aiops_energy.Server.Governed.{IsGoverned, offered, main-Decided, Decided}
use industrial_aiops_energy.App.{FastMcp, Options, no_options, unnamed, decorator}
use industrial_aiops_energy.Tools.{EnergyTool, function_name, Decorators, decorated}
use industrial_aiops_energy.Tools.Registering.{
  Unseen, energy_tools, registered, RunsModules, import_brain-Unseen, import_all-brought,
  brought-registered, modules-Distinct,
}

-- Documented of FastMCP: a tool keeps its function and its annotations, is named after the function
-- where no name is given, and the marker is that of the function.
pub record FastMcpLaws {S : Type 0} (upstream : FastMcp S) (is_marked : ℕ → Bool)
    (name_of : ℕ → Text) : Type 0 where
  pub keeps_function : (o : Options) (f : ℕ) → (upstream.tool o f).fn ≡ f
  pub keeps_annotations : (o : Options) (f : ℕ) → (upstream.tool o f).annotations ≡ o.annotations
  pub names_after : (o : Options) (f : ℕ) → o.name ≡ unnamed → (upstream.tool o f).name ≡ name_of f
  pub reads_marker : (o : Options) (f : ℕ) → (upstream.tool o f).is_governed ≡ is_marked f

-- Documented of the decorators: they keep the function's name, and governed_tool sets the marker.
pub record DecoratorLaws (deco : Decorators) (is_marked : ℕ → Bool) (name_of : ℕ → Text)
    : Type 0 where
  pub named : (t : EnergyTool) → name_of (deco.function_of t) ≡ function_name t
  pub keeps_name : (kind : Text) (f : ℕ) → name_of (deco.tool_errors kind f) ≡ name_of f
  pub keeps_governed_name : (risk : Text) (f : ℕ) → name_of (deco.governed_tool risk f) ≡ name_of f
  pub marks : (risk : Text) (f : ℕ) → is_marked (deco.governed_tool risk f) ≡ true

-- No two of the functions have the same name.
abbrev DistinctFunctions : List EnergyTool → Type 0
DistinctFunctions [] = Unit
DistinctFunctions (t ∷ ts) =
    All (λ u. text_eq (function_name t) (function_name u) ≡ false) ts × DistinctFunctions ts

energy_tools-Distinct : DistinctFunctions energy_tools
unfolding function_name codes text_eq
energy_tools-Distinct = ground arith

module _ {S : Type 0} (upstream : FastMcp S) (deco : Decorators) (base : Package)
    (is_marked : ℕ → Bool) (name_of : ℕ → Text) where
  -- The tool of a function: it serves the decorated function under the function's name, it is governed
  -- and has the hints that the base package derives for it.
  abbrev pub Serves : EnergyTool → Type 0
  Serves t =
      ((registered upstream deco t).fn ≡ decorated upstream deco t)
      × ((registered upstream deco t).name ≡ function_name t)
      × IsGoverned (registered upstream deco t)
      × ((registered upstream deco t).annotations
          ≡ some (upstream.hints_for (decorated upstream deco t)))

  registered-Serves :
      FastMcpLaws upstream is_marked name_of
      → DecoratorLaws deco is_marked name_of
      → (t : EnergyTool) → Serves t
  unfolding decorator decorated no_options
  registered-Serves laws harness t =
      let f = deco.tool_errors (codes "dict") (deco.function_of t) in
      (
        laws.keeps_function _ _,
        laws.names_after _ _ refl
            ∙ (harness.keeps_governed_name _ f ∙ (harness.keeps_name _ _ ∙ harness.named t)),
        laws.reads_marker _ _ ∙ harness.marks _ f,
        laws.keeps_annotations _ _,
      )

  -- Where no module of this edition was imported, registering adds the nine tools to the mounted ones.
  register-added :
      RunsModules upstream deco base
      → (s : Servers) → Unseen base energy_tool_modules s
      → (register base s).tools
        ≡ add_tools base
            (map (registered upstream deco) energy_tools)
            (mount_base_brain_tools base s).tools
  unfolding register mount_base_brain_tools
  register-added runs s unseen =
      let mounted = mount_base_brain_tools base s in
      let fresh : Unseen base energy_tool_modules mounted =
        import_brain-Unseen base energy_tool_modules base.brain_modules s unseen in
      import_all-brought base energy_tool_modules mounted (modules-Distinct base) fresh
      ∙ ap (λ ts. add_tools base ts mounted.tools) (brought-registered upstream deco base runs)

  -- No tool of the server has the name of one of the functions.
  abbrev pub NoneTaken : List EnergyTool → List Tool → Type 0
  NoneTaken ts tools = All (λ t. is_name (function_name t) (names_of tools) ≡ false) ts

  registered-AllNew :
      (ts : List EnergyTool) (tools : List Tool)
      → All Serves ts
      → NoneTaken ts tools
      → AllNew (map (registered upstream deco) ts) tools
  registered-AllNew [] tools serves free = tt
  registered-AllNew (t ∷ ts) tools serves free = (
    ap (λ n. is_name n (names_of tools)) serves.0.1 ∙ free.0,
    registered-AllNew ts tools serves.1 free.1,
  )

  registered-apart :
      (t : EnergyTool) (ts : List EnergyTool)
      → Serves t
      → All Serves ts
      → All (λ u. text_eq (function_name t) (function_name u) ≡ false) ts
      → All
          (λ u. text_eq (registered upstream deco t).name u.name ≡ false)
          (map (registered upstream deco) ts)
  registered-apart t [] one serves apart = tt
  registered-apart t (u ∷ us) one serves apart =
      (ap₂ text_eq one.1 serves.0.1 ∙ apart.0, registered-apart t us one serves.1 apart.1)

  registered-DistinctNames :
      (ts : List EnergyTool)
      → All Serves ts
      → DistinctFunctions ts
      → DistinctNames (map (registered upstream deco) ts)
  registered-DistinctNames [] serves apart = tt
  registered-DistinctNames (t ∷ ts) serves apart = (
    registered-apart t ts serves.0 serves.1 apart.0,
    registered-DistinctNames ts serves.1 apart.1,
  )

  -- On a server that has imported none of this edition's modules, and where no mounted tool has the
  -- name of one of its nine functions, registering adds exactly its nine tools behind the mounted
  -- ones, in the order of the modules; each serves its decorated function under that function's name,
  -- is governed, and has the hints derived for it.
  pub register-Serves :
      FastMcpLaws upstream is_marked name_of
      → DecoratorLaws deco is_marked name_of
      → RunsModules upstream deco base
      → (s : Servers) → Unseen base energy_tool_modules s
      → NoneTaken energy_tools (mount_base_brain_tools base s).tools
      → ((register base s).tools
          ≡ (mount_base_brain_tools base s).tools ++ map (registered upstream deco) energy_tools)
        × All Serves energy_tools
  register-Serves laws harness runs s unseen free =
      let mounted = (mount_base_brain_tools base s).tools in
      let serves = All-of (registered-Serves laws harness) energy_tools in
      (
        register-added runs s unseen
            ∙ add_tools-AllNew base (map (registered upstream deco) energy_tools) mounted
                (registered-DistinctNames energy_tools serves energy_tools-Distinct)
                (registered-AllNew energy_tools mounted serves free),
        serves,
      )

  mount_tools-IsGoverned :
      (mounted : List Text) (ts : List Tool)
      → All IsGoverned ts
      → All IsGoverned (mount_tools base mounted ts)
  unfolding mount_tools annotated
  mount_tools-IsGoverned mounted [] h = tt
  mount_tools-IsGoverned mounted (t ∷ ts) h = elim (Bool-cases (is_name t.name mounted)) [
    | inl there ↦ rw there (mount_tools-IsGoverned mounted ts h.1)
    | inr new ↦ rw new (h.0, mount_tools-IsGoverned mounted ts h.1)
  ]

  import_brain-tools :
      (bs : List Text) (s : Servers) → (import_all base (import_brain base) bs s).tools ≡ s.tools
  unfolding import_all import_brain
  import_brain-tools [] s = refl
  import_brain-tools (b ∷ bs) s =
      let one : (import_brain base b s).tools ≡ s.tools = ground arith in
      import_brain-tools bs (import_brain base b s) ∙ one

  mount-IsGoverned :
      (s : Servers)
      → All IsGoverned s.tools
      → All IsGoverned (mount_base_brain_tools base s).base_tools
      → All IsGoverned (mount_base_brain_tools base s).tools
  unfolding mount_base_brain_tools
  mount-IsGoverned s own based =
      let s' = import_all base (import_brain base) base.brain_modules s in
      add_tools-All base IsGoverned (mount_tools base (names_of s'.tools) s'.base_tools) s'.tools
        (mount_tools-IsGoverned (names_of s'.tools) s'.base_tools based)
        (subst (All IsGoverned) (sym (import_brain-tools base.brain_modules s)) own)

  map-IsGoverned :
      (ts : List EnergyTool) → All Serves ts → All IsGoverned (map (registered upstream deco) ts)
  map-IsGoverned [] h = tt
  map-IsGoverned (t ∷ ts) ((_, _, governed, _), rest) = (governed, map-IsGoverned ts rest)

  Decided-ok :
      (tools : List Tool) (r : Result (List Tool))
      → All IsGoverned tools
      → Decided base tools r
      → r ≡ ok tools
  Decided-ok tools (ok served) all (same, _) = ap ok same
  Decided-ok tools (raise e) all refused = absurd (refused all)

  either_way :
      (b : Bool) (xs ys : List Tool)
      → All IsGoverned xs
      → All IsGoverned ys
      → All IsGoverned (if b then xs else ys)
  either_way true xs ys h k = h
  either_way false xs ys h k = k

  -- Only a tool of the base package can make the server refuse to start: on a server that has imported
  -- none of this edition's modules and has only governed tools, if the tools of the base server are
  -- governed too, and the no-egress gate keeps governed tools governed, all tools on offer are served.
  pub main-Serves :
      FastMcpLaws upstream is_marked name_of
      → DecoratorLaws deco is_marked name_of
      → RunsModules upstream deco base
      → ((ts : List Tool) → All IsGoverned ts → All IsGoverned (base.apply_no_egress ts))
      → (s : Servers) → Unseen base energy_tool_modules s
      → All IsGoverned s.tools
      → All IsGoverned (mount_base_brain_tools base s).base_tools
      → main base s ≡ ok (offered base s)
  main-Serves laws harness runs narrows s unseen own based =
      let serves = All-of (registered-Serves laws harness) energy_tools in
      let all : All IsGoverned (register base s).tools =
        subst (All IsGoverned) (sym (register-added runs s unseen)) (
          add_tools-All base IsGoverned _ _ (map-IsGoverned energy_tools serves)
            (mount-IsGoverned s own based)) in
      let on_offer : All IsGoverned (offered base s) =
        either_way base.no_egress_active (base.apply_no_egress (register base s).tools)
          (register base s).tools (narrows (register base s).tools all) all in
      Decided-ok (offered base s) (main base s) on_offer (main-Decided base s)
