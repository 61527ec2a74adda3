-- ===== src/Tools/Registering.antt =====
-- What registering the modules of mcp/tools adds to the server of mcp/server.py.
use industrial_aiops_energy.Prelude.{
  ◌≡◌, refl, sym, ap, ◌∙◌, arith, false, List, [], ◌∷◌, ◌++◌, map, All, Text, codes, text_eq,
}
use industrial_aiops_energy.Python.{ok}
use industrial_aiops_energy.Server.{
  Tool, Servers, Package, brain_path, energy_path, energy_tool_modules, is_name, import_brain,
  import_energy, import_all, add_tools,
}
use industrial_aiops_energy.Server.Adding.{add_tools-append}
use industrial_aiops_energy.App.{FastMcp, no_options, decorator, tool}
use industrial_aiops_energy.Tools.{
  EnergyTool, defined_in, Decorators, decorated, import_tools, iec104_tools, dnp3_tools,
  iec61850_tools, substation_tools,
}

module _ (base : Package) where
  -- None of these modules was imported.
  abbrev pub Unseen : List Text → Servers → Type 0
  Unseen ms s = All (λ m. is_name (energy_path m) s.imported ≡ false) ms

  -- No module stands twice.
  abbrev pub Distinct : List Text → Type 0
  Distinct [] = Unit
  Distinct (m ∷ ms) = All (λ n. text_eq (energy_path m) (energy_path n) ≡ false) ms × Distinct ms

  -- What importing the modules brings, in their order.
  abbrev pub brought : List Text → List Tool
  brought [] = []
  brought (m ∷ ms) = base.brings (energy_path m) ++ brought ms

  import_energy-Unseen :
      (m : Text) (ms : List Text) (s : Servers)
      → is_name (energy_path m) s.imported ≡ false
      → All (λ n. text_eq (energy_path m) (energy_path n) ≡ false) ms
      → Unseen ms s
      → Unseen ms (import_energy base m s)
  unfolding import_energy is_name
  import_energy-Unseen m [] s new apart unseen = tt
  import_energy-Unseen m (n ∷ ns) s new apart unseen =
      let this = apart.0 in
      let that = unseen.0 in (ground arith, import_energy-Unseen m ns s new apart.1 unseen.1)

  import_energy-tools :
      (m : Text) (s : Servers)
      → is_name (energy_path m) s.imported ≡ false
      → (import_energy base m s).tools ≡ add_tools base (base.brings (energy_path m)) s.tools
  unfolding import_energy
  import_energy-tools m s new = ground arith

  pub import_all-brought :
      (ms : List Text) (s : Servers)
      → Distinct ms
      → Unseen ms s
      → (import_all base (import_energy base) ms s).tools ≡ add_tools base (brought ms) s.tools
  unfolding import_all add_tools
  import_all-brought [] s apart unseen = refl
  import_all-brought (m ∷ ms) s apart unseen =
      let s' = import_energy base m s in
      let later =
        import_all-brought ms s' apart.1 (import_energy-Unseen m ms s unseen.0 apart.0 unseen.1) in
      later
      ∙ (ap (add_tools base (brought ms)) (import_energy-tools m s unseen.0)
          ∙ sym (add_tools-append base (base.brings (energy_path m)) (brought ms) s.tools))

  other_path : (b m : Text) → text_eq (brain_path b) (energy_path m) ≡ false
  unfolding brain_path energy_path codes text_eq
  other_path b m = refl

  import_brain-one :
      (ms : List Text) (b : Text) (s : Servers) → Unseen ms s → Unseen ms (import_brain base b s)
  unfolding import_brain is_name
  import_brain-one [] b s unseen = tt
  import_brain-one (m ∷ ms) b s unseen =
      let this = unseen.0 in
      let apart = other_path b m in (ground arith, import_brain-one ms b s unseen.1)

  -- Importing the brain's modules is no import of one of this edition's.
  pub import_brain-Unseen :
      (ms bs : List Text) (s : Servers)
      → Unseen ms s
      → Unseen ms (import_all base (import_brain base) bs s)
  unfolding import_all
  import_brain-Unseen ms [] s unseen = unseen
  import_brain-Unseen ms (b ∷ bs) s unseen =
      import_brain-Unseen ms bs (import_brain base b s) (import_brain-one ms b s unseen)

-- The four modules of this edition stand once each.
pub modules-Distinct : (base : Package) → Distinct base energy_tool_modules
unfolding energy_tool_modules energy_path codes text_eq
modules-Distinct base = ((refl, (refl, (refl, tt))), ((refl, (refl, tt)), ((refl, tt), (tt, tt))))

-- The functions of all four modules, in the order of their registration.
abbrev pub energy_tools : List EnergyTool
energy_tools = iec104_tools ++ (dnp3_tools ++ (iec61850_tools ++ substation_tools))

module _ {S : Type 0} (upstream : FastMcp S) (deco : Decorators) where
  abbrev pub registered : EnergyTool → Tool
  registered t = decorator upstream no_options (decorated upstream deco t)

  import_tools-ok : (m : Text) → import_tools upstream deco m ≡ ok (map registered (defined_in m))
  unfolding import_tools tool no_options
  import_tools-ok m = refl

  module _ (base : Package) where
    -- Importing a module of this edition runs it.
    abbrev pub RunsModules : Type 0
    RunsModules =
        All (λ m. import_tools upstream deco m ≡ ok (base.brings (energy_path m)))
          energy_tool_modules

    brings-registered :
        (m : Text)
        → import_tools upstream deco m ≡ ok (base.brings (energy_path m))
        → base.brings (energy_path m) ≡ map registered (defined_in m)
    brings-registered m h = let same = import_tools-ok m in ground arith

    pub brought-registered :
        RunsModules → brought base energy_tool_modules ≡ map registered energy_tools
    unfolding energy_tool_modules defined_in codes text_eq
    brought-registered (a, (b, (c, (d, e)))) =
        let iec104 : base.brings (energy_path (codes "iec104_tools"))
            ≡ map registered iec104_tools =
          brings-registered (codes "iec104_tools") a in
        let dnp3 : base.brings (energy_path (codes "dnp3_tools")) ≡ map registered dnp3_tools =
          brings-registered (codes "dnp3_tools") b in
        let iec61850 : base.brings (energy_path (codes "iec61850_tools"))
            ≡ map registered iec61850_tools =
          brings-registered (codes "iec61850_tools") c in
        let substation : base.brings (energy_path (codes "substation_tools"))
            ≡ map registered substation_tools =
          brings-registered (codes "substation_tools") d in
        rw (iec104, dnp3, iec61850, substation) refl
