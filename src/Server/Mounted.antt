-- ===== src/Server/Mounted.antt =====
-- The tools of the base package are mounted on the server of mcp/server.py.
use mathlib.Core.Path.{subst}
use industrial_aiops_energy.Prelude.{
  ◌≡◌, inl, inr, sym, ap, ◌∙◌, arith, true, ◌||◌, List, [], ◌∷◌, Text, text_eq, text_eq_iff,
  Bool-cases,
}
use industrial_aiops_energy.Server.Adding.{is_name-add_tools}
use industrial_aiops_energy.Server.{
  Tool, Servers, Package, energy_tool_modules, energy_path, is_name, names_of, annotated,
  import_all, import_brain, import_energy, add_tools, mount_tools, mount_base_brain_tools, register,
}

module _ (base : Package) where
  -- The loop leaves out only names that were mounted before.
  mount_tools-is_name :
      (n : Text) (mounted : List Text) (ts : List Tool)
      → is_name n (names_of ts) ≡ true
      → (is_name n mounted || is_name n (names_of (mount_tools base mounted ts))) ≡ true
  unfolding mount_tools annotated is_name
  mount_tools-is_name n mounted [] h = absurd (ground arith)
  mount_tools-is_name n mounted (t ∷ ts) h = elim (Bool-cases (text_eq t.name n)) [
    | inl same ↦
        let e : t.name ≡ n = (text_eq_iff t.name n).0 same in
        let moved : is_name t.name mounted ≡ is_name n mounted = ap (λ m. is_name m mounted) e in
        ground arith
    | inr other ↦ ground (arith, mount_tools-is_name n mounted ts)
  ]

  -- Every base tool has its name on this server.
  abbrev pub Mounted : Servers → Text → Type 0
  Mounted s n = is_name n (names_of s.base_tools) ≡ true → is_name n (names_of s.tools) ≡ true

  mount-Mounted : (n : Text) (s : Servers) → Mounted (mount_base_brain_tools base s) n
  unfolding mount_base_brain_tools
  mount-Mounted n s h =
      let s' = import_all base (import_brain base) base.brain_modules s in
      let kept = mount_tools-is_name n (names_of s'.tools) s'.base_tools h in
      is_name-add_tools base n (mount_tools base (names_of s'.tools) s'.base_tools) s'.tools ∙ kept

  import_energy-Mounted :
      (n m : Text) (s : Servers) → Mounted s n → Mounted (import_energy base m s) n
  unfolding import_energy
  import_energy-Mounted n m s mounted h = elim (Bool-cases (is_name (energy_path m) s.imported)) [
    | inl there ↦
        let same : import_energy base m s ≡ s = ground arith in
        subst (λ x. Mounted x n) (sym same) mounted h
    | inr new ↦
        let path = energy_path m in
        let grown = record s {
          imported = path ∷ s.imported;
          tools = add_tools base (base.brings path) s.tools;
        } in
        let same : import_energy base m s ≡ grown = ground arith in
        subst (λ x. Mounted x n) (sym same)
          (λ k.
            let there = mounted k in
            ground (arith, is_name-add_tools base n (base.brings path) s.tools))
          h
  ]

  import_all-Mounted :
      (n : Text) (ms : List Text) (s : Servers)
      → Mounted s n
      → Mounted (import_all base (import_energy base) ms s) n
  unfolding import_all
  import_all-Mounted n [] s mounted = mounted
  import_all-Mounted n (m ∷ ms) s mounted =
      import_all-Mounted n ms (import_energy base m s) (import_energy-Mounted n m s mounted)

  -- After the registration every name of a tool of the base server is the name of a tool of this one.
  pub register-Mounted :
      (s : Servers) (n : Text)
      → is_name n (names_of (register base s).base_tools) ≡ true
      → is_name n (names_of (register base s).tools) ≡ true
  unfolding register
  register-Mounted s n =
      import_all-Mounted n energy_tool_modules (mount_base_brain_tools base s) (mount-Mounted n s)
