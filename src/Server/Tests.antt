-- ===== src/Server/Tests.antt =====
-- Starting the server with a base package of two tools.
use industrial_aiops_energy.Prelude.{
  ◌≡◌, refl, Bool, true, false, none, List, [], ◌∷◌, Text, codes, text_eq,
}
use industrial_aiops_energy.Python.{ok}
use industrial_aiops_energy.Server.{
  Tool, Servers, Package, energy_tool_modules, brain_path, energy_path, is_name, import_brain,
  import_energy, import_all, annotated, mount_tools, mount_base_brain_tools, register, add_tools,
  ungoverned, assert_all_tools_governed, main,
}
use industrial_aiops_energy.Server.{names_of}
use industrial_aiops_energy.Toy.{add_tool, adds_new, keeps_taken}
use industrial_aiops_energy.Server.Governed.{Decided, offered, main-Decided}

abbrev tool : Text → Bool → Tool
tool name governed = record { name = name; fn = 0; is_governed = governed; annotations = none }

-- Importing the module "oee" registers two tools, and each other module none.
abbrev brings : Text → List Tool
unfolding brain_path
brings m = elim (text_eq m (brain_path (codes "oee"))) [
  | true ↦ tool (codes "oee_report") true ∷ tool (codes "push") true ∷ []
  | false ↦ []
]

abbrev base : Package
base = record {
  brain_modules = codes "oee" ∷ [];
  brings = λ m. brings m;
  hints_for = λ f. 1;
  no_egress_active = true;
  apply_no_egress = λ tools. elim tools [ [] ↦ [] | t ∷ ts ↦ t ∷ [] ];
  add_tool = add_tool;
  adds_new = adds_new;
  keeps_taken = keeps_taken;
}

abbrev fresh : Servers
fresh = record { imported = []; base_tools = []; tools = [] }

main-Decided_example : Decided base (offered base fresh) (main base fresh)
main-Decided_example = main-Decided base fresh

main-narrowed : main base fresh ≡ ok (annotated base (tool (codes "oee_report") true) ∷ [])
unfolding main register add_tools mount_base_brain_tools mount_tools import_all import_brain
    import_energy is_name annotated energy_tool_modules brain_path energy_path ungoverned
    assert_all_tools_governed codes text_eq
main-narrowed = refl

abbrev started : Servers
unfolding register
started = register base fresh

started-push : is_name (codes "push") (names_of started.base_tools) ≡ true
unfolding started register add_tools mount_base_brain_tools mount_tools import_all import_brain
    import_energy is_name annotated energy_tool_modules brain_path energy_path codes text_eq
started-push = refl
