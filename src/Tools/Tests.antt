-- ===== src/Tools/Tests.antt =====
-- Registering the nine tools with toy decorators and a base package of one tool.
use Prim.Native.Nat.{◌%◌}
use industrial_aiops_energy.Prelude.{
  ℕ, ◌+◌, ◌≡◌, refl, ap, arith, Bool, true, leb, ◌==◌, none, List, [], ◌∷◌, ◌++◌, map, All, Text,
  codes, text_eq, if◌then◌else◌,
}
use industrial_aiops_energy.Python.{ok, raise, null, other, lookup_error}
use industrial_aiops_energy.Server.{
  Tool, Servers, Package, brain_path, energy_path, energy_tool_modules, is_name, import_brain,
  import_all, annotated, mount_tools, mount_base_brain_tools, register, add_tools, main,
}
use industrial_aiops_energy.Toy.{add_tool, adds_new, keeps_taken}
use industrial_aiops_energy.Server.Governed.{IsGoverned, offered}
use industrial_aiops_energy.App.{FastMcp, unnamed, named, function, no_options, tool}
use industrial_aiops_energy.Tools.{
  EnergyTool, iec104_connection_info, iec104_interrogate, iec104_read_point, dnp3_link_status,
  dnp3_integrity_poll, iec61850_device_directory, iec61850_browse, iec61850_read,
  substation_event_analysis, function_name, iec104_tools, dnp3_tools, iec61850_tools,
  substation_tools, defined_in, Decorators, import_tools,
}
use industrial_aiops_energy.Tools.Registering.{energy_tools, registered, RunsModules}
use industrial_aiops_energy.Tools.Serving.{
  FastMcpLaws, DecoratorLaws, Serves, register-Serves, main-Serves,
}

-- The functions are the numbers below 16; the harness adds 16, and the names do not see that.
abbrev number : EnergyTool → ℕ
number iec104_connection_info = 0
number iec104_interrogate = 1
number iec104_read_point = 2
number dnp3_link_status = 3
number dnp3_integrity_poll = 4
number iec61850_device_directory = 5
number iec61850_browse = 6
number iec61850_read = 7
number substation_event_analysis = 8

abbrev numbered : ℕ → EnergyTool
numbered n =
    if n == 0
    then iec104_connection_info
    else if n == 1
    then iec104_interrogate
    else if n == 2
    then iec104_read_point
    else if n == 3
    then dnp3_link_status
    else if n == 4
    then dnp3_integrity_poll
    else if n == 5
    then iec61850_device_directory
    else if n == 6
    then iec61850_browse
    else if n == 7
    then iec61850_read
    else substation_event_analysis

abbrev name_of : ℕ → Text
name_of f = function_name (numbered (f % 16))

abbrev is_marked : ℕ → Bool
is_marked f = leb 16 f

abbrev deco : Decorators
deco = record { function_of = number; tool_errors = λ kind f. f; governed_tool = λ risk f. f + 16 }

abbrev upstream : FastMcp ℕ
upstream = record {
  tool = λ o f. record {
    name = elim o.name [ unnamed ↦ name_of f | named t ↦ t | function g ↦ [] ];
    fn = f;
    is_governed = is_marked f;
    annotations = o.annotations;
  };
  hints_for = λ f. f;
  session = λ s. raise (other lookup_error []);
  call_tool = λ name arguments s. (ok null, s);
}

upstream-FastMcpLaws : FastMcpLaws upstream is_marked name_of
upstream-FastMcpLaws = record {
  keeps_function = λ o f. refl;
  keeps_annotations = λ o f. refl;
  names_after = λ o f h. ground arith;
  reads_marker = λ o f. refl;
}

named_number : (t : EnergyTool) → name_of (number t) ≡ function_name t
named_number iec104_connection_info = refl
named_number iec104_interrogate = refl
named_number iec104_read_point = refl
named_number dnp3_link_status = refl
named_number dnp3_integrity_poll = refl
named_number iec61850_device_directory = refl
named_number iec61850_browse = refl
named_number iec61850_read = refl
named_number substation_event_analysis = refl

deco-DecoratorLaws : DecoratorLaws deco is_marked name_of
deco-DecoratorLaws = record {
  named = named_number;
  keeps_name = λ kind f. refl;
  keeps_governed_name =
      λ risk f. ap (λ n. function_name (numbered n)) {x = (f + 16) % 16} {y = f % 16} (omega arith);
  marks = λ risk f. ground arith;
}

abbrev tools_of : List EnergyTool → List Tool
tools_of ts = map (registered upstream deco) ts

abbrev brings : Text → List Tool
unfolding brain_path energy_path
brings path =
    if text_eq path (brain_path (codes "oee"))
    then (record { name = codes "oee"; fn = 0; is_governed = true; annotations = none }) ∷ []
    else if text_eq path (energy_path (codes "iec104_tools"))
    then tools_of iec104_tools
    else if text_eq path (energy_path (codes "dnp3_tools"))
    then tools_of dnp3_tools
    else if text_eq path (energy_path (codes "iec61850_tools"))
    then tools_of iec61850_tools
    else if text_eq path (energy_path (codes "substation_tools"))
    then tools_of substation_tools
    else []

abbrev base : Package
base = record {
  brain_modules = codes "oee" ∷ [];
  brings = brings;
  hints_for = λ f. f;
  no_egress_active = true;
  apply_no_egress = λ ts. elim ts [ [] ↦ [] | t ∷ rest ↦ rest ];
  add_tool = add_tool;
  adds_new = adds_new;
  keeps_taken = keeps_taken;
}

IsGoverned-rest : (ts : List Tool) → All IsGoverned ts → All IsGoverned (base.apply_no_egress ts)
IsGoverned-rest [] h = tt
IsGoverned-rest (t ∷ rest) h = h.1

abbrev fresh : Servers
fresh = record { imported = []; base_tools = []; tools = [] }

base-RunsModules : RunsModules upstream deco base
unfolding import_tools defined_in tool no_options energy_tool_modules brings brain_path energy_path
    codes text_eq
base-RunsModules = (refl, (refl, (refl, (refl, tt))))

register-Serves_example :
    ((register base fresh).tools
      ≡ (mount_base_brain_tools base fresh).tools ++ map (registered upstream deco) energy_tools)
    × All (Serves upstream deco base is_marked name_of) energy_tools
unfolding is_name energy_tool_modules mount_base_brain_tools import_all import_brain add_tools
    mount_tools annotated brings brain_path energy_path function_name codes text_eq
register-Serves_example =
    register-Serves upstream deco base is_marked name_of upstream-FastMcpLaws deco-DecoratorLaws
      base-RunsModules fresh (refl, (refl, (refl, (refl, tt)))) (ground arith)

main-Serves_example : main base fresh ≡ ok (offered base fresh)
unfolding is_name energy_tool_modules mount_base_brain_tools import_all import_brain add_tools
    brings brain_path energy_path codes text_eq
main-Serves_example =
    main-Serves upstream deco base is_marked name_of upstream-FastMcpLaws deco-DecoratorLaws
      base-RunsModules (λ ts h. IsGoverned-rest ts h) fresh (refl, (refl, (refl, (refl, tt)))) tt
      (refl, tt)
