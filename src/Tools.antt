-- ===== src/Tools.antt =====
-- iaiops_energy/mcp/tools/*.py: the nine tools and how importing their modules registers them.
pub mod Registering
pub mod Serving
pub mod Forwarding
pub mod Answers
pub mod Catching
mod Tests
use industrial_aiops_energy.Prelude.{
  ℕ, Bool, true, false, List, [], ◌∷◌, map, Text, codes, text_eq, if◌then◌else◌,
}
use industrial_aiops_energy.Python.{Result, ok, raise}
use industrial_aiops_energy.Server.{Tool, energy_path}
use industrial_aiops_energy.App.{FastMcp, no_options, tool}

-- The functions that the modules define.
pub data EnergyTool : Type 0 where
  iec104_connection_info iec104_interrogate iec104_read_point : EnergyTool
  dnp3_link_status dnp3_integrity_poll : EnergyTool
  iec61850_device_directory iec61850_browse iec61850_read : EnergyTool
  substation_event_analysis : EnergyTool

unfoldable pub function_name : EnergyTool → Text
function_name iec104_connection_info = codes "iec104_connection_info"
function_name iec104_interrogate = codes "iec104_interrogate"
function_name iec104_read_point = codes "iec104_read_point"
function_name dnp3_link_status = codes "dnp3_link_status"
function_name dnp3_integrity_poll = codes "dnp3_integrity_poll"
function_name iec61850_device_directory = codes "iec61850_device_directory"
function_name iec61850_browse = codes "iec61850_browse"
function_name iec61850_read = codes "iec61850_read"
function_name substation_event_analysis = codes "substation_event_analysis"

abbrev pub iec104_tools : List EnergyTool
iec104_tools = iec104_connection_info ∷ iec104_interrogate ∷ iec104_read_point ∷ []

abbrev pub dnp3_tools : List EnergyTool
dnp3_tools = dnp3_link_status ∷ dnp3_integrity_poll ∷ []

abbrev pub iec61850_tools : List EnergyTool
iec61850_tools = iec61850_device_directory ∷ iec61850_browse ∷ iec61850_read ∷ []

abbrev pub substation_tools : List EnergyTool
substation_tools = substation_event_analysis ∷ []

-- What a module of iaiops_energy/mcp/tools defines, by its name.
unfoldable pub defined_in : Text → List EnergyTool
defined_in m =
    if text_eq m (codes "iec104_tools")
    then iec104_tools
    else if text_eq m (codes "dnp3_tools")
    then dnp3_tools
    else if text_eq m (codes "iec61850_tools")
    then iec61850_tools
    else if text_eq m (codes "substation_tools")
    then substation_tools
    else []

-- The decorators of the base package on function objects, and the object of each function.
pub record Decorators : Type 0 where
  pub function_of : EnergyTool → ℕ
  pub tool_errors : Text → ℕ → ℕ
  pub governed_tool : Text → ℕ → ℕ

module _ {S : Type 0} (upstream : FastMcp S) (deco : Decorators) where
  -- @governed_tool(risk_level="low") @tool_errors("dict") on the function
  unfoldable pub decorated : EnergyTool → ℕ
  decorated t =
      deco.governed_tool (codes "low") (deco.tool_errors (codes "dict") (deco.function_of t))

  abbrev pub add_all : List EnergyTool → Result (ℕ → Tool) → Result (List Tool)
  add_all ts (ok decorate) = ok (map (λ t. decorate (decorated t)) ts)
  add_all ts (raise e) = raise e

  -- Importing a module, which applies @mcp.tool() to each of its functions.
  unfoldable pub import_tools : Text → Result (List Tool)
  import_tools m = add_all (defined_in m) (tool upstream no_options)
