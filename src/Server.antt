-- ===== src/Server.antt =====
-- iaiops_energy/mcp/server.py: collecting the tools, and refusing to serve one that is not governed.
pub mod Adding
pub mod Governed
pub mod Mounted
mod Tests
use industrial_aiops_energy.Prelude.{
  ℕ, Bool, true, false, ◌||◌, not, Option, none, some, List, [], ◌∷◌, ◌++◌, filter, map, Text,
  codes, text_eq, if◌then◌else◌, ◌≡◌,
}
use industrial_aiops_energy.Python.{Result, ok, raise, Exception, other, runtime_error}

-- A tool of a FastMCP server: its name, its callable, whether that carries the marker
-- `_is_governed_tool`, and its annotations, if there are any.
pub record Tool : Type 0 where
  pub name : Text
  pub fn : ℕ
  pub is_governed : Bool
  pub annotations : Option ℕ

-- The modules that were imported, by their full names, and the tools of the base server and of this one.
pub record Servers : Type 0 where
  pub imported : List Text
  pub base_tools : List Tool
  pub tools : List Tool

-- ENERGY_TOOL_MODULES
unfoldable pub energy_tool_modules : List Text
energy_tool_modules =
    codes "iec104_tools"
    ∷ codes "dnp3_tools"
    ∷ codes "iec61850_tools"
    ∷ codes "substation_tools"
    ∷ []

-- f"mcp_server.tools.{mod}"
unfoldable pub brain_path : Text → Text
brain_path m = codes "mcp_server.tools." ++ m

-- f"iaiops_energy.mcp.tools.{mod}"
unfoldable pub energy_path : Text → Text
energy_path m = codes "iaiops_energy.mcp.tools." ++ m

-- name in names
unfoldable pub is_name : Text → List Text → Bool
is_name n [] = false
is_name n (m ∷ ms) = text_eq m n || is_name n ms

-- {tool.name for tool in tools}
abbrev pub names_of : List Tool → List Text
names_of tools = map (λ t. t.name) tools

-- The base package, the tool modules and FastMCP: which modules make up the brain, what importing a
-- module registers, the hints derived from a callable, and the no-egress gate with its switch.
-- Documented of FastMCP's add_tool: a tool with a new name is added behind the others, and one whose
-- name is taken is left out.
pub record Package : Type 0 where
  pub brain_modules : List Text
  pub brings : Text → List Tool
  pub hints_for : ℕ → ℕ
  pub no_egress_active : Bool
  pub apply_no_egress : List Tool → List Tool
  pub add_tool : Tool → List Tool → List Tool
  pub adds_new :
      (t : Tool) (ts : List Tool)
      → is_name t.name (names_of ts) ≡ false
      → add_tool t ts ≡ ts ++ t ∷ []
  pub keeps_taken :
      (t : Tool) (ts : List Tool) → is_name t.name (names_of ts) ≡ true → add_tool t ts ≡ ts

-- tuple(tool.name for tool in tools if not governed)
unfoldable pub ungoverned : List Tool → List Text
ungoverned tools = names_of (filter (λ t. not t.is_governed) tools)

-- The error text of assert_all_tools_governed, less the names.
unfoldable pub refusal : List Text → Exception
refusal names =
    other runtime_error (codes "refusing to start: MCP tools missing @governed_tool harness marker")

-- assert_all_tools_governed, which gives the tools on
unfoldable pub assert_all_tools_governed : List Tool → Result (List Tool)
assert_all_tools_governed tools = elim (ungoverned tools) [
  | [] ↦ ok tools
  | n ∷ ns ↦ raise (refusal (n ∷ ns))
]

module _ (base : Package) where
  -- Each of the tools is added to those of a server, in order.
  unfoldable pub add_tools : List Tool → List Tool → List Tool
  add_tools [] tools = tools
  add_tools (t ∷ ts) tools = add_tools ts (base.add_tool t tools)

  -- importlib.import_module of a module of the base package; a second import does nothing.
  unfoldable pub import_brain : Text → Servers → Servers
  import_brain m s =
      let path = brain_path m in
      if is_name path s.imported then s else record s {
        imported = path ∷ s.imported;
        base_tools = add_tools (base.brings path) s.base_tools;
      }

  -- The same for a module of this base.
  unfoldable pub import_energy : Text → Servers → Servers
  import_energy m s =
      let path = energy_path m in
      if is_name path s.imported
      then s
      else record s { imported = path ∷ s.imported; tools = add_tools (base.brings path) s.tools }

  unfoldable pub import_all : (Text → Servers → Servers) → List Text → Servers → Servers
  import_all import_one [] s = s
  import_all import_one (m ∷ ms) s = import_all import_one ms (import_one m s)

  -- annotations=getattr(tool, "annotations", None) or hints_for(tool.fn)
  unfoldable pub annotated : Tool → Tool
  annotated t = record t {
    annotations = elim t.annotations [ some a ↦ some a | none ↦ some (base.hints_for t.fn) ];
  }

  -- The loop of _mount_base_brain_tools, with the names mounted before it.
  unfoldable pub mount_tools : List Text → List Tool → List Tool
  mount_tools mounted [] = []
  mount_tools mounted (t ∷ ts) =
      let rest = mount_tools mounted ts in
      if is_name t.name mounted then rest else annotated t ∷ rest

  -- _mount_base_brain_tools
  unfoldable pub mount_base_brain_tools : Servers → Servers
  mount_base_brain_tools s =
      let s' = import_all import_brain base.brain_modules s in
      record s' { tools = add_tools (mount_tools (names_of s'.tools) s'.base_tools) s'.tools }

  -- register
  unfoldable pub register : Servers → Servers
  register s = import_all import_energy energy_tool_modules (mount_base_brain_tools s)

  -- main: the tools that mcp.run() serves
  unfoldable pub main : Servers → Result (List Tool)
  main s =
      let tools = (register s).tools in
      assert_all_tools_governed
        (if base.no_egress_active then base.apply_no_egress tools else tools)
