-- ===== src/App.antt =====
-- iaiops_energy/mcp/_app.py: the FastMCP instance of this edition, its `tool` decorator and the scope in
-- which a call of a tool runs.
pub mod Scoped
mod Tests
use industrial_aiops_energy.Prelude.{
  ℕ, Bool, true, false, Option, none, some, Text, codes, if◌then◌else◌,
}
use industrial_aiops_energy.Python.{
  Value, Fields, Result, ok, raise, Exception, other, type_error, lookup_error,
}
use industrial_aiops_energy.Server.{Tool}

-- SERVER_NAME
unfoldable pub server_name : Text
server_name = codes "iaiops-energy"

-- INSTRUCTIONS
unfoldable pub instructions_text : Text
instructions_text =
    codes
      "Governed, vendor-neutral, READ-FIRST energy/substation telecontrol data tap — the ENERGY edition of Industrial-AIOps (built on the iaiops base package). Protocols: IEC 60870-5-104 (RTU/substation link status, general interrogation, single monitored-point reads by IOA), DNP3 / IEEE 1815 (outstation link status, Class 0/1/2/3 integrity poll grouped by measurement type), and IEC 61850 MMS (IED logical-device directory, model browse, data-attribute reads by object reference + functional constraint). ALL energy tools are monitor-direction only: control/operate — CROB, analog output, setpoints, select-before-operate, IEC-104 command ASDUs (C_SC/C_DC/C_SE) — is intentionally NOT exposed. 未经授权勿对生产控制系统写入. The cross-protocol brain from the base package (diagnostics, OEE/downtime analytics, asset inventory, compliance self-assessment) is mounted on this server as well. An 'endpoint' selects a target from config (path via the IAIOPS_CONFIG env var); secrets live in an encrypted store unlocked via IAIOPS_MASTER_PASSWORD; every tool runs through the iaiops governance harness (audit / budget / risk-tier). Protocol client libs are optional extras (pip install 'iaiops-energy[iec104]' / '[dnp3]' / '[iec61850]'); a missing lib degrades to a teaching error, not a crash. Do NOT use for general IT/network devices, Kubernetes, hypervisors, or backups — this is OT telecontrol telemetry only. Need another protocol/action? Open a GitHub issue or PR on industrial-aiops/industrial-aiops-energy."

-- What a client sees of the instance.
pub record Instance : Type 0 where
  pub name : Text
  pub instructions : Text
  pub version : Option Text

module _ (fast_mcp : Text → Text → Instance) where
  -- _GovernedFastMCP.__init__, over FastMCP(name, instructions=...)
  unfoldable pub governed_fast_mcp : Text → Text → Text → Instance
  governed_fast_mcp version name instructions = record (fast_mcp name instructions) {
    version = some version;
  }

  -- mcp, for the version of the package
  unfoldable pub mcp : Text → Instance
  mcp version = governed_fast_mcp version server_name instructions_text

-- The argument `name` of `tool`: a text, or the function itself where the parentheses were forgotten.
pub data Name : Type 0 where
  unnamed : Name
  named : Text → Name
  function : ℕ → Name

-- The arguments of `tool`; icons and metadata are opaque.
pub record Options : Type 0 where
  pub name : Name
  pub title : Option Text
  pub description : Option Text
  pub annotations : Option ℕ
  pub icons : Option ℕ
  pub meta : Option ℕ
  pub structured_output : Option Bool

-- tool()
unfoldable pub no_options : Options
no_options = record {
  name = unnamed;
  title = none;
  description = none;
  annotations = none;
  icons = none;
  meta = none;
  structured_output = none;
}

-- callable(name)
abbrev pub is_callable : Name → Bool
is_callable unnamed = false
is_callable (named t) = false
is_callable (function f) = true

abbrev pub misused : Exception
misused = other type_error (
    codes
      "The @tool decorator was used incorrectly. Did you forget to call it? Use @tool() instead of @tool")

-- The FastMCP class of the package mcp, and hints_for of the base package: the tool that
-- FastMCP.tool(...)(fn) adds, the request's session, and a call of a tool.
pub record FastMcp (S : Type 0) : Type 0 where
  pub tool : Options → ℕ → Tool
  pub hints_for : ℕ → ℕ
  pub session : S → Result ℕ
  pub call_tool : Text → Fields → S → Result Value × S

-- iaiops.core.governance.origin: the origin for a session, and `with origin_scope(o)` around a body.
pub record Origins (S : Type 0) : Type 0 where
  pub mcp_origin : Option ℕ → ℕ
  pub origin_scope : ℕ → (S → Result Value × S) → S → Result Value × S

-- except LookupError
abbrev pub is_lookup : Exception → Bool
is_lookup (other lookup_error m) = true
is_lookup e = false

module _ {S : Type 0} (upstream : FastMcp S) where
  -- The decorator of _GovernedFastMCP.tool.
  unfoldable pub decorator : Options → ℕ → Tool
  decorator options fn =
      upstream.tool
        (record options {
          annotations = elim options.annotations [
            | some a ↦ some a
            | none ↦ some (upstream.hints_for fn)
          ];
        })
        fn

  -- _GovernedFastMCP.tool
  unfoldable pub tool : Options → Result (ℕ → Tool)
  tool options = elim (is_callable options.name) [
    | true ↦ raise misused
    | false ↦ ok (decorator options)
  ]

  module _ (origins : Origins S) where
    -- _mcp_origin
    unfoldable pub mcp_origin : S → Result ℕ
    mcp_origin s = elim (upstream.session s) [
      | ok session ↦ ok (origins.mcp_origin (some session))
      | raise e ↦ if is_lookup e then ok (origins.mcp_origin none) else raise e
    ]

    -- _GovernedFastMCP.call_tool
    unfoldable pub call_tool : Text → Fields → S → Result Value × S
    call_tool name arguments s = elim (mcp_origin s) [
      | raise e ↦ (raise e, s)
      | ok origin ↦ origins.origin_scope origin (upstream.call_tool name arguments) s
    ]
