-- ===== src/Tools/Forwarding.antt =====
-- iaiops_energy/mcp/tools/*.py: what each tool calls. An endpoint's name is resolved first; the error
-- dict that a tool answers for an exception is made by a decorator of the base package.
use industrial_aiops_energy.Prelude.{Bool, Option, none, some, Text, ℤ, pos}
use industrial_aiops_energy.Python.{Runtime, int, array, Items, Result, ok, raise}
use industrial_aiops_energy.Shared.{Shared}
use industrial_aiops_energy.Targets.{Target}
use industrial_aiops_energy.Sessions.Action.{Run, Library}
use industrial_aiops_energy.Dnp3.Adapter.{Binding}
use industrial_aiops_energy.Dnp3.Poll.{Reactor, Live}
use industrial_aiops_energy.Dnp3.Ops.{PollReport, LinkReport, dnp3_integrity_poll, dnp3_link_status}
use industrial_aiops_energy.Iec104.Stations.{IntOf}
use industrial_aiops_energy.Iec104.Ops.{
  Tap, Snapshot, PointReport, LinkInfo, iec104_connection_info, iec104_interrogate,
  iec104_read_point,
}
use industrial_aiops_energy.Iec61850.Binding
use industrial_aiops_energy.Iec61850.Read.{MmsBinding}
use industrial_aiops_energy.Iec61850.Ops.{
  Adapter, Directory, BrowseReport, ReadReport, iec61850_device_directory, iec61850_browse,
  iec61850_read,
}
use industrial_aiops_energy.Substation.Report.{Analysis, substation_event_analysis}

-- mcp_server._shared of the base package: the target for an endpoint's name.
abbrev pub Resolver : Type 0
Resolver = Option Text → Result Target

-- ops.f(_target(endpoint))
unfoldable pub with_target : {W A : Type 0} → Resolver → (Target → Run W A) → Option Text → Run W A
with_target target_for op endpoint st = elim (target_for endpoint) [
  | ok target ↦ op target st
  | raise e ↦ some (raise e, st)
]

module _ {W : Type 0} (target_for : Resolver) (rt : Runtime) (lib : Binding) (reactor : Reactor W)
    (import_pydnp3 : Result Bool) (sh : Shared) where
  -- dnp3_link_status of dnp3_tools.py
  unfoldable pub dnp3_link_status_tool : Option Text → Run (Live W) LinkReport
  dnp3_link_status_tool endpoint =
      with_target target_for (λ t. dnp3_link_status rt lib reactor import_pydnp3 sh t) endpoint

  -- dnp3_integrity_poll of dnp3_tools.py
  unfoldable pub dnp3_integrity_poll_tool : Option Text → Run (Live W) PollReport
  dnp3_integrity_poll_tool endpoint =
      with_target target_for (λ t. dnp3_integrity_poll rt lib reactor import_pydnp3 sh t) endpoint

module _ {W : Type 0} (target_for : Resolver) (sh : Shared) (int_of : IntOf) (lib : Library W)
    (rt : Runtime) (tap : Tap W) where
  -- iec104_connection_info of iec104_tools.py
  unfoldable pub iec104_connection_info_tool : Option Text → Run W LinkInfo
  iec104_connection_info_tool endpoint =
      with_target target_for (λ t. iec104_connection_info sh int_of t lib rt tap) endpoint

  -- iec104_interrogate of iec104_tools.py
  unfoldable pub iec104_interrogate_tool : Option ℤ → Option Text → Run W Snapshot
  iec104_interrogate_tool common_address endpoint =
      with_target target_for (λ t. iec104_interrogate sh int_of t lib rt tap common_address)
        endpoint

  -- iec104_read_point of iec104_tools.py
  unfoldable pub iec104_read_point_tool : ℤ → Option ℤ → Option Text → Run W PointReport
  iec104_read_point_tool io_address common_address endpoint =
      with_target target_for
        (λ t. iec104_read_point sh int_of t lib rt tap (int io_address) common_address) endpoint

module _ (target_for : Resolver) (rt : Runtime) (sh : Shared) (lib : Binding.Binding)
    (mms : MmsBinding) (library : Library Adapter) where
  -- iec61850_device_directory of iec61850_tools.py
  unfoldable pub iec61850_device_directory_tool : Bool → Option Text → Run Adapter Directory
  iec61850_device_directory_tool include_children endpoint =
      with_target target_for
        (λ t. iec61850_device_directory rt sh lib mms t library include_children) endpoint

  -- iec61850_browse of iec61850_tools.py
  unfoldable pub iec61850_browse_tool : Text → Option Text → Run Adapter BrowseReport
  iec61850_browse_tool reference endpoint =
      with_target target_for (λ t. iec61850_browse rt sh lib mms t library reference) endpoint

  -- iec61850_read of iec61850_tools.py
  unfoldable pub iec61850_read_tool : Text → Text → Option Text → Run Adapter (Option ReadReport)
  iec61850_read_tool reference fc endpoint =
      with_target target_for (λ t. iec61850_read rt sh lib mms t library reference fc) endpoint

-- An argument that may be left out, with its default.
abbrev pub given_or : {A : Type 0} → Option A → A → A
given_or none d = d
given_or (some a) d = a

-- substation_event_analysis of substation_tools.py, which takes no endpoint; windows in microseconds
unfoldable pub substation_event_analysis_tool :
    Runtime → Items → Option ℤ → Option ℤ → Result Analysis
substation_event_analysis_tool rt events breaker_fail_window backup_margin =
    substation_event_analysis rt (array events) (given_or breaker_fail_window (pos 250_000))
      (given_or backup_margin (pos 500_000))
