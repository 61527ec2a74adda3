-- ===== src/Tools/Answers.antt =====
-- What the tools of mcp/tools answer rests on the endpoint that was asked for.
use industrial_aiops_energy.Prelude.{◌≡◌, inl, inr, refl, arith, Option, some, Text, ℤ, ◌⊎◌, Bool}
use industrial_aiops_energy.Python.{Runtime, Result, ok, raise}
use industrial_aiops_energy.Shared.{Shared}
use industrial_aiops_energy.Targets.{Target}
use industrial_aiops_energy.Sessions.Action.{State, Run, Library}
use industrial_aiops_energy.Dnp3.Adapter.{Binding}
use industrial_aiops_energy.Dnp3.Poll.{Reactor, Live}
use industrial_aiops_energy.Dnp3.Ops.{PollReport, dnp3_integrity_poll}
use industrial_aiops_energy.Dnp3.Ops.Online.{PolledOnline, dnp3_integrity_poll-PolledOnline}
use industrial_aiops_energy.Iec104.Stations.{IntOf, stations_of, pick_station}
use industrial_aiops_energy.Iec104.Ops.{Tap, Snapshot, wanted, station_snapshot, iec104_interrogate}
use industrial_aiops_energy.Iec104.Ops.Answers.{ReadWhileUp, iec104_interrogate-ReadWhileUp}
use industrial_aiops_energy.Tools.Forwarding.{
  Resolver, with_target, dnp3_integrity_poll_tool, iec104_interrogate_tool,
}

-- What a tool answers: the dict of its operation, or an error dict.
pub data Answer (A : Type 0) : Type 0 where
  answered : A → Answer A
  error_dict : Text → Answer A

-- Documented of tool_errors("dict"): only an exception becomes an error dict, so a dict that is none is
-- what the function returned.
abbrev pub Honest : {W A : Type 0} → (Run W A → Run W (Answer A)) → Type 0
Honest {W} {A} tool_errors =
    (m : Run W A) (a : A) (st st' : State W)
    → tool_errors m st ≡ some (ok (answered a), st')
    → m st ≡ some (ok a, st')

target_cases : (r : Result Target) → ((t : Target) × (r ≡ ok t)) ⊎ ((e : _) × (r ≡ raise e))
target_cases (ok t) = inl (t, refl)
target_cases (raise e) = inr (e, refl)

with_target-ok :
    {W A : Type 0} (target_for : Resolver) (op : Target → Run W A) (endpoint : Option Text) (a : A)
    (st st' : State W)
    → with_target target_for op endpoint st ≡ some (ok a, st')
    → (t : Target) × (target_for endpoint ≡ ok t) × (op t st ≡ some (ok a, st'))
unfolding with_target
with_target-ok target_for op endpoint a st st' h = elim (target_cases (target_for endpoint)) [
  | inl (t, found) ↦ (t, found, ground arith)
  | inr (e, failed) ↦ absurd (ground arith)
]

module _ {W : Type 0} (target_for : Resolver) (rt : Runtime) (lib : Binding) (reactor : Reactor W)
    (import_pydnp3 : Result Bool) (sh : Shared) where
  -- A dict of the tool for an integrity poll that is no error dict is the report, for the target that
  -- the endpoint stands for, of a poll of an outstation that came online: the session built and
  -- enabled the adapter and its wait ended with True, with the channel OPEN, the adapter's poll then
  -- returned the points behind the callbacks that came next, and the shutdown was the last call. This
  -- takes that only an exception becomes an error dict.
  pub dnp3_integrity_poll_tool-PolledOnline :
      (tool_errors : Run (Live W) PollReport → Run (Live W) (Answer PollReport))
      → Honest tool_errors
      → (endpoint : Option Text) (report : PollReport) (st st' : State (Live W))
      → tool_errors
          (dnp3_integrity_poll_tool target_for rt lib reactor import_pydnp3 sh endpoint)
          st
        ≡ some (ok (answered report), st')
      → (target : Target) × (target_for endpoint ≡ ok target)
        × PolledOnline rt lib reactor import_pydnp3 sh target report st st'
  unfolding dnp3_integrity_poll_tool
  dnp3_integrity_poll_tool-PolledOnline tool_errors honest endpoint report st st' h =
      let (target, found, ran) =
        with_target-ok target_for (λ t. dnp3_integrity_poll rt lib reactor import_pydnp3 sh t)
          endpoint report st st'
          (honest (dnp3_integrity_poll_tool target_for rt lib reactor import_pydnp3 sh endpoint)
            report st st' h) in
      (
        target,
        found,
        dnp3_integrity_poll-PolledOnline rt lib reactor import_pydnp3 sh target report st st' ran,
      )

module _ {W : Type 0} (target_for : Resolver) (sh : Shared) (int_of : IntOf) (lib : Library W)
    (rt : Runtime) (tap : Tap W) where
  -- A dict of the tool for an interrogation that is no error dict reports the station that was picked,
  -- by the address asked for or else the one configured for the endpoint's target, from the stations
  -- of a connection that was up, as they are after the general interrogation; and stopping the client
  -- came last. This takes that only an exception becomes an error dict.
  pub iec104_interrogate_tool-ReadWhileUp :
      (tool_errors : Run W Snapshot → Run W (Answer Snapshot))
      → Honest tool_errors
      → (common_address : Option ℤ) (endpoint : Option Text) (r : Snapshot) (st st' : State W)
      → tool_errors
          (iec104_interrogate_tool target_for sh int_of lib rt tap common_address endpoint)
          st
        ≡ some (ok (answered r), st')
      → (target : Target) × (target_for endpoint ≡ ok target)
        × ReadWhileUp sh int_of target lib rt tap
            (wanted target common_address)
            (λ conn.
              station_snapshot sh int_of target
                (wanted target common_address)
                (pick_station int_of (stations_of conn) (wanted target common_address)))
            r
            st'
  unfolding iec104_interrogate_tool
  iec104_interrogate_tool-ReadWhileUp tool_errors honest common_address endpoint r st st' h =
      let (target, found, ran) =
        with_target-ok target_for (λ t. iec104_interrogate sh int_of t lib rt tap common_address)
          endpoint r st st'
          (honest (iec104_interrogate_tool target_for sh int_of lib rt tap common_address endpoint)
            r st st' h) in
      (
        target,
        found,
        iec104_interrogate-ReadWhileUp sh int_of target lib rt tap common_address r st st' ran,
      )
