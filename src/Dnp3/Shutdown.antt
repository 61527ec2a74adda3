-- ===== src/Dnp3/Shutdown.antt =====
-- iaiops_energy/connectors/dnp3/driver.py `shutdown`: the manager's Shutdown runs on a thread of its
-- own, for which the caller waits a bounded time.
pub mod Waits
use industrial_aiops_energy.Prelude.{
  ℕ, ltb, Bool, true, false, Option, none, some, ℤ, pos_part, if◌then◌else◌,
}
use industrial_aiops_energy.Python.{Runtime}
use industrial_aiops_energy.Dnp3.Adapter
use industrial_aiops_energy.Dnp3.Adapter.{Binding}
use industrial_aiops_energy.Dnp3.Poll.{Reactor, Live, live_clock}

-- worker.join(max(0.0, timeout_s)) of a thread that runs for a time, or for ever: how long it waits.
-- An exception of Shutdown ends the thread and is swallowed there.
unfoldable pub joined : ℤ → Option ℕ → ℕ
joined timeout none = pos_part timeout
joined timeout (some t) = if ltb t (pos_part timeout) then t else pos_part timeout

module _ {W : Type 0} (rt : Runtime) (lib : Binding) (reactor : Reactor W) where
  -- shutdown, with the callbacks that arrive while it waits
  unfoldable pub shutdown : ℤ → Live W → Live W
  shutdown timeout l =
      let reset : Live W = record l { adapter = Adapter.shutdown l.adapter } in
      elim l.adapter.manager [
        | false ↦ reset
        | true ↦
            (live_clock rt lib reactor).sleep (joined timeout (reactor.shutdown_takes l.world))
              reset
      ]
