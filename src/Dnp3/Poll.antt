-- ===== src/Dnp3/Poll.antt =====
-- iaiops_energy/connectors/dnp3/driver.py `integrity_poll`, with the callbacks that arrive while it
-- waits.
pub mod Arrivals
pub mod Fresh
use industrial_aiops_energy.Prelude.{
  ℕ, Bool, true, false, Option, none, some, List, [], ◌∷◌, length, ℤ,
}
use industrial_aiops_energy.Python.{Runtime, Result, ok, raise, Exception}
use industrial_aiops_energy.Waiting.{Clock, settle_scan}
use industrial_aiops_energy.Dnp3.Points.{Point}
use industrial_aiops_energy.Dnp3.Adapter.{Adapter, Binding, Callback, deliver}

-- Everything outside the program: the clock, the callbacks that arrive while a sleep lasts, what
-- ScanClasses raises and which callbacks arrive while it runs, the callbacks that arrive between two
-- calls of the adapter's methods, and how long a Shutdown of the manager takes, or `none` where it
-- blocks for ever.
pub record Reactor (W : Type 0) : Type 0 where
  pub clock : Clock W
  pub during_sleep : ℕ → W → List Callback
  pub scan : W → Option Exception × W
  pub during_scan : W → List Callback
  pub between : W → List Callback × W
  pub shutdown_takes : W → Option ℕ

-- The adapter within its surroundings.
pub record Live (W : Type 0) : Type 0 where
  pub adapter : Adapter
  pub world : W

-- Callbacks in the order in which they arrive.
unfoldable pub deliver_all : Runtime → Binding → List Callback → Adapter → Adapter
deliver_all rt lib [] a = a
deliver_all rt lib (c ∷ cs) a = deliver_all rt lib cs (deliver rt lib c a)

-- What the reactor thread does between two calls of the adapter.
unfoldable pub interrupted : {W : Type 0} → Runtime → Binding → Reactor W → Live W → Live W
interrupted rt lib reactor l =
    let (cs, w) = reactor.between l.world in
    record { adapter = deliver_all rt lib cs l.adapter; world = w }

-- lambda: len(self._handler.points)
abbrev pub count_points : {W : Type 0} → Live W → ℕ × Live W
count_points l = (length l.adapter.points, l)

module _ {W : Type 0} (rt : Runtime) (lib : Binding) (reactor : Reactor W) where
  abbrev pub live_clock : Clock (Live W)
  live_clock = record {
    monotonic = λ l. reactor.clock.monotonic l.world;
    sleep = λ d l. record {
      adapter = deliver_all rt lib (reactor.during_sleep d l.world) l.adapter;
      world = reactor.clock.sleep d l.world;
    };
  }

  -- What follows the call of scan, which may have raised.
  abbrev pub settle_after : ℤ → Option Exception × Live W → Option (Result (List Point) × Live W)
  settle_after settle (some e, l) = some (raise e, l)
  settle_after settle (none, l) =
      elim (settle_scan live_clock count_points 200_000 50_000 settle l) [
        | none ↦ none
        | some l' ↦ some (ok l'.adapter.points, l')
      ]

  abbrev pub start_scan : Live W → Option Exception × Live W
  start_scan l =
      let (e, w) = reactor.scan l.world in
      (
        e,
        record { adapter = deliver_all rt lib (reactor.during_scan l.world) l.adapter; world = w },
      )

  -- integrity_poll; `none` is a wait that does not end.
  unfoldable pub integrity_poll : ℤ → Live W → Option (Result (List Point) × Live W)
  integrity_poll settle l =
      let cleared = record l { adapter = record l.adapter { points = [] } } in
      elim l.adapter.dnpmaster [
        | false ↦ some (ok [], l)
        | true ↦ elim lib.has_scan_classes [
          | true ↦ settle_after settle (start_scan cleared)
          | false ↦ some (ok [], cleared)
        ]
      ]
