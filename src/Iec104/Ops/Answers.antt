-- ===== src/Iec104/Ops/Answers.antt =====
-- The operations of iec104/ops.py answer from a connection that was up.
use industrial_aiops_energy.Prelude.{◌≡◌, arith, true, Option, some, ℤ, pos}
use industrial_aiops_energy.Python.{Runtime, ok}
use industrial_aiops_energy.Shared.{Shared}
use industrial_aiops_energy.Targets.{Target}
use industrial_aiops_energy.Sessions.Action.{is_connected, stop, Library, State, perform}
use industrial_aiops_energy.Sessions.Managers.Endings.{iec104_session-ok}
use industrial_aiops_energy.Iec104.Stations.{IntOf, Connection, stations_of, pick_station}
use industrial_aiops_energy.Iec104.Ops.{
  Tap, interrogate, interrogated, wanted, Snapshot, station_snapshot, iec104_interrogate,
}

module _ {W : Type 0} (sh : Shared) (int_of : IntOf) (target : Target) (lib : Library W)
    (rt : Runtime) (tap : Tap W) where
  -- The connection had just said that it is up; the answer was read off it after an interrogation for
  -- the wanted address, and stopping the client came last.
  abbrev pub ReadWhileUp : {A : Type 0} → Option ℤ → (Connection → A) → A → State W → Type 0
  ReadWhileUp want answer a st' =
      (asked : State W) × (up : State W) × (last : State W) × (perform lib is_connected asked
        ≡ (ok true, up))
      × (a ≡ answer (tap.connection (interrogate tap want up.world)))
      × (last.world ≡ interrogate tap want up.world)
      × (st' ≡ (perform lib stop last).1)

  interrogated-ok :
      {A : Type 0} (want : Option ℤ) (answer : Connection → A) (a : A) (up last : State W)
      → interrogated sh int_of target lib rt tap want answer up ≡ some (ok a, last)
      → (a ≡ answer (tap.connection (interrogate tap want up.world)))
        × (last.world ≡ interrogate tap want up.world)
  interrogated-ok want answer a up last h = (ground arith, ground arith)

  -- An interrogation that returns reports the station that was picked, by the address asked for or
  -- else the configured one, from the stations of a connection that was up, as they are after the
  -- general interrogation; and it stopped the client last.
  pub iec104_interrogate-ReadWhileUp :
      (common_address : Option ℤ) (r : Snapshot) (st st' : State W)
      → iec104_interrogate sh int_of target lib rt tap common_address st ≡ some (ok r, st')
      → ReadWhileUp
          (wanted target common_address)
          (λ conn.
            station_snapshot sh int_of target
              (wanted target common_address)
              (pick_station int_of (stations_of conn) (wanted target common_address)))
          r
          st'
  unfolding iec104_interrogate
  iec104_interrogate-ReadWhileUp common_address r st st' h =
      let want = wanted target common_address in
      let answer = λ (conn : Connection).
        station_snapshot sh int_of target want (pick_station int_of (stations_of conn) want) in
      let (asked, up, last, said, ran, closed) =
        iec104_session-ok lib rt target (pos 10_000_000)
          (interrogated sh int_of target lib rt tap want answer) r st st' h in
      let (given, world) = interrogated-ok want answer r up last ran in
      (asked, up, last, said, given, world, closed)
