-- ===== src/Iec104/Ops.antt =====
-- iaiops_energy/connectors/iec104/ops.py: the three operations, each in a session.
pub mod Answers
pub mod Liveness
use industrial_aiops_energy.Prelude.{
  ℕ, zero, suc, Bool, true, false, Option, none, some, List, [], ◌∷◌, Text, ℤ, pos, negsuc, length,
  map, if◌then◌else◌,
}
use industrial_aiops_energy.Python.{Value, text, Runtime, Result, ok, raise, Exception}
use industrial_aiops_energy.Shared.{Shared}
use industrial_aiops_energy.Targets.{Target, or_default}
use industrial_aiops_energy.Sessions.Action.{Library, State, Run}
use industrial_aiops_energy.Sessions.Managers.{iec104_session}
use industrial_aiops_energy.Iec104.Stations.{
  IntOf, Station, Point, Connection, Brief, point_brief, opt_int, stations_of, station_ca,
  pick_station, bounded_points, find_point,
}

-- The c104 connection in a world, and its interrogation method where it is callable.
pub record Tap (W : Type 0) : Type 0 where
  pub connection : W → Connection
  pub interrogation : Option (ℤ → W → Option Exception × W)

-- not common_address
abbrev pub is_falsy : Option ℤ → Bool
is_falsy none = true
is_falsy (some (pos zero)) = true
is_falsy (some ca) = false

-- int(x or 0) or None, of the configured address
unfoldable pub configured_ca : Target → Option ℤ
configured_ca target = elim target.common_address [
  | none ↦ none
  | some zero ↦ none
  | some (suc n) ↦ some (pos (suc n))
]

-- The address that an operation asks for.
unfoldable pub wanted : Target → Option ℤ → Option ℤ
wanted target none = configured_ca target
wanted target (some ca) = some ca

abbrev pub call_interrogation :
    {W : Type 0} → Option (ℤ → W → Option Exception × W) → Option ℤ → W → W
call_interrogation none want w = w
call_interrogation (some f) none w = w
call_interrogation (some f) (some ca) w = if is_falsy (some ca) then w else (f ca w).1

-- _interrogate, which swallows an exception
unfoldable pub interrogate : {W : Type 0} → Tap W → Option ℤ → W → W
interrogate tap want w = call_interrogation tap.interrogation want w

-- The answer of `iec104_interrogate`, less its note.
pub data Snapshot : Type 0 where
  no_station : Text → Option ℤ → Snapshot
  snapshot : Text → Option ℤ → ℕ → List Brief → Snapshot

-- The answer of `iec104_read_point`, less its note.
pub data PointReport : Type 0 where
  station_missing : Text → Option ℤ → PointReport
  found : Text → Option ℤ → Brief → PointReport
  not_found : Text → Option ℤ → PointReport

-- The answer of `iec104_connection_info`, less its note.
pub record LinkInfo : Type 0 where
  pub endpoint : Text
  pub host : Text
  pub port : ℕ
  pub connected : Bool
  pub configured_common_address : ℕ
  pub station_count : ℕ
  pub common_addresses : List ℤ

-- [ca for ca in cas if ca is not None]
unfoldable pub present : List (Option ℤ) → List ℤ
present [] = []
present (none ∷ cas) = present cas
present (some ca ∷ cas) = ca ∷ present cas

module _ (sh : Shared) (int_of : IntOf) (target : Target) where
  -- What iec104_interrogate makes of the station that was picked.
  unfoldable pub station_snapshot : Option ℤ → Option Station → Snapshot
  station_snapshot want none = no_station (sh.s (text target.name) 64) want
  station_snapshot want (some st) =
      let rows = map (point_brief sh int_of) (bounded_points st) in
      snapshot (sh.s (text target.name) 64) (station_ca int_of st) (length rows) rows

  -- What iec104_read_point makes of the station that was picked.
  unfoldable pub point_report : Option ℤ → Option ℤ → Option Station → PointReport
  point_report want ioa none = station_missing (sh.s (text target.name) 64) want
  point_report want ioa (some st) = elim (find_point int_of ioa st) [
    | some p ↦ found (sh.s (text target.name) 64) (station_ca int_of st) (point_brief sh int_of p)
    | none ↦ not_found (sh.s (text target.name) 64) ioa
  ]

  unfoldable pub link_info : Connection → LinkInfo
  link_info conn =
      let cas = present (map (station_ca int_of) (stations_of conn)) in
      record {
        endpoint = sh.s (text target.name) 64;
        host = sh.s (text target.host) 40;
        port = or_default target.port 2404;
        connected = conn.is_connected;
        configured_common_address = or_default target.common_address 0;
        station_count = length cas;
        common_addresses = cas;
      }

  module _ {W : Type 0} (lib : Library W) (rt : Runtime) (tap : Tap W) where
    -- An operation that interrogates and then reads the connection.
    abbrev pub interrogated : {A : Type 0} → Option ℤ → (Connection → A) → Run W A
    interrogated want answer st =
        let w = interrogate tap want st.world in
        some (ok (answer (tap.connection w)), record st { world = w })

    -- iec104_connection_info
    unfoldable pub iec104_connection_info : Run W LinkInfo
    iec104_connection_info =
        iec104_session lib rt target (pos 10_000_000)
          (interrogated (configured_ca target) link_info)

    -- iec104_interrogate
    unfoldable pub iec104_interrogate : Option ℤ → Run W Snapshot
    iec104_interrogate common_address =
        let want = wanted target common_address in
        iec104_session lib rt target (pos 10_000_000) (
          interrogated want
            (λ conn. station_snapshot want (pick_station int_of (stations_of conn) want)))

    -- iec104_read_point
    unfoldable pub iec104_read_point : Value → Option ℤ → Run W PointReport
    iec104_read_point io_address common_address =
        let want = wanted target common_address in
        iec104_session lib rt target (pos 10_000_000) (
          interrogated want (λ conn.
            point_report want (opt_int int_of io_address)
              (pick_station int_of (stations_of conn) want)))
