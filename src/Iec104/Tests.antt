-- ===== src/Iec104/Tests.antt =====
-- The operations of iec104/ops.py on a toy station.
mod Connecting
use industrial_aiops_energy.Prelude.{
  ℕ, ◌+◌, ◌≤◌, ◌≡◌, refl, ap, true, false, none, some, List, [], ◌∷◌, codes, text_eq, pos, length,
}
use industrial_aiops_energy.Python.{Value, int, text, ok}
use industrial_aiops_energy.Shared.{Shared}
use industrial_aiops_energy.Toy.{runtime}
use industrial_aiops_energy.Targets.{Target}
use industrial_aiops_energy.Waiting.{wait_loop, wait_until, last_probe}
use industrial_aiops_energy.Sessions.Action.{
  import_library, create_client, start, is_connected, stop, add_connection, Library, State,
  finally_, translating, wait_for,
}
use industrial_aiops_energy.Sessions.Managers.{
  register_iec104_discovery, build_iec104_client, iec104_session,
}
use industrial_aiops_energy.Iec104.Stations.{
  IntOf, Station, Point, opt_int, stations_of, station_ca, eqb_address, find, pick_station,
  point_address, bounded_points, find_point,
}
use industrial_aiops_energy.Iec104.Stations.Chosen.{
  Found, Chosen, pick_station-Chosen, find_point-Found,
}
use industrial_aiops_energy.Iec104.Ops.{
  Tap, configured_ca, wanted, interrogate, Snapshot, PointReport, station_snapshot, point_report,
  iec104_interrogate, iec104_read_point,
}
use industrial_aiops_energy.Iec104.Ops.Answers.{ReadWhileUp}
use industrial_aiops_energy.Tools.Forwarding.{Resolver, with_target, iec104_interrogate_tool}
use industrial_aiops_energy.Tools.Answers.{answered, iec104_interrogate_tool-ReadWhileUp}
use industrial_aiops_energy.Tools.Catching.{caught, catching, catching-Honest}

abbrev pub int_of : IntOf
int_of (int n) = some n
int_of v = none

abbrev pub shared : Shared
shared = record { s = λ v n. []; num = λ v. some v }

abbrev point_at : Value → ℕ → Point
point_at address n = record {
  value = some (int (pos n));
  io_address = some address;
  type = none;
  quality = none;
  recorded_at = none;
}

abbrev station : ℕ → List Point → Station
station ca points = record { common_address = some (int (pos ca)); points = some points }

abbrev stations : List Station
stations = station 1 [] ∷ station 7 (point_at (text []) 3 ∷ point_at (int (pos 11)) 4 ∷ []) ∷ []

pick_station-Chosen_example :
    Chosen int_of stations (some (pos 7)) (pick_station int_of stations (some (pos 7)))
pick_station-Chosen_example = pick_station-Chosen int_of stations (some (pos 7))

find_point-Found_example :
    Found
      (λ p. eqb_address (point_address int_of p) (some (pos 11)))
      (bounded_points (station 7 (point_at (int (pos 11)) 4 ∷ [])))
      (find_point int_of (some (pos 11)) (station 7 (point_at (int (pos 11)) 4 ∷ [])))
    × (length (bounded_points (station 7 (point_at (int (pos 11)) 4 ∷ []))) ≤ 5000)
find_point-Found_example =
    find_point-Found int_of (some (pos 11)) (station 7 (point_at (int (pos 11)) 4 ∷ []))

-- An address that is not readable finds the point whose own address is not.
find_point-unreadable :
    find_point int_of none (station 7 (point_at (text []) 3 ∷ point_at (int (pos 11)) 4 ∷ []))
    ≡ some (point_at (text []) 3)
unfolding find_point find bounded_points point_address opt_int eqb_address
find_point-unreadable = refl

-- The interrogation fills the model: the world counts 100 more.
abbrev pub tap : Tap ℕ
tap = record {
  connection = λ w. record { stations = some stations; get_stations = none; is_connected = true };
  interrogation = some (λ ca w. (none, w + 100));
}

abbrev library : Library ℕ
library = record {
  respond = λ c w. (ok true, w);
  clock = record { monotonic = λ w. w; sleep = λ d w. w + d };
  has_station_hook = false;
  has_point_hook = false;
}

abbrev pub rtu : Target
unfolding codes
rtu = record {
  name = codes "bay";
  protocol = codes "iec104";
  host = codes "h";
  port = none;
  unit_id = none;
  common_address = some 7;
  master_address = none;
}

abbrev pub begin : State ℕ
begin = record { world = 0; calls = [] }

abbrev finished : State ℕ
unfolding codes
finished = record {
  world = 100;
  calls =
      import_library
      ∷ create_client
      ∷ add_connection (codes "h") 2404
      ∷ start
      ∷ is_connected
      ∷ stop
      ∷ [];
}

abbrev seen : Snapshot
seen =
    station_snapshot shared int_of rtu (some (pos 7))
      (some (station 7 (point_at (text []) 3 ∷ point_at (int (pos 11)) 4 ∷ [])))

interrogate_run :
    iec104_interrogate shared int_of rtu library runtime tap none begin ≡ some (ok seen, finished)
unfolding iec104_interrogate wanted configured_ca interrogate pick_station find station_ca opt_int
    eqb_address stations_of iec104_session build_iec104_client register_iec104_discovery finally_
    translating wait_for wait_until wait_loop last_probe codes text_eq rtu finished
interrogate_run = refl

-- Every endpoint's name stands for the RTU.
abbrev target_for : Resolver
target_for endpoint = ok rtu

tool_run :
    catching (iec104_interrogate_tool target_for shared int_of library runtime tap none none) begin
    ≡ some (ok (answered seen), finished)
unfolding iec104_interrogate_tool with_target
tool_run =
    ap (λ out. elim out [ none ↦ none | some (r, st') ↦ some (ok (caught r), st') ]) interrogate_run

iec104_interrogate_tool-ReadWhileUp_example :
    (target : Target) × (target_for none ≡ ok target)
    × ReadWhileUp shared int_of target library runtime tap
        (wanted target none)
        (λ conn.
          station_snapshot shared int_of target
            (wanted target none)
            (pick_station int_of (stations_of conn) (wanted target none)))
        seen
        finished
iec104_interrogate_tool-ReadWhileUp_example =
    iec104_interrogate_tool-ReadWhileUp target_for shared int_of library runtime tap catching
      catching-Honest none none seen begin finished tool_run

abbrev seen_point : PointReport
seen_point =
    point_report shared int_of rtu (some (pos 7)) (some (pos 11))
      (some (station 7 (point_at (text []) 3 ∷ point_at (int (pos 11)) 4 ∷ [])))

read_point_run :
    iec104_read_point shared int_of rtu library runtime tap (int (pos 11)) none begin
    ≡ some (ok seen_point, finished)
unfolding iec104_read_point wanted configured_ca interrogate pick_station find station_ca opt_int
    eqb_address stations_of iec104_session build_iec104_client register_iec104_discovery finally_
    translating wait_for wait_until wait_loop last_probe codes text_eq rtu finished
read_point_run = refl
