-- ===== src/Iec104/Tests/Connecting.antt =====
-- The operations of iec104/ops.py on an RTU that connects 120 ms after the start.
use industrial_aiops_energy.Prelude.{
  ℕ, ◌+◌, ◌≤◌, leb, refl, ap, true, some, none, Bool, codes, text_eq, pos, arith,
}
use industrial_aiops_energy.Python.{int, ok}
use industrial_aiops_energy.Toy.{runtime}
use industrial_aiops_energy.Sessions.Action.{Call, start, is_connected, Library}
use industrial_aiops_energy.Iec104.Stations.{opt_int}
use industrial_aiops_energy.Iec104.Ops.{
  configured_ca, wanted, link_info, iec104_connection_info, iec104_interrogate, iec104_read_point,
}
use industrial_aiops_energy.Iec104.Ops.Liveness.{
  Answering, snapshot_of, point_of, iec104_operations-Answering,
}
use industrial_aiops_energy.Iec104.Tests.{int_of, shared, tap, rtu, begin}

-- Starting takes 1 microsecond; no other call takes time.
abbrev time_of : Call → ℕ
time_of start = 1
time_of c = 0

abbrev is_yes : Call → ℕ → Bool
is_yes is_connected w = leb 120_000 w
is_yes c w = true

abbrev slow : Library ℕ
slow = record {
  respond = λ c w. (ok (is_yes c w), w + time_of c);
  clock = record { monotonic = λ w. w; sleep = λ d w. w + d };
  has_station_hook = true;
  has_point_hook = true;
}

-- The world shows that the client was started.
abbrev Started : ℕ → Type 0
Started w = 1 ≤ w

iec104_operations-Answering_example :
    Answering shared int_of rtu slow runtime tap Started 120_000 begin
      (configured_ca rtu)
      (link_info shared int_of rtu)
      (iec104_connection_info shared int_of rtu slow runtime tap)
    × Answering shared int_of rtu slow runtime tap Started 120_000 begin
        (wanted rtu none)
        (snapshot_of shared int_of rtu (wanted rtu none))
        (iec104_interrogate shared int_of rtu slow runtime tap none)
    × Answering shared int_of rtu slow runtime tap Started 120_000 begin
        (wanted rtu none)
        (point_of shared int_of rtu (wanted rtu none) (some (pos 11)))
        (iec104_read_point shared int_of rtu slow runtime tap (int (pos 11)) none)
unfolding codes text_eq rtu opt_int
iec104_operations-Answering_example =
    iec104_operations-Answering shared int_of rtu slow runtime tap Started 120_000 begin none
      (int (pos 11)) refl refl (record { sleep_takes = λ d w. omega arith })
      ((λ c w. (is_yes c w, refl)), (λ c w. omega arith)) (λ w. omega arith)
      (((λ w i. omega arith), (λ w i. omega arith)), (λ w i late. ap ok (ground arith)))
      (omega arith)
