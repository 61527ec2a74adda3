-- ===== src/Sessions/Tests.antt =====
-- The sessions of sessions.py with a toy library, whose link comes up with time.
use industrial_aiops_energy.Prelude.{
  ℕ, ◌+◌, ◌≡◌, refl, arith, Bool, true, false, none, some, List, [], ◌∷◌, codes, text_eq, leb, pos,
  Text,
}
use industrial_aiops_energy.Python.{
  Result, ok, raise, Exception, other, connection_error, library_error,
}
use industrial_aiops_energy.Targets.{Target}
use industrial_aiops_energy.Waiting.{ClockLaws, wait_loop, wait_until, last_probe}
use industrial_aiops_energy.Sessions.Action.{
  Call, import_library, create_client, on_new_station, start, is_connected, stop, add_connection,
  build_master_adapter, enable, is_online, shutdown, build_mms_adapter, connect, close, Library,
  State, Run, return, finally_, translating, wait_for,
}
use industrial_aiops_energy.Sessions.Messages.{translate_energy, not_in_time}
use industrial_aiops_energy.Sessions.Managers.{
  register_iec104_discovery, build_iec104_client, build_dnp3_client, build_iec61850_client,
  iec104_session, dnp3_session, iec61850_session, dnp3_late,
}
use industrial_aiops_energy.Sessions.Managers.Outcomes.{
  Iec104Run, Dnp3Run, Iec61850Run, iec104_session_lem, dnp3_session_lem, iec61850_session_lem,
}
use industrial_aiops_energy.Toy.{runtime}

-- The link is up from the time 7 on; adding a connection and dialling fail for the host "down".
abbrev answer : Text → Call → ℕ → Result Bool
answer host is_connected w = ok (leb 7 w)
answer host is_online w = ok (leb 7 w)
answer host (add_connection (c ∷ s) p) w = elim (text_eq (c ∷ s) (codes "down")) [
  | true ↦ raise (other library_error (codes "refused"))
  | false ↦ ok true
]
answer host (connect t) w = raise (other connection_error (codes "refused"))
answer host c w = ok true

abbrev toy : Library ℕ
toy = record {
  respond = λ c w. (answer [] c w, w);
  clock = record { monotonic = λ w. w; sleep = λ d w. w + d };
  has_station_hook = true;
  has_point_hook = false;
}

-- The same, but dialling an IED succeeds.
abbrev toy_ied : Library ℕ
toy_ied = record {
  respond = λ c w. (ok true, w);
  clock = record { monotonic = λ w. w; sleep = λ d w. w + d };
  has_station_hook = false;
  has_point_hook = false;
}

abbrev endpoint : Text → Text → Target
endpoint protocol host = record {
  name = codes "bay";
  protocol = protocol;
  host = host;
  port = none;
  unit_id = some 10;
  common_address = none;
  master_address = none;
}

abbrev initial : State ℕ
initial = record { world = 0; calls = [] }

abbrev ending : ℕ → List Call → State ℕ
ending w cs = record { world = w; calls = cs }

abbrev seven : Run ℕ ℕ
seven = return 7

iec104_run :
    iec104_session toy runtime (endpoint (codes "iec104") (codes "h")) (pos 3) seven initial
    ≡ some (
      ok 7,
      ending 50_000 (
          import_library
          ∷ create_client
          ∷ on_new_station
          ∷ add_connection (codes "h") 2404
          ∷ start
          ∷ is_connected
          ∷ is_connected
          ∷ stop
          ∷ []),
    )
unfolding iec104_session build_iec104_client register_iec104_discovery finally_ translating wait_for
    wait_until wait_loop last_probe codes text_eq
iec104_run = refl

-- The client is created, adding the connection fails, and nothing is stopped.
iec104_unstopped :
    iec104_session toy runtime (endpoint (codes "iec104") (codes "down")) (pos 3) seven initial
    ≡ some (
      raise (
          translate_energy runtime
            (endpoint (codes "iec104") (codes "down"))
            (codes "iec104")
            2404
            (other library_error (codes "refused"))),
      ending 0 (
          import_library
          ∷ create_client
          ∷ on_new_station
          ∷ add_connection (codes "down") 2404
          ∷ []),
    )
unfolding iec104_session build_iec104_client register_iec104_discovery finally_ translating wait_for
    wait_until wait_loop last_probe codes text_eq
iec104_unstopped = refl

abbrev dnp3_calls : List Call
dnp3_calls =
    import_library
    ∷ build_master_adapter (codes "h") 20000 (some 10) 1
    ∷ enable
    ∷ is_online
    ∷ is_online
    ∷ shutdown
    ∷ []

dnp3_run :
    dnp3_session toy runtime (endpoint (codes "dnp3") (codes "h")) (pos 3) seven initial
    ≡ some (ok 7, ending 50_000 dnp3_calls)
unfolding dnp3_session build_dnp3_client finally_ translating wait_for wait_until wait_loop
    last_probe codes text_eq
dnp3_run = refl

-- A timeout that is not positive asks once, too early.
dnp3_offline :
    dnp3_session toy runtime (endpoint (codes "dnp3") (codes "h")) (pos 0) seven initial
    ≡ some (
      raise (dnp3_late runtime (endpoint (codes "dnp3") (codes "h")) (pos 0)),
      ending 0 (
          import_library
          ∷ build_master_adapter (codes "h") 20000 (some 10) 1
          ∷ enable
          ∷ is_online
          ∷ shutdown
          ∷ []),
    )
unfolding dnp3_session build_dnp3_client finally_ translating wait_for wait_until wait_loop
    last_probe codes text_eq dnp3_late not_in_time
dnp3_offline = refl

abbrev offline_calls : List Call
offline_calls =
    import_library
    ∷ build_master_adapter (codes "h") 20000 (some 10) 1
    ∷ enable
    ∷ is_online
    ∷ shutdown
    ∷ []

abbrev ied_calls : List Call
ied_calls = import_library ∷ build_mms_adapter (codes "h") 102 ∷ connect (pos 3) ∷ close ∷ []

iec61850_run :
    iec61850_session toy_ied runtime (endpoint (codes "iec61850") (codes "h")) (pos 3) seven initial
    ≡ some (ok 7, ending 0 ied_calls)
unfolding iec61850_session build_iec61850_client finally_ translating codes text_eq
iec61850_run = refl

abbrev refused : Exception
refused =
    translate_energy runtime (endpoint (codes "iec61850") (codes "h")) (codes "iec61850") 102
      (other connection_error (codes "refused"))

iec61850_refused :
    iec61850_session toy runtime (endpoint (codes "iec61850") (codes "h")) (pos 3) seven initial
    ≡ some (raise refused, ending 0 ied_calls)
unfolding iec61850_session build_iec61850_client finally_ translating codes text_eq
iec61850_refused = refl

abbrev toy_laws : ClockLaws toy.clock
toy_laws = record { sleep_takes = λ d w. omega arith }

iec104_session_lem_example :
    (r : Result ℕ) × (st' : State ℕ) × (iec104_session toy runtime
        (endpoint (codes "iec104") (codes "down"))
        (pos 3)
        seven
        initial
      ≡ some (r, st'))
    × Iec104Run toy runtime (endpoint (codes "iec104") (codes "down")) (pos 3) seven initial r st'
iec104_session_lem_example =
    iec104_session_lem toy runtime (endpoint (codes "iec104") (codes "down")) (pos 3) seven toy_laws
      (λ w. omega arith) (λ st. ((ok 7, st), refl)) initial

dnp3_session_lem_example :
    (r : Result ℕ) × (st' : State ℕ) × (dnp3_session toy runtime
        (endpoint (codes "dnp3") (codes "h"))
        (pos 3)
        seven
        initial
      ≡ some (r, st'))
    × Dnp3Run toy runtime (endpoint (codes "dnp3") (codes "h")) (pos 3) seven initial r st'
dnp3_session_lem_example =
    dnp3_session_lem toy runtime (endpoint (codes "dnp3") (codes "h")) (pos 3) seven toy_laws
      (λ w. omega arith) (λ st. ((ok 7, st), refl)) initial

iec61850_session_lem_example :
    (r : Result ℕ) × (st' : State ℕ) × (iec61850_session toy_ied runtime
        (endpoint (codes "iec61850") (codes "h"))
        (pos 3)
        seven
        initial
      ≡ some (r, st'))
    × Iec61850Run toy_ied runtime
        (endpoint (codes "iec61850") (codes "h"))
        (pos 3)
        seven
        initial
        r
        st'
iec61850_session_lem_example =
    iec61850_session_lem toy_ied runtime (endpoint (codes "iec61850") (codes "h")) (pos 3) seven
      (λ st. ((ok 7, st), refl)) initial
