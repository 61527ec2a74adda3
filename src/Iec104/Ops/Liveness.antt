-- ===== src/Iec104/Ops/Liveness.antt =====
-- The interrogation of iec104/ops.py answers where the RTU connects in time.
use industrial_aiops_energy.Prelude.{
  ℕ, ◌+◌, ◌≤◌, ◌≡◌, arith, Bool, true, false, some, Option, pos, ap, ◌∙◌, if◌then◌else◌, codes,
  text_eq, refl, ℤ,
}
use industrial_aiops_energy.Python.{Value, Runtime, ok, Exception}
use industrial_aiops_energy.Shared.{Shared}
use industrial_aiops_energy.Targets.{Target}
use industrial_aiops_energy.Waiting.{ClockLaws, NeverBack}
use industrial_aiops_energy.Sessions.Action.{
  Call, import_library, create_client, on_new_station, on_new_point, start, is_connected, Library,
  State, Run, return, ◌>>=◌, perform, call,
}
use industrial_aiops_energy.Sessions.Managers.{
  iec104_session, is_blank, import_or, register_iec104_discovery, build_iec104_client,
}
use industrial_aiops_energy.Sessions.Managers.Liveness.{UpFrom, iec104_session-ReturnsUp}
use industrial_aiops_energy.Iec104.Stations.{IntOf, Connection, opt_int, stations_of, pick_station}
use industrial_aiops_energy.Iec104.Ops.{
  Tap, configured_ca, wanted, interrogate, interrogated, link_info, Snapshot, PointReport,
  station_snapshot, point_report, iec104_connection_info, iec104_interrogate, iec104_read_point,
}

module _ {W : Type 0} (lib : Library W) where
  -- No call of the library raises or takes the clock back.
  abbrev pub Willing : Type 0
  Willing =
      ((c : Call) (w : W) → (r : Bool) × ((lib.respond c w).0 ≡ ok r))
      × ((c : Call) → NeverBack lib.clock (lib.respond c))

  -- The action returns from every state, at no earlier time.
  abbrev Returns : Run W Bool → Type 0
  Returns m =
      (st : State W)
      → (r : Bool) × (st' : State W) × (m st ≡ some (ok r, st'))
        × (lib.clock.monotonic st.world ≤ lib.clock.monotonic st'.world)

  call-Returns : (c : Call) → Willing → Returns (call lib c)
  call-Returns c (willing, forward) st =
      let (r, e) = willing c st.world in (r, (perform lib c st).1, ground arith, forward c st.world)

  return-Returns : Returns (return true)
  return-Returns st = (true, st, refl, omega arith)

  bind-Returns :
      (m : Run W Bool) (f : Bool → Run W Bool)
      → Returns m
      → ((b : Bool) → Returns (f b))
      → Returns (m >>= f)
  bind-Returns m f first rest st =
      let (a, mid, e, le) = first st in
      let (b, last, e', le') = rest a mid in (b, last, ground arith, omega arith)

  hook-Returns :
      (there : Bool) (c : Call) → Willing → Returns (if there then call lib c else return true)
  hook-Returns true c w = call-Returns c w
  hook-Returns false c w = return-Returns

  else-Returns :
      (b : Bool) (m n : Run W Bool) → b ≡ false → Returns n → Returns (if b then m else n)
  else-Returns true m n h w = absurd (ground arith)
  else-Returns false m n h w = w

  module _ (rt : Runtime) (target : Target) where
    register-Returns : Willing → Returns (register_iec104_discovery lib rt target)
    unfolding register_iec104_discovery
    register-Returns w =
        bind-Returns _ _ (hook-Returns lib.has_station_hook on_new_station w)
          (λ b. hook-Returns lib.has_point_hook on_new_point w)

    import-Returns : (e : Exception) → Willing → Returns (import_or lib rt target e)
    import-Returns e (willing, forward) st =
        let (r, c) = willing import_library st.world in
        (r, (perform lib import_library st).1, ground arith, forward import_library st.world)

    build-Returns :
        Willing → is_blank target.host ≡ false → Returns (build_iec104_client lib rt target)
    unfolding build_iec104_client
    build-Returns w named = bind-Returns _ _ (import-Returns _ w) (λ b.
        else-Returns (is_blank target.host) _ _ named (
          bind-Returns _ _ (call-Returns create_client w)
            (λ b. bind-Returns _ _ (register-Returns w) (λ b. call-Returns _ w))))

module _ (sh : Shared) (int_of : IntOf) (target : Target) where
  -- The reports on the station that is picked by the address.
  abbrev pub snapshot_of : Option ℤ → Connection → Snapshot
  snapshot_of want conn =
      station_snapshot sh int_of target want (pick_station int_of (stations_of conn) want)

  abbrev pub point_of : Option ℤ → Option ℤ → Connection → PointReport
  point_of want ioa conn =
      point_report sh int_of target want ioa (pick_station int_of (stations_of conn) want)

module _ {W : Type 0} (sh : Shared) (int_of : IntOf) (target : Target) (lib : Library W)
    (rt : Runtime) (tap : Tap W) (Started : W → Type 0) (t : ℕ) (st : State W) where
  -- From this state the operation answers from the connection of a client that was started, behind an
  -- interrogation of the address.
  abbrev pub Answering : {A : Type 0} → Option ℤ → (Connection → A) → Run W A → Type 0
  Answering want answer operation =
      (w : W) × (st' : State W) × Started w
      × (operation st ≡ some (ok (answer (tap.connection (interrogate tap want w))), st'))

  session-Answering :
      {A : Type 0} (want : Option ℤ) (answer : Connection → A)
      → text_eq target.protocol (codes "iec104") ≡ true
      → is_blank target.host ≡ false
      → ClockLaws lib.clock
      → Willing lib
      → ((w : W) → Started (lib.respond start w).1)
      → UpFrom lib Started (pos 10_000_000) t is_connected
      → t ≤ lib.clock.monotonic st.world + 10_000_000
      → Answering want answer (
          iec104_session lib rt target
            (pos 10_000_000)
            (interrogated sh int_of target lib rt tap want answer))
  session-Answering want answer fits named laws willing starts up_from in_time =
      let (b, opened, built, le) = build-Returns lib rt target willing named st in
      let (r, e) = willing.0 start opened.world in
      let started = (perform lib start opened).1 in
      let le' = willing.1 start opened.world in
      let (out, st', run, (w, is, same)) =
        iec104_session-ReturnsUp lib rt target (pos 10_000_000)
          (interrogated sh int_of target lib rt tap want answer) Started t
          (λ a. (w : W) × Started w × (a ≡ answer (tap.connection (interrogate tap want w)))) b r st
          opened started fits laws (willing.1 is_connected) built (ap (λ x. (x, started)) e)
          (starts opened.world) (omega arith) up_from (λ up i. (_, _, refl, (up.world, i, refl))) in
      (w, st', is, run ∙ ap (λ a. some (ok a, st')) same)

  -- The operations on an RTU that connects in time answer: where no call of c104 raises or takes the
  -- clock back and a sleep takes its time, the endpoint is an IEC 104 one with a host, and a client
  -- that was started stays so while it is asked and in a pause, and is connected from some moment on,
  -- at most 10 s after the start of the operation, then each of the three operations returns its
  -- report from the connection of a started client, behind an interrogation: of the configured
  -- address for the connection's info, of the wanted one for the snapshot and for a point.
  pub iec104_operations-Answering :
      (common_address : Option ℤ) (io_address : Value)
      → text_eq target.protocol (codes "iec104") ≡ true
      → is_blank target.host ≡ false
      → ClockLaws lib.clock
      → Willing lib
      → ((w : W) → Started (lib.respond start w).1)
      → UpFrom lib Started (pos 10_000_000) t is_connected
      → t ≤ lib.clock.monotonic st.world + 10_000_000
      → Answering
          (configured_ca target)
          (link_info sh int_of target)
          (iec104_connection_info sh int_of target lib rt tap)
        × Answering
            (wanted target common_address)
            (snapshot_of sh int_of target (wanted target common_address))
            (iec104_interrogate sh int_of target lib rt tap common_address)
        × Answering
            (wanted target common_address)
            (point_of sh int_of target (wanted target common_address) (opt_int int_of io_address))
            (iec104_read_point sh int_of target lib rt tap io_address common_address)
  unfolding iec104_connection_info iec104_interrogate iec104_read_point
  iec104_operations-Answering common_address io_address fits named laws willing starts up_from
        in_time =
      let want = wanted target common_address in
      (
        session-Answering (configured_ca target) (link_info sh int_of target) fits named laws
            willing starts up_from in_time,
        session-Answering want (snapshot_of sh int_of target want) fits named laws willing starts
            up_from in_time,
        session-Answering want (point_of sh int_of target want (opt_int int_of io_address)) fits
            named laws willing starts up_from in_time,
      )
