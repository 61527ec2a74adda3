-- ===== src/Dnp3/Ops/Liveness.antt =====
-- The integrity poll of dnp3/ops.py answers where the outstation comes online in time.
use industrial_aiops_energy.Prelude.{
  ℕ, ◌+◌, ◌≤◌, ◌<◌, ◌≡◌, arith, Bool, true, false, none, some, List, [], ◌∷◌, ◌++◌, pos, ap, ◌∙◌,
  codes, text_eq, refl,
}
use industrial_aiops_energy.Python.{Runtime, Result, ok}
use industrial_aiops_energy.Shared.{Shared}
use industrial_aiops_energy.Targets.{Target, or_default}
use industrial_aiops_energy.Waiting.{ClockLaws, NeverBack}
use industrial_aiops_energy.Sessions.Action.{
  import_library, enable, is_online, build_master_adapter, State, perform,
}
use industrial_aiops_energy.Sessions.Managers.{is_blank, build_dnp3_client}
use industrial_aiops_energy.Sessions.Managers.Liveness.{UpFrom, ReturnsUp, dnp3_session-ReturnsUp}
use industrial_aiops_energy.Dnp3.Points.{Point}
use industrial_aiops_energy.Dnp3.Adapter
use industrial_aiops_energy.Dnp3.Adapter.{
  Adapter, Binding, BindingCall, make_log_handler, dnp3_manager, add_tcp_client,
  master_stack_config, make_master_application, add_master, enable_master, Callback,
  on_state_change, on_keep_alive_success, on_keep_alive_failure, on_keep_alive_result,
  on_receive_iin, process, new_adapter, deliver, attempt,
}
use industrial_aiops_energy.Dnp3.Poll.Arrivals.{is_online-open}
use industrial_aiops_energy.Dnp3.Poll.{Reactor, Live, deliver_all, interrupted}
use industrial_aiops_energy.Dnp3.Poll.Fresh.{Arrived, integrity_poll-Fresh}
use industrial_aiops_energy.Dnp3.Ops.{
  answer, dnp3_library, poll_points, dnp3_integrity_poll, poll_report,
}

module _ (rt : Runtime) (lib : Binding) where
  deliver-dnpmaster : (c : Callback) (a : Adapter) → (deliver rt lib c a).dnpmaster ≡ a.dnpmaster
  unfolding deliver
  deliver-dnpmaster (on_state_change s) a = ground arith
  deliver-dnpmaster on_keep_alive_success a = ground arith
  deliver-dnpmaster on_keep_alive_failure a = ground arith
  deliver-dnpmaster (on_keep_alive_result s) a = ground arith
  deliver-dnpmaster (on_receive_iin n) a = ground arith
  deliver-dnpmaster (process v) a = ground arith

  deliver_all-dnpmaster :
      (cs : List Callback) (a : Adapter) → (deliver_all rt lib cs a).dnpmaster ≡ a.dnpmaster
  unfolding deliver_all
  deliver_all-dnpmaster [] a = refl
  deliver_all-dnpmaster (c ∷ cs) a =
      deliver_all-dnpmaster cs (deliver rt lib c a) ∙ deliver-dnpmaster c a

module _ {W : Type 0} (rt : Runtime) (lib : Binding) (reactor : Reactor W) (t : ℕ) where
  -- Callbacks that arrive from one world to another behind the time leave the recorded state OPEN, if
  -- it was OPEN where they began behind it.
  abbrev pub Opens : W → List Callback → W → Type 0
  Opens w cs w' =
      (a : Adapter)
      → (t ≤ reactor.clock.monotonic w → a.channel_state ≡ some lib.open_state)
      → t ≤ reactor.clock.monotonic w'
      → (deliver_all rt lib cs a).channel_state ≡ some lib.open_state

  -- The channel is open from the time on, whether the callbacks arrive in a pause or between two calls.
  abbrev pub OpensBy : Type 0
  OpensBy =
      ((w : W) → Opens w (reactor.during_sleep 50_000 w) (reactor.clock.sleep 50_000 w))
      × ((w : W) → Opens w (reactor.between w).0 (reactor.between w).1)

  -- The adapter has a master, and from the time on its channel is recorded as open.
  abbrev pub Opening : Live W → Type 0
  Opening l =
      (l.adapter.dnpmaster ≡ true)
      × (t ≤ reactor.clock.monotonic l.world → l.adapter.channel_state ≡ some lib.open_state)

  -- The points are those that callbacks made since the scan was started.
  abbrev pub Polled : List Point → Type 0
  Polled ps =
      (l : Live W) × (l' : Live W) × (cs : List Callback) × (ps ≡ l'.adapter.points)
      × Arrived reactor l.world cs l'.world
      × (l'.adapter ≡ deliver_all rt lib cs (record l.adapter { points = [] }))

  module _ (import_pydnp3 : Result Bool) where
    interrupted-Opening :
        OpensBy → (l : Live W) → Opening l → Opening (interrupted rt lib reactor l)
    unfolding interrupted
    interrupted-Opening opens l i = (
      deliver_all-dnpmaster rt lib (reactor.between l.world).0 l.adapter ∙ i.0,
      λ late. opens.1 l.world l.adapter i.1 late,
    )

    UpFrom-Opening :
        OpensBy
        → NeverBack reactor.clock reactor.between
        → UpFrom (dnp3_library rt lib reactor import_pydnp3) Opening (pos 10_000_000) t is_online
    unfolding answer interrupted
    UpFrom-Opening opens forward = (
      (
        (λ l i. interrupted-Opening opens l i),
        (λ l i. (
          deliver_all-dnpmaster rt lib (reactor.during_sleep 50_000 l.world) l.adapter ∙ i.0,
          λ late. opens.0 l.world l.adapter i.1 late,
        )),
      ),
      (λ l i late.
          let later = forward l.world in
          ap ok ((is_online-open rt lib _).1 ((interrupted-Opening opens l i).1 (omega arith)))),
    )

-- The adapter behind an `enable` of which no call raised.
abbrev enabled_adapter : Adapter
unfolding new_adapter
enabled_adapter = record new_adapter { manager = true; dnpmaster = true; enabled = true }

enable-quiet :
    (lib : Binding)
    → ((c : BindingCall) → lib.raises c ≡ none)
    → Adapter.enable lib new_adapter ≡ (ok true, enabled_adapter)
unfolding Adapter.enable attempt new_adapter enabled_adapter
enable-quiet lib quiet = ground (
  arith,
  quiet make_log_handler,
  quiet dnp3_manager,
  quiet add_tcp_client,
  quiet master_stack_config,
  quiet make_master_application,
  quiet add_master,
  quiet enable_master,
)

module _ {W : Type 0} (rt : Runtime) (lib : Binding) (reactor : Reactor W) (t : ℕ) (sh : Shared)
    (target : Target) (st : State (Live W)) where
  abbrev built_state : State (Live W)
  built_state = record {
    world = record { adapter = new_adapter; world = st.world.world };
    calls =
        (st.calls ++ import_library ∷ [])
        ++ build_master_adapter target.host (or_default target.port 20000) target.unit_id
            (or_default target.master_address 1)
          ∷ [];
  }

  abbrev enabled_state : State (Live W)
  unfolding enabled_adapter
  enabled_state = record {
    world = record { adapter = enabled_adapter; world = st.world.world };
    calls = built_state.calls ++ enable ∷ [];
  }

  built :
      is_blank target.host ≡ false
      → build_dnp3_client (dnp3_library rt lib reactor (ok true)) rt target st
        ≡ some (ok true, built_state)
  unfolding build_dnp3_client answer
  built named = ground arith

  enabled :
      ((c : BindingCall) → lib.raises c ≡ none)
      → perform (dnp3_library rt lib reactor (ok true)) enable built_state
        ≡ (ok true, enabled_state)
  unfolding answer enabled_state
  enabled quiet =
      ap
        (λ out. (
          out.0,
          record {
            world = record { adapter = out.1; world = st.world.world };
            calls = built_state.calls ++ enable ∷ [];
          },
        ))
        (enable-quiet lib quiet)

  poll_points-Polled :
      ClockLaws reactor.clock
      → lib.has_scan_classes ≡ true
      → ((w : W) → (reactor.scan w).0 ≡ none)
      → ReturnsUp
          (dnp3_library rt lib reactor (ok true))
          (Opening rt lib reactor t)
          (pos 10_000_000)
          t
          (Polled rt lib reactor t)
          (poll_points rt lib reactor (ok true))
  unfolding interrupted
  poll_points-Polled laws classes quiet up (master, _) =
      let begun = interrupted rt lib reactor up.world in
      let mastered =
        deliver_all-dnpmaster rt lib (reactor.between up.world.world).0 up.world.adapter ∙ master in
      let (l', cs, e, arrived, made, _) =
        integrity_poll-Fresh rt lib reactor laws (pos 2_000_000) begun mastered classes
          (quiet begun.world) in
      (
        l'.adapter.points,
        record up { world = l' },
        ap (λ out. elim out [ none ↦ none | some (r, l) ↦ some (r, record up { world = l }) ]) e,
        (begun, l', cs, refl, arrived, made),
      )

  NeverBack-is_online :
      NeverBack reactor.clock reactor.between
      → NeverBack
          (dnp3_library rt lib reactor (ok true)).clock
          ((dnp3_library rt lib reactor (ok true)).respond is_online)
  unfolding answer interrupted
  NeverBack-is_online forward l = forward l.world

  -- An integrity poll of an outstation that comes online in time answers: where pydnp3 is there and
  -- none of its calls raises, the endpoint is a DNP3 one with a host, a sleep takes its time and
  -- nothing takes the clock back, and the channel is open from some moment on that is later than the
  -- start and at most 10 s later, the operation returns the report of exactly the points that
  -- callbacks made since its scan began.
  pub dnp3_integrity_poll-Polled :
      text_eq target.protocol (codes "dnp3") ≡ true
      → is_blank target.host ≡ false
      → ClockLaws reactor.clock
      → ((c : BindingCall) → lib.raises c ≡ none)
      → lib.has_scan_classes ≡ true
      → ((w : W) → (reactor.scan w).0 ≡ none)
      → reactor.clock.monotonic st.world.world < t
      → t ≤ reactor.clock.monotonic st.world.world + 10_000_000
      → OpensBy rt lib reactor t
      → NeverBack reactor.clock reactor.between
      → (ps : List Point) × (st' : State (Live W)) × (dnp3_integrity_poll rt lib reactor
            (ok true)
            sh
            target
            st
          ≡ some (ok (poll_report sh target ps), st'))
        × Polled rt lib reactor t ps
  unfolding dnp3_integrity_poll enabled_state enabled_adapter
  dnp3_integrity_poll-Polled fits named laws quiet classes scan_quiet later in_time opens forward =
      let library = dnp3_library rt lib reactor (ok true) in
      let body = poll_points rt lib reactor (ok true) in
      let (ps, st', e, polled) =
        dnp3_session-ReturnsUp library rt target (pos 10_000_000) body (Opening rt lib reactor t) t
          (Polled rt lib reactor t) true true st built_state enabled_state fits
          (record { sleep_takes = λ d l. laws.sleep_takes d l.world }) (NeverBack-is_online forward)
          (built named) (enabled quiet) (refl, λ late. absurd (omega arith)) in_time
          (UpFrom-Opening rt lib reactor t (ok true) opens forward)
          (poll_points-Polled laws classes scan_quiet) in
      (ps, st', ground arith, polled)
