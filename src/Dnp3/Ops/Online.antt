-- ===== src/Dnp3/Ops/Online.antt =====
-- What the operations of dnp3/ops.py answer rests on the outstation having come online; the channel
-- may close again before the body reads it.
use industrial_aiops_energy.Prelude.{
  Option, ◌≡◌, ◌↔◌, arith, Bool, true, some, List, ◌++◌, pos, ap, ◌∙◌, sym, Option-cases, inl, inr,
}
use industrial_aiops_energy.Python.{Runtime, Result, ok}
use industrial_aiops_energy.Shared.{Shared}
use industrial_aiops_energy.Targets.{Target}
use industrial_aiops_energy.Waiting.{holds}
use industrial_aiops_energy.Sessions.Action.{is_online, shutdown, State, return, perform}
use industrial_aiops_energy.Sessions.Action.Laws.{bind-ok, wait_for-true}
use industrial_aiops_energy.Sessions.Managers.{dnp3_session}
use industrial_aiops_energy.Sessions.Managers.Runs.{CameOnline, dnp3_session-CameOnline}
use industrial_aiops_energy.Dnp3.Points.{Point}
use industrial_aiops_energy.Dnp3.Adapter
use industrial_aiops_energy.Dnp3.Adapter.{
  Binding, Callback, LinkLayer, Happening, callback, deliver, run,
}
use industrial_aiops_energy.Dnp3.Poll.Arrivals.{
  deliver_all-append, StayedOpen, deliver_all-StayedOpen, is_online-open, link_status-open,
}
use industrial_aiops_energy.Dnp3.Poll.{Reactor, Live, deliver_all, interrupted, integrity_poll}
use industrial_aiops_energy.Dnp3.Ops.{
  answer, dnp3_library, poll_points, read_link, dnp3_integrity_poll, dnp3_link_status, poll_report,
  PollReport, LinkReport, link_report,
}

returned-ok :
    {W A : Type 0} {a b : A} {s t : State W}
    → ◌≡◌ {A = Option (Result A × State W)} (some (ok a, s)) (some (ok b, t))
    → a ≡ b
returned-ok h = ground arith

module _ {W : Type 0} (rt : Runtime) (lib : Binding) (reactor : Reactor W)
    (import_pydnp3 : Result Bool) (sh : Shared) (target : Target) where
  poll_points-ok :
      (ps : List Point) (st st' : State (Live W))
      → poll_points rt lib reactor import_pydnp3 st ≡ some (ok ps, st')
      → (l' : Live W) × (integrity_poll rt lib reactor
            (pos 2_000_000)
            (interrupted rt lib reactor st.world)
          ≡ some (ok ps, l'))
        × (record st { world = l' } ≡ st')
  poll_points-ok ps st st' h =
      let polled =
        integrity_poll rt lib reactor (pos 2_000_000) (interrupted rt lib reactor st.world) in
      elim (Option-cases polled) [
        | inl hangs ↦ absurd (ground arith)
        | inr ((r, l), e) ↦
            let returned : r ≡ ok ps = ground arith in
            (l, e ∙ ap (λ x. some (x, l)) returned, ground arith)
      ]

  -- Where the wait for the outstation ended with True the channel is open.
  CameOnline-open :
      (st up : State (Live W))
      → CameOnline (dnp3_library rt lib reactor import_pydnp3) rt target (pos 10_000_000) st up
      → up.world.adapter.channel_state ≡ some lib.open_state
  unfolding answer
  CameOnline-open st up (built, reply, opened, started, _, _, w) =
      let library = dnp3_library rt lib reactor import_pydnp3 in
      let (asked, e) = wait_for-true library is_online (pos 10_000_000) started up w in
      let now = interrupted rt lib reactor asked.world in
      let yes_answer : Adapter.is_online lib now.adapter ≡ true = ap (λ r. holds r.0) e in
      let there : now ≡ up.world = ap (λ r. r.1.world) e in
      sym (ap (λ l. l.adapter.channel_state) there)
      ∙ (is_online-open rt lib now.adapter).0 yes_answer

  -- The poll that a report is of: the adapter was built and enabled, the outstation came online, the
  -- adapter's poll returned the points behind the callbacks that came next, and the shutdown was last.
  abbrev pub PolledOnline : PollReport → State (Live W) → State (Live W) → Type 0
  PolledOnline report st st' =
      (up : State (Live W)) × (l' : Live W) × (ps : List Point) × CameOnline
        (dnp3_library rt lib reactor import_pydnp3) rt target (pos 10_000_000) st up
      × (up.world.adapter.channel_state ≡ some lib.open_state)
      × (integrity_poll rt lib reactor (pos 2_000_000) (interrupted rt lib reactor up.world)
          ≡ some (ok ps, l'))
      × (report ≡ poll_report sh target ps)
      × (st'
          ≡ (perform (dnp3_library rt lib reactor import_pydnp3) shutdown
              (record up { world = l' })).1)

  pub dnp3_integrity_poll-PolledOnline :
      (report : PollReport) (st st' : State (Live W))
      → dnp3_integrity_poll rt lib reactor import_pydnp3 sh target st ≡ some (ok report, st')
      → PolledOnline report st st'
  unfolding dnp3_integrity_poll
  dnp3_integrity_poll-PolledOnline report st st' h =
      let library = dnp3_library rt lib reactor import_pydnp3 in
      let body = poll_points rt lib reactor import_pydnp3 in
      let (ps, mid, run, e) =
        bind-ok (dnp3_session library rt target (pos 10_000_000) body)
          (λ raw. return (poll_report sh target raw)) st st' report h in
      let (up, last, online, ran, closed) =
        dnp3_session-CameOnline library rt target (pos 10_000_000) body ps st mid run in
      let (l', polled, same) = poll_points-ok ps up last ran in
      let told : report ≡ poll_report sh target ps = ground arith in
      let end_state : st' ≡ mid = ground arith in
      (
        up,
        l',
        ps,
        online,
        CameOnline-open st up online,
        polled,
        told,
        end_state ∙ (closed ∙ sym (ap (λ s. (perform library shutdown s).1) same)),
      )

  -- The callbacks that arrive before the first and before the second call of the body.
  abbrev pub first_arrivals : State (Live W) → List Callback
  first_arrivals up = (reactor.between up.world.world).0

  abbrev pub second_arrivals : State (Live W) → List Callback
  second_arrivals up = (reactor.between (reactor.between up.world.world).1).0

  -- A link status that returns is that of an outstation that came online in the wait of its session.
  -- It says `online` exactly if the channel stayed open, or opened again, by the callbacks that arrived
  -- behind the wait, and `channel_open` exactly if it did by those that arrived until that was read.
  pub dnp3_link_status-StayedOpen :
      (report : LinkReport) (st st' : State (Live W))
      → dnp3_link_status rt lib reactor import_pydnp3 sh target st ≡ some (ok report, st')
      → (up : State (Live W)) × CameOnline
          (dnp3_library rt lib reactor import_pydnp3)
          rt
          target
          (pos 10_000_000)
          st
          up
        × ((report.online ≡ true) ↔ StayedOpen rt lib (first_arrivals up))
        × ((report.link_layer.channel_open ≡ true)
            ↔ StayedOpen rt lib (first_arrivals up ++ second_arrivals up))
  unfolding dnp3_link_status link_report interrupted
  dnp3_link_status-StayedOpen report st st' h =
      let library = dnp3_library rt lib reactor import_pydnp3 in
      let read = read_link rt lib reactor import_pydnp3 in
      let (seen, mid, run, e) =
        bind-ok (dnp3_session library rt target (pos 10_000_000) read)
          (λ seen. return (link_report sh target seen.0 seen.1)) st st' report h in
      let (up, last, online, ran, closed) =
        dnp3_session-CameOnline library rt target (pos 10_000_000) read seen st mid run in
      let opened = CameOnline-open st up online in
      let told : link_report sh target seen.0 seen.1 ≡ report = ground arith in
      let a = up.world.adapter in
      let a₁ = deliver_all rt lib (first_arrivals up) a in
      let a₂ = deliver_all rt lib (second_arrivals up) a₁ in
      let saw : (Adapter.is_online lib a₁, Adapter.link_status lib a₂) ≡ seen = returned-ok ran in
      let whole = deliver_all-append rt lib (first_arrivals up) (second_arrivals up) a in
      let says : report.online ≡ Adapter.is_online lib a₁ =
        sym (ap (λ r. r.online) told) ∙ sym (ap (λ p. p.0) saw) in
      let opens : report.link_layer.channel_open ≡ (Adapter.link_status lib a₂).channel_open =
        sym (ap (λ r. r.link_layer.channel_open) told) ∙ sym (ap (λ p. p.1.channel_open) saw) in
      let i = is_online-open rt lib a₁ in
      let j = link_status-open rt lib a₂ in
      let k = deliver_all-StayedOpen rt lib (first_arrivals up) a opened in
      let m = deliver_all-StayedOpen rt lib (first_arrivals up ++ second_arrivals up) a opened in
      (
        up,
        online,
        ((λ t. k.0 (i.0 (sym says ∙ t))), (λ s. says ∙ i.1 (k.1 s))),
        (
          (λ t. m.0 (ap (λ b. b.channel_state) whole ∙ j.0 (sym opens ∙ t))),
          (λ s. opens ∙ j.1 (sym (ap (λ b. b.channel_state) whole) ∙ m.1 s)),
        ),
      )
