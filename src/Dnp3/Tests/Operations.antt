-- ===== src/Dnp3/Tests/Operations.antt =====
-- The operations of dnp3/ops.py and their tools with a toy reactor.
use industrial_aiops_energy.Prelude.{
  ℕ, ◌≤◌, ◌≡◌, ◌↔◌, false, ◌++◌, refl, ap, inl, inr, Bool-cases, arith, true, false, none, some,
  List, [], ◌∷◌, length, Text, codes, text_eq, ltb, pos,
}
use industrial_aiops_energy.Python.{ok}
use industrial_aiops_energy.Shared.{Shared}
use industrial_aiops_energy.Toy.{runtime}
use industrial_aiops_energy.Targets.{Target}
use industrial_aiops_energy.Waiting.{
  wait_loop, wait_until, last_probe, observe, settle_loop, settle_scan,
}
use industrial_aiops_energy.Sessions.Action.{
  Call, import_library, build_master_adapter, enable, is_online, shutdown, State, finally_,
  translating, wait_for,
}
use industrial_aiops_energy.Sessions.Managers.Runs.{CameOnline}
use industrial_aiops_energy.Sessions.Managers.{dnp3_session, build_dnp3_client}
use industrial_aiops_energy.Dnp3.Points.{Point, on_item, harvest_collection}
use industrial_aiops_energy.Dnp3.Adapter
use industrial_aiops_energy.Dnp3.Adapter.{
  Binding, Callback, on_state_change, on_keep_alive_failure, process, Happening, callback,
  enable_call, shutdown_call, deliver, attempt, new_adapter, run,
}
use industrial_aiops_energy.Dnp3.Poll.{Live, deliver_all, interrupted, integrity_poll}
use industrial_aiops_energy.Dnp3.Shutdown
use industrial_aiops_energy.Dnp3.Shutdown.{joined}
use industrial_aiops_energy.Dnp3.Ops.{
  poll_report, dnp3_integrity_poll, dnp3_link_status, dnp3_library, answer,
}
use industrial_aiops_energy.Dnp3.Ops.{LinkReport, link_report}
use industrial_aiops_energy.Dnp3.Poll.Arrivals.{StayedOpen}
use industrial_aiops_energy.Dnp3.Ops.Online.{
  PolledOnline, first_arrivals, second_arrivals, dnp3_link_status-StayedOpen,
}
use industrial_aiops_energy.Tools.Forwarding.{Resolver, with_target, dnp3_integrity_poll_tool}
use industrial_aiops_energy.Tools.Answers.{answered, dnp3_integrity_poll_tool-PolledOnline}
use industrial_aiops_energy.Tools.Catching.{caught, catching, catching-Honest}
use industrial_aiops_energy.Dnp3.Ops.Liveness.{OpensBy, Polled, dnp3_integrity_poll-Polled}
use industrial_aiops_energy.Dnp3.Ops.Counts.{Distinct, count_of, total, of_type, poll_report-Counts}
use industrial_aiops_energy.Dnp3.Tests.Samples.{binding, analog, unheard_of, reactor, flapping}

abbrev shared : Shared
shared = record { s = λ v n. []; num = λ v. some v }

abbrev outstation : Target
unfolding codes
outstation = record {
  name = codes "bay";
  protocol = codes "dnp3";
  host = codes "h";
  port = none;
  unit_id = some 10;
  common_address = none;
  master_address = none;
}

abbrev two_points : List Point
two_points = harvest_collection runtime analog (harvest_collection runtime unheard_of [])

poll_report-Counts_example :
    ((poll_report shared outstation two_points).point_count
      ≡ length (poll_report shared outstation two_points).points)
    × ((poll_report shared outstation two_points).point_count ≤ 5000)
    × Distinct (poll_report shared outstation two_points).by_type
    × ((t : Text)
        → count_of t (poll_report shared outstation two_points).by_type
          ≡ length (of_type t (poll_report shared outstation two_points).points))
    × (total (poll_report shared outstation two_points).by_type
        ≡ (poll_report shared outstation two_points).point_count)
poll_report-Counts_example = poll_report-Counts shared outstation two_points

abbrev begin : State (Live ℕ)
begin = record { world = record { adapter = new_adapter; world = 0 }; calls = [] }

abbrev session_calls : List Call
unfolding codes
session_calls =
    import_library
    ∷ build_master_adapter (codes "h") 20000 (some 10) 1
    ∷ enable
    ∷ is_online
    ∷ is_online
    ∷ shutdown
    ∷ []

-- The adapter behind a session, with the points of its poll.
abbrev finished : List Point → ℕ → State (Live ℕ)
unfolding new_adapter
finished ps w = record {
  world = record { adapter = record new_adapter { dnpmaster = true; points = ps }; world = w };
  calls = session_calls;
}

poll_run :
    dnp3_integrity_poll runtime binding reactor (ok true) shared outstation begin
    ≡ some (ok (poll_report shared outstation two_points), finished two_points 5_300_000)
unfolding dnp3_integrity_poll answer interrupted dnp3_session build_dnp3_client finally_ translating
    wait_for wait_until wait_loop last_probe codes text_eq integrity_poll settle_scan settle_loop
    observe deliver_all deliver harvest_collection on_item new_adapter Adapter.enable attempt
    Adapter.is_online Adapter.channel_is_open Adapter.shutdown Shutdown.shutdown joined finished
    session_calls
poll_run = refl

-- Every endpoint's name stands for the outstation.
abbrev target_for : Resolver
target_for endpoint = ok outstation

tool_run :
    catching
      (dnp3_integrity_poll_tool target_for runtime binding reactor (ok true) shared none)
      begin
    ≡ some (ok (answered (poll_report shared outstation two_points)), finished two_points 5_300_000)
unfolding dnp3_integrity_poll_tool with_target
tool_run = ap (λ out. elim out [ none ↦ none | some (r, st') ↦ some (ok (caught r), st') ]) poll_run

dnp3_integrity_poll_tool-PolledOnline_example :
    (target : Target) × (target_for none ≡ ok target)
    × PolledOnline runtime binding reactor
        (ok true)
        shared
        target
        (poll_report shared outstation two_points)
        begin
        (finished two_points 5_300_000)
dnp3_integrity_poll_tool-PolledOnline_example =
    dnp3_integrity_poll_tool-PolledOnline target_for runtime binding reactor (ok true) shared
      catching catching-Honest none (poll_report shared outstation two_points) begin
      (finished two_points 5_300_000) tool_run

-- The channel closed before `online` was read, and was open again for `channel_open`.
abbrev seen : LinkReport
unfolding Adapter.link_status link_report
seen =
    link_report shared outstation false
      (record { channel_open = true; link_keepalive = none; iin_seen = false })

link_run :
    dnp3_link_status runtime binding flapping (ok true) shared outstation begin
    ≡ some (ok seen, finished (harvest_collection runtime analog []) 5_050_003)
unfolding dnp3_link_status answer interrupted dnp3_session build_dnp3_client finally_ translating
    wait_for wait_until wait_loop last_probe codes text_eq deliver_all deliver new_adapter
    Adapter.enable attempt Adapter.is_online Adapter.channel_is_open Adapter.shutdown
    Shutdown.shutdown joined harvest_collection on_item Adapter.link_status link_report seen
    finished session_calls
link_run = refl

dnp3_link_status-StayedOpen_example :
    (up : State (Live ℕ)) × CameOnline
      (dnp3_library runtime binding flapping (ok true))
      runtime
      outstation
      (pos 10_000_000)
      begin
      up
    × ((seen.online ≡ true)
        ↔ StayedOpen runtime binding
            (first_arrivals runtime binding flapping (ok true) shared outstation up))
    × ((seen.link_layer.channel_open ≡ true)
        ↔ StayedOpen runtime binding (
            first_arrivals runtime binding flapping (ok true) shared outstation up
            ++ second_arrivals runtime binding flapping (ok true) shared outstation up))
dnp3_link_status-StayedOpen_example =
    dnp3_link_status-StayedOpen runtime binding flapping (ok true) shared outstation seen begin
      (finished (harvest_collection runtime analog []) 5_050_003) link_run

reactor-OpensBy : OpensBy runtime binding reactor 50_000
unfolding deliver_all deliver
reactor-OpensBy = (
  (λ w a before late. elim (Bool-cases (ltb w 50_000)) [
    | inl early ↦ ground arith
    | inr open_now ↦
        let opened = before (ground arith) in
        elim (Bool-cases (ltb w 100_000)) [ inl again ↦ ground arith | inr quiet ↦ ground arith ]
  ]),
  (λ w a before late. before late),
)

dnp3_integrity_poll-Polled_example :
    (ps : List Point) × (st' : State (Live ℕ)) × (dnp3_integrity_poll runtime binding reactor
        (ok true)
        shared
        outstation
        begin
      ≡ some (ok (poll_report shared outstation ps), st'))
    × Polled runtime binding reactor 50_000 ps
unfolding codes text_eq outstation
dnp3_integrity_poll-Polled_example =
    dnp3_integrity_poll-Polled runtime binding reactor 50_000 shared outstation begin refl refl
      (record { sleep_takes = λ d w. omega arith }) (λ c. refl) refl (λ w. refl) (omega arith)
      (omega arith) reactor-OpensBy (λ w. omega arith)
