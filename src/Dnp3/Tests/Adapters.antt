-- ===== src/Dnp3/Tests/Adapters.antt =====
-- The adapter of dnp3/driver.py with a toy reactor: its callbacks, a poll and a shutdown.
use industrial_aiops_energy.Prelude.{
  ℕ, ◌+◌, ◌≡◌, ◌↔◌, refl, arith, true, false, none, some, List, [], ◌∷◌, ◌++◌, codes, text_eq,
  starts_with, pos,
}
use industrial_aiops_energy.Python.{ok}
use industrial_aiops_energy.Toy.{runtime}
use industrial_aiops_energy.Waiting.{observe, settle_loop, settle_scan}
use industrial_aiops_energy.Waiting.Settle.{Settled}
use industrial_aiops_energy.Dnp3.Points.{
  collection_of, collection_group, find_group, find_name, group_type, measurement_type, on_item,
  remove_part, harvest_collection,
}
use industrial_aiops_energy.Dnp3.Adapter
use industrial_aiops_energy.Dnp3.Adapter.{
  Binding, Callback, on_state_change, on_keep_alive_failure, process, Happening, callback,
  enable_call, shutdown_call, deliver, attempt, new_adapter, run,
}
use industrial_aiops_energy.Dnp3.Adapter.Online.{LastReached, is_online_iff}
use industrial_aiops_energy.Dnp3.Poll.{Live, deliver_all, live_clock, count_points, integrity_poll}
use industrial_aiops_energy.Dnp3.Poll.Fresh.{Arrived, integrity_poll-Fresh}
use industrial_aiops_energy.Dnp3.Shutdown
use industrial_aiops_energy.Dnp3.Shutdown.{joined}
use industrial_aiops_energy.Dnp3.Shutdown.Waits.{Waited, shutdown_lem}
use industrial_aiops_energy.Dnp3.Tests.Samples.{binding, analog, unheard_of, reactor}

measurement_type-unmapped : measurement_type runtime 4 ≡ codes "group_" ++ 4 ∷ []
unfolding measurement_type find_name group_type
measurement_type-unmapped = refl

collection_of-analog : collection_of analog.class_name ≡ some 30
unfolding collection_of collection_group find_group remove_part starts_with codes text_eq
collection_of-analog = refl

abbrev history : List Happening
history =
    callback (on_state_change 1)
    ∷ enable_call
    ∷ callback (on_state_change 2)
    ∷ callback on_keep_alive_failure
    ∷ []

is_online_iff_example :
    (Adapter.is_online binding (run runtime binding history new_adapter) ≡ true)
    ↔ LastReached 2 history
is_online_iff_example = is_online_iff runtime binding history

is_online-open : Adapter.is_online binding (run runtime binding history new_adapter) ≡ true
unfolding Adapter.is_online Adapter.channel_is_open run deliver Adapter.enable attempt new_adapter
is_online-open = refl

-- `enable` alone does not make the adapter online.
is_online-enabled :
    Adapter.is_online binding (run runtime binding (enable_call ∷ []) new_adapter) ≡ false
unfolding Adapter.is_online Adapter.channel_is_open run deliver Adapter.enable attempt new_adapter
is_online-enabled = refl

abbrev live : Live ℕ
unfolding new_adapter
live = record {
  adapter = record new_adapter { dnpmaster = true; channel_state = some 2 };
  world = 60_000;
}

integrity_poll-Fresh_example :
    (l' : Live ℕ) × (cs : List Callback) × (integrity_poll runtime binding reactor
        (pos 300_000)
        live
      ≡ some (ok l'.adapter.points, l'))
    × Arrived reactor 60_000 cs l'.world
    × (l'.adapter ≡ deliver_all runtime binding cs (record live.adapter { points = [] }))
    × Settled (live_clock runtime binding reactor) count_points 200_000 50_000 (60_000 + 300_000) l'
unfolding live
integrity_poll-Fresh_example =
    integrity_poll-Fresh runtime binding reactor (record { sleep_takes = λ d w. omega arith })
      (pos 300_000) live refl refl refl

abbrev quick : Binding
quick = record {
  open_state = 2;
  has_soe_handler = true;
  has_master_application = false;
  has_scan_classes = true;
  raises = λ c. none;
}

-- With a limit of 1 us the poll counts once.
poll_once :
    integrity_poll runtime quick reactor (pos 1) live
    ≡ some (
      ok (harvest_collection runtime analog (harvest_collection runtime unheard_of [])),
      record {
        adapter = record live.adapter {
          points = harvest_collection runtime analog (harvest_collection runtime unheard_of []);
        };
        world = 110_000;
      },
    )
unfolding integrity_poll settle_scan settle_loop observe deliver_all deliver harvest_collection
    on_item new_adapter
poll_once = refl

abbrev enabled_live : Live ℕ
unfolding new_adapter
enabled_live = record {
  adapter = record new_adapter { manager = true; dnpmaster = true; enabled = true };
  world = 10;
}

shutdown_lem_example :
    (d : ℕ) × Waited runtime binding reactor (pos 5_000_000) enabled_live d
    × ((Shutdown.shutdown runtime binding reactor (pos 5_000_000) enabled_live).adapter.manager
        ≡ false)
    × ((Shutdown.shutdown runtime binding reactor (pos 5_000_000) enabled_live).adapter.enabled
        ≡ false)
    × ((Shutdown.shutdown runtime binding reactor
          (pos 1)
          (Shutdown.shutdown runtime binding reactor (pos 5_000_000) enabled_live)).world
        ≡ (Shutdown.shutdown runtime binding reactor (pos 5_000_000) enabled_live).world)
unfolding enabled_live
shutdown_lem_example =
    shutdown_lem runtime binding reactor (pos 5_000_000) (pos 1) enabled_live refl

-- A callback that arrives while the shutdown waits makes the adapter online again.
online_again :
    Adapter.is_online binding
      (Shutdown.shutdown runtime binding reactor (pos 5_000_000) enabled_live).adapter
    ≡ true
unfolding Shutdown.shutdown joined Adapter.is_online Adapter.channel_is_open Adapter.shutdown
    deliver_all deliver enabled_live
online_again = refl
