-- ===== src/Dnp3/Tests/Samples.antt =====
-- A toy reactor for the DNP3 adapter of dnp3/driver.py, which opens the channel and delivers one
-- collection.
use industrial_aiops_energy.Prelude.{
  ℕ, ◌+◌, ◌==◌, true, none, some, [], ◌∷◌, codes, ltb, if◌then◌else◌,
}
use industrial_aiops_energy.Python.{text, bool}
use industrial_aiops_energy.Dnp3.Points.{Collection}
use industrial_aiops_energy.Dnp3.Adapter.{Binding, on_state_change, process}
use industrial_aiops_energy.Dnp3.Poll.{Reactor}

abbrev pub binding : Binding
binding = record {
  open_state = 2;
  has_soe_handler = true;
  has_master_application = true;
  has_scan_classes = true;
  raises = λ c. none;
}

abbrev pub analog : Collection
unfolding codes
analog = record {
  class_name = codes "ICollectionIndexedAnalog";
  items =
      (record {
        index = some 4;
        meas = some (record { value = some (bool true); flags = none; time = some (text []) });
      })
      ∷ [];
}

abbrev pub unheard_of : Collection
unfolding codes
unheard_of = record {
  class_name = codes "Analogs";
  items = (record { index = none; meas = none }) ∷ [];
}

-- The channel is open from 50 ms on; the points arrive within the scan and once after it. A shutdown
-- of the manager blocks for ever.
abbrev pub reactor : Reactor ℕ
reactor = record {
  clock = record { monotonic = λ w. w; sleep = λ d w. w + d };
  during_sleep = λ d w.
      if ltb w 50_000
      then on_state_change 2 ∷ []
      else if ltb w 100_000
      then process analog ∷ []
      else [];
  scan = λ w. (none, w);
  during_scan = λ w. process unheard_of ∷ [];
  between = λ w. ([], w);
  shutdown_takes = λ w. none;
}

-- The same, but behind the probe that finds the channel open it closes, and opens again before the
-- next call.
abbrev pub flapping : Reactor ℕ
flapping = record reactor {
  between = λ w.
      if w == 50_000
      then ([], w + 1)
      else if w == 50_001
      then (on_state_change 0 ∷ [], w + 1)
      else if w == 50_002
      then (on_state_change 2 ∷ [], w + 1)
      else ([], w);
}
