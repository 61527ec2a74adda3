-- ===== src/Substation/Tests/Inputs.antt =====
-- The theorems on reading and sorting the injected list at concrete lists (substation.py).
use industrial_aiops_energy.Prelude.{◌≡◌, inl, refl, List, [], ◌∷◌, Any, ◌++◌, codes, pos}
use industrial_aiops_energy.Python.{
  Value, array, no_items, item, Items, Result, ok, raise, overflow_error, other,
}
use industrial_aiops_energy.Substation.Events.{protection_trip, breaker_open}
use industrial_aiops_energy.Substation.Normalize.{Event, collect, normalize}
use industrial_aiops_energy.Substation.Report.{analyse, substation_event_analysis, Analysis}
use industrial_aiops_energy.Substation.Normalize.Order.{IsSorted}
use industrial_aiops_energy.Substation.Normalize.Accounting.{normalize-IsSorted}
use industrial_aiops_energy.Substation.Normalize.Overflow.{Overflows, Settles, normalize-Settles}
use industrial_aiops_energy.Substation.Report.Input.{
  one_more_ignored, Accounts, substation_event_analysis-skip, substation_event_analysis-Accounts,
}
use industrial_aiops_energy.Toy.{runtime}
use industrial_aiops_energy.Substation.Tests.Samples.{entry, run, prompt_trip, ev}

abbrev unread : Value
unfolding codes
unread = entry (codes "R3") (codes "lockout") (codes "!")

abbrev two_entries : List Value
unfolding codes
two_entries =
    entry (codes "R1") (codes "protection_trip") (codes "0Z")
    ∷ entry (codes "R1") (codes "breaker_open") (codes "80000Z")
    ∷ []

abbrev to_items : List Value → Items
to_items [] = no_items
to_items (v ∷ vs) = item v (to_items vs)

substation_event_analysis-skip_example :
    substation_event_analysis runtime
      (array (to_items (two_entries ++ unread ∷ [])))
      (pos 250000)
      (pos 500000)
    ≡ one_more_ignored (
        substation_event_analysis runtime
          (array (to_items (two_entries ++ [])))
          (pos 250000)
          (pos 500000))
unfolding run
substation_event_analysis-skip_example =
    substation_event_analysis-skip runtime (pos 250000) (pos 500000)
      (array (to_items (two_entries ++ unread ∷ []))) (array (to_items (two_entries ++ [])))
      two_entries [] unread refl refl (inl refl)

abbrev answer : Result Analysis → Analysis → Analysis
answer (ok a) d = a
answer (raise e) d = d

-- The answer to `prompt_trip`, from the parts that the run computes.
abbrev prompt_answer : Analysis
unfolding run
prompt_answer =
    analyse runtime (pos 250000) (pos 500000)
      (ev "R1" 0 protection_trip ∷ ev "R1" 80000 breaker_open ∷ [], 1)

prompt_trip_answer :
    substation_event_analysis runtime prompt_trip (pos 250000) (pos 500000) ≡ ok prompt_answer
unfolding run
prompt_trip_answer = refl

substation_event_analysis-Accounts_example : Accounts 3 prompt_answer
unfolding run
substation_event_analysis-Accounts_example =
    substation_event_analysis-Accounts runtime (pos 250000) (pos 500000) prompt_trip prompt_answer
      prompt_trip_answer

abbrev backwards : List Value
unfolding codes
backwards =
    entry (codes "R1") (codes "breaker_open") (codes "80000Z")
    ∷ entry (codes "R1") (codes "protection_trip") (codes "0Z")
    ∷ []

abbrev in_order : List Event
in_order = ev "R1" 0 protection_trip ∷ ev "R1" 80000 breaker_open ∷ []

normalize-backwards : normalize runtime backwards ≡ ok (in_order, 0)
unfolding run
normalize-backwards = refl

normalize-IsSorted_example : IsSorted in_order
normalize-IsSorted_example = normalize-IsSorted runtime backwards normalize-backwards

abbrev ancient : List Value
unfolding codes
ancient = entry (codes "R1") (codes "lockout") (codes "315537897600000000Z") ∷ []

normalize-Settles_example :
    Settles (Any Overflows (collect runtime ancient).0) (normalize runtime ancient)
normalize-Settles_example = normalize-Settles runtime ancient

-- This run is one that raises.
normalize-ancient :
    normalize runtime ancient ≡ raise (other overflow_error (codes "date value out of range"))
unfolding run
normalize-ancient = refl
