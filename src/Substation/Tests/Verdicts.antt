-- ===== src/Substation/Tests/Verdicts.antt =====
-- The theorems on verdicts and citations at concrete events (substation.py).
use industrial_aiops_energy.Prelude.{
  Text, ◌<◌, ◌⊎◌, ◌≤◌, ◌≡◌, ◌↔◌, inl, refl, true, List, [], ◌∷◌, arith, length, pos,
}
use industrial_aiops_energy.Substation.Events.{protection_trip, breaker_open, lockout}
use industrial_aiops_energy.Substation.Normalize.{Event}
use industrial_aiops_energy.Substation.Verdict.{
  Verdict, no_protection_record, selective_trip, breaker_operation_no_protection, classify_verdict,
}
use industrial_aiops_energy.Substation.Report.{
  seen_opens, mem_text, affected_refs, affected_from, max_list, analyse,
}
use industrial_aiops_energy.Substation.Verdict.BreakerFailure.{BreakerFailed, breaker_failure_iff}
use industrial_aiops_energy.Substation.Verdict.Cases.{Outcome, classify_verdict_iff}
use industrial_aiops_energy.Substation.Report.Opens.{
  Distinct, refs_of, time_of, first_time, seen_opens_lem,
}
use industrial_aiops_energy.Substation.Report.Affected.{has_outage, affected_refs_lem}
use industrial_aiops_energy.Substation.Report.Conclusions.{Selective, selective_trip_iff}
use industrial_aiops_energy.Substation.Report.Surprises.{
  selective_trip_of_early_open, breaker_failure_of_other_refs,
}
use industrial_aiops_energy.Toy.{runtime}
use industrial_aiops_energy.Substation.Tests.Samples.{run, ev}

-- The trip of R1 at 0, its breaker at 80 ms, a lockout of R2 at 90 ms.
abbrev cleared : List Event
cleared = ev "R1" 0 protection_trip ∷ ev "R1" 80000 breaker_open ∷ ev "R2" 90000 lockout ∷ []

selective_trip_iff_example :
    ((analyse runtime (pos 250000) (pos 500000) (cleared, 0)).verdict ≡ selective_trip)
    ↔ Selective cleared (pos 250000) (pos 500000)
selective_trip_iff_example = selective_trip_iff runtime (pos 250000) (pos 500000) cleared 0

abbrev trip_one : Event
trip_one = ev "R1" 0 protection_trip

abbrev far_open : Event
far_open = ev "R9" 300000 breaker_open

breaker_failure_iff_example :
    ((classify_verdict runtime
        (trip_one ∷ [])
        (trip_one ∷ [])
        (far_open ∷ [])
        1
        (pos 250000)
        (pos 500000)).verdict
      ≡ Verdict.breaker_failure)
    ↔ BreakerFailed (trip_one ∷ []) (far_open ∷ []) (pos 250000)
breaker_failure_iff_example =
    breaker_failure_iff runtime (trip_one ∷ []) (trip_one ∷ []) (far_open ∷ []) 1 (pos 250000)
      (pos 500000)

classify_verdict_iff_example :
    Outcome [] []
      (far_open ∷ [])
      1
      (pos 250000)
      (pos 500000)
      breaker_operation_no_protection
      no_protection_record
    ↔ (((classify_verdict runtime [] [] (far_open ∷ []) 1 (pos 250000) (pos 500000)).verdict
          ≡ breaker_operation_no_protection)
        × ((classify_verdict runtime [] [] (far_open ∷ []) 1 (pos 250000) (pos 500000)).status
            ≡ no_protection_record))
classify_verdict_iff_example =
    classify_verdict_iff runtime [] [] (far_open ∷ []) 1 (pos 250000) (pos 500000)
      breaker_operation_no_protection no_protection_record

abbrev two_opens : List Event
two_opens = ev "R1" 5 breaker_open ∷ ev "R2" 6 breaker_open ∷ ev "R1" 7 breaker_open ∷ []

seen_opens_lem_example :
    Distinct (refs_of (seen_opens [] two_opens))
    × (time_of (b'R' ∷ b'1' ∷ []) (seen_opens [] two_opens)
        ≡ first_time (b'R' ∷ b'1' ∷ []) two_opens)
seen_opens_lem_example = seen_opens_lem two_opens (b'R' ∷ b'1' ∷ [])

affected_refs_lem_example :
    Distinct (affected_refs cleared)
    × (length (affected_refs cleared) ≤ max_list)
    × ((r : Text) → mem_text r (affected_refs cleared) ≡ true → has_outage r cleared ≡ true)
    × ((max_list < length (affected_from [] cleared))
        ⊎ ((r : Text) → mem_text r (affected_refs cleared) ≡ has_outage r cleared))
affected_refs_lem_example = affected_refs_lem cleared

-- BK1 was opened by hand a minute before the relay R1 tripped, and nothing opened afterwards.
abbrev opened_before : List Event
opened_before = ev "BK1" 0 breaker_open ∷ ev "R1" 60000000 protection_trip ∷ []

selective_trip_of_early_open_example :
    (analyse runtime (pos 250000) (pos 500000) (opened_before, 0)).verdict ≡ selective_trip
unfolding run
selective_trip_of_early_open_example =
    selective_trip_of_early_open runtime (pos 250000) (pos 500000) opened_before 0
      (ev "R1" 60000000 protection_trip) refl (ev "BK1" 0 breaker_open) refl (refl, tt)
      (omega arith, tt)

-- The documented example: relay R1 trips, and breaker BK1 opens 80 ms later.
abbrev documented : List Event
documented = ev "R1" 0 protection_trip ∷ ev "BK1" 80000 breaker_open ∷ []

breaker_failure_of_other_refs_example :
    (analyse runtime (pos 250000) (pos 500000) (documented, 0)).verdict ≡ Verdict.breaker_failure
unfolding run
breaker_failure_of_other_refs_example =
    breaker_failure_of_other_refs runtime (pos 250000) (pos 500000) documented 0
      (ev "R1" 0 protection_trip) refl ((λ e. cc), tt) (inl (omega arith))
