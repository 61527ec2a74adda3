-- ===== src/Substation/Verdict.antt =====
-- substation.py, `_classify_verdict` and what it asks of the sorted events.
pub mod Cases
pub mod BreakerFailure
-- pub mod Selective
use industrial_aiops_energy.Prelude.{
  ℕ, leb, ltb, ◌==◌, Bool, true, false, not, ◌&&◌, Option, none, some, List, [], ◌∷◌, ◌++◌, head?,
  Text, codes, text_eq, ℤ, pos, sub_ℕ, leb_ℤ, ltb_ℤ, if◌then◌else◌,
}
use industrial_aiops_energy.Python.{Runtime}
use industrial_aiops_energy.Substation.Normalize.{Event}

pub data Verdict : Type 0 where
  insufficient breaker_failure backup_operation breaker_operation_no_protection : Verdict
  selective_trip : Verdict

pub data Status : Type 0 where
  no_operation breaker_failure non_selective no_protection_record selective inconclusive : Status

-- The tuple (verdict, status, detail).
pub record Decision : Type 0 where
  pub verdict : Verdict
  pub status : Status
  pub detail : Text

-- (later.ts - earlier.ts).total_seconds(), in microseconds
abbrev pub delay : Event → Event → ℤ
delay later earlier = sub_ℕ later.ts earlier.ts

-- _local_open_within
unfoldable pub local_open_within : Event → List Event → ℤ → Bool
local_open_within trip [] window = false
local_open_within trip (event ∷ opens) window =
    if text_eq event.ref trip.ref
      && (leb_ℤ (pos 0) (delay event trip) && leb_ℤ (delay event trip) window)
    then true
    else local_open_within trip opens window

-- _first_remote_open
unfoldable pub first_remote_open : Event → List Event → Option Event
first_remote_open trip [] = none
first_remote_open trip (event ∷ opens) =
    if not (text_eq event.ref trip.ref) && leb trip.ts event.ts
    then some event
    else first_remote_open trip opens

-- The two nested tests on `first_trip`: the trip and the remote breaker of a breaker failure.
unfoldable pub failed_breaker : Option Event → List Event → ℤ → Option (Event × Event)
failed_breaker none opens window = none
failed_breaker (some trip) opens window =
    if local_open_within trip opens window
    then none
    else elim (first_remote_open trip opens) [ none ↦ none | some remote ↦ some (trip, remote) ]

-- first_trip or (protections[0] if protections else opens[0])
unfoldable pub reference : List Event → List Event → List Event → Option Event
reference (trip ∷ trips) protections opens = some trip
reference [] (protection ∷ protections) opens = some protection
reference [] [] opens = head? opens

-- opens and (opens[0].ts - reference.ts) > margin: the first open and its delay
unfoldable pub late_open : Option Event → List Event → ℤ → Option (Event × ℤ)
late_open (some earlier) (first ∷ opens) margin =
    if ltb_ℤ margin (delay first earlier) then some (first, delay first earlier) else none
late_open _ _ _ = none

module _ (rt : Runtime) where
  -- _breaker_failure_detail
  unfoldable pub breaker_failure_detail : Event → Event → ℤ → Text
  unfolding codes
  breaker_failure_detail trip remote window =
      codes "Protection tripped on "
      ++ (trip.ref
          ++ (codes " but its own breaker did not open within the "
              ++ (rt.fixed3 window
                  ++ (codes "s breaker-failure window; breaker "
                      ++ (remote.ref
                          ++ (codes " opened "
                              ++ (rt.fixed3 (delay remote trip)
                                  ++ codes
                                      "s later — breaker-failure backup operated (wider outage).")))))))

  unfoldable pub spread_detail : ℕ → Text
  unfolding codes
  spread_detail open_count =
      rt.decimal open_count
      ++ codes
          " breakers opened — the outage spread beyond one zone; backup/adjacent protection operated (non-selective)."

  unfoldable pub late_detail : Event → ℤ → ℤ → Text
  unfolding codes
  late_detail first after margin =
      codes "Breaker "
      ++ (first.ref
          ++ (codes " opened "
              ++ (rt.fixed3 after
                  ++ (codes "s after the first protection event — beyond the "
                      ++ (rt.fixed3 margin
                          ++ codes
                              "s backup margin, so a slow/upstream time-graded backup cleared it (non-selective).")))))

-- The text around opens[0].ref, which is empty where no breaker opened.
unfoldable pub first_ref : List Event → Text
first_ref [] = []
first_ref (e ∷ es) = e.ref

unfoldable pub no_protection_detail : List Event → Text
unfolding codes first_ref
no_protection_detail opens =
    codes "Breaker "
    ++ (first_ref opens
        ++ codes
            " opened but no protection pickup/trip was recorded in the SOE — a breaker operation without a protection record (manual/local open, or the relay events are missing). Cannot confirm selective protection coordination; check the relay targets.")

unfoldable pub selective_detail : List Event → Text
unfolding codes first_ref
selective_detail opens =
    codes "One protection operation cleared via one breaker ("
    ++ (first_ref opens
        ++ codes
            ") within the coordination window — the fault was contained to a single zone (selective).")

unfoldable pub no_operation_detail : Text
unfolding codes
no_operation_detail =
    codes "No protection pickup/trip and no breaker-open events present — nothing to coordinate."

unfoldable pub inconclusive_detail : Text
unfolding codes
inconclusive_detail =
    codes
      "Protection activity present but no confirmed breaker interruption — inconclusive; check the breaker-status points in the SOE."

abbrev pub is_empty : List Event → Bool
is_empty [] = true
is_empty (e ∷ es) = false

-- _classify_verdict
unfoldable pub classify_verdict :
    Runtime → List Event → List Event → List Event → ℕ → ℤ → ℤ → Decision
classify_verdict rt protections trips opens open_count bf_window margin =
    if is_empty protections && is_empty opens
    then record { verdict = insufficient; status = no_operation; detail = no_operation_detail }
    else elim (failed_breaker (head? trips) opens bf_window) [
      | some (trip, remote) ↦ record {
        verdict = Verdict.breaker_failure;
        status = Status.breaker_failure;
        detail = breaker_failure_detail rt trip remote bf_window;
      }
      | none ↦
          if ltb 1 open_count
          then record {
            verdict = backup_operation;
            status = non_selective;
            detail = spread_detail rt open_count;
          }
          else elim (late_open (reference trips protections opens) opens margin) [
            | some (first, after) ↦ record {
              verdict = backup_operation;
              status = non_selective;
              detail = late_detail rt first after margin;
            }
            | none ↦
                if open_count == 1
                then (if is_empty protections
                    then record {
                      verdict = breaker_operation_no_protection;
                      status = no_protection_record;
                      detail = no_protection_detail opens;
                    }
                    else record {
                      verdict = selective_trip;
                      status = selective;
                      detail = selective_detail opens;
                    })
                else record {
                  verdict = insufficient;
                  status = inconclusive;
                  detail = inconclusive_detail;
                }
          ]
    ]
