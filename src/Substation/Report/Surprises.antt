-- ===== src/Substation/Report/Surprises.antt =====
-- Classes of event lists whose verdict differs from what the documentation leads one to expect.
use industrial_aiops_energy.Prelude.{
  ℕ, ◌≤◌, ◌<◌, ◌≡◌, ◌≢◌, some, List, [], ◌∷◌, arith, head?, All, All-head?, Any, Any-imp_of_All,
  not-Any, ℤ,
}
use industrial_aiops_energy.Python.{Runtime}
use industrial_aiops_energy.Substation.Normalize.{Event}
use industrial_aiops_energy.Substation.Verdict.{Verdict, selective_trip, reference}
use industrial_aiops_energy.Substation.Verdict.BreakerFailure.{breaker_failure_iff}
use industrial_aiops_energy.Substation.Report.{analyse}
use industrial_aiops_energy.Substation.Report.Conclusions.{
  protections_of, trips_of, opens_of, selective_trip_iff,
}

-- A trip is a protection event.
trips-protections :
    (parsed : List Event) (trip : Event)
    → head? (trips_of parsed) ≡ some trip
    → protections_of parsed ≢ []
trips-protections [] trip h = cc
trips-protections (e ∷ parsed) trip h = ground (arith, trips-protections parsed trip)

reference-trip :
    (protections trips opens : List Event) (trip : Event)
    → head? trips ≡ some trip
    → reference trips protections opens ≡ some trip
unfolding reference
reference-trip protections [] opens trip h = cc
reference-trip protections (t ∷ trips) opens trip h = h

module _ (rt : Runtime) (window margin : ℤ) (parsed : List Event) (ignored : ℕ) (trip : Event)
    (tripped : head? (trips_of parsed) ≡ some trip) where
  -- Where all opens are on one ref and lie before the first trip, so that no breaker can have
  -- cleared it, the verdict is "selective_trip".
  pub selective_trip_of_early_open :
      (first : Event)
      → head? (opens_of parsed) ≡ some first
      → All (λ e. e.ref ≡ first.ref) (opens_of parsed)
      → All (λ e. e.ts < trip.ts) (opens_of parsed)
      → (analyse rt window margin (parsed, ignored)).verdict ≡ selective_trip
  selective_trip_of_early_open first opened same early =
      (selective_trip_iff rt window margin parsed ignored).1 (
        trips-protections parsed trip tripped,
        λ (t, e, own, elsewhere).
            not-Any (λ x before (other, after). ground arith) (opens_of parsed) early elsewhere,
        (first, opened, same),
        λ (earlier, f, r, h, after).
            let is_trip_event : earlier ≡ trip = cc (
              reference-trip (protections_of parsed) (trips_of parsed) (opens_of parsed) trip
                  tripped,
              r,
            ) in
            let before = All-head? (λ e. e.ts < trip.ts) (opens_of parsed) h early in ground arith,
      )

  -- Where no breaker that opened has the ref of the first trip, as when relays and breakers are
  -- named differently, and one of them opened at the trip or later, however promptly, the verdict
  -- is "breaker_failure".
  pub breaker_failure_of_other_refs :
      All (λ e. e.ref ≢ trip.ref) (opens_of parsed)
      → Any (λ e. trip.ts ≤ e.ts) (opens_of parsed)
      → (analyse rt window margin (parsed, ignored)).verdict ≡ Verdict.breaker_failure
  unfolding analyse
  breaker_failure_of_other_refs others after = (breaker_failure_iff rt _ _ _ _ _ _).1 (
    trip,
    tripped,
    not-Any (λ x other own. other own.0) (opens_of parsed) others,
    Any-imp_of_All (λ x other late. (other, late)) (opens_of parsed) others after,
  )
