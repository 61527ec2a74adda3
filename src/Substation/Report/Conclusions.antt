-- ===== src/Substation/Report/Conclusions.antt =====
-- What the answer of `substation_event_analysis` says of the events that it was given.
use industrial_aiops_energy.Prelude.{
  ℕ, ◌≡◌, ◌≢◌, ◌↔◌, refl, sym, ◌∙◌, some, List, [], head?, filter, All, length, length-map, ℤ,
}
use industrial_aiops_energy.Python.{Runtime}
use industrial_aiops_energy.Substation.Normalize.{Event}
use industrial_aiops_energy.Substation.Verdict.{Verdict, selective_trip, Status, selective}
use industrial_aiops_energy.Substation.Verdict.BreakerFailure.{BreakerFailed}
use industrial_aiops_energy.Substation.Verdict.Cases.{
  IsLate, Outcome, idle, failed, spread, late, unprotected, contained, unconfirmed,
  classify_verdict_iff,
}
use industrial_aiops_energy.Substation.Report.{
  is_protection, is_trip, is_open, distinct_opens, seen_opens, max_zero, analyse,
}
use industrial_aiops_energy.Substation.Report.Opens.{one_breaker_iff}

length-distinct_opens :
    (rt : Runtime) (opens : List Event)
    → length (distinct_opens rt opens) ≡ length (seen_opens [] opens)
unfolding distinct_opens
length-distinct_opens rt opens = length-map _ _

-- Some breaker opened, and every open is on its ref.
abbrev pub OneBreaker : List Event → Type 0
OneBreaker opens = (first : Event) × (head? opens ≡ some first) × All (λ e. e.ref ≡ first.ref) opens

abbrev pub protections_of : List Event → List Event
protections_of parsed = filter is_protection parsed

abbrev pub trips_of : List Event → List Event
trips_of parsed = filter is_trip parsed

abbrev pub opens_of : List Event → List Event
opens_of parsed = filter is_open parsed

-- What a selective trip means: one breaker opened, on one ref; a pickup or a trip was recorded; the
-- first trip shows no breaker failure; and the first open is not late.
abbrev pub Selective : List Event → ℤ → ℤ → Type 0
Selective parsed window margin =
    (protections_of parsed ≢ [])
    × (¬ BreakerFailed (trips_of parsed) (opens_of parsed) (max_zero window))
    × OneBreaker (opens_of parsed)
    × (¬ IsLate (protections_of parsed) (trips_of parsed) (opens_of parsed) (max_zero margin))

module _ (protections trips opens : List Event) (n : ℕ) (window margin : ℤ) where
  Outcome-selective :
      {v : Verdict} {s : Status}
      → Outcome protections trips opens n window margin v s
      → v ≡ selective_trip
      → (protections ≢ [])
        × (¬ BreakerFailed trips opens window)
        × (n ≡ 1)
        × (¬ IsLate protections trips opens margin)
  Outcome-selective (idle _ _) e = cc
  Outcome-selective (failed _) e = cc
  Outcome-selective (spread _ _ _) e = cc
  Outcome-selective (late _ _ _) e = cc
  Outcome-selective (unprotected _ _ _ _ _) e = cc
  Outcome-selective (contained p b l d) e = (p, b, l, d)
  Outcome-selective (unconfirmed _ _ _ _) e = cc

-- The analysis speaks of a selective trip exactly when one breaker opened, a protection event was
-- recorded, the first trip shows no breaker failure, and the first open is not later than the
-- margin behind the first trip or else the first pickup.
pub selective_trip_iff :
    (rt : Runtime) (window margin : ℤ) (parsed : List Event) (ignored : ℕ)
    → ((analyse rt window margin (parsed, ignored)).verdict ≡ selective_trip)
      ↔ Selective parsed window margin
unfolding analyse
selective_trip_iff rt window margin parsed ignored =
    let opens = opens_of parsed in
    let table =
      classify_verdict_iff rt (protections_of parsed) (trips_of parsed) opens
        (length (distinct_opens rt opens)) (max_zero window) (max_zero margin) in
    (
      λ e.
          let (p, b, l, d) = Outcome-selective _ _ _ _ _ _ ((table _ _).1 (refl, refl)) e in
          (p, b, (one_breaker_iff opens).0 (sym (length-distinct_opens rt opens) ∙ l), d),
      λ (p, b, l, d).
          ((table selective_trip selective).0
            (contained p b (length-distinct_opens rt opens ∙ (one_breaker_iff opens).1 l) d)).0,
    )
