-- ===== src/Substation/Verdict/BreakerFailure.antt =====
-- When the analysis speaks of a breaker failure.
use industrial_aiops_energy.Prelude.{
  ℕ, ◌≤◌, ◌≡◌, ◌≢◌, ◌↔◌, inl, inr, refl, true, none, some, List, [], ◌∷◌, arith, head?, All,
  All-imp, Any, text_eq_iff, Bool-cases, not, ◌&&◌, text_eq, leb, ℤ, leb_ℤ,
}
use industrial_aiops_energy.Python.{Runtime}
use industrial_aiops_energy.Substation.Normalize.{Event}
use industrial_aiops_energy.Substation.Normalize.Order.{IsSorted}
use industrial_aiops_energy.Substation.Verdict.{
  Verdict, delay, local_open_within, first_remote_open, failed_breaker, classify_verdict,
}

-- The tripped ref's own breaker opened in the window behind the trip.
abbrev pub OpensInWindow : Event → ℤ → Event → Type 0
OpensInWindow trip window e =
    (e.ref ≡ trip.ref) × (trip.ts ≤ e.ts) × (leb_ℤ (delay e trip) window ≡ true)

-- Another breaker opened, at the trip or behind it.
abbrev pub OpensElsewhere : Event → Event → Type 0
OpensElsewhere trip e = (e.ref ≢ trip.ref) × (trip.ts ≤ e.ts)

module _ (trip : Event) where
  local_open_within_sound :
      (opens : List Event) (window : ℤ)
      → local_open_within trip opens window ≡ true
      → Any (OpensInWindow trip window) opens
  unfolding local_open_within
  local_open_within_sound [] window h = cc
  local_open_within_sound (e ∷ opens) window h =
      ground (arith, text_eq_iff e.ref trip.ref, local_open_within_sound opens window)

  local_open_within_complete :
      (opens : List Event) (window : ℤ)
      → Any (OpensInWindow trip window) opens
      → local_open_within trip opens window ≡ true
  unfolding local_open_within
  local_open_within_complete [] window h = absurd h
  local_open_within_complete (e ∷ opens) window h =
      ground (arith, text_eq_iff e.ref trip.ref, local_open_within_complete opens window)

  first_remote_open_sound :
      (opens : List Event) (r : Event)
      → first_remote_open trip opens ≡ some r
      → OpensElsewhere trip r × Any (λ e. e ≡ r) opens
  unfolding first_remote_open
  first_remote_open_sound [] r h = cc
  first_remote_open_sound (e ∷ opens) r h =
      ground (arith, text_eq_iff e.ref trip.ref, first_remote_open_sound opens r)

  first_remote_open_some :
      (opens : List Event) → first_remote_open trip opens ≢ none → Any (OpensElsewhere trip) opens
  unfolding first_remote_open
  first_remote_open_some [] h = absurd (h refl)
  first_remote_open_some (e ∷ opens) h =
      ground (arith, text_eq_iff e.ref trip.ref, first_remote_open_some opens)

  first_remote_open_complete :
      (opens : List Event) → Any (OpensElsewhere trip) opens → first_remote_open trip opens ≢ none
  unfolding first_remote_open
  first_remote_open_complete [] h = absurd h
  first_remote_open_complete (e ∷ opens) h =
      ground (arith, text_eq_iff e.ref trip.ref, first_remote_open_complete opens)

  -- Of the later opens elsewhere the one that is named is the first in time.
  first_remote_open_least :
      (opens : List Event) (r : Event)
      → IsSorted opens
      → first_remote_open trip opens ≡ some r
      → All (λ e. OpensElsewhere trip e → r.ts ≤ e.ts) opens
  unfolding first_remote_open
  first_remote_open_least [] r sorted h = tt
  first_remote_open_least (e ∷ opens) r sorted h =
      elim (Bool-cases (not (text_eq e.ref trip.ref) && leb trip.ts e.ts)) [
        | inl found ↦
            let same : e ≡ r = ground arith in
            (λ _. ground arith, All-imp (λ x later _. ground arith) opens sorted.0)
        | inr other ↦ (
          ground (arith, text_eq_iff e.ref trip.ref),
          first_remote_open_least opens r sorted.1 (ground arith),
        )
      ]

-- The first trip was not followed by its own breaker in the window, and a breaker elsewhere opened
-- at the trip or behind it.
abbrev pub BreakerFailed : List Event → List Event → ℤ → Type 0
BreakerFailed trips opens window =
    (trip : Event) × (head? trips ≡ some trip)
    × ¬ Any (OpensInWindow trip window) opens
    × Any (OpensElsewhere trip) opens

pub failed_breaker_sound :
    (trips opens : List Event) (window : ℤ)
    → failed_breaker (head? trips) opens window ≢ none
    → BreakerFailed trips opens window
unfolding failed_breaker
failed_breaker_sound [] opens window h = absurd (h refl)
failed_breaker_sound (trip ∷ trips) opens window h = (
  trip,
  refl,
  λ own. ground (arith, local_open_within_complete trip opens window),
  first_remote_open_some trip opens (ground arith),
)

pub failed_breaker_complete :
    (trips opens : List Event) (window : ℤ)
    → BreakerFailed trips opens window
    → failed_breaker (head? trips) opens window ≢ none
unfolding failed_breaker
failed_breaker_complete [] opens window (trip, e, _, _) = cc
failed_breaker_complete (t ∷ trips) opens window (trip, e, own, elsewhere) =
    ground (arith, local_open_within_sound trip opens window, first_remote_open_complete trip opens)

-- The verdict is "breaker_failure" exactly when the first trip was not followed by the opening of
-- its own ref's breaker within the window, and the breaker of another ref opened at the time of
-- that trip or later. The number of breakers and the margin play no part in it.
pub breaker_failure_iff :
    (rt : Runtime) (protections trips opens : List Event) (n : ℕ) (window margin : ℤ)
    → ((classify_verdict rt protections trips opens n window margin).verdict
        ≡ Verdict.breaker_failure)
      ↔ BreakerFailed trips opens window
unfolding classify_verdict
breaker_failure_iff rt protections trips opens n window margin = (
  λ failed. failed_breaker_sound trips opens window (λ absent. ground arith),
  λ b. let found = failed_breaker_complete trips opens window b in ground arith,
)
