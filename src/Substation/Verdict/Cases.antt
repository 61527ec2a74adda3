-- ===== src/Substation/Verdict/Cases.antt =====
-- The verdict and the coordination status, against a table of their conditions.
use mathlib.Core.Path.{subst₂}
use industrial_aiops_energy.Prelude.{
  ℕ, ◌≤◌, ◌<◌, ◌≡◌, ◌≢◌, ◌↔◌, refl, sym, nil_cases, small_cases, true, none, some, List, [], ◌∷◌,
  arith, head?, Option, Option-cases, inl, inr, ℤ, ltb_ℤ,
}
use industrial_aiops_energy.Python.{Runtime}
use industrial_aiops_energy.Substation.Normalize.{Event}
use industrial_aiops_energy.Substation.Verdict.{
  Decision, Verdict, insufficient, backup_operation, breaker_operation_no_protection,
  selective_trip, Status, no_operation, non_selective, no_protection_record, selective,
  inconclusive, delay, failed_breaker, reference, late_open, classify_verdict,
}
use industrial_aiops_energy.Substation.Verdict.BreakerFailure.{
  BreakerFailed, failed_breaker_sound, failed_breaker_complete,
}

-- The first open came more than the margin after the first trip, or without one the first
-- protection event, or without one the first open itself.
abbrev pub IsLate : List Event → List Event → List Event → ℤ → Type 0
IsLate protections trips opens margin =
    (earlier : Event) × (first : Event) × (reference trips protections opens ≡ some earlier)
    × (head? opens ≡ some first)
    × (ltb_ℤ margin (delay first earlier) ≡ true)

late_open_sound :
    (earlier : Option Event) (opens : List Event) (margin : ℤ)
    → late_open earlier opens margin ≢ none
    → (e : Event) × (first : Event) × (earlier ≡ some e)
      × (head? opens ≡ some first)
      × (ltb_ℤ margin (delay first e) ≡ true)
unfolding late_open
late_open_sound none opens margin h = absurd (h refl)
late_open_sound (some e) [] margin h = absurd (h refl)
late_open_sound (some e) (first ∷ opens) margin h = (e, first, refl, refl, ground arith)

late_open_complete :
    (protections trips opens : List Event) (margin : ℤ)
    → IsLate protections trips opens margin
    → late_open (reference trips protections opens) opens margin ≢ none
unfolding late_open
late_open_complete protections trips opens margin (earlier, first, e, h, after) = ground arith

failed_breaker-none :
    (trips opens : List Event) (window : ℤ)
    → ¬ BreakerFailed trips opens window
    → failed_breaker (head? trips) opens window ≡ none
failed_breaker-none trips opens window b =
    elim (Option-cases (failed_breaker (head? trips) opens window)) [
      | inl absent ↦ absent
      | inr (pair, found) ↦ absurd (b (failed_breaker_sound trips opens window (λ e. cc)))
    ]

late_open-none :
    (protections trips opens : List Event) (margin : ℤ)
    → ¬ IsLate protections trips opens margin
    → late_open (reference trips protections opens) opens margin ≡ none
late_open-none protections trips opens margin b =
    elim (Option-cases (late_open (reference trips protections opens) opens margin)) [
      | inl absent ↦ absent
      | inr (pair, found) ↦ absurd (b (late_open_sound _ opens margin (λ e. cc)))
    ]

module _ (protections trips opens : List Event) (n : ℕ) (window margin : ℤ) where
  -- The table: each verdict and status with its condition.
  pub data Outcome : Verdict → Status → Type 0 where
    idle : protections ≡ [] → opens ≡ [] → Outcome insufficient no_operation
    failed :
        BreakerFailed trips opens window → Outcome Verdict.breaker_failure Status.breaker_failure
    spread :
        ¬ ((protections ≡ []) × (opens ≡ []))
        → ¬ BreakerFailed trips opens window
        → 1 < n
        → Outcome backup_operation non_selective
    late :
        ¬ BreakerFailed trips opens window
        → n ≤ 1
        → IsLate protections trips opens margin
        → Outcome backup_operation non_selective
    unprotected :
        protections ≡ []
        → opens ≢ []
        → ¬ BreakerFailed trips opens window
        → n ≡ 1
        → ¬ IsLate protections trips opens margin
        → Outcome breaker_operation_no_protection no_protection_record
    contained :
        protections ≢ []
        → ¬ BreakerFailed trips opens window
        → n ≡ 1
        → ¬ IsLate protections trips opens margin
        → Outcome selective_trip selective
    unconfirmed :
        ¬ ((protections ≡ []) × (opens ≡ []))
        → ¬ BreakerFailed trips opens window
        → n ≡ 0
        → ¬ IsLate protections trips opens margin
        → Outcome insufficient inconclusive

module _ (rt : Runtime) (protections trips opens : List Event) (n : ℕ) (window margin : ℤ) where
  abbrev decided : Decision
  decided = classify_verdict rt protections trips opens n window margin

  -- Whatever row of the table holds, its verdict and its status are those that the code gives.
  Outcome-complete :
      {v : Verdict} {s : Status}
      → Outcome protections trips opens n window margin v s
      → (decided.verdict ≡ v) × (decided.status ≡ s)
  unfolding classify_verdict
  Outcome-complete (idle p o) = ground arith
  Outcome-complete (failed b) = let e = failed_breaker_complete trips opens window b in ground arith
  Outcome-complete (spread a b l) = let e = failed_breaker-none trips opens window b in ground arith
  Outcome-complete (late b l d) =
      let e = failed_breaker-none trips opens window b in
      let f = late_open_complete protections trips opens margin d in ground arith
  Outcome-complete (unprotected p o b l d) =
      let e = failed_breaker-none trips opens window b in
      let f = late_open-none protections trips opens margin d in ground arith
  Outcome-complete (contained p b l d) =
      let e = failed_breaker-none trips opens window b in
      let f = late_open-none protections trips opens margin d in ground arith
  Outcome-complete (unconfirmed a b l d) =
      let e = failed_breaker-none trips opens window b in
      let f = late_open-none protections trips opens margin d in ground arith

  abbrev Row : Type 0
  Row = (v : Verdict) × (s : Status) × Outcome protections trips opens n window margin v s

  row_prompt :
      ¬ BreakerFailed trips opens window
      → ¬ IsLate protections trips opens margin
      → ¬ ((protections ≡ []) × (opens ≡ []))
      → Row
  row_prompt sound prompt active = elim (small_cases n) [
    | inl none_open ↦ (_, _, unconfirmed active sound none_open prompt)
    | inr (inr more) ↦ (_, _, spread active sound more)
    | inr (inl one) ↦ elim (nil_cases protections) [
      | inl quiet ↦ (_, _, unprotected quiet (λ o. active (quiet, o)) sound one prompt)
      | inr some_event ↦ (_, _, contained some_event sound one prompt)
    ]
  ]

  row_late : ¬ BreakerFailed trips opens window → IsLate protections trips opens margin → Row
  row_late sound (e, first, r, h, after) = elim (small_cases n) [
    | inl none_open ↦ (_, _, late sound (omega arith) (e, first, r, h, after))
    | inr (inl one) ↦ (_, _, late sound (omega arith) (e, first, r, h, after))
    | inr (inr more) ↦ (_, _, spread (λ idle. ground arith) sound more)
  ]

  row_active : ¬ BreakerFailed trips opens window → ¬ ((protections ≡ []) × (opens ≡ [])) → Row
  row_active sound active =
      elim (Option-cases (late_open (reference trips protections opens) opens margin)) [
        | inr (pair, found) ↦ row_late sound (late_open_sound _ opens margin (λ e. cc))
        | inl prompt ↦
            row_prompt sound (λ l. late_open_complete protections trips opens margin l prompt)
              active
      ]

  -- Some row of the table holds.
  row : Row
  row = elim (Option-cases (failed_breaker (head? trips) opens window)) [
    | inr (pair, found) ↦ (_, _, failed (failed_breaker_sound trips opens window (λ e. cc)))
    | inl fine ↦
        let sound : ¬ BreakerFailed trips opens window =
          λ b. failed_breaker_complete trips opens window b fine in
        elim (nil_cases protections) [
          | inr busy ↦ row_active sound (λ both. busy both.0)
          | inl quiet ↦ elim (nil_cases opens) [
            | inl shut ↦ (_, _, idle quiet shut)
            | inr opened ↦ row_active sound (λ both. opened both.1)
          ]
        ]
  ]

  Outcome-sound : Outcome protections trips opens n window margin decided.verdict decided.status
  Outcome-sound =
      let (v, s, o) = row in
      let (ev, es) = Outcome-complete o in
      subst₂ (Outcome protections trips opens n window margin) (sym ev) (sym es) o

-- The verdict and the coordination status of `_classify_verdict` are those of the row of the table
-- `Outcome` whose condition holds: each row that holds gives what the code returns, and the pair
-- that the code returns is given by a row that holds.
pub classify_verdict_iff :
    (rt : Runtime) (protections trips opens : List Event) (n : ℕ) (window margin : ℤ) (v : Verdict)
    (s : Status)
    → Outcome protections trips opens n window margin v s ↔ (
        ((classify_verdict rt protections trips opens n window margin).verdict ≡ v)
        × ((classify_verdict rt protections trips opens n window margin).status ≡ s))
classify_verdict_iff rt protections trips opens n window margin v s = (
  Outcome-complete rt protections trips opens n window margin,
  λ (ev, es).
      subst₂ (Outcome protections trips opens n window margin) ev es
        (Outcome-sound rt protections trips opens n window margin),
)
