-- ===== src/Substation/Report/Affected.antt =====
-- `_affected_refs`: the refs that lost supply, each once, and at most a hundred.
use industrial_aiops_energy.Prelude.{
  ℕ, ltb, ◌<◌, ◌⊎◌, inl, inr, Bool-cases, ◌≤◌, ◌≡◌, refl, sym, ap, ◌∙◌, Bool, true, false, ◌&&◌,
  ◌||◌, not, List, [], ◌∷◌, ◌++◌, arith, any, length, take, take_all, length-take_le, Text, text_eq,
  text_eq_iff, if◌then◌else◌, zero, suc,
}
use industrial_aiops_energy.Substation.Normalize.{Event}
use industrial_aiops_energy.Substation.Report.{
  is_outage, max_list, mem_text, affected_from, affected_refs,
}
use industrial_aiops_energy.Substation.Report.Opens.{Distinct}

mem-snoc :
    (r s : Text) (rs : List Text) → mem_text r (rs ++ s ∷ []) ≡ (mem_text r rs || text_eq s r)
unfolding mem_text
mem-snoc r s [] = ground arith
mem-snoc r s (k ∷ rs) = ground (arith, mem-snoc r s rs)

snoc-Distinct :
    (s : Text) (rs : List Text) → Distinct rs → mem_text s rs ≡ false → Distinct (rs ++ s ∷ [])
unfolding mem_text
snoc-Distinct s [] d new = (refl, tt)
snoc-Distinct s (k ∷ rs) d new =
    ground (arith, snoc-Distinct s rs, mem-snoc k s rs, text_eq_iff k s, text_eq_iff s k)

affected_from-Distinct :
    (refs : List Text) (events : List Event) → Distinct refs → Distinct (affected_from refs events)
unfolding affected_from
affected_from-Distinct refs [] d = d
affected_from-Distinct refs (e ∷ events) d =
    affected_from-Distinct
      (if is_outage e && not (mem_text e.ref refs) then refs ++ e.ref ∷ [] else refs) events
      (ground (arith, snoc-Distinct e.ref refs d))

-- Some event of an outage type is on the ref.
abbrev pub has_outage : Text → List Event → Bool
has_outage r events = any (λ e. is_outage e && text_eq e.ref r) events

mem-affected_from :
    (r : Text) (refs : List Text) (events : List Event)
    → mem_text r (affected_from refs events) ≡ (mem_text r refs || has_outage r events)
unfolding affected_from
mem-affected_from r refs [] = ground arith
mem-affected_from r refs (e ∷ events) =
    let next = if is_outage e && not (mem_text e.ref refs) then refs ++ e.ref ∷ [] else refs in
    ground (arith, mem-affected_from r next events, mem-snoc r e.ref refs, text_eq_iff e.ref r)

mem-take :
    (n : ℕ) (r : Text) (rs : List Text) → mem_text r (take n rs) ≡ true → mem_text r rs ≡ true
unfolding mem_text
mem-take zero r rs h = cc
mem-take (suc n) r [] h = cc
mem-take (suc n) r (k ∷ rs) h = ground (arith, mem-take n r rs)

take-Distinct : (n : ℕ) (rs : List Text) → Distinct rs → Distinct (take n rs)
unfolding mem_text
take-Distinct zero rs d = tt
take-Distinct (suc n) [] d = tt
take-Distinct (suc n) (k ∷ rs) d = ground (arith, take-Distinct n rs, mem-take n k rs)

lt_or_le : (m n : ℕ) → (m < n) ⊎ (n ≤ m)
lt_or_le m n = elim (Bool-cases (ltb m n)) [
  | inl less ↦ inl (ground arith)
  | inr not_less ↦ inr (ground arith)
]

affected_refs_bounds :
    (events : List Event)
    → Distinct (affected_refs events) × (length (affected_refs events) ≤ max_list)
unfolding affected_refs
affected_refs_bounds events = (
  take-Distinct max_list (affected_from [] events) (affected_from-Distinct [] events tt),
  length-take_le max_list (affected_from [] events),
)

affected_refs_complete :
    (events : List Event) (r : Text)
    → length (affected_from [] events) ≤ max_list
    → mem_text r (affected_refs events) ≡ has_outage r events
unfolding affected_refs mem_text
affected_refs_complete events r few =
    ap (mem_text r) (take_all max_list (affected_from [] events) few)
    ∙ mem-affected_from r [] events

-- The refs reported as affected stand once each and are at most a hundred, and each of them has a
-- breaker opening, a lockout or a bus undervoltage among the events. Either the loop found more than
-- a hundred, or every ref with such an event is reported.
pub affected_refs_lem :
    (events : List Event)
    → Distinct (affected_refs events)
      × (length (affected_refs events) ≤ max_list)
      × ((r : Text) → mem_text r (affected_refs events) ≡ true → has_outage r events ≡ true)
      × ((max_list < length (affected_from [] events))
          ⊎ ((r : Text) → mem_text r (affected_refs events) ≡ has_outage r events))
unfolding affected_refs mem_text
affected_refs_lem events =
    let (distinct, bounded) = affected_refs_bounds events in
    (
      distinct,
      bounded,
      (λ r h.
          sym (mem-affected_from r [] events) ∙ mem-take max_list r (affected_from [] events) h),
      elim (lt_or_le max_list (length (affected_from [] events))) [
        | inl many ↦ inl many
        | inr few ↦ inr (λ r. affected_refs_complete events r few)
      ],
    )
