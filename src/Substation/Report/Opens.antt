-- ===== src/Substation/Report/Opens.antt =====
-- `_distinct_opens`: the dict that the loop fills, against the first open of each breaker.
use industrial_aiops_energy.Prelude.{
  ℕ, ◌≤◌, ◌≡◌, ◌↔◌, refl, sym, ◌∙◌, true, false, Option, none, some, List, [], ◌∷◌, arith, map,
  head?, All, All-imp, filter, length, Text, text_eq, text_eq_iff, if◌then◌else◌,
}
use industrial_aiops_energy.Substation.Normalize.{Event}
use industrial_aiops_energy.Substation.Normalize.Order.{IsSorted}
use industrial_aiops_energy.Substation.Report.{set_default, seen_opens, mem_text}

-- No text stands twice.
abbrev pub Distinct : List Text → Type 0
Distinct [] = Unit
Distinct (r ∷ rs) = (mem_text r rs ≡ false) × Distinct rs

abbrev pub refs_of : List (Text × ℕ) → List Text
refs_of seen = map (λ entry. entry.0) seen

-- The time that the dict holds for a ref.
abbrev pub time_of : Text → List (Text × ℕ) → Option ℕ
time_of r [] = none
time_of r ((k, t) ∷ seen) = if text_eq k r then some t else time_of r seen

-- The time of the first event on a ref.
abbrev pub first_time : Text → List Event → Option ℕ
first_time r [] = none
first_time r (e ∷ es) = if text_eq e.ref r then some e.ts else first_time r es

abbrev or_else : Option ℕ → Option ℕ → Option ℕ
or_else none other = other
or_else (some t) other = some t

time_of-set_default :
    (r ref : Text) (ts : ℕ) (seen : List (Text × ℕ))
    → time_of r (set_default ref ts seen)
      ≡ or_else (time_of r seen) (if text_eq ref r then some ts else none)
unfolding set_default
time_of-set_default r ref ts [] = ground arith
time_of-set_default r ref ts ((k, t) ∷ seen) = ground (
  arith,
  text_eq_iff k ref,
  text_eq_iff k r,
  text_eq_iff ref r,
  time_of-set_default r ref ts seen,
)

mem-set_default :
    (r ref : Text) (ts : ℕ) (seen : List (Text × ℕ))
    → mem_text r (refs_of (set_default ref ts seen))
      ≡ (if text_eq ref r then true else mem_text r (refs_of seen))
unfolding set_default mem_text
mem-set_default r ref ts [] = ground arith
mem-set_default r ref ts ((k, t) ∷ seen) =
    ground
      (arith, text_eq_iff k ref, text_eq_iff k r, text_eq_iff ref r, mem-set_default r ref ts seen)

set_default-Distinct :
    (ref : Text) (ts : ℕ) (seen : List (Text × ℕ))
    → Distinct (refs_of seen)
    → Distinct (refs_of (set_default ref ts seen))
unfolding set_default mem_text
set_default-Distinct ref ts [] d = (refl, tt)
set_default-Distinct ref ts ((k, t) ∷ seen) d = ground (
  arith,
  set_default-Distinct ref ts seen,
  mem-set_default k ref ts seen,
  text_eq_iff k ref,
  text_eq_iff ref k,
)

time_of-seen_opens :
    (r : Text) (seen : List (Text × ℕ)) (opens : List Event)
    → time_of r (seen_opens seen opens) ≡ or_else (time_of r seen) (first_time r opens)
unfolding seen_opens
time_of-seen_opens r seen [] = ground arith
time_of-seen_opens r seen (e ∷ opens) = ground (
  arith,
  time_of-seen_opens r (set_default e.ref e.ts seen) opens,
  time_of-set_default r e.ref e.ts seen,
)

seen_opens-Distinct :
    (seen : List (Text × ℕ)) (opens : List Event)
    → Distinct (refs_of seen)
    → Distinct (refs_of (seen_opens seen opens))
unfolding seen_opens
seen_opens-Distinct seen [] d = d
seen_opens-Distinct seen (e ∷ opens) d =
    seen_opens-Distinct (set_default e.ref e.ts seen) opens (set_default-Distinct e.ref e.ts seen d)

-- The dict of the opened breakers holds each ref once, and for each ref the time of the first
-- event on it in the list of opens, if there is one.
pub seen_opens_lem :
    (opens : List Event) (r : Text)
    → Distinct (refs_of (seen_opens [] opens))
      × (time_of r (seen_opens [] opens) ≡ first_time r opens)
seen_opens_lem opens r = (seen_opens-Distinct [] opens tt, time_of-seen_opens r [] opens)

abbrev pub on_ref : Text → List Event → List Event
on_ref r opens = filter (λ e. text_eq e.ref r) opens

All-on_ref :
    (n : ℕ) (r : Text) (opens : List Event)
    → All (λ e. n ≤ e.ts) opens
    → All (λ e. n ≤ e.ts) (on_ref r opens)
All-on_ref n r [] h = tt
All-on_ref n r (e ∷ opens) h = ground (arith, All-on_ref n r opens)

-- In a list sorted by time the first open on a ref is the earliest.
first_time_least :
    (r : Text) (t : ℕ) (opens : List Event)
    → IsSorted opens
    → first_time r opens ≡ some t
    → All (λ e. t ≤ e.ts) (on_ref r opens)
first_time_least r t [] sorted h = tt
first_time_least r t (e ∷ opens) sorted h =
    ground (arith, All-on_ref e.ts r opens, first_time_least r t opens)

-- Filled from events in the order of their times, the dict of the opened breakers holds for a ref
-- the earliest time at which it opened.
pub seen_opens_least :
    (opens : List Event) (r : Text) (t : ℕ)
    → IsSorted opens
    → time_of r (seen_opens [] opens) ≡ some t
    → All (λ e. t ≤ e.ts) (on_ref r opens)
seen_opens_least opens r t sorted h =
    first_time_least r t opens sorted (sym (time_of-seen_opens r [] opens) ∙ h)

length-set_default_le :
    (ref : Text) (ts : ℕ) (seen : List (Text × ℕ)) → length seen ≤ length (set_default ref ts seen)
unfolding set_default
length-set_default_le ref ts [] = omega arith
length-set_default_le ref ts ((k, t) ∷ seen) = ground (arith, length-set_default_le ref ts seen)

length-seen_opens_le :
    (seen : List (Text × ℕ)) (opens : List Event) → length seen ≤ length (seen_opens seen opens)
unfolding seen_opens
length-seen_opens_le seen [] = omega arith
length-seen_opens_le seen (e ∷ opens) = omega (
  arith,
  length-set_default_le e.ref e.ts seen,
  length-seen_opens_le (set_default e.ref e.ts seen) opens,
)

one_ref_sound :
    (k : Text) (t : ℕ) (opens : List Event)
    → length (seen_opens ((k, t) ∷ []) opens) ≡ 1
    → All (λ e. e.ref ≡ k) opens
unfolding seen_opens set_default
one_ref_sound k t [] h = tt
one_ref_sound k t (e ∷ opens) h = ground (
  arith,
  text_eq_iff k e.ref,
  one_ref_sound k t opens,
  length-seen_opens_le ((k, t) ∷ (e.ref, e.ts) ∷ []) opens,
)

one_ref_complete :
    (k : Text) (t : ℕ) (opens : List Event)
    → All (λ e. e.ref ≡ k) opens
    → length (seen_opens ((k, t) ∷ []) opens) ≡ 1
unfolding seen_opens set_default
one_ref_complete k t [] h = refl
one_ref_complete k t (e ∷ opens) h = ground (arith, text_eq_iff k e.ref, one_ref_complete k t opens)

-- One breaker is counted exactly when some breaker opened and all opens are on its ref.
pub one_breaker_iff :
    (opens : List Event)
    → (length (seen_opens [] opens) ≡ 1)
      ↔ ((first : Event) × (head? opens ≡ some first) × All (λ e. e.ref ≡ first.ref) opens)
unfolding seen_opens set_default
one_breaker_iff [] = (λ e. absurd (omega arith), λ (first, e, _). cc)
one_breaker_iff (e ∷ opens) = (
  λ h. (e, refl, (refl, one_ref_sound e.ref e.ts opens h)),
  λ (first, h, same).
      one_ref_complete e.ref e.ts opens (All-imp (λ x p. p ∙ sym same.0) opens same.1),
)
