-- ===== src/Substation/Normalize/Order.antt =====
-- `_normalize` sorts by time, and keeps the order of entries of one time.
use industrial_aiops_energy.Prelude.{
  ℕ, ◌+◌, ◌≤◌, ◌≡◌, refl, List, [], ◌∷◌, arith, filter, All, length, ◌==◌,
}
use industrial_aiops_energy.Substation.Normalize.{Event, insert, sort}

-- No event stands behind a later one.
abbrev pub IsSorted : List Event → Type 0
IsSorted [] = Unit
IsSorted (x ∷ xs) = All (λ y. x.ts ≤ y.ts) xs × IsSorted xs

All-insert :
    (n : ℕ) (e : Event) (xs : List Event)
    → n ≤ e.ts
    → All (λ y. n ≤ y.ts) xs
    → All (λ y. n ≤ y.ts) (insert e xs)
unfolding insert
All-insert n e [] h t = (h, tt)
All-insert n e (x ∷ xs) h t = ground (arith, All-insert n e xs)

All-weaken : (n m : ℕ) (xs : List Event) → n ≤ m → All (λ y. m ≤ y.ts) xs → All (λ y. n ≤ y.ts) xs
All-weaken n m [] h t = tt
All-weaken n m (x ∷ xs) h t = (omega arith, All-weaken n m xs h t.1)

insert-IsSorted : (e : Event) (xs : List Event) → IsSorted xs → IsSorted (insert e xs)
unfolding insert
insert-IsSorted e [] s = (tt, tt)
insert-IsSorted e (x ∷ xs) s =
    ground (arith, insert-IsSorted e xs, All-insert x.ts e xs, All-weaken e.ts x.ts xs)

pub sort-IsSorted : (xs : List Event) → IsSorted (sort xs)
unfolding sort
sort-IsSorted [] = tt
sort-IsSorted (x ∷ xs) = insert-IsSorted x (sort xs) (sort-IsSorted xs)

-- The events at one instant, in the order in which they stand.
abbrev pub at : ℕ → List Event → List Event
at t xs = filter (λ e. e.ts == t) xs

at-insert : (t : ℕ) (e : Event) (xs : List Event) → at t (insert e xs) ≡ at t (e ∷ xs)
unfolding insert
at-insert t e [] = refl
at-insert t e (x ∷ xs) = ground (arith, at-insert t e xs)

-- Sorting keeps the events of each instant, in the order in which they stood: it is stable, and no
-- event is lost, added or changed.
pub at-sort : (t : ℕ) (xs : List Event) → at t (sort xs) ≡ at t xs
unfolding sort
at-sort t [] = refl
at-sort t (x ∷ xs) = ground (arith, at-insert t x (sort xs), at-sort t xs)

length-insert : (e : Event) (xs : List Event) → length (insert e xs) ≡ length xs + 1
unfolding insert
length-insert e [] = refl
length-insert e (x ∷ xs) = ground (arith, length-insert e xs)

pub length-sort : (xs : List Event) → length (sort xs) ≡ length xs
unfolding sort
length-sort [] = refl
length-sort (x ∷ xs) = omega (arith, length-insert x (sort xs), length-sort xs)
