-- ===== src/Dnp3/Ops/Counts.antt =====
-- The counts by type of `dnp3_integrity_poll` (dnp3/ops.py).
use mathlib.Core.Path.{subst}
use industrial_aiops_energy.Prelude.{
  ℕ, suc, ◌+◌, ◌≤◌, ◌≡◌, inl, inr, refl, sym, arith, false, if◌then◌else◌, List, [], ◌∷◌, map, take,
  length, filter, All, Text, text_eq, text_eq_iff, Bool-cases, length-map, length-take_le,
}
use industrial_aiops_energy.Shared.{Shared}
use industrial_aiops_energy.Targets.{Target}
use industrial_aiops_energy.Dnp3.Points.{Point}
use industrial_aiops_energy.Dnp3.Ops.{Brief, count_up, count_types, poll_report, point_brief}

-- by_type.get(t, 0)
abbrev pub count_of : Text → List (Text × ℕ) → ℕ
count_of t [] = 0
count_of t ((k, n) ∷ rest) = let later = count_of t rest in if text_eq k t then n else later

-- The sum of all counts.
abbrev pub total : List (Text × ℕ) → ℕ
total [] = 0
total ((k, n) ∷ rest) = n + total rest

-- No key stands twice.
abbrev pub Distinct : List (Text × ℕ) → Type 0
Distinct [] = Unit
Distinct ((k, n) ∷ rest) = All (λ entry. text_eq k entry.0 ≡ false) rest × Distinct rest

-- The points of a type.
abbrev pub of_type : Text → List Brief → List Brief
of_type t ps = filter (λ p. text_eq p.type t) ps

total-count_up :
    (t : Text) (by_type : List (Text × ℕ)) → total (count_up t by_type) ≡ suc (total by_type)
unfolding count_up
total-count_up t [] = refl
total-count_up t ((k, n) ∷ rest) = ground (arith, total-count_up t rest)

count_of-same :
    (t : Text) (by_type : List (Text × ℕ))
    → count_of t (count_up t by_type) ≡ suc (count_of t by_type)
unfolding count_up
count_of-same t [] = ground (arith, text_eq_iff t t)
count_of-same t ((k, n) ∷ rest) = ground (arith, count_of-same t rest)

count_of-other :
    (t u : Text) (by_type : List (Text × ℕ))
    → text_eq t u ≡ false
    → count_of u (count_up t by_type) ≡ count_of u by_type
unfolding count_up
count_of-other t u [] h = ground arith
count_of-other t u ((k, n) ∷ rest) h =
    ground (arith, count_of-other t u rest h, text_eq_iff k t, text_eq_iff k u, text_eq_iff t u)

count_types-total :
    (ps : List Brief) (by_type : List (Text × ℕ))
    → total (count_types ps by_type) ≡ length ps + total by_type
unfolding count_types
count_types-total [] by_type = omega arith
count_types-total (p ∷ ps) by_type =
    omega (arith, count_types-total ps (count_up p.type by_type), total-count_up p.type by_type)

count_types-of_type :
    (t : Text) (ps : List Brief) (by_type : List (Text × ℕ))
    → count_of t (count_types ps by_type) ≡ length (of_type t ps) + count_of t by_type
unfolding count_types
count_types-of_type t [] by_type = omega arith
count_types-of_type t (p ∷ ps) by_type = elim (Bool-cases (text_eq p.type t)) [
  | inl same ↦
      let e : p.type ≡ t = (text_eq_iff p.type t).0 same in
      let up : count_of t (count_up p.type by_type) ≡ suc (count_of t by_type) =
        subst (λ u. count_of t (count_up u by_type) ≡ suc (count_of t by_type)) (sym e)
          (count_of-same t by_type) in
      ground (arith, count_types-of_type t ps (count_up p.type by_type))
  | inr other ↦
      let kept = count_of-other p.type t by_type other in
      ground (arith, count_types-of_type t ps (count_up p.type by_type))
]

-- The key is none of the table's.
abbrev Absent : Text → List (Text × ℕ) → Type 0
Absent k by_type = All (λ entry. text_eq k entry.0 ≡ false) by_type

count_up-Absent :
    (k t : Text) (by_type : List (Text × ℕ))
    → text_eq k t ≡ false
    → Absent k by_type
    → Absent k (count_up t by_type)
unfolding count_up
count_up-Absent k t [] h absent = (h, tt)
count_up-Absent k t ((u, n) ∷ rest) h absent = elim (Bool-cases (text_eq u t)) [
  | inl same ↦ rw same (absent.0, absent.1)
  | inr other ↦ rw other (absent.0, count_up-Absent k t rest h absent.1)
]

count_up-Distinct :
    (t : Text) (by_type : List (Text × ℕ)) → Distinct by_type → Distinct (count_up t by_type)
unfolding count_up
count_up-Distinct t [] h = (tt, tt)
count_up-Distinct t ((k, n) ∷ rest) h = elim (Bool-cases (text_eq k t)) [
  | inl same ↦ rw same (h.0, h.1)
  | inr other ↦ rw other (count_up-Absent k t rest other h.0, count_up-Distinct t rest h.1)
]

count_types-Distinct :
    (ps : List Brief) (by_type : List (Text × ℕ))
    → Distinct by_type
    → Distinct (count_types ps by_type)
unfolding count_types
count_types-Distinct [] by_type h = h
count_types-Distinct (p ∷ ps) by_type h =
    count_types-Distinct ps (count_up p.type by_type) (count_up-Distinct p.type by_type h)

-- The report of a poll counts at most 5000 points, the ones that it lists; each type stands once
-- in the table, with the number of listed points of that type; and the counts sum up to the number
-- of points.
pub poll_report-Counts :
    (sh : Shared) (target : Target) (raw : List Point)
    → ((poll_report sh target raw).point_count ≡ length (poll_report sh target raw).points)
      × ((poll_report sh target raw).point_count ≤ 5000)
      × Distinct (poll_report sh target raw).by_type
      × ((t : Text)
          → count_of t (poll_report sh target raw).by_type
            ≡ length (of_type t (poll_report sh target raw).points))
      × (total (poll_report sh target raw).by_type ≡ (poll_report sh target raw).point_count)
unfolding poll_report
poll_report-Counts sh target raw =
    let points = map (point_brief sh) (take 5000 raw) in
    (
      refl,
      omega (arith, length-map (point_brief sh) (take 5000 raw), length-take_le 5000 raw),
      count_types-Distinct points [] tt,
      λ t. omega (arith, count_types-of_type t points []),
      omega (arith, count_types-total points []),
    )
