-- ===== src/Iec104/Stations/Chosen.antt =====
-- Which station and which point the operations of iec104/ops.py choose.
use industrial_aiops_energy.Prelude.{
  ◌≡◌, inl, inr, refl, ap, Bool, true, false, Option, none, some, List, [], ◌∷◌, ◌++◌, All, head?,
  length, ◌≤◌, ℤ, Bool-cases, length-take_le,
}
use industrial_aiops_energy.Iec104.Stations.{
  IntOf, Station, station_ca, eqb_address, find, pick_station, point_address, bounded_points,
  find_point,
}

module _ {A : Type 0} (test : A → Bool) where
  -- The first element that passes the test.
  abbrev pub FirstPassing : List A → A → Type 0
  FirstPassing xs x =
      (before : List A) × (after : List A) × (xs ≡ before ++ x ∷ after)
      × All (λ y. test y ≡ false) before
      × (test x ≡ true)

  -- What `find` gave: nothing where no element passes, else the first that does.
  abbrev pub Found : List A → Option A → Type 0
  Found xs none = All (λ y. test y ≡ false) xs
  Found xs (some x) = FirstPassing xs x

  skip-Found : (x : A) (xs : List A) (r : Option A) → test x ≡ false → Found xs r → Found (x ∷ xs) r
  skip-Found x xs none h all = (h, all)
  skip-Found x xs (some y) h (before, after, split, none_before, passes) =
      (x ∷ before, after, ap (λ t. x ∷ t) split, (h, none_before), passes)

  pub find-Found : (xs : List A) → Found xs (find test xs)
  unfolding find
  find-Found [] = tt
  find-Found (x ∷ xs) = elim (Bool-cases (test x)) [
    | inl passes ↦ rw passes ([], xs, refl, tt, passes)
    | inr fails ↦ rw fails (skip-Found x xs (find test xs) fails (find-Found xs))
  ]

-- What `pick_station` may give: without a wanted address the first station, with one the first
-- station that has it.
abbrev pub Chosen : IntOf → List Station → Option ℤ → Option Station → Type 0
Chosen int_of stations none r = r ≡ head? stations
Chosen int_of stations (some ca) r =
    Found (λ x. eqb_address (station_ca int_of x) (some ca)) stations r

-- Without a wanted address the first station is picked, if there is one; with one, the first
-- station with this address, and none exactly if no station has it.
pub pick_station-Chosen :
    (int_of : IntOf) (stations : List Station) (want : Option ℤ)
    → Chosen int_of stations want (pick_station int_of stations want)
unfolding pick_station
pick_station-Chosen int_of [] none = refl
pick_station-Chosen int_of [] (some ca) = tt
pick_station-Chosen int_of (st ∷ rest) none = refl
pick_station-Chosen int_of (st ∷ rest) (some ca) =
    find-Found (λ x. eqb_address (station_ca int_of x) (some ca)) (st ∷ rest)

-- The point that a read finds is the first of the at most 5000 points considered that has the
-- address, and it finds none exactly if none of them has it. A point whose own address is not
-- readable counts as having the address None, which is the one of an address that is not readable.
pub find_point-Found :
    (int_of : IntOf) (ioa : Option ℤ) (st : Station)
    → Found
        (λ p. eqb_address (point_address int_of p) ioa)
        (bounded_points st)
        (find_point int_of ioa st)
      × (length (bounded_points st) ≤ 5000)
unfolding find_point bounded_points
find_point-Found int_of ioa st = (
  find-Found (λ p. eqb_address (point_address int_of p) ioa) (bounded_points st),
  length-take_le 5000 _,
)
