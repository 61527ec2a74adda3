-- ===== src/Substation/Tests/Again.antt =====
-- Analysing the events of an analysis again (substation.py), with times that are written in unary.
use industrial_aiops_energy.Prelude.{
  ℕ, zero, suc, ◌<◌, ltb, ◌≡◌, refl, ap, arith, none, some, List, [], ◌∷◌, length, All, Text, codes,
  pos, if◌then◌else◌, inl, inr, Bool-cases,
}
use industrial_aiops_energy.Python.{
  Value, null, array, item, no_items, DateTime, Runtime, ok, max_micros,
}
use industrial_aiops_energy.Toy.{runtime}
use industrial_aiops_energy.Substation.Events.{protection_trip, breaker_open, other}
use industrial_aiops_energy.Substation.Normalize.{Event, normalize}
use industrial_aiops_energy.Substation.Normalize.Printed.{IsIso, IsoLaws}
use industrial_aiops_energy.Substation.Report.{
  Analysis, event_list, analyse, substation_event_analysis,
}
use industrial_aiops_energy.Substation.Report.Again.{
  entries_of, none_ignored, substation_event_analysis-again,
}
use industrial_aiops_energy.Substation.Tests.Samples.{entry, run, ev}

abbrev ones : ℕ → Text
ones zero = []
ones (suc n) = b'1' ∷ ones n

abbrev unary : Runtime
unary = record runtime {
  isoformat = ones;
  fromisoformat = λ t.
      if ltb (length t) max_micros then some (record { wall = length t; offset = none }) else none;
}

ones-IsIso : (n : ℕ) → All IsIso (ones n)
ones-IsIso zero = tt
ones-IsIso (suc n) = ((omega arith, omega arith), ones-IsIso n)

length-ones : (n : ℕ) → length (ones n) ≡ n
length-ones zero = refl
length-ones (suc n) = ap suc (length-ones n)

unary-bounded : (t : Text) (d : DateTime) → unary.fromisoformat t ≡ some d → d.wall < max_micros
unary-bounded t d h = elim (Bool-cases (ltb (length t) max_micros)) [
  | inl fits ↦ ground arith
  | inr late ↦ absurd (ground arith)
]

unary-IsoLaws : IsoLaws unary
unary-IsoLaws = record {
  plain = ones-IsIso;
  inverts = λ n h. let len = length-ones n in ground arith;
  bounded = unary-bounded;
}

abbrev tripped : Value
unfolding codes
tripped = array (
    item (entry (codes "R1") (codes "breaker_open") (codes "111")) (
      item (entry (codes "R2") (codes "unheard of") (codes "1"))
        (item (entry (codes "R1") (codes "protection_trip") (codes " 11 ")) (item null no_items))))

abbrev tripped_answer : Analysis
unfolding run
tripped_answer =
    analyse unary (pos 250000) (pos 500000)
      (ev "R2" 1 other ∷ ev "R1" 2 protection_trip ∷ ev "R1" 3 breaker_open ∷ [], 1)

tripped_run : substation_event_analysis unary tripped (pos 250000) (pos 500000) ≡ ok tripped_answer
unfolding run tripped_answer
tripped_run = refl

substation_event_analysis-again_example :
    (parsed : List Event) × (ignored : ℕ) × (normalize unary (event_list tripped)
      ≡ ok (parsed, ignored))
    × (normalize unary (event_list (array (entries_of unary parsed))) ≡ ok (parsed, 0))
    × (substation_event_analysis unary (array (entries_of unary parsed)) (pos 250000) (pos 500000)
        ≡ ok (none_ignored tripped_answer))
substation_event_analysis-again_example =
    substation_event_analysis-again unary unary-IsoLaws tripped (pos 250000) (pos 500000)
      tripped_answer tripped_run
