-- ===== src/Substation/Report/Again.antt =====
-- Analysing the events that substation.py made of a list gives the same answer again.
use industrial_aiops_energy.Prelude.{ℕ, ◌≡◌, refl, ap, ◌∙◌, List, [], ◌∷◌, map, ℤ}
use industrial_aiops_energy.Python.{
  Value, Items, item, no_items, array, elements, Runtime, ok, returned_first, ◌>>=◌,
}
use industrial_aiops_energy.Substation.Normalize.{Event, normalize}
use industrial_aiops_energy.Substation.Normalize.Accounting.{normalize-IsSorted}
use industrial_aiops_energy.Substation.Normalize.Printed.{IsoLaws, entry_of, normalize-entries}
use industrial_aiops_energy.Substation.Normalize.Printable.{normalize-IsPrintable}
use industrial_aiops_energy.Substation.Report.{
  Analysis, event_list, analyse, substation_event_analysis,
}

-- The list of entries for the events.
abbrev pub entries_of : Runtime → List Event → Items
entries_of rt [] = no_items
entries_of rt (e ∷ es) = item (entry_of rt e) (entries_of rt es)

elements-entries_of :
    (rt : Runtime) (es : List Event) → elements (entries_of rt es) ≡ map (entry_of rt) es
unfolding elements
elements-entries_of rt [] = refl
elements-entries_of rt (e ∷ es) = ap (λ vs. entry_of rt e ∷ vs) (elements-entries_of rt es)

-- The answer, with nothing ignored.
abbrev pub none_ignored : Analysis → Analysis
none_ignored a = record a { ignored = 0 }

module _ (rt : Runtime) (laws : IsoLaws rt) where
  normalize-again :
      (events : List Value) (parsed : List Event) (ignored : ℕ)
      → normalize rt events ≡ ok (parsed, ignored)
      → normalize rt (event_list (array (entries_of rt parsed))) ≡ ok (parsed, 0)
  unfolding event_list
  normalize-again events parsed ignored h =
      ap (normalize rt) (elements-entries_of rt parsed)
      ∙ normalize-entries rt laws parsed (normalize-IsPrintable rt laws events parsed ignored h)
          (normalize-IsSorted rt events h)

  -- Where an analysis answers, its events, each written as an entry with its ref, its type and its
  -- time in UTC as isoformat() writes it, give by another analysis with the same windows the same
  -- answer with no entry ignored: the events are read back as they were, in the same order.
  pub substation_event_analysis-again :
      (events : Value) (window margin : ℤ) (a : Analysis)
      → substation_event_analysis rt events window margin ≡ ok a
      → (parsed : List Event) × (ignored : ℕ) × (normalize rt (event_list events)
          ≡ ok (parsed, ignored))
        × (normalize rt (event_list (array (entries_of rt parsed))) ≡ ok (parsed, 0))
        × (substation_event_analysis rt (array (entries_of rt parsed)) window margin
            ≡ ok (none_ignored a))
  unfolding substation_event_analysis analyse
  substation_event_analysis-again events window margin a h =
      let ((parsed, ignored), first, answer) =
        returned_first (normalize rt (event_list events)) _ h in
      let again = normalize-again (event_list events) parsed ignored first in
      (
        parsed,
        ignored,
        first,
        again,
        ap (λ r. r >>= λ p. ok (analyse rt window margin p)) again
            ∙ ap (λ r. r >>= λ x. ok (none_ignored x)) answer,
      )
