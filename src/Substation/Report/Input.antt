-- ===== src/Substation/Report/Input.antt =====
-- How the answer of `substation_event_analysis` depends on the entries of the injected list.
use mathlib.Core.Path.{subst}
use industrial_aiops_energy.Prelude.{
  ℕ, suc, ◌+◌, ◌≤◌, ◌≡◌, refl, List, ◌∷◌, ◌++◌, arith, length, length-take, length-map, ℤ,
}
use industrial_aiops_energy.Python.{Value, Runtime, Result, ok, raise, OnOk, ◌>>=◌, returned_first}
use industrial_aiops_energy.Substation.Normalize.{Event, collect, normalize}
use industrial_aiops_energy.Substation.Normalize.Accounting.{normalize_accounting}
use industrial_aiops_energy.Substation.Normalize.Zones.{Skipped, one_ignored, normalize-skip}
use industrial_aiops_energy.Substation.Report.{
  Analysis, max_list, max_timeline, timeline, event_list, analyse, substation_event_analysis,
}

-- The same answer with one entry more counted as ignored.
abbrev pub one_more_ignored : Result Analysis → Result Analysis
one_more_ignored (ok a) = ok (record a { ignored = suc a.ignored })
one_more_ignored (raise e) = raise e

analyse-one_ignored :
    (rt : Runtime) (window margin : ℤ) (m : Result (List Event × ℕ))
    → (do parsed ← one_ignored m; ok (analyse rt window margin parsed))
      ≡ one_more_ignored (do parsed ← m; ok (analyse rt window margin parsed))
unfolding analyse
analyse-one_ignored rt window margin (ok (parsed, ignored)) = refl
analyse-one_ignored rt window margin (raise e) = refl

-- The bounds on the lists of an answer, and the number of entries that it accounts for.
abbrev pub Accounts : ℕ → Analysis → Type 0
Accounts n a =
    (a.events_analyzed + a.ignored ≡ n)
    × (length a.breakers_opened ≤ max_list)
    × (length a.breakers_opened ≤ a.breaker_open_count)
    × (length a.timeline ≤ max_timeline)
    × (length a.timeline ≤ a.events_analyzed)

module _ (rt : Runtime) (window margin : ℤ) where
  -- An entry with no readable timestamp, and one with a naive time in a list that has an aware
  -- time elsewhere, changes nothing in the answer but the number of ignored entries.
  pub substation_event_analysis-skip :
      (given shorter : Value) (xs ys : List Value) (event : Value)
      → event_list given ≡ xs ++ event ∷ ys
      → event_list shorter ≡ xs ++ ys
      → Skipped rt (collect rt (xs ++ ys)).0 event
      → substation_event_analysis rt given window margin
        ≡ one_more_ignored (substation_event_analysis rt shorter window margin)
  unfolding substation_event_analysis
  substation_event_analysis-skip given shorter xs ys event g s skipped =
      rw (g, s, normalize-skip rt xs ys event skipped) (analyse-one_ignored rt window margin _)

  analyse-Accounts :
      (n : ℕ) (parsed : List Event) (ignored : ℕ)
      → length parsed + ignored ≡ n
      → Accounts n (analyse rt window margin (parsed, ignored))
  unfolding analyse timeline
  analyse-Accounts n parsed ignored h = omega (arith, length-take {0}, length-map {0, 0})

  -- Every entry of the list is either analysed or counted as ignored, and the lists of the answer
  -- keep their bounds: a hundred breakers, of those that are counted, and fifty entries of the
  -- timeline, of the analysed events.
  pub substation_event_analysis-Accounts :
      (events : Value) (a : Analysis)
      → substation_event_analysis rt events window margin ≡ ok a
      → Accounts (length (event_list events)) a
  unfolding substation_event_analysis
  substation_event_analysis-Accounts events a h =
      let (out, normalized, e) = returned_first (normalize rt (event_list events)) _ h in
      subst (OnOk (Accounts (length (event_list events)))) e
        (analyse-Accounts _ out.0 out.1 (normalize_accounting rt (event_list events) normalized))
