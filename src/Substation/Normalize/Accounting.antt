-- ===== src/Substation/Normalize/Accounting.antt =====
-- What comes out of `_normalize`: its order, and that no entry is lost.
use industrial_aiops_energy.Prelude.{
  ℕ, ◌+◌, ◌≡◌, Bool, Option, none, some, List, [], ◌∷◌, arith, any, length, ap, sym, ◌∙◌,
}
use mathlib.Core.Path.{subst}
use industrial_aiops_energy.Python.{Value, Runtime, ok, returned_first}
use industrial_aiops_energy.Substation.Normalize.{
  Event, Raw, is_aware, collect, add_placed, place, place_all, sort, normalize,
}
use industrial_aiops_energy.Substation.Normalize.Order.{IsSorted, sort-IsSorted, length-sort}

collect_accounting :
    (rt : Runtime) (events : List Value)
    → length (collect rt events).0 + (collect rt events).1 ≡ length events
unfolding collect
collect_accounting rt [] = omega arith
collect_accounting rt (event ∷ events) = ground (arith, collect_accounting rt events)

add_placed_accounting :
    (o : Option Event) (rest : List Event × ℕ)
    → length (add_placed o rest).0 + (add_placed o rest).1 ≡ length rest.0 + rest.1 + 1
add_placed_accounting none rest = omega arith
add_placed_accounting (some e) rest = omega arith

place_all_accounting :
    (zone : Bool) (raw : List Raw) {out : List Event × ℕ}
    → place_all zone raw ≡ ok out
    → length out.0 + out.1 ≡ length raw
unfolding place_all
place_all_accounting zone [] h = ground arith
place_all_accounting zone (r ∷ rs) {out} h =
    let (placed, _, h₁) = returned_first (place zone r) _ h in
    let (rest, all, e) = returned_first (place_all zone rs) _ h₁ in
    ground (arith, place_all_accounting zone rs all, add_placed_accounting placed rest)

module _ (rt : Runtime) (events : List Value) {parsed : List Event} {ignored : ℕ}
    (returned : normalize rt events ≡ ok (parsed, ignored)) where
  -- What `normalize` returns was sorted at its end.
  pub normalize_cases :
      (placed : List Event) × (dropped : ℕ) × (place_all
          (any is_aware (collect rt events).0)
          (collect rt events).0
        ≡ ok (placed, dropped))
      × (parsed ≡ sort placed)
      × (ignored ≡ (collect rt events).1 + dropped)
  unfolding normalize
  normalize_cases =
      let (out, all, e) =
        returned_first (place_all (any is_aware (collect rt events).0) _) _ returned in
      (out.0, out.1, all, ground arith, ground arith)

  -- The events that `_normalize` returns stand in the order of their times.
  pub normalize-IsSorted : IsSorted parsed
  normalize-IsSorted =
      let (placed, _, _, e, _) = normalize_cases in subst IsSorted (sym e) (sort-IsSorted placed)

  -- Every entry of the list that `_normalize` is given is either among the events that it returns
  -- or counted as ignored.
  pub normalize_accounting : length parsed + ignored ≡ length events
  normalize_accounting =
      let (placed, dropped, all, e, i) = normalize_cases in
      let len : length parsed ≡ length placed = ap length e ∙ length-sort placed in
      omega (arith, len, i, place_all_accounting _ _ all, collect_accounting rt events)
