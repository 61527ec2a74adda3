-- ===== src/Substation/Normalize/Printable.antt =====
-- What `_normalize` (substation.py) returns can be written as entries again.
use mathlib.Core.Path.{subst}
use industrial_aiops_energy.Prelude.{
  ℕ, ◌+◌, ◌<◌, ltb, leb, ap, ◌≡◌, ◌≢◌, inl, inr, refl, sym, ◌∙◌, arith, strip, Bool, ◌&&◌, not,
  Option, none, some, List, [], ◌∷◌, All, ℤ, pos, negsuc, sub_ℕ, pos_part, neg_part, Option-cases,
  Bool-cases, codes,
}
use industrial_aiops_energy.Python.{
  Value, null, bool, int, float, text, array, object, get, DateTime, Runtime, Result, ok,
  max_micros, returned_first, ◌>>=◌,
}
use industrial_aiops_energy.Substation.Events.{parse_ts, replace_z, read_ref, read_ref-named}
use industrial_aiops_energy.Substation.Normalize.{
  Event, Raw, is_aware, read_event, collect, in_range, to_utc, place, place_all, add_placed, insert,
  sort, normalize,
}
use industrial_aiops_energy.Substation.Normalize.Accounting.{normalize_cases}
use industrial_aiops_energy.Substation.Normalize.Printed.{IsoLaws, IsPrintable}

-- The wall clock is one of a datetime, and the ref is not empty.
abbrev IsReadable : Raw → Type 0
IsReadable r = (r.ts.wall < max_micros) × (r.ref ≢ [])

module _ (rt : Runtime) (laws : IsoLaws rt) where
  parse_ts-bounded :
      (v : Option Value) (d : DateTime) → parse_ts rt v ≡ some d → d.wall < max_micros
  unfolding parse_ts
  parse_ts-bounded (some (text t)) d h = laws.bounded (replace_z (strip t)) d h
  parse_ts-bounded (some null) d h = absurd (ground arith)
  parse_ts-bounded (some (bool b)) d h = absurd (ground arith)
  parse_ts-bounded (some (int n)) d h = absurd (ground arith)
  parse_ts-bounded (some (float n)) d h = absurd (ground arith)
  parse_ts-bounded (some (array vs)) d h = absurd (ground arith)
  parse_ts-bounded (some (object fs)) d h = absurd (ground arith)
  parse_ts-bounded none d h = absurd (ground arith)

  read_event-IsReadable : (v : Value) (r : Raw) → read_event rt v ≡ some r → IsReadable r
  unfolding read_event
  read_event-IsReadable (object event) r h =
      elim (Option-cases (parse_ts rt (get (codes "timestamp") event))) [
        | inl bad ↦ absurd (ground arith)
        | inr (d, good) ↦
            let wall : r.ts ≡ d = ground arith in
            let ref : r.ref ≡ read_ref rt event = ground arith in
            let bound = parse_ts-bounded (get (codes "timestamp") event) d good in
            let named = read_ref-named rt event in (ground arith, λ e. named (sym ref ∙ e))
      ]
  read_event-IsReadable null r h = absurd (ground arith)
  read_event-IsReadable (bool b) r h = absurd (ground arith)
  read_event-IsReadable (int n) r h = absurd (ground arith)
  read_event-IsReadable (float n) r h = absurd (ground arith)
  read_event-IsReadable (text t) r h = absurd (ground arith)
  read_event-IsReadable (array vs) r h = absurd (ground arith)

  collect-IsReadable : (events : List Value) → All IsReadable (collect rt events).0
  unfolding collect
  collect-IsReadable [] = tt
  collect-IsReadable (v ∷ vs) = elim (Option-cases (read_event rt v)) [
    | inl ignored ↦
        let same : (collect rt (v ∷ vs)).0 ≡ (collect rt vs).0 = ground arith in
        subst (All IsReadable) (sym same) (collect-IsReadable vs)
    | inr (r, good) ↦
        let same : (collect rt (v ∷ vs)).0 ≡ r ∷ (collect rt vs).0 = ground arith in
        subst (All IsReadable) (sym same) (read_event-IsReadable v r good, collect-IsReadable vs)
  ]

in_range-bounded : (z : ℤ) (n : ℕ) → in_range z ≡ ok n → n < max_micros
unfolding in_range max_micros
in_range-bounded (pos m) n h = elim (Bool-cases (ltb m max_micros)) [
  | inl fits ↦ ground arith
  | inr late ↦ absurd (ground arith)
]
in_range-bounded (negsuc m) n h = absurd (ground arith)

to_utc-bounded : (d : DateTime) (n : ℕ) → d.wall < max_micros → to_utc d ≡ ok n → n < max_micros
unfolding to_utc
to_utc-bounded d n bound h = elim (Option-cases d.offset) [
  | inl naive ↦ ground arith
  | inr (off, aware) ↦
      in_range-bounded (sub_ℕ (d.wall + neg_part off) (pos_part off)) n (ground arith)
]

IsPrintable-placed :
    (rt : Runtime) (laws : IsoLaws rt) (zone : Bool) (r : Raw) (e : Event)
    → IsReadable r
    → place zone r ≡ ok (some e)
    → IsPrintable rt laws e
unfolding place
IsPrintable-placed rt laws zone r e (bound, named) h =
    elim (Bool-cases (zone && not (is_aware r))) [
      | inl dropped ↦ absurd (ground arith)
      | inr kept ↦
          let made : ℕ → Event = λ norm. record { ref = r.ref; ts = norm; type = r.etype } in
          let build : ℕ → Result (Option Event) = λ norm. ok (some (made norm)) in
          let run : (to_utc r.ts >>= build) ≡ ok (some e) = ground arith in
          let (norm, moment, same) = returned_first (to_utc r.ts) build run in
          let is_e : made norm ≡ e = ground arith in
          let ts : e.ts ≡ norm = sym (ap (λ v. v.ts) is_e) in
          let ref : e.ref ≡ r.ref = sym (ap (λ v. v.ref) is_e) in
          let fits = to_utc-bounded r.ts norm bound moment in
          (ground arith, λ none_left. named (sym ref ∙ none_left))
    ]

module _ (rt : Runtime) (laws : IsoLaws rt) where
  add_placed-IsPrintable :
      (placed : Option Event) (rest : List Event × ℕ)
      → ((e : Event) → placed ≡ some e → IsPrintable rt laws e)
      → All (IsPrintable rt laws) rest.0
      → All (IsPrintable rt laws) (add_placed placed rest).0
  add_placed-IsPrintable none rest h all = all
  add_placed-IsPrintable (some e) rest h all = (h e refl, all)

  place_all-IsPrintable :
      (zone : Bool) (raw : List Raw) (out : List Event × ℕ)
      → All IsReadable raw
      → place_all zone raw ≡ ok out
      → All (IsPrintable rt laws) out.0
  unfolding place_all
  place_all-IsPrintable zone [] out h e =
      let same : ([], 0) ≡ out = ground arith in subst (λ o. All (IsPrintable rt laws) o.0) same tt
  place_all-IsPrintable zone (r ∷ rs) out h e =
      let (placed, one, e₁) = returned_first (place zone r) _ e in
      let (rest, all, e₂) = returned_first (place_all zone rs) _ e₁ in
      let same : add_placed placed rest ≡ out = ground arith in
      subst (λ o. All (IsPrintable rt laws) o.0) same
        (add_placed-IsPrintable placed rest
          (λ v is_v. IsPrintable-placed rt laws zone r v h.0 (one ∙ ap ok is_v))
          (place_all-IsPrintable zone rs rest h.1 all))

  insert-IsPrintable :
      (e : Event) (es : List Event)
      → IsPrintable rt laws e
      → All (IsPrintable rt laws) es
      → All (IsPrintable rt laws) (insert e es)
  unfolding insert
  insert-IsPrintable e [] h all = (h, tt)
  insert-IsPrintable e (x ∷ xs) h all = elim (Bool-cases (leb e.ts x.ts)) [
    | inl first ↦ rw first (h, all)
    | inr later ↦ rw later (all.0, insert-IsPrintable e xs h all.1)
  ]

  sort-IsPrintable :
      (es : List Event) → All (IsPrintable rt laws) es → All (IsPrintable rt laws) (sort es)
  unfolding sort
  sort-IsPrintable [] h = tt
  sort-IsPrintable (e ∷ es) h = insert-IsPrintable e (sort es) h.0 (sort-IsPrintable es h.1)

  -- The events that `_normalize` returns have a ref, and a time that a datetime can hold.
  pub normalize-IsPrintable :
      (events : List Value) (parsed : List Event) (ignored : ℕ)
      → normalize rt events ≡ ok (parsed, ignored)
      → All (IsPrintable rt laws) parsed
  normalize-IsPrintable events parsed ignored h =
      let (placed, dropped, all, e, _) = normalize_cases rt events h in
      subst (All (IsPrintable rt laws)) (sym e) (
        sort-IsPrintable placed
          (place_all-IsPrintable _ _ (placed, dropped) (collect-IsReadable rt laws events) all))
