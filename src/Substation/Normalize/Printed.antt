-- ===== src/Substation/Normalize/Printed.antt =====
-- Events written as entries of the injected list, and read back by `_normalize` (substation.py).
use industrial_aiops_energy.Prelude.{
  ℕ, ◌≤◌, ◌<◌, ◌≡◌, ◌≢◌, refl, ap, ◌∙◌, arith, false, none, some, List, [], ◌∷◌, map, any, All,
  All-imp, Text, codes, text_eq, strip-IsVisible,
}
use industrial_aiops_energy.Python.{
  Value, text, object, field, no_fields, Fields, DateTime, Runtime, ok, max_micros, get,
}
use industrial_aiops_energy.Substation.Events.{
  EventType, protection_pickup, protection_trip, breaker_open, breaker_close, lockout,
  bus_undervoltage, other, type_name, known_type, match_keyword, searched_text, label_keywords,
  lower, classify_type, replace_z, parse_ts, read_ref,
}
use industrial_aiops_energy.Substation.Normalize.{
  Event, Raw, is_aware, read_event, collect, to_utc, place, place_all, insert, sort, normalize,
}
use industrial_aiops_energy.Substation.Normalize.Order.{IsSorted}

-- A character that isoformat() writes is a digit, one of - . : or a T.
abbrev pub IsIso : ℕ → Type 0
IsIso c = (45 ≤ c) × (c ≤ 84)

-- Documented of datetime: isoformat() writes only such characters, fromisoformat() inverts it, and
-- the wall clock of a datetime lies in the years 1 to 9999.
pub record IsoLaws (rt : Runtime) : Type 0 where
  pub plain : (n : ℕ) → All IsIso (rt.isoformat n)
  pub inverts :
      (n : ℕ)
      → n < max_micros
      → rt.fromisoformat (rt.isoformat n) ≡ some (record { wall = n; offset = none })
  pub bounded : (t : Text) (d : DateTime) → rt.fromisoformat t ≡ some d → d.wall < max_micros

replace_z-IsIso : (s : Text) → All IsIso s → replace_z s ≡ s
unfolding replace_z
replace_z-IsIso [] h = refl
replace_z-IsIso (c ∷ []) ((low, high), rest) = ground arith
replace_z-IsIso (c ∷ d ∷ s) (here, rest) = ap (λ r. c ∷ r) (replace_z-IsIso (d ∷ s) rest)

-- The entry for an event, with its known type and its time in UTC.
abbrev pub entry_of : Runtime → Event → Value
entry_of rt e = object (
    field (codes "ref") (text e.ref) (
      field (codes "type") (text (type_name e.type))
        (field (codes "timestamp") (text (rt.isoformat e.ts)) no_fields)))

-- The type of an event is classified as itself, also "other", which is no known type.
classify_type_name :
    (rt : Runtime) (k : EventType) → classify_type rt (some (text (type_name k))) none ≡ k
unfolding classify_type known_type match_keyword searched_text label_keywords lower type_name codes
classify_type_name rt protection_pickup = refl
classify_type_name rt protection_trip = refl
classify_type_name rt breaker_open = refl
classify_type_name rt breaker_close = refl
classify_type_name rt lockout = refl
classify_type_name rt bus_undervoltage = refl
classify_type_name rt other = refl

module _ (rt : Runtime) (laws : IsoLaws rt) where
  parse_ts-isoformat :
      (n : ℕ)
      → n < max_micros
      → parse_ts rt (some (text (rt.isoformat n))) ≡ some (record { wall = n; offset = none })
  unfolding parse_ts
  parse_ts-isoformat n h =
      let plain = laws.plain n in
      let stripped =
        strip-IsVisible (rt.isoformat n) (All-imp (λ c i. (omega arith, omega arith)) _ plain) in
      ap rt.fromisoformat (ap replace_z stripped ∙ replace_z-IsIso (rt.isoformat n) plain)
      ∙ laws.inverts n h

  -- An event that can be written: its time is one of a datetime, and its ref is not empty.
  abbrev pub IsPrintable : Event → Type 0
  IsPrintable e = (e.ts < max_micros) × (e.ref ≢ [])

  abbrev raw_of : Event → Raw
  raw_of e = record { ts = record { wall = e.ts; offset = none }; ref = e.ref; etype = e.type }

  read_ref-text :
      (r : Text) (rest : Fields) → r ≢ [] → read_ref rt (field (codes "ref") (text r) rest) ≡ r
  unfolding read_ref get codes text_eq
  read_ref-text [] rest h = absurd (h refl)
  read_ref-text (c ∷ s) rest h = refl

  read_event-fields :
      (event : Fields) (d : DateTime) (r : Text) (k : EventType)
      → parse_ts rt (get (codes "timestamp") event) ≡ some d
      → read_ref rt event ≡ r
      → classify_type rt (get (codes "type") event) (get (codes "label") event) ≡ k
      → read_event rt (object event) ≡ some (record { ts = d; ref = r; etype = k })
  unfolding read_event
  read_event-fields event d r k h₁ h₂ h₃ = ground arith

  read_event-entry : (e : Event) → IsPrintable e → read_event rt (entry_of rt e) ≡ some (raw_of e)
  unfolding get codes text_eq
  read_event-entry e (bound, named) =
      read_event-fields _ _ _ _ (parse_ts-isoformat e.ts bound) (read_ref-text e.ref _ named)
        (classify_type_name rt e.type)

  collect-entries :
      (es : List Event)
      → All IsPrintable es
      → collect rt (map (entry_of rt) es) ≡ (map raw_of es, 0)
  unfolding collect
  collect-entries [] h = refl
  collect-entries (e ∷ es) h =
      let one = read_event-entry e h.0 in let rest = collect-entries es h.1 in ground arith

  none-is_aware : (es : List Event) → any is_aware (map raw_of es) ≡ false
  none-is_aware [] = refl
  none-is_aware (e ∷ es) = none-is_aware es

  place_all-raw : (es : List Event) → place_all false (map raw_of es) ≡ ok (es, 0)
  unfolding place_all place to_utc
  place_all-raw [] = refl
  place_all-raw (e ∷ es) = let rest = place_all-raw es in ground arith

  insert-first : (e : Event) (es : List Event) → All (λ y. e.ts ≤ y.ts) es → insert e es ≡ e ∷ es
  unfolding insert
  insert-first e [] h = refl
  insert-first e (x ∷ xs) h = let first = h.0 in ground arith

  sort-sorted : (es : List Event) → IsSorted es → sort es ≡ es
  unfolding sort
  sort-sorted [] h = refl
  sort-sorted (e ∷ es) h = ap (insert e) (sort-sorted es h.1) ∙ insert-first e es h.0

  -- Entries written for events in the order of their times are read back as those events.
  pub normalize-entries :
      (es : List Event)
      → All IsPrintable es
      → IsSorted es
      → normalize rt (map (entry_of rt) es) ≡ ok (es, 0)
  unfolding normalize
  normalize-entries es printable sorted =
      let read = collect-entries es printable in
      let placed = place_all-raw es in
      let naive = none-is_aware es in
      rw (read, naive, placed) (ap (λ xs. ok (xs, 0)) (sort-sorted es sorted))
