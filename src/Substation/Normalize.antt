-- ===== src/Substation/Normalize.antt =====
-- substation.py, `_normalize`: the injected list as time-sorted events in naive UTC.
pub mod Order
pub mod Printed
pub mod Printable
pub mod Accounting
pub mod Zones
pub mod Overflow
use industrial_aiops_energy.Prelude.{
  ℕ, suc, ◌+◌, ltb, leb, Bool, Option, none, some, List, [], ◌∷◌, any, is_some, Text, codes, ℤ, pos,
  negsuc, pos_part, neg_part, sub_ℕ, if◌then◌else◌, ◌&&◌, not,
}
use industrial_aiops_energy.Python.{
  Value, object, get, DateTime, Runtime, Result, ok, raise, other, overflow_error, max_micros,
  ◌>>=◌,
}
use industrial_aiops_energy.Substation.Events.{EventType, classify_type, parse_ts, read_ref}

-- _Event
pub record Event : Type 0 where
  pub ref : Text
  pub ts : ℕ
  pub type : EventType

-- An entry of `raw`: (ts, ref, etype).
pub record Raw : Type 0 where
  pub ts : DateTime
  pub ref : Text
  pub etype : EventType

-- ts.tzinfo is not None
abbrev pub is_aware : Raw → Bool
is_aware r = is_some r.ts.offset

module _ (rt : Runtime) where
  -- The body of the first loop; `none` is an ignored entry.
  unfoldable pub read_event : Value → Option Raw
  unfolding parse_ts get read_ref classify_type codes
  read_event (object event) = elim (parse_ts rt (get (codes "timestamp") event)) [
    | none ↦ none
    | some ts ↦ some (record {
      ts = ts;
      ref = read_ref rt event;
      etype = classify_type rt (get (codes "type") event) (get (codes "label") event);
    })
  ]
  read_event event = none

  -- The first loop: (raw, ignored).
  unfoldable pub collect : List Value → List Raw × ℕ
  collect [] = ([], 0)
  collect (event ∷ events) =
      let (raw, ignored) = collect events in
      elim (read_event event) [ none ↦ (raw, suc ignored) | some r ↦ (r ∷ raw, ignored) ]

-- A moment that a datetime cannot hold is an OverflowError.
unfoldable pub in_range : ℤ → Result ℕ
unfolding max_micros codes
in_range (pos n) =
    if ltb n max_micros
    then ok n
    else raise (other overflow_error (codes "date value out of range"))
in_range (negsuc n) = raise (other overflow_error (codes "date value out of range"))

-- ts.astimezone(UTC).replace(tzinfo=None) if ts.tzinfo is not None else ts
unfoldable pub to_utc : DateTime → Result ℕ
unfolding in_range
to_utc ts = elim ts.offset [
  | none ↦ ok ts.wall
  | some off ↦ in_range (sub_ℕ (ts.wall + neg_part off) (pos_part off))
]

-- The body of the second loop; `none` is a naive entry amid aware ones.
unfoldable pub place : Bool → Raw → Result (Option Event)
unfolding to_utc
place any_aware r =
    if any_aware && not (is_aware r)
    then ok none
    else do norm ← to_utc r.ts; ok (some (record { ref = r.ref; ts = norm; type = r.etype }))

-- How the second loop goes on: (parsed, ignored) with one more entry.
abbrev pub add_placed : Option Event → List Event × ℕ → List Event × ℕ
add_placed none (parsed, ignored) = (parsed, suc ignored)
add_placed (some e) (parsed, ignored) = (e ∷ parsed, ignored)

-- The second loop: (parsed, ignored).
unfoldable pub place_all : Bool → List Raw → Result (List Event × ℕ)
unfolding place
place_all any_aware [] = ok ([], 0)
place_all any_aware (r ∷ rs) = do
  placed ← place any_aware r
  rest ← place_all any_aware rs
  ok (add_placed placed rest)

-- Python's list.sort with the key entry.ts, ascending and stable: among equal times the earlier entry
-- stays in front.
unfoldable pub insert : Event → List Event → List Event
insert e [] = e ∷ []
insert e (x ∷ xs) = if leb e.ts x.ts then e ∷ x ∷ xs else x ∷ insert e xs

unfoldable pub sort : List Event → List Event
unfolding insert
sort [] = []
sort (e ∷ es) = insert e (sort es)

-- _normalize
unfoldable pub normalize : Runtime → List Value → Result (List Event × ℕ)
unfolding collect place_all sort
normalize rt events = do
  let first = collect rt events
  rest ← place_all (any is_aware first.0) first.0
  ok (sort rest.0, first.1 + rest.1)
