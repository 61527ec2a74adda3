-- ===== src/Substation/Normalize/Overflow.antt =====
-- When `_normalize` raises: an aware time whose moment in UTC lies outside the years 1 to 9999.
use industrial_aiops_energy.Prelude.{
  ℕ, ◌+◌, ◌-◌, ◌≤◌, ◌<◌, ◌⊎◌, inl, inr, Bool, true, false, Option, none, some, List, [], ◌∷◌, arith,
  any, Any, Bool-cases, ℤ, sub_ℕ, leb, ltb, pos_part, neg_part,
}
use industrial_aiops_energy.Python.{
  Value, Runtime, Result, ok, raise, other, overflow_error, max_micros, ◌>>=◌,
}
use industrial_aiops_energy.Substation.Normalize.{
  Event, Raw, is_aware, add_placed, collect, in_range, to_utc, place, place_all, sort, normalize,
}

-- The moment of an aware entry in UTC is before the year 1 or after the year 9999.
abbrev pub Overflows : Raw → Type 0
Overflows r = elim r.ts.offset [
  | none ↦ ⊥
  | some off ↦
      (r.ts.wall + neg_part off < pos_part off)
      ⊎ (max_micros + pos_part off ≤ r.ts.wall + neg_part off)
]

-- The run returned and no entry overflows, or some entry does and the run raised OverflowError.
abbrev pub Settles {ℓ} : {A : Type ℓ} → Type 0 → Result A → Type 0
Settles Over (ok a) = ¬ Over
Settles Over (raise (other overflow_error m)) = Over
Settles Over (raise e) = ⊥

in_range-Settles : (a b : ℕ) → Settles ((a < b) ⊎ (max_micros + b ≤ a)) (in_range (sub_ℕ a b))
unfolding in_range
in_range-Settles a b = elim (Bool-cases (leb b a)) [
  | inr below ↦ rw below (inl (ground arith))
  | inl above ↦ elim (Bool-cases (ltb (a - b) max_micros)) [
    | inl fits ↦ rw (above, fits) (λ over. ground arith)
    | inr late ↦ rw (above, late) (inr (ground arith))
  ]
]

-- `to_utc` and the rest of `place` keep how a run settles.
Settles-map :
    {A B : Type 0} (Over : Type 0) (m : Result A) (f : A → B)
    → Settles Over m
    → Settles Over (do a ← m; ok (f a))
Settles-map Over (ok a) f h = h
Settles-map Over (raise (other overflow_error m)) f h = h
Settles-map Over (raise e) f h = h

convert-Settles :
    (r : Raw) (off : ℤ)
    → Settles {A = Option Event}
        ((r.ts.wall + neg_part off < pos_part off)
          ⊎ (max_micros + pos_part off ≤ r.ts.wall + neg_part off))
        (do
          norm ← in_range (sub_ℕ (r.ts.wall + neg_part off) (pos_part off))
          ok (some (record { ref = r.ref; ts = norm; type = r.etype })))
convert-Settles r off =
    let n = r.ts.wall + neg_part off in
    Settles-map _ (in_range (sub_ℕ n (pos_part off)))
      (λ norm. Option.some (record { ref = r.ref; ts = norm; type = r.etype }))
      (in_range-Settles n (pos_part off))

-- The raw entry with another offset.
abbrev with_offset : Option ℤ → Raw → Raw
with_offset offset r = record r { ts = record r.ts { offset = offset } }

place-Settles_at :
    (zone : Bool) (offset : Option ℤ) (r : Raw)
    → Settles (Overflows (with_offset offset r)) (place zone (with_offset offset r))
unfolding place to_utc
place-Settles_at true none r = λ e. e
place-Settles_at false none r = λ e. e
place-Settles_at true (some off) r = convert-Settles r off
place-Settles_at false (some off) r = convert-Settles r off

place-Settles : (zone : Bool) (r : Raw) → Settles (Overflows r) (place zone r)
place-Settles zone r = place-Settles_at zone r.ts.offset r

bind-Settles :
    (Over Rest : Type 0) (m : Result (Option Event)) (n : Result (List Event × ℕ))
    → Settles Over m
    → Settles Rest n
    → Settles (Over ⊎ Rest) (do placed ← m; rest ← n; ok (add_placed placed rest))
bind-Settles Over Rest (ok a) (ok b) h k = λ o. elim o [ inl x ↦ h x | inr y ↦ k y ]
bind-Settles Over Rest (ok a) (raise (other overflow_error m)) h k = inr k
bind-Settles Over Rest (ok a) (raise e) h k = k
bind-Settles Over Rest (raise (other overflow_error m)) n h k = inl h
bind-Settles Over Rest (raise e) n h k = h

place_all-Settles :
    (zone : Bool) (raw : List Raw) → Settles (Any Overflows raw) (place_all zone raw)
unfolding place_all
place_all-Settles zone [] = λ e. e
place_all-Settles zone (r ∷ raw) =
    bind-Settles _ _ (place zone r) (place_all zone raw) (place-Settles zone r)
      (place_all-Settles zone raw)

-- `_normalize` returns when no readable entry that is aware lies outside the years 1 to 9999 in
-- UTC, and raises OverflowError when one does: a single such entry ends the whole analysis.
pub normalize-Settles :
    (rt : Runtime) (events : List Value)
    → Settles (Any Overflows (collect rt events).0) (normalize rt events)
unfolding normalize
normalize-Settles rt events =
    let (raw, ignored) = collect rt events in
    Settles-map (Any Overflows raw) (place_all (any is_aware raw) raw)
      (λ rest. (sort rest.0, ignored + rest.1)) (place_all-Settles (any is_aware raw) raw)
