-- ===== src/Substation/Normalize/Zones.antt =====
-- Entries that `_normalize` passes over: unreadable ones, and naive times amid aware ones.
use industrial_aiops_energy.Prelude.{
  ℕ, suc, ◌+◌, ◌≡◌, ◌⊎◌, inl, inr, refl, sym, ◌∙◌, ap, true, false, none, some, List, [], ◌∷◌, ◌++◌,
  arith, any,
}
use industrial_aiops_energy.Python.{Value, Runtime, Result, ok, raise, ◌>>=◌}
use industrial_aiops_energy.Substation.Normalize.{
  Event, Raw, is_aware, read_event, collect, place_all, sort, normalize,
}

-- The same outcome with one entry more counted as ignored.
abbrev pub one_ignored : Result (List Event × ℕ) → Result (List Event × ℕ)
one_ignored (ok (parsed, ignored)) = ok (parsed, suc ignored)
one_ignored (raise e) = raise e

module _ (rt : Runtime) where
  collect-append :
      (xs ys : List Value)
      → collect rt (xs ++ ys)
        ≡ ((collect rt xs).0 ++ (collect rt ys).0, (collect rt xs).1 + (collect rt ys).1)
  unfolding collect
  collect-append [] ys = ground arith
  collect-append (x ∷ xs) ys = ground (arith, collect-append xs ys)

  collect-unread :
      (xs ys : List Value) (event : Value)
      → read_event rt event ≡ none
      → collect rt (xs ++ event ∷ ys) ≡ ((collect rt (xs ++ ys)).0, suc (collect rt (xs ++ ys)).1)
  unfolding collect
  collect-unread [] ys event unread = ground arith
  collect-unread (x ∷ xs) ys event unread = ground (arith, collect-unread xs ys event unread)

  collect-read :
      (xs ys : List Value) (event : Value) (r : Raw)
      → read_event rt event ≡ some r
      → collect rt (xs ++ event ∷ ys)
        ≡ ((collect rt xs).0 ++ r ∷ (collect rt ys).0, (collect rt (xs ++ ys)).1)
  unfolding collect
  collect-read [] ys event r reads = ground arith
  collect-read (x ∷ xs) ys event r reads = ground (arith, collect-read xs ys event r reads)

any_aware-insert :
    (before after : List Raw) (r : Raw)
    → is_aware r ≡ false
    → any is_aware (before ++ r ∷ after) ≡ any is_aware (before ++ after)
any_aware-insert [] after r naive = ground arith
any_aware-insert (a ∷ before) after r naive = ground (arith, any_aware-insert before after r naive)

place_all-insert :
    (before after : List Raw) (r : Raw)
    → is_aware r ≡ false
    → place_all true (before ++ r ∷ after) ≡ one_ignored (place_all true (before ++ after))
unfolding place_all
place_all-insert [] after r naive = ground arith
place_all-insert (a ∷ before) after r naive =
    rw (place_all-insert before after r naive) (ground arith)

-- Why an entry is passed over, among others that hold the raw entries `rest`.
abbrev pub Skipped : Runtime → List Raw → Value → Type 0
Skipped rt rest event =
    (read_event rt event ≡ none)
    ⊎ ((r : Raw) × (read_event rt event ≡ some r)
        × (is_aware r ≡ false)
        × (any is_aware rest ≡ true))

-- The last lines of `_normalize`, with one more entry that the first loop ignored ...
finish-suc :
    (m : Result (List Event × ℕ)) (k : ℕ)
    → (do rest ← m; ok (sort rest.0, suc k + rest.1))
      ≡ one_ignored (do rest ← m; ok (sort rest.0, k + rest.1))
finish-suc (ok rest) k = ground arith
finish-suc (raise e) k = refl

-- ... or that the second loop did.
finish-one_ignored :
    (m : Result (List Event × ℕ)) (k : ℕ)
    → (do rest ← one_ignored m; ok (sort rest.0, k + rest.1))
      ≡ one_ignored (do rest ← m; ok (sort rest.0, k + rest.1))
finish-one_ignored (ok rest) k = ground arith
finish-one_ignored (raise e) k = refl

-- An entry with no readable timestamp, and one with a naive time in a list that has an aware time
-- elsewhere, changes nothing of what `_normalize` does but to be counted as ignored.
pub normalize-skip :
    (rt : Runtime) (xs ys : List Value) (event : Value)
    → Skipped rt (collect rt (xs ++ ys)).0 event
    → normalize rt (xs ++ event ∷ ys) ≡ one_ignored (normalize rt (xs ++ ys))
unfolding normalize
normalize-skip rt xs ys event (inl unread) =
    rw (collect-unread rt xs ys event unread) (finish-suc _ _)
normalize-skip rt xs ys event (inr (r, reads, naive, zone)) =
    let raw = (collect rt xs).0 ++ (collect rt ys).0 in
    let same : (collect rt (xs ++ ys)).0 ≡ raw =
      ap (λ (c : List Raw × ℕ). c.0) (collect-append rt xs ys) in
    let aware : any is_aware raw ≡ true = sym (ap (any is_aware) same) ∙ zone in
    rw
      (
        collect-read rt xs ys event r reads,
        same,
        any_aware-insert (collect rt xs).0 _ r naive,
        aware,
        place_all-insert (collect rt xs).0 _ r naive,
      )
      (finish-one_ignored _ _)
