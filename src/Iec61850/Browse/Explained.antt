-- ===== src/Iec61850/Browse/Explained.antt =====
-- What the outcome of get_data_directory (iec61850/driver.py) says about the levels.
use mathlib.Core.Path.{subst}
use industrial_aiops_energy.Prelude.{
  ℕ, ◌≡◌, ◌≢◌, ◌⊎◌, inl, inr, refl, ap, sym, arith, Bool, true, false, none, some, List, [], ◌∷◌,
  ◌++◌, Text, All, Any, Option-cases, nil_cases,
}
use industrial_aiops_energy.Python.{Result, ok, raise}
use industrial_aiops_energy.Iec61850.Binding.{Binding, Level, linkedlist_to_str, free_list}
use industrial_aiops_energy.Iec61850.Browse.{
  level_reply, attempts, browse_levels, get_data_directory,
}

module _ (lib : Binding) (reference : Text) where
  -- The call is absent, or failed.
  abbrev pub Failed : Level → Type 0
  Failed level = level_reply lib reference level ≡ none

  -- The level names no child: it failed, or gave no list, or a list of no names.
  abbrev pub Nameless : Level → Type 0
  Nameless level =
      (payload : ℕ)
      → level_reply lib reference level ≡ some (some payload)
      → linkedlist_to_str lib payload ≡ []

  abbrev pub Succeeded : Level → Type 0
  Succeeded level = level_reply lib reference level ≢ none

  -- The first level that names a child gave these names.
  abbrev pub FirstNamed : List Level → List Text → Type 0
  FirstNamed levels names =
      (before : List Level) × (level : Level) × (after : List Level) × (payload : ℕ) × (levels
        ≡ before ++ level ∷ after)
      × All Nameless before
      × (level_reply lib reference level ≡ some (some payload))
      × (linkedlist_to_str lib payload ≡ names)
      × (names ≢ [])

  -- What an outcome says of the levels: an exception, that all failed; an empty list, that one
  -- succeeded and none names a child; names, that they are those of the first level that has any.
  abbrev pub Explained : List Level → Bool → Result (List Text) → Type 0
  Explained levels saw (raise x) = (saw ≡ false) × All Failed levels
  Explained levels saw (ok names) =
      ((names ≡ []) × ((saw ≡ true) ⊎ Any Succeeded levels) × All Nameless levels)
      ⊎ FirstNamed levels names

  skip-Explained :
      (level : Level) (levels : List Level) (saw : Bool) (r : Result (List Text))
      → Failed level
      → Explained levels saw r
      → Explained (level ∷ levels) saw r
  skip-Explained level levels saw (raise x) failed (unseen, all) = (unseen, (failed, all))
  skip-Explained level levels saw (ok names) failed (inl (e, inl seen, all)) =
      inl (e, inl seen, ((λ payload h. absurd (ground arith)), all))
  skip-Explained level levels saw (ok names) failed (inl (e, inr some_level, all)) =
      inl (e, inr (inr some_level), ((λ payload h. absurd (ground arith)), all))
  skip-Explained level levels saw (ok names) failed
        (inr (before, l, after, payload, split, none_before, given, same, some_name)) =
      inr (
        level ∷ before,
        l,
        after,
        payload,
        ap (λ t. level ∷ t) split,
        ((λ p h. absurd (ground arith)), none_before),
        given,
        same,
        some_name,
      )

  seen-Explained :
      (level : Level) (levels : List Level) (saw : Bool) (r : Result (List Text))
      → Succeeded level
      → Nameless level
      → Explained levels true r
      → Explained (level ∷ levels) saw r
  seen-Explained level levels saw (raise x) success nameless (unseen, all) = absurd (ground arith)
  seen-Explained level levels saw (ok names) success nameless (inl (e, seen, all)) =
      inl (e, inr (inl success), (nameless, all))
  seen-Explained level levels saw (ok names) success nameless
        (inr (before, l, after, payload, split, none_before, given, same, some_name)) =
      inr (
        level ∷ before,
        l,
        after,
        payload,
        ap (λ t. level ∷ t) split,
        (nameless, none_before),
        given,
        same,
        some_name,
      )

  -- The three ways on in the loop, and the way out of it.
  browse_levels-Failed :
      (level : Level) (levels : List Level) (saw : Bool) (freed : List ℕ)
      → Failed level
      → browse_levels lib reference (level ∷ levels) saw freed
        ≡ browse_levels lib reference levels saw freed
  unfolding browse_levels
  browse_levels-Failed level levels saw freed e = ground arith

  browse_levels-no_payload :
      (level : Level) (levels : List Level) (saw : Bool) (freed : List ℕ)
      → level_reply lib reference level ≡ some none
      → browse_levels lib reference (level ∷ levels) saw freed
        ≡ browse_levels lib reference levels true freed
  unfolding browse_levels
  browse_levels-no_payload level levels saw freed e = ground arith

  browse_levels-no_names :
      (level : Level) (levels : List Level) (saw : Bool) (freed : List ℕ) (payload : ℕ)
      → level_reply lib reference level ≡ some (some payload)
      → linkedlist_to_str lib payload ≡ []
      → browse_levels lib reference (level ∷ levels) saw freed
        ≡ browse_levels lib reference levels true (free_list lib payload freed)
  unfolding browse_levels
  browse_levels-no_names level levels saw freed payload e n = ground arith

  browse_levels-names :
      (level : Level) (levels : List Level) (saw : Bool) (freed : List ℕ) (payload : ℕ)
      → level_reply lib reference level ≡ some (some payload)
      → linkedlist_to_str lib payload ≢ []
      → browse_levels lib reference (level ∷ levels) saw freed
        ≡ (ok (linkedlist_to_str lib payload), free_list lib payload freed)
  unfolding browse_levels
  browse_levels-names level levels saw freed payload e n = ground arith

  outcome_step :
      (levels : List Level) (saw answered : Bool) (freed : List ℕ) (b : Result (List Text) × List ℕ)
      → browse_levels lib reference levels saw freed ≡ b
      → Explained levels answered b.0
      → Explained levels answered (browse_levels lib reference levels saw freed).0
  outcome_step levels saw answered freed b e h =
      subst (λ x. Explained levels answered x.0) (sym e) h

  browse_levels-Explained :
      (levels : List Level) (saw : Bool) (freed : List ℕ)
      → Explained levels saw (browse_levels lib reference levels saw freed).0
  unfolding browse_levels
  browse_levels-Explained [] true freed = inl (refl, inl refl, tt)
  browse_levels-Explained [] false freed = (refl, tt)
  browse_levels-Explained (level ∷ levels) saw freed =
      elim (Option-cases (level_reply lib reference level)) [
        | inl failed ↦
            outcome_step (level ∷ levels) saw saw freed _
              (browse_levels-Failed level levels saw freed failed)
              (skip-Explained level levels saw _ failed (browse_levels-Explained levels saw freed))
        | inr (none, e) ↦
            outcome_step (level ∷ levels) saw saw freed _
              (browse_levels-no_payload level levels saw freed e)
              (seen-Explained level levels saw _ (λ h. ground arith) (λ p h. absurd (ground arith))
                (browse_levels-Explained levels true freed))
        | inr (some payload, e) ↦ elim (nil_cases (linkedlist_to_str lib payload)) [
          | inl nil ↦
              outcome_step (level ∷ levels) saw saw freed _
                (browse_levels-no_names level levels saw freed payload e nil)
                (seen-Explained level levels saw _ (λ h. ground arith) (λ p h. ground arith)
                  (browse_levels-Explained levels true (free_list lib payload freed)))
          | inr named ↦
              outcome_step (level ∷ levels) saw saw freed _
                (browse_levels-names level levels saw freed payload e named)
                (inr ([], level, levels, payload, refl, tt, e, refl, named))
        ]
      ]

  -- A browse that raises found every level absent or failed. One that returns no names had a level
  -- that succeeded, and no level gives a name. One that returns names returns those of the first
  -- level that gives any.
  pub get_data_directory-Explained :
      (freed : List ℕ) → Explained attempts false (get_data_directory lib reference freed).0
  unfolding get_data_directory
  get_data_directory-Explained freed = browse_levels-Explained attempts false freed
