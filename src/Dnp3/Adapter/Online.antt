-- ===== src/Dnp3/Adapter/Online.antt =====
-- When the adapter of dnp3/driver.py reports the outstation online.
use mathlib.Core.Path.{subst, ap₂}
use mathlib.Core.Option.{some-injective}
use industrial_aiops_energy.Prelude.{
  ℕ, ◌≡◌, ◌↔◌, ◌++◌, All, sym, ap, ◌∙◌, ◌⊎◌, inl, inr, refl, arith, true, none, some, List, [], ◌∷◌,
  Option-cases,
}
use industrial_aiops_energy.Python.{Runtime}
use industrial_aiops_energy.Dnp3.Adapter.{
  Adapter, Binding, on_state_change, on_keep_alive_success, on_keep_alive_failure,
  on_keep_alive_result, on_receive_iin, process, Happening, callback, enable_call, shutdown_call,
  happen, deliver, attempt, enable, shutdown, is_online, channel_is_open, new_adapter, run,
}

-- It says nothing about the channel.
abbrev pub Silent : Happening → Type 0
Silent (callback (on_state_change state)) = ⊥
Silent (callback c) = Unit
Silent enable_call = Unit
Silent shutdown_call = ⊥

-- The channel reached `state`, and neither another change nor a shutdown came after it.
abbrev pub LastReached : ℕ → List Happening → Type 0
LastReached state hs =
    (before : List Happening) × (after : List Happening) × (hs
      ≡ before ++ callback (on_state_change state) ∷ after)
    × All Silent after

module _ (rt : Runtime) (lib : Binding) where
  enable_keeps_channel : (a : Adapter) → (enable lib a).1.channel_state ≡ a.channel_state
  unfolding enable attempt
  enable_keeps_channel a = ground arith

  happen_keeps_channel :
      (h : Happening) (a : Adapter) → Silent h → (happen rt lib h a).channel_state ≡ a.channel_state
  unfolding deliver
  happen_keeps_channel (callback (on_state_change state)) a h = absurd h
  happen_keeps_channel (callback on_keep_alive_success) a h = ground arith
  happen_keeps_channel (callback on_keep_alive_failure) a h = ground arith
  happen_keeps_channel (callback (on_keep_alive_result status)) a h = ground arith
  happen_keeps_channel (callback (on_receive_iin iin)) a h = ground arith
  happen_keeps_channel (callback (process values)) a h = ground arith
  happen_keeps_channel enable_call a h = enable_keeps_channel a
  happen_keeps_channel shutdown_call a h = absurd h

  pub run_keeps_channel :
      (hs : List Happening) (a : Adapter)
      → All Silent hs
      → (run rt lib hs a).channel_state ≡ a.channel_state
  unfolding run
  run_keeps_channel [] a h = refl
  run_keeps_channel (x ∷ hs) a h =
      run_keeps_channel hs (happen rt lib x a) h.1 ∙ happen_keeps_channel x a h.0

  pub run-append :
      (xs ys : List Happening) (a : Adapter)
      → run rt lib (xs ++ ys) a ≡ run rt lib ys (run rt lib xs a)
  unfolding run
  run-append [] ys a = refl
  run-append (x ∷ xs) ys a = run-append xs ys (happen rt lib x a)

  happen_cases :
      (h : Happening) (a : Adapter)
      → Silent h
        ⊎ (((state : ℕ) × (h ≡ callback (on_state_change state))
              × ((happen rt lib h a).channel_state ≡ some state))
            ⊎ ((happen rt lib h a).channel_state ≡ none))
  unfolding deliver shutdown
  happen_cases (callback (on_state_change state)) a = inr (inl (state, refl, refl))
  happen_cases (callback on_keep_alive_success) a = inl tt
  happen_cases (callback on_keep_alive_failure) a = inl tt
  happen_cases (callback (on_keep_alive_result status)) a = inl tt
  happen_cases (callback (on_receive_iin iin)) a = inl tt
  happen_cases (callback (process values)) a = inl tt
  happen_cases enable_call a = inl tt
  happen_cases shutdown_call a = inr (inr refl)

  pub run-LastReached :
      (hs : List Happening) (a : Adapter) (state : ℕ)
      → (run rt lib hs a).channel_state ≡ some state
      → (All Silent hs × (a.channel_state ≡ some state)) ⊎ LastReached state hs
  unfolding run
  run-LastReached [] a state e = inl (tt, e)
  run-LastReached (h ∷ hs) a state e = elim (run-LastReached hs (happen rt lib h a) state e) [
    | inr (before, after, split, silent) ↦ inr (h ∷ before, after, ap (λ t. h ∷ t) split, silent)
    | inl (silent, e') ↦ elim (happen_cases h a) [
      | inl quiet ↦ inl ((quiet, silent), sym (happen_keeps_channel h a quiet) ∙ e')
      | inr (inl (t, eq, now)) ↦
          let same : t ≡ state = some-injective _ _ (sym now ∙ e') in
          inr (
            [],
            hs,
            ap₂ (λ u x. u ∷ x) (eq ∙ ap (λ u. callback (on_state_change u)) same) refl,
            silent,
          )
      | inr (inr gone) ↦ absurd (ground arith)
    ]
  ]

  pub LastReached-run :
      (hs : List Happening) (a : Adapter) (state : ℕ)
      → LastReached state hs
      → (run rt lib hs a).channel_state ≡ some state
  unfolding run deliver
  LastReached-run hs a state (before, after, split, silent) =
      ap (λ t. (run rt lib t a).channel_state) split
      ∙ (ap (λ b. b.channel_state) (run-append before (callback (on_state_change state) ∷ after) a)
          ∙ run_keeps_channel after
              (happen rt lib (callback (on_state_change state)) (run rt lib before a)) silent)

  -- After any sequence of callbacks and calls of `enable` and `shutdown` from a new adapter, whatever
  -- the calls of the binding raise, the adapter reports the outstation online exactly if the
  -- channel reached the state OPEN, and no other state change and no shutdown came after that.
  -- That `enable` ran does not count.
  pub is_online_iff :
      (hs : List Happening)
      → (is_online lib (run rt lib hs new_adapter) ≡ true) ↔ LastReached lib.open_state hs
  unfolding is_online channel_is_open new_adapter
  is_online_iff hs = (
    λ up. elim (Option-cases (run rt lib hs new_adapter).channel_state) [
      | inl unknown ↦ absurd (ground arith)
      | inr (state, e) ↦
          let same : state ≡ lib.open_state = ground arith in
          elim (run-LastReached hs new_adapter state e) [
            | inl (silent, never) ↦ absurd (ground arith)
            | inr reached ↦ subst (λ u. LastReached u hs) same reached
          ]
    ],
    λ reached. let whole = LastReached-run hs new_adapter lib.open_state reached in ground arith,
  )
