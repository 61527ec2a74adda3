-- ===== src/Waiting/Settle.antt =====
-- `_settle_scan` (connectors/dnp3/driver.py) ends, and when it ends early.
use mathlib.Core.Path.{subst}
use mathlib.Core.Option.{some-injective}
use industrial_aiops_energy.Prelude.{
  ℕ, zero, suc, ◌+◌, ◌≤◌, ◌<◌, ltb, ◌==◌, ◌≡◌, ◌≢◌, ◌⊎◌, inl, inr, refl, Option, none, some, ℤ,
  pos_part, arith, Option-cases, Bool-cases,
}
use industrial_aiops_energy.Waiting.{Clock, ClockLaws, Watch, observe, settle_loop, settle_scan}

module _ {W : Type 0} (clock : Clock W) (count_fn : W → ℕ × W) (quiet poll : ℕ) where
  -- Before the round at a state the count `c` was read in each round since the time `since`.
  pub data Held (c since : ℕ) : W → Type 0 where
    first :
        (v : W)
        → (count_fn v).0 ≡ c
        → clock.monotonic (count_fn v).1 ≡ since
        → Held c since (clock.sleep poll (count_fn v).1)
    again :
        (v : W)
        → Held c since v
        → (count_fn v).0 ≡ c
        → Held c since (clock.sleep poll (count_fn v).1)

  -- The watch tells the truth about the rounds before a state.
  abbrev WatchHeld : Watch → W → Type 0
  WatchHeld watch w = elim watch.last_count [
    | none ↦ Unit {0}
    | some c ↦ Held c watch.stable_since w
  ]

  -- The scan ended after the deadline, or at a reading of a positive count that was the same in
  -- every round since a time at least the quiet interval before.
  abbrev pub Settled : ℕ → W → Type 0
  Settled deadline out =
      (deadline ≤ clock.monotonic out)
      ⊎ ((c : ℕ) × (since : ℕ) × (v : W) × Held c since v
          × (count_fn v ≡ (c, out))
          × (0 < c)
          × (since + quiet ≤ clock.monotonic out))

  settle_loop_total :
      ClockLaws clock
      → ((w : W) → clock.monotonic w ≤ clock.monotonic (count_fn w).1)
      → 0 < poll
      → (fuel deadline : ℕ) (watch : Watch) (w : W) → deadline ≤ clock.monotonic w + fuel
      → settle_loop clock count_fn quiet poll (suc fuel) deadline watch w ≢ none
  unfolding settle_loop
  settle_loop_total laws forward step zero deadline watch w h = ground arith
  settle_loop_total laws forward step (suc fuel) deadline watch w h =
      let (current, w') = count_fn w in
      elim (Bool-cases (ltb (clock.monotonic w) deadline)) [
        | inr late ↦ rw late (λ e. cc)
        | inl early ↦
            elim (Option-cases
              (observe clock count_fn quiet poll current (clock.monotonic w') watch)) [
                | inl done ↦ rw (early, done) (λ e. cc)
                | inr (watch', e) ↦
                    rw (early, e)
                      (settle_loop_total laws forward step fuel deadline watch'
                        (clock.sleep poll w') (omega (arith, forward w, laws.sleep_takes poll w')))
              ]
      ]

  abbrev reading : W → Option ℕ → ℕ → Option Watch
  reading w last since =
      observe clock count_fn quiet poll (count_fn w).0 (clock.monotonic (count_fn w).1)
        (record { last_count = last; stable_since = since })

  abbrev fresh : W → Watch
  fresh w = record {
    last_count = some (count_fn w).0;
    stable_since = clock.monotonic (count_fn w).1;
  }

  fresh-WatchHeld :
      (w : W) (watch : Watch)
      → some (fresh w) ≡ some watch
      → WatchHeld watch (clock.sleep poll (count_fn w).1)
  fresh-WatchHeld w watch e =
      subst (λ x. WatchHeld x (clock.sleep poll (count_fn w).1)) (some-injective _ _ e)
        (first w refl refl)

  -- A round that goes on leaves a truthful watch.
  observe-WatchHeld :
      (last : Option ℕ) (since : ℕ) (watch : Watch) (w : W)
      → WatchHeld (record { last_count = last; stable_since = since }) w
      → reading w last since ≡ some watch
      → WatchHeld watch (clock.sleep poll (count_fn w).1)
  unfolding observe
  observe-WatchHeld none since watch w held e = fresh-WatchHeld w watch e
  observe-WatchHeld (some m) since watch w held e = elim (Bool-cases (m == (count_fn w).0)) [
    | inr other ↦ fresh-WatchHeld w watch (rw other at e)
    | inl same ↦
        let kept : record { last_count = some m; stable_since = since } ≡ watch = ground arith in
        subst (λ x. WatchHeld x (clock.sleep poll (count_fn w).1)) kept
          (again w held (ground arith))
  ]

  -- A round that ends the scan early has seen the count unchanged for the quiet interval.
  observe-none :
      (last : Option ℕ) (since deadline : ℕ) (w : W)
      → WatchHeld (record { last_count = last; stable_since = since }) w
      → reading w last since ≡ none
      → Settled deadline (count_fn w).1
  unfolding observe
  observe-none none since deadline w held e = cc
  observe-none (some m) since deadline w held e =
      inr (m, since, w, held, ground arith, ground arith, ground arith)

  settle_loop-Settled :
      (fuel deadline : ℕ) (watch : Watch) (w out : W)
      → WatchHeld watch w
      → settle_loop clock count_fn quiet poll fuel deadline watch w ≡ some out
      → Settled deadline out
  unfolding settle_loop
  settle_loop-Settled zero deadline watch w out held h = cc
  settle_loop-Settled (suc fuel) deadline watch w out held h =
      let (current, w') = count_fn w in
      elim (Bool-cases (ltb (clock.monotonic w) deadline)) [
        | inr late ↦ let same : w ≡ out = some-injective _ _ (rw late at h) in inl (ground arith)
        | inl early ↦ elim (Option-cases (reading w watch.last_count watch.stable_since)) [
          | inl done ↦
              subst (Settled deadline) (some-injective _ _ (rw (early, done) at h))
                (observe-none watch.last_count watch.stable_since deadline w held done)
          | inr (watch', e) ↦
              settle_loop-Settled fuel deadline watch' (clock.sleep poll w') out
                (observe-WatchHeld watch.last_count watch.stable_since watch' w held e)
                (rw (early, e) at h)
        ]
      ]

  -- Where the clock never goes back, a sleep takes its time and the pause is positive,
  -- `_settle_scan` ends: after its timeout, or at a reading of a positive count that every round
  -- since a time at least the quiet interval before has read.
  pub settle_scan-Settled :
      ClockLaws clock
      → ((w : W) → clock.monotonic w ≤ clock.monotonic (count_fn w).1)
      → 0 < poll
      → (timeout : ℤ) (w : W)
      → (out : W) × (settle_scan clock count_fn quiet poll timeout w ≡ some out)
        × Settled (clock.monotonic w + pos_part timeout) out
  unfolding settle_scan
  settle_scan-Settled laws forward step timeout w =
      let deadline = clock.monotonic w + pos_part timeout in
      let start : Watch = record { last_count = none; stable_since = clock.monotonic w } in
      elim (Option-cases
        (settle_loop clock count_fn quiet poll (suc (pos_part timeout)) deadline start w)) [
          | inl hangs ↦ absurd (
              settle_loop_total laws forward step (pos_part timeout) deadline start w (omega arith)
                hangs)
          | inr (out, e) ↦
              (out, e, settle_loop-Settled (suc (pos_part timeout)) deadline start w out tt e)
        ]

  -- What a count and a pause preserve holds behind the scan if it held before.
  settle_loop-keeps :
      (P : W → Type 0)
      → ((v : W) → P v → P (count_fn v).1)
      → ((v : W) → P v → P (clock.sleep poll v))
      → (fuel deadline : ℕ) (watch : Watch) (w out : W) → P w
      → settle_loop clock count_fn quiet poll fuel deadline watch w ≡ some out
      → P out
  unfolding settle_loop
  settle_loop-keeps P counted slept zero deadline watch w out p h = cc
  settle_loop-keeps P counted slept (suc fuel) deadline watch w out p h =
      elim (Bool-cases (ltb (clock.monotonic w) deadline)) [
        | inr late ↦ subst P (some-injective _ _ (rw late at h)) p
        | inl early ↦ elim (Option-cases (reading w watch.last_count watch.stable_since)) [
          | inl done ↦ subst P (some-injective _ _ (rw (early, done) at h)) (counted w p)
          | inr (watch', e) ↦
              settle_loop-keeps P counted slept fuel deadline watch'
                (clock.sleep poll (count_fn w).1) out (slept (count_fn w).1 (counted w p))
                (rw (early, e) at h)
        ]
      ]

  pub settle_scan-keeps :
      (P : W → Type 0)
      → ((v : W) → P v → P (count_fn v).1)
      → ((v : W) → P v → P (clock.sleep poll v))
      → (timeout : ℤ) (w out : W) → P w
      → settle_scan clock count_fn quiet poll timeout w ≡ some out
      → P out
  unfolding settle_scan
  settle_scan-keeps P counted slept timeout w out p h =
      settle_loop-keeps P counted slept (suc (pos_part timeout))
        (clock.monotonic w + pos_part timeout)
        (record { last_count = none; stable_since = clock.monotonic w }) w out p h
