-- ===== src/Waiting/Liveness.antt =====
-- `_wait_until` (runtime/sessions.py) gives True where the predicate comes to hold in time.
use mathlib.Core.Path.{subst}
use industrial_aiops_energy.Prelude.{
  ℕ, zero, suc, ◌+◌, ◌≤◌, ◌<◌, ltb, ◌≡◌, sym, ap, ◌∙◌, inl, inr, Bool, true, some, ℤ, pos_part,
  arith, Option-cases, Bool-cases,
}
use industrial_aiops_energy.Python.{Result}
use industrial_aiops_energy.Waiting.{
  Clock, ClockLaws, NeverBack, holds, last_probe, wait_loop, wait_until,
}
use industrial_aiops_energy.Waiting.Until.{wait_loop_total}

module _ {W : Type 0} (clock : Clock W) (predicate : W → Result Bool × W) (poll : ℕ)
    (I : W → Type 0) where
  -- A round keeps the invariant.
  abbrev pub Kept : Type 0
  Kept = ((w : W) → I w → I (predicate w).1) × ((w : W) → I w → I (clock.sleep poll w))

  -- From this time on the predicate holds, wherever the invariant does.
  abbrev pub HoldsFrom : ℕ → Type 0
  HoldsFrom t = (w : W) → I w → t ≤ clock.monotonic w → holds (predicate w).0 ≡ true

  wait_loop-HoldsFrom :
      (t fuel deadline : ℕ) (w : W) (out : Bool × W)
      → Kept
      → HoldsFrom t
      → t ≤ deadline
      → I w
      → wait_loop clock predicate poll fuel deadline w ≡ some out
      → (out.0 ≡ true) × I out.1
  unfolding wait_loop last_probe
  wait_loop-HoldsFrom t zero deadline w out kept up early i h = cc
  wait_loop-HoldsFrom t (suc fuel) deadline w out kept up early i h =
      let w' = (predicate w).1 in
      let i' = kept.0 w i in
      elim (Bool-cases (ltb (clock.monotonic w) deadline)) [
        | inr late ↦
            let past : deadline ≤ clock.monotonic w = ground arith in
            let found = up w i (omega arith) in
            let same : (holds (predicate w).0, w') ≡ out = ground arith in
            (ap (λ o. o.0) (sym same) ∙ found, subst (λ o. I o.1) same i')
        | inl in_time ↦ elim (Bool-cases (holds (predicate w).0)) [
          | inl found ↦
              let same : (true, w') ≡ out = ground arith in
              (ap (λ o. o.0) (sym same), subst (λ o. I o.1) same i')
          | inr again ↦
              wait_loop-HoldsFrom t fuel deadline (clock.sleep poll w') out kept up early
                (kept.1 w' i') (ground arith)
        ]
      ]

  pub wait_until-HoldsFrom :
      ClockLaws clock
      → NeverBack clock predicate
      → 0 < poll
      → Kept
      → (t : ℕ) (timeout : ℤ) (w : W) → HoldsFrom t
      → t ≤ clock.monotonic w + pos_part timeout
      → I w
      → (up : W) × (wait_until clock predicate poll timeout w ≡ some (true, up)) × I up
  unfolding wait_until
  wait_until-HoldsFrom laws forward step kept t timeout w up early i =
      let deadline = clock.monotonic w + pos_part timeout in
      let fuel = pos_part timeout in
      elim (Option-cases (wait_loop clock predicate poll (suc fuel) deadline w)) [
        | inl hangs ↦ absurd (
            wait_loop_total clock predicate poll laws forward step fuel deadline w (omega arith)
              hangs)
        | inr ((answer, found), e) ↦
            let (yes_answer, i') =
              wait_loop-HoldsFrom t (suc fuel) deadline w (answer, found) kept up early i e in
            (found, ground arith, i')
      ]
