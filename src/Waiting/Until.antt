-- ===== src/Waiting/Until.antt =====
-- `_wait_until` (runtime/sessions.py) ends, and what its answer means.
use industrial_aiops_energy.Prelude.{
  ℕ, zero, suc, ◌+◌, ◌≤◌, ◌<◌, ltb, ◌≡◌, ◌≢◌, ◌⊎◌, inl, inr, Bool, true, none, some, ℤ, pos_part,
  arith, Option-cases, Bool-cases,
}
use industrial_aiops_energy.Python.{Result}
use industrial_aiops_energy.Waiting.{
  Clock, ClockLaws, NeverBack, holds, last_probe, wait_loop, wait_until,
}

module _ {W : Type 0} (clock : Clock W) (predicate : W → Result Bool × W) (poll : ℕ) where
  pub wait_loop_total :
      ClockLaws clock
      → NeverBack clock predicate
      → 0 < poll
      → (fuel deadline : ℕ) (w : W) → deadline ≤ clock.monotonic w + fuel
      → wait_loop clock predicate poll (suc fuel) deadline w ≢ none
  unfolding wait_loop
  wait_loop_total laws forward step zero deadline w h = ground arith
  wait_loop_total laws forward step (suc fuel) deadline w h =
      let w' = (predicate w).1 in
      ground (
        arith,
        forward w,
        laws.sleep_takes poll w',
        wait_loop_total laws forward step fuel deadline (clock.sleep poll w'),
      )

  -- The answer is that of a call of the predicate, which was True or came after the deadline.
  abbrev pub Answered : ℕ → Bool × W → Type 0
  Answered deadline out =
      (w : W) × (last_probe clock predicate poll w ≡ out)
      × ((out.0 ≡ true) ⊎ (deadline ≤ clock.monotonic w))

  pub wait_loop-Answered :
      (fuel deadline : ℕ) (w : W) (out : Bool × W)
      → wait_loop clock predicate poll fuel deadline w ≡ some out
      → Answered deadline out
  unfolding wait_loop last_probe
  wait_loop-Answered zero deadline w out h = cc
  wait_loop-Answered (suc fuel) deadline w out h =
      elim (Bool-cases (ltb (clock.monotonic w) deadline)) [
        | inr late ↦ (w, ground arith, inr (ground arith))
        | inl early ↦ elim (Bool-cases (holds (predicate w).0)) [
          | inl found ↦ (w, ground arith, inl (ground arith))
          | inr again ↦
              wait_loop-Answered fuel deadline (clock.sleep poll (predicate w).1) out (ground arith)
        ]
      ]

  -- Where the clock never goes back, a sleep takes its time and the pause is positive, `_wait_until`
  -- ends, and its answer is that of its last call of the predicate, an exception counting as False:
  -- that call gave True, or it was made when the timeout had passed.
  pub wait_until-Answered :
      ClockLaws clock
      → NeverBack clock predicate
      → 0 < poll
      → (timeout : ℤ) (w : W)
      → (out : Bool × W) × (wait_until clock predicate poll timeout w ≡ some out)
        × Answered (clock.monotonic w + pos_part timeout) out
  unfolding wait_until
  wait_until-Answered laws forward step timeout w =
      let deadline = clock.monotonic w + pos_part timeout in
      let fuel = pos_part timeout in
      elim (Option-cases (wait_loop clock predicate poll (suc fuel) deadline w)) [
        | inl hangs ↦ absurd (wait_loop_total laws forward step fuel deadline w (omega arith) hangs)
        | inr (out, e) ↦ (out, e, wait_loop-Answered (suc fuel) deadline w out e)
      ]
