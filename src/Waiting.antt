-- ===== src/Waiting.antt =====
-- iaiops_energy/runtime/sessions.py `_wait_until` and iaiops_energy/connectors/dnp3/driver.py
-- `_settle_scan`: the two loops that poll until a deadline. Times are in microseconds.
pub mod Until
pub mod Liveness
pub mod Settle
mod Tests
use industrial_aiops_energy.Prelude.{
  ℕ, zero, suc, ◌+◌, ◌-◌, ◌*◌, ◌/◌, ◌≤◌, ◌<◌, ltb, leb, ◌==◌, ◌≡◌, Bool, true, false, ◌&&◌, not,
  Option, none, some, ℤ, pos_part, if◌then◌else◌,
}
use industrial_aiops_energy.Python.{Result, ok, raise}

-- time.monotonic and time.sleep, over the state of everything outside the program.
pub record Clock (W : Type 0) : Type 0 where
  pub monotonic : W → ℕ
  pub sleep : ℕ → W → W

-- Python documents that a sleep takes at least its time.
pub record ClockLaws {W : Type 0} (clock : Clock W) : Type 0 where
  pub sleep_takes : (d : ℕ) (w : W) → clock.monotonic w + d ≤ clock.monotonic (clock.sleep d w)

-- The clock is monotonic, also across a call.
abbrev pub NeverBack : {W A : Type 0} → Clock W → (W → A × W) → Type 0
NeverBack {W} clock f = (w : W) → clock.monotonic w ≤ clock.monotonic (f w).1

-- A predicate that raises counts as False.
abbrev pub holds : Result Bool → Bool
holds (ok b) = b
holds (raise e) = false

module _ {W : Type 0} (clock : Clock W) (predicate : W → Result Bool × W) (poll : ℕ) where
  -- The last call behind the loop.
  unfoldable pub last_probe : W → Bool × W
  last_probe w = let (r, w') = predicate w in (holds r, w')

  -- The loop of `_wait_until`; `none` means that the fuel ran out.
  unfoldable pub wait_loop : ℕ → ℕ → W → Option (Bool × W)
  wait_loop zero deadline w = none
  wait_loop (suc fuel) deadline w =
      let (r, w') = predicate w in
      let rest = wait_loop fuel deadline (clock.sleep poll w') in
      if ltb (clock.monotonic w) deadline
      then (if holds r then some (true, w') else rest)
      else some (last_probe w)

  -- _wait_until, with fuel for the rounds that fit in the timeout
  unfoldable pub wait_until : ℤ → W → Option (Bool × W)
  unfolding wait_loop
  wait_until timeout w = wait_loop (suc (pos_part timeout)) (clock.monotonic w + pos_part timeout) w

-- What the loop of `_settle_scan` keeps: last_count (`none` for -1) and stable_since.
pub record Watch : Type 0 where
  pub last_count : Option ℕ
  pub stable_since : ℕ

abbrev pub same_count : Option ℕ → ℕ → Bool
same_count none n = false
same_count (some m) n = m == n

module _ {W : Type 0} (clock : Clock W) (count_fn : W → ℕ × W) (quiet poll : ℕ) where
  -- What one round makes of the watch, with `now - stable_since >= quiet` as a sum; `none` is the early return.
  unfoldable pub observe : ℕ → ℕ → Watch → Option Watch
  observe current now watch =
      if not (same_count watch.last_count current)
      then some (record { last_count = some current; stable_since = now })
      else if ltb 0 current && leb (watch.stable_since + quiet) now
      then none
      else some watch

  -- The loop of `_settle_scan`; `none` means that the fuel ran out.
  unfoldable pub settle_loop : ℕ → ℕ → Watch → W → Option W
  settle_loop zero deadline watch w = none
  settle_loop (suc fuel) deadline watch w =
      let (current, w') = count_fn w in
      let rest : Option W = elim (observe current (clock.monotonic w') watch) [
        | none ↦ some w'
        | some watch' ↦ settle_loop fuel deadline watch' (clock.sleep poll w')
      ] in
      if ltb (clock.monotonic w) deadline then rest else some w

  -- _settle_scan
  unfoldable pub settle_scan : ℤ → W → Option W
  unfolding settle_loop
  settle_scan timeout w =
      settle_loop (suc (pos_part timeout)) (clock.monotonic w + pos_part timeout)
        (record { last_count = none; stable_since = clock.monotonic w }) w
