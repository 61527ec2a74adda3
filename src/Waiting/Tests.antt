-- ===== src/Waiting/Tests.antt =====
-- The polling loops (sessions.py, dnp3/driver.py) over a clock that only sleeping moves.
use industrial_aiops_energy.Prelude.{
  ℕ, ◌+◌, ◌≡◌, refl, Bool, true, false, some, arith, leb, pos, negsuc,
}
use Prim.Native.Nat.{min}
use industrial_aiops_energy.Python.{Result, ok}
use industrial_aiops_energy.Waiting.{Clock, ClockLaws, last_probe, wait_until, observe, settle_scan}
use industrial_aiops_energy.Waiting.Until.{Answered, wait_until-Answered}

abbrev still : Clock ℕ
still = record { monotonic = λ w. w; sleep = λ d w. w + d }

still-ClockLaws : ClockLaws still
still-ClockLaws = record { sleep_takes = λ d w. omega arith }

-- A link that is up from the time 7 on.
abbrev up_at_seven : ℕ → Result Bool × ℕ
up_at_seven w = (ok (leb 7 w), w)

wait_until-Answered_example :
    (out : Bool × ℕ) × (wait_until still up_at_seven 2 (pos 20) 0 ≡ some out)
    × Answered still up_at_seven 2 20 out
wait_until-Answered_example =
    wait_until-Answered still up_at_seven 2 still-ClockLaws (λ w. omega arith) (omega arith)
      (pos 20) 0

wait_until-up : wait_until still up_at_seven 2 (pos 20) 0 ≡ some (true, 8)
unfolding wait_until
wait_until-up = refl

wait_until-down : wait_until still up_at_seven 2 (pos 5) 0 ≡ some (false, 6)
unfolding wait_until last_probe
wait_until-down = refl

-- A timeout that is not positive leaves one call.
wait_until-at_once : wait_until still up_at_seven 2 (negsuc 3) 9 ≡ some (true, 9)
unfolding wait_until last_probe
wait_until-at_once = refl

-- Points arrive one per time unit until there are four.
abbrev four_points : ℕ → ℕ × ℕ
four_points w = (min w 4, w)

settle_scan-early : settle_scan still four_points 6 2 (pos 40) 0 ≡ some 10
unfolding settle_scan observe
settle_scan-early = refl
