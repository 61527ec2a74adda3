-- ===== src/Sessions/Action/Laws.antt =====
-- What the actions of a session did, from how they ended.
use mathlib.Core.Path.{subst, ap₂}
use industrial_aiops_energy.Prelude.{
  Bool, true, some, ◌≡◌, ◌⊎◌, inl, inr, arith, Option-cases, ℤ, pos_part, ◌+◌, suc, ◌∙◌,
}
use industrial_aiops_energy.Python.{Result, ok, raise, Exception, ot_connection_error, other}
use industrial_aiops_energy.Waiting.{ClockLaws, NeverBack, last_probe, wait_loop, wait_until}
use industrial_aiops_energy.Waiting.Until.{wait_loop-Answered, wait_until-Answered}
use industrial_aiops_energy.Sessions.Action.{
  Call, Library, State, Run, finally_, translating, ◌>>=◌, perform, call, state_clock, wait_for,
}

-- The exception is an OTConnectionError.
abbrev pub IsTeaching : Exception → Type 0
IsTeaching (ot_connection_error m e p) = Unit
IsTeaching (other c m) = ⊥

module _ {W A B : Type 0} (m : Run W A) (f : A → Run W B) (st st' : State W) where
  -- A sequence that returned did so in both parts.
  pub bind-ok :
      (b : B)
      → (m >>= f) st ≡ some (ok b, st')
      → (a : A) × (mid : State W) × (m st ≡ some (ok a, mid)) × (f a mid ≡ some (ok b, st'))
  bind-ok b h = elim (Option-cases (m st)) [
    | inl hangs ↦ absurd (ground arith)
    | inr ((ok a, mid), e) ↦ (a, mid, e, ground arith)
    | inr ((raise x, mid), e) ↦ absurd (ground arith)
  ]

  -- A sequence that raised did so in its first part, or in its second.
  pub bind-raise :
      (x : Exception)
      → (m >>= f) st ≡ some (raise x, st')
      → (m st ≡ some (raise x, st'))
        ⊎ ((a : A) × (mid : State W) × (m st ≡ some (ok a, mid)) × (f a mid ≡ some (raise x, st')))
  bind-raise x h = elim (Option-cases (m st)) [
    | inl hangs ↦ absurd (ground arith)
    | inr ((ok a, mid), e) ↦ inr (a, mid, e, ground arith)
    | inr ((raise y, mid), e) ↦ inl (ground arith)
  ]

module _ {W A : Type 0} (lib : Library W) (c : Call) (m : Run W A) where
  -- Behind a `finally` that makes one call the result is the block's, and the call comes last.
  pub finally_-call :
      (r : Result A) (st st' : State W)
      → finally_ (call lib c) m st ≡ some (r, st')
      → (mid : State W) × (m st ≡ some (r, mid)) × (st' ≡ (perform lib c mid).1)
  unfolding finally_
  finally_-call r st st' h = elim (Option-cases (m st)) [
    | inl hangs ↦ absurd (ground arith)
    | inr ((q, mid), e) ↦ (mid, ground arith, ground arith)
  ]

module _ {W A : Type 0} (translate : Exception → Exception) (m : Run W A) (st st' : State W) where
  pub translating-ok :
      (a : A) → translating translate m st ≡ some (ok a, st') → m st ≡ some (ok a, st')
  unfolding translating
  translating-ok a h = elim (Option-cases (m st)) [
    | inl hangs ↦ absurd (ground arith)
    | inr ((ok b, mid), e) ↦ ground arith
    | inr ((raise x, mid), e) ↦ absurd (ground arith)
  ]

  pub translating-raise :
      (x : Exception)
      → translating translate m st ≡ some (raise x, st')
      → (y : Exception) × (m st ≡ some (raise y, st'))
  unfolding translating
  translating-raise x h = elim (Option-cases (m st)) [
    | inl hangs ↦ absurd (ground arith)
    | inr ((ok b, mid), e) ↦ absurd (ground arith)
    | inr ((raise y, mid), e) ↦ (y, ground arith)
  ]

  pub translating-IsTeaching :
      (x : Exception)
      → ((y : Exception) → IsTeaching (translate y))
      → translating translate m st ≡ some (raise x, st')
      → IsTeaching x
  unfolding translating
  translating-IsTeaching x teaches h = elim (Option-cases (m st)) [
    | inl hangs ↦ absurd (ground arith)
    | inr ((ok b, mid), e) ↦ absurd (ground arith)
    | inr ((raise (ot_connection_error a b c), mid), e) ↦
        let same : ot_connection_error a b c ≡ x = ground arith in subst IsTeaching same tt
    | inr ((raise (other a b), mid), e) ↦
        let same : translate (other a b) ≡ x = ground arith in
        subst IsTeaching same (teaches (other a b))
  ]

module _ {W : Type 0} (lib : Library W) (question : Call) where
  probe-true :
      (asked up : State W)
      → last_probe (state_clock lib) (perform lib question) 50_000 asked ≡ (true, up)
      → perform lib question asked ≡ (ok true, up)
  unfolding last_probe
  probe-true asked up h = ground arith

  -- Where the wait gives True the last reply was True, and nothing happened since.
  pub wait_for-true :
      (timeout : ℤ) (st up : State W)
      → wait_for lib question timeout st ≡ some (ok true, up)
      → (asked : State W) × (perform lib question asked ≡ (ok true, up))
  unfolding wait_for wait_until
  wait_for-true timeout st up h =
      let deadline = lib.clock.monotonic st.world + pos_part timeout in
      let fuel = suc (pos_part timeout) in
      elim (Option-cases
        (wait_loop (state_clock lib) (perform lib question) 50_000 fuel deadline st)) [
          | inl hangs ↦ absurd (ground arith)
          | inr ((answer, found), e) ↦
              let yes_answer : answer ≡ true = ground arith in
              let same : found ≡ up = ground arith in
              let (asked, probe, _) =
                wait_loop-Answered (state_clock lib) (perform lib question) 50_000 fuel deadline st
                  (answer, found) e in
              (asked, probe-true asked up (probe ∙ ap₂ (λ a s. (a, s)) yes_answer same))
        ]

  -- Where the clock keeps its laws the wait ends, with an answer and no exception.
  pub wait_for_total :
      (timeout : ℤ) (st : State W)
      → ClockLaws lib.clock
      → NeverBack lib.clock (lib.respond question)
      → (answer : Bool) × (up : State W) × (wait_for lib question timeout st ≡ some (ok answer, up))
  unfolding wait_for
  wait_for_total timeout st laws forward =
      let ((answer, up), e, _) =
        wait_until-Answered (state_clock lib) (perform lib question) 50_000
          (record { sleep_takes = λ d s. laws.sleep_takes d s.world }) (λ s. forward s.world)
          (omega arith) timeout st in
      (answer, up, ground arith)
