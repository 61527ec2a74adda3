-- ===== src/Sessions/Managers/Runs.antt =====
-- A DNP3 session of sessions.py that returns, by the states that it went through.
use mathlib.Core.Option.{some-injective}
use industrial_aiops_energy.Prelude.{
  Bool, true, false, some, ◌≡◌, inl, inr, arith, Bool-cases, ℤ, codes, text_eq,
}
use industrial_aiops_energy.Python.{Runtime, ok}
use industrial_aiops_energy.Targets.{Target, or_default}
use industrial_aiops_energy.Sessions.Action.{
  is_online, enable, shutdown, Library, State, Run, ◌>>◌, perform, call, wait_for,
}
use industrial_aiops_energy.Sessions.Action.Laws.{bind-ok}
use industrial_aiops_energy.Sessions.Messages.{translate_energy}
use industrial_aiops_energy.Sessions.Managers.{when_up, dnp3_late, build_dnp3_client, dnp3_session}
use industrial_aiops_energy.Sessions.Managers.Endings.{managed-ok, polled}

module _ {W : Type 0} (lib : Library W) (rt : Runtime) (target : Target) (timeout : ℤ) where
  -- A session from `st` built and enabled its adapter, and its wait for the outstation ended with True
  -- in the state `up`.
  abbrev pub CameOnline : State W → State W → Type 0
  CameOnline st up =
      (built : Bool) × (reply : Bool) × (opened : State W) × (started : State W)
      × (build_dnp3_client lib rt target st ≡ some (ok built, opened))
      × (perform lib enable opened ≡ (ok reply, started))
      × (wait_for lib is_online timeout started ≡ some (ok true, up))

  module _ {A : Type 0} (body : Run W A) where
    waited :
        (a : A) (answer : Bool) (started up last : State W)
        → wait_for lib is_online timeout started ≡ some (ok answer, up)
        → when_up body (dnp3_late rt target timeout) answer up ≡ some (ok a, last)
        → (wait_for lib is_online timeout started ≡ some (ok true, up))
          × (body up ≡ some (ok a, last))
    waited a false started up last w h = absurd (ground arith)
    waited a true started up last w h = (w, h)

    -- The session returned what its body returned from the state in which the outstation came online,
    -- and the shutdown came last.
    pub dnp3_session-CameOnline :
        (a : A) (st st' : State W)
        → dnp3_session lib rt target timeout body st ≡ some (ok a, st')
        → (up : State W) × (last : State W) × CameOnline st up
          × (body up ≡ some (ok a, last))
          × (st' ≡ (perform lib shutdown last).1)
    unfolding dnp3_session
    dnp3_session-CameOnline a st st' h =
        elim (Bool-cases (text_eq target.protocol (codes "dnp3"))) [
          | inr other ↦ absurd (ground arith)
          | inl fits ↦
              let late = dnp3_late rt target timeout in
              let (built, opened, last, build, run, e) =
                managed-ok lib shutdown (build_dnp3_client lib rt target)
                  (call lib enable >> polled lib timeout body is_online late)
                  (translate_energy rt target (codes "dnp3") (or_default target.port 20000)) a st
                  st' (rw (dnp3_session, fits) at h) in
              let (reply, started, c, h₁) = bind-ok (call lib enable) _ opened last a run in
              let (answer, up, w, h₂) =
                bind-ok (wait_for lib is_online timeout) _ started last a h₁ in
              let (w', ran) = waited a answer started up last w h₂ in
              (up, last, (built, reply, opened, started, build, some-injective _ _ c, w'), ran, e)
        ]
