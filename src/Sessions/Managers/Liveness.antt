-- ===== src/Sessions/Managers/Liveness.antt =====
-- A session of sessions.py whose device comes up in time runs its body.
use industrial_aiops_energy.Prelude.{
  ℕ, ◌+◌, ◌≤◌, Bool, true, some, ◌≡◌, text_eq, ℤ, pos_part, codes, arith,
}
use industrial_aiops_energy.Python.{Runtime, ok, Exception}
use industrial_aiops_energy.Targets.{Target, or_default}
use industrial_aiops_energy.Waiting.{ClockLaws, NeverBack}
use industrial_aiops_energy.Waiting.Liveness.{Kept, wait_until-HoldsFrom}
use industrial_aiops_energy.Sessions.Action.{
  Call, is_connected, start, stop, is_online, enable, shutdown, Library, State, Run, finally_,
  translating, ◌>>◌, perform, call, state_clock, wait_for,
}
use industrial_aiops_energy.Sessions.Messages.{translate_energy}
use industrial_aiops_energy.Sessions.Managers.Endings.{managed, polled}
use industrial_aiops_energy.Sessions.Managers.{
  dnp3_late, build_dnp3_client, dnp3_session, iec104_late, build_iec104_client, iec104_session,
}

module _ {W : Type 0} (lib : Library W) (I : W → Type 0) (timeout : ℤ) (t : ℕ) where
  -- The device answers True from the time on, wherever the invariant holds; asking and sleeping keep
  -- the invariant.
  abbrev pub UpFrom : Call → Type 0
  UpFrom question =
      Kept lib.clock (lib.respond question) 50_000 I
      × ((w : W) → I w → t ≤ lib.clock.monotonic w → (lib.respond question w).0 ≡ ok true)

  wait_for-UpFrom :
      (question : Call) (st : State W)
      → ClockLaws lib.clock
      → NeverBack lib.clock (lib.respond question)
      → UpFrom question
      → I st.world
      → t ≤ lib.clock.monotonic st.world + pos_part timeout
      → (up : State W) × (wait_for lib question timeout st ≡ some (ok true, up)) × I up.world
  unfolding wait_for
  wait_for-UpFrom question st laws forward (kept, answers) i early =
      let (up, e, i') =
        wait_until-HoldsFrom (state_clock lib) (perform lib question) 50_000 (λ s. I s.world)
          (record { sleep_takes = λ d s. laws.sleep_takes d s.world }) (λ s. forward s.world)
          (omega arith) ((λ s. kept.0 s.world), (λ s. kept.1 s.world)) t timeout st
          (λ s i late. let yes_answer = answers s.world i late in ground arith) early i in
      (up, ground arith, i')

module _ {W A : Type 0} (lib : Library W) (I : W → Type 0) (timeout : ℤ) (t : ℕ)
    (Q : A → Type 0) where
  -- The body returns a value that satisfies `Q` wherever the invariant holds.
  abbrev pub ReturnsUp : Run W A → Type 0
  ReturnsUp body =
      (up : State W) → I up.world → (a : A) × (last : State W) × (body up ≡ some (ok a, last)) × Q a

  polled-UpFrom :
      (opening question : Call) (late : Exception) (body : Run W A) (r : Bool)
      (opened started : State W)
      → ClockLaws lib.clock
      → NeverBack lib.clock (lib.respond question)
      → UpFrom lib I timeout t question
      → ReturnsUp body
      → perform lib opening opened ≡ (ok r, started)
      → I started.world
      → t ≤ lib.clock.monotonic started.world + pos_part timeout
      → (a : A) × (last : State W) × ((call lib opening >> polled lib timeout body question late)
            opened
          ≡ some (ok a, last))
        × Q a
  polled-UpFrom opening question late body r opened started laws forward up_from returns e i early =
      let (up, w, i') =
        wait_for-UpFrom lib I timeout t question started laws forward up_from i early in
      let (a, last, ran, q) = returns up i' in (a, last, ground arith, q)

module _ {W A : Type 0} (lib : Library W) (c : Call) (pre : Run W Bool) (inner : Run W A)
    (tr : Exception → Exception) where
  managed-returns :
      (b : Bool) (a : A) (st opened last : State W)
      → pre st ≡ some (ok b, opened)
      → inner opened ≡ some (ok a, last)
      → (st' : State W) × (managed lib c pre inner tr st ≡ some (ok a, st'))
  unfolding finally_ translating
  managed-returns b a st opened last h k = ((perform lib c last).1, ground arith)

module _ {W A : Type 0} (lib : Library W) (rt : Runtime) (target : Target) (timeout : ℤ)
    (body : Run W A) (I : W → Type 0) (t : ℕ) (Q : A → Type 0) where
  pub dnp3_session-ReturnsUp :
      (b r : Bool) (st opened started : State W)
      → text_eq target.protocol (codes "dnp3") ≡ true
      → ClockLaws lib.clock
      → NeverBack lib.clock (lib.respond is_online)
      → build_dnp3_client lib rt target st ≡ some (ok b, opened)
      → perform lib enable opened ≡ (ok r, started)
      → I started.world
      → t ≤ lib.clock.monotonic started.world + pos_part timeout
      → UpFrom lib I timeout t is_online
      → ReturnsUp lib I timeout t Q body
      → (a : A) × (st' : State W) × (dnp3_session lib rt target timeout body st ≡ some (ok a, st'))
        × Q a
  unfolding dnp3_session
  dnp3_session-ReturnsUp b r st opened started fits laws forward built enabled i early up_from
        returns =
      let late = dnp3_late rt target timeout in
      let tr = translate_energy rt target (codes "dnp3") (or_default target.port 20000) in
      let (a, last, ran, q) =
        polled-UpFrom lib I timeout t Q enable is_online late body r opened started laws forward
          up_from returns enabled i early in
      let (st', e) =
        managed-returns lib shutdown (build_dnp3_client lib rt target)
          (call lib enable >> polled lib timeout body is_online late) tr b a st opened last built
          ran in
      (a, st', rw (dnp3_session, fits) e, q)

  pub iec104_session-ReturnsUp :
      (b r : Bool) (st opened started : State W)
      → text_eq target.protocol (codes "iec104") ≡ true
      → ClockLaws lib.clock
      → NeverBack lib.clock (lib.respond is_connected)
      → build_iec104_client lib rt target st ≡ some (ok b, opened)
      → perform lib start opened ≡ (ok r, started)
      → I started.world
      → t ≤ lib.clock.monotonic started.world + pos_part timeout
      → UpFrom lib I timeout t is_connected
      → ReturnsUp lib I timeout t Q body
      → (a : A) × (st' : State W) × (iec104_session lib rt target timeout body st
          ≡ some (ok a, st'))
        × Q a
  unfolding iec104_session translating
  iec104_session-ReturnsUp b r st opened started fits laws forward built started_up i early up_from
        returns =
      let late = iec104_late rt target timeout in
      let tr = translate_energy rt target (codes "iec104") (or_default target.port 2404) in
      let build = build_iec104_client lib rt target in
      let (a, last, ran, q) =
        polled-UpFrom lib I timeout t Q start is_connected late body r opened started laws forward
          up_from returns started_up i early in
      let built' : translating tr build st ≡ some (ok b, opened) = ground arith in
      let (st', e) =
        managed-returns lib stop (translating tr build)
          (call lib start >> polled lib timeout body is_connected late) tr b a st opened last built'
          ran in
      (a, st', rw (iec104_session, fits) e, q)
