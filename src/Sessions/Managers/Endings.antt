-- ===== src/Sessions/Managers/Endings.antt =====
-- How the sessions of sessions.py end: what a result rests on, and that the closing call comes last.
use mathlib.Core.Option.{some-injective}
use industrial_aiops_energy.Prelude.{
  ℕ, Bool, true, false, some, ◌≡◌, ◌⊎◌, inl, inr, arith, Bool-cases, ℤ, codes, text_eq, Text,
}
use industrial_aiops_energy.Python.{Runtime, ok, raise, Exception}
use industrial_aiops_energy.Targets.{Target, or_default}
use industrial_aiops_energy.Sessions.Action.{
  Call, is_connected, stop, start, enable, is_online, shutdown, connect, close, Library, State, Run,
  finally_, translating, ◌>>=◌, ◌>>◌, perform, call, wait_for,
}
use industrial_aiops_energy.Sessions.Action.Laws.{
  IsTeaching, bind-ok, bind-raise, finally_-call, translating-ok, translating-IsTeaching,
  wait_for-true,
}
use industrial_aiops_energy.Sessions.Messages.{translate_energy}
use industrial_aiops_energy.Sessions.Managers.{
  when_up, dnp3_late, iec104_late, build_iec104_client, build_dnp3_client, build_iec61850_client,
  iec104_session, dnp3_session, iec61850_session,
}

pub translate_energy-IsTeaching :
    (rt : Runtime) (target : Target) (protocol : Text) (port : ℕ) (e : Exception)
    → IsTeaching (translate_energy rt target protocol port e)
unfolding translate_energy
translate_energy-IsTeaching rt target protocol port e = tt

-- The closing call was the last one made.
abbrev pub ClosedBy : {W : Type 0} → Library W → Call → State W → Type 0
ClosedBy {W} lib c st' = (last : State W) × (st' ≡ (perform lib c last).1)

module _ {W A : Type 0} (lib : Library W) (c : Call) (pre : Run W Bool) (inner : Run W A)
    (tr : Exception → Exception) where
  -- The shape of a session whose protocol fits: build, then the block with its closing call.
  abbrev pub managed : Run W A
  managed = pre >> finally_ (call lib c) (translating tr inner)

  pub managed-ok :
      (a : A) (st st' : State W)
      → managed st ≡ some (ok a, st')
      → (built : Bool) × (opened : State W) × (last : State W) × (pre st ≡ some (ok built, opened))
        × (inner opened ≡ some (ok a, last))
        × (st' ≡ (perform lib c last).1)
  managed-ok a st st' h =
      let (built, opened, h₀, h₁) = bind-ok pre _ st st' a h in
      let (last, h₂, e) = finally_-call lib c (translating tr inner) (ok a) opened st' h₁ in
      (built, opened, last, h₀, translating-ok tr inner opened last a h₂, e)

  pub managed-raise :
      (x : Exception) (st st' : State W)
      → ((y : Exception) → IsTeaching (tr y))
      → managed st ≡ some (raise x, st')
      → (pre st ≡ some (raise x, st')) ⊎ (IsTeaching x × ClosedBy lib c st')
  managed-raise x st st' teaches h = elim (bind-raise pre _ st st' x h) [
    | inl early ↦ inl early
    | inr (_, opened, _, h₁) ↦
        let (last, h₂, e) = finally_-call lib c (translating tr inner) (raise x) opened st' h₁ in
        inr (translating-IsTeaching tr inner opened last x teaches h₂, (last, e))
  ]

module _ {W A : Type 0} (lib : Library W) (body : Run W A) where
  -- The body returned a value from a state in which the library had just answered True to the
  -- question, and the closing call came last.
  abbrev pub RanWhileUp : Call → Call → A → State W → Type 0
  RanWhileUp question closing a st' =
      (asked : State W) × (up : State W) × (last : State W) × (perform lib question asked
        ≡ (ok true, up))
      × (body up ≡ some (ok a, last))
      × (st' ≡ (perform lib closing last).1)

module _ {W A : Type 0} (lib : Library W) (timeout : ℤ) (body : Run W A) where
  -- The part of a polling session behind its opening call.
  abbrev pub polled : Call → Exception → Run W A
  polled question late = wait_for lib question timeout >>= when_up body late

  answered-ok :
      (question : Call) (late : Exception) (a : A) (answer : Bool) (st up last : State W)
      → wait_for lib question timeout st ≡ some (ok answer, up)
      → when_up body late answer up ≡ some (ok a, last)
      → (asked : State W) × (up : State W) × (perform lib question asked ≡ (ok true, up))
        × (body up ≡ some (ok a, last))
  answered-ok question late a false st up last w h = absurd (ground arith)
  answered-ok question late a true st up last w h =
      let (asked, e) = wait_for-true lib question timeout st up w in (asked, up, e, h)

  polled-ok :
      (opening question : Call) (late : Exception) (a : A) (st last : State W)
      → (call lib opening >> polled question late) st ≡ some (ok a, last)
      → (asked : State W) × (up : State W) × (perform lib question asked ≡ (ok true, up))
        × (body up ≡ some (ok a, last))
  polled-ok opening question late a st last h =
      let (_, s, _, h₁) = bind-ok (call lib opening) _ st last a h in
      let (answer, up, w, h₂) = bind-ok (wait_for lib question timeout) _ s last a h₁ in
      answered-ok question late a answer s up last w h₂

module _ {W A : Type 0} (lib : Library W) (rt : Runtime) (target : Target) (timeout : ℤ)
    (body : Run W A) where
  -- A DNP3 session that returns ran its body while the outstation was online: the adapter had just
  -- answered True, the body returned the value from that state, and the shutdown came last.
  pub dnp3_session-ok :
      (a : A) (st st' : State W)
      → dnp3_session lib rt target timeout body st ≡ some (ok a, st')
      → RanWhileUp lib body is_online shutdown a st'
  unfolding dnp3_session
  dnp3_session-ok a st st' h = elim (Bool-cases (text_eq target.protocol (codes "dnp3"))) [
    | inr other ↦ absurd (ground arith)
    | inl fits ↦
        let (built, opened, last, build, run, e) =
          managed-ok lib shutdown (build_dnp3_client lib rt target)
            (call lib enable >> polled lib timeout body is_online (dnp3_late rt target timeout))
            (translate_energy rt target (codes "dnp3") (or_default target.port 20000)) a st st'
            (rw (dnp3_session, fits) at h) in
        let (asked, up, answer, ran) =
          polled-ok lib timeout body enable is_online (dnp3_late rt target timeout) a opened last
            run in
        (asked, up, last, answer, ran, e)
  ]

  -- An IEC 104 session that returns ran its body while the connection was up: the connection had
  -- just answered that it is connected, the body returned the value from that state, and stopping
  -- the client came last.
  pub iec104_session-ok :
      (a : A) (st st' : State W)
      → iec104_session lib rt target timeout body st ≡ some (ok a, st')
      → RanWhileUp lib body is_connected stop a st'
  unfolding iec104_session
  iec104_session-ok a st st' h = elim (Bool-cases (text_eq target.protocol (codes "iec104"))) [
    | inr other ↦ absurd (ground arith)
    | inl fits ↦
        let translate = translate_energy rt target (codes "iec104") (or_default target.port 2404) in
        let late = iec104_late rt target timeout in
        let (built, opened, last, build, run, e) =
          managed-ok lib stop (translating translate (build_iec104_client lib rt target))
            (call lib start >> polled lib timeout body is_connected late) translate a st st'
            (rw (iec104_session, fits) at h) in
        let (asked, up, answer, ran) =
          polled-ok lib timeout body start is_connected late a opened last run in
        (asked, up, last, answer, ran, e)
  ]

  -- The adapter was built, connected with the timeout of the session, the body returned the value
  -- from the state behind the connect, and closing came last.
  abbrev pub RanConnected : A → State W → State W → Type 0
  RanConnected a st st' =
      (built : Bool) × (opened : State W) × (up : State W) × (last : State W) × (reply : Bool)
      × (build_iec61850_client lib rt target st ≡ some (ok built, opened))
      × (perform lib (connect timeout) opened ≡ (ok reply, up))
      × (body up ≡ some (ok a, last))
      × (st' ≡ (perform lib close last).1)

  -- An IEC 61850 session that returns built its adapter, connected with the timeout of the session,
  -- ran its body from the state behind the connect, with that value, and closed the connection last.
  pub iec61850_session-ok :
      (a : A) (st st' : State W)
      → iec61850_session lib rt target timeout body st ≡ some (ok a, st')
      → RanConnected a st st'
  unfolding iec61850_session
  iec61850_session-ok a st st' h = elim (Bool-cases (text_eq target.protocol (codes "iec61850"))) [
    | inr other ↦ absurd (ground arith)
    | inl fits ↦
        let (built, opened, last, build, run, e) =
          managed-ok lib close (build_iec61850_client lib rt target)
            (call lib (connect timeout) >> body)
            (translate_energy rt target (codes "iec61850") (or_default target.port 102)) a st st'
            (rw (iec61850_session, fits) at h) in
        let (reply, up, c, ran) = bind-ok (call lib (connect timeout)) _ opened last a run in
        (built, opened, up, last, reply, build, some-injective _ _ c, ran, e)
  ]
