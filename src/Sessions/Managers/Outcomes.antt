-- ===== src/Sessions/Managers/Outcomes.antt =====
-- Every run of a session of sessions.py, from any state: it ends, with a value of the body from a
-- connection that was up, or with an error, and closes what it built.
use industrial_aiops_energy.Prelude.{some, ◌≡◌, ◌⊎◌, ℤ}
use industrial_aiops_energy.Python.{Runtime, Result, ok, raise}
use industrial_aiops_energy.Targets.{Target}
use industrial_aiops_energy.Waiting.{ClockLaws, NeverBack}
use industrial_aiops_energy.Sessions.Action.{
  is_connected, is_online, stop, shutdown, close, Library, State, Run,
}
use industrial_aiops_energy.Sessions.Action.Laws.{IsTeaching}
use industrial_aiops_energy.Sessions.Managers.{
  build_iec104_client, build_dnp3_client, build_iec61850_client, iec104_session, dnp3_session,
  iec61850_session,
}
use industrial_aiops_energy.Sessions.Managers.Endings.{
  RanWhileUp, RanConnected, iec104_session-ok, dnp3_session-ok, iec61850_session-ok,
}
use industrial_aiops_energy.Sessions.Managers.Raises.{
  Closed, iec104_session-raise, dnp3_session-raise, iec61850_session-raise,
}
use industrial_aiops_energy.Sessions.Managers.Totality.{
  Ends, iec104_session-Ends, dnp3_session-Ends, iec61850_session-Ends,
}

module _ {W A : Type 0} (lib : Library W) (rt : Runtime) (target : Target) (timeout : ℤ)
    (body : Run W A) where
  -- A run from a state, with its result and its last state.
  abbrev pub Iec104Run : State W → Result A → State W → Type 0
  Iec104Run st (ok a) st' = RanWhileUp lib body is_connected stop a st'
  Iec104Run st (raise x) st' =
      IsTeaching x
      × Closed lib rt target timeout body (build_iec104_client lib rt target) stop st st'

  abbrev pub Dnp3Run : State W → Result A → State W → Type 0
  Dnp3Run st (ok a) st' = RanWhileUp lib body is_online shutdown a st'
  Dnp3Run st (raise x) st' =
      (IsTeaching x ⊎ (build_dnp3_client lib rt target st ≡ some (raise x, st')))
      × Closed lib rt target timeout body (build_dnp3_client lib rt target) shutdown st st'

  abbrev pub Iec61850Run : State W → Result A → State W → Type 0
  Iec61850Run st (ok a) st' = RanConnected lib rt target timeout body a st st'
  Iec61850Run st (raise x) st' =
      (IsTeaching x ⊎ (build_iec61850_client lib rt target st ≡ some (raise x, st')))
      × Closed lib rt target timeout body (build_iec61850_client lib rt target) close st st'

  iec104_ended :
      (r : Result A) (st st' : State W)
      → iec104_session lib rt target timeout body st ≡ some (r, st')
      → Iec104Run st r st'
  iec104_ended (ok a) st st' h = iec104_session-ok lib rt target timeout body a st st' h
  iec104_ended (raise x) st st' h = iec104_session-raise lib rt target timeout body x st st' h

  dnp3_ended :
      (r : Result A) (st st' : State W)
      → dnp3_session lib rt target timeout body st ≡ some (r, st')
      → Dnp3Run st r st'
  dnp3_ended (ok a) st st' h = dnp3_session-ok lib rt target timeout body a st st' h
  dnp3_ended (raise x) st st' h = dnp3_session-raise lib rt target timeout body x st st' h

  iec61850_ended :
      (r : Result A) (st st' : State W)
      → iec61850_session lib rt target timeout body st ≡ some (r, st')
      → Iec61850Run st r st'
  iec61850_ended (ok a) st st' h = iec61850_session-ok lib rt target timeout body a st st' h
  iec61850_ended (raise x) st st' h = iec61850_session-raise lib rt target timeout body x st st' h

  -- With a clock that a sleep moves by its time and that asking does not move back, and a body that
  -- ends, an IEC 104 session ends from every state. Where it returns a value the connection had just
  -- answered that it is connected, the body returned the value from that state, and stopping the
  -- client came last. Where it raises, it raises an OTConnectionError; and nothing was called, or
  -- building the client raised, or stopping the client came last.
  pub iec104_session_lem :
      ClockLaws lib.clock
      → NeverBack lib.clock (lib.respond is_connected)
      → Ends body
      → (st : State W)
      → (r : Result A) × (st' : State W) × (iec104_session lib rt target timeout body st
          ≡ some (r, st'))
        × Iec104Run st r st'
  iec104_session_lem laws forward ends st =
      let ((r, st'), e) = iec104_session-Ends lib rt target timeout body laws forward ends st in
      (r, st', e, iec104_ended r st st' e)

  -- With a clock that a sleep moves by its time and that asking does not move back, and a body that
  -- ends, a DNP3 session ends from every state. Where it returns a value the adapter had just
  -- answered that it is online, the body returned the value from that state, and the shutdown came
  -- last. Where it raises, it raises an OTConnectionError, or what building the adapter raised; and
  -- nothing was called, or building the adapter raised, or the shutdown came last.
  pub dnp3_session_lem :
      ClockLaws lib.clock
      → NeverBack lib.clock (lib.respond is_online)
      → Ends body
      → (st : State W)
      → (r : Result A) × (st' : State W) × (dnp3_session lib rt target timeout body st
          ≡ some (r, st'))
        × Dnp3Run st r st'
  dnp3_session_lem laws forward ends st =
      let ((r, st'), e) = dnp3_session-Ends lib rt target timeout body laws forward ends st in
      (r, st', e, dnp3_ended r st st' e)

  -- An IEC 61850 session with a body that ends does so from every state. Where it returns a value it
  -- built its adapter, connected with the timeout of the session, ran the body from the state behind
  -- the connect, which returned the value, and closed the connection last. Where it raises, it
  -- raises an OTConnectionError, or what building the adapter raised; and nothing was called, or
  -- building the adapter raised, or closing the connection came last.
  pub iec61850_session_lem :
      Ends body
      → (st : State W)
      → (r : Result A) × (st' : State W) × (iec61850_session lib rt target timeout body st
          ≡ some (r, st'))
        × Iec61850Run st r st'
  iec61850_session_lem ends st =
      let ((r, st'), e) = iec61850_session-Ends lib rt target timeout body ends st in
      (r, st', e, iec61850_ended r st st' e)
