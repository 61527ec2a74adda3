-- ===== src/Sessions/Managers/Raises.antt =====
-- Which errors leave a session of sessions.py, and that what it built is closed by the last call.
use mathlib.Core.Path.{subst}
use industrial_aiops_energy.Prelude.{
  Bool, some, ◌≡◌, ◌⊎◌, inl, inr, arith, Bool-cases, ℤ, codes, text_eq,
}
use industrial_aiops_energy.Python.{Runtime, raise, Exception}
use industrial_aiops_energy.Targets.{Target, or_default}
use industrial_aiops_energy.Sessions.Action.{
  Call, is_connected, stop, start, enable, is_online, shutdown, connect, close, Library, State, Run,
  translating, ◌>>◌, call,
}
use industrial_aiops_energy.Sessions.Action.Laws.{
  IsTeaching, translating-raise, translating-IsTeaching,
}
use industrial_aiops_energy.Sessions.Messages.{translate_energy, wrong_protocol}
use industrial_aiops_energy.Sessions.Managers.{
  dnp3_late, iec104_late, build_iec104_client, build_dnp3_client, build_iec61850_client,
  iec104_session, dnp3_session, iec61850_session,
}
use industrial_aiops_energy.Sessions.Managers.Endings.{
  translate_energy-IsTeaching, ClosedBy, managed-raise, polled,
}

module _ {W A : Type 0} (lib : Library W) (rt : Runtime) (target : Target) (timeout : ℤ)
    (body : Run W A) where
  -- How a session that raises ends, for the build step and the closing call that it makes: nothing
  -- was called, as the endpoint has another protocol; or the build raised, and nothing was left to
  -- close; or the closing call came last.
  abbrev pub Closed : Run W Bool → Call → State W → State W → Type 0
  Closed build closing st st' =
      (st' ≡ st) ⊎ (((y : Exception) × (build st ≡ some (raise y, st'))) ⊎ ClosedBy lib closing st')

  -- Whatever an IEC 104 session raises is an OTConnectionError, and the client that it built is
  -- stopped by the last call.
  pub iec104_session-raise :
      (x : Exception) (st st' : State W)
      → iec104_session lib rt target timeout body st ≡ some (raise x, st')
      → IsTeaching x × Closed (build_iec104_client lib rt target) stop st st'
  unfolding iec104_session wrong_protocol
  iec104_session-raise x st st' h = elim (Bool-cases (text_eq target.protocol (codes "iec104"))) [
    | inr other ↦
        let same : wrong_protocol rt target (codes "iec104") ≡ x = ground arith in
        (subst IsTeaching same tt, inl (ground arith))
    | inl fits ↦
        let build = build_iec104_client lib rt target in
        let translate = translate_energy rt target (codes "iec104") (or_default target.port 2404) in
        let teaches =
          translate_energy-IsTeaching rt target (codes "iec104") (or_default target.port 2404) in
        elim (managed-raise lib stop (translating translate build)
          (call lib start >> polled lib timeout body is_connected (iec104_late rt target timeout))
          translate x st st' teaches (rw (iec104_session, fits) at h)) [
            | inl early ↦ (
              translating-IsTeaching translate build st st' x teaches early,
              inr (inl (translating-raise translate build st st' x early)),
            )
            | inr (t, closed) ↦ (t, inr (inr closed))
          ]
  ]

  -- A DNP3 session raises an OTConnectionError, or what building the adapter raised; and an adapter
  -- that was built is shut down by the last call.
  pub dnp3_session-raise :
      (x : Exception) (st st' : State W)
      → dnp3_session lib rt target timeout body st ≡ some (raise x, st')
      → (IsTeaching x ⊎ (build_dnp3_client lib rt target st ≡ some (raise x, st')))
        × Closed (build_dnp3_client lib rt target) shutdown st st'
  unfolding dnp3_session wrong_protocol
  dnp3_session-raise x st st' h = elim (Bool-cases (text_eq target.protocol (codes "dnp3"))) [
    | inr other ↦
        let same : wrong_protocol rt target (codes "dnp3") ≡ x = ground arith in
        (inl (subst IsTeaching same tt), inl (ground arith))
    | inl fits ↦
        elim (managed-raise lib shutdown (build_dnp3_client lib rt target)
          (call lib enable >> polled lib timeout body is_online (dnp3_late rt target timeout))
          (translate_energy rt target (codes "dnp3") (or_default target.port 20000)) x st st'
          (translate_energy-IsTeaching rt target (codes "dnp3") (or_default target.port 20000))
          (rw (dnp3_session, fits) at h)) [
            | inl early ↦ (inr early, inr (inl (x, early)))
            | inr (t, closed) ↦ (inl t, inr (inr closed))
          ]
  ]

  -- An IEC 61850 session raises an OTConnectionError, or what building the adapter raised; and an
  -- adapter that was built is closed by the last call.
  pub iec61850_session-raise :
      (x : Exception) (st st' : State W)
      → iec61850_session lib rt target timeout body st ≡ some (raise x, st')
      → (IsTeaching x ⊎ (build_iec61850_client lib rt target st ≡ some (raise x, st')))
        × Closed (build_iec61850_client lib rt target) close st st'
  unfolding iec61850_session wrong_protocol
  iec61850_session-raise x st st' h =
      elim (Bool-cases (text_eq target.protocol (codes "iec61850"))) [
        | inr other ↦
            let same : wrong_protocol rt target (codes "iec61850") ≡ x = ground arith in
            (inl (subst IsTeaching same tt), inl (ground arith))
        | inl fits ↦
            elim (managed-raise lib close (build_iec61850_client lib rt target)
              (call lib (connect timeout) >> body)
              (translate_energy rt target (codes "iec61850") (or_default target.port 102)) x st st'
              (translate_energy-IsTeaching rt target (codes "iec61850")
                (or_default target.port 102))
              (rw (iec61850_session, fits) at h)) [
                | inl early ↦ (inr early, inr (inl (x, early)))
                | inr (t, closed) ↦ (inl t, inr (inr closed))
              ]
      ]
