-- ===== src/Sessions/Managers.antt =====
-- The builders and the three context managers of sessions.py. The `body` of a session is what the
-- `with` block runs between the opening and the closing.
pub mod Endings
pub mod Raises
pub mod Runs
pub mod Totality
pub mod Outcomes
pub mod Liveness
use industrial_aiops_energy.Prelude.{
  ℕ, Bool, true, false, Option, none, some, List, [], ◌∷◌, Text, codes, text_eq, ℤ, if◌then◌else◌,
}
use industrial_aiops_energy.Python.{Runtime, Result, ok, raise, Exception, other, import_error}
use industrial_aiops_energy.Targets.{Target, or_default}
use industrial_aiops_energy.Sessions.Action.{
  Call, import_library, create_client, on_new_station, on_new_point, start, is_connected, stop,
  add_connection, build_master_adapter, enable, is_online, shutdown, build_mms_adapter, connect,
  close, Library, State, Run, return, throw, finally_, translating, ◌>>=◌, ◌>>◌, perform, call,
  wait_for,
}
use industrial_aiops_energy.Sessions.Messages.{
  translate_energy, wrong_protocol, not_in_time, not_installed, no_host,
}

-- except ImportError as exc: raise OTConnectionError(...)
abbrev pub missing_package : Exception → Result Bool → Result Bool
missing_package e (ok b) = ok b
missing_package e (raise (other import_error m)) = raise e
missing_package e (raise x) = raise x

abbrev pub is_blank : Text → Bool
is_blank [] = true
is_blank (c ∷ s) = false

-- "did not connect within"
unfoldable pub iec104_late : Runtime → Target → ℤ → Exception
iec104_late rt target timeout =
    not_in_time rt target (codes "iec104") (codes "IEC-104") (codes "connect")
      (codes "RTU offline / wrong CA / firewall") (or_default target.port 2404) timeout

-- "did not come online within"
unfoldable pub dnp3_late : Runtime → Target → ℤ → Exception
dnp3_late rt target timeout =
    not_in_time rt target (codes "dnp3") (codes "DNP3") (codes "come online")
      (codes "outstation offline / wrong addr") (or_default target.port 20000) timeout

-- if not _wait_until(...): raise; yield
abbrev pub when_up : {W A : Type 0} → Run W A → Exception → Bool → Run W A
when_up body late true = body
when_up body late false = throw late

module _ {W : Type 0} (lib : Library W) (rt : Runtime) (target : Target) where
  abbrev pub import_or : Exception → Run W Bool
  import_or e st = let (r, st') = perform lib import_library st in some (missing_package e r, st')

  -- _register_iec104_discovery
  unfoldable pub register_iec104_discovery : Run W Bool
  register_iec104_discovery = do
    (if lib.has_station_hook then call lib on_new_station else return true)
    (if lib.has_point_hook then call lib on_new_point else return true)

  -- _build_iec104_client
  unfoldable pub build_iec104_client : Run W Bool
  unfolding register_iec104_discovery
  build_iec104_client = do
    import_or (
        not_installed target (codes "iec104") (
          codes
            "The 'c104' package is not installed. IEC 60870-5-104 is an OPTIONAL extra: 'pip install iaiops-energy[iec104]'."))
    if is_blank target.host
        then throw (
            no_host target (codes "iec104") (codes "IEC-104")
              (codes "and 'common_address:' for the ASDU CA) to its config entry."))
        else do
          call lib create_client
          register_iec104_discovery
          call lib (add_connection target.host (or_default target.port 2404))

  -- _build_dnp3_client
  unfoldable pub build_dnp3_client : Run W Bool
  build_dnp3_client = do
    import_or (
        not_installed target (codes "dnp3") (
          codes
            "The 'pydnp3' package is not installed. DNP3 is an OPTIONAL extra: 'pip install iaiops-energy[dnp3]'."))
    if is_blank target.host
        then throw (
            no_host target (codes "dnp3") (codes "DNP3")
              (codes "and 'unit_id:' = outstation address, 'master_address:') to its config."))
        else call lib (
            build_master_adapter target.host (or_default target.port 20000) target.unit_id
              (or_default target.master_address 1))

  -- _build_iec61850_client
  unfoldable pub build_iec61850_client : Run W Bool
  build_iec61850_client = do
    import_or (
        not_installed target (codes "iec61850") (
          codes
            "The 'pyiec61850' (libiec61850 SWIG) binding is not installed. IEC 61850 is an OPTIONAL extra: 'pip install iaiops-energy[iec61850]' (linux-only wheel)."))
    if is_blank target.host
        then throw (
            no_host target (codes "iec61850") (codes "IEC-61850")
              (codes "MMS port defaults to 102) to its config entry."))
        else call lib (build_mms_adapter target.host (or_default target.port 102))

  module _ {A : Type 0} (timeout : ℤ) (body : Run W A) where
    -- iec104_session. The client is bound when its builder has returned, so only then is it stopped.
    unfoldable pub iec104_session : Run W A
    iec104_session =
        let translate = translate_energy rt target (codes "iec104") (or_default target.port 2404) in
        if text_eq target.protocol (codes "iec104")
        then (do
          translating translate build_iec104_client
          finally_ (call lib stop) (
              translating translate (do
                call lib start
                up ← wait_for lib is_connected timeout
                when_up body (iec104_late rt target timeout) up)))
        else throw (wrong_protocol rt target (codes "iec104"))

    -- dnp3_session
    unfoldable pub dnp3_session : Run W A
    dnp3_session =
        if text_eq target.protocol (codes "dnp3")
        then (do
          build_dnp3_client
          finally_ (call lib shutdown) (
              translating (translate_energy rt target (codes "dnp3") (or_default target.port 20000))
                (do
                  call lib enable
                  up ← wait_for lib is_online timeout
                  when_up body (dnp3_late rt target timeout) up)))
        else throw (wrong_protocol rt target (codes "dnp3"))

    -- iec61850_session
    unfoldable pub iec61850_session : Run W A
    iec61850_session =
        if text_eq target.protocol (codes "iec61850")
        then (do
          build_iec61850_client
          finally_ (call lib close) (
              translating
                (translate_energy rt target (codes "iec61850") (or_default target.port 102))
                (do call lib (connect timeout); body)))
        else throw (wrong_protocol rt target (codes "iec61850"))
