-- ===== src/Iec61850/Ops.antt =====
-- iaiops_energy/connectors/iec61850/ops.py: the three operations, each in a session over the adapter.
mod Tests
pub mod Answers
pub mod Listed
pub mod Reports
use industrial_aiops_energy.Prelude.{
  ℕ, Bool, true, false, Option, none, some, List, [], ◌∷◌, ◌++◌, map, take, length, Text, codes,
  strip, ℤ, pos, negsuc, suc,
}
use industrial_aiops_energy.Python.{Runtime, Value, null, text, Result, ok, raise}
use industrial_aiops_energy.Shared.{Shared, num_or_s}
use industrial_aiops_energy.Targets.{Target}
use industrial_aiops_energy.Waiting.{Clock}
use industrial_aiops_energy.Sessions.Messages.{upper}
use industrial_aiops_energy.Sessions.Action.{
  Call, import_library, build_mms_adapter, connect, close, Library, State, Run, return, ◌>>=◌,
}
use industrial_aiops_energy.Sessions.Managers.{iec61850_session}
use industrial_aiops_energy.Iec61850.Binding.{Binding, absent, integer, object}
use industrial_aiops_energy.Iec61850.Browse.{get_logical_devices, get_data_directory}
use industrial_aiops_energy.Iec61850.Connection
use industrial_aiops_energy.Iec61850.Connection.{Connection, Dialer}
use industrial_aiops_energy.Iec61850.Read.{
  MmsBinding, Reading, value, no_reader, read_failed, no_value, access_failed, read,
}

-- The adapter's address and connection, and the lists and values freed so far.
pub record Adapter : Type 0 where
  pub host : Text
  pub port : ℕ
  pub conn : Connection
  pub freed : List ℕ

-- __init__
unfoldable pub new_adapter : Text → ℕ → Adapter
new_adapter host port = record {
  host = host;
  port = port;
  conn = record { is_created = false; calls = [] };
  freed = [];
}

module _ (dialer : Dialer) (import_pyiec61850 : Result Bool) where
  -- The calls of an IEC 61850 session, as the driver answers them.
  unfoldable pub answer : Call → Adapter → Result Bool × Adapter
  answer import_library a = (import_pyiec61850, a)
  answer (build_mms_adapter host port) a = (ok true, new_adapter host port)
  answer (connect timeout) a =
      let (r, conn) = Connection.connect dialer a.host a.port (some timeout) a.conn in
      (r, record a { conn = conn })
  answer close a = (ok true, record a { conn = Connection.close dialer a.conn })
  answer c a = (ok true, a)

  abbrev pub mms_library : Clock Adapter → Library Adapter
  mms_library clock = record {
    respond = answer;
    clock = clock;
    has_station_hook = false;
    has_point_hook = false;
  }

-- A call of the adapter, on the record of what was freed.
abbrev pub Freeing : Type 0 → Type 0
Freeing A = List ℕ → Result A × List ℕ

-- An exception skips what follows.
abbrev pub chain : {A B : Type 0} → Result A × List ℕ → (A → Freeing B) → Result B × List ℕ
chain (ok a, freed) next = next a freed
chain (raise e, freed) next = (raise e, freed)

abbrev pub freeing : {A : Type 0} → Freeing A → Run Adapter A
freeing f st =
    let (r, freed) = f st.world.freed in
    some (r, record st { world = record st.world { freed = freed } })

-- A row of the directory, with its children where they were asked for.
pub record DeviceRow : Type 0 where
  pub logical_device : Text
  pub children : Option (List Text × ℕ)

-- The answer of `iec61850_device_directory`, less its note.
pub record Directory : Type 0 where
  pub endpoint : Text
  pub logical_device_count : ℕ
  pub logical_devices : List DeviceRow

-- The answer of `iec61850_browse`; an error is given without its text.
pub data BrowseReport : Type 0 where
  reference_required : BrowseReport
  -- endpoint, reference, child_count, children
  children_of : Text → Text → ℕ → List Text → BrowseReport

-- The dict of `iec61850_read` for a reference.
pub record ReadReport : Type 0 where
  pub endpoint : Text
  pub reference : Text
  pub fc : Text
  pub value : Value
  pub error : Text

-- str() of an int
unfoldable pub str_int : Runtime → ℤ → Text
str_int rt (pos n) = rt.decimal n
str_int rt (negsuc n) = b'-' ∷ rt.decimal (suc n)

-- result.get("error") of the adapter's dict; a value has none.
unfoldable pub error_of : Runtime → Reading → Text
error_of rt (value v) = []
error_of rt no_reader = codes "binding lacks readObject"
error_of rt (read_failed absent) = codes "read failed (IedClientError=None)"
error_of rt (read_failed (object name)) =
    codes "read failed (IedClientError=" ++ (name ++ codes ")")
error_of rt (read_failed (integer code)) =
    codes "read failed (IedClientError=" ++ (str_int rt code ++ codes ")")
error_of rt no_value = codes "no value returned (object not found / read failed)"
error_of rt (access_failed name) = codes "data access error (" ++ (name ++ codes ")")

-- result.get("value")
unfoldable pub value_of : Reading → Value
value_of (value v) = v
value_of r = null

-- s(error, 160) if error else ""
unfoldable pub brief_error : Shared → Text → Text
brief_error sh [] = []
brief_error sh (c ∷ s) = sh.s (text (c ∷ s)) 160

-- str(fc or "MX").upper(), for a text in ASCII
unfoldable pub constraint_of : Text → Text
constraint_of [] = upper (codes "MX")
constraint_of (c ∷ s) = upper (c ∷ s)

-- str(reference or "").strip()
unfoldable pub reference_of : Text → Text
reference_of reference = strip reference

module _ (rt : Runtime) (sh : Shared) (lib : Binding) (mms : MmsBinding) (target : Target) where
  -- The row of a device whose children, if they were browsed, are these.
  unfoldable pub device_row : Text → Option (List Text) → DeviceRow
  device_row ld none = record { logical_device = sh.s (text ld) 128; children = none }
  device_row ld (some names) =
      let children = take 2000 names in
      record {
        logical_device = sh.s (text ld) 128;
        children = some (map (λ c. sh.s (text c) 128) children, length children);
      }

  -- The children of a device, where they are wanted.
  unfoldable pub browse_device : Bool → Text → Freeing (Option (List Text))
  browse_device false ld freed = (ok none, freed)
  browse_device true ld freed =
      chain (get_data_directory lib ld freed) (λ names freed'. (ok (some names), freed'))

  -- The loop over the devices; an exception ends it.
  unfoldable pub device_rows : Bool → List Text → Freeing (List DeviceRow)
  device_rows include_children [] freed = (ok [], freed)
  device_rows include_children (ld ∷ lds) freed =
      chain (browse_device include_children ld freed) (λ names freed₁.
        chain (device_rows include_children lds freed₁)
          (λ rows freed₂. (ok (device_row ld names ∷ rows), freed₂)))

  -- The `with` block of iec61850_device_directory, at MAX_NODES = 2000
  unfoldable pub list_devices : Bool → Freeing (List DeviceRow)
  list_devices include_children freed =
      chain (get_logical_devices lib freed)
        (λ lds freed'. device_rows include_children (take 2000 lds) freed')

  unfoldable pub directory_report : List DeviceRow → Directory
  directory_report devices = record {
    endpoint = sh.s (text target.name) 64;
    logical_device_count = length devices;
    logical_devices = devices;
  }

  unfoldable pub browse_report : Text → List Text → BrowseReport
  browse_report ref names =
      let children = take 2000 names in
      children_of (sh.s (text target.name) 64) (sh.s (text ref) 200) (length children)
        (map (λ c. sh.s (text c) 160) children)

  unfoldable pub read_report : Text → Text → Reading → ReadReport
  read_report ref fc result = record {
    endpoint = sh.s (text target.name) 64;
    reference = sh.s (text ref) 200;
    fc = sh.s (text fc) 8;
    value = num_or_s sh (value_of result) 200;
    error = brief_error sh (error_of rt result);
  }

  module _ (library : Library Adapter) where
    -- A session at its timeout of 10 s, whose body is one call of the adapter.
    abbrev pub in_session : {A : Type 0} → Freeing A → Run Adapter A
    in_session f = iec61850_session library rt target (pos 10_000_000) (freeing f)

    -- iec61850_device_directory
    unfoldable pub iec61850_device_directory : Bool → Run Adapter Directory
    iec61850_device_directory include_children =
        in_session (list_devices include_children) >>= λ devices. return (directory_report devices)

    abbrev pub browse_named : Text → Run Adapter BrowseReport
    browse_named [] = return reference_required
    browse_named (c ∷ s) = in_session (get_data_directory lib (c ∷ s)) >>= λ names.
        return (browse_report (c ∷ s) names)

    -- iec61850_browse
    unfoldable pub iec61850_browse : Text → Run Adapter BrowseReport
    iec61850_browse reference = browse_named (reference_of reference)

    -- adapter.read, which reports a failure in its dict
    abbrev pub read_attribute : Text → Text → Freeing Reading
    read_attribute ref fc freed =
        let (result, freed') = read rt mms lib ref fc freed in (ok result, freed')

    -- `none` is the error answer for a reference that is missing.
    abbrev pub read_named : Text → Text → Run Adapter (Option ReadReport)
    read_named [] fc = return none
    read_named (c ∷ s) fc = in_session (read_attribute (c ∷ s) (constraint_of fc)) >>= λ result.
        return (some (read_report (c ∷ s) (constraint_of fc) result))

    -- iec61850_read
    unfoldable pub iec61850_read : Text → Text → Run Adapter (Option ReadReport)
    iec61850_read reference fc = read_named (reference_of reference) fc
