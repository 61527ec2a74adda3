-- ===== src/Iec61850/Ops/Tests.antt =====
-- The operations of iec61850/ops.py with a toy binding that dials, browses and reads.
use industrial_aiops_energy.Prelude.{
  ℕ, zero, suc, ◌+◌, ◌≤◌, ◌≡◌, ◌⊎◌, refl, true, none, some, List, [], ◌∷◌, length, take, Text,
  codes, text_eq, strip, pos,
}
use industrial_aiops_energy.Python.{text, int, ok}
use industrial_aiops_energy.Shared.{Shared, num_or_s}
use industrial_aiops_energy.Targets.{Target}
use industrial_aiops_energy.Toy.{runtime}
use industrial_aiops_energy.Waiting.{Clock}
use industrial_aiops_energy.Sessions.Action.{
  State, Library, finally_, translating, import_library, build_mms_adapter, connect, close,
}
use industrial_aiops_energy.Sessions.Messages.{upper}
use industrial_aiops_energy.Sessions.Managers.{iec61850_session, build_iec61850_client}
use industrial_aiops_energy.Iec61850.Binding.{
  Binding, integer, pair, code, nothing, safe, unwrap, walk, linkedlist_to_str, free_list, free_mms,
}
use industrial_aiops_energy.Iec61850.Browse.{
  reply, level_reply, browse_levels, get_logical_devices, get_data_directory,
}
use industrial_aiops_energy.Iec61850.Connection
use industrial_aiops_energy.Iec61850.Connection.{
  create, close_connection, destroy, set_connect_timeout, set_request_timeout, dial, Dialer,
  apply_timeouts, timeout_ms, dialled,
}
use industrial_aiops_energy.Iec61850.Read.{
  MmsBinding, to_int64, access_error, decode_mms, typed_decoder, accessor_of, find_accessor, read,
  read_payload,
}
use industrial_aiops_energy.Iec61850.Ops.{
  Adapter, new_adapter, answer, mms_library, ReadReport, Directory, reference_required,
  reference_of, constraint_of, browse_report, list_devices, iec61850_browse, iec61850_read,
  iec61850_device_directory, device_row, browse_device, device_rows, directory_report, read_report,
  error_of, value_of, brief_error,
}
use industrial_aiops_energy.Iec61850.Ops.Answers.{FromIed}
use industrial_aiops_energy.Iec61850.Ops.Listed.{Listed, iec61850_device_directory-Listed}
use industrial_aiops_energy.Iec61850.Ops.Reports.{
  Browsed, ValueRead, DialledAndClosed, iec61850_browse-Browsed, iec61850_read-ValueRead,
}

-- The device "L" has the child "N"; an object is read as an integer.
abbrev binding : Binding
binding = record {
  logical_device_list = some (ok (pair (some 1) (integer (pos 0))));
  directory = λ level. some (λ r. ok (pair (some 2) (integer (pos 0))));
  read_object = some (λ r fc. ok (pair (some 9) (integer (pos 0))));
  has_linked_list = true;
  cells = λ n. elim n [ zero ↦ [] | suc m ↦ ok ((b'L' + suc m) ∷ []) ∷ [] ];
  shim = λ n. nothing;
  can_destroy_list = true;
  can_delete_value = true;
}

abbrev mms : MmsBinding
mms = record {
  get_type = some (λ h. ok 2);
  accessor = λ a. elim a [ to_int64 ↦ some (λ h. ok (int (pos 5))) | _ ↦ none ];
  mms_float = some 1;
  mms_integer = some 2;
  mms_unsigned = none;
  mms_boolean = none;
  mms_visible_string = none;
  mms_string = none;
  access_error_type = some 3;
  access_detail = none;
  constraint = none;
  constraint_constant = λ t. none;
  str_pointer = λ h. [];
}

abbrev dialer : Dialer
dialer = record {
  create_raises = none;
  has_connect_timeout = true;
  has_request_timeout = true;
  has_close = true;
  has_destroy = true;
  connect_result = λ host port. ok (code (pos 0));
}

-- A text is kept as it is; an integer is its own number.
abbrev shared : Shared
shared = record {
  s = λ v n. elim v [ text t ↦ t | _ ↦ [] ];
  num = λ v. elim v [ int i ↦ some (int i) | _ ↦ none ];
}

abbrev ied : Target
ied = record {
  name = codes "bay";
  protocol = codes "iec61850";
  host = codes "h";
  port = none;
  unit_id = none;
  common_address = none;
  master_address = none;
}

abbrev still : Clock Adapter
still = record { monotonic = λ a. 0; sleep = λ d a. a }

abbrev library : Library Adapter
library = mms_library dialer (ok true) still

abbrev start : State Adapter
start = record { world = new_adapter [] 0; calls = [] }

-- The end of a session, with what was freed.
abbrev ending : List ℕ → State Adapter
ending freed = record {
  world = record {
    host = codes "h";
    port = 102;
    conn = record {
      is_created = true;
      calls =
          create
          ∷ set_connect_timeout 10_000
          ∷ set_request_timeout 10_000
          ∷ dial (codes "h") 102
          ∷ close_connection
          ∷ destroy
          ∷ [];
    };
    freed = freed;
  };
  calls =
      import_library ∷ build_mms_adapter (codes "h") 102 ∷ connect (pos 10_000_000) ∷ close ∷ [];
}

abbrev five : ReadReport
five = record {
  endpoint = codes "bay";
  reference = codes "L/x";
  fc = codes "ST";
  value = int (pos 5);
  error = [];
}

read_run :
    iec61850_read runtime shared binding mms ied library (codes " L/x ") (codes "st") start
    ≡ some (ok (some five), ending (9 ∷ []))
unfolding iec61850_read reference_of strip constraint_of upper read_report error_of value_of
    brief_error iec61850_session build_iec61850_client finally_ translating codes text_eq answer
    new_adapter Connection.connect Connection.close apply_timeouts timeout_ms dialled read
    read_payload decode_mms typed_decoder accessor_of find_accessor access_error reply safe unwrap
    free_mms num_or_s
read_run = refl

iec61850_read-ValueRead_example :
    ValueRead dialer
      (ok true)
      still
      runtime
      shared
      binding
      mms
      ied
      (reference_of (codes " L/x "))
      (constraint_of (codes "st"))
      five
      (ending (9 ∷ []))
    × DialledAndClosed dialer (ok true) still runtime shared binding mms ied (ending (9 ∷ []))
iec61850_read-ValueRead_example =
    iec61850_read-ValueRead dialer (ok true) still runtime shared binding mms ied (codes " L/x ")
      (codes "st") five start (ending (9 ∷ [])) (λ c s e. cc) read_run refl

browse_run :
    iec61850_browse runtime shared binding mms ied library (codes "L") start
    ≡ some (
      ok (browse_report runtime shared binding mms ied (codes "L") (codes "N" ∷ [])),
      ending (2 ∷ []),
    )
unfolding iec61850_browse browse_report reference_of strip iec61850_session build_iec61850_client
    finally_ translating codes text_eq answer new_adapter Connection.connect Connection.close
    apply_timeouts timeout_ms dialled reply safe unwrap walk linkedlist_to_str free_list level_reply
    browse_levels get_data_directory get_logical_devices
browse_run = refl

iec61850_browse-Browsed_example :
    ((reference_of (codes "L") ≡ [])
      × (browse_report runtime shared binding mms ied (codes "L") (codes "N" ∷ [])
          ≡ reference_required)
      × (ending (2 ∷ []) ≡ start))
    ⊎ Browsed dialer
        (ok true)
        still
        runtime
        shared
        binding
        mms
        ied
        (reference_of (codes "L"))
        (browse_report runtime shared binding mms ied (codes "L") (codes "N" ∷ []))
        (ending (2 ∷ []))
iec61850_browse-Browsed_example =
    iec61850_browse-Browsed dialer (ok true) still runtime shared binding mms ied (codes "L")
      (browse_report runtime shared binding mms ied (codes "L") (codes "N" ∷ [])) start
      (ending (2 ∷ [])) browse_run

abbrev map_of_ied : Directory
map_of_ied = record {
  endpoint = codes "bay";
  logical_device_count = 1;
  logical_devices =
      (record { logical_device = codes "M"; children = some (codes "N" ∷ [], 1) }) ∷ [];
}

directory_run :
    iec61850_device_directory runtime shared binding mms ied library true start
    ≡ some (ok map_of_ied, ending (1 ∷ 2 ∷ []))
unfolding iec61850_device_directory list_devices device_rows browse_device device_row
    directory_report iec61850_session build_iec61850_client finally_ translating codes text_eq
    answer new_adapter Connection.connect Connection.close apply_timeouts timeout_ms dialled reply
    safe unwrap walk linkedlist_to_str free_list level_reply browse_levels get_data_directory
    get_logical_devices
directory_run = refl

iec61850_device_directory-Listed_example :
    (lds : List Text) × (freed : List ℕ) × (get_logical_devices binding [] ≡ (ok lds, freed))
    × Listed runtime shared binding mms ied true
        (take 2000 lds)
        map_of_ied.logical_devices
        freed
        (1 ∷ 2 ∷ [])
    × (1 ≡ length (take 2000 lds))
    × (1 ≤ 2000)
    × FromIed dialer
        (ok true)
        still
        runtime
        ied
        (list_devices runtime shared binding mms ied true)
        map_of_ied.logical_devices
        (ending (1 ∷ 2 ∷ []))
iec61850_device_directory-Listed_example =
    iec61850_device_directory-Listed runtime shared binding mms ied dialer (ok true) still true
      map_of_ied start (ending (1 ∷ 2 ∷ [])) directory_run
