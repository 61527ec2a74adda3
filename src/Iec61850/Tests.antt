-- ===== src/Iec61850/Tests.antt =====
-- Browsing and reading with a toy binding of libiec61850.
use industrial_aiops_energy.Prelude.{
  ℕ, ◌≡◌, refl, arith, true, false, ◌==◌, if◌then◌else◌, Option, none, some, List, [], ◌∷◌, Text,
  codes, pos,
}
use industrial_aiops_energy.Python.{Value, int, Result, ok, raise, other, library_error}
use industrial_aiops_energy.Toy.{runtime}
use industrial_aiops_energy.Iec61850.Binding.{
  Binding, Return, integer, pair, Level, logical_device, logical_node, data_object, nothing, safe,
  unwrap, walk, linkedlist_to_str, free_list, free_mms,
}
use industrial_aiops_energy.Iec61850.Binding.{code}
use industrial_aiops_energy.Iec61850.Connection.{
  create, close_connection, destroy, set_connect_timeout, dial, Dialer, Connection, timeout_ms,
  apply_timeouts, connect, close,
}
use industrial_aiops_energy.Iec61850.Connection.Closing.{BoundedAndClosed, connect-close}
use industrial_aiops_energy.Iec61850.Browse.{
  reply, level_reply, attempts, browse_levels, get_data_directory,
}
use industrial_aiops_energy.Iec61850.Browse.Explained.{Explained, get_data_directory-Explained}
use industrial_aiops_energy.Iec61850.Read.{
  Accessor, to_float, to_int64, MmsBinding, find_accessor, accessor_of, typed_decoder, decode_mms,
  access_error, value, read, read_payload,
}
use industrial_aiops_energy.Iec61850.Read.Genuine.{with_float, decode_mms-with_float}

-- The device level fails, the node level gives an empty list, the object level one name.
abbrev directories : Level → Option (Text → Result Return)
directories logical_device = none
directories logical_node = some (λ r. ok (pair (some 7) (integer (pos 0))))
directories data_object = some (λ r. ok (pair (some 8) (integer (pos 0))))

abbrev cells_of : ℕ → List (Result Text)
cells_of n =
    if n == 7 then [] else ok (codes "mag") ∷ raise (other library_error []) ∷ ok (codes "q") ∷ []

abbrev binding : Binding
binding = record {
  logical_device_list = none;
  directory = directories;
  read_object = some (λ r fc. ok (pair (some 9) (integer (pos 0))));
  has_linked_list = true;
  cells = λ n. cells_of n;
  shim = λ n. nothing;
  can_destroy_list = true;
  can_delete_value = true;
}

-- The exception in the walk keeps the first name; both lists are freed.
get_data_directory-object :
    get_data_directory binding (codes "LD0") [] ≡ (ok (codes "mag" ∷ []), 7 ∷ 8 ∷ [])
unfolding get_data_directory browse_levels level_reply reply safe unwrap linkedlist_to_str walk
    free_list
get_data_directory-object = refl

get_data_directory-Explained_example :
    Explained binding (codes "LD0") attempts false (get_data_directory binding (codes "LD0") []).0
get_data_directory-Explained_example = get_data_directory-Explained binding (codes "LD0") []

abbrev accessors : Accessor → Option (ℕ → Result Value)
accessors to_float = some (λ h. ok (int (pos 0)))
accessors to_int64 = some (λ h. ok (int (pos 5)))
accessors a = none

-- Every value is an integer, of type 2.
abbrev mms : MmsBinding
mms = record {
  get_type = some (λ h. ok 2);
  accessor = accessors;
  mms_float = some 1;
  mms_integer = some 2;
  mms_unsigned = none;
  mms_boolean = none;
  mms_visible_string = none;
  mms_string = none;
  access_error_type = some 3;
  access_detail = none;
  constraint = none;
  constraint_constant = λ t. none;
  str_pointer = λ h. [];
}

read_integer :
    read runtime mms binding (codes "MMXU1") (codes "MX") [] ≡ (value (int (pos 5)), 9 ∷ [])
unfolding read read_payload decode_mms typed_decoder accessor_of find_accessor access_error reply
    safe unwrap free_mms
read_integer = refl

decode_mms-with_float_example :
    decode_mms runtime (with_float none mms) 9 ≡ decode_mms runtime mms 9
decode_mms-with_float_example =
    decode_mms-with_float runtime mms none 9 (λ g k typed float same. ground arith)

abbrev dialer : Dialer
dialer = record {
  create_raises = none;
  has_connect_timeout = true;
  has_request_timeout = false;
  has_close = true;
  has_destroy = true;
  connect_result = λ host port. ok (code (pos 5));
}

abbrev unconnected : Connection
unconnected = record { is_created = false; calls = [] }

abbrev full_dialer : Dialer
full_dialer = record dialer { has_request_timeout = true }

connect-close_example : BoundedAndClosed full_dialer (codes "h") 102 9_999_999 unconnected
connect-close_example =
    connect-close full_dialer (codes "h") 102 9_999_999 unconnected refl refl refl refl refl

-- The dialling fails with the code 5, and the connection is closed all the same.
closed_calls :
    (close dialer (connect dialer (codes "h") 102 (some (pos 10_000_000)) unconnected).1).calls
    ≡ create ∷ set_connect_timeout 10_000 ∷ dial (codes "h") 102 ∷ close_connection ∷ destroy ∷ []
unfolding close connect apply_timeouts timeout_ms
closed_calls = refl
