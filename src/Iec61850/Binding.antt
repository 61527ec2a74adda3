-- ===== src/Iec61850/Binding.antt =====
-- iaiops_energy/connectors/iec61850/driver.py: what the adapter uses of the binding, and how it
-- unpacks what a call returned.
use industrial_aiops_energy.Prelude.{
  ℕ, zero, Bool, true, false, Option, none, some, List, [], ◌∷◌, ◌++◌, Text, ℤ, pos, negsuc,
}
use industrial_aiops_energy.Python.{Value, Result, ok, raise}

-- The last part of what a call returned: None, an int (True and False are ints), or another object,
-- with its str(), which equals neither 0 nor None.
pub data ErrorCode : Type 0 where
  absent : ErrorCode
  integer : ℤ → ErrorCode
  object : Text → ErrorCode

-- What a call returned: a list or tuple by its length (of two and more the first and the last
-- count), an int, or anything else.
pub data Return : Type 0 where
  pair : Option ℕ → ErrorCode → Return
  one : Option ℕ → Return
  empty : Return
  code : ℤ → Return
  bare : ℕ → Return

-- The three calls that browse.
pub data Level : Type 0 where
  logical_device logical_node data_object : Level

-- A list that is no LinkedList of the library: None or "", an iterable, or neither.
pub data Shim : Type 0 where
  nothing : Shim
  sequence : List Text → Shim
  scalar : Text → Shim

-- pyiec61850 with an IED behind it; `none` is a name that is absent or not callable. A pointer is a
-- number. `cells` are the elements of a LinkedList behind its head, each with how its conversion
-- ends.
pub record Binding : Type 0 where
  pub logical_device_list : Option (Result Return)
  pub directory : Level → Option (Text → Result Return)
  pub read_object : Option (Text → Value → Result Return)
  pub has_linked_list : Bool
  pub cells : ℕ → List (Result Text)
  pub shim : ℕ → Shim
  pub can_destroy_list : Bool
  pub can_delete_value : Bool

-- _safe, with _CALL_FAILED = -1
unfoldable pub safe : Result Return → Return
safe (ok r) = r
safe (raise e) = code (negsuc 0)

-- _unwrap
unfoldable pub unwrap : Return → Option ℕ × ErrorCode
unwrap (pair payload err) = (payload, err)
unwrap (one payload) = (payload, integer (pos 0))
unwrap empty = (none, integer (pos 0))
unwrap (code c) = (none, integer c)
unwrap (bare payload) = (some payload, integer (pos 0))

-- code != 0, of an int
abbrev pub is_nonzero : ℤ → Bool
is_nonzero (pos zero) = false
is_nonzero c = true

-- err not in (0, None)
abbrev pub is_failure : ErrorCode → Bool
is_failure absent = false
is_failure (integer c) = is_nonzero c
is_failure (object name) = true

-- _to_str_list
unfoldable pub to_str_list : Shim → List Text
to_str_list nothing = []
to_str_list (sequence xs) = xs
to_str_list (scalar x) = x ∷ []

-- The loop of _linkedlist_to_str; an exception leaves what there is so far.
unfoldable pub walk : List (Result Text) → List Text
walk [] = []
walk (ok t ∷ rest) = t ∷ walk rest
walk (raise e ∷ rest) = []

-- _linkedlist_to_str
unfoldable pub linkedlist_to_str : Binding → ℕ → List Text
linkedlist_to_str lib head = elim lib.has_linked_list [
  | true ↦ walk (lib.cells head)
  | false ↦ to_str_list (lib.shim head)
]

-- _free_list, on the record of what was freed
unfoldable pub free_list : Binding → ℕ → List ℕ → List ℕ
free_list lib head freed = elim lib.can_destroy_list [ true ↦ freed ++ head ∷ [] | false ↦ freed ]

-- _free_mms
unfoldable pub free_mms : Binding → ℕ → List ℕ → List ℕ
free_mms lib value freed = elim lib.can_delete_value [ true ↦ freed ++ value ∷ [] | false ↦ freed ]
