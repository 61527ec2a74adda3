-- ===== src/Iec61850/Read.antt =====
-- iaiops_energy/connectors/iec61850/driver.py: reading one attribute, and decoding its value without
-- inventing one.
pub mod Genuine
use industrial_aiops_energy.Prelude.{
  ℕ, Bool, true, false, ◌==◌, Option, none, some, List, [], ◌∷◌, ◌++◌, Text, codes, if◌then◌else◌,
  ℤ,
}
use industrial_aiops_energy.Python.{Value, text, null, Runtime, Result, ok, raise, Exception}
use industrial_aiops_energy.Sessions.Messages.{upper}
use industrial_aiops_energy.Iec61850.Binding.{Binding, ErrorCode, safe, unwrap, free_mms}
use industrial_aiops_energy.Iec61850.Browse.{reply}

-- The accessors of an MmsValue.
pub data Accessor : Type 0 where
  to_float to_int64 to_uint32 get_boolean to_string : Accessor

-- The part of the binding for values; `none` is a name that is absent or not callable, and for a
-- constant one that is absent, which equals no type.
pub record MmsBinding : Type 0 where
  pub get_type : Option (ℕ → Result ℕ)
  pub accessor : Accessor → Option (ℕ → Result Value)
  pub mms_float : Option ℕ
  pub mms_integer : Option ℕ
  pub mms_unsigned : Option ℕ
  pub mms_boolean : Option ℕ
  pub mms_visible_string : Option ℕ
  pub mms_string : Option ℕ
  pub access_error_type : Option ℕ
  pub access_detail : Option (ℕ → Result Text)
  -- FunctionalConstraint_fromString, and the constants IEC61850_FC_*
  pub constraint : Option (Text → Result Value)
  pub constraint_constant : Text → Option Value
  -- str() of the wrapped value
  pub str_pointer : ℕ → Text

-- type_to_accessor.get(mms_type), where a later entry of the dict replaces an equal key
unfoldable pub find_accessor : List (Option ℕ × Accessor) → ℕ → Option Accessor
find_accessor [] type = none
find_accessor ((none, a) ∷ rest) type = find_accessor rest type
find_accessor ((some k, a) ∷ rest) type =
    let later = find_accessor rest type in
    elim later [ some b ↦ some b | none ↦ if k == type then some a else none ]

abbrev or_value : {A : Type 0} → Result A → A → A
or_value (ok a) d = a
or_value (raise e) d = d

module _ (rt : Runtime) (mms : MmsBinding) where
  -- _typed_decoder: the accessor for a type, where it is callable
  unfoldable pub accessor_of : ℕ → Option Accessor
  accessor_of type =
      find_accessor
        ((mms.mms_float, to_float)
          ∷ (mms.mms_integer, to_int64)
          ∷ (mms.mms_unsigned, to_uint32)
          ∷ (mms.mms_boolean, get_boolean)
          ∷ (mms.mms_visible_string, to_string)
          ∷ (mms.mms_string, to_string)
          ∷ [])
        type

  unfoldable pub typed_decoder : Result ℕ → Option (ℕ → Result Value)
  typed_decoder (raise e) = none
  typed_decoder (ok type) = elim (accessor_of type) [ none ↦ none | some a ↦ mms.accessor a ]

  -- str(text) of what the string accessor gave, unless that is None or ""
  abbrev pub spoken : Result Value → Option Text
  spoken (raise e) = none
  spoken (ok null) = none
  spoken (ok (text [])) = none
  spoken (ok (text (c ∷ s))) = some (c ∷ s)
  spoken (ok v) = some (rt.str_other v)

  -- f"<unmapped MmsValue type={...}>", or str(mms_value)
  abbrev pub marker : ℕ → Value
  marker h = elim mms.get_type [
    | none ↦ text (mms.str_pointer h)
    | some get_type ↦ elim (get_type h) [
      | raise e ↦ text (mms.str_pointer h)
      | ok type ↦ text (codes "<unmapped MmsValue type=" ++ (rt.decimal type ++ codes ">"))
    ]
  ]

  -- _opaque_mms
  unfoldable pub opaque_mms : ℕ → Value
  opaque_mms h = elim (mms.accessor to_string) [
    | none ↦ marker h
    | some f ↦ elim (spoken (f h)) [ some t ↦ text t | none ↦ marker h ]
  ]

  abbrev pub try_decoder : Option (ℕ → Result Value) → ℕ → Value → Value
  try_decoder none h otherwise = otherwise
  try_decoder (some f) h otherwise = or_value (f h) otherwise

  -- _decode_mms
  unfoldable pub decode_mms : ℕ → Value
  decode_mms h = elim mms.get_type [
    | some get_type ↦ try_decoder (typed_decoder (get_type h)) h (opaque_mms h)
    | none ↦
        try_decoder (mms.accessor to_string) h
          (try_decoder (mms.accessor get_boolean) h (opaque_mms h))
  ]

  abbrev pub is_access_error : Result ℕ → Bool
  is_access_error (raise e) = false
  is_access_error (ok type) = elim mms.access_error_type [ none ↦ false | some k ↦ k == type ]

  abbrev pub access_name : ℕ → Text
  access_name h = elim mms.access_detail [
    | none ↦ codes "MMS_DATA_ACCESS_ERROR"
    | some detail ↦ or_value (detail h) (codes "MMS_DATA_ACCESS_ERROR")
  ]

  -- _access_error
  unfoldable pub access_error : ℕ → Option Text
  access_error h = elim mms.get_type [
    | none ↦ none
    | some get_type ↦ if is_access_error (get_type h) then some (access_name h) else none
  ]

  -- _fc_value, for a text in ASCII
  unfoldable pub fc_value : Text → Value
  fc_value fc =
      let name = upper (elim fc [ [] ↦ codes "MX" | c ∷ s ↦ c ∷ s ]) in
      let fallback : Value = elim (mms.constraint_constant name) [
        | some v ↦ v
        | none ↦ text name
      ] in
      elim mms.constraint [ none ↦ fallback | some f ↦ or_value (f name) fallback ]

-- The dict of `read`: the value, or the error by its kind.
pub data Reading : Type 0 where
  value : Value → Reading
  no_reader no_value : Reading
  read_failed : ErrorCode → Reading
  access_failed : Text → Reading

-- What `read` makes of the payload of a call that succeeded; `freed` collects the values that were
-- freed.
unfoldable pub read_payload : Runtime → MmsBinding → Binding → Option ℕ → List ℕ → Reading × List ℕ
read_payload rt mms lib none freed = (no_value, freed)
read_payload rt mms lib (some h) freed = elim (access_error rt mms h) [
  | some name ↦ (access_failed name, free_mms lib h freed)
  | none ↦ (value (decode_mms rt mms h), free_mms lib h freed)
]

-- read
unfoldable pub read : Runtime → MmsBinding → Binding → Text → Text → List ℕ → Reading × List ℕ
read rt mms lib reference fc freed = elim lib.read_object [
  | none ↦ (no_reader, freed)
  | some call ↦ elim (reply (call reference (fc_value rt mms fc))) [
    | none ↦ (read_failed (unwrap (safe (call reference (fc_value rt mms fc)))).1, freed)
    | some payload ↦ read_payload rt mms lib payload freed
  ]
]
