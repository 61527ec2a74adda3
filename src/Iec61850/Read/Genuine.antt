-- ===== src/Iec61850/Read/Genuine.antt =====
-- A value that iec61850/driver.py reads is one that the device gave.
use industrial_aiops_energy.Prelude.{
  ℕ, ◌≡◌, ◌≢◌, inl, inr, refl, arith, Option, none, some, List, [], ◌∷◌, Text, Option-cases,
}
use industrial_aiops_energy.Python.{Value, Runtime, Result, ok, raise}
use industrial_aiops_energy.Iec61850.Binding.{Binding, free_mms}
use industrial_aiops_energy.Iec61850.Browse.{reply}
use industrial_aiops_energy.Iec61850.Read.{
  Accessor, to_float, to_int64, to_uint32, get_boolean, to_string, MmsBinding, find_accessor,
  accessor_of, typed_decoder, opaque_mms, decode_mms, access_error, fc_value, value, read_payload,
  read,
}

module _ (rt : Runtime) (mms : MmsBinding) (lib : Binding) where
  -- Where a read gives a value the reader was there, its call succeeded with a payload, and the
  -- payload was no data access error; the value is the payload's, and the payload was freed behind
  -- everything freed before.
  pub read-value :
      (reference fc : Text) (v : Value) (freed freed' : List ℕ)
      → read rt mms lib reference fc freed ≡ (value v, freed')
      → (call : Text → Value → Result _) × (h : ℕ) × (lib.read_object ≡ some call)
        × (reply (call reference (fc_value rt mms fc)) ≡ some (some h))
        × (access_error rt mms h ≡ none)
        × (v ≡ decode_mms rt mms h)
        × (freed' ≡ free_mms lib h freed)
  unfolding read read_payload
  read-value reference fc v freed freed' e = elim (Option-cases lib.read_object) [
    | inl missing ↦ absurd (ground arith)
    | inr (call, there) ↦ elim (Option-cases (reply (call reference (fc_value rt mms fc)))) [
      | inl failed ↦ absurd (ground arith)
      | inr (none, replied) ↦ absurd (ground arith)
      | inr (some h, replied) ↦ elim (Option-cases (access_error rt mms h)) [
        | inl fine ↦ (call, h, there, replied, fine, ground arith, ground arith)
        | inr (name, bad) ↦ absurd (ground arith)
      ]
    ]
  ]

-- The binding with another float accessor.
abbrev pub with_float : Option (ℕ → Result Value) → MmsBinding → MmsBinding
with_float f mms = record mms {
  accessor = λ a. elim a [
    | to_float ↦ f
    | to_int64 ↦ mms.accessor to_int64
    | to_uint32 ↦ mms.accessor to_uint32
    | get_boolean ↦ mms.accessor get_boolean
    | to_string ↦ mms.accessor to_string
  ];
}

-- No entry of the table is for the float accessor.
abbrev NoFloat : List (Option ℕ × Accessor) → Type 0
NoFloat [] = Unit
NoFloat ((k, a) ∷ rest) = (a ≢ to_float) × NoFloat rest

find_accessor-NoFloat :
    (table : List (Option ℕ × Accessor)) (type : ℕ)
    → NoFloat table
    → find_accessor table type ≢ some to_float
unfolding find_accessor
find_accessor-NoFloat [] type h = λ e. cc
find_accessor-NoFloat ((none, a) ∷ rest) type h = find_accessor-NoFloat rest type h.1
find_accessor-NoFloat ((some k, a) ∷ rest) type h = λ e.
    let later = find_accessor-NoFloat rest type h.1 in
    let this = h.0 in
    elim (Option-cases (find_accessor rest type)) [
      | inl missing ↦ absurd (ground arith)
      | inr (b, found) ↦ later (ground arith)
    ]

find_accessor-head :
    (k : Option ℕ) (rest : List (Option ℕ × Accessor)) (type : ℕ)
    → NoFloat rest
    → find_accessor ((k, to_float) ∷ rest) type ≡ some to_float
    → k ≡ some type
unfolding find_accessor
find_accessor-head none rest type h e = absurd (find_accessor-NoFloat rest type h e)
find_accessor-head (some k) rest type h e =
    let never = find_accessor-NoFloat rest type h in
    elim (Option-cases (find_accessor rest type)) [
      | inl missing ↦ ground arith
      | inr (b, found) ↦ absurd (never (ground arith))
    ]

module _ (rt : Runtime) (mms : MmsBinding) where
  accessor_of-to_float :
      (type : ℕ) → accessor_of rt mms type ≡ some to_float → mms.mms_float ≡ some type
  unfolding accessor_of
  accessor_of-to_float type e =
      find_accessor-head mms.mms_float _ type
        ((λ x. cc), ((λ x. cc), ((λ x. cc), ((λ x. cc), ((λ x. cc), tt))))) e

  typed_decoder-with_float :
      (f : Option (ℕ → Result Value)) (r : Result ℕ)
      → ((k : ℕ) → mms.mms_float ≡ some k → r ≢ ok k)
      → typed_decoder rt (with_float f mms) r ≡ typed_decoder rt mms r
  unfolding typed_decoder accessor_of
  typed_decoder-with_float f (raise x) h = refl
  typed_decoder-with_float f (ok type) h = elim (Option-cases (accessor_of rt mms type)) [
    | inl unmapped ↦ ground arith
    | inr (to_float, e) ↦ absurd (h type (accessor_of-to_float type e) refl)
    | inr (to_int64, e) ↦ ground arith
    | inr (to_uint32, e) ↦ ground arith
    | inr (get_boolean, e) ↦ ground arith
    | inr (to_string, e) ↦ ground arith
  ]

  opaque_mms-with_float :
      (f : Option (ℕ → Result Value)) (h : ℕ)
      → opaque_mms rt (with_float f mms) h ≡ opaque_mms rt mms h
  unfolding opaque_mms
  opaque_mms-with_float f h = refl

  -- The decoding of a value does not depend on the float accessor unless the binding reports the type
  -- MMS_FLOAT for that value: what is no float is never read through it, and so is never the 0.0
  -- that it gives for other types.
  pub decode_mms-with_float :
      (f : Option (ℕ → Result Value)) (h : ℕ)
      → ((get_type : ℕ → Result ℕ) (k : ℕ)
          → mms.get_type ≡ some get_type
          → mms.mms_float ≡ some k
          → get_type h ≢ ok k)
      → decode_mms rt (with_float f mms) h ≡ decode_mms rt mms h
  unfolding decode_mms
  decode_mms-with_float f h no_float = elim (Option-cases mms.get_type) [
    | inl untyped ↦ let shut = opaque_mms-with_float f h in ground arith
    | inr (g, typed) ↦
        let shut = opaque_mms-with_float f h in
        let decoder = typed_decoder-with_float f (g h) (λ k e. no_float g k typed e) in ground arith
  ]
