-- ===== src/Python.antt =====
-- What the modules under iaiops_energy/ use of Python itself: dynamic values, exceptions, and the
-- parts of the standard library that stay parameters (`Runtime`).
use industrial_aiops_energy.Prelude.{
  ℕ, ◌≡◌, refl, Bool, Option, none, some, List, [], ◌∷◌, Text, text_eq, ℤ, if◌then◌else◌,
}

-- A value that reached the program from JSON. `float` is known by its bits.
mutual
  pub data Value : Type 0 where
    null : Value
    bool : Bool → Value
    int : ℤ → Value
    float : ℕ → Value
    text : Text → Value
    array : Items → Value
    object : Fields → Value

  -- The elements of a list.
  pub data Items : Type 0 where
    item : Value → Items → Items
    no_items : Items

  -- The entries of a dict.
  pub data Fields : Type 0 where
    field : Text → Value → Fields → Fields
    no_fields : Fields

unfoldable pub elements : Items → List Value
elements no_items = []
elements (item v vs) = v ∷ elements vs

-- d.get(key); None stands for a missing key too
unfoldable pub get : Text → Fields → Option Value
get key no_fields = none
get key (field k v rest) = if text_eq k key then some v else get key rest

-- The classes of exception that the code raises or tells apart.
pub data ErrorClass : Type 0 where
  overflow_error connection_error browse_error runtime_error type_error import_error : ErrorClass
  lookup_error library_error : ErrorClass

-- An exception with its str(), and for an OTConnectionError its endpoint and protocol.
pub data Exception : Type 0 where
  ot_connection_error : Text → Text → Text → Exception
  other : ErrorClass → Text → Exception

-- How a call ends.
pub data Result {ℓ} (A : Type ℓ) : Type ℓ where
  raise : Exception → Result A
  ok : A → Result A

module _ {ℓ κ} {A : Type ℓ} {B : Type κ} where
  infixl 8 ◌>>=◌
  -- An exception of the first call skips the second.
  abbrev pub ◌>>=◌ : Result A → (A → Result B) → Result B
  raise e >>= next = raise e
  ok a >>= next = next a

  -- Where the second call returned, so did the first.
  pub returned_first :
      (first : Result A) (next : A → Result B) {b : B}
      → (first >>= next) ≡ ok b
      → (a : A) × (first ≡ ok a) × (next a ≡ ok b)
  returned_first (raise e) next h = cc
  returned_first (ok a) next h = (a, refl, h)

-- A `datetime`: the microseconds of its wall clock since 0001-01-01T00:00, and for an aware one
-- the offset from UTC in microseconds.
pub record DateTime : Type 0 where
  pub wall : ℕ
  pub offset : Option ℤ

-- The microseconds of the years 1 to 9999, which is what a datetime can hold.
unfoldable pub max_micros : ℕ
max_micros = 315_537_897_600_000_000

-- The parts of Python's library whose tables or rounding the model does not spell out.
pub record Runtime : Type 0 where
  -- lower() of a character that is not ASCII
  pub lower_other : ℕ → Text
  -- str() of a value that is not a str
  pub str_other : Value → Text
  -- datetime.fromisoformat; `none` is a ValueError
  pub fromisoformat : Text → Option DateTime
  -- isoformat() of a naive datetime
  pub isoformat : ℕ → Text
  -- str() of a natural number
  pub decimal : ℕ → Text
  -- str() of a float of seconds, given in microseconds
  pub seconds : ℤ → Text
  -- a span in microseconds, in seconds with three digits behind the point
  pub fixed3 : ℤ → Text

-- What `P` says of a result, if there is one.
abbrev pub OnOk {ℓ κ} : {A : Type ℓ} → (A → Type κ) → Result A → Type κ
OnOk P (ok a) = P a
OnOk P (raise e) = Unit
