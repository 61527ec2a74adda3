-- ===== src/Dnp3/Points.antt =====
-- iaiops_energy/connectors/dnp3/driver.py: how the measurements of a poll become points.
pub mod Labels
use industrial_aiops_energy.Prelude.{
  ℕ, zero, suc, ◌-◌, ◌==◌, if◌then◌else◌, Bool, Option, none, some, List, [], ◌∷◌, ◌++◌, map,
  length, Text, codes, text_eq, starts_with,
}
use industrial_aiops_energy.Python.{Value, text, null, Runtime}

-- str(v)
abbrev pub str_of : Runtime → Value → Text
str_of rt (text s) = s
str_of rt v = rt.str_other v

-- s.replace(part, "") for a part that is not empty; the number counts the characters of a found
-- part that are still to be left out.
unfoldable pub remove_part : Text → ℕ → Text → Text
remove_part part skip [] = []
remove_part part (suc skip) (c ∷ s) = remove_part part skip s
remove_part part zero (c ∷ s) =
    let removed = remove_part part (length part - 1) s in
    let kept = remove_part part zero s in if starts_with (c ∷ s) part then removed else c ∷ kept

-- d.get(key) on the two tables
unfoldable pub find_name : List (ℕ × Text) → ℕ → Option Text
find_name [] g = none
find_name ((k, v) ∷ rest) g = let later = find_name rest g in if k == g then some v else later

unfoldable pub find_group : List (Text × ℕ) → Text → Option ℕ
find_group [] name = none
find_group ((k, v) ∷ rest) name =
    let later = find_group rest name in if text_eq k name then some v else later

-- _GROUP_TYPE
unfoldable pub group_type : List (ℕ × Text)
unfolding codes
group_type =
    (1, codes "binary_input")
    ∷ (2, codes "binary_input_event")
    ∷ (3, codes "double_bit_binary")
    ∷ (20, codes "counter")
    ∷ (21, codes "frozen_counter")
    ∷ (22, codes "counter_event")
    ∷ (30, codes "analog_input")
    ∷ (32, codes "analog_input_event")
    ∷ (40, codes "analog_output_status")
    ∷ (10, codes "binary_output_status")
    ∷ (50, codes "time_and_interval")
    ∷ (110, codes "octet_string")
    ∷ []

-- _COLLECTION_GROUP
unfoldable pub collection_group : List (Text × ℕ)
unfolding codes
collection_group =
    (codes "IndexedBinary", 1)
    ∷ (codes "IndexedDoubleBitBinary", 3)
    ∷ (codes "IndexedAnalog", 30)
    ∷ (codes "IndexedCounter", 20)
    ∷ (codes "IndexedFrozenCounter", 21)
    ∷ (codes "IndexedBinaryOutputStatus", 10)
    ∷ (codes "IndexedAnalogOutputStatus", 40)
    ∷ (codes "IndexedTimeAndInterval", 50)
    ∷ (codes "IndexedOctetString", 110)
    ∷ []

-- x if x is not None else d
abbrev pub some_or : {A : Type 0} → A → Option A → A
some_or d none = d
some_or d (some a) = a

-- measurement_type
unfoldable pub measurement_type : Runtime → ℕ → Text
measurement_type rt group =
    some_or (codes "group_" ++ rt.decimal group) (find_name group_type group)

-- What an Indexed<T> carries; `none` is an attribute that is absent.
pub record Measurement : Type 0 where
  pub value : Option Value
  pub flags : Option Value
  pub time : Option Value

pub record Item : Type 0 where
  pub index : Option ℕ
  pub meas : Option Measurement

-- An opendnp3 collection: its class name, and what ForeachItem visits.
pub record Collection : Type 0 where
  pub class_name : Text
  pub items : List Item

-- One dict of the poll's result.
pub record Point : Type 0 where
  pub group : Option ℕ
  pub type : Text
  pub index : ℕ
  pub value : Value
  pub quality : Text
  pub timestamp : Text

-- name in _COLLECTION_GROUP
unfoldable pub collection_of : Text → Option ℕ
collection_of class_name =
    find_group collection_group (remove_part (codes "ICollection") 0 class_name)

abbrev pub label_of : Runtime → Text → Option ℕ → Text
label_of rt class_name none = codes "unknown_collection:" ++ class_name
label_of rt class_name (some group) = measurement_type rt group

abbrev field_of : (Measurement → Option Value) → Option Measurement → Option Value
field_of f none = none
field_of f (some m) = f m

abbrev str_or_empty : Runtime → Option Value → Text
str_or_empty rt none = []
str_or_empty rt (some v) = str_of rt v

-- _on_item
unfoldable pub on_item : Runtime → Option ℕ → Text → Item → Point
on_item rt group mtype item = record {
  group = group;
  type = mtype;
  index = some_or 0 item.index;
  value = some_or null (field_of (λ m. m.value) item.meas);
  quality = str_or_empty rt (field_of (λ m. m.flags) item.meas);
  timestamp = str_or_empty rt (field_of (λ m. m.time) item.meas);
}

-- _harvest_collection
unfoldable pub harvest_collection : Runtime → Collection → List Point → List Point
harvest_collection rt values out =
    let group = collection_of values.class_name in
    out ++ map (on_item rt group (label_of rt values.class_name group)) values.items
