-- ===== src/Iec104/Stations.antt =====
-- iaiops_energy/connectors/iec104/ops.py: what the operations read of a c104 connection.
pub mod Chosen
use industrial_aiops_energy.Prelude.{
  ℕ, Bool, true, false, Option, none, some, List, [], ◌∷◌, Text, ℤ, pos, eqb_ℤ, if◌then◌else◌, take,
}
use industrial_aiops_energy.Python.{Value, text, null}
use industrial_aiops_energy.Shared.{Shared, num_or_s}

-- int(v); `none` is a TypeError or a ValueError.
abbrev pub IntOf : Type 0
IntOf = Value → Option ℤ

-- A c104 enum or scalar: its name where it has one that is not empty, whether it has a value, and
-- its str().
pub record Enum : Type 0 where
  pub name : Text
  pub has_value : Bool
  pub str_text : Text
  pub scalar : Value

-- A point; io_address and recorded_at are what getattr finds under the one name or the other.
pub record Point : Type 0 where
  pub value : Option Value
  pub io_address : Option Value
  pub type : Option Enum
  pub quality : Option Enum
  pub recorded_at : Option Value

-- A station; `none` is an attribute that is absent, or None.
pub record Station : Type 0 where
  pub common_address : Option Value
  pub points : Option (List Point)

-- A connection: its attribute, and what its getter gives where it is callable.
pub record Connection : Type 0 where
  pub stations : Option (List Station)
  pub get_stations : Option (List Station)
  pub is_connected : Bool

-- x if x is not None else null, as getattr with the default None
abbrev pub or_null : Option Value → Value
or_null none = null
or_null (some v) = v

-- _opt_int
unfoldable pub opt_int : IntOf → Value → Option ℤ
opt_int int_of null = none
opt_int int_of (text []) = none
opt_int int_of v = int_of v

-- _enum_name
unfoldable pub enum_name : Shared → Enum → Text
enum_name sh e = elim e.name [
  | c ∷ name ↦ sh.s (text (c ∷ name)) 48
  | [] ↦ elim e.has_value [ true ↦ sh.s (text e.str_text) 48 | false ↦ sh.s e.scalar 48 ]
]

-- _enum_name(getattr(point, ..., ""))
abbrev pub enum_or_empty : Shared → Option Enum → Text
enum_or_empty sh none = sh.s (text []) 48
enum_or_empty sh (some e) = enum_name sh e

-- The dict of `_point_brief`.
pub record Brief : Type 0 where
  pub io_address : Option ℤ
  pub type : Text
  pub value : Value
  pub quality : Text
  pub recorded_at : Text

-- _point_brief
unfoldable pub point_brief : Shared → IntOf → Point → Brief
point_brief sh int_of p = record {
  io_address = opt_int int_of (or_null p.io_address);
  type = enum_or_empty sh p.type;
  value = num_or_s sh (or_null p.value) 64;
  quality = enum_or_empty sh p.quality;
  recorded_at = sh.s (elim p.recorded_at [ none ↦ text [] | some v ↦ v ]) 40;
}

abbrev pub or_nil : {A : Type 0} → Option (List A) → List A
or_nil none = []
or_nil (some xs) = xs

-- _stations
unfoldable pub stations_of : Connection → List Station
stations_of conn = elim conn.stations [ some xs ↦ xs | none ↦ or_nil conn.get_stations ]

-- _station_ca
unfoldable pub station_ca : IntOf → Station → Option ℤ
station_ca int_of st = opt_int int_of (or_null st.common_address)

-- a == b on two optional ints
unfoldable pub eqb_address : Option ℤ → Option ℤ → Bool
eqb_address none none = true
eqb_address none (some b) = false
eqb_address (some a) none = false
eqb_address (some a) (some b) = eqb_ℤ a b

-- for x in xs: if test(x): return x
unfoldable pub find : {A : Type 0} → (A → Bool) → List A → Option A
find test [] = none
find test (x ∷ xs) = let later = find test xs in if test x then some x else later

-- _pick_station
unfoldable pub pick_station : IntOf → List Station → Option ℤ → Option Station
pick_station int_of [] want = none
pick_station int_of (st ∷ rest) none = some st
pick_station int_of (st ∷ rest) (some ca) =
    find (λ x. eqb_address (station_ca int_of x) (some ca)) (st ∷ rest)

-- getattr(p, "io_address", getattr(p, "address", None)) as an address
unfoldable pub point_address : IntOf → Point → Option ℤ
point_address int_of p = opt_int int_of (or_null p.io_address)

-- The points that an operation looks at, at MAX_POINTS = 5000.
unfoldable pub bounded_points : Station → List Point
bounded_points st = take 5000 (or_nil st.points)

-- The loop of `iec104_read_point`.
unfoldable pub find_point : IntOf → Option ℤ → Station → Option Point
find_point int_of ioa st = find (λ p. eqb_address (point_address int_of p) ioa) (bounded_points st)
