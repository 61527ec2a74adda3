-- ===== src/Substation/Events.antt =====
-- substation.py, reading one entry of the injected list: its type, its timestamp, its ref.
use industrial_aiops_energy.Prelude.{
  ◌≢◌, inl, inr, arith, Option-cases, leb, ◌==◌, ◌+◌, ◌&&◌, ◌||◌, Option, none, some, List, [], ◌∷◌,
  ◌++◌, Text, codes, text_eq, contains, strip, if◌then◌else◌,
}
use industrial_aiops_energy.Python.{Value, text, Fields, get, DateTime, Runtime}

-- _KNOWN_TYPES, and the "other" that classification falls back to.
pub data EventType : Type 0 where
  protection_pickup protection_trip breaker_open breaker_close lockout bus_undervoltage : EventType
  other : EventType

-- The string that the program uses for the type.
unfoldable pub type_name : EventType → Text
unfolding codes
type_name protection_pickup = codes "protection_pickup"
type_name protection_trip = codes "protection_trip"
type_name breaker_open = codes "breaker_open"
type_name breaker_close = codes "breaker_close"
type_name lockout = codes "lockout"
type_name bus_undervoltage = codes "bus_undervoltage"
type_name other = codes "other"

abbrev known_types : List EventType
known_types =
    protection_pickup ∷ protection_trip ∷ breaker_open ∷ breaker_close ∷ lockout ∷ bus_undervoltage
    ∷ []

find_type : Text → List EventType → Option EventType
unfolding type_name text_eq
find_type t [] = none
find_type t (k ∷ ks) = if text_eq t (type_name k) then some k else find_type t ks

-- raw_type in _KNOWN_TYPES
unfoldable pub known_type : Text → Option EventType
unfolding find_type
known_type t = find_type t known_types

-- _LABEL_KEYWORDS, the more specific phrases first.
unfoldable pub label_keywords : List (Text × EventType)
unfolding codes
label_keywords =
    (codes "lockout", lockout)
    ∷ (codes "undervoltage", bus_undervoltage)
    ∷ (codes "under voltage", bus_undervoltage)
    ∷ (codes "bus uv", bus_undervoltage)
    ∷ (codes "pickup", protection_pickup)
    ∷ (codes "pick-up", protection_pickup)
    ∷ (codes "start", protection_pickup)
    ∷ (codes "trip", protection_trip)
    ∷ (codes "close", breaker_close)
    ∷ (codes "open", breaker_open)
    ∷ []

unfoldable pub match_keyword : Text → List (Text × EventType) → EventType
unfolding contains
match_keyword s [] = other
match_keyword s ((keyword, mapped) ∷ rest) =
    if contains s keyword then mapped else match_keyword s rest

module _ (rt : Runtime) where
  -- str.lower
  unfoldable pub lower : Text → Text
  lower [] = []
  lower (c ∷ s) =
      (if leb b'A' c && leb c b'Z'
        then (c + 32) ∷ []
        else if leb c 127
        then c ∷ []
        else rt.lower_other c)
      ++ lower s

  -- The entries of (raw_type, label) that are strings, in lower case and joined by a space.
  unfoldable pub searched_text : Option Value → Option Value → Text
  unfolding lower
  searched_text (some (text a)) (some (text b)) = lower a ++ 32 ∷ lower b
  searched_text (some (text a)) _ = lower a
  searched_text _ (some (text b)) = lower b
  searched_text _ _ = []

  -- _classify_type; None stands for a missing key too
  unfoldable pub classify_type : Option Value → Option Value → EventType
  unfolding known_type match_keyword searched_text label_keywords
  classify_type (some (text t)) label = elim (known_type t) [
    | some k ↦ k
    | none ↦ match_keyword (searched_text (some (text t)) label) label_keywords
  ]
  classify_type raw_type label = match_keyword (searched_text raw_type label) label_keywords

-- text[:-1] + "+00:00" where the last character is Z or z
unfoldable pub replace_z : Text → Text
unfolding codes
replace_z [] = []
replace_z (c ∷ []) = if c == b'Z' || c == b'z' then codes "+00:00" else c ∷ []
replace_z (c ∷ d ∷ s) = c ∷ replace_z (d ∷ s)

module _ (rt : Runtime) where
  -- _parse_ts
  unfoldable pub parse_ts : Option Value → Option DateTime
  unfolding replace_z strip
  parse_ts (some (text value)) = rt.fromisoformat (replace_z (strip value))
  parse_ts _ = none

  -- str(value)
  str : Value → Text
  str (text t) = t
  str v = rt.str_other v

  -- value or "?"
  or_question : Text → Text
  or_question [] = b'?' ∷ []
  or_question (c ∷ s) = c ∷ s

  -- str(event.get("ref", "")) or "?"
  unfoldable pub read_ref : Fields → Text
  unfolding str or_question get codes
  read_ref event = elim (get (codes "ref") event) [
    | none ↦ or_question []
    | some v ↦ or_question (str v)
  ]

  or_question-named : (t : Text) → or_question t ≢ []
  unfolding or_question
  or_question-named [] e = ground arith
  or_question-named (c ∷ s) e = ground arith

  -- A ref is never empty.
  pub read_ref-named : (event : Fields) → read_ref event ≢ []
  unfolding read_ref
  read_ref-named event = elim (Option-cases (get (codes "ref") event)) [
    | inl missing ↦ λ e. or_question-named [] (ground arith)
    | inr (v, there) ↦ λ e. or_question-named (str v) (ground arith)
  ]
