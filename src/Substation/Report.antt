-- ===== src/Substation/Report.antt =====
-- substation.py, `substation_event_analysis` and the parts of its answer that cite events.
pub mod Again
pub mod Opens
pub mod Affected
pub mod Conclusions
pub mod Surprises
pub mod Input
use industrial_aiops_energy.Prelude.{
  ℕ, Bool, true, false, ◌&&◌, not, Option, none, some, List, [], ◌∷◌, ◌++◌, map, head?, length,
  take, filter, Text, codes, text_eq, ℤ, pos, pos_part, if◌then◌else◌,
}
use industrial_aiops_energy.Python.{Value, array, elements, Runtime, Result, ok, ◌>>=◌}
use industrial_aiops_energy.Substation.Events.{
  protection_pickup, protection_trip, breaker_open, lockout, bus_undervoltage, type_name,
}
use industrial_aiops_energy.Substation.Normalize.{Event, normalize}
use industrial_aiops_energy.Substation.Verdict.{Verdict, Status, classify_verdict}

abbrev pub max_timeline : ℕ
max_timeline = 50

abbrev pub max_list : ℕ
max_list = 100

-- {ref, ts}
pub record Citation : Type 0 where
  pub ref : Text
  pub ts : Text

-- {ref, type, ts}
pub record TimelineEntry : Type 0 where
  pub ref : Text
  pub type : Text
  pub ts : Text

-- event.type in _PROTECTION_TYPES
abbrev pub is_protection : Event → Bool
is_protection e = elim e.type [ protection_pickup ↦ true | protection_trip ↦ true | _ ↦ false ]

abbrev pub is_trip : Event → Bool
is_trip e = elim e.type [ protection_trip ↦ true | _ ↦ false ]

abbrev pub is_open : Event → Bool
is_open e = elim e.type [ breaker_open ↦ true | _ ↦ false ]

-- event.type in outage_types
abbrev pub is_outage : Event → Bool
is_outage e = elim e.type [
  | breaker_open ↦ true
  | lockout ↦ true
  | bus_undervoltage ↦ true
  | _ ↦ false
]

-- seen.setdefault(ref, ts), on a dict in the order of insertion
unfoldable pub set_default : Text → ℕ → List (Text × ℕ) → List (Text × ℕ)
set_default ref ts [] = (ref, ts) ∷ []
set_default ref ts ((r, t) ∷ seen) =
    if text_eq r ref then (r, t) ∷ seen else (r, t) ∷ set_default ref ts seen

-- The loop of `_distinct_opens`, from a dict `seen`.
unfoldable pub seen_opens : List (Text × ℕ) → List Event → List (Text × ℕ)
unfolding set_default
seen_opens seen [] = seen
seen_opens seen (event ∷ opens) = seen_opens (set_default event.ref event.ts seen) opens

-- event.ref in refs
unfoldable pub mem_text : Text → List Text → Bool
mem_text ref [] = false
mem_text ref (r ∷ refs) = if text_eq r ref then true else mem_text ref refs

-- The loop of `_affected_refs`, from a list `refs`.
unfoldable pub affected_from : List Text → List Event → List Text
unfolding mem_text
affected_from refs [] = refs
affected_from refs (event ∷ events) =
    affected_from
      (if is_outage event && not (mem_text event.ref refs) then refs ++ event.ref ∷ [] else refs)
      events

-- _affected_refs
unfoldable pub affected_refs : List Event → List Text
unfolding affected_from
affected_refs events = take max_list (affected_from [] events)

module _ (rt : Runtime) where
  abbrev pub cite : Text × ℕ → Citation
  cite (ref, ts) = record { ref = ref; ts = rt.isoformat ts }

  -- _point
  unfoldable pub point : Option Event → Option Citation
  point none = none
  point (some event) = some (record { ref = event.ref; ts = rt.isoformat event.ts })

  -- _distinct_opens
  unfoldable pub distinct_opens : List Event → List Citation
  unfolding seen_opens
  distinct_opens opens = map cite (seen_opens [] opens)

  abbrev pub timeline_entry : Event → TimelineEntry
  unfolding type_name
  timeline_entry event = record {
    ref = event.ref;
    type = type_name event.type;
    ts = rt.isoformat event.ts;
  }

  -- _timeline
  unfoldable pub timeline : List Event → List TimelineEntry
  timeline events = map timeline_entry (take max_timeline events)

-- _NOTE
unfoldable pub note_text : Text
unfolding codes
note_text =
    codes
      "Advisory, monitor-only structural analysis of injected SOE events; no live protocol I/O and no control action. Every finding is tied to a timestamped event (cite-first) — verify against the station's relay targets and event recorder before acting."

-- The answer. `status` and `detail` are the dict "coordination".
pub record Analysis : Type 0 where
  pub events_analyzed : ℕ
  pub ignored : ℕ
  pub verdict : Verdict
  pub first_protection : Option Citation
  pub first_breaker_open : Option Citation
  pub breakers_opened : List Citation
  pub breaker_open_count : ℕ
  pub affected : List Text
  pub timeline : List TimelineEntry
  pub status : Status
  pub detail : Text
  pub note : Text

-- max(x, 0.0)
abbrev pub max_zero : ℤ → ℤ
max_zero x = pos (pos_part x)

-- events if isinstance(events, list) else []
unfoldable pub event_list : Value → List Value
unfolding elements
event_list (array items) = elements items
event_list _ = []

-- The answer about the normalized events.
unfoldable pub analyse : Runtime → ℤ → ℤ → List Event × ℕ → Analysis
analyse rt bf_window margin (parsed, ignored) =
    let protections = filter is_protection parsed in
    let opens = filter is_open parsed in
    let breakers_opened = distinct_opens rt opens in
    let decision =
      classify_verdict rt protections (filter is_trip parsed) opens (length breakers_opened)
        (max_zero bf_window) (max_zero margin) in
    record {
      events_analyzed = length parsed;
      ignored = ignored;
      verdict = decision.verdict;
      first_protection = point rt (head? protections);
      first_breaker_open = point rt (head? opens);
      breakers_opened = take max_list breakers_opened;
      breaker_open_count = length breakers_opened;
      affected = affected_refs parsed;
      timeline = timeline rt parsed;
      status = decision.status;
      detail = decision.detail;
      note = note_text;
    }

-- substation_event_analysis; the windows are in microseconds
unfoldable pub substation_event_analysis : Runtime → Value → ℤ → ℤ → Result Analysis
substation_event_analysis rt events bf_window margin = do
  parsed ← normalize rt (event_list events)
  ok (analyse rt bf_window margin parsed)
