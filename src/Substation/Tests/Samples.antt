-- ===== src/Substation/Tests/Samples.antt =====
-- A toy runtime for the analysis of substation.py, and event lists for its tests.
use industrial_aiops_energy.Prelude.{
  ℕ, ◌≡◌, refl, Option, none, some, String, Text, codes, text_eq, contains, strip, starts_with, pos,
}
use industrial_aiops_energy.Python.{
  Value, text, array, object, no_items, item, no_fields, field, elements, get, Result, ok, raise,
  max_micros,
}
use industrial_aiops_energy.Toy.{digits, runtime}
use industrial_aiops_energy.Substation.Events.{
  EventType, classify_type, type_name, known_type, match_keyword, label_keywords, lower,
  searched_text, replace_z, parse_ts, read_ref,
}
use industrial_aiops_energy.Substation.Normalize.{
  Event, read_event, collect, in_range, to_utc, place, place_all, insert, sort, normalize,
}
use industrial_aiops_energy.Substation.Verdict.{
  Verdict, selective_trip, local_open_within, first_remote_open, failed_breaker, reference,
  late_open, classify_verdict,
}
use industrial_aiops_energy.Substation.Report.{
  set_default, seen_opens, mem_text, affected_from, affected_refs, point, distinct_opens, timeline,
  event_list, analyse, substation_event_analysis, Analysis,
}

abbrev pub entry : Text → Text → Text → Value
unfolding codes
entry ref type ts = object (
    field (codes "ref") (text ref)
      (field (codes "type") (text type) (field (codes "timestamp") (text ts) no_fields)))

-- All that a run of the analysis computes with.
unfoldable pub run : Value → Result Analysis
unfolding digits codes text_eq contains strip starts_with elements get max_micros classify_type
    type_name known_type match_keyword label_keywords lower searched_text replace_z parse_ts
    read_ref read_event collect in_range to_utc place place_all insert sort normalize
    local_open_within first_remote_open failed_breaker reference late_open classify_verdict
    set_default seen_opens mem_text affected_from affected_refs point distinct_opens timeline
    event_list analyse substation_event_analysis
run events = substation_event_analysis runtime events (pos 250000) (pos 500000)

abbrev pub verdict_of : Result Analysis → Option Verdict
verdict_of (ok a) = some a.verdict
verdict_of (raise e) = none

abbrev pub prompt_trip : Value
unfolding codes
prompt_trip = array (
    item (entry (codes "R1") (codes "breaker_open") (codes "80000Z")) (
      item (entry (codes "R1") (codes "protection_trip") (codes "0Z"))
        (item (entry (codes "R2") (codes "Zone 1 PICKUP") (codes "12")) no_items)))

prompt_trip-selective : verdict_of (run prompt_trip) ≡ some selective_trip
unfolding run
prompt_trip-selective = refl

abbrev pub ev : String → ℕ → EventType → Event
unfolding codes
ev ref ts type = record { ref = codes ref; ts = ts; type = type }
