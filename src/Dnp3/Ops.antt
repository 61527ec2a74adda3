-- ===== src/Dnp3/Ops.antt =====
-- iaiops_energy/connectors/dnp3/ops.py: the two operations, in a session over the adapter.
pub mod Counts
pub mod Online
pub mod Liveness
use industrial_aiops_energy.Prelude.{
  ℕ, zero, suc, ◌+◌, Bool, true, false, if◌then◌else◌, Option, none, some, List, [], ◌∷◌, map, take,
  length, Text, codes, text_eq, ℤ, pos,
}
use industrial_aiops_energy.Python.{Runtime, Value, text, Result, ok, raise, Exception}
use industrial_aiops_energy.Shared.{Shared, num_or_s}
use industrial_aiops_energy.Targets.{Target, or_default}
use industrial_aiops_energy.Sessions.Action.{
  Call, import_library, build_master_adapter, enable, is_online, shutdown, Library, State, Run,
  return, ◌>>=◌,
}
use industrial_aiops_energy.Sessions.Managers.{dnp3_session}
use industrial_aiops_energy.Dnp3.Points.{Point}
use industrial_aiops_energy.Dnp3.Adapter
use industrial_aiops_energy.Dnp3.Adapter.{Binding, LinkLayer, new_adapter}
use industrial_aiops_energy.Dnp3.Shutdown
use industrial_aiops_energy.Dnp3.Poll.{Reactor, Live, live_clock, interrupted, integrity_poll}

-- The dict of `_point_brief`.
pub record Brief : Type 0 where
  pub type : Text
  pub group : Option ℕ
  pub index : ℕ
  pub value : Value
  pub quality : Text
  pub timestamp : Text

-- _point_brief
unfoldable pub point_brief : Shared → Point → Brief
point_brief sh p = record {
  type = sh.s (text p.type) 32;
  group = p.group;
  index = p.index;
  value = num_or_s sh p.value 64;
  quality = sh.s (text p.quality) 48;
  timestamp = sh.s (text p.timestamp) 40;
}

-- by_type[t] = by_type.get(t, 0) + 1
unfoldable pub count_up : Text → List (Text × ℕ) → List (Text × ℕ)
count_up t [] = (t, 1) ∷ []
count_up t ((k, n) ∷ rest) =
    let later = count_up t rest in if text_eq k t then (k, suc n) ∷ rest else (k, n) ∷ later

-- The loop over the points.
unfoldable pub count_types : List Brief → List (Text × ℕ) → List (Text × ℕ)
count_types [] by_type = by_type
count_types (p ∷ ps) by_type = count_types ps (count_up p.type by_type)

-- The answer of `dnp3_integrity_poll`, less its note.
pub record PollReport : Type 0 where
  pub endpoint : Text
  pub outstation_address : ℕ
  pub point_count : ℕ
  pub by_type : List (Text × ℕ)
  pub points : List Brief

-- The answer of `dnp3_link_status`, less its note.
pub record LinkReport : Type 0 where
  pub endpoint : Text
  pub host : Text
  pub port : ℕ
  pub outstation_address : ℕ
  pub master_address : ℕ
  pub online : Bool
  pub link_layer : LinkLayer

-- What dnp3_integrity_poll makes of the adapter's points, at MAX_POINTS = 5000.
unfoldable pub poll_report : Shared → Target → List Point → PollReport
poll_report sh target raw =
    let points = map (point_brief sh) (take 5000 raw) in
    record {
      endpoint = sh.s (text target.name) 64;
      outstation_address = or_default target.unit_id 0;
      point_count = length points;
      by_type = count_types points [];
      points = points;
    }

unfoldable pub link_report : Shared → Target → Bool → LinkLayer → LinkReport
link_report sh target online link_layer = record {
  endpoint = sh.s (text target.name) 64;
  host = sh.s (text target.host) 40;
  port = or_default target.port 20000;
  outstation_address = or_default target.unit_id 0;
  master_address = or_default target.master_address 1;
  online = online;
  link_layer = link_layer;
}

module _ {W : Type 0} (rt : Runtime) (lib : Binding) (reactor : Reactor W)
    (import_pydnp3 : Result Bool) where
  -- The calls of a DNP3 session, as the driver answers them. Callbacks of the reactor thread arrive
  -- while the program sleeps, and before each call of a method behind `enable`.
  unfoldable pub answer : Call → Live W → Result Bool × Live W
  answer import_library l = (import_pydnp3, l)
  answer (build_master_adapter host port outstation master) l =
      (ok true, record l { adapter = new_adapter })
  answer enable l = let (r, a) = Adapter.enable lib l.adapter in (r, record l { adapter = a })
  answer is_online l =
      let now = interrupted rt lib reactor l in (ok (Adapter.is_online lib now.adapter), now)
  answer shutdown l =
      (ok true, Shutdown.shutdown rt lib reactor (pos 5_000_000) (interrupted rt lib reactor l))
  answer c l = (ok true, l)

  abbrev pub dnp3_library : Library (Live W)
  dnp3_library = record {
    respond = answer;
    clock = live_clock rt lib reactor;
    has_station_hook = false;
    has_point_hook = false;
  }

  -- adapter.integrity_poll(), with its settle_s of 2 s
  abbrev pub poll_points : Run (Live W) (List Point)
  poll_points st =
      elim (integrity_poll rt lib reactor (pos 2_000_000) (interrupted rt lib reactor st.world)) [
        | none ↦ none
        | some (r, l) ↦ some (r, record st { world = l })
      ]

  -- adapter.is_online(); adapter.link_status(): the channel may change before each of them
  abbrev pub read_link : Run (Live W) (Bool × LinkLayer)
  read_link st =
      let asked = interrupted rt lib reactor st.world in
      let online = Adapter.is_online lib asked.adapter in
      let now = interrupted rt lib reactor asked in
      some (ok (online, Adapter.link_status lib now.adapter), record st { world = now })

  module _ (sh : Shared) (target : Target) where
    -- dnp3_integrity_poll
    unfoldable pub dnp3_integrity_poll : Run (Live W) PollReport
    dnp3_integrity_poll =
        dnp3_session dnp3_library rt target (pos 10_000_000) poll_points >>= λ raw.
        return (poll_report sh target raw)

    -- dnp3_link_status
    unfoldable pub dnp3_link_status : Run (Live W) LinkReport
    dnp3_link_status = dnp3_session dnp3_library rt target (pos 10_000_000) read_link >>= λ seen.
        return (link_report sh target seen.0 seen.1)
