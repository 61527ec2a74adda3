-- ===== src/Dnp3/Adapter.antt =====
-- iaiops_energy/connectors/dnp3/driver.py `_Pydnp3MasterAdapter`: the state that the callbacks of
-- opendnp3 write, and the calls that read it.
pub mod Online
use industrial_aiops_energy.Prelude.{
  ℕ, ◌==◌, Bool, true, false, Option, none, some, List, [], ◌∷◌, Text, codes, take, is_some,
}
use industrial_aiops_energy.Python.{Runtime, Result, ok, raise, Exception}
use industrial_aiops_energy.Dnp3.Points.{Collection, Point, harvest_collection}

-- What `enable` calls in the binding; each of them can raise.
pub data BindingCall : Type 0 where
  make_log_handler dnp3_manager add_tcp_client master_stack_config : BindingCall
  make_master_application add_master enable_master : BindingCall

-- The installed pydnp3: the enumerator OPEN of its ChannelState, which base classes it has, whether
-- its master has ScanClasses, and what its calls raise.
pub record Binding : Type 0 where
  pub open_state : ℕ
  pub has_soe_handler : Bool
  pub has_master_application : Bool
  pub has_scan_classes : Bool
  pub raises : BindingCall → Option Exception

-- The adapter's fields that its methods read. The log handler, the listener and the channel are
-- only kept alive.
pub record Adapter : Type 0 where
  pub manager : Bool
  pub dnpmaster : Bool
  pub points : List Point
  pub enabled : Bool
  pub channel_state : Option ℕ
  pub link_status : Option Text
  pub last_iin : Option ℕ

-- __init__
unfoldable pub new_adapter : Adapter
new_adapter = record {
  manager = false;
  dnpmaster = false;
  points = [];
  enabled = false;
  channel_state = none;
  link_status = none;
  last_iin = none;
}

-- What opendnp3 calls on its reactor thread. A link status comes with its name.
pub data Callback : Type 0 where
  on_state_change : ℕ → Callback
  on_keep_alive_success on_keep_alive_failure : Callback
  on_keep_alive_result : Text → Callback
  on_receive_iin : ℕ → Callback
  process : Collection → Callback

-- _record_channel_state
abbrev pub record_channel_state : ℕ → Adapter → Adapter
record_channel_state state a = record a { channel_state = some state }

-- _record_link_status
abbrev pub record_link_status : Text → Adapter → Adapter
record_link_status status a = record a { link_status = some status }

-- _record_iin
abbrev pub record_iin : ℕ → Adapter → Adapter
record_iin iin a = record a { last_iin = some iin }

-- A callback that its class is there for: without ISOEHandler no measurement arrives, and without
-- IMasterApplication the library's own application takes the link-layer signals.
unfoldable pub deliver : Runtime → Binding → Callback → Adapter → Adapter
deliver rt lib (on_state_change state) a = record_channel_state state a
deliver rt lib on_keep_alive_success a = elim lib.has_master_application [
  | true ↦ record_link_status (codes "SUCCESS") a
  | false ↦ a
]
deliver rt lib on_keep_alive_failure a = elim lib.has_master_application [
  | true ↦ record_link_status (codes "FAILURE") a
  | false ↦ a
]
deliver rt lib (on_keep_alive_result status) a = elim lib.has_master_application [
  | true ↦ record_link_status status a
  | false ↦ a
]
deliver rt lib (on_receive_iin iin) a = elim lib.has_master_application [
  | true ↦ record_iin iin a
  | false ↦ a
]
deliver rt lib (process values) a = elim lib.has_soe_handler [
  | true ↦ record a { points = harvest_collection rt values a.points }
  | false ↦ a
]

module _ (lib : Binding) where
  -- One statement of `enable`: the call, then its assignment.
  unfoldable pub attempt :
      BindingCall → (Adapter → Result Bool × Adapter) → Adapter → Result Bool × Adapter
  attempt c next a = elim (lib.raises c) [ none ↦ next a | some e ↦ (raise e, a) ]

  -- enable
  unfoldable pub enable : Adapter → Result Bool × Adapter
  unfolding attempt
  enable = attempt make_log_handler (
      attempt dnp3_manager (λ a₁.
        attempt add_tcp_client
          (attempt master_stack_config (
            attempt make_master_application (
              attempt add_master (λ a₂.
                attempt enable_master (λ a₃. (ok true, record a₃ { enabled = true }))
                  (record a₂ { dnpmaster = true })))))
          (record a₁ { manager = true })))

  -- _channel_is_open
  unfoldable pub channel_is_open : Adapter → Bool
  channel_is_open a = elim a.channel_state [ none ↦ false | some state ↦ state == lib.open_state ]

  -- is_online
  unfoldable pub is_online : Adapter → Bool
  unfolding channel_is_open
  is_online a = elim a.channel_state [ none ↦ false | some state ↦ channel_is_open a ]

-- The dict of `link_status`.
pub record LinkLayer : Type 0 where
  pub channel_open : Bool
  pub link_keepalive : Option Text
  pub iin_seen : Bool

-- link_status
unfoldable pub link_status : Binding → Adapter → LinkLayer
unfolding channel_is_open
link_status lib a = record {
  channel_open = channel_is_open lib a;
  link_keepalive = elim a.link_status [ none ↦ none | some name ↦ some (take 32 name) ];
  iin_seen = is_some a.last_iin;
}

-- What shutdown does to the adapter itself, before it waits for the manager's own Shutdown.
unfoldable pub shutdown : Adapter → Adapter
shutdown a = record a { manager = false; enabled = false; channel_state = none }

-- What happens to an adapter: a callback, or a call of a method.
pub data Happening : Type 0 where
  callback : Callback → Happening
  enable_call shutdown_call : Happening

abbrev pub happen : Runtime → Binding → Happening → Adapter → Adapter
happen rt lib (callback c) a = deliver rt lib c a
happen rt lib enable_call a = (enable lib a).1
happen rt lib shutdown_call a = shutdown a

-- All of them in the order in which they happen.
unfoldable pub run : Runtime → Binding → List Happening → Adapter → Adapter
run rt lib [] a = a
run rt lib (h ∷ hs) a = run rt lib hs (happen rt lib h a)
