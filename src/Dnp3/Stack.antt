-- ===== src/Dnp3/Stack.antt =====
-- iaiops_energy/connectors/dnp3/driver.py: what `enable` builds around a master, with the objects that
-- the binding calls back, and where the stack's log goes.
pub mod Wired
use industrial_aiops_energy.Prelude.{
  ℕ, Bool, true, false, Option, none, some, List, [], ◌∷◌, ◌++◌, Text, codes,
}
use industrial_aiops_energy.Dnp3.Adapter.{Binding}

-- _StderrLogHandler, whose entries go to Python's logging, or asiodnp3.ConsoleLogger, which may print.
pub data LogHandler : Type 0 where
  stderr_log_handler console_logger : LogHandler

-- _SOEHandler, which harvests into the points, or the plain collector.
pub data SoeHandler : Type 0 where
  soe_handler collector : SoeHandler

-- _ChannelListener over asiodnp3.IChannelListener, or over object.
pub data ChannelListener : Type 0 where
  channel_listener plain_listener : ChannelListener

-- _MasterApp, which records the link-layer signals, or asiodnp3.DefaultMasterApplication.
pub data MasterApplication : Type 0 where
  master_app default_application : MasterApplication

-- A record of Python's logging: a debug line or a warning.
pub data LogLine : Type 0 where
  debug warning : Text → LogLine

-- The arguments of AddTCPClient, at the level NORMAL and with the default retry.
pub record TcpClient : Type 0 where
  pub id : Text
  pub host : Text
  pub local_adapter : Text
  pub port : ℕ
  pub listener : ChannelListener

-- The arguments of AddMaster, with the link addresses of the MasterStackConfig.
pub record Master : Type 0 where
  pub id : Text
  pub soe : SoeHandler
  pub app : MasterApplication
  pub local_addr : ℕ
  pub remote_addr : Option ℕ

pub record Stack : Type 0 where
  pub threads : ℕ
  pub log_handler : LogHandler
  pub channel : TcpClient
  pub master : Master

-- The warning of _make_log_handler.
abbrev pub missing_log_handler : Text
missing_log_handler =
    codes
      "DNP3: openpal.ILogHandler missing — falling back to ConsoleLogger, which MAY emit on stdout (待核实)"

-- _make_log_handler, with what it logs; the argument says whether openpal has ILogHandler.
unfoldable pub make_log_handler : Bool → LogHandler × List LogLine
make_log_handler true = (stderr_log_handler, [])
make_log_handler false = (console_logger, warning missing_log_handler ∷ [])

-- _StderrLogHandler.Log: the entry's message, or else its str()
unfoldable pub log : Option Text → Text → LogLine
log (some message) entry = debug (codes "opendnp3: " ++ message)
log none entry = debug (codes "opendnp3: " ++ entry)

-- _make_channel_listener
unfoldable pub make_channel_listener : Bool → ChannelListener
make_channel_listener true = channel_listener
make_channel_listener false = plain_listener

-- _make_soe
unfoldable pub make_soe : Binding → SoeHandler
make_soe lib = elim lib.has_soe_handler [ true ↦ soe_handler | false ↦ collector ]

-- _make_master_application
unfoldable pub make_master_application : Binding → MasterApplication
make_master_application lib = elim lib.has_master_application [
  | true ↦ master_app
  | false ↦ default_application
]

-- What `enable` builds where nothing raises, for the arguments of the adapter.
unfoldable pub stack_of : Binding → Bool → Bool → Text → ℕ → Option ℕ → ℕ → Stack
stack_of lib has_log_handler has_channel_listener host port outstation master = record {
  threads = 1;
  log_handler = (make_log_handler has_log_handler).0;
  channel = record {
    id = codes "iaiops";
    host = host;
    local_adapter = codes "0.0.0.0";
    port = port;
    listener = make_channel_listener has_channel_listener;
  };
  master = record {
    id = codes "master";
    soe = make_soe lib;
    app = make_master_application lib;
    local_addr = master;
    remote_addr = outstation;
  };
}
