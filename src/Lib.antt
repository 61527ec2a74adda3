-- ===== src/Lib.antt =====
-- industrial-aiops-energy: read-only connectors for three substation protocols (IEC 60870-5-104, DNP3,
-- IEC 61850 MMS), and the analysis of a Sequence-of-Events. All paths are under iaiops_energy/.
--
-- How the parts interact. An operation (connectors/*/ops.py) gets a target (runtime/targets.py) and
-- opens a session on it (runtime/sessions.py). The session builds a client or an adapter, brings it up
-- in bounded time, runs the operation's body and closes the connection; what a library raises becomes
-- an OTConnectionError. The adapters (connectors/dnp3/driver.py, connectors/iec61850/driver.py) hide the
-- third-party libraries pydnp3 and pyiec61850; c104 is used directly. analysis/substation.py is pure and
-- opens nothing. Importing the package registers the protocols with the base package (__init__.py).
-- The MCP tools (mcp/tools/*.py) look an endpoint's name up and call an operation. The MCP server
-- (mcp/server.py, over the FastMCP instance of mcp/_app.py) offers them, with those of the base package.
--
-- Which file models what:
--   Prelude, Prelude/*      names of the library passed on, and helpers on lists, integers, texts
--   Python                  dynamic values, exceptions, and what of Python's library is a parameter
--   Shared                  s and num of the base package, as parameters
--   Toy, */Tests            a runtime that computes, and runs at concrete inputs
--   Targets                 runtime/targets.py EnergyTarget, with the fields of the base TargetConfig
--   Waiting, Waiting/*      sessions.py _wait_until; dnp3/driver.py _settle_scan
--   Sessions/Action         actions that change a state and return or raise; a library's calls
--   Sessions/Messages       sessions.py _translate_energy and the texts of the other errors
--   Sessions/Managers       sessions.py _build_*_client, iec104_session, dnp3_session, iec61850_session
--   Substation/Events       substation.py _Event, _classify_type, _parse_ts
--   Substation/Normalize    substation.py _normalize
--   Substation/Verdict      substation.py _classify_verdict and its helpers
--   Substation/Report       substation.py _distinct_opens, _affected_refs, _timeline,
--                           substation_event_analysis
--   Dnp3/Points             dnp3/driver.py measurement_type, _harvest_collection
--   Dnp3/Adapter            dnp3/driver.py _Pydnp3MasterAdapter: callbacks, enable, is_online,
--                           link_status, shutdown
--   Dnp3/Stack              dnp3/driver.py enable: the stack, _make_log_handler, _make_soe,
--                           _make_channel_listener, _make_master_application
--   Dnp3/Poll               dnp3/driver.py integrity_poll
--   Dnp3/Shutdown           dnp3/driver.py shutdown, with the thread that it waits for
--   Dnp3/Ops                dnp3/ops.py dnp3_link_status, dnp3_integrity_poll
--   Iec104/Stations         iec104/ops.py _stations, _pick_station, _point_brief, _opt_int, _enum_name
--   Iec104/Ops              iec104/ops.py iec104_connection_info, iec104_interrogate, iec104_read_point
--   Iec61850/Binding        iec61850/driver.py _unwrap, _safe, _linkedlist_to_str, _free_*
--   Iec61850/Connection     iec61850/driver.py connect, _apply_timeouts, close
--   Iec61850/Browse         iec61850/driver.py get_logical_devices, get_data_directory
--   Iec61850/Read           iec61850/driver.py read, _decode_mms, _opaque_mms, _access_error, _fc_value
--   Iec61850/Ops            iec61850/ops.py iec61850_device_directory, iec61850_browse, iec61850_read
--   Registry                __init__.py __version__, _register_protocols
--   App                     mcp/_app.py _GovernedFastMCP, _mcp_origin
--   Tools                   mcp/tools/*.py: the functions, their decorators and their registration
--   Tools/Forwarding        mcp/tools/*.py: what each tool calls
--   Server                  mcp/server.py register, assert_all_tools_governed, main
-- The modules below these, such as Substation/Verdict/Cases, hold the proofs.
--
-- State and errors. A session and an operation are functions from a state (the world of the library,
-- and the list of the calls made of it) to a result with the next state; a result is a value or an
-- exception. `none` stands for a loop that does not end. The DNP3 adapter is a record that callbacks
-- and calls change, in any order. Callbacks of the reactor thread arrive while the program sleeps, calls
-- ScanClasses or waits for the shutdown, and between two calls of the adapter's methods; a call of a
-- method, such as link_status, is one step apart from that. A FastMCP server keeps the tool of a name
-- that is taken, and Python's list.sort is stable; the sort that stands for it is written out. The
-- lists and values that the IEC 61850 adapter frees are collected in a list of pointers.
--
-- Bounds and fuel. Times are natural numbers of microseconds, so the float windows and timeouts of the
-- source are whole microseconds here; the differences of two times are integers. A reading of the clock
-- takes no time of its own. The two waiting loops run on fuel, one round more than the timeout has
-- microseconds: a pause is at least one microsecond and a sleep takes at least its time, so the deadline
-- is reached before the fuel ends (Waiting.Until, Waiting.Settle). Everything else is structural.
-- Texts are lists of code points, numbers are unbounded as in Python.
--
-- Parameters. datetime.fromisoformat, isoformat, str() of values that are not texts, lower() outside
-- ASCII and the formatting of numbers; the protocol libraries with the devices behind them, whose
-- functions of a pointer are taken not to change between two calls; the clock; s and num; FastMCP, the
-- decorators, the origin scope and the lookup of an endpoint. What is documented of them stands in the
-- records of laws (ClockLaws, IsoLaws, FastMcpLaws, DecoratorLaws, OriginLaws, and in Package). The dict lookups and
-- getattr chains on library objects appear as optional fields.
--
-- Not modelled: what the two discovery callbacks of runtime/sessions.py do when c104 calls them, which
-- is to add a station or a point to objects of that library; the log line of mcp/server.py main;
-- exceptions that are no Exception, such as KeyboardInterrupt; the constant notes in the answers, and the
-- texts of the error answers of iec104/ops.py and for a missing reference. A tool's await is one step.
pub mod Prelude
pub mod Python
pub mod Targets
pub mod Waiting
pub mod Substation
pub mod Sessions
pub mod Dnp3
pub mod Iec104
pub mod Iec61850
pub mod Registry
pub mod Server
pub mod App
pub mod Shared
pub mod Tools
pub mod Toy
