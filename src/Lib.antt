-- ===== src/Lib.antt =====
-- A model of the Home Assistant integration `dobiss_sx_evolution`, of custom_components/
-- dobiss_sx_evolution/, which drives DOBISS SX Evolution lighting over a CAN bus.
--
-- The parts and how they interact. protocol.py builds and parses the bytes of CAN frames and of the
-- Max200's link. controller.py keeps the cache of output states: commands send a frame and update the
-- cache at once, the read loop takes frames in and updates the cache when they bring news, and a lost
-- bus is reopened with a growing backoff. coordinator.py listens to the controller and passes the
-- cache on to the entities, of which the light keeps a brightness of its own until the bus reports
-- another state. config_flow.py edits the modules, their outputs and the moods that the controller is
-- built from, imports them from the Max200 over tcp_client.py or serial_client.py, and creates the
-- entry of the connection; __init__.py decides what an edit reloads and which registry entries go, and
-- serves the two services.
--
-- Files:
--   Prelude: dicts, results, integers and texts as the source uses Python's.
--   Protocol/Frame, Brightness, Eeprom, Responses: protocol.py, function by function.
--   Controller/Connection: `ConnectionConfig` and its `from_config`; Controller/Buses: `make_bus` and
--     `_probe_bus_sync`.
--   Controller/State: the attributes of `DobissController` as a record, its listeners, and the methods'
--     monad. What leaves the controller (frames, calls of listeners, opened and closed buses,
--     notifiers, repair issues) is kept in `trace`, the latest first.
--   Controller/Commands: `async_turn_on`, `async_turn_off`, the shutter methods, `async_activate_mood`,
--     `async_request_dump`, `_send_state`, `_send_frame`, `_apply_local`.
--   Controller/Ingest: `_ingest_message`.
--   Controller/Lifecycle: `_open_bus`, `_setup_notifier`, `_teardown_notifier`, `async_shutdown`, the
--     repair issue.
--   Controller/ReadLoop: `_read_loop`, `_read_frames`.
--   Controller/Discovery: `_collect_initial_state`, `async_setup`.
--   Controller/Refresh: `async_refresh_and_settle`.
--   Controller/Reach: the steps of a controller in any order.
--   Coordinator: `DobissCoordinator`'s snapshot, debounce and clock sync; Coordinator/OutputLists:
--     `parse_output_lists`; Coordinator/Links: `DobissCoordinator.__init__`; Coordinator/Unsent: the
--     clock sync over the TCP client.
--   Entities: switch.py, cover.py and `_bus_call` of entity.py; Entities/Light: `DobissLight`;
--     Entities/Hub: scene.py, sensor.py, binary_sensor.py.
--   ConfigFlow/Outputs: the outputs of a module; ConfigFlow/Modules: the steps of
--     `ModuleSubentryFlowHandler` on them; ConfigFlow/Subentries: its steps on letters, and
--     `MoodSubentryFlowHandler`; ConfigFlow/Entry: the steps of `DobissConfigFlow`;
--     ConfigFlow/FormDefaults: its forms; ConfigFlow/Imports: `ModuleImportSubentryFlowHandler` and
--     `MoodImportSubentryFlowHandler`.
--   Setup: `_expected_unique_ids`, `_prune_stale_entities`, `_module_config`, `_connection_key`,
--     `_make_reload_listener` of __init__.py; Setup/DeviceNames: its update of the devices;
--     Setup/Platforms: `async_setup_entry` of light.py, switch.py and cover.py, and the devices;
--     Setup/Services: the services, `async_setup_entry` and `async_unload_entry` of __init__.py.
--   SerialClient: `Max200SerialClient` of serial_client.py, with the port as a parameter: a function of
--     what has happened on it that says what a read gives and whether a write raises.
--   TcpClient: `Max200TcpClient` of tcp_client.py, with asyncio's connection as a parameter of the same
--     kind; its trace is that of the serial client.
--   Diagnostics: diagnostics.py, the whole payload, with `async_redact_data` a parameter.
--   The modules called Tests or EntryTests run each theorem at a concrete input.
--
-- Correspondence. A method is a function from the state to its result and the new state; what other
-- tasks do at an `await` is a step of its own, before or after. A `dict` is a list of pairs in
-- insertion order, a `set` a list that is tested by membership, a `str` its code points. The keys of a
-- module's outputs, `str(n)` in the source, are the numbers n. The python-can bus is a parameter: a
-- function that says whether `send` raises after what has happened so far. `str.upper` is a parameter
-- where a module's letter is entered. A job that Home Assistant's executor is given is begun at once
-- and runs to its end, also when the task that waits for it is cancelled: `end_abandoned` is the end of
-- a job that was left alone. Home Assistant's answers to a flow are the values of `FlowResult`.
--
-- Bounds. No function has fuel: the read loop, discovery and the refresh recurse over the events that
-- reach them, and the end of the list is the silence after the last one. Times are in milliseconds in
-- discovery and refresh, where each message comes with its gap to the one before, and in seconds in
-- the backoff.
--
-- What Home Assistant does is a parameter too: which unique ids its entries and flows have, what the
-- setup of the platforms and the first refresh give, and the ids of new subentries. A subentry that an
-- import adds is refused where its letter or its number is there already, as Home Assistant refuses a
-- unique id that is taken.
--
-- Not modelled: the sleeps of the serial client, the selectors and labels of the forms and the forms of
-- the subentry flows, entity descriptions, suggested object ids, and log messages.
pub mod Prelude
pub mod Protocol
pub mod Controller
pub mod ConfigFlow
pub mod Coordinator
pub mod Entities
pub mod Setup
pub mod SerialClient
pub mod Diagnostics
pub mod TcpClient
pub mod Tests
