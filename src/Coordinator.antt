-- ===== src/Coordinator.antt =====
-- coordinator.py: the snapshot of the cache that entities are told of, the debounced flush, and the
-- clock sync.
pub mod Starts
pub mod Heard
pub mod Fresh
pub mod Clock
pub mod Links
pub mod Unsent
pub mod OutputLists
use hass_dobiss_sx_evolution.Prelude.{
  Bool, Dict, List, Option, Result, cancelled_error, config_entry_not_ready, false, if◌then◌else◌,
  none, not, ok, raised, some, true, update_failed, ℕ,
}
use hass_dobiss_sx_evolution.Controller.Discovery.{Arrival, Discovery, setup}
use hass_dobiss_sx_evolution.Controller.Lifecycle.{BusJob, shutdown}
use hass_dobiss_sx_evolution.Controller.State.{
  Controller, OutputKey, add_listener, is_bus_connected,
}
use hass_dobiss_sx_evolution.Protocol.Eeprom.{DateTime}

pub record Coordinator : Type 0 where
  pub controller : Controller
  -- what `async_set_updated_data` was last given
  pub snapshot : Dict OutputKey ℕ
  -- whether `_debounce_unsub` is there: a flush is scheduled
  pub debounce : Bool
  pub last_clock_sync_ok : Option Bool
  pub last_clock_sync : Option DateTime

-- `_on_controller_update`
unfoldable pub on_controller_update : Coordinator → Coordinator
on_controller_update co = record co { debounce = true }

-- `_flush_state`
unfoldable pub flush_state : Coordinator → Coordinator
flush_state co = record co { debounce = false; snapshot = co.controller.states }

-- `_async_update_data`
unfoldable pub update_data : Coordinator → Result (Dict OutputKey ℕ)
update_data co =
    if not (is_bus_connected co.controller) then raised update_failed else ok co.controller.states

abbrev pub synced : DateTime → Bool → Coordinator → Coordinator
synced now success co = record co { last_clock_sync_ok = some success; last_clock_sync = some now }

-- try: … except Exception: a warning, and no more
abbrev pub background_sync :
    DateTime → Result (Unit {0}) → Coordinator → Result (Unit {0}) × Coordinator
background_sync now (ok u) co = (ok u, synced now true co)
background_sync now (raised cancelled_error) co = (raised cancelled_error, co)
background_sync now (raised e) co = (ok tt, synced now false co)

abbrev pub service_sync :
    DateTime → Result (Unit {0}) → Coordinator → Result (Unit {0}) × Coordinator
service_sync now (ok u) co = (ok u, synced now true co)
service_sync now (raised cancelled_error) co = (raised cancelled_error, co)
service_sync now (raised e) co = (raised e, synced now false co)

-- `async_sync_clock`: the clients' `sync_clock`, if there is a client, now, and whether Home
-- Assistant's timer calls
unfoldable pub sync_clock :
    Option (DateTime → Result (Unit {0}))
    → Option (DateTime → Result (Unit {0}))
    → DateTime
    → Bool
    → Coordinator
    → Result (Unit {0}) × Coordinator
sync_clock (some tcp_client) serial_client now timer co = background_sync now (tcp_client now) co
sync_clock none (some serial_client) now true co = background_sync now (serial_client now) co
sync_clock none (some serial_client) now false co = service_sync now (serial_client now) co
sync_clock none none now timer co = (ok tt, co)

-- `async_shutdown`: the timer goes, and the controller is shut down
unfoldable pub shutdown_coordinator : Coordinator → Coordinator
unfolding shutdown
shutdown_coordinator co = record co { debounce = false; controller = shutdown co.controller }

-- What the clock sync of the setup raises is logged, but for a cancellation.
abbrev pub logged : Result (Unit {0}) × Coordinator → Result (Unit {0}) × Coordinator
logged (ok u, co) = (ok u, co)
logged (raised cancelled_error, co) = (raised cancelled_error, co)
logged (raised e, co) = (ok tt, co)

abbrev pub first_sync :
    Option (DateTime → Result (Unit {0}))
    → Option (DateTime → Result (Unit {0}))
    → DateTime
    → Coordinator
    → Result (Unit {0}) × Coordinator
first_sync tcp_client serial_client now co =
    logged (sync_clock tcp_client serial_client now false co)

-- What follows `controller.async_setup`: the listener l is the coordinator's.
abbrev pub after_setup :
    ℕ
    → Option (DateTime → Result (Unit {0}))
    → Option (DateTime → Result (Unit {0}))
    → DateTime
    → Coordinator
    → Result Discovery × Controller
    → Result (Unit {0}) × Coordinator
after_setup l tcp_client serial_client now co (raised cancelled_error, c) =
    (raised cancelled_error, record co { controller = c })
after_setup l tcp_client serial_client now co (raised e, c) =
    (raised config_entry_not_ready, record co { controller = shutdown c })
after_setup l tcp_client serial_client now co (ok d, c) =
    first_sync tcp_client serial_client now
      (record co { controller = add_listener l c; snapshot = c.states })

-- `_async_setup`: the job that makes the bus, the messages of the discovery that begins at `start`,
-- and the clients. An exception of the controller's setup, but for a cancellation, is a
-- failure to open the connection.
unfoldable pub setup_coordinator :
    ℕ
    → Option (DateTime → Result (Unit {0}))
    → Option (DateTime → Result (Unit {0}))
    → DateTime
    → BusJob
    → ℕ
    → List Arrival
    → Coordinator
    → Result (Unit {0}) × Coordinator
unfolding shutdown sync_clock add_listener
setup_coordinator l tcp_client serial_client now job start arrivals co =
    after_setup l tcp_client serial_client now co (setup job start arrivals co.controller)
