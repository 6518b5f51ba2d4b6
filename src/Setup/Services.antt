-- ===== src/Setup/Services.antt =====
-- __init__.py: the two services, over the entries of the domain, and the unloading of an entry.
pub mod Calls
pub mod Reaches
use hass_dobiss_sx_evolution.Prelude.{
  Bool, List, Option, Result, Text, [], add, bool_eq, cancelled_error, connection_error, false,
  home_assistant_error, if◌then◌else◌, int_eq, keep, nat_eq, not, ok, option_eq, pair_eq, raised,
  service_validation_error, text_eq, true, ◌&&◌, ◌==◌, ◌||◌, ◌∷◌,
}
use hass_dobiss_sx_evolution.Controller.Commands.{request_dump}
use hass_dobiss_sx_evolution.Controller.State.{Controller}
use hass_dobiss_sx_evolution.Coordinator.{Coordinator, sync_clock}
use hass_dobiss_sx_evolution.Coordinator.Clock.{has_client}
use hass_dobiss_sx_evolution.Protocol.Eeprom.{DateTime}

-- An entry of the domain: whether it is loaded, its coordinator, and the clients' `sync_clock`.
pub record Runtime : Type 0 where
  pub loaded : Bool
  pub coordinator : Coordinator
  pub tcp_client : Option (DateTime → Result (Unit {0}))
  pub serial_client : Option (DateTime → Result (Unit {0}))

abbrev pub with_controller : Runtime → Controller → Runtime
with_controller entry c = record entry { coordinator = record entry.coordinator { controller = c } }

-- try: await async_request_dump() … except Exception: a warning, and no more
abbrev pub refreshed : Runtime → Result (Unit {0}) × Controller → Result (Unit {0}) × Runtime
refreshed entry (ok u, c) = (ok u, with_controller entry c)
refreshed entry (raised cancelled_error, c) = (raised cancelled_error, with_controller entry c)
refreshed entry (raised e, c) = (ok tt, with_controller entry c)

abbrev pub refresh_entry : Runtime → Result (Unit {0}) × Runtime
refresh_entry entry =
    if not entry.loaded
    then (ok tt, entry)
    else refreshed entry (request_dump entry.coordinator.controller)

-- What comes after one entry, unless its call has raised.
abbrev pub then_entries :
    (Result (Unit {0}) × List Runtime)
    → List Runtime
    → Result (Unit {0}) × Runtime
    → Result (Unit {0}) × List Runtime
then_entries (r, after) entries (ok u, entry) = (r, entry ∷ after)
then_entries rest entries (raised e, entry) = (raised e, entry ∷ entries)

-- `_async_handle_refresh`
unfoldable pub handle_refresh : List Runtime → Result (Unit {0}) × List Runtime
unfolding request_dump
handle_refresh [] = (ok tt, [])
handle_refresh (entry ∷ entries) =
    then_entries (handle_refresh entries) entries (refresh_entry entry)

abbrev pub has_clock_link : Runtime → Bool
has_clock_link entry =
    entry.loaded && (has_client entry.tcp_client || has_client entry.serial_client)

abbrev pub any_clock_link : List Runtime → Bool
any_clock_link [] = false
any_clock_link (entry ∷ entries) = has_clock_link entry || any_clock_link entries

-- except ConnectionError as err: raise HomeAssistantError
abbrev pub clock_error : Result (Unit {0}) → Result (Unit {0})
clock_error (ok u) = ok u
clock_error (raised connection_error) = raised home_assistant_error
clock_error (raised e) = raised e

abbrev pub clock_synced : Runtime → Result (Unit {0}) × Coordinator → Result (Unit {0}) × Runtime
clock_synced entry (r, co) = (clock_error r, record entry { coordinator = co })

-- The clock is synced where there is a client, with `now` the time of each call.
abbrev pub sync_entry : DateTime → Runtime → Result (Unit {0}) × Runtime
sync_entry now entry =
    if has_clock_link entry
    then clock_synced entry
        (sync_clock entry.tcp_client entry.serial_client now false entry.coordinator)
    else (ok tt, entry)

-- The loop over the coordinators.
unfoldable pub sync_entries : DateTime → List Runtime → Result (Unit {0}) × List Runtime
unfolding sync_clock
sync_entries now [] = (ok tt, [])
sync_entries now (entry ∷ entries) =
    then_entries (sync_entries now entries) entries (sync_entry now entry)

-- `_async_handle_sync_clock`
unfoldable pub handle_sync_clock : DateTime → List Runtime → Result (Unit {0}) × List Runtime
unfolding sync_entries
handle_sync_clock now entries =
    if not (any_clock_link entries)
    then (raised service_validation_error, entries)
    else sync_entries now entries

-- The domain: the ids of its entries, those that are loaded, and whether each service is registered.
pub record Domain : Type 0 where
  pub entry_ids : List Text
  pub loaded_ids : List Text
  pub refresh_service : Bool
  pub sync_clock_service : Bool

-- The end of `async_setup_entry`, once the platforms are set up: Home Assistant marks the entry as
-- loaded when it returns.
unfoldable pub register_services : Text → Domain → Domain
register_services entry_id d = record d {
  loaded_ids = add entry_id d.loaded_ids;
  refresh_service = true;
  sync_clock_service = true;
}

-- `async_setup_entry`, by how the first refresh ends: what it raises leaves the services alone
unfoldable pub setup_entry : Result (Unit {0}) → Text → Domain → Result Bool × Domain
unfolding register_services
setup_entry (ok u) entry_id d = (ok true, register_services entry_id d)
setup_entry (raised e) entry_id d = (raised e, d)

abbrev pub other_entries : Text → List Text → Bool
other_entries entry_id [] = false
other_entries entry_id (id ∷ ids) = not (id == entry_id) || other_entries entry_id ids

-- `async_unload_entry`, by whether the platforms unload; the controller's shutdown is
-- `shutdown_coordinator`
unfoldable pub unload_entry : Bool → Text → Domain → Bool × Domain
unload_entry false entry_id d = (false, d)
unload_entry true entry_id d = (
  true,
  (let others = other_entries entry_id d.entry_ids in
      record d {
        loaded_ids = keep (λ id. not (id == entry_id)) d.loaded_ids;
        refresh_service = others && d.refresh_service;
        sync_clock_service = others && d.sync_clock_service;
      }),
)
