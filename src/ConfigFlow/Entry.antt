-- ===== src/ConfigFlow/Entry.antt =====
-- config_flow.py, `DobissConfigFlow`: the steps that create, reauthenticate and reconfigure the entry
-- of a connection. What Home Assistant knows of unique ids, and how a probe of the bus ends, are
-- parameters; the forms are those of FormDefaults.
pub mod Buses
pub mod Collisions
pub mod Ids
pub mod Probed
use hass_dobiss_sx_evolution.Prelude.{
  Bool, List, Option, Result, Text, [], cancelled_error, codes, false, if◌then◌else◌, int_eq,
  nat_eq, none, ok, pair_eq, raised, some, text_eq, true, ◌++◌, ◌==◌, ◌||◌, ◌∷◌,
}
use hass_dobiss_sx_evolution.ConfigFlow.EntryForms.{
  EntryError, EntryResult, EntryStep, SocketcandInput, UniqueIds, UsbInput, cannot_connect,
  entry_created, entry_form, entry_updated, id_abort, invalid_connection_type,
  reauth_socketcand_data, reauth_usb_data, socketcand_data, socketcand_id, socketcand_id_of,
  socketcand_input_data, step_connection_type, step_reauth_socketcand, step_reauth_usb,
  step_reconfigure_socketcand, step_reconfigure_type, step_reconfigure_usb, step_socketcand,
  step_usb_manual, unless_abort, usb_data, usb_id, usb_input_data,
}
use hass_dobiss_sx_evolution.Controller.Connection.{
  ConfigData, ConnectionConfig, description, socketcand_from_config, usb_from_config,
}
use hass_dobiss_sx_evolution.Coordinator.Links.{
  connection_type_socketcand, connection_type_usb, is_socketcand, serial_client_device,
  tcp_client_host,
}

-- `_async_probe`, by how the job that makes the bus ends: every exception but a cancellation is an
-- error of the form.
unfoldable pub probe_error : Result (Unit {0}) → Result (Option EntryError)
probe_error (ok u) = ok none
probe_error (raised cancelled_error) = raised cancelled_error
probe_error (raised e) = ok (some cannot_connect)

abbrev pub unless_error :
    EntryStep → Result (Option EntryError) → Result EntryResult → Result EntryResult
unless_error step (ok none) r = r
unless_error step (ok (some error)) r = ok (entry_form step (some error))
unless_error step (raised e) r = raised e

-- title=f"Max200 ({conn.description})"
abbrev pub entry_title : ConnectionConfig → Text
entry_title connection = codes "Max200 (" ++ description connection ++ codes ")"

abbrev pub is_text : Text → Option Text → Bool
is_text t none = false
is_text t (some s) = s == t

abbrev pub is_there : Option Text → Bool
is_there none = false
is_there (some t) = true

-- How `_probe_bus_sync` ends on each connection is `make_bus`.
module _ (make_bus : ConnectionConfig → Result (Unit {0})) where
  -- `async_step_reauth_socketcand`
  unfoldable pub reauth_socketcand_step : ConfigData → Option SocketcandInput → Result EntryResult
  unfolding socketcand_from_config probe_error socketcand_id
  reauth_socketcand_step entry_data none = ok (entry_form step_reauth_socketcand none)
  reauth_socketcand_step entry_data (some i) =
      unless_error step_reauth_socketcand
        (probe_error (make_bus (socketcand_from_config (socketcand_input_data i))))
        (ok (entry_updated (reauth_socketcand_data entry_data i) (socketcand_id_of i)))

  -- `async_step_reauth_usb`
  unfoldable pub reauth_usb_step : ConfigData → Option UsbInput → Result EntryResult
  unfolding usb_from_config probe_error usb_id
  reauth_usb_step entry_data none = ok (entry_form step_reauth_usb none)
  reauth_usb_step entry_data (some i) =
      unless_error step_reauth_usb (probe_error (make_bus (usb_from_config (usb_input_data i))))
        (ok (entry_updated (reauth_usb_data entry_data i) (usb_id i.device_input)))

  -- `async_step_reauth`
  unfoldable pub reauth_step : ConfigData → Result EntryResult
  unfolding reauth_socketcand_step reauth_usb_step
  reauth_step entry_data =
      if is_socketcand entry_data
      then reauth_socketcand_step entry_data none
      else reauth_usb_step entry_data none

-- `make_bus` says how `_probe_bus_sync` ends on a connection.
module _ (ids : UniqueIds) (make_bus : ConnectionConfig → Result (Unit {0})) where
  -- `async_step_socketcand`
  unfoldable pub socketcand_step : Option SocketcandInput → Result EntryResult
  unfolding socketcand_from_config probe_error socketcand_id description
  socketcand_step none = ok (entry_form step_socketcand none)
  socketcand_step (some i) =
      let connection = socketcand_from_config (socketcand_input_data i) in
      unless_abort (id_abort ids (socketcand_id_of i)) (
        unless_error step_socketcand (probe_error (make_bus connection))
          (ok (entry_created (entry_title connection) (socketcand_data i) (socketcand_id_of i))))

  -- `async_step_usb_manual`
  unfoldable pub usb_manual_step : Option UsbInput → Result EntryResult
  unfolding usb_from_config probe_error usb_id description
  usb_manual_step none = ok (entry_form step_usb_manual none)
  usb_manual_step (some i) =
      let connection = usb_from_config (usb_input_data i) in
      unless_abort (id_abort ids (usb_id i.device_input)) (
        unless_error step_usb_manual (probe_error (make_bus connection))
          (ok (entry_created (entry_title connection) (usb_data i) (usb_id i.device_input))))

  -- `async_step_usb`: the discovered device is the default of the form
  unfoldable pub usb_step : Text → Result EntryResult
  unfolding usb_manual_step
  usb_step device = usb_manual_step none

  -- `async_step_user`, by `user_input.get(CONF_CONNECTION_TYPE)`
  unfoldable pub user_step : Option (Option Text) → Result EntryResult
  unfolding socketcand_step usb_manual_step
  user_step none = ok (entry_form step_connection_type none)
  user_step (some connection_type) =
      if is_text connection_type_socketcand connection_type
      then socketcand_step none
      else if is_text connection_type_usb connection_type
      then usb_manual_step none
      else ok (entry_form step_connection_type (some invalid_connection_type))

  -- `async_step_reconfigure_socketcand`
  unfoldable pub reconfigure_socketcand_step : Option SocketcandInput → Result EntryResult
  unfolding socketcand_from_config probe_error socketcand_id
  reconfigure_socketcand_step none = ok (entry_form step_reconfigure_socketcand none)
  reconfigure_socketcand_step (some i) =
      unless_error step_reconfigure_socketcand
        (probe_error (make_bus (socketcand_from_config (socketcand_input_data i))))
        (unless_abort (id_abort ids (socketcand_id_of i))
          (ok (entry_updated (socketcand_data i) (socketcand_id_of i))))

  -- `async_step_reconfigure_usb`
  unfoldable pub reconfigure_usb_step : Option UsbInput → Result EntryResult
  unfolding usb_from_config probe_error usb_id
  reconfigure_usb_step none = ok (entry_form step_reconfigure_usb none)
  reconfigure_usb_step (some i) =
      unless_error step_reconfigure_usb
        (probe_error (make_bus (usb_from_config (usb_input_data i))))
        (unless_abort (id_abort ids (usb_id i.device_input))
          (ok (entry_updated (usb_data i) (usb_id i.device_input))))

  -- `async_step_reconfigure`
  unfoldable pub reconfigure_step : Option (Option Text) → Result EntryResult
  unfolding reconfigure_socketcand_step reconfigure_usb_step
  reconfigure_step none = ok (entry_form step_reconfigure_type none)
  reconfigure_step (some connection_type) =
      if is_text connection_type_socketcand connection_type
      then reconfigure_socketcand_step none
      else if is_text connection_type_usb connection_type
      then reconfigure_usb_step none
      else ok (entry_form step_reconfigure_type (some invalid_connection_type))

-- the subentry types
pub data SubentryType : Type 0 where
  type_module type_module_import type_mood type_mood_import : SubentryType

abbrev pub has_max200_link : ConfigData → Bool
has_max200_link entry_data =
    is_there (serial_client_device entry_data) || is_there (tcp_client_host entry_data)

-- `async_get_supported_subentry_types`
unfoldable pub supported_subentry_types : ConfigData → List SubentryType
supported_subentry_types entry_data =
    if has_max200_link entry_data
    then type_module ∷ type_module_import ∷ type_mood ∷ type_mood_import ∷ []
    else type_module ∷ type_mood ∷ []
