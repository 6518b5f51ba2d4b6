-- ===== src/Coordinator/Links.antt =====
-- coordinator.py, `DobissCoordinator.__init__`: the connection, the controller and the clients that
-- an entry's data asks for.
use hass_dobiss_sx_evolution.Prelude.{
  Bool, List, Option, Text, [], codes, false, if◌then◌else◌, int_eq, nat_eq, none, pair_eq, some,
  text_eq, ◌==◌, ◌∷◌,
}
use hass_dobiss_sx_evolution.ConfigFlow.Flow.{Subentry}
use hass_dobiss_sx_evolution.Controller.Connection.{
  ConfigData, ConnectionConfig, or_default, socketcand_from_config, usb_from_config,
}
use hass_dobiss_sx_evolution.Controller.State.{Controller, new_controller}
use hass_dobiss_sx_evolution.Coordinator.{Coordinator}
use hass_dobiss_sx_evolution.Coordinator.OutputLists.{OutputLists, parse_output_lists}

abbrev pub connection_type_socketcand : Text
connection_type_socketcand = codes "socketcand"

abbrev pub connection_type_usb : Text
connection_type_usb = codes "usb"

-- entry.data.get(CONF_CONNECTION_TYPE, CONNECTION_TYPE_SOCKETCAND) == CONNECTION_TYPE_SOCKETCAND
abbrev pub is_socketcand : ConfigData → Bool
is_socketcand entry_data =
    or_default entry_data.connection_type connection_type_socketcand == connection_type_socketcand

unfoldable pub entry_connection : ConfigData → ConnectionConfig
unfolding socketcand_from_config usb_from_config
entry_connection entry_data =
    if is_socketcand entry_data
    then socketcand_from_config entry_data
    else usb_from_config entry_data

-- A text that is there and not empty.
abbrev pub non_empty : Option Text → Option Text
non_empty none = none
non_empty (some []) = none
non_empty (some (c ∷ s)) = some (c ∷ s)

-- The device of `serial_client` and the host of `tcp_client`, where these are there.
abbrev pub serial_client_device : ConfigData → Option Text
serial_client_device entry_data = non_empty entry_data.master_device

abbrev pub tcp_client_host : ConfigData → Option Text
tcp_client_host entry_data = non_empty entry_data.max200_host

abbrev pub controller_of : ConnectionConfig → OutputLists → Controller
controller_of connection lists =
    new_controller connection lists.light_list lists.dimmer_list lists.shutter_list
      lists.switch_list

-- `DobissCoordinator.__init__`, by the entry's data and its subentries
unfoldable pub new_coordinator : ConfigData → List Subentry → Coordinator
unfolding entry_connection new_controller parse_output_lists
new_coordinator entry_data subentries = record {
  controller = controller_of (entry_connection entry_data) (parse_output_lists subentries);
  snapshot = [];
  debounce = false;
  last_clock_sync_ok = none;
  last_clock_sync = none;
}
