-- ===== src/ConfigFlow/EntryForms.antt =====
-- config_flow.py, `DobissConfigFlow`: what its forms hold, what its steps answer, and the data and
-- unique ids that they make of a form.
use hass_dobiss_sx_evolution.Prelude.{
  List, Option, Result, Text, codes, contains, if◌then◌else◌, int_eq, nat_eq, none, ok, pair_eq,
  some, str_int, text_eq, ℤ, ◌++◌,
}
use hass_dobiss_sx_evolution.Controller.Connection.{ConfigData}
use hass_dobiss_sx_evolution.Coordinator.Links.{
  connection_type_socketcand, connection_type_usb, non_empty,
}

pub record SocketcandInput : Type 0 where
  pub host_input : Text
  pub port_input : ℤ
  pub interface_input : Text
  pub master_input : Option Text
  pub max200_input : Option Text

pub record UsbInput : Type 0 where
  pub device_input : Text
  pub usb_master_input : Option Text
  pub usb_max200_input : Option Text

-- the step ids
pub data EntryStep : Type 0 where
  step_connection_type step_socketcand step_usb_manual : EntryStep
  step_reauth_socketcand step_reauth_usb : EntryStep
  step_reconfigure_type step_reconfigure_socketcand step_reconfigure_usb : EntryStep

pub data EntryError : Type 0 where
  invalid_connection_type cannot_connect : EntryError

pub data EntryAbort : Type 0 where
  already_configured already_in_progress : EntryAbort

-- What a step answers to Home Assistant.
pub data EntryResult : Type 0 where
  entry_form : EntryStep → Option EntryError → EntryResult
  entry_abort : EntryAbort → EntryResult
  -- `async_create_entry`: the title, the data, and the flow's unique id
  entry_created : Text → ConfigData → Text → EntryResult
  -- `async_update_reload_and_abort`: the data and the unique id
  entry_updated : ConfigData → Text → EntryResult

-- The unique ids of the domain's entries, and those of its other flows.
pub record UniqueIds : Type 0 where
  pub configured : List Text
  pub in_progress : List Text

-- `async_set_unique_id`, then `_abort_if_unique_id_configured`
abbrev pub id_abort : UniqueIds → Text → Option EntryAbort
id_abort ids unique_id =
    if contains unique_id ids.in_progress
    then some already_in_progress
    else if contains unique_id ids.configured
    then some already_configured
    else none

abbrev pub unless_abort : Option EntryAbort → Result EntryResult → Result EntryResult
unless_abort none r = r
unless_abort (some reason) r = ok (entry_abort reason)

unfoldable pub socketcand_id : Text → ℤ → Text → Text
unfolding str_int
socketcand_id host port interface =
    codes "socketcand" ++ codes ":" ++ host ++ codes ":" ++ str_int port ++ codes "/" ++ interface

unfoldable pub usb_id : Text → Text
usb_id device = codes "usb" ++ codes ":" ++ device

-- `user_input` as `from_config` reads it
abbrev pub socketcand_input_data : SocketcandInput → ConfigData
socketcand_input_data i = record {
  connection_type = none;
  host = some i.host_input;
  port = some i.port_input;
  interface = some i.interface_input;
  device = none;
  master_device = i.master_input;
  max200_host = i.max200_input;
}

abbrev pub usb_input_data : UsbInput → ConfigData
usb_input_data i = record {
  connection_type = none;
  host = none;
  port = none;
  interface = none;
  device = some i.device_input;
  master_device = i.usb_master_input;
  max200_host = i.usb_max200_input;
}

-- `data` of the steps that create or reconfigure
abbrev pub socketcand_data : SocketcandInput → ConfigData
socketcand_data i = record {
  connection_type = some connection_type_socketcand;
  host = some i.host_input;
  port = some i.port_input;
  interface = some i.interface_input;
  device = none;
  master_device = non_empty i.master_input;
  max200_host = non_empty i.max200_input;
}

abbrev pub usb_data : UsbInput → ConfigData
usb_data i = record {
  connection_type = some connection_type_usb;
  host = none;
  port = none;
  interface = none;
  device = some i.device_input;
  master_device = non_empty i.usb_master_input;
  max200_host = non_empty i.usb_max200_input;
}

-- `new_data` of the steps that reauthenticate: the entry's data with other details
abbrev pub reauth_socketcand_data : ConfigData → SocketcandInput → ConfigData
reauth_socketcand_data entry_data i = record entry_data {
  host = some i.host_input;
  port = some i.port_input;
  interface = some i.interface_input;
  master_device = non_empty i.master_input;
  max200_host = non_empty i.max200_input;
}

abbrev pub reauth_usb_data : ConfigData → UsbInput → ConfigData
reauth_usb_data entry_data i = record entry_data {
  device = some i.device_input;
  master_device = non_empty i.usb_master_input;
  max200_host = non_empty i.usb_max200_input;
}

abbrev pub socketcand_id_of : SocketcandInput → Text
socketcand_id_of i = socketcand_id i.host_input i.port_input i.interface_input
