-- ===== src/ConfigFlow/FormDefaults.antt =====
-- config_flow.py, `DobissConfigFlow`: the fields of its connection forms, with the defaults that they
-- show and the USB devices that they offer. How Home Assistant names a device is a parameter.
pub mod Resubmits
use hass_dobiss_sx_evolution.Prelude.{
  List, Option, Text, [], codes, if◌then◌else◌, none, pos, some, ℕ, ℤ, ◌∷◌,
}
use hass_dobiss_sx_evolution.ConfigFlow.EntryForms.{SocketcandInput, UsbInput}
use hass_dobiss_sx_evolution.Controller.Connection.{ConfigData, or_default}
use hass_dobiss_sx_evolution.Controller.Discovery.{discovered}
use hass_dobiss_sx_evolution.Coordinator.Links.{is_socketcand, non_empty}

abbrev pub default_port : ℤ
default_port = pos 29536

abbrev pub default_interface : Text
default_interface = codes "can0"

-- A serial port, as pyserial lists it
pub record ComPort : Type 0 where
  pub com_device : Text
  pub serial_number : Option Text
  pub manufacturer : Option Text
  pub com_description : Option Text
  pub vid : Option ℕ
  pub pid : Option ℕ

-- An option of a selector: `SelectOptionDict`
pub record SelectOption : Type 0 where
  pub option_label : Text
  pub option_value : Text

-- `_list_usb_devices`, with `usb.get_serial_by_id` and `usb.human_readable_device_name`
unfoldable pub list_usb_devices :
    (Text → Text) → (Text → ComPort → Text) → List ComPort → List SelectOption
list_usb_devices serial_by_id readable_name [] = []
list_usb_devices serial_by_id readable_name (port ∷ ports) =
    let device_path = serial_by_id port.com_device in
    record { option_label = readable_name device_path port; option_value = device_path }
    ∷ list_usb_devices serial_by_id readable_name ports

-- The schema of a form for socketcand: its defaults, the bounds of the port, and what may be chosen
-- as the Max200's serial port. A required field without a default has none.
pub record SocketcandForm : Type 0 where
  pub host_default : Option Text
  pub port_default : ℤ
  pub port_bounds : ℤ × ℤ
  pub interface_default : Text
  pub master_default : Text
  pub master_options : List SelectOption
  pub max200_default : Text

-- The schema of a form for a USB adapter
pub record UsbForm : Type 0 where
  pub device_default : Option Text
  pub device_options : List SelectOption
  pub usb_master_default : Text
  pub usb_max200_default : Text

pub data ConnectionForm : Type 0 where
  socketcand_form : SocketcandForm → ConnectionForm
  usb_form : UsbForm → ConnectionForm

-- vol.Range(min=1, max=65535)
abbrev pub port_range : ℤ × ℤ
port_range = (pos 1, pos 65535)

-- The defaults of a dict that has the fields of an input
abbrev pub socketcand_form_of : List SelectOption → SocketcandInput → SocketcandForm
socketcand_form_of options i = record {
  host_default = some i.host_input;
  port_default = i.port_input;
  port_bounds = port_range;
  interface_default = i.interface_input;
  master_default = or_default i.master_input [];
  master_options = options;
  max200_default = or_default i.max200_input [];
}

abbrev pub usb_form_of : List SelectOption → UsbInput → UsbForm
usb_form_of options i = record {
  device_default = some i.device_input;
  device_options = options;
  usb_master_default = or_default i.usb_master_input [];
  usb_max200_default = or_default i.usb_max200_input [];
}

-- What an entry's data give for the fields, each with its default: `_reauth_defaults` and `defaults`
abbrev pub socketcand_defaults : ConfigData → SocketcandInput
socketcand_defaults entry_data = record {
  host_input = or_default entry_data.host [];
  port_input = or_default entry_data.port default_port;
  interface_input = or_default entry_data.interface default_interface;
  master_input = some (or_default entry_data.master_device []);
  max200_input = some (or_default entry_data.max200_host []);
}

abbrev pub usb_defaults : ConfigData → UsbInput
usb_defaults entry_data = record {
  device_input = or_default entry_data.device [];
  usb_master_input = some (or_default entry_data.master_device []);
  usb_max200_input = some (or_default entry_data.max200_host []);
}

module _ (options : List SelectOption) where
  -- the form of `async_step_socketcand`: CONNECTION_SCHEMA and two more fields
  unfoldable pub new_socketcand_form : SocketcandForm
  new_socketcand_form = record {
    host_default = none;
    port_default = default_port;
    port_bounds = port_range;
    interface_default = default_interface;
    master_default = [];
    master_options = options;
    max200_default = [];
  }

  -- the form of `async_step_usb_manual`, with `_discovered_usb_device` if that is set
  unfoldable pub new_usb_form : Option Text → UsbForm
  new_usb_form discovered = record {
    device_default = non_empty discovered;
    device_options = options;
    usb_master_default = [];
    usb_max200_default = [];
  }

  -- the form of `async_step_reauth_socketcand`: the first there is of `user_input`,
  -- `_reauth_defaults` and the entry's data
  unfoldable pub reauth_socketcand_form :
      Option SocketcandInput → Option SocketcandInput → ConfigData → SocketcandForm
  reauth_socketcand_form (some user_input) reauth_defaults entry_data =
      socketcand_form_of options user_input
  reauth_socketcand_form none (some defaults) entry_data = socketcand_form_of options defaults
  reauth_socketcand_form none none entry_data =
      socketcand_form_of options (socketcand_defaults entry_data)

  -- the form of `async_step_reauth_usb`, which reads no `_reauth_defaults`
  unfoldable pub reauth_usb_form : ConfigData → UsbForm
  reauth_usb_form entry_data = usb_form_of options (usb_defaults entry_data)

  -- the form of `async_step_reconfigure_socketcand`
  unfoldable pub reconfigure_socketcand_form : ConfigData → SocketcandForm
  reconfigure_socketcand_form entry_data =
      socketcand_form_of options (socketcand_defaults entry_data)

  -- the form of `async_step_reconfigure_usb`
  unfoldable pub reconfigure_usb_form : ConfigData → UsbForm
  reconfigure_usb_form entry_data = usb_form_of options (usb_defaults entry_data)

  -- The form that `async_step_reauth` comes to, with `_reauth_defaults` from the entry's data
  unfoldable pub reauth_form : ConfigData → ConnectionForm
  unfolding reauth_socketcand_form reauth_usb_form
  reauth_form entry_data =
      if is_socketcand entry_data
      then socketcand_form
          (reauth_socketcand_form none (some (socketcand_defaults entry_data)) entry_data)
      else usb_form (reauth_usb_form entry_data)
