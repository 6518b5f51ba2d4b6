-- ===== src/Controller/Connection.antt =====
-- controller.py: the connection parameters, out of a config entry's data.
use hass_dobiss_sx_evolution.Prelude.{
  List, Option, String, Text, [], codes, none, pos, some, str_int, ℕ, ℤ, ◌++◌, ◌∷◌,
}

-- The keys of `entry.data` that the integration reads.
pub record ConfigData : Type 0 where
  pub connection_type : Option Text
  pub host : Option Text
  pub port : Option ℤ
  pub interface : Option Text
  pub device : Option Text
  pub master_device : Option Text
  pub max200_host : Option Text

pub data ConnectionConfig : Type 0 where
  -- host, port, interface
  socketcand : Text → ℤ → Text → ConnectionConfig
  -- device, baudrate, CAN interface
  usb : Text → ℕ → Text → ConnectionConfig

abbrev pub default_baudrate : ℕ
default_baudrate = 115200

-- data.get(key, default)
abbrev pub or_default {ℓ} : {A : Type ℓ} → Option A → A → A
or_default none d = d
or_default (some a) d = a

-- `SocketcandConnection.from_config`
unfoldable pub socketcand_from_config : ConfigData → ConnectionConfig
socketcand_from_config d =
    socketcand (or_default d.host []) (or_default d.port (pos 0)) (or_default d.interface [])

-- `UsbConnection.from_config`
unfoldable pub usb_from_config : ConfigData → ConnectionConfig
usb_from_config d = usb (or_default d.device []) default_baudrate (codes "slcan")

placeholder : String → Text → List (Text × Text)
placeholder key [] = []
placeholder key (c ∷ s) = (codes key, c ∷ s) ∷ []

unfoldable pub repair_placeholders : ConnectionConfig → List (Text × Text)
unfolding placeholder
repair_placeholders (socketcand host port interface) =
    placeholder "host" host ++ placeholder "interface" interface
repair_placeholders (usb device baudrate can_interface) = placeholder "device" device

-- `description`
unfoldable pub description : ConnectionConfig → Text
unfolding str_int
description (socketcand host port interface) =
    host ++ codes ":" ++ str_int port ++ codes "/" ++ interface
description (usb device baudrate can_interface) =
    device ++ codes "@" ++ str_int (pos baudrate) ++ codes "baud"
