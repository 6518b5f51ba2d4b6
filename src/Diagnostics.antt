-- ===== src/Diagnostics.antt =====
-- diagnostics.py: what the diagnostics show of the states and the connection.
pub mod Shows
use hass_dobiss_sx_evolution.Prelude.{
  Bool, Dict, List, Option, Text, [], add, codes, false, if◌then◌else◌, int_eq, leb, leb_ℤ, nat_eq,
  nat_eqb, none, pair_eq, pos, put, some, str_int, text_eq, true, ℕ, ℤ, ◌++◌, ◌==◌, ◌∷◌,
}
use hass_dobiss_sx_evolution.ConfigFlow.Flow.{
  ModuleData, Subentry, SubentryData, module_data, mood_data,
}
use hass_dobiss_sx_evolution.Controller.Connection.{ConfigData, ConnectionConfig, socketcand, usb}
use hass_dobiss_sx_evolution.Controller.State.{
  Controller, OutputKey, ShutterConfig, is_bus_connected,
}
use hass_dobiss_sx_evolution.Coordinator.Links.{serial_client_device, tcp_client_host}

-- f"M{module}O{output}"
abbrev pub state_name : OutputKey → Text
state_name (module_name, output) = codes "M" ++ (module_name ++ (codes "O" ++ str_int output))

-- The comprehension over `states.items()`, onto the names so far.
unfoldable pub serialise_onto : Dict OutputKey ℕ → Dict Text ℕ → Dict Text ℕ
serialise_onto [] named = named
serialise_onto ((key, value) ∷ states) named =
    serialise_onto states (put (state_name key) value named)

-- `_serialise_states`
unfoldable pub serialise_states : Dict OutputKey ℕ → Dict Text ℕ
unfolding serialise_onto
serialise_states states = serialise_onto states []

-- A value of `connection_info`.
pub data Info : Type 0 where
  info_text : Text → Info
  info_number : ℤ → Info

-- `connection_info` of the connection
abbrev pub connection_info : ConnectionConfig → Dict Text Info
connection_info (socketcand host port interface) =
    (codes "type", info_text (codes "socketcand"))
    ∷ (codes "host", info_text host)
    ∷ (codes "port", info_number port)
    ∷ (codes "can_interface", info_text interface)
    ∷ []
connection_info (usb device baudrate can_interface) =
    (codes "type", info_text (codes "usb"))
    ∷ (codes "device", info_text device)
    ∷ (codes "baudrate", info_number (pos baudrate))
    ∷ (codes "can_interface", info_text can_interface)
    ∷ []

abbrev pub redact_fields : ConnectionConfig → List Text
redact_fields (socketcand host port interface) = codes "host" ∷ []
redact_fields (usb device baudrate can_interface) = codes "device" ∷ []

-- if value: connection_info[key] = value; redact_fields = redact_fields | {key}
abbrev pub with_link : Text → Option Text → Dict Text Info × List Text → Dict Text Info × List Text
with_link key none shown = shown
with_link key (some value) (info, fields) = (put key (info_text value) info, add key fields)

-- `connection_info` and `redact_fields` of `async_get_config_entry_diagnostics`, with the Max200's
-- serial port and host
unfoldable pub connection_diagnostics : ConnectionConfig → ConfigData → Dict Text Info × List Text
connection_diagnostics connection entry_data =
    with_link (codes "max200_host") (tcp_client_host entry_data) (
      with_link (codes "master_device") (serial_client_device entry_data)
        (connection_info connection, redact_fields connection))

-- `str` and `list` compare by their first difference.
abbrev pub text_leb : Text → Text → Bool
text_leb [] t = true
text_leb (c ∷ s) [] = false
text_leb (c ∷ s) (d ∷ t) = let rest = text_leb s t in if nat_eqb c d then rest else leb c d

abbrev pub key_leb : OutputKey → OutputKey → Bool
key_leb (m, n) (m', n') = if m == m' then leb_ℤ n n' else text_leb m m'

unfoldable pub insert_key : OutputKey → List OutputKey → List OutputKey
insert_key key [] = key ∷ []
insert_key key (k ∷ keys) =
    let rest = insert_key key keys in if key_leb key k then key ∷ k ∷ keys else k ∷ rest

-- sorted([list(k) for k in keys])
unfoldable pub sorted_keys : List OutputKey → List OutputKey
unfolding insert_key
sorted_keys [] = []
sorted_keys (key ∷ keys) = insert_key key (sorted_keys keys)

-- One item of `subentries_info`; its type is always that of a module.
pub record SubentryInfo : Type 0 where
  pub info_id : Text
  pub info_title : Text
  pub info_data : ModuleData

abbrev pub info_of : Text → Text → SubentryData → List SubentryInfo
info_of id title (module_data m) = record { info_id = id; info_title = title; info_data = m } ∷ []
info_of id title (mood_data number) = []

unfoldable pub subentries_info : List Subentry → List SubentryInfo
subentries_info [] = []
subentries_info (sub ∷ subs) = info_of sub.subentry_id sub.title sub.data_of ++ subentries_info subs

-- `raw`, of which the redaction has done its part of the connection: no other part has a key that is
-- redacted.
pub record EntryDiagnostics : Type 0 where
  pub shown_connection : Dict Text Info
  pub shown_modules : List Text
  pub shown_lights : List OutputKey
  pub shown_dimmers : List OutputKey
  pub shown_shutters : List ShutterConfig
  pub shown_switches : List OutputKey
  pub shown_reconnect_count : ℕ
  pub shown_bus_connected : Bool
  pub shown_subentries : List SubentryInfo
  pub shown_states : Dict Text ℕ

-- `async_get_config_entry_diagnostics`, where `redact` is `async_redact_data`
unfoldable pub entry_diagnostics :
    (Dict Text Info → List Text → Dict Text Info)
    → ConfigData
    → List Subentry
    → Controller
    → EntryDiagnostics
unfolding connection_diagnostics sorted_keys serialise_states subentries_info
entry_diagnostics redact entry_data subs c = record {
  shown_connection =
      redact (connection_diagnostics c.connection entry_data).0
        (connection_diagnostics c.connection entry_data).1;
  shown_modules = c.modules;
  shown_lights = c.lights;
  shown_dimmers = sorted_keys c.dimmers;
  shown_shutters = c.shutters;
  shown_switches = c.switches;
  shown_reconnect_count = c.reconnect_count;
  shown_bus_connected = is_bus_connected c;
  shown_subentries = subentries_info subs;
  shown_states = serialise_states c.states;
}
