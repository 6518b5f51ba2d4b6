-- ===== src/ConfigFlow/Imports/Links.antt =====
-- config_flow.py: the imports over the two clients of the Max200.
use hass_dobiss_sx_evolution.Prelude.{List, Option, Text, [], arith, codes, none, some, ℕ}
use hass_dobiss_sx_evolution.ConfigFlow.Flow.{Subentry}
use hass_dobiss_sx_evolution.ConfigFlow.Imports.{
  Downloads, chosen_downloads, import_modules, import_moods, moods_per_controller,
}
use hass_dobiss_sx_evolution.ConfigFlow.Imports.Below.{
  collect_names-below, parsed-letters, serial_config-letters, session-below,
}
use hass_dobiss_sx_evolution.ConfigFlow.Imports.Keeps.{
  ConfigLetters, Imported, import_modules-Imported, import_moods-Imported, none-Imported,
}
use hass_dobiss_sx_evolution.ConfigFlow.Imports.Names.{NamesBelow}
use hass_dobiss_sx_evolution.ConfigFlow.Subentries.Unique.{IsUnique}
use hass_dobiss_sx_evolution.Controller.Connection.{ConfigData}
use hass_dobiss_sx_evolution.Coordinator.Links.{serial_client_device, tcp_client_host}
use hass_dobiss_sx_evolution.Protocol.Eeprom.{
  build_config_download_intro, config_response_size, mood_name_eeprom_addr, mood_name_response_size,
  output_name_eeprom_addr, output_name_response_size,
}
use hass_dobiss_sx_evolution.Protocol.Frame.{outputs_per_module}
use hass_dobiss_sx_evolution.SerialClient.{
  PortEffect, SerialPort, serial_download_config, serial_download_mood_names,
  serial_download_output_names,
}
use hass_dobiss_sx_evolution.TcpClient.{
  TcpHost, download_mood_name, download_output_name, send_and_receive, tcp_download_config,
  tcp_download_mood_names, tcp_download_output_names,
}

-- The downloads by `Max200TcpClient`, after what has happened on its host so far.
abbrev pub tcp_downloads : TcpHost → List PortEffect → Downloads
tcp_downloads host trace = record {
  config = (tcp_download_config host trace).0;
  names_of_module = λ i. (tcp_download_output_names host i outputs_per_module trace).0;
  mood_names_download = (tcp_download_mood_names host moods_per_controller trace).0;
}

-- The downloads by `Max200SerialClient`.
abbrev pub serial_downloads : SerialPort → List PortEffect → Downloads
serial_downloads port trace = record {
  config = (serial_download_config port trace).0;
  names_of_module = λ i. (serial_download_output_names port i outputs_per_module trace).0;
  mood_names_download = (serial_download_mood_names port moods_per_controller trace).0;
}

-- The two imports, over the link that the entry's data asks for.
abbrev pub import_both :
    (ℕ → Text)
    → (Text → TcpHost)
    → (Text → SerialPort)
    → List PortEffect
    → ConfigData
    → List Subentry
    → List Subentry × List Subentry
import_both fresh host port trace entry_data subs =
    let downloads : Option Downloads =
      chosen_downloads (λ h. tcp_downloads (host h) trace) (λ d. serial_downloads (port d) trace)
        (tcp_client_host entry_data) (serial_client_device entry_data) in
    ((import_modules fresh downloads subs).1, (import_moods fresh downloads subs).1)

downloads-Imported :
    (fresh : ℕ → Text) (downloads : Downloads) (subs : List Subentry)
    → IsUnique subs
    → ConfigLetters downloads.config
    → ((i : ℕ) → NamesBelow 12 (downloads.names_of_module i))
    → NamesBelow 100 downloads.mood_names_download
    → Imported subs (import_modules fresh (some downloads) subs).1
      × Imported subs (import_moods fresh (some downloads) subs).1
downloads-Imported fresh downloads subs u letters below moods = (
  import_modules-Imported fresh downloads subs u below letters,
  import_moods-Imported fresh downloads subs u moods,
)

tcp-Imported :
    (fresh : ℕ → Text) (host : TcpHost) (trace : List PortEffect) (subs : List Subentry)
    → IsUnique subs
    → Imported subs (import_modules fresh (some (tcp_downloads host trace)) subs).1
      × Imported subs (import_moods fresh (some (tcp_downloads host trace)) subs).1
unfolding tcp_download_config tcp_download_output_names tcp_download_mood_names
tcp-Imported fresh host trace subs u =
    downloads-Imported fresh (tcp_downloads host trace) subs u
      (parsed-letters
        (send_and_receive host build_config_download_intro none config_response_size trace))
      (λ i. collect_names-below 12 (download_output_name host i) 12 0 [] trace (omega arith) tt)
      (collect_names-below 100 (download_mood_name host) 100 0 [] trace (omega arith) tt)

serial-Imported :
    (fresh : ℕ → Text) (port : SerialPort) (trace : List PortEffect) (subs : List Subentry)
    → IsUnique subs
    → Imported subs (import_modules fresh (some (serial_downloads port trace)) subs).1
      × Imported subs (import_moods fresh (some (serial_downloads port trace)) subs).1
unfolding serial_download_output_names serial_download_mood_names
serial-Imported fresh port trace subs u =
    downloads-Imported fresh (serial_downloads port trace) subs u (serial_config-letters port trace)
      (λ i.
        session-below 12 port (codes "u1") (output_name_eeprom_addr i) output_name_response_size
          trace)
      (session-below 100 port (codes "n0") mood_name_eeprom_addr mood_name_response_size trace)

unlinked-Imported :
    (fresh : ℕ → Text) (subs : List Subentry)
    → IsUnique subs
    → Imported subs (import_modules fresh none subs).1
      × Imported subs (import_moods fresh none subs).1
unfolding import_modules import_moods
unlinked-Imported fresh subs u = (none-Imported subs u, none-Imported subs u)

chosen-Imported :
    (fresh : ℕ → Text) (host : Text → TcpHost) (port : Text → SerialPort) (trace : List PortEffect)
    (h d : Option Text) (subs : List Subentry)
    → IsUnique subs
    → let downloads : Option Downloads =
        chosen_downloads
          (λ t. tcp_downloads (host t) trace)
          (λ t. serial_downloads (port t) trace)
          h
          d in
      Imported subs (import_modules fresh downloads subs).1
      × Imported subs (import_moods fresh downloads subs).1
chosen-Imported fresh host port trace (some h) d subs u = tcp-Imported fresh (host h) trace subs u
chosen-Imported fresh host port trace none (some d) subs u =
    serial-Imported fresh (port d) trace subs u
chosen-Imported fresh host port trace none none subs u = unlinked-Imported fresh subs u

-- Whatever the Max200 answers over TCP or serial, and whatever either client raises, both imports
-- leave the letters and the mood numbers unique and valid, if they were, and the subentries that were
-- there as they were and in their places; the modules that come after them have outputs from 1 to 12,
-- each claimed once.
pub import_both-Imported :
    (fresh : ℕ → Text) (host : Text → TcpHost) (port : Text → SerialPort) (trace : List PortEffect)
    (entry_data : ConfigData) (subs : List Subentry)
    → IsUnique subs
    → Imported subs (import_both fresh host port trace entry_data subs).0
      × Imported subs (import_both fresh host port trace entry_data subs).1
import_both-Imported fresh host port trace entry_data subs u =
    chosen-Imported fresh host port trace (tcp_client_host entry_data)
      (serial_client_device entry_data) subs u
