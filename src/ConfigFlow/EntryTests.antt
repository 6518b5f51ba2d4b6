-- ===== src/ConfigFlow/EntryTests.antt =====
-- Runs of the theorems on the entry's flow and the imports at concrete inputs.
use hass_dobiss_sx_evolution.Prelude.{
  Dict, List, Result, Text, [], bool_eq, bus_error, cancelled_error, codes, false, inl, inr, int_eq,
  nat_eq, none, ok, option_eq, pair_eq, pos, raised, refl, replicate, some, text_eq, timeout_error,
  ℕ, ◌∷◌, ◌≡◌, ◌≢◌,
}
use hass_dobiss_sx_evolution.ConfigFlow.Entry.Buses.{OpensResult, probes, submit-Opens}
use hass_dobiss_sx_evolution.ConfigFlow.Entry.Collisions.{
  changes_entry, changes_entry-reconfigure, reauthenticate, reauthenticate-repeats, reconfigure,
}
use hass_dobiss_sx_evolution.ConfigFlow.Entry.Ids.{ids_after, submit-Unique}
use hass_dobiss_sx_evolution.ConfigFlow.Entry.Probed.{
  StoresResult, entered, new_socketcand, reconfigured_socketcand, reconfigured_usb, submit,
  submit-Stores,
}
use hass_dobiss_sx_evolution.ConfigFlow.EntryForms.{
  SocketcandInput, UniqueIds, UsbInput, entry_updated, reauth_socketcand_data, socketcand_data,
  socketcand_id, usb_id,
}
use hass_dobiss_sx_evolution.ConfigFlow.Flow.{ModuleData, Subentry, module_data}
use hass_dobiss_sx_evolution.ConfigFlow.FormDefaults.{reauth_form}
use hass_dobiss_sx_evolution.ConfigFlow.FormDefaults.Resubmits.{
  resubmit, resubmit-Stored, socketcand_reauthenticated, socketcand_stored,
}
use hass_dobiss_sx_evolution.ConfigFlow.Imports.{Downloads, import_modules}
use hass_dobiss_sx_evolution.ConfigFlow.Imports.Keeps.{Imported}
use hass_dobiss_sx_evolution.ConfigFlow.Imports.Letters.{Succeeds, import_modules-Succeeds}
use hass_dobiss_sx_evolution.ConfigFlow.Imports.Links.{import_both, import_both-Imported}
use hass_dobiss_sx_evolution.ConfigFlow.Subentries.{validate_module}
use hass_dobiss_sx_evolution.ConfigFlow.Subentries.Unique.{IsUnique, Unique}
use hass_dobiss_sx_evolution.Controller.Buses.{BusCall, bus_shutdown, call_can_bus, tcp_connect}
use hass_dobiss_sx_evolution.Controller.Connection.{ConfigData, ConnectionConfig}
use hass_dobiss_sx_evolution.Coordinator.Links.{entry_connection}
use hass_dobiss_sx_evolution.SerialClient.{SerialPort}
use hass_dobiss_sx_evolution.TcpClient.{TcpHost}

abbrev an_input : SocketcandInput
an_input = record {
  host_input = codes "can";
  port_input = pos 29536;
  interface_input = codes "can0";
  master_input = some [];
  max200_input = some (codes "max");
}

abbrev own_input : SocketcandInput
own_input = record an_input { host_input = codes "old" }

abbrev always_opens : ConnectionConfig → Result (Unit {0})
always_opens connection = ok tt

abbrev own_ids : List Text
own_ids = codes "socketcand:old:29536/can0" ∷ codes "usb:/dev/ttyUSB0" ∷ []

abbrev known_ids : UniqueIds
known_ids = record { configured = own_ids; in_progress = [] }

abbrev a_usb_input : UsbInput
a_usb_input = record {
  device_input = codes "/dev/ttyUSB0";
  usb_master_input = none;
  usb_max200_input = none;
}

submit-Stores_example :
    StoresResult always_opens
      (entered (new_socketcand an_input))
      (submit known_ids always_opens (new_socketcand an_input))
submit-Stores_example = submit-Stores known_ids always_opens (new_socketcand an_input) tt

own_ids-Unique : Unique own_ids
own_ids-Unique = (refl, (refl, tt))

submit-Unique_example : Unique (
    ids_after
      (codes "socketcand:old:29536/can0")
      (submit known_ids always_opens (reconfigured_socketcand an_input))
      known_ids.configured)
submit-Unique_example =
    submit-Unique (codes "socketcand:old:29536/can0") known_ids always_opens
      (reconfigured_socketcand an_input) tt own_ids-Unique

changes_entry-reconfigure_example :
    changes_entry (reconfigure known_ids always_opens (inl own_input)) ≡ false
unfolding socketcand_id
changes_entry-reconfigure_example =
    changes_entry-reconfigure known_ids always_opens (inl own_input) refl

abbrev entry_of_old : ConfigData
entry_of_old = socketcand_data own_input

reauthenticate-repeats_example : ¬ Unique (
    ids_after
      (codes "socketcand:old:29536/can0")
      (reauthenticate always_opens entry_of_old (inr a_usb_input))
      own_ids)
unfolding usb_id
reauthenticate-repeats_example =
    reauthenticate-repeats (codes "socketcand:old:29536/can0") own_ids always_opens entry_of_old
      (inr a_usb_input) refl refl refl refl

abbrev old_module : ModuleData
old_module = record { letter = b'A' ∷ []; dimmable_module = false; outputs = [] }

abbrev old_subentries : List Subentry
old_subentries =
    record { subentry_id = codes "s1"; title = codes "Hall"; data_of = module_data old_module } ∷ []

abbrev some_downloads : Downloads
some_downloads = record {
  config = ok ((b'A' ∷ [], 0) ∷ (b'B' ∷ [], 1) ∷ []);
  names_of_module = λ i. raised timeout_error;
  mood_names_download = ok [];
}

import_modules-Succeeds_example :
    Succeeds
      ((b'B' ∷ [], 1) ∷ [])
      old_subentries
      (import_modules (λ n. codes "new") (some some_downloads) old_subentries)
import_modules-Succeeds_example =
    import_modules-Succeeds (λ n. codes "new") some_downloads ((b'A' ∷ [], 0) ∷ (b'B' ∷ [], 1) ∷ [])
      old_subentries refl not_empty (refl, tt) not_cancelled
  where
    not_empty : ◌≢◌ {A = List (Text × ℕ)} ((b'B' ∷ [], 1) ∷ []) []
    not_empty h = cc

    not_cancelled :
        (i : ℕ) → ◌≢◌ {A = Result (Dict ℕ Text)} (raised timeout_error) (raised cancelled_error)
    not_cancelled i h = cc

old_subentries-IsUnique : IsUnique old_subentries
unfolding validate_module
old_subentries-IsUnique = ((refl, tt), (refl, tt), tt, tt)

abbrev a_mute_host : TcpHost
a_mute_host = record {
  connects = λ trace. ok tt;
  drains = λ trace. ok tt;
  reads_exactly = λ trace n. ok (b'B' ∷ replicate 35 0);
  waits_closed = λ trace. ok tt;
}

abbrev a_closed_port : SerialPort
a_closed_port = record {
  opens_port = false;
  reads = λ trace n. ok [];
  write_raises = λ trace bytes. false;
}

import_both-Imported_example :
    Imported old_subentries
      (import_both
        (λ n. codes "new")
        (λ h. a_mute_host)
        (λ d. a_closed_port)
        []
        entry_of_old
        old_subentries).0
    × Imported old_subentries
        (import_both
          (λ n. codes "new")
          (λ h. a_mute_host)
          (λ d. a_closed_port)
          []
          entry_of_old
          old_subentries).1
import_both-Imported_example =
    import_both-Imported (λ n. codes "new") (λ h. a_mute_host) (λ d. a_closed_port) [] entry_of_old
      old_subentries old_subentries-IsUnique

abbrev an_entry : ConfigData
an_entry = reauth_socketcand_data (socketcand_data an_input) own_input

resubmit-Stored_example :
    resubmit always_opens an_entry (reauth_form [] an_entry)
    ≡ some (ok (entry_updated an_entry (codes "socketcand:old:29536/can0")))
unfolding entry_connection socketcand_id
resubmit-Stored_example =
    resubmit-Stored always_opens [] an_entry
      (socketcand_reauthenticated (socketcand_stored an_input) refl own_input) refl

-- A daemon that refuses its first connection, with python-can never called.
abbrev answers_usb : BusCall → Result (Unit {0})
answers_usb (tcp_connect host port) = raised timeout_error
answers_usb (call_can_bus arguments) = ok tt
answers_usb bus_shutdown = raised bus_error

submit-Opens_example :
    OpensResult answers_usb (submit known_ids (probes answers_usb) (reconfigured_usb a_usb_input))
submit-Opens_example = submit-Opens known_ids answers_usb (reconfigured_usb a_usb_input) tt
