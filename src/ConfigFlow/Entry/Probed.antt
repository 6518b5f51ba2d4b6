-- ===== src/ConfigFlow/Entry/Probed.antt =====
-- config_flow.py: an entry that a submitted form creates or updates connects as the form says, to a
-- bus that has just been opened.
use hass_dobiss_sx_evolution.Prelude.{
  Option, Result, Text, [], cancelled_error, codes, false, none, ok, raised, refl, some, true, ◌∷◌,
  ◌≡◌,
}
use hass_dobiss_sx_evolution.ConfigFlow.Entry.{
  probe_error, reauth_socketcand_step, reauth_usb_step, reconfigure_socketcand_step,
  reconfigure_usb_step, socketcand_step, unless_error, usb_manual_step,
}
use hass_dobiss_sx_evolution.ConfigFlow.EntryForms.{
  EntryAbort, EntryResult, EntryStep, SocketcandInput, UniqueIds, UsbInput, entry_abort,
  entry_created, entry_form, entry_updated, id_abort, reauth_socketcand_data, reauth_usb_data,
  socketcand_data, socketcand_id, socketcand_id_of, step_reauth_socketcand, step_reauth_usb,
  step_reconfigure_socketcand, step_reconfigure_usb, step_socketcand, step_usb_manual, unless_abort,
  usb_data, usb_id,
}
use hass_dobiss_sx_evolution.Controller.Connection.{
  ConfigData, ConnectionConfig, default_baudrate, socketcand, usb,
}
use hass_dobiss_sx_evolution.Coordinator.Links.{
  entry_connection, is_socketcand, non_empty, serial_client_device, tcp_client_host,
}

-- A submitted form, with the entry's data where it reauthenticates.
pub data Submission : Type 0 where
  new_socketcand reconfigured_socketcand : SocketcandInput → Submission
  new_usb reconfigured_usb : UsbInput → Submission
  reauth_socketcand : ConfigData → SocketcandInput → Submission
  reauth_usb : ConfigData → UsbInput → Submission

abbrev pub submit :
    UniqueIds → (ConnectionConfig → Result (Unit {0})) → Submission → Result EntryResult
submit ids make_bus (new_socketcand i) = socketcand_step ids make_bus (some i)
submit ids make_bus (reconfigured_socketcand i) = reconfigure_socketcand_step ids make_bus (some i)
submit ids make_bus (new_usb i) = usb_manual_step ids make_bus (some i)
submit ids make_bus (reconfigured_usb i) = reconfigure_usb_step ids make_bus (some i)
submit ids make_bus (reauth_socketcand entry_data i) =
    reauth_socketcand_step make_bus entry_data (some i)
submit ids make_bus (reauth_usb entry_data i) = reauth_usb_step make_bus entry_data (some i)

-- The form of the reauthentication is the one that `async_step_reauth` shows.
abbrev pub IsShown : Submission → Type 0
IsShown (reauth_socketcand entry_data i) = is_socketcand entry_data ≡ true
IsShown (reauth_usb entry_data i) = is_socketcand entry_data ≡ false
IsShown (new_socketcand i) = Unit
IsShown (new_usb i) = Unit
IsShown (reconfigured_socketcand i) = Unit
IsShown (reconfigured_usb i) = Unit

abbrev pub socketcand_entered : SocketcandInput → ConnectionConfig
socketcand_entered i = socketcand i.host_input i.port_input i.interface_input

abbrev pub usb_entered : UsbInput → ConnectionConfig
usb_entered i = usb i.device_input default_baudrate (codes "slcan")

-- The connection, the Max200's serial port and its host that the form holds.
abbrev pub entered : Submission → ConnectionConfig × Option Text × Option Text
entered (new_socketcand i) =
    (socketcand_entered i, non_empty i.master_input, non_empty i.max200_input)
entered (reconfigured_socketcand i) =
    (socketcand_entered i, non_empty i.master_input, non_empty i.max200_input)
entered (reauth_socketcand entry_data i) =
    (socketcand_entered i, non_empty i.master_input, non_empty i.max200_input)
entered (new_usb i) = (usb_entered i, non_empty i.usb_master_input, non_empty i.usb_max200_input)
entered (reconfigured_usb i) =
    (usb_entered i, non_empty i.usb_master_input, non_empty i.usb_max200_input)
entered (reauth_usb entry_data i) =
    (usb_entered i, non_empty i.usb_master_input, non_empty i.usb_max200_input)

abbrev pub connection_id : ConnectionConfig → Text
connection_id (socketcand host port interface) = socketcand_id host port interface
connection_id (usb device baudrate can_interface) = usb_id device

-- A coordinator of these data uses what was entered, and the bus of the connection has been opened.
abbrev pub Stores :
    (ConnectionConfig → Result (Unit {0}))
    → ConnectionConfig × Option Text × Option Text
    → ConfigData
    → Text
    → Type 0
Stores make_bus (connection, device, host) entry_data unique_id =
    (make_bus connection ≡ ok tt)
    × (entry_connection entry_data ≡ connection)
    × (serial_client_device entry_data ≡ device)
    × (tcp_client_host entry_data ≡ host)
    × (unique_id ≡ connection_id connection)

-- What a step answers changes no entry, or stores what was entered.
abbrev pub StoresResult :
    (ConnectionConfig → Result (Unit {0}))
    → ConnectionConfig × Option Text × Option Text
    → Result EntryResult
    → Type 0
StoresResult make_bus entry (raised e) = e ≡ cancelled_error
StoresResult make_bus entry (ok (entry_form step error)) = Unit
StoresResult make_bus entry (ok (entry_abort reason)) = Unit
StoresResult make_bus entry (ok (entry_created title entry_data unique_id)) =
    Stores make_bus entry entry_data unique_id
StoresResult make_bus entry (ok (entry_updated entry_data unique_id)) =
    Stores make_bus entry entry_data unique_id

non_empty_twice : (t : Option Text) → non_empty (non_empty t) ≡ non_empty t
non_empty_twice none = refl
non_empty_twice (some []) = refl
non_empty_twice (some (c ∷ s)) = refl

module _ (make_bus : ConnectionConfig → Result (Unit {0}))
    (entry : ConnectionConfig × Option Text × Option Text) where
  after_abort :
      (abort_reason : Option EntryAbort) (r : Result EntryResult)
      → StoresResult make_bus entry r
      → StoresResult make_bus entry (unless_abort abort_reason r)
  after_abort none r h = h
  after_abort (some reason) r h = tt

  after_probe :
      (step : EntryStep) (probe : Result (Unit {0})) (r : Result EntryResult)
      → (probe ≡ ok tt → StoresResult make_bus entry r)
      → StoresResult make_bus entry (unless_error step (probe_error probe) r)
  unfolding probe_error
  after_probe step (ok u) r h = h refl
  after_probe step (raised cancelled_error) r h = refl
  after_probe step (raised _) r h = tt

socketcand-Stores :
    (make_bus : ConnectionConfig → Result (Unit {0})) (i : SocketcandInput)
    → make_bus (socketcand_entered i) ≡ ok tt
    → Stores make_bus
        (socketcand_entered i, non_empty i.master_input, non_empty i.max200_input)
        (socketcand_data i)
        (socketcand_id_of i)
unfolding entry_connection
socketcand-Stores make_bus i h =
    (h, refl, non_empty_twice i.master_input, non_empty_twice i.max200_input, refl)

usb-Stores :
    (make_bus : ConnectionConfig → Result (Unit {0})) (i : UsbInput)
    → make_bus (usb_entered i) ≡ ok tt
    → Stores make_bus
        (usb_entered i, non_empty i.usb_master_input, non_empty i.usb_max200_input)
        (usb_data i)
        (usb_id i.device_input)
unfolding entry_connection
usb-Stores make_bus i h =
    (h, refl, non_empty_twice i.usb_master_input, non_empty_twice i.usb_max200_input, refl)

reauth_socketcand_connection :
    (entry_data : ConfigData) (i : SocketcandInput)
    → is_socketcand entry_data ≡ true
    → entry_connection (reauth_socketcand_data entry_data i) ≡ socketcand_entered i
unfolding entry_connection
reauth_socketcand_connection entry_data i h = simp h refl

reauth_usb_connection :
    (entry_data : ConfigData) (i : UsbInput)
    → is_socketcand entry_data ≡ false
    → entry_connection (reauth_usb_data entry_data i) ≡ usb_entered i
unfolding entry_connection
reauth_usb_connection entry_data i h = simp h refl

-- Whatever Home Assistant knows of unique ids and however a probe ends, a submitted form creates or
-- updates an entry only where the bus of the entered connection has just been opened. The data then
-- stored are read back by the coordinator as the entered connection, and as the Max200's serial port
-- and host that were entered and not left empty; the unique id is that of the connection. Only a
-- cancellation is raised. A reauthentication is on the form that it was shown for the entry.
pub submit-Stores :
    (ids : UniqueIds) (make_bus : ConnectionConfig → Result (Unit {0})) (submission : Submission)
    → IsShown submission
    → StoresResult make_bus (entered submission) (submit ids make_bus submission)
unfolding socketcand_step usb_manual_step reauth_socketcand_step reauth_usb_step
    reconfigure_socketcand_step reconfigure_usb_step
submit-Stores ids make_bus (new_socketcand i) shown =
    after_abort make_bus (entered (new_socketcand i)) (id_abort ids (socketcand_id_of i)) _ (
      after_probe make_bus (entered (new_socketcand i)) step_socketcand
        (make_bus (socketcand_entered i)) _ (socketcand-Stores make_bus i))
submit-Stores ids make_bus (new_usb i) shown =
    after_abort make_bus (entered (new_usb i)) (id_abort ids (usb_id i.device_input)) _ (
      after_probe make_bus (entered (new_usb i)) step_usb_manual (make_bus (usb_entered i)) _
        (usb-Stores make_bus i))
submit-Stores ids make_bus (reconfigured_socketcand i) shown =
    after_probe make_bus (entered (reconfigured_socketcand i)) step_reconfigure_socketcand
      (make_bus (socketcand_entered i)) _
      (λ h.
        after_abort make_bus (entered (reconfigured_socketcand i))
          (id_abort ids (socketcand_id_of i)) _ (socketcand-Stores make_bus i h))
submit-Stores ids make_bus (reconfigured_usb i) shown =
    after_probe make_bus (entered (reconfigured_usb i)) step_reconfigure_usb
      (make_bus (usb_entered i)) _
      (λ h.
        after_abort make_bus (entered (reconfigured_usb i)) (id_abort ids (usb_id i.device_input)) _
          (usb-Stores make_bus i h))
submit-Stores ids make_bus (reauth_socketcand entry_data i) shown =
    after_probe make_bus (entered (reauth_socketcand entry_data i)) step_reauth_socketcand
      (make_bus (socketcand_entered i)) _
      (λ h. (
        h,
        reauth_socketcand_connection entry_data i shown,
        non_empty_twice i.master_input,
        non_empty_twice i.max200_input,
        refl,
      ))
submit-Stores ids make_bus (reauth_usb entry_data i) shown =
    after_probe make_bus (entered (reauth_usb entry_data i)) step_reauth_usb
      (make_bus (usb_entered i)) _
      (λ h. (
        h,
        reauth_usb_connection entry_data i shown,
        non_empty_twice i.usb_master_input,
        non_empty_twice i.usb_max200_input,
        refl,
      ))
