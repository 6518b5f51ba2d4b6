-- ===== src/ConfigFlow/FormDefaults/Resubmits.antt =====
-- config_flow.py: a form that is submitted as it is shown changes nothing of its entry.
use hass_dobiss_sx_evolution.Prelude.{
  Bool, List, Option, Result, Text, [], false, inl, inr, none, ok, refl, some, sym, true, ◌∙◌, ◌∷◌,
  ◌≡◌, ◌⊎◌,
}
use hass_dobiss_sx_evolution.ConfigFlow.Entry.{probe_error, reauth_socketcand_step, reauth_usb_step}
use hass_dobiss_sx_evolution.ConfigFlow.Entry.Probed.{
  connection_id, socketcand_entered, usb_entered,
}
use hass_dobiss_sx_evolution.ConfigFlow.EntryForms.{
  EntryResult, SocketcandInput, UsbInput, entry_updated, reauth_socketcand_data, reauth_usb_data,
  socketcand_data, socketcand_id_of, usb_data, usb_id,
}
use hass_dobiss_sx_evolution.ConfigFlow.FormDefaults.{
  ConnectionForm, SelectOption, SocketcandForm, UsbForm, reauth_form, socketcand_defaults,
  socketcand_form, usb_defaults, usb_form,
}
use hass_dobiss_sx_evolution.Controller.Connection.{ConfigData, ConnectionConfig, or_default}
use hass_dobiss_sx_evolution.Coordinator.Links.{entry_connection, is_socketcand, non_empty}

-- What is submitted of a form whose fields are left as they are shown; a required field without a
-- default has to be filled in first.
abbrev pub socketcand_unchanged : SocketcandForm → Option SocketcandInput
socketcand_unchanged form = elim form.host_default [
  | none ↦ none
  | some host ↦ some (record {
    host_input = host;
    port_input = form.port_default;
    interface_input = form.interface_default;
    master_input = some form.master_default;
    max200_input = some form.max200_default;
  })
]

abbrev pub usb_unchanged : UsbForm → Option UsbInput
usb_unchanged form = elim form.device_default [
  | none ↦ none
  | some device ↦ some (record {
    device_input = device;
    usb_master_input = some form.usb_master_default;
    usb_max200_input = some form.usb_max200_default;
  })
]

-- The data of an entry: as a form creates or reconfigures it, then as reauthentications on the form
-- that the entry is shown leave it.
pub data Stored : ConfigData → Type 0 where
  socketcand_stored : (i : SocketcandInput) → Stored (socketcand_data i)
  usb_stored : (i : UsbInput) → Stored (usb_data i)
  socketcand_reauthenticated :
      {entry_data : ConfigData}
      → Stored entry_data
      → is_socketcand entry_data ≡ true
      → (i : SocketcandInput) → Stored (reauth_socketcand_data entry_data i)
  usb_reauthenticated :
      {entry_data : ConfigData}
      → Stored entry_data
      → is_socketcand entry_data ≡ false
      → (i : UsbInput) → Stored (reauth_usb_data entry_data i)

-- The step of the reauthentication that the form belongs to, on the form left as it is shown.
abbrev pub resubmit :
    (ConnectionConfig → Result (Unit {0}))
    → ConfigData
    → ConnectionForm
    → Option (Result EntryResult)
resubmit make_bus entry_data (socketcand_form form) = elim (socketcand_unchanged form) [
  | none ↦ none
  | some i ↦ some (reauth_socketcand_step make_bus entry_data (some i))
]
resubmit make_bus entry_data (usb_form form) = elim (usb_unchanged form) [
  | none ↦ none
  | some i ↦ some (reauth_usb_step make_bus entry_data (some i))
]

abbrev Entered : ConfigData → Type 0
Entered entry_data =
    ((i : SocketcandInput) × (entry_data ≡ socketcand_data i))
    ⊎ ((i : UsbInput) × (entry_data ≡ usb_data i))

unlike :
    {entry_data other : ConfigData} {b : Bool}
    → entry_data ≡ other
    → is_socketcand entry_data ≡ b
    → is_socketcand other ≡ b
unlike e shown = sym (λ k. is_socketcand (e k)) ∙ shown

other_kind {ℓ} : {A : Type ℓ} → false ≡ true → A
other_kind e = absurd cc

Stored-Entered : {entry_data : ConfigData} → Stored entry_data → Entered entry_data
Stored-Entered (socketcand_stored i) = inl (i, refl)
Stored-Entered (usb_stored i) = inr (i, refl)
Stored-Entered (socketcand_reauthenticated stored shown i) = elim (Stored-Entered stored) [
  | inl (j, e) ↦ inl (i, λ k. reauth_socketcand_data (e k) i)
  | inr (j, e) ↦ other_kind (unlike e shown)
]
Stored-Entered (usb_reauthenticated stored shown i) = elim (Stored-Entered stored) [
  | inl (j, e) ↦ other_kind (sym (unlike e shown))
  | inr (j, e) ↦ inr (i, λ k. reauth_usb_data (e k) i)
]

filled : (t : Option Text) → non_empty (some (or_default (non_empty t) [])) ≡ non_empty t
filled none = refl
filled (some []) = refl
filled (some (c ∷ s)) = refl

socketcand_kept :
    (i : SocketcandInput)
    → reauth_socketcand_data (socketcand_data i) (socketcand_defaults (socketcand_data i))
      ≡ socketcand_data i
socketcand_kept i = λ k. record (socketcand_data i) {
  master_device = filled i.master_input k;
  max200_host = filled i.max200_input k;
}

usb_kept : (i : UsbInput) → reauth_usb_data (usb_data i) (usb_defaults (usb_data i)) ≡ usb_data i
usb_kept i = λ k. record (usb_data i) {
  master_device = filled i.usb_master_input k;
  max200_host = filled i.usb_max200_input k;
}

-- The answer to an unchanged form of the reauthentication.
abbrev pub Answers :
    (ConnectionConfig → Result (Unit {0})) → List SelectOption → ConfigData → Type 0
Answers make_bus options entry_data =
    resubmit make_bus entry_data (reauth_form options entry_data)
    ≡ some (ok (entry_updated entry_data (connection_id (entry_connection entry_data))))

socketcand-Answers :
    (make_bus : ConnectionConfig → Result (Unit {0})) (options : List SelectOption)
    (i : SocketcandInput)
    → make_bus (socketcand_entered i) ≡ ok tt
    → Answers make_bus options (socketcand_data i)
unfolding reauth_form reauth_socketcand_step entry_connection probe_error
socketcand-Answers make_bus options i reached =
    rw (reached) (λ k. some (ok (entry_updated (socketcand_kept i k) (socketcand_id_of i))))

usb-Answers :
    (make_bus : ConnectionConfig → Result (Unit {0})) (options : List SelectOption) (i : UsbInput)
    → make_bus (usb_entered i) ≡ ok tt
    → Answers make_bus options (usb_data i)
unfolding reauth_form reauth_usb_step entry_connection probe_error
usb-Answers make_bus options i reached =
    rw (reached) (λ k. some (ok (entry_updated (usb_kept i k) (usb_id i.device_input))))

-- Where a bus opens on the connection of an entry whose data are as forms made them, the form of the
-- reauthentication that the entry is shown, left as it is shown, updates the entry with the very data
-- and the very unique id of its connection: whether the Max200's device or host were entered, left
-- empty or not there, and after any reauthentications.
pub resubmit-Stored :
    (make_bus : ConnectionConfig → Result (Unit {0})) (options : List SelectOption)
    (entry_data : ConfigData)
    → Stored entry_data
    → make_bus (entry_connection entry_data) ≡ ok tt
    → resubmit make_bus entry_data (reauth_form options entry_data)
      ≡ some (ok (entry_updated entry_data (connection_id (entry_connection entry_data))))
unfolding entry_connection
resubmit-Stored make_bus options entry_data stored reached = elim (Stored-Entered stored) [
  | inl (i, e) ↦ rw e (socketcand-Answers make_bus options i (at e))
  | inr (i, e) ↦ rw e (usb-Answers make_bus options i (at e))
]
  where
    at : {d : ConfigData} → entry_data ≡ d → make_bus (entry_connection d) ≡ ok tt
    at e = sym (λ k. make_bus (entry_connection (e k))) ∙ reached
