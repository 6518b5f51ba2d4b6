-- ===== src/ConfigFlow/Entry/Collisions.antt =====
-- config_flow.py: forms of the entry's flow whose connection another entry has.
use hass_dobiss_sx_evolution.Prelude.{
  ==_iff, Bool, Bool-cases, List, Option, Result, Text, [], arith, contains, false, inl, inr,
  int_eq, nat_eq, none, ok, pair_eq, raised, refl, some, text_eq, true, ◌==◌, ◌∷◌, ◌≡◌, ◌⊎◌,
}
use hass_dobiss_sx_evolution.ConfigFlow.Entry.{
  probe_error, reauth_socketcand_step, reauth_usb_step, reconfigure_socketcand_step,
  reconfigure_usb_step, unless_error,
}
use hass_dobiss_sx_evolution.ConfigFlow.Entry.Ids.{ids_after, replaced_id}
use hass_dobiss_sx_evolution.ConfigFlow.Entry.Probed.{socketcand_entered, usb_entered}
use hass_dobiss_sx_evolution.ConfigFlow.EntryForms.{
  EntryError, EntryResult, EntryStep, SocketcandInput, UniqueIds, UsbInput, entry_abort,
  entry_created, entry_form, entry_updated, id_abort, socketcand_id_of, step_reconfigure_socketcand,
  step_reconfigure_usb, unless_abort, usb_id,
}
use hass_dobiss_sx_evolution.ConfigFlow.Subentries.Unique.{Unique}
use hass_dobiss_sx_evolution.Controller.Connection.{ConfigData, ConnectionConfig}

-- Whether an answer creates or updates an entry.
abbrev pub changes_entry : Result EntryResult → Bool
changes_entry (ok (entry_created title entry_data unique_id)) = true
changes_entry (ok (entry_updated entry_data unique_id)) = true
changes_entry (ok (entry_form step error)) = false
changes_entry (ok (entry_abort reason)) = false
changes_entry (raised e) = false

-- The unique id of the connection on a form that reconfigures.
abbrev pub reconfigured_id : SocketcandInput ⊎ UsbInput → Text
reconfigured_id (inl i) = socketcand_id_of i
reconfigured_id (inr i) = usb_id i.device_input

abbrev pub reconfigure :
    UniqueIds
    → (ConnectionConfig → Result (Unit {0}))
    → SocketcandInput ⊎ UsbInput
    → Result EntryResult
reconfigure ids make_bus (inl i) = reconfigure_socketcand_step ids make_bus (some i)
reconfigure ids make_bus (inr i) = reconfigure_usb_step ids make_bus (some i)

taken-changes :
    (ids : UniqueIds) (unique_id : Text) (r : Result EntryResult)
    → contains unique_id ids.configured ≡ true
    → changes_entry (unless_abort (id_abort ids unique_id) r) ≡ false
taken-changes ids unique_id r h = elim (Bool-cases (contains unique_id ids.in_progress)) [
  | inl e ↦ simp e refl
  | inr e ↦ simp (e, h) refl
]

probed-changes :
    (step : EntryStep) (probe : Result (Option EntryError)) (r : Result EntryResult)
    → changes_entry r ≡ false
    → changes_entry (unless_error step probe r) ≡ false
probed-changes step (ok none) r h = h
probed-changes step (ok (some error)) r h = refl
probed-changes step (raised e) r h = refl

-- A form that reconfigures an entry changes nothing where the unique id of its connection is a
-- configured one, that of the entry itself included, whatever the form says of the Max200's serial
-- port and host and however the probe ends.
pub changes_entry-reconfigure :
    (ids : UniqueIds) (make_bus : ConnectionConfig → Result (Unit {0}))
    (form : SocketcandInput ⊎ UsbInput)
    → contains (reconfigured_id form) ids.configured ≡ true
    → changes_entry (reconfigure ids make_bus form) ≡ false
unfolding reconfigure_socketcand_step reconfigure_usb_step
changes_entry-reconfigure ids make_bus (inl i) own =
    probed-changes step_reconfigure_socketcand (probe_error (make_bus (socketcand_entered i))) _
      (taken-changes ids (socketcand_id_of i) _ own)
changes_entry-reconfigure ids make_bus (inr i) own =
    probed-changes step_reconfigure_usb (probe_error (make_bus (usb_entered i))) _
      (taken-changes ids (usb_id i.device_input) _ own)

abbrev pub reauthenticate :
    (ConnectionConfig → Result (Unit {0}))
    → ConfigData
    → SocketcandInput ⊎ UsbInput
    → Result EntryResult
reauthenticate make_bus entry_data (inl i) = reauth_socketcand_step make_bus entry_data (some i)
reauthenticate make_bus entry_data (inr i) = reauth_usb_step make_bus entry_data (some i)

abbrev pub form_connection : SocketcandInput ⊎ UsbInput → ConnectionConfig
form_connection (inl i) = socketcand_entered i
form_connection (inr i) = usb_entered i

contains-replaced_id :
    (own unique_id : Text) (xs : List Text)
    → contains own xs ≡ true
    → contains unique_id (replaced_id own unique_id xs) ≡ true
contains-replaced_id own unique_id [] h = cc
contains-replaced_id own unique_id (x ∷ xs) h = ground (
  arith,
  contains-replaced_id own unique_id xs,
  ==_iff own x,
  ==_iff x own,
  ==_iff unique_id unique_id,
)

replaced_id-repeats :
    (own unique_id : Text) (xs : List Text)
    → contains own xs ≡ true
    → contains unique_id xs ≡ true
    → (own == unique_id) ≡ false
    → ¬ Unique (replaced_id own unique_id xs)
replaced_id-repeats own unique_id [] h k ne u = cc
replaced_id-repeats own unique_id (x ∷ xs) h k ne u = ground (
  arith,
  replaced_id-repeats own unique_id xs,
  contains-replaced_id own unique_id xs,
  ==_iff own x,
  ==_iff x own,
  ==_iff unique_id x,
  ==_iff own unique_id,
  same x unique_id (replaced_id own unique_id xs),
)
  where
    same : (a b : Text) (l : List Text) → a ≡ b → contains a l ≡ contains b l
    same a b l e = λ i. contains (e i) l

-- A form that reauthenticates the entry `own` with the connection of another entry, on which a bus
-- opens, is accepted, and leaves both entries with one unique id.
pub reauthenticate-repeats :
    (own : Text) (ids : List Text) (make_bus : ConnectionConfig → Result (Unit {0}))
    (entry_data : ConfigData) (form : SocketcandInput ⊎ UsbInput)
    → make_bus (form_connection form) ≡ ok tt
    → contains own ids ≡ true
    → contains (reconfigured_id form) ids ≡ true
    → (own == reconfigured_id form) ≡ false
    → ¬ Unique (ids_after own (reauthenticate make_bus entry_data form) ids)
unfolding reauth_socketcand_step reauth_usb_step probe_error
reauthenticate-repeats own ids make_bus entry_data (inl i) probe h k ne =
    rw probe (replaced_id-repeats own (socketcand_id_of i) ids h k ne)
reauthenticate-repeats own ids make_bus entry_data (inr i) probe h k ne =
    rw probe (replaced_id-repeats own (usb_id i.device_input) ids h k ne)
