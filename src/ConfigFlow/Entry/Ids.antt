-- ===== src/ConfigFlow/Entry/Ids.antt =====
-- config_flow.py: the unique ids of the entries after a step of the entry's flow.
use hass_dobiss_sx_evolution.Prelude.{
  ==_iff, Bool-cases, List, Option, Result, Text, [], arith, contains, false, if◌then◌else◌, inl,
  inr, int_eq, nat_eq, none, ok, pair_eq, raised, refl, some, text_eq, ◌++◌, ◌==◌, ◌∷◌, ◌≡◌,
}
use hass_dobiss_sx_evolution.ConfigFlow.Entry.{
  probe_error, reconfigure_socketcand_step, reconfigure_usb_step, socketcand_step, unless_error,
  usb_manual_step,
}
use hass_dobiss_sx_evolution.ConfigFlow.Entry.Probed.{
  Submission, new_socketcand, new_usb, reauth_socketcand, reauth_usb, reconfigured_socketcand,
  reconfigured_usb, socketcand_entered, submit, usb_entered,
}
use hass_dobiss_sx_evolution.ConfigFlow.EntryForms.{
  EntryError, EntryResult, EntryStep, UniqueIds, entry_abort, entry_created, entry_form,
  entry_updated, id_abort, socketcand_id_of, step_reconfigure_socketcand, step_reconfigure_usb,
  step_socketcand, step_usb_manual, unless_abort, usb_id,
}
use hass_dobiss_sx_evolution.ConfigFlow.Subentries.Unique.{Unique, Unique-append}
use hass_dobiss_sx_evolution.Controller.Connection.{ConnectionConfig}

abbrev pub replaced_id : Text → Text → List Text → List Text
replaced_id own unique_id [] = []
replaced_id own unique_id (x ∷ xs) =
    if x == own then unique_id ∷ xs else x ∷ replaced_id own unique_id xs

-- The unique ids after a step, where the flow is that of the entry with the id `own`, if of any.
abbrev pub ids_after : Text → Result EntryResult → List Text → List Text
ids_after own (ok (entry_created title entry_data unique_id)) ids = ids ++ unique_id ∷ []
ids_after own (ok (entry_updated entry_data unique_id)) ids = replaced_id own unique_id ids
ids_after own (ok (entry_form step error)) ids = ids
ids_after own (ok (entry_abort reason)) ids = ids
ids_after own (raised e) ids = ids

replaced_id-contains :
    (x own unique_id : Text) (xs : List Text)
    → contains x xs ≡ false
    → (x == unique_id) ≡ false
    → contains x (replaced_id own unique_id xs) ≡ false
replaced_id-contains x own unique_id [] h ne = refl
replaced_id-contains x own unique_id (y ∷ xs) h ne =
    ground (arith, replaced_id-contains x own unique_id xs)

replaced_id-Unique :
    (own unique_id : Text) (xs : List Text)
    → Unique xs
    → contains unique_id xs ≡ false
    → Unique (replaced_id own unique_id xs)
replaced_id-Unique own unique_id [] u h = tt
replaced_id-Unique own unique_id (x ∷ xs) u h = elim (Bool-cases (x == own)) [
  | inl e ↦ rw e (ground arith, u.1)
  | inr e ↦ rw e (
    replaced_id-contains x own unique_id xs u.0
        (ground (arith, ==_iff x unique_id, ==_iff unique_id x)),
    replaced_id-Unique own unique_id xs u.1 (ground arith),
  )
]

-- The steps of a new entry and of a reconfigured one.
abbrev pub IsChecked : Submission → Type 0
IsChecked (reauth_socketcand entry_data i) = ⊥
IsChecked (reauth_usb entry_data i) = ⊥
IsChecked (new_socketcand i) = Unit
IsChecked (new_usb i) = Unit
IsChecked (reconfigured_socketcand i) = Unit
IsChecked (reconfigured_usb i) = Unit

-- A result that keeps the ids unique, where `unique_id` is the one it may bring.
module _ (own : Text) (ids : UniqueIds) (u : Unique ids.configured) where
  abbrev pub Keeps : Result EntryResult → Type 0
  Keeps r = Unique (ids_after own r ids.configured)

  probed-Keeps :
      (step : EntryStep) (probe : Result (Option EntryError)) (r : Result EntryResult)
      → Keeps r
      → Keeps (unless_error step probe r)
  probed-Keeps step (ok none) r h = h
  probed-Keeps step (ok (some error)) r h = u
  probed-Keeps step (raised e) r h = u

  checked-Keeps :
      (unique_id : Text) (r : Result EntryResult)
      → (contains unique_id ids.configured ≡ false → Keeps r)
      → Keeps (unless_abort (id_abort ids unique_id) r)
  checked-Keeps unique_id r h = elim (Bool-cases (contains unique_id ids.in_progress)) [
    | inl e ↦ simp e u
    | inr e ↦ elim (Bool-cases (contains unique_id ids.configured)) [
      | inl e' ↦ simp (e, e') u
      | inr e' ↦ simp (e, e') (h e')
    ]
  ]

-- A new entry and a reconfigured one, whose id is `own`, leave the unique ids of the entries without
-- repetition, if they were, whatever else is in progress and however the probe ends.
pub submit-Unique :
    (own : Text) (ids : UniqueIds) (make_bus : ConnectionConfig → Result (Unit {0}))
    (submission : Submission)
    → IsChecked submission
    → Unique ids.configured
    → Unique (ids_after own (submit ids make_bus submission) ids.configured)
unfolding socketcand_step usb_manual_step reconfigure_socketcand_step reconfigure_usb_step
submit-Unique own ids make_bus (new_socketcand i) c u =
    checked-Keeps own ids u (socketcand_id_of i) _ (λ free.
      probed-Keeps own ids u step_socketcand (probe_error (make_bus (socketcand_entered i))) _
        (Unique-append ids.configured (socketcand_id_of i) u free))
submit-Unique own ids make_bus (new_usb i) c u =
    checked-Keeps own ids u (usb_id i.device_input) _ (λ free.
      probed-Keeps own ids u step_usb_manual (probe_error (make_bus (usb_entered i))) _
        (Unique-append ids.configured (usb_id i.device_input) u free))
submit-Unique own ids make_bus (reconfigured_socketcand i) c u =
    probed-Keeps own ids u step_reconfigure_socketcand
      (probe_error (make_bus (socketcand_entered i))) _
      (checked-Keeps own ids u (socketcand_id_of i) _
        (replaced_id-Unique own (socketcand_id_of i) ids.configured u))
submit-Unique own ids make_bus (reconfigured_usb i) c u =
    probed-Keeps own ids u step_reconfigure_usb (probe_error (make_bus (usb_entered i))) _ (
      checked-Keeps own ids u (usb_id i.device_input) _
        (replaced_id-Unique own (usb_id i.device_input) ids.configured u))
submit-Unique own ids make_bus (reauth_socketcand entry_data i) c u = elim c [ ]
submit-Unique own ids make_bus (reauth_usb entry_data i) c u = elim c [ ]
