-- ===== src/Setup/DeviceNames.antt =====
-- __init__.py, the listener of `_make_reload_listener`: the devices of the modules take the titles of
-- their subentries.
use hass_dobiss_sx_evolution.Prelude.{
  ==_iff, Dict, List, Option, Text, [], arith, bool_eq, codes, get, get-put, if◌then◌else◌, int_eq,
  nat_eq, none, option_eq, pair_eq, put, refl, some, text_eq, ◌++◌, ◌==◌, ◌∙◌, ◌∷◌, ◌≡◌,
}
use hass_dobiss_sx_evolution.ConfigFlow.Flow.{Subentry, SubentryData, module_data, mood_data}
use hass_dobiss_sx_evolution.Setup.Platforms.{module_device}

-- The names of the registry's devices, by their identifiers.
abbrev pub DeviceNames : Type 0
DeviceNames = Dict Text (Option Text)

-- if device is not None and device.name != sub.title: async_update_device(device.id, name=sub.title)
unfoldable pub update_device : Text → Text → DeviceNames → DeviceNames
update_device identifier title devices = elim (get identifier devices) [
  | none ↦ devices
  | some device_name ↦
      if device_name == some title then devices else put identifier (some title) devices
]

abbrev pub sync_device : Text → Text → SubentryData → DeviceNames → DeviceNames
sync_device entry_id title (module_data m) devices =
    update_device (module_device entry_id m.letter) title devices
sync_device entry_id title (mood_data number) devices = devices

-- for sub in updated_entry.subentries.values()
unfoldable pub sync_device_names : Text → List Subentry → DeviceNames → DeviceNames
unfolding update_device
sync_device_names entry_id [] devices = devices
sync_device_names entry_id (sub ∷ subs) devices =
    sync_device_names entry_id subs (sync_device entry_id sub.title sub.data_of devices)

-- The title of the last module with the letter.
abbrev pub own_title : Text → Text → SubentryData → Option Text
own_title l title (module_data m) = if l == m.letter then some title else none
own_title l title (mood_data number) = none

abbrev pub or_else {ℓ} : {A : Type ℓ} → Option A → Option A → Option A
or_else (some a) other = some a
or_else none other = other

abbrev pub title_of : Text → List Subentry → Option Text
title_of l [] = none
title_of l (sub ∷ subs) = or_else (title_of l subs) (own_title l sub.title sub.data_of)

-- A device that is there, with the title if there is one.
abbrev pub named {ℓ} : {A : Type ℓ} → Option A → Option (Option A) → Option (Option A)
named none device = device
named (some t) none = none
named (some t) (some device_name) = some (some t)

==_append : (s a b : Text) → (s ++ a == s ++ b) ≡ (a == b)
==_append [] a b = refl
==_append (c ∷ s) a b = ground (arith, ==_append s a b)

get-update_device :
    (j identifier title : Text) (devices : DeviceNames)
    → get j (update_device identifier title devices)
      ≡ named (if j == identifier then some title else none) (get j devices)
unfolding update_device
get-update_device j identifier title devices = go (get identifier devices) refl
  where
    same : j ≡ identifier → get j devices ≡ get identifier devices
    same e = λ k. get (e k) devices

    go :
        (found : Option (Option Text))
        → get identifier devices ≡ found
        → get j (elim found [
          | none ↦ devices
          | some device_name ↦
              if device_name == some title then devices else put identifier (some title) devices
        ])
          ≡ named (if j == identifier then some title else none) (get j devices)
    go none e = ground (arith, same, ==_iff j identifier)
    go (some device_name) e = ground (
      arith,
      same,
      ==_iff j identifier,
      ==_iff device_name (some title),
      get-put j identifier (some title) devices,
    )

same_device :
    (entry_id l m : Text) → (module_device entry_id l == module_device entry_id m) ≡ (l == m)
same_device entry_id l m = ==_append (entry_id ++ codes "_module_") l m

get-sync_device :
    (entry_id l title : Text) (sub_data : SubentryData) (devices : DeviceNames)
    → get (module_device entry_id l) (sync_device entry_id title sub_data devices)
      ≡ named (own_title l title sub_data) (get (module_device entry_id l) devices)
get-sync_device entry_id l title (mood_data number) devices = refl
get-sync_device entry_id l title (module_data m) devices =
    get-update_device (module_device entry_id l) (module_device entry_id m.letter) title devices
    ∙ λ k.
        named (if same_device entry_id l m.letter k then some title else none)
          (get (module_device entry_id l) devices)

named-or_else :
    (a b : Option Text) (device : Option (Option Text))
    → named a (named b device) ≡ named (or_else a b) device
named-or_else none b device = refl
named-or_else (some t) none device = refl
named-or_else (some t) (some u) none = refl
named-or_else (some t) (some u) (some device_name) = refl

-- The device of a letter, if it is there, has the title of the last module with that letter after the
-- listener has gone over the subentries; with no such module it keeps its name, and no device is added.
pub get-sync_device_names :
    (entry_id l : Text) (subs : List Subentry) (devices : DeviceNames)
    → get (module_device entry_id l) (sync_device_names entry_id subs devices)
      ≡ named (title_of l subs) (get (module_device entry_id l) devices)
unfolding sync_device_names
get-sync_device_names entry_id l [] devices = refl
get-sync_device_names entry_id l (sub ∷ subs) devices =
    get-sync_device_names entry_id l subs (sync_device entry_id sub.title sub.data_of devices)
    ∙ rw (get-sync_device entry_id l sub.title sub.data_of devices)
        (named-or_else (title_of l subs) (own_title l sub.title sub.data_of) _)
