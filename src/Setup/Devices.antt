-- ===== src/Setup/Devices.antt =====
-- __init__.py: every entity of the platforms has a device that the setup registers, and which devices
-- may be removed.
use hass_dobiss_sx_evolution.Prelude.{
  ==_refl, Bool, List, Text, [], arith, bool_eq, codes, contains, contains-append, int_eq, nat_eq,
  not, option_eq, pair_eq, refl, text_eq, true, ◌++◌, ◌∷◌, ◌≡◌,
}
use hass_dobiss_sx_evolution.ConfigFlow.Flow.{
  ModuleData, Subentry, SubentryData, module_data, mood_data,
}
use hass_dobiss_sx_evolution.ConfigFlow.Outputs.{Outputs, light, shutter, switch}
use hass_dobiss_sx_evolution.ConfigFlow.Subentries.Unique.{created}
use hass_dobiss_sx_evolution.Setup.Created.{created_by_platforms}
use hass_dobiss_sx_evolution.Setup.Platforms.{
  Created, cover_entities, covers_of, device_of, devices_of, light_entities, lights_of,
  module_device, module_devices, registered_devices, setup_covers, setup_lights, setup_switches,
  switch_entities, switches_of,
}

-- `async_remove_config_entry_device`, by the device's identifiers, each a domain and an id
unfoldable pub remove_config_entry_device : Text → List (Text × Text) → Bool
remove_config_entry_device entry_id identifiers =
    not (contains (codes "dobiss_sx_evolution", entry_id) identifiers)

-- Created entities whose device is among the identifiers.
abbrev pub HaveDevices : Text → List Text → List Created → Type 0
HaveDevices entry_id devices [] = Unit
HaveDevices entry_id devices (c ∷ created) =
    (contains (device_of entry_id c) devices ≡ true) × HaveDevices entry_id devices created

HaveDevices-append :
    (entry_id : Text) (devices : List Text) (xs ys : List Created)
    → HaveDevices entry_id devices xs
    → HaveDevices entry_id devices ys
    → HaveDevices entry_id devices (xs ++ ys)
HaveDevices-append entry_id devices [] ys hx hy = hy
HaveDevices-append entry_id devices (x ∷ xs) ys hx hy =
    (hx.0, HaveDevices-append entry_id devices xs ys hx.1 hy)

module _ (entry_id : Text) (devices : List Text) where
  lights-HaveDevices :
      (id module_name : Text) (dim : Bool) (outputs : Outputs)
      → contains (module_device entry_id module_name) devices ≡ true
      → HaveDevices entry_id devices (light_entities id module_name dim outputs)
  unfolding light_entities
  lights-HaveDevices id module_name dim [] h = tt
  lights-HaveDevices id module_name dim ((output, light name) ∷ outputs) h =
      (h, lights-HaveDevices id module_name dim outputs h)
  lights-HaveDevices id module_name dim ((output, switch name) ∷ outputs) h =
      lights-HaveDevices id module_name dim outputs h
  lights-HaveDevices id module_name dim ((output, shutter down_output name) ∷ outputs) h =
      lights-HaveDevices id module_name dim outputs h

  switches-HaveDevices :
      (id module_name : Text) (outputs : Outputs)
      → contains (module_device entry_id module_name) devices ≡ true
      → HaveDevices entry_id devices (switch_entities id module_name outputs)
  unfolding switch_entities
  switches-HaveDevices id module_name [] h = tt
  switches-HaveDevices id module_name ((output, switch name) ∷ outputs) h =
      (h, switches-HaveDevices id module_name outputs h)
  switches-HaveDevices id module_name ((output, light name) ∷ outputs) h =
      switches-HaveDevices id module_name outputs h
  switches-HaveDevices id module_name ((output, shutter down_output name) ∷ outputs) h =
      switches-HaveDevices id module_name outputs h

  covers-HaveDevices :
      (id module_name : Text) (outputs : Outputs)
      → contains (module_device entry_id module_name) devices ≡ true
      → HaveDevices entry_id devices (cover_entities id module_name outputs)
  unfolding cover_entities
  covers-HaveDevices id module_name [] h = tt
  covers-HaveDevices id module_name ((output, shutter down_output name) ∷ outputs) h =
      (h, covers-HaveDevices id module_name outputs h)
  covers-HaveDevices id module_name ((output, light name) ∷ outputs) h =
      covers-HaveDevices id module_name outputs h
  covers-HaveDevices id module_name ((output, switch name) ∷ outputs) h =
      covers-HaveDevices id module_name outputs h

-- The devices hold those of the modules among the subentries.
abbrev pub Covers : Text → List Text → List Subentry → Type 0
Covers entry_id devices subs =
    (d : Text) → contains d (module_devices entry_id subs) ≡ true → contains d devices ≡ true

Covers-tail :
    (entry_id : Text) (devices : List Text) (sub : Subentry) (subs : List Subentry)
    → Covers entry_id devices (sub ∷ subs)
    → Covers entry_id devices subs
unfolding module_devices
Covers-tail entry_id devices sub subs h d e = h d (
    rw (contains-append d (devices_of entry_id sub.data_of) (module_devices entry_id subs))
      (rw e (ground arith)))

data_covered :
    (entry_id : Text) (devices : List Text) (sub_data : ModuleData) (rest : List Text)
    → ((d : Text)
        → contains d (devices_of entry_id (module_data sub_data) ++ rest) ≡ true
        → contains d devices ≡ true)
    → contains (module_device entry_id sub_data.letter) devices ≡ true
data_covered entry_id devices sub_data rest h =
    h (module_device entry_id sub_data.letter)
      (rw (==_refl (module_device entry_id sub_data.letter)) refl)

module _ (entry_id : Text) (devices : List Text) where
  sub_lights :
      (id : Text) (sub_data : SubentryData) (rest : List Text)
      → ((d : Text)
          → contains d (devices_of entry_id sub_data ++ rest) ≡ true
          → contains d devices ≡ true)
      → HaveDevices entry_id devices (lights_of id sub_data)
        × HaveDevices entry_id devices (switches_of id sub_data)
        × HaveDevices entry_id devices (covers_of id sub_data)
  sub_lights id (mood_data number) rest h = (tt, tt, tt)
  sub_lights id (module_data m) rest h =
      let covered : contains (module_device entry_id m.letter) devices ≡ true =
        data_covered entry_id devices m rest h in
      (
        lights-HaveDevices entry_id devices id m.letter m.dimmable_module m.outputs covered,
        switches-HaveDevices entry_id devices id m.letter m.outputs covered,
        covers-HaveDevices entry_id devices id m.letter m.outputs covered,
      )

  platforms-HaveDevices :
      (subs : List Subentry)
      → Covers entry_id devices subs
      → HaveDevices entry_id devices (setup_lights subs)
        × HaveDevices entry_id devices (setup_switches subs)
        × HaveDevices entry_id devices (setup_covers subs)
  unfolding setup_lights setup_switches setup_covers module_devices
  platforms-HaveDevices [] h = (tt, tt, tt)
  platforms-HaveDevices (sub ∷ subs) h =
      let rest = platforms-HaveDevices subs (Covers-tail entry_id devices sub subs h) in
      let first = sub_lights sub.subentry_id sub.data_of (module_devices entry_id subs) h in
      (
        HaveDevices-append entry_id devices (lights_of sub.subentry_id sub.data_of)
            (setup_lights subs) first.0 rest.0,
        HaveDevices-append entry_id devices (switches_of sub.subentry_id sub.data_of)
            (setup_switches subs) first.1 rest.1,
        HaveDevices-append entry_id devices (covers_of sub.subentry_id sub.data_of)
            (setup_covers subs) first.2 rest.2,
      )

-- Every light, switch and cover that the platforms create belongs to a device that the setup of the
-- entry has registered.
pub created-HaveDevices :
    (entry_id : Text) (subs : List Subentry)
    → HaveDevices entry_id (registered_devices entry_id subs) (created_by_platforms subs)
unfolding registered_devices
created-HaveDevices entry_id subs =
    let all =
      platforms-HaveDevices entry_id (registered_devices entry_id subs) subs
        (λ d e. rw e (ground arith)) in
    HaveDevices-append entry_id (registered_devices entry_id subs)
      (setup_lights subs ++ setup_switches subs) (setup_covers subs)
      (HaveDevices-append entry_id (registered_devices entry_id subs) (setup_lights subs)
        (setup_switches subs) all.0 all.1)
      all.2
