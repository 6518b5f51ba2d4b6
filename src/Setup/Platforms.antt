-- ===== src/Setup/Platforms.antt =====
-- light.py, switch.py, cover.py, `async_setup_entry`: the entities that the platforms create for the
-- module subentries; __init__.py, `async_setup_entry`: the devices that they belong to.
use hass_dobiss_sx_evolution.Prelude.{
  Bool, List, Text, [], bool_eq, codes, option_eq, str_int, ℤ, ◌++◌, ◌∷◌,
}
use hass_dobiss_sx_evolution.ConfigFlow.Flow.{Subentry, SubentryData, module_data, mood_data}
use hass_dobiss_sx_evolution.ConfigFlow.Outputs.{Outputs, light, shutter, switch}
use hass_dobiss_sx_evolution.ConfigFlow.Subentries.{or_text}
use hass_dobiss_sx_evolution.ConfigFlow.Subentries.Unique.{created}
use hass_dobiss_sx_evolution.Controller.State.{OutputKey}

pub data EntityKind : Type 0 where
  -- whether it dims
  light_entity : Bool → EntityKind
  switch_entity : EntityKind
  -- the down output
  cover_entity : ℤ → EntityKind

-- An entity as a platform creates it: what its constructor is given, and the unique id that it takes.
pub record Created : Type 0 where
  pub kind : EntityKind
  pub entity_key : OutputKey
  pub entity_name : Text
  pub created_id : Text

-- f"{module}{output}"
abbrev pub output_label : Text → ℤ → Text
output_label module_name output = module_name ++ str_int output

abbrev pub new_light : Text → Text → Bool → ℤ → Text → Created
new_light subentry_id module_name dim output name = record {
  kind = light_entity dim;
  entity_key = (module_name, output);
  entity_name = or_text name (output_label module_name output);
  created_id = subentry_id ++ (codes "-light_" ++ str_int output);
}

abbrev pub new_switch : Text → Text → ℤ → Text → Created
new_switch subentry_id module_name output name = record {
  kind = switch_entity;
  entity_key = (module_name, output);
  entity_name = or_text name (output_label module_name output);
  created_id = subentry_id ++ (codes "-switch_" ++ str_int output);
}

abbrev pub new_cover : Text → Text → ℤ → ℤ → Text → Created
new_cover subentry_id module_name up_output down_output name = record {
  kind = cover_entity down_output;
  entity_key = (module_name, up_output);
  entity_name = or_text name (codes "Shutter " ++ output_label module_name up_output);
  created_id = subentry_id ++ (codes "-cover_" ++ str_int up_output);
}

-- for output_str, cfg in subentry.data.get("outputs", {}).items(), in each platform
unfoldable pub light_entities : Text → Text → Bool → Outputs → List Created
light_entities id module_name dim [] = []
light_entities id module_name dim ((output, light name) ∷ outputs) =
    new_light id module_name dim output name ∷ light_entities id module_name dim outputs
light_entities id module_name dim ((output, cfg) ∷ outputs) =
    light_entities id module_name dim outputs

unfoldable pub switch_entities : Text → Text → Outputs → List Created
switch_entities id module_name [] = []
switch_entities id module_name ((output, switch name) ∷ outputs) =
    new_switch id module_name output name ∷ switch_entities id module_name outputs
switch_entities id module_name ((output, cfg) ∷ outputs) = switch_entities id module_name outputs

unfoldable pub cover_entities : Text → Text → Outputs → List Created
cover_entities id module_name [] = []
cover_entities id module_name ((output, shutter down_output name) ∷ outputs) =
    new_cover id module_name output down_output name ∷ cover_entities id module_name outputs
cover_entities id module_name ((output, cfg) ∷ outputs) = cover_entities id module_name outputs

abbrev pub lights_of : Text → SubentryData → List Created
lights_of id (module_data sub_data) =
    light_entities id sub_data.letter sub_data.dimmable_module sub_data.outputs
lights_of id (mood_data number) = []

abbrev pub switches_of : Text → SubentryData → List Created
switches_of id (module_data sub_data) = switch_entities id sub_data.letter sub_data.outputs
switches_of id (mood_data number) = []

abbrev pub covers_of : Text → SubentryData → List Created
covers_of id (module_data sub_data) = cover_entities id sub_data.letter sub_data.outputs
covers_of id (mood_data number) = []

-- light.py, `async_setup_entry`: what `async_add_entities` is given, in order
unfoldable pub setup_lights : List Subentry → List Created
unfolding light_entities
setup_lights [] = []
setup_lights (sub ∷ subs) = lights_of sub.subentry_id sub.data_of ++ setup_lights subs

-- switch.py, `async_setup_entry`
unfoldable pub setup_switches : List Subentry → List Created
unfolding switch_entities
setup_switches [] = []
setup_switches (sub ∷ subs) = switches_of sub.subentry_id sub.data_of ++ setup_switches subs

-- cover.py, `async_setup_entry`
unfoldable pub setup_covers : List Subentry → List Created
unfolding cover_entities
setup_covers [] = []
setup_covers (sub ∷ subs) = covers_of sub.subentry_id sub.data_of ++ setup_covers subs

-- The identifiers of the devices, without the domain: the hub's, and those of the modules.
abbrev pub module_device : Text → Text → Text
module_device entry_id module_name = entry_id ++ codes "_module_" ++ module_name

abbrev pub devices_of : Text → SubentryData → List Text
devices_of entry_id (module_data sub_data) = module_device entry_id sub_data.letter ∷ []
devices_of entry_id (mood_data number) = []

unfoldable pub module_devices : Text → List Subentry → List Text
module_devices entry_id [] = []
module_devices entry_id (sub ∷ subs) =
    devices_of entry_id sub.data_of ++ module_devices entry_id subs

-- The devices that `async_setup_entry` of __init__.py registers.
unfoldable pub registered_devices : Text → List Subentry → List Text
unfolding module_devices
registered_devices entry_id subs = entry_id ∷ module_devices entry_id subs

-- entity.py: the device of an entity
abbrev pub device_of : Text → Created → Text
device_of entry_id created = module_device entry_id created.entity_key.0
