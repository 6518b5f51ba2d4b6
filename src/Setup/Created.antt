-- ===== src/Setup/Created.antt =====
-- __init__.py and the platforms: `_expected_unique_ids` mirrors what the platforms create.
use hass_dobiss_sx_evolution.Prelude.{
  Bool, List, Text, [], arith, bool_eq, contains, contains-add, contains-append, int_eq, nat_eq,
  option_eq, pair_eq, refl, text_eq, ◌++◌, ◌||◌, ◌∷◌, ◌≡◌,
}
use hass_dobiss_sx_evolution.ConfigFlow.Flow.{Subentry, SubentryData, module_data, mood_data}
use hass_dobiss_sx_evolution.ConfigFlow.Outputs.{Outputs, light, shutter, switch}
use hass_dobiss_sx_evolution.ConfigFlow.Subentries.Unique.{created}
use hass_dobiss_sx_evolution.Setup.{all_expected, expected_unique_ids, output_ids, unique_id_of}
use hass_dobiss_sx_evolution.Setup.Platforms.{
  Created, cover_entities, covers_of, light_entities, lights_of, setup_covers, setup_lights,
  setup_switches, switch_entities, switches_of,
}

abbrev pub ids_of : List Created → List Text
ids_of [] = []
ids_of (c ∷ created) = c.created_id ∷ ids_of created

-- What the three platforms create.
abbrev pub created_by_platforms : List Subentry → List Created
created_by_platforms subs = setup_lights subs ++ setup_switches subs ++ setup_covers subs

contains-ids_append :
    (id : Text) (xs ys : List Created)
    → contains id (ids_of (xs ++ ys)) ≡ (contains id (ids_of xs) || contains id (ids_of ys))
contains-ids_append id [] ys = refl
contains-ids_append id (x ∷ xs) ys = ground (arith, contains-ids_append id xs ys)

module_ids :
    (id subentry_id module_name : Text) (dim : Bool) (outputs : Outputs)
    → contains id (output_ids subentry_id outputs) ≡ (
        contains id (ids_of (light_entities subentry_id module_name dim outputs))
        || contains id (ids_of (switch_entities subentry_id module_name outputs))
        || contains id (ids_of (cover_entities subentry_id module_name outputs)))
unfolding output_ids light_entities switch_entities cover_entities
module_ids id subentry_id module_name dim [] = refl
module_ids id subentry_id module_name dim ((output, light name) ∷ outputs) = ground (
  arith,
  module_ids id subentry_id module_name dim outputs,
  contains-add id (unique_id_of subentry_id output (light name)) (output_ids subentry_id outputs),
)
module_ids id subentry_id module_name dim ((output, switch name) ∷ outputs) = ground (
  arith,
  module_ids id subentry_id module_name dim outputs,
  contains-add id (unique_id_of subentry_id output (switch name)) (output_ids subentry_id outputs),
)
module_ids id subentry_id module_name dim ((output, shutter down_output name) ∷ outputs) = ground (
  arith,
  module_ids id subentry_id module_name dim outputs,
  contains-add id (unique_id_of subentry_id output (shutter down_output name))
      (output_ids subentry_id outputs),
)

subentry_ids :
    (id subentry_id : Text) (sub_data : SubentryData)
    → contains id (expected_unique_ids subentry_id sub_data) ≡ (
        contains id (ids_of (lights_of subentry_id sub_data))
        || contains id (ids_of (switches_of subentry_id sub_data))
        || contains id (ids_of (covers_of subentry_id sub_data)))
unfolding expected_unique_ids
subentry_ids id subentry_id (module_data d) =
    module_ids id subentry_id d.letter d.dimmable_module d.outputs
subentry_ids id subentry_id (mood_data number) = refl

platform_ids :
    (id : Text) (subs : List Subentry)
    → contains id (all_expected subs) ≡ (
        contains id (ids_of (setup_lights subs))
        || contains id (ids_of (setup_switches subs))
        || contains id (ids_of (setup_covers subs)))
unfolding all_expected setup_lights setup_switches setup_covers
platform_ids id [] = refl
platform_ids id (sub ∷ subs) = ground (
  arith,
  platform_ids id subs,
  subentry_ids id sub.subentry_id sub.data_of,
  contains-append id (expected_unique_ids sub.subentry_id sub.data_of) (all_expected subs),
  contains-ids_append id (lights_of sub.subentry_id sub.data_of) (setup_lights subs),
  contains-ids_append id (switches_of sub.subentry_id sub.data_of) (setup_switches subs),
  contains-ids_append id (covers_of sub.subentry_id sub.data_of) (setup_covers subs),
)

-- For the subentries of any entry, the unique ids that the pruning expects are exactly those of the
-- entities that the light, switch and cover platforms create.
pub all_expected-created :
    (id : Text) (subs : List Subentry)
    → contains id (all_expected subs) ≡ contains id (ids_of (created_by_platforms subs))
all_expected-created id subs = ground (
  arith,
  platform_ids id subs,
  contains-ids_append id (setup_lights subs ++ setup_switches subs) (setup_covers subs),
  contains-ids_append id (setup_lights subs) (setup_switches subs),
)
