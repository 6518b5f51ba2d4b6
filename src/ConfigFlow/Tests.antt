-- ===== src/ConfigFlow/Tests.antt =====
-- Runs of the subentry flows' theorems at concrete inputs: a module with the light 1 and the shutter
-- 2 and 3.
use hass_dobiss_sx_evolution.Prelude.{
  List, [], arith, ascii_upper, bool_eq, codes, false, int_eq, map, nat_eq, none, option_eq,
  pair_eq, pos, refl, some, text_eq, true, ℕ, ◌∷◌, ◌≤◌,
}
use hass_dobiss_sx_evolution.ConfigFlow.Flow.{ModuleData, Subentry, module_data, mood_data}
use hass_dobiss_sx_evolution.ConfigFlow.Modules.{ShutterInput, edit_output_type, type_light}
use hass_dobiss_sx_evolution.ConfigFlow.Modules.Accepts.{ShutterFits, outputs_after}
use hass_dobiss_sx_evolution.ConfigFlow.Modules.Adds.{SavesValid}
use hass_dobiss_sx_evolution.ConfigFlow.Modules.Keeps.{down_edited, take_step, take_step-IsValid}
use hass_dobiss_sx_evolution.ConfigFlow.Modules.Stale.{edit_output_type_stale}
use hass_dobiss_sx_evolution.ConfigFlow.Outputs.{Outputs, light, occupied_outputs, shutter}
use hass_dobiss_sx_evolution.ConfigFlow.Outputs.Claims.{InRange, IsValid}
use hass_dobiss_sx_evolution.ConfigFlow.Subentries.{
  ModuleInput, MoodInput, add_module, add_mood, validate_module,
}
use hass_dobiss_sx_evolution.ConfigFlow.Subentries.Unique.{IsUnique, created, created-IsUnique}

abbrev some_outputs : Outputs
some_outputs = (pos 1, light []) ∷ (pos 2, shutter (pos 3) []) ∷ []

abbrev some_data : ModuleData
some_data = record { letter = b'A' ∷ []; dimmable_module = true; outputs = some_outputs }

in_range : (n : ℕ) → 1 ≤ n → n ≤ 12 → InRange (pos n)
in_range n low high = (omega arith, omega arith)

some_outputs-IsValid : IsValid some_outputs
unfolding occupied_outputs
some_outputs-IsValid = (
  (in_range 1 (omega arith) (omega arith), tt),
  (refl, tt),
  (refl, tt),
  (
    (in_range 2 (omega arith) (omega arith), (in_range 3 (omega arith) (omega arith), tt)),
    (refl, (refl, tt)),
    (refl, (refl, tt)),
    tt,
  ),
)

take_step-IsValid_example :
    SavesValid (take_step [] some_data (down_edited (some (pos 1)) (some (pos 4))))
take_step-IsValid_example =
    take_step-IsValid [] some_data (down_edited (some (pos 1)) (some (pos 4))) some_outputs-IsValid
      refl

abbrev a_shutter_input : ShutterInput
a_shutter_input = record { up_input = pos 5; down_input = pos 6; shutter_name = none }

a_shutter_input-Fits : ShutterFits a_shutter_input some_outputs
unfolding occupied_outputs
a_shutter_input-Fits = (
  in_range 5 (omega arith) (omega arith),
  in_range 6 (omega arith) (omega arith),
  refl,
  refl,
  refl,
)

edit_output_type_stale_example :
    ¬ IsValid
      (outputs_after (edit_output_type (some (pos 3)) [] some_data (some type_light)) some_outputs)
unfolding occupied_outputs
edit_output_type_stale_example = edit_output_type_stale [] some_data (pos 3) refl refl

abbrev some_subentries : List Subentry
some_subentries =
    (record { subentry_id = codes "s1"; title = []; data_of = module_data some_data })
    ∷ (record { subentry_id = codes "s2"; title = []; data_of = mood_data (pos 7) })
    ∷ []

some_subentries-IsUnique : IsUnique some_subentries
unfolding validate_module
some_subentries-IsUnique = ((refl, tt), (refl, tt), (refl, tt), ((omega arith, omega arith), tt))

abbrev a_module_input : ModuleInput
a_module_input = record { letter_input = b'B' ∷ []; module_name = none; dimmable_input = false }

abbrev a_mood_input : MoodInput
a_mood_input = record { number_input = pos 8; mood_name = none }

created-IsUnique_example :
    IsUnique (
      created
        (codes "s3")
        (add_module (map ascii_upper) some_subentries (some a_module_input))
        some_subentries)
    × IsUnique (created (codes "s3") (add_mood some_subentries (some a_mood_input)) some_subentries)
created-IsUnique_example =
    created-IsUnique (map ascii_upper) (codes "s3") some_subentries (some a_module_input)
      (some a_mood_input) some_subentries-IsUnique
