-- ===== src/ConfigFlow/Subentries.antt =====
-- config_flow.py: the steps that create and rename the subentries of modules and moods. `subentries`
-- is `entry.subentries.values()` when the step runs; the data and the title of the subentry that is
-- reconfigured stand beside its id.
pub mod Unique
use hass_dobiss_sx_evolution.Prelude.{
  Bool, List, Option, Text, [], codes, contains, if◌then◌else◌, int_eq, is_ascii_alpha, keep, leb_ℤ,
  nat_eq, none, not, pair_eq, pos, some, str_int, strip, text_eq, ℤ, ◌&&◌, ◌++◌, ◌==◌, ◌∷◌,
}
use hass_dobiss_sx_evolution.ConfigFlow.Flow.{
  FlowResult, FormError, ModuleData, Subentry, SubentryData, create_entry, field_module,
  field_mood_number, invalid_module, module_already_exists, module_data, mood_already_exists,
  mood_data, mood_number_out_of_range, show_form, show_menu, step_add_light, step_add_shutter,
  step_add_switch, step_edit_module, step_edit_output, step_reconfigure, step_remove_output,
  step_user, update_and_abort,
}
use hass_dobiss_sx_evolution.ConfigFlow.Modules.{entered_name, is_empty}

-- `_validate_module`
unfoldable pub validate_module : Text → Option FormError
validate_module [] = some invalid_module
validate_module (c ∷ []) = if is_ascii_alpha c then none else some invalid_module
validate_module (c ∷ d ∷ s) = some invalid_module

abbrev pub letters_of : SubentryData → List Text
letters_of (module_data sub_data) = sub_data.letter ∷ []
letters_of (mood_data number) = []

abbrev pub moods_of : SubentryData → List ℤ
moods_of (module_data sub_data) = []
moods_of (mood_data number) = number ∷ []

-- {sub.data[CONF_MODULE] … if sub.subentry_type == SUBENTRY_TYPE_MODULE}, as a list
abbrev pub existing_letters : List Subentry → List Text
existing_letters [] = []
existing_letters (sub ∷ subs) = letters_of sub.data_of ++ existing_letters subs

-- {sub.data[CONF_MOOD_NUMBER] … if sub.subentry_type == SUBENTRY_TYPE_MOOD}, as a list
abbrev pub existing_moods : List Subentry → List ℤ
existing_moods [] = []
existing_moods (sub ∷ subs) = moods_of sub.data_of ++ existing_moods subs

-- name or default
abbrev pub or_text : Text → Text → Text
or_text [] default_title = default_title
or_text (c ∷ s) default_title = c ∷ s

pub record ModuleInput : Type 0 where
  pub letter_input : Text
  pub module_name : Option Text
  pub dimmable_input : Bool

-- `upper` is `str.upper`.
module _ (upper : Text → Text) where
  -- `ModuleSubentryFlowHandler.async_step_user`
  unfoldable pub add_module : List Subentry → Option ModuleInput → FlowResult
  add_module subentries none = show_form step_user none
  add_module subentries (some user_input) =
      let letter = upper (strip user_input.letter_input) in
      elim (validate_module letter) [
        | some error ↦ show_form step_user (some (field_module, error))
        | none ↦
            if contains letter (existing_letters subentries)
            then show_form step_user (some (field_module, module_already_exists))
            else create_entry
                (module_data (record {
                  letter = letter;
                  dimmable_module = user_input.dimmable_input;
                  outputs = [];
                }))
                (or_text (entered_name user_input.module_name) (codes "Module " ++ letter))
                (codes "module:" ++ letter)
      ]

  -- `async_step_edit_module`
  unfoldable pub edit_module : List Subentry → Text → ModuleData → Option ModuleInput → FlowResult
  edit_module subentries subentry_id sub_data none = show_form step_edit_module none
  edit_module subentries subentry_id sub_data (some user_input) =
      let letter = upper (strip user_input.letter_input) in
      elim (validate_module letter) [
        | some error ↦ show_form step_edit_module (some (field_module, error))
        | none ↦
            if contains letter
              (existing_letters (keep (λ sub. not (sub.subentry_id == subentry_id)) subentries))
            then show_form step_edit_module (some (field_module, module_already_exists))
            else update_and_abort
                (module_data (record sub_data {
                  letter = letter;
                  dimmable_module = user_input.dimmable_input;
                }))
                (or_text (entered_name user_input.module_name) (codes "Module " ++ letter))
                (some (codes "module:" ++ letter))
      ]

pub record MoodInput : Type 0 where
  pub number_input : ℤ
  pub mood_name : Option Text

-- `MoodSubentryFlowHandler.async_step_user`
unfoldable pub add_mood : List Subentry → Option MoodInput → FlowResult
add_mood subentries none = show_form step_user none
add_mood subentries (some user_input) =
    if not (leb_ℤ (pos 0) user_input.number_input && leb_ℤ user_input.number_input (pos 99))
    then show_form step_user (some (field_mood_number, mood_number_out_of_range))
    else if contains user_input.number_input (existing_moods subentries)
    then show_form step_user (some (field_mood_number, mood_already_exists))
    else create_entry (mood_data user_input.number_input)
        (or_text (entered_name user_input.mood_name)
          (codes "Mood " ++ str_int user_input.number_input))
        (codes "mood:" ++ str_int user_input.number_input)

-- `MoodSubentryFlowHandler.async_step_reconfigure`
unfoldable pub rename_mood : ℤ → Option (Option Text) → FlowResult
rename_mood number none = show_form step_reconfigure none
rename_mood number (some name) =
    update_and_abort (mood_data number)
      (or_text (entered_name name) (codes "Mood " ++ str_int number)) none

-- `ModuleSubentryFlowHandler.async_step_reconfigure`
unfoldable pub reconfigure_module : ModuleData → FlowResult
reconfigure_module sub_data =
    if is_empty sub_data.outputs
    then show_menu (step_add_light ∷ step_add_shutter ∷ step_add_switch ∷ step_edit_module ∷ [])
    else show_menu (
        step_add_light ∷ step_add_shutter ∷ step_add_switch ∷ step_edit_output ∷ step_remove_output
        ∷ step_edit_module ∷ [])
