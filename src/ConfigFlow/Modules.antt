-- ===== src/ConfigFlow/Modules.antt =====
-- config_flow.py: the steps of `ModuleSubentryFlowHandler` that change the outputs. A step is given
-- the subentry's title and data as they are when it runs, and the user's input when there is one.
pub mod Adds
pub mod Edits
pub mod Accepts
pub mod Stale
pub mod Releases
pub mod Keeps
use hass_dobiss_sx_evolution.Prelude.{
  Bool, List, Option, Text, [], contains, false, get, has_key, if◌then◌else◌, int_eq, keep, ltb_ℤ,
  nat_eq, none, not, pair_eq, pop, pos, put, some, strip, text_eq, true, ℤ, ◌==◌, ◌||◌, ◌∷◌,
}
use hass_dobiss_sx_evolution.ConfigFlow.Flow.{
  FlowResult, ModuleData, abort, duplicate_output, field_base, field_down_output, field_output,
  field_up_output, invalid_output, module_data, no_outputs_to_edit, no_outputs_to_remove,
  same_output, show_form, step_add_light, step_add_shutter, step_add_switch, step_edit_output,
  step_edit_output_down, step_edit_output_type, step_remove_output, update_and_abort,
}
use hass_dobiss_sx_evolution.ConfigFlow.Outputs.{
  OutputConfig, Outputs, light, name_of, occupied_outputs, shutter, switch,
}
use hass_dobiss_sx_evolution.Protocol.Frame.{outputs_per_module}

abbrev pub out_of_range : ℤ → Bool
out_of_range n = ltb_ℤ n (pos 1) || ltb_ℤ (pos outputs_per_module) n

-- user_input.get(CONF_NAME, "").strip()
abbrev pub entered_name : Option Text → Text
entered_name none = []
entered_name (some name) = strip name

abbrev pub save : Text → ModuleData → Outputs → FlowResult
save title sub_data outputs =
    update_and_abort (module_data (record sub_data { outputs = outputs })) title none

pub record OutputInput : Type 0 where
  pub output : ℤ
  pub output_name : Option Text

-- `async_step_add_light`
unfoldable pub add_light : Text → ModuleData → Option OutputInput → FlowResult
add_light title sub_data none = show_form step_add_light none
add_light title sub_data (some user_input) =
    if out_of_range user_input.output
    then show_form step_add_light (some (field_output, invalid_output))
    else if contains user_input.output (occupied_outputs sub_data.outputs)
    then show_form step_add_light (some (field_output, duplicate_output))
    else save title sub_data
        (put user_input.output (light (entered_name user_input.output_name)) sub_data.outputs)

pub record ShutterInput : Type 0 where
  pub up_input : ℤ
  pub down_input : ℤ
  pub shutter_name : Option Text

-- `async_step_add_shutter`
unfoldable pub add_shutter : Text → ModuleData → Option ShutterInput → FlowResult
add_shutter title sub_data none = show_form step_add_shutter none
add_shutter title sub_data (some user_input) =
    if out_of_range user_input.up_input
    then show_form step_add_shutter (some (field_up_output, invalid_output))
    else if out_of_range user_input.down_input
    then show_form step_add_shutter (some (field_down_output, invalid_output))
    else if user_input.up_input == user_input.down_input
    then show_form step_add_shutter (some (field_base, same_output))
    else if contains user_input.up_input (occupied_outputs sub_data.outputs)
    then show_form step_add_shutter (some (field_up_output, duplicate_output))
    else if contains user_input.down_input (occupied_outputs sub_data.outputs)
    then show_form step_add_shutter (some (field_down_output, duplicate_output))
    else save title sub_data (
        put user_input.up_input
          (shutter user_input.down_input (entered_name user_input.shutter_name)) sub_data.outputs)

-- `async_step_add_switch`
unfoldable pub add_switch : Text → ModuleData → Option OutputInput → FlowResult
add_switch title sub_data none = show_form step_add_switch none
add_switch title sub_data (some user_input) =
    if out_of_range user_input.output
    then show_form step_add_switch (some (field_output, invalid_output))
    else if contains user_input.output (occupied_outputs sub_data.outputs)
    then show_form step_add_switch (some (field_output, duplicate_output))
    else save title sub_data
        (put user_input.output (switch (entered_name user_input.output_name)) sub_data.outputs)

abbrev pub is_empty : Outputs → Bool
is_empty [] = true
is_empty (_ ∷ _) = false

-- `async_step_remove_output`
unfoldable pub remove_output : Text → ModuleData → Option ℤ → FlowResult
remove_output title sub_data user_input =
    if is_empty sub_data.outputs then abort no_outputs_to_remove else elim user_input [
      | none ↦ show_form step_remove_output none
      | some chosen ↦
          if has_key chosen sub_data.outputs
          then save title sub_data (pop chosen sub_data.outputs)
          else show_form step_remove_output (some (field_output, invalid_output))
    ]

pub data OutputType : Type 0 where
  type_light type_switch type_shutter : OutputType

-- set(xs) - set(ys)
abbrev pub difference : List ℤ → List ℤ → List ℤ
difference xs ys = keep (λ x. not (contains x ys)) xs

-- {up_output}, and the current down output of a shutter
abbrev pub own_claims : ℤ → Option OutputConfig → List ℤ
own_claims key none = key ∷ []
own_claims key (some (light name)) = key ∷ []
own_claims key (some (switch name)) = key ∷ []
own_claims key (some (shutter down_output name)) = key ∷ down_output ∷ []

-- current_cfg.get("name", ""), where current_cfg = outputs.get(output_key, {})
abbrev pub current_name : Option OutputConfig → Text
current_name none = []
current_name (some cfg) = name_of cfg

-- `async_step_edit_output_down`, given `_edit_output_key`
unfoldable pub edit_output_down : Option ℤ → Text → ModuleData → Option ℤ → FlowResult
edit_output_down none title sub_data user_input = abort no_outputs_to_edit
edit_output_down (some key) title sub_data none = show_form step_edit_output_down none
edit_output_down (some key) title sub_data (some down_output) =
    if out_of_range down_output
    then show_form step_edit_output_down (some (field_down_output, invalid_output))
    else if down_output == key
    then show_form step_edit_output_down (some (field_base, same_output))
    else if contains down_output
        (difference (occupied_outputs sub_data.outputs) (own_claims key (get key sub_data.outputs)))
    then show_form step_edit_output_down (some (field_down_output, duplicate_output))
    else save title sub_data
        (put key (shutter down_output (current_name (get key sub_data.outputs))) sub_data.outputs)

-- `async_step_edit_output_type`, given `_edit_output_key`
unfoldable pub edit_output_type : Option ℤ → Text → ModuleData → Option OutputType → FlowResult
unfolding edit_output_down
edit_output_type none title sub_data user_input = abort no_outputs_to_edit
edit_output_type (some key) title sub_data none = show_form step_edit_output_type none
edit_output_type (some key) title sub_data (some type_shutter) =
    edit_output_down (some key) title sub_data none
edit_output_type (some key) title sub_data (some type_light) =
    save title sub_data (put key (light (current_name (get key sub_data.outputs))) sub_data.outputs)
edit_output_type (some key) title sub_data (some type_switch) =
    save title sub_data
      (put key (switch (current_name (get key sub_data.outputs))) sub_data.outputs)

-- `async_step_edit_output`: the answer, and `_edit_output_key` after it
unfoldable pub edit_output : Option ℤ → Text → ModuleData → Option ℤ → FlowResult × Option ℤ
unfolding edit_output_type
edit_output edit_key title sub_data user_input =
    if is_empty sub_data.outputs then (abort no_outputs_to_edit, edit_key) else elim user_input [
      | none ↦ (show_form step_edit_output none, edit_key)
      | some chosen ↦
          if has_key chosen sub_data.outputs
          then (edit_output_type (some chosen) title sub_data none, some chosen)
          else (abort no_outputs_to_edit, edit_key)
    ]
