-- ===== src/ConfigFlow/Modules/Keeps.antt =====
-- config_flow.py: every step of the module flow that saves outputs keeps the claims valid.
use hass_dobiss_sx_evolution.Prelude.{
  Option, Text, has_key, int_eq, nat_eq, none, pair_eq, some, text_eq, true, ℤ, ◌≡◌,
}
use hass_dobiss_sx_evolution.ConfigFlow.Flow.{FlowResult, ModuleData}
use hass_dobiss_sx_evolution.ConfigFlow.Modules.{
  OutputInput, OutputType, ShutterInput, add_light, add_shutter, add_switch, edit_output_down,
  edit_output_type, remove_output,
}
use hass_dobiss_sx_evolution.ConfigFlow.Modules.Adds.{
  SavesValid, add_light-IsValid, add_shutter-IsValid, add_switch-IsValid, remove_output-IsValid,
}
use hass_dobiss_sx_evolution.ConfigFlow.Modules.Edits.{
  edit_output_down-IsValid, edit_output_type-IsValid,
}
use hass_dobiss_sx_evolution.ConfigFlow.Outputs.{Outputs}
use hass_dobiss_sx_evolution.ConfigFlow.Outputs.Claims.{IsValid}

-- The steps that may save outputs, with what each is given.
pub data ModuleStep : Type 0 where
  light_added : Option OutputInput → ModuleStep
  shutter_added : Option ShutterInput → ModuleStep
  switch_added : Option OutputInput → ModuleStep
  output_removed : Option ℤ → ModuleStep
  type_edited : Option ℤ → Option OutputType → ModuleStep
  down_edited : Option ℤ → Option ℤ → ModuleStep

unfoldable pub take_step : Text → ModuleData → ModuleStep → FlowResult
unfolding add_light add_shutter add_switch remove_output edit_output_type edit_output_down
take_step title sub_data (light_added user_input) = add_light title sub_data user_input
take_step title sub_data (shutter_added user_input) = add_shutter title sub_data user_input
take_step title sub_data (switch_added user_input) = add_switch title sub_data user_input
take_step title sub_data (output_removed user_input) = remove_output title sub_data user_input
take_step title sub_data (type_edited edit_key user_input) =
    edit_output_type edit_key title sub_data user_input
take_step title sub_data (down_edited edit_key user_input) =
    edit_output_down edit_key title sub_data user_input

abbrev KeyCurrent : Option ℤ → Outputs → Type 0
KeyCurrent none outputs = Unit
KeyCurrent (some key) outputs = has_key key outputs ≡ true

-- The output that the flow edits is still one of the module's.
abbrev pub IsCurrent : ModuleStep → Outputs → Type 0
IsCurrent (light_added user_input) outputs = Unit
IsCurrent (shutter_added user_input) outputs = Unit
IsCurrent (switch_added user_input) outputs = Unit
IsCurrent (output_removed user_input) outputs = Unit
IsCurrent (type_edited edit_key user_input) outputs = KeyCurrent edit_key outputs
IsCurrent (down_edited edit_key user_input) outputs = KeyCurrent edit_key outputs

-- Of a module with valid outputs, where every output number is from 1 to 12 and claimed at most once,
-- no step of adding, removing or editing saves outputs that are not valid; a step of editing is given
-- no output, or one that the module still has.
pub take_step-IsValid :
    (title : Text) (sub_data : ModuleData) (step : ModuleStep)
    → IsValid sub_data.outputs
    → IsCurrent step sub_data.outputs
    → SavesValid (take_step title sub_data step)
unfolding take_step edit_output_type edit_output_down
take_step-IsValid title sub_data (light_added i) v h = add_light-IsValid title sub_data i v
take_step-IsValid title sub_data (shutter_added i) v h = add_shutter-IsValid title sub_data i v
take_step-IsValid title sub_data (switch_added i) v h = add_switch-IsValid title sub_data i v
take_step-IsValid title sub_data (output_removed i) v h = remove_output-IsValid title sub_data i v
take_step-IsValid title sub_data (type_edited none i) v h = tt
take_step-IsValid title sub_data (type_edited (some key) i) v h =
    edit_output_type-IsValid key title sub_data i v h
take_step-IsValid title sub_data (down_edited none i) v h = tt
take_step-IsValid title sub_data (down_edited (some key) i) v h =
    edit_output_down-IsValid key title sub_data i v h
