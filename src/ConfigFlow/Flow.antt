-- ===== src/ConfigFlow/Flow.antt =====
-- config_flow.py: what a step of a subentry flow answers to Home Assistant, the inputs it is given,
-- and the subentries it reads.
use hass_dobiss_sx_evolution.Prelude.{Bool, List, Option, Text, ℤ}
use hass_dobiss_sx_evolution.ConfigFlow.Outputs.{Outputs}

-- the step ids
pub data Step : Type 0 where
  step_user step_add_light step_add_shutter step_add_switch : Step
  step_edit_output step_edit_output_type step_edit_output_down : Step
  step_remove_output step_edit_module step_reconfigure : Step

-- the keys and the values of `errors`
pub data Field : Type 0 where
  field_output field_up_output field_down_output field_base : Field
  field_module field_mood_number : Field

pub data FormError : Type 0 where
  invalid_output duplicate_output same_output invalid_module : FormError
  module_already_exists mood_number_out_of_range mood_already_exists : FormError

pub data AbortReason : Type 0 where
  no_outputs_to_remove no_outputs_to_edit : AbortReason

pub record ModuleData : Type 0 where
  pub letter : Text
  pub dimmable_module : Bool
  pub outputs : Outputs

pub data SubentryData : Type 0 where
  module_data : ModuleData → SubentryData
  mood_data : ℤ → SubentryData

pub record Subentry : Type 0 where
  pub subentry_id : Text
  pub title : Text
  pub data_of : SubentryData

pub data FlowResult : Type 0 where
  show_form : Step → Option (Field × FormError) → FlowResult
  show_menu : List Step → FlowResult
  abort : AbortReason → FlowResult
  -- `async_update_and_abort`: the data, the title, and a new unique id
  update_and_abort : SubentryData → Text → Option Text → FlowResult
  -- `async_create_entry`: the data, the title, the unique id
  create_entry : SubentryData → Text → Text → FlowResult
