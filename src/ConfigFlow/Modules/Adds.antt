-- ===== src/ConfigFlow/Modules/Adds.antt =====
-- config_flow.py: what the adding and the removing steps save is valid.
use hass_dobiss_sx_evolution.Prelude.{
  Bool-cases, Option, Text, arith, contains, false, has_key, if◌then◌else◌, inl, inr, int_eq,
  nat_eq, negsuc, none, pair_eq, pop, pos, put, refl, some, text_eq, ℤ, ◌==◌, ◌≡◌,
}
use hass_dobiss_sx_evolution.ConfigFlow.Flow.{
  FlowResult, ModuleData, abort, create_entry, field_output, invalid_output, module_data, mood_data,
  show_form, show_menu, step_remove_output, update_and_abort,
}
use hass_dobiss_sx_evolution.ConfigFlow.Modules.{
  OutputInput, ShutterInput, add_light, add_shutter, add_switch, entered_name, is_empty,
  out_of_range, remove_output, save,
}
use hass_dobiss_sx_evolution.ConfigFlow.Outputs.{Outputs, light, occupied_outputs, shutter, switch}
use hass_dobiss_sx_evolution.ConfigFlow.Outputs.Claims.{InRange, IsValid, contains-occupied_pop}
use hass_dobiss_sx_evolution.ConfigFlow.Outputs.Valid.{pop-IsValid, put-IsValid}

-- What is saved, if anything, is valid.
abbrev pub SavesValid : FlowResult → Type 0
SavesValid (update_and_abort (module_data sub_data) title unique_id) = IsValid sub_data.outputs
SavesValid (update_and_abort (mood_data number) title unique_id) = Unit
SavesValid (show_form step error) = Unit
SavesValid (show_menu steps) = Unit
SavesValid (abort reason) = Unit
SavesValid (create_entry entry_data title unique_id) = Unit

pub out_of_range-InRange : (n : ℤ) → out_of_range n ≡ false → InRange n
out_of_range-InRange (pos n) h = ground arith
out_of_range-InRange (negsuc n) h = ground arith

pub add_light-IsValid :
    (title : Text) (sub_data : ModuleData) (user_input : Option OutputInput)
    → IsValid sub_data.outputs
    → SavesValid (add_light title sub_data user_input)
unfolding add_light
add_light-IsValid title sub_data none v = tt
add_light-IsValid title sub_data (some i) v = elim (Bool-cases (out_of_range i.output)) [
  | inl out ↦ rw out tt
  | inr in_range ↦
      rw in_range (elim (Bool-cases (contains i.output (occupied_outputs sub_data.outputs))) [
        | inl taken ↦ rw taken tt
        | inr free ↦ rw free (
            put-IsValid i.output (light (entered_name i.output_name)) sub_data.outputs v
              (out_of_range-InRange i.output in_range, tt) (refl, tt)
              (contains-occupied_pop i.output i.output sub_data.outputs free, tt))
      ])
]

pub add_switch-IsValid :
    (title : Text) (sub_data : ModuleData) (user_input : Option OutputInput)
    → IsValid sub_data.outputs
    → SavesValid (add_switch title sub_data user_input)
unfolding add_switch
add_switch-IsValid title sub_data none v = tt
add_switch-IsValid title sub_data (some i) v = elim (Bool-cases (out_of_range i.output)) [
  | inl out ↦ rw out tt
  | inr in_range ↦
      rw in_range (elim (Bool-cases (contains i.output (occupied_outputs sub_data.outputs))) [
        | inl taken ↦ rw taken tt
        | inr free ↦ rw free (
            put-IsValid i.output (switch (entered_name i.output_name)) sub_data.outputs v
              (out_of_range-InRange i.output in_range, tt) (refl, tt)
              (contains-occupied_pop i.output i.output sub_data.outputs free, tt))
      ])
]

-- The up and the down output of a shutter that is written.
pub put_shutter-IsValid :
    (key down_output : ℤ) (name : Text) (outputs : Outputs)
    → IsValid outputs
    → InRange key
    → InRange down_output
    → (key == down_output) ≡ false
    → contains key (occupied_outputs (pop key outputs)) ≡ false
    → contains down_output (occupied_outputs (pop key outputs)) ≡ false
    → IsValid (put key (shutter down_output name) outputs)
put_shutter-IsValid key down_output name outputs v rk rd ne fk fd =
    put-IsValid key (shutter down_output name) outputs v (rk, (rd, tt)) (rw ne refl, (refl, tt))
      (fk, (fd, tt))

pub add_shutter-IsValid :
    (title : Text) (sub_data : ModuleData) (user_input : Option ShutterInput)
    → IsValid sub_data.outputs
    → SavesValid (add_shutter title sub_data user_input)
unfolding add_shutter
add_shutter-IsValid title sub_data none v = tt
add_shutter-IsValid title sub_data (some i) v = elim (Bool-cases (out_of_range i.up_input)) [
  | inl up_out ↦ rw up_out tt
  | inr up_in ↦ rw up_in (elim (Bool-cases (out_of_range i.down_input)) [
    | inl down_out ↦ rw down_out tt
    | inr down_in ↦ rw down_in (elim (Bool-cases (i.up_input == i.down_input)) [
      | inl eq ↦ rw eq tt
      | inr ne ↦
          rw ne (elim (Bool-cases (contains i.up_input (occupied_outputs sub_data.outputs))) [
            | inl taken ↦ rw taken tt
            | inr up_free ↦
                rw up_free
                  (elim (Bool-cases (contains i.down_input (occupied_outputs sub_data.outputs))) [
                    | inl taken ↦ rw taken tt
                    | inr down_free ↦ rw down_free (
                        put_shutter-IsValid i.up_input i.down_input (entered_name i.shutter_name)
                          sub_data.outputs v (out_of_range-InRange i.up_input up_in)
                          (out_of_range-InRange i.down_input down_in) ne
                          (contains-occupied_pop i.up_input i.up_input sub_data.outputs up_free)
                          (contains-occupied_pop i.down_input i.up_input sub_data.outputs
                            down_free))
                  ])
          ])
    ])
  ])
]

pub remove_output-IsValid :
    (title : Text) (sub_data : ModuleData) (user_input : Option ℤ)
    → IsValid sub_data.outputs
    → SavesValid (remove_output title sub_data user_input)
unfolding remove_output
remove_output-IsValid title sub_data user_input v = elim (Bool-cases (is_empty sub_data.outputs)) [
  | inl e ↦ rw e tt
  | inr e ↦ rw e (chosen user_input)
]
  where
    chosen :
        (user_input : Option ℤ)
        → SavesValid (elim user_input [
          | none ↦ show_form step_remove_output none
          | some chosen ↦
              if has_key chosen sub_data.outputs
              then save title sub_data (pop chosen sub_data.outputs)
              else show_form step_remove_output (some (field_output, invalid_output))
        ])
    chosen none = tt
    chosen (some key) = elim (Bool-cases (has_key key sub_data.outputs)) [
      | inl e ↦ rw e (pop-IsValid key sub_data.outputs v)
      | inr e ↦ rw e tt
    ]
