-- ===== src/ConfigFlow/Modules/Accepts.antt =====
-- config_flow.py: which inputs the adding steps accept, and what removing an output gives back.
use hass_dobiss_sx_evolution.Prelude.{
  ==_refl, Bool, Bool-cases, Text, [], ap, arith, contains, false, get-put_self, has_key-some, inl,
  inr, int_eq, nat_eq, negsuc, pair_eq, pop, pos, put, refl, some, text_eq, true, ℤ, ◌==◌, ◌↔◌, ◌∷◌,
  ◌≡◌,
}
use hass_dobiss_sx_evolution.ConfigFlow.Flow.{
  FlowResult, ModuleData, abort, create_entry, module_data, mood_data, show_form, show_menu,
  update_and_abort,
}
use hass_dobiss_sx_evolution.ConfigFlow.Modules.{
  ShutterInput, add_shutter, entered_name, is_empty, out_of_range, remove_output,
}
use hass_dobiss_sx_evolution.ConfigFlow.Modules.Adds.{out_of_range-InRange}
use hass_dobiss_sx_evolution.ConfigFlow.Outputs.{OutputConfig, Outputs, occupied_outputs, shutter}
use hass_dobiss_sx_evolution.ConfigFlow.Outputs.Claims.{InRange, contains-tail, key_missing}

-- Whether a step has saved.
abbrev pub saved : FlowResult → Bool
saved (update_and_abort entry_data title unique_id) = true
saved (show_form step error) = false
saved (show_menu steps) = false
saved (abort reason) = false
saved (create_entry entry_data title unique_id) = false

-- The outputs after a step: those saved, or those there were.
abbrev pub outputs_after : FlowResult → Outputs → Outputs
outputs_after (update_and_abort (module_data sub_data) title unique_id) outputs = sub_data.outputs
outputs_after (update_and_abort (mood_data number) title unique_id) outputs = outputs
outputs_after (show_form step error) outputs = outputs
outputs_after (show_menu steps) outputs = outputs
outputs_after (abort reason) outputs = outputs
outputs_after (create_entry entry_data title unique_id) outputs = outputs

InRange-out_of_range : (n : ℤ) → InRange n → out_of_range n ≡ false
InRange-out_of_range (pos n) h = ground arith
InRange-out_of_range (negsuc n) h = ground arith

-- Two free numbers in range that differ: the input of a shutter that is accepted.
abbrev pub ShutterFits : ShutterInput → Outputs → Type 0
ShutterFits i outputs =
    InRange i.up_input
    × InRange i.down_input
    × ((i.up_input == i.down_input) ≡ false)
    × (contains i.up_input (occupied_outputs outputs) ≡ false)
    × (contains i.down_input (occupied_outputs outputs) ≡ false)

-- `add_shutter` saves exactly the inputs whose two outputs are from 1 to 12, differ, and are both
-- claimed by no item of the module.
pub add_shutter-saved :
    (title : Text) (sub_data : ModuleData) (i : ShutterInput)
    → (saved (add_shutter title sub_data (some i)) ≡ true) ↔ ShutterFits i sub_data.outputs
unfolding add_shutter
add_shutter-saved title sub_data i = (accepted, fits)
  where
    accepted : saved (add_shutter title sub_data (some i)) ≡ true → ShutterFits i sub_data.outputs
    accepted h = (
      out_of_range-InRange i.up_input (ground arith),
      out_of_range-InRange i.down_input (ground arith),
      ground arith,
      ground arith,
      ground arith,
    )

    fits : ShutterFits i sub_data.outputs → saved (add_shutter title sub_data (some i)) ≡ true
    fits h =
        rw
          (
            InRange-out_of_range i.up_input h.0,
            InRange-out_of_range i.down_input h.1,
            h.2,
            h.3,
            h.4,
          )
          refl

pop-put :
    (key : ℤ) (cfg : OutputConfig) (outputs : Outputs)
    → contains key (occupied_outputs outputs) ≡ false
    → pop key (put key cfg outputs) ≡ outputs
pop-put key cfg [] h = rw (==_refl key) refl
pop-put key cfg ((k, c) ∷ outputs) h = elim (Bool-cases (key == k)) [
  | inl e ↦ absurd (key_missing key k c outputs e h)
  | inr e ↦ rw e (
      rw e (ap (λ rest. (k, c) ∷ rest) (pop-put key cfg outputs (contains-tail key k c outputs h))))
]

is_empty-put :
    (key : ℤ) (cfg : OutputConfig) (outputs : Outputs) → is_empty (put key cfg outputs) ≡ false
is_empty-put key cfg [] = refl
is_empty-put key cfg ((k, c) ∷ outputs) = ground arith

-- Removing a shutter that was just added, with an input that fits, gives the outputs back, in their
-- order.
pub remove_output-add_shutter :
    (title : Text) (sub_data : ModuleData) (i : ShutterInput)
    → ShutterFits i sub_data.outputs
    → outputs_after
        (remove_output title
          (record sub_data {
            outputs = outputs_after (add_shutter title sub_data (some i)) sub_data.outputs;
          })
          (some i.up_input))
        []
      ≡ sub_data.outputs
unfolding add_shutter remove_output
remove_output-add_shutter title sub_data i h =
    rw
      (
        InRange-out_of_range i.up_input h.0,
        InRange-out_of_range i.down_input h.1,
        h.2,
        h.3,
        h.4,
        is_empty-put i.up_input (shutter i.down_input (entered_name i.shutter_name))
            sub_data.outputs,
        has_key-some i.up_input (shutter i.down_input (entered_name i.shutter_name))
            (put i.up_input (shutter i.down_input (entered_name i.shutter_name)) sub_data.outputs)
            (get-put_self i.up_input (shutter i.down_input (entered_name i.shutter_name))
              sub_data.outputs),
      )
      (pop-put i.up_input (shutter i.down_input (entered_name i.shutter_name)) sub_data.outputs h.3)
