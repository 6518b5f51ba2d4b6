-- ===== src/ConfigFlow/Modules/Stale.antt =====
-- config_flow.py: `async_step_edit_output_type` does not check that `_edit_output_key` is still an
-- output of the module, nor that it is free.
use hass_dobiss_sx_evolution.Prelude.{
  ==_refl, Bool-cases, Text, [], ap, arith, contains, false, get, get-put_self, has_key, inl, inr,
  int_eq, nat_eq, pair_eq, pop, put, refl, some, text_eq, true, ℤ, ◌==◌, ◌∷◌, ◌≡◌,
}
use hass_dobiss_sx_evolution.ConfigFlow.Flow.{ModuleData}
use hass_dobiss_sx_evolution.ConfigFlow.Modules.{current_name, edit_output_type, type_light}
use hass_dobiss_sx_evolution.ConfigFlow.Modules.Accepts.{outputs_after}
use hass_dobiss_sx_evolution.ConfigFlow.Outputs.{OutputConfig, Outputs, light, occupied_outputs}
use hass_dobiss_sx_evolution.ConfigFlow.Outputs.Claims.{IsValid}
use hass_dobiss_sx_evolution.ConfigFlow.Outputs.Valid.{IsValid-get}
use mathlib.Core.Path.{subst}

pop-put_missing :
    (key : ℤ) (cfg : OutputConfig) (outputs : Outputs)
    → has_key key outputs ≡ false
    → pop key (put key cfg outputs) ≡ outputs
pop-put_missing key cfg [] h = rw (==_refl key) refl
pop-put_missing key cfg ((k, c) ∷ outputs) h = elim (Bool-cases (key == k)) [
  | inl e ↦ ground arith
  | inr e ↦
      rw e (rw e (ap (λ rest. (k, c) ∷ rest) (pop-put_missing key cfg outputs (ground arith))))
]

-- When the edited output is no item of the module any more, and its number is claimed as the down
-- output of a shutter, the outputs after its edit to a light are not valid: two items claim the number.
pub edit_output_type_stale :
    (title : Text) (sub_data : ModuleData) (key : ℤ)
    → has_key key sub_data.outputs ≡ false
    → contains key (occupied_outputs sub_data.outputs) ≡ true
    → ¬ IsValid (
        outputs_after
          (edit_output_type (some key) title sub_data (some type_light))
          sub_data.outputs)
unfolding edit_output_type
edit_output_type_stale title sub_data key missing taken v =
    let new = light (current_name (get key sub_data.outputs)) in
    clash
      (IsValid-get key new (put key new sub_data.outputs) v
        (get-put_self key new sub_data.outputs)).2.0
  where
    clash :
        contains key (
            occupied_outputs (
              pop key (put key (light (current_name (get key sub_data.outputs))) sub_data.outputs)))
          ≡ false
        → ⊥
    clash h = ground (arith, cleared h)
      where
        cleared :
            contains key (
                occupied_outputs (
                  pop key
                    (put key (light (current_name (get key sub_data.outputs))) sub_data.outputs)))
              ≡ false
            → contains key (occupied_outputs sub_data.outputs) ≡ false
        cleared h =
            subst (λ o. contains key (occupied_outputs o) ≡ false)
              (pop-put_missing key (light (current_name (get key sub_data.outputs)))
                sub_data.outputs missing)
              h
