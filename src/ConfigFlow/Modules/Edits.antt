-- ===== src/ConfigFlow/Modules/Edits.antt =====
-- config_flow.py: what the editing steps save is valid, while the output they edit is there.
use hass_dobiss_sx_evolution.Prelude.{
  ==_iff, Bool-cases, List, Option, Text, [], arith, contains, false, get, has_key, if◌then◌else◌,
  inl, inr, int_eq, nat_eq, none, not, pair_eq, pop, put, refl, some, text_eq, true, ℤ, ◌&&◌, ◌==◌,
  ◌∷◌, ◌≡◌,
}
use hass_dobiss_sx_evolution.ConfigFlow.Flow.{
  ModuleData, duplicate_output, field_down_output, show_form, step_edit_output_down,
}
use hass_dobiss_sx_evolution.ConfigFlow.Modules.{
  OutputType, current_name, difference, edit_output_down, edit_output_type, out_of_range,
  own_claims, save, type_light, type_shutter, type_switch,
}
use hass_dobiss_sx_evolution.ConfigFlow.Modules.Adds.{
  SavesValid, out_of_range-InRange, put_shutter-IsValid,
}
use hass_dobiss_sx_evolution.ConfigFlow.Outputs.{
  OutputConfig, Outputs, light, name_of, occupied_outputs, shutter, switch,
}
use hass_dobiss_sx_evolution.ConfigFlow.Outputs.Claims.{
  InRange, IsValid, claims, contains-occupied_pop,
}
use hass_dobiss_sx_evolution.ConfigFlow.Outputs.Valid.{IsValid-get, put-IsValid}

has_key-get :
    (key : ℤ) (outputs : Outputs)
    → has_key key outputs ≡ true
    → (cfg : OutputConfig) × (get key outputs ≡ some cfg)
has_key-get key outputs h = go (get key outputs) refl
  where
    go :
        (found : Option OutputConfig)
        → get key outputs ≡ found
        → (cfg : OutputConfig) × (get key outputs ≡ some cfg)
    go none e = ground arith
    go (some cfg) e = (cfg, e)

-- The key of an item is a claim of it, in range and free of the others' claims.
key-Free :
    (key : ℤ) (cfg : OutputConfig) (outputs : Outputs)
    → IsValid outputs
    → get key outputs ≡ some cfg
    → InRange key × (contains key (occupied_outputs (pop key outputs)) ≡ false)
key-Free key (light name) outputs v h =
    ((IsValid-get key (light name) outputs v h).0.0, (IsValid-get key (light name) outputs v h).2.0)
key-Free key (switch name) outputs v h = (
  (IsValid-get key (switch name) outputs v h).0.0,
  (IsValid-get key (switch name) outputs v h).2.0,
)
key-Free key (shutter down_output name) outputs v h = (
  (IsValid-get key (shutter down_output name) outputs v h).0.0,
  (IsValid-get key (shutter down_output name) outputs v h).2.0,
)

contains-difference :
    (x : ℤ) (xs ys : List ℤ)
    → contains x (difference xs ys) ≡ (contains x xs && not (contains x ys))
contains-difference x [] ys = refl
contains-difference x (y ∷ xs) ys = ground (arith, ==_iff x y, at, contains-difference x xs ys)
  where
    at : x ≡ y → contains x ys ≡ contains y ys
    at p = λ i. contains (p i) ys

not_own :
    (key x : ℤ) (own : List ℤ) (outputs : Outputs)
    → contains x own ≡ false
    → contains x (difference (occupied_outputs outputs) own) ≡ false
    → contains x (occupied_outputs outputs) ≡ false
not_own key x own outputs other free =
    ground (arith, contains-difference x (occupied_outputs outputs) own)

-- A down output that is accepted is free of the other items' claims.
down-Free :
    (key down_output : ℤ) (cfg : OutputConfig) (outputs : Outputs)
    → IsValid outputs
    → get key outputs ≡ some cfg
    → (down_output == key) ≡ false
    → contains down_output (difference (occupied_outputs outputs) (own_claims key (some cfg)))
      ≡ false
    → contains down_output (occupied_outputs (pop key outputs)) ≡ false
down-Free key down_output (light name) outputs v h ne free =
    contains-occupied_pop down_output key outputs
      (not_own key down_output (key ∷ []) outputs (rw ne refl) free)
down-Free key down_output (switch name) outputs v h ne free =
    contains-occupied_pop down_output key outputs
      (not_own key down_output (key ∷ []) outputs (rw ne refl) free)
down-Free key down_output (shutter current name) outputs v h ne free =
    elim (Bool-cases (down_output == current)) [
      | inl e ↦
          rw ((==_iff down_output current).0 e)
            (IsValid-get key (shutter current name) outputs v h).2.1.0
      | inr e ↦
          contains-occupied_pop down_output key outputs
            (not_own key down_output (key ∷ current ∷ []) outputs (rw (ne, e) refl) free)
    ]

pub edit_output_down-IsValid :
    (key : ℤ) (title : Text) (sub_data : ModuleData) (user_input : Option ℤ)
    → IsValid sub_data.outputs
    → has_key key sub_data.outputs ≡ true
    → SavesValid (edit_output_down (some key) title sub_data user_input)
unfolding edit_output_down
edit_output_down-IsValid key title sub_data none v h = tt
edit_output_down-IsValid key title sub_data (some down_output) v h =
    elim (Bool-cases (out_of_range down_output)) [
      | inl out ↦ rw out tt
      | inr in_range ↦ rw in_range (elim (Bool-cases (down_output == key)) [
        | inl eq ↦ rw eq tt
        | inr ne ↦ rw ne (written in_range ne (has_key-get key sub_data.outputs h))
      ])
    ]
  where
    written :
        out_of_range down_output ≡ false
        → (down_output == key) ≡ false
        → (cfg : OutputConfig) × (get key sub_data.outputs ≡ some cfg)
        → SavesValid (
            if contains down_output (
              difference
                (occupied_outputs sub_data.outputs)
                (own_claims key (get key sub_data.outputs)))
            then show_form step_edit_output_down (some (field_down_output, duplicate_output))
            else save title sub_data (
                put key
                  (shutter down_output (current_name (get key sub_data.outputs)))
                  sub_data.outputs))
    written in_range ne (cfg, at) =
        rw at
          (elim (Bool-cases (
            contains down_output
              (difference (occupied_outputs sub_data.outputs) (own_claims key (some cfg))))) [
                | inl taken ↦ rw taken tt
                | inr free ↦ rw free (
                    put_shutter-IsValid key down_output (name_of cfg) sub_data.outputs v
                      (key-Free key cfg sub_data.outputs v at).0
                      (out_of_range-InRange down_output in_range)
                      (ground (arith, ==_iff key down_output, ==_iff down_output key))
                      (key-Free key cfg sub_data.outputs v at).1
                      (down-Free key down_output cfg sub_data.outputs v at ne free))
              ])

put_one :
    (key : ℤ) (cfg new : OutputConfig) (outputs : Outputs)
    → IsValid outputs
    → get key outputs ≡ some cfg
    → claims key new ≡ key ∷ []
    → IsValid (put key new outputs)
put_one key cfg new outputs v at one =
    put-IsValid key new outputs v (rw one ((key-Free key cfg outputs v at).0, tt))
      (rw one (refl, tt)) (rw one ((key-Free key cfg outputs v at).1, tt))

pub edit_output_type-IsValid :
    (key : ℤ) (title : Text) (sub_data : ModuleData) (user_input : Option OutputType)
    → IsValid sub_data.outputs
    → has_key key sub_data.outputs ≡ true
    → SavesValid (edit_output_type (some key) title sub_data user_input)
unfolding edit_output_type edit_output_down
edit_output_type-IsValid key title sub_data none v h = tt
edit_output_type-IsValid key title sub_data (some type_shutter) v h = tt
edit_output_type-IsValid key title sub_data (some type_light) v h =
    let at = has_key-get key sub_data.outputs h in
    put_one key at.0 (light (current_name (get key sub_data.outputs))) sub_data.outputs v at.1 refl
edit_output_type-IsValid key title sub_data (some type_switch) v h =
    let at = has_key-get key sub_data.outputs h in
    put_one key at.0 (switch (current_name (get key sub_data.outputs))) sub_data.outputs v at.1 refl
