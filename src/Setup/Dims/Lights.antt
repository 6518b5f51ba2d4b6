-- ===== src/Setup/Dims/Lights.antt =====
-- light.py, coordinator.py: which outputs of one module are dimmers.
use hass_dobiss_sx_evolution.Prelude.{
  ==_refl, All, Bool, List, Text, [], ap, arith, bool_eq, contains, contains-append, false, int_eq,
  nat_eq, option_eq, pair_eq, refl, text_eq, true, ℤ, ◌++◌, ◌==◌, ◌||◌, ◌∙◌, ◌∷◌, ◌≡◌,
}
use hass_dobiss_sx_evolution.ConfigFlow.Flow.{
  ModuleData, Subentry, SubentryData, module_data, mood_data,
}
use hass_dobiss_sx_evolution.ConfigFlow.Outputs.{OutputConfig, Outputs, light, shutter, switch}
use hass_dobiss_sx_evolution.ConfigFlow.Subentries.{existing_letters, letters_of}
use hass_dobiss_sx_evolution.ConfigFlow.Subentries.Unique.{created}
use hass_dobiss_sx_evolution.Controller.State.{OutputKey}
use hass_dobiss_sx_evolution.Coordinator.OutputLists.{is_dimmer, is_dimmer_of, is_dimmer_output}
use hass_dobiss_sx_evolution.Setup.Platforms.{
  Created, EntityKind, cover_entity, light_entities, light_entity, switch_entity,
}

abbrev pub dims : EntityKind → Bool
dims (light_entity dim) = dim
dims switch_entity = false
dims (cover_entity down_output) = false

-- Each light's own flag is what the subentries say of its output.
abbrev pub Agree : List Subentry → List Created → Type 0
Agree subs [] = Unit
Agree subs (c ∷ created) = (is_dimmer c.entity_key subs ≡ dims c.kind) × Agree subs created

pub Agree-append :
    (subs : List Subentry) (xs ys : List Created)
    → Agree subs xs
    → Agree subs ys
    → Agree subs (xs ++ ys)
Agree-append subs [] ys hx hy = hy
Agree-append subs (x ∷ xs) ys hx hy = (hx.0, Agree-append subs xs ys hx.1 hy)

undimmed_outputs :
    (key : OutputKey) (module_name : Text) (outputs : Outputs)
    → is_dimmer_output key module_name false outputs ≡ false
undimmed_outputs key module_name [] = refl
undimmed_outputs key module_name ((output, light name) ∷ outputs) =
    undimmed_outputs key module_name outputs
undimmed_outputs key module_name ((output, switch name) ∷ outputs) =
    undimmed_outputs key module_name outputs
undimmed_outputs key module_name ((output, shutter down_output name) ∷ outputs) =
    undimmed_outputs key module_name outputs

-- Another module's output is no dimmer of this one.
other_outputs :
    (key : OutputKey) (module_name : Text) (dim : Bool) (outputs : Outputs)
    → (key.0 == module_name) ≡ false
    → is_dimmer_output key module_name dim outputs ≡ false
other_outputs key module_name dim [] ne = refl
other_outputs (l, n) module_name dim ((output, light name) ∷ outputs) ne =
    ground (arith, other_outputs (l, n) module_name dim outputs)
other_outputs key module_name dim ((output, switch name) ∷ outputs) ne =
    other_outputs key module_name dim outputs ne
other_outputs key module_name dim ((output, shutter down_output name) ∷ outputs) ne =
    other_outputs key module_name dim outputs ne

pub free_subentry :
    (key : OutputKey) (sub_data : SubentryData)
    → contains key.0 (letters_of sub_data) ≡ false
    → is_dimmer_of key sub_data ≡ false
free_subentry key (module_data m) h =
    other_outputs key m.letter m.dimmable_module m.outputs (ground arith)
free_subentry key (mood_data number) h = refl

free_subentries :
    (key : OutputKey) (subs : List Subentry)
    → contains key.0 (existing_letters subs) ≡ false
    → is_dimmer key subs ≡ false
free_subentries key [] h = refl
free_subentries key (sub ∷ subs) h = ground (
  arith,
  free_subentry key sub.data_of,
  free_subentries key subs,
  contains-append key.0 (letters_of sub.data_of) (existing_letters subs),
)

-- A light of the module is a dimmer exactly if the module dims.
abbrev pub AgreeModule : Text → Bool → Outputs → List Created → Type 0
AgreeModule module_name dim outputs [] = Unit
AgreeModule module_name dim outputs (c ∷ created) =
    (is_dimmer_output c.entity_key module_name dim outputs ≡ dims c.kind)
    × (c.entity_key.0 ≡ module_name)
    × AgreeModule module_name dim outputs created

AgreeModule-weaken :
    (module_name : Text) (dim : Bool) (output : ℤ) (cfg : OutputConfig) (outputs : Outputs)
    (created : List Created)
    → dim ≡ true
    → AgreeModule module_name dim outputs created
    → All (λ (c : Created). dims c.kind ≡ true) created
    → AgreeModule module_name dim ((output, cfg) ∷ outputs) created
AgreeModule-weaken module_name dim output cfg outputs [] d h all = tt
AgreeModule-weaken module_name dim output cfg outputs (c ∷ created) d h all =
    (ground arith, h.1, AgreeModule-weaken module_name dim output cfg outputs created d h.2 all.1)

lights-dim :
    (id module_name : Text) (outputs : Outputs)
    → All (λ (c : Created). dims c.kind ≡ true) (light_entities id module_name true outputs)
unfolding light_entities
lights-dim id module_name [] = tt
lights-dim id module_name ((output, light name) ∷ outputs) =
    (refl, lights-dim id module_name outputs)
lights-dim id module_name ((output, switch name) ∷ outputs) = lights-dim id module_name outputs
lights-dim id module_name ((output, shutter down_output name) ∷ outputs) =
    lights-dim id module_name outputs

dimmed-AgreeModule :
    (id module_name : Text) (outputs : Outputs)
    → AgreeModule module_name true outputs (light_entities id module_name true outputs)
unfolding light_entities
dimmed-AgreeModule id module_name [] = tt
dimmed-AgreeModule id module_name ((output, light name) ∷ outputs) = (
  rw (==_refl {K = OutputKey} (module_name, output)) refl,
  refl,
  AgreeModule-weaken module_name true output (light name) outputs
      (light_entities id module_name true outputs) refl (dimmed-AgreeModule id module_name outputs)
      (lights-dim id module_name outputs),
)
dimmed-AgreeModule id module_name ((output, switch name) ∷ outputs) =
    AgreeModule-weaken module_name true output (switch name) outputs
      (light_entities id module_name true outputs) refl (dimmed-AgreeModule id module_name outputs)
      (lights-dim id module_name outputs)
dimmed-AgreeModule id module_name ((output, shutter down_output name) ∷ outputs) =
    AgreeModule-weaken module_name true output (shutter down_output name) outputs
      (light_entities id module_name true outputs) refl (dimmed-AgreeModule id module_name outputs)
      (lights-dim id module_name outputs)

undimmed-AgreeModule :
    (id module_name : Text) (whole outputs : Outputs)
    → AgreeModule module_name false whole (light_entities id module_name false outputs)
unfolding light_entities
undimmed-AgreeModule id module_name whole [] = tt
undimmed-AgreeModule id module_name whole ((output, light name) ∷ outputs) = (
  undimmed_outputs (module_name, output) module_name whole,
  refl,
  undimmed-AgreeModule id module_name whole outputs,
)
undimmed-AgreeModule id module_name whole ((output, switch name) ∷ outputs) =
    undimmed-AgreeModule id module_name whole outputs
undimmed-AgreeModule id module_name whole ((output, shutter down_output name) ∷ outputs) =
    undimmed-AgreeModule id module_name whole outputs

pub lights-AgreeModule :
    (id module_name : Text) (dim : Bool) (outputs : Outputs)
    → AgreeModule module_name dim outputs (light_entities id module_name dim outputs)
lights-AgreeModule id module_name true outputs = dimmed-AgreeModule id module_name outputs
lights-AgreeModule id module_name false outputs =
    undimmed-AgreeModule id module_name outputs outputs

pub module_first :
    (sub : Subentry) (m : ModuleData) (subs : List Subentry) (created : List Created)
    → sub.data_of ≡ module_data m
    → contains m.letter (existing_letters subs) ≡ false
    → AgreeModule m.letter m.dimmable_module m.outputs created
    → Agree (sub ∷ subs) created
module_first sub m subs [] e free h = tt
module_first sub m subs (c ∷ created) e free h = (
  ap (λ d. is_dimmer_of c.entity_key d || is_dimmer c.entity_key subs) e
      ∙ rw (h.0, free_subentries c.entity_key subs (rw h.1 free)) (ground arith),
  module_first sub m subs created e free h.2,
)
