-- ===== src/Setup/Dims.antt =====
-- light.py, coordinator.py: a light entity dims exactly where the controller takes its output for a
-- dimmer.
mod Lights
use hass_dobiss_sx_evolution.Prelude.{
  ==_iff, ==_refl, Bool-cases, List, Text, [], ap, arith, bool_eq, contains, contains-append, false,
  inl, inr, int_eq, nat_eq, option_eq, pair_eq, refl, text_eq, true, ◌++◌, ◌==◌, ◌∙◌, ◌∷◌, ◌≡◌,
}
use hass_dobiss_sx_evolution.ConfigFlow.Flow.{
  ModuleData, Subentry, SubentryData, module_data, mood_data,
}
use hass_dobiss_sx_evolution.ConfigFlow.Subentries.{existing_letters, letters_of}
use hass_dobiss_sx_evolution.ConfigFlow.Subentries.Unique.{Unique, created}
use hass_dobiss_sx_evolution.Controller.Connection.{ConfigData}
use hass_dobiss_sx_evolution.Controller.State.{Controller, dimmable, new_controller}
use hass_dobiss_sx_evolution.Coordinator.Links.{new_coordinator}
use hass_dobiss_sx_evolution.Coordinator.OutputLists.{parse_output_lists-dimmers}
use hass_dobiss_sx_evolution.Setup.Dims.Lights.{
  Agree, Agree-append, AgreeModule, dims, free_subentry, lights-AgreeModule, module_first,
}
use hass_dobiss_sx_evolution.Setup.Platforms.{Created, light_entities, lights_of, setup_lights}

-- The modules of the entities are among those of the subentries.
abbrev pub Known : List Subentry → List Created → Type 0
Known subs [] = Unit
Known subs (c ∷ created) =
    (contains c.entity_key.0 (existing_letters subs) ≡ true) × Known subs created

Known-append :
    (subs : List Subentry) (xs ys : List Created)
    → Known subs xs
    → Known subs ys
    → Known subs (xs ++ ys)
Known-append subs [] ys hx hy = hy
Known-append subs (x ∷ xs) ys hx hy = (hx.0, Known-append subs xs ys hx.1 hy)

Known-tail :
    (sub : Subentry) (subs : List Subentry) (created : List Created)
    → Known subs created
    → Known (sub ∷ subs) created
Known-tail sub subs [] h = tt
Known-tail sub subs (c ∷ created) h = (
  rw (contains-append c.entity_key.0 (letters_of sub.data_of) (existing_letters subs), h.0)
      (ground arith),
  Known-tail sub subs created h.1,
)

module_first-Known :
    (sub : Subentry) (m : ModuleData) (subs : List Subentry) (created : List Created)
    → sub.data_of ≡ module_data m
    → AgreeModule m.letter m.dimmable_module m.outputs created
    → Known (sub ∷ subs) created
module_first-Known sub m subs [] e h = tt
module_first-Known sub m subs (c ∷ created) e h = (
  ap (λ d. contains c.entity_key.0 (letters_of d ++ existing_letters subs)) e
      ∙ rw h.1 (rw (==_refl m.letter) refl),
  module_first-Known sub m subs created e h.2,
)

-- A letter of the modules behind is not that of a module before them.
before_free :
    (letter : Text) (d : SubentryData) (subs : List Subentry)
    → Unique (letters_of d ++ existing_letters subs)
    → contains letter (existing_letters subs) ≡ true
    → contains letter (letters_of d) ≡ false
before_free letter (mood_data number) subs u h = refl
before_free letter (module_data m) subs u h = elim (Bool-cases (letter == m.letter)) [
  | inl e ↦ absurd (clash (rw ((==_iff letter m.letter).0 e) at h))
  | inr e ↦ rw e refl
]
  where
    clash : contains m.letter (existing_letters subs) ≡ true → ⊥
    clash l = ground (arith, u.0)

behind_tail :
    (d : SubentryData) (subs : List Subentry)
    → Unique (letters_of d ++ existing_letters subs)
    → Unique (existing_letters subs)
behind_tail (mood_data number) subs u = u
behind_tail (module_data m) subs u = u.1

Agree-tail :
    (sub : Subentry) (subs : List Subentry) (created : List Created)
    → Unique (existing_letters (sub ∷ subs))
    → Known subs created
    → Agree subs created
    → Agree (sub ∷ subs) created
Agree-tail sub subs [] u k h = tt
Agree-tail sub subs (c ∷ created) u k h = (
  rw (free_subentry c.entity_key sub.data_of (before_free c.entity_key.0 sub.data_of subs u k.0))
      h.0,
  Agree-tail sub subs created u k.1 h.1,
)

first-Agree :
    (sub : Subentry) (d : SubentryData) (subs : List Subentry)
    → sub.data_of ≡ d
    → Unique (letters_of d ++ existing_letters subs)
    → Agree (sub ∷ subs) (lights_of sub.subentry_id d)
      × Known (sub ∷ subs) (lights_of sub.subentry_id d)
first-Agree sub (mood_data number) subs e u = (tt, tt)
first-Agree sub (module_data m) subs e u =
    let agree = lights-AgreeModule sub.subentry_id m.letter m.dimmable_module m.outputs in
    (
      module_first sub m subs (light_entities sub.subentry_id m.letter m.dimmable_module m.outputs)
          e u.0 agree,
      module_first-Known sub m subs
          (light_entities sub.subentry_id m.letter m.dimmable_module m.outputs) e agree,
    )

setup_lights-Agree :
    (subs : List Subentry)
    → Unique (existing_letters subs)
    → Agree subs (setup_lights subs) × Known subs (setup_lights subs)
unfolding setup_lights
setup_lights-Agree [] u = (tt, tt)
setup_lights-Agree (sub ∷ subs) u =
    let behind = setup_lights-Agree subs (behind_tail sub.data_of subs u) in
    let first = first-Agree sub sub.data_of subs refl u in
    (
      Agree-append (sub ∷ subs) (lights_of sub.subentry_id sub.data_of) (setup_lights subs) first.0
          (Agree-tail sub subs (setup_lights subs) u behind.1 behind.0),
      Known-append (sub ∷ subs) (lights_of sub.subentry_id sub.data_of) (setup_lights subs) first.1
          (Known-tail sub subs (setup_lights subs) behind.1),
    )

-- What the controller says of the output of each light.
abbrev pub ControllerAgrees : Controller → List Created → Type 0
ControllerAgrees controller [] = Unit
ControllerAgrees controller (c ∷ created) =
    (dimmable c.entity_key controller ≡ dims c.kind) × ControllerAgrees controller created

controller_agrees :
    (entry_data : ConfigData) (subs : List Subentry) (created : List Created)
    → Agree subs created
    → ControllerAgrees (new_coordinator entry_data subs).controller created
unfolding new_coordinator new_controller
controller_agrees entry_data subs [] h = tt
controller_agrees entry_data subs (c ∷ created) h = (
  parse_output_lists-dimmers c.entity_key subs ∙ h.0,
  controller_agrees entry_data subs created h.1,
)

-- Where the letters of the modules are unique, every light entity that the platform creates takes
-- itself for dimmable exactly if the controller, which the coordinator builds from the same entry,
-- takes its output for a dimmer.
pub setup_lights-dimmable :
    (entry_data : ConfigData) (subs : List Subentry)
    → Unique (existing_letters subs)
    → ControllerAgrees (new_coordinator entry_data subs).controller (setup_lights subs)
setup_lights-dimmable entry_data subs u =
    controller_agrees entry_data subs (setup_lights subs) (setup_lights-Agree subs u).0
