-- ===== src/Coordinator/OutputLists.antt =====
-- coordinator.py, `parse_output_lists`: the lights, the dimmers, the shutters and the switches of the
-- configured modules.
use hass_dobiss_sx_evolution.Prelude.{
  Bool, List, Text, [], add, arith, contains, contains-add, false, int_eq, nat_eq, pair_eq, refl,
  text_eq, true, ℤ, ◌&&◌, ◌++◌, ◌==◌, ◌||◌, ◌∙◌, ◌∷◌, ◌≡◌,
}
use hass_dobiss_sx_evolution.ConfigFlow.Flow.{Subentry, SubentryData, module_data, mood_data}
use hass_dobiss_sx_evolution.ConfigFlow.Outputs.{OutputConfig, Outputs, light, shutter, switch}
use hass_dobiss_sx_evolution.Controller.State.{OutputKey, ShutterConfig}

pub record OutputLists : Type 0 where
  pub light_list : List OutputKey
  pub dimmer_list : List OutputKey
  pub shutter_list : List ShutterConfig
  pub switch_list : List OutputKey

-- One output of a module: its letter, whether it is dimmable, the output's number.
unfoldable pub add_output : Text → Bool → ℤ → OutputConfig → OutputLists → OutputLists
add_output module_name true output (light name) lists = record lists {
  dimmer_list = add (module_name, output) lists.dimmer_list;
}
add_output module_name false output (light name) lists = record lists {
  light_list = lists.light_list ++ (module_name, output) ∷ [];
}
add_output module_name dim output (shutter down_output name) lists = record lists {
  shutter_list =
      lists.shutter_list
      ++ (record { module_letter = module_name; up_output = output; down_output = down_output })
        ∷ [];
}
add_output module_name dim output (switch name) lists = record lists {
  switch_list = lists.switch_list ++ (module_name, output) ∷ [];
}

-- for output_str, cfg in sub.data.get("outputs", {}).items()
unfoldable pub add_outputs : Text → Bool → Outputs → OutputLists → OutputLists
unfolding add_output
add_outputs module_name dim [] lists = lists
add_outputs module_name dim ((output, cfg) ∷ outputs) lists =
    add_outputs module_name dim outputs (add_output module_name dim output cfg lists)

unfoldable pub add_subentry : SubentryData → OutputLists → OutputLists
unfolding add_outputs
add_subentry (module_data sub_data) lists =
    add_outputs sub_data.letter sub_data.dimmable_module sub_data.outputs lists
add_subentry (mood_data number) lists = lists

-- for sub in entry.subentries.values()
unfoldable pub add_subentries : List Subentry → OutputLists → OutputLists
unfolding add_subentry
add_subentries [] lists = lists
add_subentries (sub ∷ subs) lists = add_subentries subs (add_subentry sub.data_of lists)

abbrev pub no_outputs : OutputLists
no_outputs = record { light_list = []; dimmer_list = []; shutter_list = []; switch_list = [] }

-- `parse_output_lists`
unfoldable pub parse_output_lists : List Subentry → OutputLists
unfolding add_subentries
parse_output_lists subentries = add_subentries subentries no_outputs

-- An item that is a light of a dimmable module.
abbrev pub is_dimmer_item : OutputKey → Text → Bool → ℤ → OutputConfig → Bool
is_dimmer_item key module_name dim output (light name) = dim && key == (module_name, output)
is_dimmer_item key module_name dim output (shutter down_output name) = false
is_dimmer_item key module_name dim output (switch name) = false

abbrev pub is_dimmer_output : OutputKey → Text → Bool → Outputs → Bool
is_dimmer_output key module_name dim [] = false
is_dimmer_output key module_name dim ((output, cfg) ∷ outputs) =
    is_dimmer_item key module_name dim output cfg || is_dimmer_output key module_name dim outputs

abbrev pub is_dimmer_of : OutputKey → SubentryData → Bool
is_dimmer_of key (module_data sub_data) =
    is_dimmer_output key sub_data.letter sub_data.dimmable_module sub_data.outputs
is_dimmer_of key (mood_data number) = false

-- Some dimmable module has this output as a light.
abbrev pub is_dimmer : OutputKey → List Subentry → Bool
is_dimmer key [] = false
is_dimmer key (sub ∷ subs) = is_dimmer_of key sub.data_of || is_dimmer key subs

contains-add_output :
    (key : OutputKey) (m : Text) (dim : Bool) (output : ℤ) (cfg : OutputConfig)
    (lists : OutputLists)
    → contains key (add_output m dim output cfg lists).dimmer_list
      ≡ (is_dimmer_item key m dim output cfg || contains key lists.dimmer_list)
unfolding add_output
contains-add_output key m true output (light name) lists =
    contains-add key (m, output) lists.dimmer_list
contains-add_output key m false output (light name) lists = refl
contains-add_output key m dim output (shutter down_output name) lists = refl
contains-add_output key m dim output (switch name) lists = refl

or_turn : (a b c : Bool) → (b || (a || c)) ≡ ((a || b) || c)
or_turn a b c = ground arith

contains-add_outputs :
    (key : OutputKey) (m : Text) (dim : Bool) (outputs : Outputs) (lists : OutputLists)
    → contains key (add_outputs m dim outputs lists).dimmer_list
      ≡ (is_dimmer_output key m dim outputs || contains key lists.dimmer_list)
unfolding add_outputs
contains-add_outputs key m dim [] lists = refl
contains-add_outputs key m dim ((output, cfg) ∷ outputs) lists =
    contains-add_outputs key m dim outputs (add_output m dim output cfg lists)
    ∙ rw (contains-add_output key m dim output cfg lists) (
        or_turn (is_dimmer_item key m dim output cfg) (is_dimmer_output key m dim outputs)
          (contains key lists.dimmer_list))

contains-add_subentry :
    (key : OutputKey) (sub : SubentryData) (lists : OutputLists)
    → contains key (add_subentry sub lists).dimmer_list
      ≡ (is_dimmer_of key sub || contains key lists.dimmer_list)
unfolding add_subentry
contains-add_subentry key (module_data sub_data) lists =
    contains-add_outputs key sub_data.letter sub_data.dimmable_module sub_data.outputs lists
contains-add_subentry key (mood_data number) lists = refl

contains-add_subentries :
    (key : OutputKey) (subs : List Subentry) (lists : OutputLists)
    → contains key (add_subentries subs lists).dimmer_list
      ≡ (is_dimmer key subs || contains key lists.dimmer_list)
unfolding add_subentries
contains-add_subentries key [] lists = refl
contains-add_subentries key (sub ∷ subs) lists =
    contains-add_subentries key subs (add_subentry sub.data_of lists)
    ∙ rw (contains-add_subentry key sub.data_of lists) (
        or_turn (is_dimmer_of key sub.data_of) (is_dimmer key subs)
          (contains key lists.dimmer_list))

-- For the subentries of any entry, the dimmers that are listed are exactly the lights of its dimmable
-- modules.
pub parse_output_lists-dimmers :
    (key : OutputKey) (subentries : List Subentry)
    → contains key (parse_output_lists subentries).dimmer_list ≡ is_dimmer key subentries
unfolding parse_output_lists
parse_output_lists-dimmers key subentries =
    contains-add_subentries key subentries no_outputs ∙ or_false (is_dimmer key subentries)
  where
    or_false : (b : Bool) → (b || false) ≡ b
    or_false true = refl
    or_false false = refl
