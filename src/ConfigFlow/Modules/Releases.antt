-- ===== src/ConfigFlow/Modules/Releases.antt =====
-- config_flow.py: the output numbers that removing an output makes free.
use hass_dobiss_sx_evolution.Prelude.{
  ==_iff, ==_refl, List, Text, [], ap, arith, contains, false, get, has_key-some, inl, inr, int_eq,
  nat_eq, not, pair_eq, pop, put, refl, some, sym, text_eq, true, ℤ, ◌&&◌, ◌||◌, ◌∙◌, ◌∷◌, ◌≡◌,
}
use hass_dobiss_sx_evolution.ConfigFlow.Flow.{ModuleData}
use hass_dobiss_sx_evolution.ConfigFlow.Modules.{is_empty, remove_output}
use hass_dobiss_sx_evolution.ConfigFlow.Modules.Accepts.{outputs_after}
use hass_dobiss_sx_evolution.ConfigFlow.Outputs.{OutputConfig, Outputs, occupied_outputs}
use hass_dobiss_sx_evolution.ConfigFlow.Outputs.Claims.{
  Free, IsValid, claims, contains-occupied_put,
}
use hass_dobiss_sx_evolution.ConfigFlow.Outputs.Valid.{IsValid-get, get_cases}
use mathlib.Core.Option.{none-ne-some}

put_same :
    (key : ℤ) (cfg : OutputConfig) (outputs : Outputs)
    → get key outputs ≡ some cfg
    → put key cfg outputs ≡ outputs
put_same key cfg [] h = absurd (none-ne-some cfg h)
put_same key cfg ((k, c) ∷ outputs) h = elim (get_cases key k c cfg outputs h) [
  | inl at ↦ rw (at.0, sym at.1) (rw (==_refl k) refl)
  | inr past ↦ rw past.2 (ap (λ rest. (k, c) ∷ rest) (put_same key cfg outputs past.0))
]

Free-contains :
    (x : ℤ) (ns taken : List ℤ) → Free ns taken → contains x ns ≡ true → contains x taken ≡ false
Free-contains x [] taken f h = ground arith
Free-contains x (n ∷ ns) taken f h = ground (arith, ==_iff x n, at, Free-contains x ns taken f.1)
  where
    at : x ≡ n → contains x taken ≡ contains n taken
    at p = λ i. contains (p i) taken

is_empty-get :
    (key : ℤ) (cfg : OutputConfig) (outputs : Outputs)
    → get key outputs ≡ some cfg
    → is_empty outputs ≡ false
is_empty-get key cfg [] h = absurd (none-ne-some cfg h)
is_empty-get key cfg (item ∷ outputs) h = refl

-- The claims of all items are those of one of them and those of the others.
contains-occupied_get :
    (x key : ℤ) (cfg : OutputConfig) (outputs : Outputs)
    → get key outputs ≡ some cfg
    → contains x (occupied_outputs outputs)
      ≡ (contains x (claims key cfg) || contains x (occupied_outputs (pop key outputs)))
contains-occupied_get x key cfg outputs h =
    ap (λ o. contains x (occupied_outputs o)) (sym (put_same key cfg outputs h))
    ∙ contains-occupied_put x key cfg outputs

-- After the removal of an item from valid outputs, a number is claimed exactly if it was claimed
-- before and is none of the item's own: exactly the item's claims are free again.
pub remove_output-claims :
    (title : Text) (sub_data : ModuleData) (key x : ℤ) (cfg : OutputConfig)
    → IsValid sub_data.outputs
    → get key sub_data.outputs ≡ some cfg
    → contains x (
        occupied_outputs (outputs_after (remove_output title sub_data (some key)) sub_data.outputs))
      ≡ (contains x (occupied_outputs sub_data.outputs) && not (contains x (claims key cfg)))
unfolding remove_output
remove_output-claims title sub_data key x cfg v h =
    rw (is_empty-get key cfg sub_data.outputs h, has_key-some key cfg sub_data.outputs h)
      (ground (
        arith,
        contains-occupied_get x key cfg sub_data.outputs h,
        Free-contains x (claims key cfg) (occupied_outputs (pop key sub_data.outputs))
            (IsValid-get key cfg sub_data.outputs v h).2,
      ))
