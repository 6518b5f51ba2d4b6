-- ===== src/ConfigFlow/Outputs.antt =====
-- config_flow.py: the outputs of a module subentry. The dict's keys, `str(n)` of an output number in
-- the source, stand here as the number n, and `int` of a key as the key.
pub mod Claims
pub mod Valid
use hass_dobiss_sx_evolution.Prelude.{Dict, List, Text, [], ℤ, ◌∷◌}

pub data OutputConfig : Type 0 where
  -- name
  light : Text → OutputConfig
  switch : Text → OutputConfig
  -- the down output, and the name
  shutter : ℤ → Text → OutputConfig

abbrev pub Outputs : Type 0
Outputs = Dict ℤ OutputConfig

-- cfg.get("name", "")
abbrev pub name_of : OutputConfig → Text
name_of (light name) = name
name_of (switch name) = name
name_of (shutter down_output name) = name

-- `_occupied_outputs_in_module`, the set as a list
unfoldable pub occupied_outputs : Outputs → List ℤ
occupied_outputs [] = []
occupied_outputs ((key, shutter down_output name) ∷ outputs) =
    key ∷ down_output ∷ occupied_outputs outputs
occupied_outputs ((key, cfg) ∷ outputs) = key ∷ occupied_outputs outputs
