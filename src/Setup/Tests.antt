-- ===== src/Setup/Tests.antt =====
-- Runs of the theorems on the platforms, the devices and the services at concrete inputs.
use hass_dobiss_sx_evolution.Prelude.{
  List, [], bool_eq, codes, contains, int_eq, nat_eq, none, ok, option_eq, pair_eq, pos, refl,
  text_eq, true, ◌∷◌, ◌≡◌,
}
use hass_dobiss_sx_evolution.ConfigFlow.Flow.{ModuleData, Subentry, module_data}
use hass_dobiss_sx_evolution.ConfigFlow.Outputs.{light}
use hass_dobiss_sx_evolution.Controller.Connection.{ConfigData}
use hass_dobiss_sx_evolution.Coordinator.Links.{new_coordinator}
use hass_dobiss_sx_evolution.Setup.{all_expected}
use hass_dobiss_sx_evolution.Setup.Created.{all_expected-created, created_by_platforms, ids_of}
use hass_dobiss_sx_evolution.Setup.Dims.{ControllerAgrees, setup_lights-dimmable}
use hass_dobiss_sx_evolution.Setup.Platforms.{setup_lights}
use hass_dobiss_sx_evolution.Setup.Services.{Domain, setup_entry}
use hass_dobiss_sx_evolution.Setup.Services.Reaches.{
  AllServed, Reaches-AllServed, entry_added, entry_set_up, no_entries, start_domain, step_domain,
}

abbrev dimming_module : ModuleData
dimming_module = record {
  letter = b'A' ∷ [];
  dimmable_module = true;
  outputs = (pos 2, light []) ∷ [];
}

abbrev configured_modules : List Subentry
configured_modules =
    record { subentry_id = codes "s1"; title = []; data_of = module_data dimming_module } ∷ []

abbrev no_config : ConfigData
no_config = record {
  connection_type = none;
  host = none;
  port = none;
  interface = none;
  device = none;
  master_device = none;
  max200_host = none;
}

all_expected-created_example :
    contains (codes "s1-light_2") (all_expected configured_modules)
    ≡ contains (codes "s1-light_2") (ids_of (created_by_platforms configured_modules))
all_expected-created_example = all_expected-created (codes "s1-light_2") configured_modules

setup_lights-dimmable_example :
    ControllerAgrees
      (new_coordinator no_config configured_modules).controller
      (setup_lights configured_modules)
setup_lights-dimmable_example = setup_lights-dimmable no_config configured_modules (refl, tt)

abbrev served : Domain
served = (setup_entry (ok tt) (codes "e1") (record no_entries { entry_ids = codes "e1" ∷ [] })).1

Reaches-AllServed_example : AllServed served
Reaches-AllServed_example = Reaches-AllServed (
    step_domain (step_domain start_domain (entry_added (codes "e1")))
      (entry_set_up (ok tt) (codes "e1") refl))
