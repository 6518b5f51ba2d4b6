-- ===== src/Tests.antt =====
-- Runs of the theorems on the entities, the coordinator and the setup at concrete inputs.
use hass_dobiss_sx_evolution.Prelude.{
  Result, [], arith, bool_eq, codes, connection_error, contains, false, if◌then◌else◌, inr, int_eq,
  nat_eq, none, option_eq, pair_eq, pos, raised, refl, some, text_eq, true, ◌++◌, ◌∷◌, ◌≡◌,
}
use hass_dobiss_sx_evolution.ConfigFlow.Flow.{ModuleData, Subentry, module_data}
use hass_dobiss_sx_evolution.ConfigFlow.Outputs.{light}
use hass_dobiss_sx_evolution.Controller.Commands.{light_on, send_frame, send_state, turn_on}
use hass_dobiss_sx_evolution.Controller.Connection.{ConfigData, socketcand}
use hass_dobiss_sx_evolution.Controller.Lifecycle.{refused}
use hass_dobiss_sx_evolution.Controller.Lifecycle.Tidy.{IsTidy}
use hass_dobiss_sx_evolution.Controller.State.{Bus, Controller, OutputKey, new_controller}
use hass_dobiss_sx_evolution.Coordinator.{Coordinator, setup_coordinator}
use hass_dobiss_sx_evolution.Coordinator.Fresh.{
  IsFresh, after_coordinator_events, after_coordinator_events-IsFresh, commanded, flushed,
}
use hass_dobiss_sx_evolution.Coordinator.OutputLists.{parse_output_lists}
use hass_dobiss_sx_evolution.Coordinator.Starts.{Starts, setup_coordinator-Starts}
use hass_dobiss_sx_evolution.Entities.{state_of}
use hass_dobiss_sx_evolution.Entities.Light.{DobissLight, brightness, light_turn_on}
use hass_dobiss_sx_evolution.Entities.Light.Laws.{
  after_updates, all_found, asked, light_turn_on-brightness,
}
use hass_dobiss_sx_evolution.Protocol.Brightness.{can_to_ha_brightness, ha_to_can_brightness}
use hass_dobiss_sx_evolution.Protocol.Eeprom.{DateTime}
use hass_dobiss_sx_evolution.Protocol.Frame.{build_state_frame}
use hass_dobiss_sx_evolution.Setup.{
  RegistryEntry, Snapshot, module_config, prune_stale_entities, reload_listener, unique_id_of,
}
use hass_dobiss_sx_evolution.Setup.Listener.{
  HasLists, KeepsBus, has_output, reload_listener-platforms,
}
use hass_dobiss_sx_evolution.Setup.Prune.{prune_stale_entities-configured}

abbrev dimmer_key : OutputKey
dimmer_key = (b'A' ∷ [], pos 2)

abbrev open_bus_of : Bus
open_bus_of = record { rejects = λ trace f. false }

abbrev listening : Controller
listening = record (new_controller (socketcand [] (pos 1) []) [] (dimmer_key ∷ []) [] []) {
  bus = some open_bus_of;
  listeners = 0 ∷ [];
}

abbrev a_light : DobissLight
a_light = record { light_key = dimmer_key; attr_brightness = none; optimistic_can_value = none }

light_turn_on-brightness_example :
    let (_, l', c') = light_turn_on a_light (some (pos 200)) listening in
    brightness (after_updates (c' ∷ listening ∷ listening ∷ []) l') listening
    ≡ some (
        if all_found dimmer_key (state_of dimmer_key c') (c' ∷ listening ∷ listening ∷ [])
        then asked (some (pos 200))
        else pos (can_to_ha_brightness (state_of dimmer_key listening)))
unfolding light_turn_on turn_on send_state send_frame build_state_frame new_controller
    ha_to_can_brightness
light_turn_on-brightness_example =
    let c' : Controller = (light_turn_on a_light (some (pos 200)) listening).2 in
    light_turn_on-brightness a_light (some (pos 200)) listening (c' ∷ listening ∷ listening ∷ [])
      listening refl refl refl

abbrev a_coordinator : Coordinator
a_coordinator = record {
  controller = listening;
  snapshot = [];
  debounce = false;
  last_clock_sync_ok = none;
  last_clock_sync = none;
}

after_coordinator_events-IsFresh_example :
    IsFresh 0 (
      after_coordinator_events 0
        (commanded (light_on dimmer_key none) ∷ flushed ∷ [])
        a_coordinator)
unfolding new_controller
after_coordinator_events-IsFresh_example =
    after_coordinator_events-IsFresh 0 (commanded (light_on dimmer_key none) ∷ flushed ∷ [])
      a_coordinator (refl, inr refl)

abbrev a_date : DateTime
a_date = record {
  second = 0;
  minute = 0;
  hour = 12;
  isoweekday = 1;
  day = 1;
  month = 1;
  year = 2024;
}

-- A client whose link is down.
abbrev broken_client : DateTime → Result (Unit {0})
broken_client now = raised connection_error

abbrev fresh_coordinator : Coordinator
fresh_coordinator = record a_coordinator {
  controller = new_controller (socketcand [] (pos 1) []) [] (dimmer_key ∷ []) [] [];
}

fresh_coordinator-IsTidy : IsTidy fresh_coordinator.controller
unfolding new_controller
fresh_coordinator-IsTidy = record {
  buses = refl;
  orphans = omega arith;
  notifiers = refl;
  issues = refl;
  paired = refl;
  on_bus = refl;
}

setup_coordinator-Starts_example :
    let (r, co') =
      setup_coordinator 0 none (some broken_client) a_date refused 100 [] fresh_coordinator in
    Starts 0 0 r co'
unfolding new_controller
setup_coordinator-Starts_example =
    setup_coordinator-Starts 0 none (some broken_client) a_date refused 100 [] fresh_coordinator
      fresh_coordinator-IsTidy

abbrev a_module : ModuleData
a_module = record { letter = b'A' ∷ []; dimmable_module = true; outputs = (pos 2, light []) ∷ [] }

abbrev a_subentry : Subentry
a_subentry = record { subentry_id = codes "s1"; title = []; data_of = module_data a_module }

abbrev a_reg : RegistryEntry
a_reg = record {
  entity_id = codes "light.a2";
  config_subentry_id = some (codes "s1");
  unique_id = unique_id_of (codes "s1") (pos 2) (light []);
}

abbrev a_stale_reg : RegistryEntry
a_stale_reg = record {
  entity_id = codes "light.a3";
  config_subentry_id = some (codes "s1");
  unique_id = unique_id_of (codes "s1") (pos 3) (light []);
}

prune_stale_entities-configured_example :
    prune_stale_entities (a_subentry ∷ []) ((a_stale_reg ∷ []) ++ a_reg ∷ [])
    ≡ prune_stale_entities (a_subentry ∷ []) (a_stale_reg ∷ [])
      ++ a_reg ∷ prune_stale_entities (a_subentry ∷ []) []
prune_stale_entities-configured_example =
    prune_stale_entities-configured 0 (a_subentry ∷ []) a_subentry a_module (pos 2) (light []) a_reg
      (a_stale_reg ∷ []) [] refl refl refl refl

abbrev some_config : ConfigData
some_config = record {
  connection_type = none;
  host = none;
  port = none;
  interface = none;
  device = none;
  master_device = none;
  max200_host = none;
}

abbrev a_snapshot : Snapshot
a_snapshot = record { prev_conn = some_config; prev_modules = (b'A' ∷ [], true) ∷ [] }

reload_listener-platforms_example :
    (c : Controller) × (some listening ≡ some c)
    × (some_config ≡ a_snapshot.prev_conn)
    × (contains (b'A' ∷ [], true) (module_config (a_subentry ∷ []))
        ≡ contains (b'A' ∷ [], true) a_snapshot.prev_modules)
    × (c' : Controller) × ((reload_listener
          (some listening)
          a_snapshot
          some_config
          (a_subentry ∷ [])
          []).controller_after
        ≡ some c')
    × HasLists (parse_output_lists (a_subentry ∷ [])) c'
    × (contains (b'A' ∷ []) c'.modules
        ≡ has_output (b'A' ∷ []) (parse_output_lists (a_subentry ∷ [])))
    × KeepsBus c c'
unfolding reload_listener
reload_listener-platforms_example =
    reload_listener-platforms (some listening) a_snapshot some_config (a_subentry ∷ []) []
      (b'A' ∷ [], true) (b'A' ∷ []) refl
