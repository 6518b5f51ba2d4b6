-- ===== src/Setup.antt =====
-- __init__.py: which registry entities an entry's subentries need, and what an update of the entry
-- reloads.
pub mod Platforms
pub mod Created
pub mod Tests
pub mod DeviceNames
pub mod Devices
pub mod Dims
pub mod Services
pub mod Prune
pub mod Listener
use hass_dobiss_sx_evolution.Prelude.{
  Bool, List, Option, Result, Text, [], add, bool_eq, cancelled_error, codes, contains, false,
  if◌then◌else◌, int_eq, keep, nat_eq, none, not, ok, option_eq, pair_eq, raised, some, str_int,
  text_eq, true, ℤ, ◌&&◌, ◌++◌, ◌==◌, ◌||◌, ◌∷◌,
}
use hass_dobiss_sx_evolution.ConfigFlow.Flow.{Subentry, SubentryData, module_data, mood_data}
use hass_dobiss_sx_evolution.ConfigFlow.Outputs.{OutputConfig, Outputs, light, shutter, switch}
use hass_dobiss_sx_evolution.Controller.Connection.{ConfigData}
use hass_dobiss_sx_evolution.Controller.Refresh.{Settled}
use hass_dobiss_sx_evolution.Controller.State.{Controller, module_letters}
use hass_dobiss_sx_evolution.Coordinator.{Coordinator}
use hass_dobiss_sx_evolution.Coordinator.OutputLists.{OutputLists, parse_output_lists}

abbrev platform_of : OutputConfig → Text
platform_of (light name) = codes "-light_"
platform_of (switch name) = codes "-switch_"
platform_of (shutter down_output name) = codes "-cover_"

-- f"{subentry_id}-light_{output_str}", and the like
abbrev pub unique_id_of : Text → ℤ → OutputConfig → Text
unique_id_of subentry_id output cfg = subentry_id ++ (platform_of cfg ++ str_int output)

unfoldable pub output_ids : Text → Outputs → List Text
output_ids subentry_id [] = []
output_ids subentry_id ((output, cfg) ∷ outputs) =
    add (unique_id_of subentry_id output cfg) (output_ids subentry_id outputs)

-- `_expected_unique_ids`, of a module's subentry, and the empty set of a mood's
unfoldable pub expected_unique_ids : Text → SubentryData → List Text
unfolding output_ids
expected_unique_ids subentry_id (module_data sub_data) = output_ids subentry_id sub_data.outputs
expected_unique_ids subentry_id (mood_data number) = []

abbrev pub is_module : SubentryData → Bool
is_module (module_data sub_data) = true
is_module (mood_data number) = false

pub record RegistryEntry : Type 0 where
  pub entity_id : Text
  pub config_subentry_id : Option Text
  pub unique_id : Text

-- module_sub_ids
abbrev pub module_sub_ids : List Subentry → List Text
module_sub_ids [] = []
module_sub_ids (sub ∷ subs) =
    let rest = module_sub_ids subs in if is_module sub.data_of then sub.subentry_id ∷ rest else rest

-- expected |= …, for each module
unfoldable pub all_expected : List Subentry → List Text
unfolding expected_unique_ids
all_expected [] = []
all_expected (sub ∷ subs) = expected_unique_ids sub.subentry_id sub.data_of ++ all_expected subs

abbrev pub in_ids : Option Text → List Text → Bool
in_ids none ids = false
in_ids (some id) ids = contains id ids

-- The test of `_prune_stale_entities`.
abbrev pub is_stale : List Subentry → RegistryEntry → Bool
is_stale subentries reg =
    in_ids reg.config_subentry_id (module_sub_ids subentries)
    && not (contains reg.unique_id (all_expected subentries))

-- `_prune_stale_entities`: the registry's entries that stay
unfoldable pub prune_stale_entities : List Subentry → List RegistryEntry → List RegistryEntry
unfolding all_expected
prune_stale_entities subentries registry = keep (λ reg. not (is_stale subentries reg)) registry

-- The pairs of `_module_config`.
abbrev pub config_of : SubentryData → List (Text × Bool)
config_of (module_data sub_data) = (sub_data.letter, sub_data.dimmable_module) ∷ []
config_of (mood_data number) = []

-- `_module_config`, the set as a list
abbrev pub module_config : List Subentry → List (Text × Bool)
module_config [] = []
module_config (sub ∷ subs) = config_of sub.data_of ++ module_config subs

abbrev pub subset : List (Text × Bool) → List (Text × Bool) → Bool
subset [] ys = true
subset (x ∷ xs) ys = contains x ys && subset xs ys

-- Equality of sets.
abbrev pub same_set : List (Text × Bool) → List (Text × Bool) → Bool
same_set xs ys = subset xs ys && subset ys xs

-- `_connection_key`, compared
unfoldable pub same_connection : ConfigData → ConfigData → Bool
same_connection a b =
    a.connection_type == b.connection_type
    && (a.host == b.host
        && (a.port == b.port
            && (a.interface == b.interface
                && (a.device == b.device
                    && (a.master_device == b.master_device && a.max200_host == b.max200_host)))))

-- What `_make_reload_listener` keeps between updates.
pub record Snapshot : Type 0 where
  pub prev_conn : ConfigData
  pub prev_modules : List (Text × Bool)

pub data Reload : Type 0 where
  full platforms : Reload

pub record ReloadOutcome : Type 0 where
  pub reload : Reload
  pub snapshot_after : Snapshot
  pub registry_after : List RegistryEntry
  pub controller_after : Option Controller

abbrev pub use_lists : OutputLists → Controller → Controller
use_lists lists c = record c {
  lights = lists.light_list;
  dimmers = lists.dimmer_list;
  shutters = lists.shutter_list;
  switches = lists.switch_list;
  modules = module_letters lists.light_list lists.dimmer_list lists.shutter_list lists.switch_list;
}

-- The listener of `_make_reload_listener`, up to the reload it asks for: the running controller if
-- there is one, and the updated entry's data, subentries and registry. The names of the devices are
-- `sync_device_names`, the refresh after the platforms `refresh_and_settle`, and its end `push_states`.
unfoldable pub reload_listener :
    Option Controller → Snapshot → ConfigData → List Subentry → List RegistryEntry → ReloadOutcome
unfolding parse_output_lists prune_stale_entities same_connection module_letters
reload_listener none prev new_conn subentries registry = record {
  reload = full;
  snapshot_after = record { prev_conn = new_conn; prev_modules = module_config subentries };
  registry_after = prune_stale_entities subentries registry;
  controller_after = none;
}
reload_listener (some c) prev new_conn subentries registry =
    if not (same_connection new_conn prev.prev_conn)
      || not (same_set (module_config subentries) prev.prev_modules)
    then (record {
      reload = full;
      snapshot_after = record { prev_conn = new_conn; prev_modules = module_config subentries };
      registry_after = prune_stale_entities subentries registry;
      controller_after = some c;
    })
    else (record {
      reload = platforms;
      snapshot_after = record prev { prev_modules = module_config subentries };
      registry_after = prune_stale_entities subentries registry;
      controller_after = some (use_lists (parse_output_lists subentries) c);
    })

-- The end of the listener after a platform reload: how `async_refresh_and_settle` has ended, whose
-- exceptions are logged but for a cancellation, and `async_set_updated_data` with the cache
unfoldable pub push_states : Result Settled → Coordinator → Result (Unit {0}) × Coordinator
push_states (raised cancelled_error) co = (raised cancelled_error, co)
push_states (raised e) co = (ok tt, record co { snapshot = co.controller.states })
push_states (ok s) co = (ok tt, record co { snapshot = co.controller.states })
