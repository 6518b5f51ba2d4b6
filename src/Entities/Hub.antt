-- ===== src/Entities/Hub.antt =====
-- scene.py, sensor.py, binary_sensor.py: the scenes of the moods and the diagnostic entities of an
-- entry.
use hass_dobiss_sx_evolution.Prelude.{
  Bool, List, Option, Text, [], codes, if◌then◌else◌, ℕ, ℤ, ◌&&◌, ◌++◌, ◌||◌, ◌∷◌,
}
use hass_dobiss_sx_evolution.ConfigFlow.Entry.{is_there}
use hass_dobiss_sx_evolution.ConfigFlow.Flow.{Subentry, SubentryData, module_data, mood_data}
use hass_dobiss_sx_evolution.Controller.Commands.{activate_mood}
use hass_dobiss_sx_evolution.Controller.Connection.{ConfigData}
use hass_dobiss_sx_evolution.Controller.State.{Action, Controller, is_bus_connected}
use hass_dobiss_sx_evolution.Coordinator.{Coordinator}
use hass_dobiss_sx_evolution.Coordinator.Links.{serial_client_device, tcp_client_host}
use hass_dobiss_sx_evolution.Entities.{as_home_assistant_error}
use hass_dobiss_sx_evolution.Protocol.Eeprom.{DateTime}

-- `DobissMoodScene.async_activate`
unfoldable pub scene_activate : ℤ → Action (Unit {0})
scene_activate mood_number c = as_home_assistant_error (activate_mood mood_number c)

-- `DobissMoodScene.available`, given that of CoordinatorEntity
unfoldable pub scene_available : Bool → Controller → Bool
scene_available coordinator_available c = coordinator_available && is_bus_connected c

-- A scene: its unique id, the mood, its name.
pub record MoodScene : Type 0 where
  pub scene_id : Text
  pub scene_mood : ℤ
  pub scene_name : Text

abbrev pub scenes_of : Text → Text → SubentryData → List MoodScene
scenes_of subentry_id title (module_data sub_data) = []
scenes_of subentry_id title (mood_data number) =
    record { scene_id = subentry_id ++ codes "-mood"; scene_mood = number; scene_name = title } ∷ []

-- scene.py, `async_setup_entry`: one call of `async_add_entities` for each scene
unfoldable pub setup_scenes : List Subentry → List MoodScene
setup_scenes [] = []
setup_scenes (sub ∷ subs) = scenes_of sub.subentry_id sub.title sub.data_of ++ setup_scenes subs

abbrev pub has_max200_client : ConfigData → Bool
has_max200_client entry_data =
    is_there (serial_client_device entry_data) || is_there (tcp_client_host entry_data)

-- sensor.py, `async_setup_entry`, by the unique ids
unfoldable pub setup_sensors : Text → ConfigData → List Text
setup_sensors entry_id entry_data =
    (entry_id ++ codes "_reconnect_count")
    ∷ (if has_max200_client entry_data then (entry_id ++ codes "_last_clock_sync") ∷ [] else [])

-- binary_sensor.py, `async_setup_entry`, by the unique ids
unfoldable pub setup_binary_sensors : Text → ConfigData → List Text
setup_binary_sensors entry_id entry_data =
    (entry_id ++ codes "_bus_connected")
    ∷ (if has_max200_client entry_data then (entry_id ++ codes "_max200_link") ∷ [] else [])

-- `DobissReconnectCount.native_value`
unfoldable pub reconnect_count_value : Coordinator → ℕ
reconnect_count_value co = co.controller.reconnect_count

-- `DobissLastClockSync.native_value`
unfoldable pub last_clock_sync_value : Coordinator → Option DateTime
last_clock_sync_value co = co.last_clock_sync

-- `DobissBusConnectivity.is_on`
unfoldable pub bus_connectivity : Coordinator → Bool
bus_connectivity co = is_bus_connected co.controller

-- `DobissMax200LinkStatus.is_on`
unfoldable pub max200_link : Coordinator → Option Bool
max200_link co = co.last_clock_sync_ok
