-- ===== src/Entities.antt =====
-- entity.py, switch.py, cover.py: the entities that pass a call on to the controller. The light of
-- light.py keeps a state of its own and is in Entities/Light.
pub mod Hub
pub mod Reported
pub mod Light
use hass_dobiss_sx_evolution.Prelude.{
  Bool, Result, cancelled_error, get_or, home_assistant_error, int_eq, ltb, nat_eq, none, ok,
  pair_eq, raised, text_eq, ℕ, ◌&&◌,
}
use hass_dobiss_sx_evolution.Controller.Commands.{
  close_shutter, open_shutter, stop_shutter, turn_off, turn_on,
}
use hass_dobiss_sx_evolution.Controller.State.{
  Action, Controller, OutputKey, ShutterConfig, is_bus_connected,
}

-- `DobissEntity._bus_call`: whatever the call raises, but for a cancellation, becomes a
-- HomeAssistantError
abbrev pub as_home_assistant_error : Result (Unit {0}) × Controller → Result (Unit {0}) × Controller
as_home_assistant_error (ok u, c) = (ok u, c)
as_home_assistant_error (raised cancelled_error, c) = (raised cancelled_error, c)
as_home_assistant_error (raised e, c) = (raised home_assistant_error, c)

unfoldable pub bus_call : Action (Unit {0}) → Action (Unit {0})
bus_call call c = as_home_assistant_error (call c)

-- `DobissEntity.available`, given that of CoordinatorEntity
unfoldable pub available : Bool → Controller → Bool
available coordinator_available c = coordinator_available && is_bus_connected c

-- self.coordinator.controller.states.get(self._key, 0)
abbrev pub state_of : OutputKey → Controller → ℕ
state_of key c = get_or c.states key 0

-- `DobissSwitch.is_on`, and `DobissLight.is_on`
unfoldable pub is_on : OutputKey → Controller → Bool
is_on key c = ltb 0 (state_of key c)

-- `DobissSwitch.async_turn_on`
unfoldable pub switch_turn_on : OutputKey → Action (Unit {0})
unfolding bus_call
switch_turn_on key = bus_call (turn_on key none)

-- `DobissSwitch.async_turn_off`
unfoldable pub switch_turn_off : OutputKey → Action (Unit {0})
unfolding bus_call
switch_turn_off key = bus_call (turn_off key)

-- `DobissShutter.async_open_cover`
unfoldable pub open_cover : ShutterConfig → Action (Unit {0})
unfolding bus_call
open_cover shutter_config = bus_call (open_shutter shutter_config)

-- `DobissShutter.async_close_cover`
unfoldable pub close_cover : ShutterConfig → Action (Unit {0})
unfolding bus_call
close_cover shutter_config = bus_call (close_shutter shutter_config)

-- `DobissShutter.async_stop_cover`
unfoldable pub stop_cover : ShutterConfig → Action (Unit {0})
unfolding bus_call
stop_cover shutter_config = bus_call (stop_shutter shutter_config)
