-- ===== src/Entities/Reported.antt =====
-- switch.py, cover.py, scene.py: what an entity's call raises to Home Assistant.
use hass_dobiss_sx_evolution.Prelude.{
  Exn, Result, cancelled_error, home_assistant_error, inl, inr, none, ok, raised, refl, ℤ, ◌≡◌, ◌⊎◌,
}
use hass_dobiss_sx_evolution.Controller.Commands.{
  Command, light_on, mood, output_off, run_command, shutter_close, shutter_open, shutter_stop,
}
use hass_dobiss_sx_evolution.Controller.Commands.Laws.{run_command-atomic}
use hass_dobiss_sx_evolution.Controller.State.{Action, Controller, OutputKey, ShutterConfig}
use hass_dobiss_sx_evolution.Entities.{
  as_home_assistant_error, bus_call, close_cover, open_cover, stop_cover, switch_turn_off,
  switch_turn_on,
}
use hass_dobiss_sx_evolution.Entities.Hub.{scene_activate}

-- The calls of the entities that keep no state of their own.
pub data EntityCall : Type 0 where
  call_switch_on call_switch_off : OutputKey → EntityCall
  call_open call_close call_stop : ShutterConfig → EntityCall
  call_scene : ℤ → EntityCall

abbrev pub entity_call : EntityCall → Action (Unit {0})
entity_call (call_switch_on key) = switch_turn_on key
entity_call (call_switch_off key) = switch_turn_off key
entity_call (call_open s) = open_cover s
entity_call (call_close s) = close_cover s
entity_call (call_stop s) = stop_cover s
entity_call (call_scene n) = scene_activate n

-- The controller's command behind a call.
abbrev pub command_behind : EntityCall → Command
command_behind (call_switch_on key) = light_on key none
command_behind (call_switch_off key) = output_off key
command_behind (call_open s) = shutter_open s
command_behind (call_close s) = shutter_close s
command_behind (call_stop s) = shutter_stop s
command_behind (call_scene n) = mood n

entity_call_lem :
    (call : EntityCall) (c : Controller)
    → entity_call call c ≡ as_home_assistant_error (run_command (command_behind call) c)
unfolding switch_turn_on switch_turn_off open_cover close_cover stop_cover scene_activate bus_call
    run_command
entity_call_lem (call_switch_on key) c = refl
entity_call_lem (call_switch_off key) c = refl
entity_call_lem (call_open s) c = refl
entity_call_lem (call_close s) c = refl
entity_call_lem (call_stop s) c = refl
entity_call_lem (call_scene n) c = refl

-- How a call ends, by how the command behind it does on the controller c.
abbrev pub Reported :
    Controller → Result (Unit {0}) × Controller → Result (Unit {0}) × Controller → Type 0
Reported c (ok u, c') r = r ≡ (ok tt, c')
Reported c (raised e, c') r =
    (r ≡ (raised home_assistant_error, c))
    ⊎ ((e ≡ cancelled_error) × (r ≡ (raised cancelled_error, c)))

as_error-Reported :
    (c : Controller) (r : Result (Unit {0}) × Controller)
    → ((e : Exn) → r.0 ≡ raised e → r.1 ≡ c)
    → Reported c r (as_home_assistant_error r)
as_error-Reported c (ok u, c') h = refl
as_error-Reported c (raised cancelled_error, c') h =
    inr (refl, λ i. (raised cancelled_error, h cancelled_error refl i))
as_error-Reported c (raised e, c') h = inl (λ i. (raised home_assistant_error, h e refl i))

-- A call of a switch, a cover or a scene that succeeds does what its command does to the controller;
-- one that fails raises a HomeAssistantError, or a cancellation if that is what the command raised,
-- and leaves the controller as it was.
pub entity_call-Reported :
    (call : EntityCall) (c : Controller)
    → Reported c (run_command (command_behind call) c) (entity_call call c)
entity_call-Reported call c = rw (entity_call_lem call c) (
    as_error-Reported c (run_command (command_behind call) c)
      (run_command-atomic (command_behind call) c))
