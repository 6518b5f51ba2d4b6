-- ===== src/Controller/Commands.antt =====
-- controller.py: the writes to the bus and the optimistic update of the cache.
pub mod Ran
pub mod Laws
pub mod Shutters
use hass_dobiss_sx_evolution.Prelude.{
  Bool, List, Option, Text, [], bus_error, false, if◌then◌else◌, int_eq, nat_eq, none, ok, pair_eq,
  pos, put, raised, runtime_error, some, text_eq, true, ℕ, ℤ, ◌∷◌,
}
use hass_dobiss_sx_evolution.Controller.State.{
  Action, Controller, Effect, OutputKey, ShutterConfig, dimmable, modify, notified, sent, then_do,
}
use hass_dobiss_sx_evolution.Protocol.Brightness.{
  can_tx_to_rx, ha_to_can_brightness, max_can_brightness_tx,
}
use hass_dobiss_sx_evolution.Protocol.Frame.{
  CanFrame, build_mood_frame, build_state_frame, dump_request_frame,
}

-- for listener in list(self._listeners): an exception of a listener is logged and ends there
abbrev pub notify_all : List ℕ → OutputKey → ℕ → List Effect → List Effect
notify_all [] key value trace = trace
notify_all (l ∷ ls) key value trace = notify_all ls key value (notified l key value ∷ trace)

-- `_apply_local`
unfoldable pub apply_local : OutputKey → ℕ → Controller → Controller
apply_local key value c = record c {
  states = put key value c.states;
  trace = notify_all c.listeners key value c.trace;
}

-- `_send_frame`
unfoldable pub send_frame : CanFrame → Action (Unit {0})
send_frame frame c = elim c.bus [
  | none ↦ (raised runtime_error, c)
  | some bus ↦
      if bus.rejects c.trace frame
      then (raised bus_error, c)
      else (ok tt, record c { trace = sent frame ∷ c.trace })
]

-- `_send_state`
unfoldable pub send_state : Text → ℤ → ℤ → Action (Unit {0})
unfolding send_frame
send_state letter output value c = elim (build_state_frame letter output value) [
  | raised e ↦ (raised e, c)
  | ok none ↦ (raised runtime_error, c)
  | ok (some frame) ↦ send_frame frame c
]

-- The value of an ON write.
abbrev pub on_value : Bool → Option ℤ → ℕ
on_value false brightness = 1
on_value true none = max_can_brightness_tx
on_value true (some b) = ha_to_can_brightness b

-- The state that the bus is expected to echo after a write.
abbrev pub echo_value : Bool → ℕ → ℕ
echo_value true value = can_tx_to_rx (pos value)
echo_value false value = value

-- `async_turn_on`
unfoldable pub turn_on : OutputKey → Option ℤ → Action (Unit {0})
unfolding apply_local
turn_on key brightness c =
    let value = on_value (dimmable key c) brightness in
    then_do (send_state key.0 key.1 (pos value))
      (modify (λ c'. apply_local key (echo_value (dimmable key c') value) c')) c

-- `async_turn_off`
unfoldable pub turn_off : OutputKey → Action (Unit {0})
unfolding apply_local
turn_off key = then_do (send_state key.0 key.1 (pos 0)) (modify (apply_local key 0))

-- `async_open_shutter`
unfoldable pub open_shutter : ShutterConfig → Action (Unit {0})
unfolding apply_local
open_shutter s = then_do (send_state s.module_letter s.up_output (pos 1)) (
    modify (λ c.
      apply_local (s.module_letter, s.down_output) 0
        (apply_local (s.module_letter, s.up_output) 1 c)))

-- `async_close_shutter`
unfoldable pub close_shutter : ShutterConfig → Action (Unit {0})
unfolding apply_local
close_shutter s = then_do (send_state s.module_letter s.down_output (pos 1)) (
    modify (λ c.
      apply_local (s.module_letter, s.up_output) 0
        (apply_local (s.module_letter, s.down_output) 1 c)))

-- `async_stop_shutter`
unfoldable pub stop_shutter : ShutterConfig → Action (Unit {0})
unfolding apply_local
stop_shutter s = then_do (send_state s.module_letter s.up_output (pos 0)) (
    modify (λ c.
      apply_local (s.module_letter, s.down_output) 0
        (apply_local (s.module_letter, s.up_output) 0 c)))

-- `async_activate_mood`
unfoldable pub activate_mood : ℤ → Action (Unit {0})
activate_mood mood_number c = elim (build_mood_frame mood_number) [
  | none ↦ (raised runtime_error, c)
  | some frame ↦ send_frame frame c
]

-- `async_request_dump`
unfoldable pub request_dump : Action (Unit {0})
request_dump = send_frame dump_request_frame

-- The commands that entities and services give.
pub data Command : Type 0 where
  light_on : OutputKey → Option ℤ → Command
  output_off : OutputKey → Command
  shutter_open shutter_close shutter_stop : ShutterConfig → Command
  mood : ℤ → Command
  dump : Command

unfoldable pub run_command : Command → Action (Unit {0})
unfolding turn_on turn_off open_shutter close_shutter stop_shutter activate_mood request_dump
run_command (light_on key brightness) = turn_on key brightness
run_command (output_off key) = turn_off key
run_command (shutter_open s) = open_shutter s
run_command (shutter_close s) = close_shutter s
run_command (shutter_stop s) = stop_shutter s
run_command (mood n) = activate_mood n
run_command dump = request_dump
