-- ===== src/Controller/Tests.antt =====
-- Runs of the controller's theorems at concrete inputs: a controller of module A with the light 1,
-- the dimmer 2 and the shutter 3 and 4.
use hass_dobiss_sx_evolution.Prelude.{
  List, Text, [], arith, bool_eq, codes, false, get, int_eq, leb, min, nat_eq, none, ok, option_eq,
  pair_eq, pos, refl, replicate, some, suc, text_eq, true, ◌++◌, ◌+◌, ◌^◌, ◌∷◌, ◌≡◌, ◌≢◌, ◌≤◌,
}
use hass_dobiss_sx_evolution.Controller.Commands.{
  light_on, open_shutter, run_command, send_frame, send_state, shutter_open, turn_on,
}
use hass_dobiss_sx_evolution.Controller.Commands.Laws.{frames, run_command-sends_one, wanted_frame}
use hass_dobiss_sx_evolution.Controller.Commands.Shutters.{Shows, opens, shutter_exclusive}
use hass_dobiss_sx_evolution.Controller.Connection.{ConnectionConfig, socketcand}
use hass_dobiss_sx_evolution.Controller.Discovery.{Arrival, collect, collect_initial_state, setup}
use hass_dobiss_sx_evolution.Controller.Discovery.Laws.{DiscoveryEnds, collect_initial_state_lem}
use hass_dobiss_sx_evolution.Controller.Ingest.{ingest_all, ingest_message}
use hass_dobiss_sx_evolution.Controller.Ingest.Echo.{
  broadcast, expected_echo, output_key, turn_on-echo,
}
use hass_dobiss_sx_evolution.Controller.Ingest.Latest.{get-ingest_all, latest, or_cached}
use hass_dobiss_sx_evolution.Controller.Ingest.Laws.{ingest_message_lem, reading, told}
use hass_dobiss_sx_evolution.Controller.Lifecycle.{
  cancelled_running, close_bus, end_abandoned, made, open_bus, refused, setup_notifier, shutdown,
  teardown_notifier,
}
use hass_dobiss_sx_evolution.Controller.Lifecycle.Tidy.{
  IsTidy, is_abandoned, is_closed, is_opened, is_orphaned, is_started, is_stopped, times,
}
use hass_dobiss_sx_evolution.Controller.Reach.{
  by_abandoned, by_frame, by_setup, by_shutdown, by_turn, reach_here, reach_next, reachable-IsTidy,
  shutdown_releases,
}
use hass_dobiss_sx_evolution.Controller.ReadLoop.{
  Turn, loop_turn, read_frames, read_loop, read_until_failure, reader_failed, reconnect,
  reconnect_backoff_initial_s,
}
use hass_dobiss_sx_evolution.Controller.ReadLoop.Backoff.{
  failures_in_row, read_loop-backoff, successes,
}
use hass_dobiss_sx_evolution.Controller.ReadLoop.Recovers.{IsUp, read_loop-IsUp}
use hass_dobiss_sx_evolution.Controller.ReadLoop.Tidy.{left}
use hass_dobiss_sx_evolution.Controller.Refresh.{refresh_and_settle}
use hass_dobiss_sx_evolution.Controller.Refresh.Laws.{
  RefreshEnds, refresh_and_settle_lem, requested,
}
use hass_dobiss_sx_evolution.Controller.State.{
  Bus, Controller, Message, OutputKey, ShutterConfig, new_controller,
}
use hass_dobiss_sx_evolution.Protocol.Brightness.{ha_to_can_brightness}
use hass_dobiss_sx_evolution.Protocol.Frame.{CanFrame, build_state_frame, dump_request_frame}

abbrev letter_a : Text
letter_a = b'A' ∷ []

abbrev a_dimmer : OutputKey
a_dimmer = (letter_a, pos 2)

abbrev a_shutter : ShutterConfig
a_shutter = record { module_letter = letter_a; up_output = pos 3; down_output = pos 4 }

abbrev a_connection : ConnectionConfig
a_connection = socketcand (codes "host") (pos 29536) (codes "can0")

abbrev some_lights : List OutputKey
some_lights = (letter_a, pos 1) ∷ []

abbrev a_controller : Controller
a_controller = new_controller a_connection some_lights (a_dimmer ∷ []) (a_shutter ∷ []) []

-- A bus that takes every frame.
abbrev a_bus : Bus
a_bus = record { rejects = λ trace f. false }

abbrev connected : Controller
connected = record a_controller {
  modules = letter_a ∷ [];
  bus = some a_bus;
  reader = true;
  notifier = true;
}

abbrev a_broadcast : Message
a_broadcast = broadcast b'A' 1 90

reachable-IsTidy_example :
    IsTidy (shutdown (ingest_message a_broadcast (setup (made a_bus) 0 [] a_controller).1).1)
reachable-IsTidy_example =
    reachable-IsTidy a_connection some_lights (a_dimmer ∷ []) (a_shutter ∷ []) []
      (shutdown (ingest_message a_broadcast (setup (made a_bus) 0 [] a_controller).1).1)
      (reach_next
        (reach_next (reach_next reach_here (by_setup (made a_bus) 0 [])) (by_frame a_broadcast))
        by_shutdown)

-- A turn that is cancelled while `make_bus` runs, which then makes a bus.
abbrev leaking_turn : Turn
leaking_turn = record { events = reader_failed ∷ []; job = cancelled_running }

abbrev leaking : Controller
leaking =
    end_abandoned true (left (loop_turn leaking_turn 1 (setup (made a_bus) 0 [] a_controller).1))

one_leaked :
    times is_opened (shutdown leaking).trace ≡ suc (times is_closed (shutdown leaking).trace)
unfolding shutdown end_abandoned loop_turn setup open_bus close_bus teardown_notifier setup_notifier
    reconnect read_frames read_until_failure collect_initial_state send_frame new_controller collect
one_leaked = refl

shutdown_releases_example :
    let trace = (shutdown leaking).trace in
    (times is_opened trace ≡ times is_closed trace + times is_orphaned trace)
    × (times is_orphaned trace + (shutdown leaking).opening ≤ times is_abandoned trace)
    × (times is_started trace ≡ times is_stopped trace)
    × ((shutdown leaking).bus ≡ none)
shutdown_releases_example =
    shutdown_releases a_connection some_lights (a_dimmer ∷ []) (a_shutter ∷ []) [] leaking (
      reach_next
        (reach_next (reach_next reach_here (by_setup (made a_bus) 0 [])) (by_turn leaking_turn 1))
        (by_abandoned true))

get-ingest_all_example :
    get a_dimmer (ingest_all (a_broadcast ∷ broadcast b'A' 1 50 ∷ []) connected).states
    ≡ or_cached
        (latest connected.modules a_dimmer (a_broadcast ∷ broadcast b'A' 1 50 ∷ []))
        (get a_dimmer connected.states)
get-ingest_all_example = get-ingest_all (a_broadcast ∷ broadcast b'A' 1 50 ∷ []) a_dimmer connected

ingest_message_example :
    ingest_message a_broadcast connected ≡ told (reading connected.modules a_broadcast) connected
ingest_message_example = ingest_message_lem a_broadcast connected

run_command-sends_one_example :
    (f : CanFrame) × (wanted_frame (light_on a_dimmer none) connected.dimmers ≡ ok (some f))
    × (frames (run_command (light_on a_dimmer none) connected).1.trace ≡ f ∷ frames connected.trace)
    × ((run_command (light_on a_dimmer none) connected).1.bus ≡ connected.bus)
    × (get (letter_a, pos 1) (run_command (light_on a_dimmer none) connected).1.states
        ≡ get (letter_a, pos 1) connected.states)
unfolding run_command turn_on send_state send_frame build_state_frame new_controller
run_command-sends_one_example =
    run_command-sends_one (light_on a_dimmer none) connected (letter_a, pos 1) refl refl

shutter_exclusive_example : Shows opens a_shutter (run_command (shutter_open a_shutter) connected).1
unfolding run_command open_shutter send_state send_frame build_state_frame new_controller
shutter_exclusive_example = shutter_exclusive opens a_shutter connected differ refl
  where
    differ : a_shutter.up_output ≢ a_shutter.down_output
    differ h = ground arith

turn_on-echo_example :
    let c' = (turn_on (output_key b'A' 1) (some (pos 200)) connected).1 in
    let echoed =
      (ingest_message
        (broadcast b'A' 1 (expected_echo (output_key b'A' 1) (some (pos 200)) connected))
        c').1 in
    (get (output_key b'A' 1) c'.states
      ≡ some (expected_echo (output_key b'A' 1) (some (pos 200)) connected))
    × (echoed.trace ≡ c'.trace)
    × (echoed.states ≡ c'.states)
unfolding turn_on send_state send_frame build_state_frame new_controller ha_to_can_brightness
turn_on-echo_example =
    turn_on-echo b'A' 1 (some (pos 200)) connected (omega arith) (omega arith) refl refl

-- Six turns without a frame whose reconnect is refused, and one that gets through.
abbrev failing_turns : List Turn
failing_turns = replicate 6 (record { events = []; job = refused })

read_loop-backoff_example :
    let n = failures_in_row 0 failing_turns reconnect_backoff_initial_s connected in
    (60 ≡ min (2 ^ n) 60)
    × ((left (read_loop failing_turns 1 connected)).repair_issue_active ≡ leb 6 n)
    × ((left (read_loop failing_turns 1 connected)).reconnect_count
        ≡ connected.reconnect_count + successes failing_turns reconnect_backoff_initial_s connected)
unfolding read_loop loop_turn new_controller reconnect open_bus
read_loop-backoff_example =
    read_loop-backoff failing_turns connected (left (read_loop failing_turns 1 connected)) 60 refl
      refl

abbrev an_arrival : Arrival
an_arrival = record { gap = 1; msg = a_broadcast }

collect_initial_state_example :
    DiscoveryEnds 100 connected.modules letter_a
      (an_arrival ∷ [])
      (send_frame dump_request_frame connected).0
      (collect_initial_state 100 (an_arrival ∷ []) connected).0
collect_initial_state_example =
    collect_initial_state_lem 100 letter_a (an_arrival ∷ []) connected refl refl

refresh_and_settle_example :
    ((refresh_and_settle 2 10 100 (an_arrival ∷ []) connected).1.frame_arrival ≡ none)
    × RefreshEnds
        (100 + 10)
        (requested connected)
        (refresh_and_settle 2 10 100 (an_arrival ∷ []) connected).0
unfolding new_controller
refresh_and_settle_example = refresh_and_settle_lem 2 10 100 (an_arrival ∷ []) connected refl

read_loop-IsUp_example :
    IsUp a_bus
      (read_loop (failing_turns ++ record { events = []; job = made a_bus } ∷ []) 1 connected)
read_loop-IsUp_example =
    read_loop-IsUp failing_turns (record { events = []; job = made a_bus }) a_bus 1 connected
      (tt, (tt, (tt, (tt, (tt, (tt, tt)))))) refl (λ trace. refl)
