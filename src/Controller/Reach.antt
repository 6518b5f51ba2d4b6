-- ===== src/Controller/Reach.antt =====
-- controller.py as a whole: what a controller can go through, in any order, and what then holds.
use hass_dobiss_sx_evolution.Prelude.{
  Bool, List, Option, Result, [], ap, arith, false, none, ok, raised, refl, some, true, ℕ, ◌++◌,
  ◌+◌, ◌∷◌, ◌≡◌, ◌≤◌,
}
use hass_dobiss_sx_evolution.Controller.Commands.{Command, run_command}
use hass_dobiss_sx_evolution.Controller.Connection.{ConnectionConfig}
use hass_dobiss_sx_evolution.Controller.Discovery.{Arrival, setup}
use hass_dobiss_sx_evolution.Controller.Discovery.Tidy.{setup-IsTidy}
use hass_dobiss_sx_evolution.Controller.Ingest.{ingest_message}
use hass_dobiss_sx_evolution.Controller.Lifecycle.{
  BusJob, close_bus, end_abandoned, shutdown, teardown_notifier,
}
use hass_dobiss_sx_evolution.Controller.Lifecycle.Tidy.{
  IsTidy, end_abandoned-IsTidy, is_abandoned, is_closed, is_opened, is_orphaned, is_started,
  is_stopped, one_if, shutdown-IsTidy, times,
}
use hass_dobiss_sx_evolution.Controller.ReadLoop.{Turn, loop_turn}
use hass_dobiss_sx_evolution.Controller.ReadLoop.Tidy.{
  ingest_message-IsTidy, left, loop_turn-IsTidy, run_command-IsTidy,
}
use hass_dobiss_sx_evolution.Controller.Refresh.{refresh_and_settle}
use hass_dobiss_sx_evolution.Controller.Refresh.Tidy.{refresh-IsTidy}
use hass_dobiss_sx_evolution.Controller.State.{
  Bus, Controller, Message, OutputKey, ShutterConfig, add_listener, list_remove, new_controller,
  remove_listener,
}

-- One step: a command, a frame, a turn of the read loop, a setup, a refresh, a shutdown, the end of an
-- abandoned job, or a change of the listeners.
pub data Step (c : Controller) : Controller → Type 0 where
  by_command : (cmd : Command) → Step c (run_command cmd c).1
  by_frame : (msg : Message) → Step c (ingest_message msg c).1
  by_turn : (t : Turn) (backoff : ℕ) → Step c (left (loop_turn t backoff c))
  by_setup :
      (job : BusJob) (now : ℕ) (arrivals : List Arrival) → Step c (setup job now arrivals c).1
  by_refresh :
      (idle timeout now : ℕ) (arrivals : List Arrival)
      → Step c (refresh_and_settle idle timeout now arrivals c).1
  by_shutdown : Step c (shutdown c)
  by_abandoned : (makes_bus : Bool) → Step c (end_abandoned makes_bus c)
  by_listen : (l : ℕ) → Step c (add_listener l c)
  by_unlisten : (l : ℕ) → Step c (remove_listener l c).1

pub data Reach (c : Controller) : Controller → Type 0 where
  reach_here : Reach c c
  reach_next : {d e : Controller} → Reach c d → Step d e → Reach c e

mark_listeners-IsTidy :
    {c : Controller} (ls : List ℕ) → IsTidy c → IsTidy (record c { listeners = ls })
mark_listeners-IsTidy ls t = record {
  buses = t.buses;
  orphans = t.orphans;
  notifiers = t.notifiers;
  issues = t.issues;
  paired = t.paired;
  on_bus = t.on_bus;
}

remove_listener-IsTidy : (l : ℕ) (c : Controller) → IsTidy c → IsTidy (remove_listener l c).1
unfolding remove_listener
remove_listener-IsTidy l c t = go (list_remove l c.listeners)
  where
    go :
        (r : Result (List ℕ))
        → IsTidy
            (let out : Result (Unit {0}) × Controller = elim r [
              | ok rest ↦ (ok tt, record c { listeners = rest })
              | raised e ↦ (raised e, c)
            ] in
              out).1
    go (ok rest) = mark_listeners-IsTidy rest t
    go (raised e) = t

pub Step-IsTidy : {c d : Controller} → Step c d → IsTidy c → IsTidy d
unfolding add_listener
Step-IsTidy (by_command cmd) t = run_command-IsTidy cmd t
Step-IsTidy (by_frame msg) t = ingest_message-IsTidy msg t
Step-IsTidy (by_turn turn' backoff) t = loop_turn-IsTidy turn' backoff t
Step-IsTidy {c} (by_setup job now arrivals) t = setup-IsTidy job now arrivals c t
Step-IsTidy {c} (by_refresh idle timeout now arrivals) t =
    refresh-IsTidy idle timeout now arrivals c t
Step-IsTidy by_shutdown t = shutdown-IsTidy t
Step-IsTidy (by_abandoned makes_bus) t = end_abandoned-IsTidy makes_bus t
Step-IsTidy {c} (by_listen l) t = mark_listeners-IsTidy (c.listeners ++ l ∷ []) t
Step-IsTidy {c} (by_unlisten l) t = remove_listener-IsTidy l c t

Reach-IsTidy : {c d : Controller} → IsTidy c → Reach c d → IsTidy d
Reach-IsTidy t reach_here = t
Reach-IsTidy t (reach_next r s) = Step-IsTidy s (Reach-IsTidy t r)

new_controller-IsTidy :
    (conn : ConnectionConfig) (lights dimmers : List OutputKey) (shutters : List ShutterConfig)
    (switches : List OutputKey)
    → IsTidy (new_controller conn lights dimmers shutters switches)
unfolding new_controller
new_controller-IsTidy conn lights dimmers shutters switches = record {
  buses = refl;
  orphans = omega arith;
  notifiers = refl;
  issues = refl;
  paired = refl;
  on_bus = refl;
}

-- A fresh controller that goes through any commands, frames, turns of the read loop, setups, refreshes,
-- shutdowns, ends of abandoned jobs and changes of listeners, in any order, whatever fails and at
-- whichever await of `_open_bus` it is cancelled: every bus that was opened has been closed but the
-- current one and the orphans, of which there is at most one for each time that `_open_bus` was
-- cancelled while `make_bus` ran. Every notifier that was started has been stopped but the current
-- one, which reads the current bus, and the repair issue is up exactly while it is marked active.
pub reachable-IsTidy :
    (conn : ConnectionConfig) (lights dimmers : List OutputKey) (shutters : List ShutterConfig)
    (switches : List OutputKey) (c : Controller)
    → Reach (new_controller conn lights dimmers shutters switches) c
    → IsTidy c
reachable-IsTidy conn lights dimmers shutters switches c r =
    Reach-IsTidy (new_controller-IsTidy conn lights dimmers shutters switches) r

shutdown_clears : (c : Controller) → ((shutdown c).bus ≡ none) × ((shutdown c).notifier ≡ false)
unfolding shutdown teardown_notifier close_bus
shutdown_clears c = (ground arith, ground arith)

-- A tidy controller that is shut down has stopped all that it started, and closed all that it opened
-- but the orphans.
pub shutdown_balances :
    (c : Controller)
    → IsTidy c
    → let trace = (shutdown c).trace in
      (times is_opened trace ≡ times is_closed trace + times is_orphaned trace)
      × (times is_orphaned trace + (shutdown c).opening ≤ times is_abandoned trace)
      × (times is_started trace ≡ times is_stopped trace)
      × ((shutdown c).bus ≡ none)
shutdown_balances c tidy =
    let t : IsTidy (shutdown c) = shutdown-IsTidy tidy in
    let (gone, quiet) = shutdown_clears c in
    (
      omega (arith, t.buses, ap one_if (ap connected gone)),
      omega (arith, t.orphans),
      omega (arith, t.notifiers, ap one_if quiet),
      gone,
    )
  where
    connected : Option Bus → Bool
    connected o = elim o [ none ↦ false | some _ ↦ true ]

-- Shutting down any controller that a fresh one can become leaves no bus with the controller and no
-- notifier running: notifiers were started and stopped equally often, and of the buses that were
-- opened exactly the orphans have not been closed. These, with the jobs that may still make one, are
-- at most as many as the times that `_open_bus` was cancelled while `make_bus` ran.
pub shutdown_releases :
    (conn : ConnectionConfig) (lights dimmers : List OutputKey) (shutters : List ShutterConfig)
    (switches : List OutputKey) (c : Controller)
    → Reach (new_controller conn lights dimmers shutters switches) c
    → let trace = (shutdown c).trace in
      (times is_opened trace ≡ times is_closed trace + times is_orphaned trace)
      × (times is_orphaned trace + (shutdown c).opening ≤ times is_abandoned trace)
      × (times is_started trace ≡ times is_stopped trace)
      × ((shutdown c).bus ≡ none)
shutdown_releases conn lights dimmers shutters switches c r =
    shutdown_balances c (reachable-IsTidy conn lights dimmers shutters switches c r)
