-- ===== src/Coordinator/Starts.antt =====
-- coordinator.py: how the setup of the coordinator ends.
use hass_dobiss_sx_evolution.Prelude.{
  ==_refl, Bool, List, Option, Result, [], arith, cancelled_error, config_entry_not_ready, contains,
  contains-append, false, int_eq, nat_eq, none, ok, pair_eq, raised, refl, some, text_eq, true, ℕ,
  ◌+◌, ◌||◌, ◌∷◌, ◌≡◌,
}
use hass_dobiss_sx_evolution.Controller.Discovery.{Arrival, Discovery, setup}
use hass_dobiss_sx_evolution.Controller.Discovery.Orphans.{
  HasOrphans, setup-HasOrphans, shutdown-HasOrphans,
}
use hass_dobiss_sx_evolution.Controller.Discovery.Tidy.{setup-IsTidy}
use hass_dobiss_sx_evolution.Controller.Lifecycle.{BusJob}
use hass_dobiss_sx_evolution.Controller.Lifecycle.Tidy.{
  IsTidy, is_closed, is_opened, is_orphaned, is_started, is_stopped, times,
}
use hass_dobiss_sx_evolution.Controller.Reach.{shutdown_balances}
use hass_dobiss_sx_evolution.Controller.State.{Controller, add_listener}
use hass_dobiss_sx_evolution.Coordinator.{
  Coordinator, after_setup, background_sync, first_sync, logged, service_sync, setup_coordinator,
  sync_clock,
}
use hass_dobiss_sx_evolution.Protocol.Eeprom.{DateTime}

-- The coordinator after a setup, given how it ended, and how many orphans there were before it.
abbrev pub Starts : ℕ → ℕ → Result (Unit {0}) → Coordinator → Type 0
Starts n l (ok u) co =
    (contains l co.controller.listeners ≡ true) × (co.snapshot ≡ co.controller.states)
Starts n l (raised cancelled_error) co = Unit
Starts n l (raised e) co =
    (e ≡ config_entry_not_ready)
    × (co.controller.bus ≡ none)
    × (times is_opened co.controller.trace ≡ times is_closed co.controller.trace + n)
    × (times is_started co.controller.trace ≡ times is_stopped co.controller.trace)

-- The first sync raises nothing but a cancellation.
abbrev Escapes : Result (Unit {0}) → Type 0
Escapes (ok u) = Unit
Escapes (raised e) = e ≡ cancelled_error

Starts-listening :
    (n l : ℕ) (r : Result (Unit {0})) (co : Coordinator)
    → Escapes r
    → contains l co.controller.listeners ≡ true
    → co.snapshot ≡ co.controller.states
    → Starts n l r co
Starts-listening n l (ok u) co e heard same = (heard, same)
Starts-listening n l (raised x) co e heard same = rw e tt

sync_clock-controller :
    (tcp_client serial_client : Option (DateTime → Result (Unit {0}))) (now : DateTime)
    (co : Coordinator)
    → ((first_sync tcp_client serial_client now co).1.controller ≡ co.controller)
      × ((first_sync tcp_client serial_client now co).1.snapshot ≡ co.snapshot)
      × Escapes (first_sync tcp_client serial_client now co).0
unfolding sync_clock
sync_clock-controller (some tcp_client) serial_client now co = go (tcp_client now)
  where
    go :
        (r : Result (Unit {0}))
        → ((logged (background_sync now r co)).1.controller ≡ co.controller)
          × ((logged (background_sync now r co)).1.snapshot ≡ co.snapshot)
          × Escapes (logged (background_sync now r co)).0
    go (ok u) = (refl, refl, tt)
    go (raised cancelled_error) = (refl, refl, refl)
    go (raised _) = (refl, refl, tt)
sync_clock-controller none (some serial_client) now co = go (serial_client now)
  where
    go :
        (r : Result (Unit {0}))
        → ((logged (service_sync now r co)).1.controller ≡ co.controller)
          × ((logged (service_sync now r co)).1.snapshot ≡ co.snapshot)
          × Escapes (logged (service_sync now r co)).0
    go (ok u) = (refl, refl, tt)
    go (raised cancelled_error) = (refl, refl, refl)
    go (raised _) = (refl, refl, tt)
sync_clock-controller none none now co = (refl, refl, tt)

contains-add_listener : (l : ℕ) (c : Controller) → contains l (add_listener l c).listeners ≡ true
unfolding add_listener
contains-add_listener l c =
    rw (contains-append l c.listeners (l ∷ []), ==_refl l) (or_true (contains l c.listeners))
  where
    or_true : (b : Bool) → (b || true) ≡ true
    or_true true = refl
    or_true false = refl

after_setup-Starts :
    (n l : ℕ) (tcp_client serial_client : Option (DateTime → Result (Unit {0}))) (now : DateTime)
    (co : Coordinator) (r : Result Discovery × Controller)
    → IsTidy r.1
    → HasOrphans n r.1
    → let (r', co') = after_setup l tcp_client serial_client now co r in Starts n l r' co'
unfolding add_listener
after_setup-Starts n l tcp_client serial_client now co (ok d, c) t h =
    let co' = record co { controller = add_listener l c; snapshot = c.states } in
    let same = sync_clock-controller tcp_client serial_client now co' in
    Starts-listening n l (first_sync tcp_client serial_client now co').0
      (first_sync tcp_client serial_client now co').1 same.2 (rw same.0 (contains-add_listener l c))
      (rw (same.0, same.1) refl)
after_setup-Starts n l tcp_client serial_client now co (raised cancelled_error, c) t h = tt
after_setup-Starts n l tcp_client serial_client now co (raised _, c) t h =
    let (opened, more, started, gone) = shutdown_balances c t in
    (refl, gone, omega (arith, opened, shutdown-HasOrphans n c h), started)

-- From a tidy controller, whatever the bus, its messages and the clients do: a setup that returns
-- leaves a coordinator that listens and whose snapshot is the cache; one that raises, and is not
-- cancelled, is a ConfigEntryNotReady and leaves no bus and no notifier: of all buses and notifiers,
-- those opened and started are as many as those closed and stopped, but for the orphans that there
-- were before the setup, of which a fresh controller has none.
pub setup_coordinator-Starts :
    (l : ℕ) (tcp_client serial_client : Option (DateTime → Result (Unit {0}))) (now : DateTime)
    (job : BusJob) (start : ℕ) (arrivals : List Arrival) (co : Coordinator)
    → IsTidy co.controller
    → let (r, co') = setup_coordinator l tcp_client serial_client now job start arrivals co in
      Starts (times is_orphaned co.controller.trace) l r co'
unfolding setup_coordinator
setup_coordinator-Starts l tcp_client serial_client now job start arrivals co t =
    let n : ℕ = times is_orphaned co.controller.trace in
    after_setup-Starts n l tcp_client serial_client now co (setup job start arrivals co.controller)
      (setup-IsTidy job start arrivals co.controller t)
      (setup-HasOrphans n job start arrivals co.controller refl)
