-- ===== src/Coordinator/Fresh.antt =====
-- coordinator.py: no change of the cache is missed.
use hass_dobiss_sx_evolution.Prelude.{
  Bool-cases, List, Result, [], arith, cancelled_error, contains, false, if◌then◌else◌, inl, inr,
  int_eq, ltb, nat_eq, ok, pair_eq, raised, refl, sym, text_eq, true, ℕ, ◌<◌, ◌∙◌, ◌∷◌, ◌≡◌, ◌≢◌,
  ◌⊎◌,
}
use hass_dobiss_sx_evolution.Controller.Commands.{Command, run_command}
use hass_dobiss_sx_evolution.Controller.Discovery.{Arrival}
use hass_dobiss_sx_evolution.Controller.Ingest.{ingest_message}
use hass_dobiss_sx_evolution.Controller.Ingest.Laws.{ingest_message-outcome, reading}
use hass_dobiss_sx_evolution.Controller.Refresh.{Settled, refresh_and_settle}
use hass_dobiss_sx_evolution.Controller.Refresh.Listeners.{refresh-listeners, refresh-not_cancelled}
use hass_dobiss_sx_evolution.Controller.State.{Controller, Message}
use hass_dobiss_sx_evolution.Coordinator.{Coordinator, flush_state, on_controller_update}
use hass_dobiss_sx_evolution.Coordinator.Heard.{Heard, calls, outcome-Heard, run_command-Heard}
use hass_dobiss_sx_evolution.Setup.{push_states}

-- The coordinator after its controller has gone on: `_on_controller_update` runs when its listener l
-- has been called.
abbrev pub hear : ℕ → Controller → Coordinator → Coordinator
hear l c' co =
    if ltb (calls l co.controller.trace) (calls l c'.trace)
    then on_controller_update (record co { controller = c' })
    else record co { controller = c' }

pub data CoordinatorEvent : Type 0 where
  commanded : Command → CoordinatorEvent
  received : Message → CoordinatorEvent
  flushed : CoordinatorEvent
  -- a platform reload, with what its refresh takes
  reloaded : ℕ → ℕ → ℕ → List Arrival → CoordinatorEvent

-- The refresh that follows a platform reload, and the states that are pushed after it.
abbrev pub reload_refresh : ℕ → ℕ → ℕ → ℕ → List Arrival → Coordinator → Coordinator
reload_refresh l idle timeout now arrivals co =
    let r = refresh_and_settle idle timeout now arrivals co.controller in
    (push_states r.0 (hear l r.1 co)).1

abbrev pub after_coordinator_event : ℕ → CoordinatorEvent → Coordinator → Coordinator
after_coordinator_event l (commanded cmd) co = hear l (run_command cmd co.controller).1 co
after_coordinator_event l (received msg) co = hear l (ingest_message msg co.controller).1 co
after_coordinator_event l flushed co = flush_state co
after_coordinator_event l (reloaded idle timeout now arrivals) co =
    reload_refresh l idle timeout now arrivals co

abbrev pub after_coordinator_events : ℕ → List CoordinatorEvent → Coordinator → Coordinator
after_coordinator_events l [] co = co
after_coordinator_events l (event ∷ events) co =
    after_coordinator_events l events (after_coordinator_event l event co)

-- The coordinator listens, and a snapshot that is not the cache has a flush scheduled.
abbrev pub IsFresh : ℕ → Coordinator → Type 0
IsFresh l co =
    (contains l co.controller.listeners ≡ true)
    × ((co.debounce ≡ true) ⊎ (co.snapshot ≡ co.controller.states))

hear-IsFresh :
    (l : ℕ) (c' : Controller) (co : Coordinator)
    → IsFresh l co
    → Heard l co.controller c'
    → IsFresh l (hear l c' co)
unfolding on_controller_update
hear-IsFresh l c' co fresh heard =
    elim (Bool-cases (ltb (calls l co.controller.trace) (calls l c'.trace))) [
      | inl e ↦ rw e (rw heard.0 fresh.0, inl refl)
      | inr e ↦ rw e (rw heard.0 fresh.0, unheard (ltb-not-lt e) fresh.1 heard.1)
    ]
  where
    ltb-not-lt :
        ltb (calls l co.controller.trace) (calls l c'.trace) ≡ false
        → ¬ (calls l co.controller.trace < calls l c'.trace)
    ltb-not-lt e lt = ground arith

    unheard :
        ¬ (calls l co.controller.trace < calls l c'.trace)
        → (co.debounce ≡ true) ⊎ (co.snapshot ≡ co.controller.states)
        → (c'.states ≡ co.controller.states) ⊎ (calls l co.controller.trace < calls l c'.trace)
        → (co.debounce ≡ true) ⊎ (co.snapshot ≡ c'.states)
    unheard quiet (inl pending) h = inl pending
    unheard quiet (inr at) (inl same) = inr (at ∙ sym same)
    unheard quiet (inr at) (inr more) = absurd (quiet more)

reload_refresh-IsFresh :
    (l idle timeout now : ℕ) (arrivals : List Arrival) (co : Coordinator)
    → IsFresh l co
    → IsFresh l (reload_refresh l idle timeout now arrivals co)
unfolding push_states on_controller_update
reload_refresh-IsFresh l idle timeout now arrivals co fresh =
    go (refresh_and_settle idle timeout now arrivals co.controller)
      (refresh-not_cancelled idle timeout now arrivals co.controller)
      (refresh-listeners idle timeout now arrivals co.controller)
  where
    listens :
        (c' : Controller)
        → c'.listeners ≡ co.controller.listeners
        → contains l (hear l c' co).controller.listeners ≡ true
    listens c' e = elim (Bool-cases (ltb (calls l co.controller.trace) (calls l c'.trace))) [
      | inl m ↦ rw m (rw e fresh.0)
      | inr m ↦ rw m (rw e fresh.0)
    ]

    go :
        (r : Result Settled × Controller)
        → r.0 ≢ raised cancelled_error
        → r.1.listeners ≡ co.controller.listeners
        → IsFresh l (push_states r.0 (hear l r.1 co)).1
    go (ok s, c') n e = (listens c' e, inr refl)
    go (raised cancelled_error, c') n e = absurd (n refl)
    go (raised _, c') n e = (listens c' e, inr refl)

-- From a coordinator that listens and whose snapshot is the cache or has a flush scheduled, commands,
-- frames and the refreshes after platform reloads in any order, with flushes between them, lead to
-- such a coordinator again: no change of the cache is left that no flush is scheduled for.
pub after_coordinator_events-IsFresh :
    (l : ℕ) (events : List CoordinatorEvent) (co : Coordinator)
    → IsFresh l co
    → IsFresh l (after_coordinator_events l events co)
unfolding flush_state
after_coordinator_events-IsFresh l [] co fresh = fresh
after_coordinator_events-IsFresh l (commanded cmd ∷ events) co fresh =
    after_coordinator_events-IsFresh l events (hear l (run_command cmd co.controller).1 co) (
      hear-IsFresh l (run_command cmd co.controller).1 co fresh
        (run_command-Heard l cmd co.controller fresh.0))
after_coordinator_events-IsFresh l (received msg ∷ events) co fresh =
    after_coordinator_events-IsFresh l events (hear l (ingest_message msg co.controller).1 co) (
      hear-IsFresh l (ingest_message msg co.controller).1 co fresh (
        rw (ingest_message-outcome msg co.controller)
          (outcome-Heard l (reading co.controller.modules msg) co.controller fresh.0)))
after_coordinator_events-IsFresh l (flushed ∷ events) co fresh =
    after_coordinator_events-IsFresh l events (flush_state co) (fresh.0, inr refl)
after_coordinator_events-IsFresh l (reloaded idle timeout now arrivals ∷ events) co fresh =
    after_coordinator_events-IsFresh l events (reload_refresh l idle timeout now arrivals co)
      (reload_refresh-IsFresh l idle timeout now arrivals co fresh)
