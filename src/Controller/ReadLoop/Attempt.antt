-- ===== src/Controller/ReadLoop/Attempt.antt =====
-- controller.py: what an attempt to reconnect leaves behind.
use hass_dobiss_sx_evolution.Prelude.{
  Bool-cases, Exn, List, Result, arith, bus_error, cancelled_error, false, inl, inr, none, ok,
  raised, refl, some, true, ◌∙◌, ◌∷◌, ◌≡◌,
}
use hass_dobiss_sx_evolution.Controller.Commands.{send_frame}
use hass_dobiss_sx_evolution.Controller.Lifecycle.{
  BusJob, cancelled_in_close, cancelled_in_stop, cancelled_refused, cancelled_running,
  cancelled_with, close_bus, made, open_bus, refused, setup_notifier, teardown_notifier,
}
use hass_dobiss_sx_evolution.Controller.ReadLoop.{reconnect}
use hass_dobiss_sx_evolution.Controller.State.{
  Bus, Controller, Effect, bus_opened, notifier_started, sent,
}
use hass_dobiss_sx_evolution.Protocol.Frame.{dump_request_frame}

-- How an attempt can end.
pub data Attempted (job : BusJob) (r : Result (Unit {0}) × Controller) : Type 0 where
  -- the job made no bus: there is none
  no_bus : (e : Exn) → r.0 ≡ raised e → r.1.bus ≡ none → r.1.notifier ≡ false → Attempted job r
  -- cancelled while the old notifier stops: an old bus may still be there, unread
  interrupted : r.0 ≡ raised cancelled_error → r.1.notifier ≡ false → Attempted job r
  -- a fresh bus is read, but the dump request could not be sent
  no_dump :
      (bus : Bus)
      → job ≡ made bus
      → r.0 ≡ raised bus_error
      → r.1.bus ≡ some bus
      → r.1.notifier ≡ true
      → Attempted job r
  -- a fresh bus is read, and the last thing that happened is the dump request on it
  through :
      (bus : Bus) (before : List Effect)
      → job ≡ made bus
      → r.0 ≡ ok tt
      → r.1.bus ≡ some bus
      → r.1.notifier ≡ true
      → r.1.reader ≡ true
      → r.1.trace ≡ sent dump_request_frame ∷ notifier_started ∷ bus_opened ∷ before
      → Attempted job r

no_notifier : (c : Controller) → (teardown_notifier c).notifier ≡ false
unfolding teardown_notifier
no_notifier c = ground arith

no_bus_left : (c : Controller) → (close_bus c).bus ≡ none
unfolding close_bus
no_bus_left c = ground arith

notifier-close_bus : (c : Controller) → (close_bus c).notifier ≡ c.notifier
unfolding close_bus
notifier-close_bus c = ground arith

pub closed_notifier : (c : Controller) → (close_bus (teardown_notifier c)).notifier ≡ false
closed_notifier c = notifier-close_bus (teardown_notifier c) ∙ no_notifier c

pub attempt_made :
    (bus : Bus) (d : Controller)
    → d.notifier ≡ false
    → Attempted (made bus) (
        send_frame dump_request_frame
          (setup_notifier (record d { bus = some bus; trace = bus_opened ∷ d.trace })))
unfolding send_frame setup_notifier teardown_notifier
attempt_made bus d quiet =
    elim (Bool-cases (bus.rejects (notifier_started ∷ bus_opened ∷ d.trace) dump_request_frame)) [
      | inl no_send ↦ no_dump bus refl (ground arith) (ground arith) (ground arith)
      | inr send ↦
          through bus d.trace refl (ground arith) (ground arith) (ground arith) (ground arith)
            (ground arith)
    ]

-- After any attempt to reconnect either there is no bus and no notifier, or the attempt was cancelled
-- and there is no notifier, or the bus is the one that
-- the job made and its notifier runs; the attempt returns only in the last case, and then the last
-- three things that happened are that the bus was opened, its notifier was started and the dump
-- request was sent, in this order, so that no frame of the dump is missed.
pub reconnect-Attempted : (job : BusJob) (c : Controller) → Attempted job (reconnect job c)
unfolding reconnect open_bus teardown_notifier close_bus
reconnect-Attempted (made bus) c =
    attempt_made bus (close_bus (teardown_notifier c)) (closed_notifier c)
reconnect-Attempted refused c =
    no_bus bus_error refl (no_bus_left (teardown_notifier c)) (closed_notifier c)
reconnect-Attempted (cancelled_with orphan) c =
    no_bus cancelled_error refl (no_bus_left (teardown_notifier c)) (closed_notifier c)
reconnect-Attempted cancelled_refused c =
    no_bus cancelled_error refl (no_bus_left (teardown_notifier c)) (closed_notifier c)
reconnect-Attempted cancelled_running c =
    no_bus cancelled_error refl (no_bus_left (teardown_notifier c)) (closed_notifier c)
reconnect-Attempted cancelled_in_stop c = interrupted (ground arith) (ground arith)
reconnect-Attempted cancelled_in_close c = interrupted (ground arith) (ground arith)
