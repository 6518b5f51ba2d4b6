-- ===== src/Controller/Discovery/Orphans.antt =====
-- controller.py: no orphan is made during a setup.
use hass_dobiss_sx_evolution.Prelude.{
  Bool-cases, List, Option, Result, Text, [], arith, get, inl, inr, int_eq, nat_eq, none, not, ok,
  pair_eq, raised, refl, some, text_eq, true, ℕ, ◌+◌, ◌||◌, ◌∙◌, ◌∷◌, ◌≡◌,
}
use hass_dobiss_sx_evolution.Controller.Commands.Ran.{
  Sends, after_send, failed, send_frame-Sends, went,
}
use hass_dobiss_sx_evolution.Controller.Discovery.{
  Arrival, Collected, Discovery, collect, collect_initial_state, discover, discovery_timeout,
  note_seen, setup,
}
use hass_dobiss_sx_evolution.Controller.Ingest.{ingest_message, is_value}
use hass_dobiss_sx_evolution.Controller.Ingest.Laws.{ingest_message-outcome, outcome, reading}
use hass_dobiss_sx_evolution.Controller.Lifecycle.{
  BusJob, cancelled_in_close, cancelled_in_stop, cancelled_refused, cancelled_running,
  cancelled_with, close_bus, made, open_bus, refused, setup_notifier, shutdown, teardown_notifier,
}
use hass_dobiss_sx_evolution.Controller.Lifecycle.Tidy.{is_orphaned, times}
use hass_dobiss_sx_evolution.Controller.ReadLoop.Tidy.{count-notify_all}
use hass_dobiss_sx_evolution.Controller.State.{
  Controller, Message, OutputKey, bind, continue_with, is_bus_connected, modify, then_do,
}
use hass_dobiss_sx_evolution.Protocol.Frame.{dump_request_frame}

-- So many orphans have been made.
abbrev pub HasOrphans : ℕ → Controller → Type 0
HasOrphans n c = times is_orphaned c.trace ≡ n

module _ (n : ℕ) where
  outcome-HasOrphans :
      (read : Option (OutputKey × ℕ)) (c : Controller)
      → HasOrphans n c
      → HasOrphans n (outcome read c).1
  outcome-HasOrphans none c h = h
  outcome-HasOrphans (some (key, value)) c h =
      elim (Bool-cases (is_value (get key c.states) value)) [
        | inl e ↦ rw e h
        | inr e ↦ rw e (count-notify_all is_orphaned c.listeners key value c.trace (λ l. refl) ∙ h)
      ]

  ingest_message-HasOrphans :
      (msg : Message) (c : Controller) → HasOrphans n c → HasOrphans n (ingest_message msg c).1
  ingest_message-HasOrphans msg c h =
      rw (ingest_message-outcome msg c) (outcome-HasOrphans (reading c.modules msg) c h)

  collect-HasOrphans :
      (configured : List Text) (deadline : ℕ) (arrivals : List Arrival) (s : Collected)
      → HasOrphans n s.controller
      → HasOrphans n (collect configured deadline arrivals s).controller
  unfolding collect
  collect-HasOrphans configured deadline [] s h = ground arith
  collect-HasOrphans configured deadline (a ∷ arrivals) s h = ground (
    arith,
    collect-HasOrphans configured deadline arrivals
        (record {
          seen = note_seen configured (ingest_message a.msg s.controller).0 s.seen;
          now = s.now + a.gap;
          controller = (ingest_message a.msg s.controller).1;
        })
        (ingest_message-HasOrphans a.msg s.controller h),
  )

  open_bus-HasOrphans :
      (job : BusJob) (c : Controller) → HasOrphans n c → HasOrphans n (open_bus job c).1
  unfolding open_bus teardown_notifier close_bus
  open_bus-HasOrphans (made bus) c h = ground arith
  open_bus-HasOrphans refused c h = ground arith
  open_bus-HasOrphans (cancelled_with orphan) c h = ground arith
  open_bus-HasOrphans cancelled_refused c h = ground arith
  open_bus-HasOrphans cancelled_running c h = ground arith
  open_bus-HasOrphans cancelled_in_stop c h = ground arith
  open_bus-HasOrphans cancelled_in_close c h = ground arith

  setup_notifier-HasOrphans : (c : Controller) → HasOrphans n c → HasOrphans n (setup_notifier c)
  unfolding setup_notifier teardown_notifier
  setup_notifier-HasOrphans c h = ground arith

  pub shutdown-HasOrphans : (c : Controller) → HasOrphans n c → HasOrphans n (shutdown c)
  unfolding shutdown teardown_notifier close_bus
  shutdown-HasOrphans c h = ground arith

  discovery-HasOrphans :
      (now : ℕ) (arrivals : List Arrival) {c : Controller} {r : Result (Unit {0}) × Controller}
      → Sends dump_request_frame c r
      → HasOrphans n c
      → HasOrphans n (continue_with (λ (u : Unit {0}). discover now arrivals) r).1
  discovery-HasOrphans now arrivals (failed e p) h = rw p h
  discovery-HasOrphans now arrivals {c} (went b there p) h = rw p (
      collect-HasOrphans c.modules (now + discovery_timeout) arrivals
        (record { seen = []; now = now; controller = after_send dump_request_frame c }) h)

  collect_initial_state-HasOrphans :
      (now : ℕ) (arrivals : List Arrival) (c : Controller)
      → HasOrphans n c
      → HasOrphans n (collect_initial_state now arrivals c).1
  unfolding collect_initial_state
  collect_initial_state-HasOrphans now arrivals c h =
      elim (Bool-cases (not (is_bus_connected c) || not c.reader)) [
        | inl e ↦ rw e h
        | inr e ↦
            simp e (discovery-HasOrphans now arrivals (send_frame-Sends dump_request_frame c) h)
      ]

  finish-HasOrphans :
      (r : Result Discovery × Controller)
      → HasOrphans n r.1
      → HasOrphans n (continue_with (λ d c. (ok d, record c { reader_task = true })) r).1
  finish-HasOrphans (ok d, c) h = h
  finish-HasOrphans (raised e, c) h = h

  after_open-HasOrphans :
      (now : ℕ) (arrivals : List Arrival) (r : Result (Unit {0}) × Controller)
      → HasOrphans n r.1
      → HasOrphans n
          (continue_with
            (λ (u : Unit {0}). then_do (modify setup_notifier) (
              bind
                (collect_initial_state now arrivals)
                (λ d c. (ok d, record c { reader_task = true }))))
            r).1
  after_open-HasOrphans now arrivals (raised e, c) h = h
  after_open-HasOrphans now arrivals (ok u, c) h =
      finish-HasOrphans (collect_initial_state now arrivals (setup_notifier c)) (
        collect_initial_state-HasOrphans now arrivals (setup_notifier c)
          (setup_notifier-HasOrphans c h))

  pub setup-HasOrphans :
      (job : BusJob) (now : ℕ) (arrivals : List Arrival) (c : Controller)
      → HasOrphans n c
      → HasOrphans n (setup job now arrivals c).1
  unfolding setup
  setup-HasOrphans job now arrivals c h =
      after_open-HasOrphans now arrivals (open_bus job c) (open_bus-HasOrphans job c h)
