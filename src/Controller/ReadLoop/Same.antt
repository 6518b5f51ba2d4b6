-- ===== src/Controller/ReadLoop/Same.antt =====
-- controller.py: reading and reconnecting touch neither the repair issue nor the reconnect count.
use hass_dobiss_sx_evolution.Prelude.{
  Bool-cases, List, Result, [], arith, inl, inr, ltb, ok, raised, ◌∙◌, ◌∷◌, ◌≡◌,
}
use hass_dobiss_sx_evolution.Controller.Commands.{apply_local, send_frame}
use hass_dobiss_sx_evolution.Controller.Ingest.{ingest_message, ingest_update}
use hass_dobiss_sx_evolution.Controller.Lifecycle.{
  BusJob, close_bus, open_bus, setup_notifier, teardown_notifier,
}
use hass_dobiss_sx_evolution.Controller.ReadLoop.{
  ReadEvent, liveness_timeout, read_frames, read_until_failure, reader_failed, received, reconnect,
}
use hass_dobiss_sx_evolution.Controller.State.{Controller, Message, continue_with, modify, then_do}
use hass_dobiss_sx_evolution.Protocol.Frame.{CanFrame, StateUpdate, dump_request_frame}

-- What an operation leaves alone: the mark of the repair issue and the count of reconnects.
pub record Same (c c' : Controller) : Type 0 where
  pub issue : c'.repair_issue_active ≡ c.repair_issue_active
  pub count : c'.reconnect_count ≡ c.reconnect_count

pub Same-trans : {a b c : Controller} → Same a b → Same b c → Same a c
Same-trans h k = record { issue = k.issue ∙ h.issue; count = k.count ∙ h.count }

teardown_notifier-Same : (c : Controller) → Same c (teardown_notifier c)
unfolding teardown_notifier
teardown_notifier-Same c = ground arith

setup_notifier-Same : (c : Controller) → Same c (setup_notifier c)
unfolding setup_notifier
setup_notifier-Same c = ground arith

open_bus-Same : (job : BusJob) (c : Controller) → Same c (open_bus job c).1
unfolding open_bus teardown_notifier close_bus
open_bus-Same job c = ground arith

send_frame-Same : (f : CanFrame) (c : Controller) → Same c (send_frame f c).1
unfolding send_frame
send_frame-Same f c = ground arith

ingest_update-Same : (u : StateUpdate) (c : Controller) → Same c (ingest_update u c).1
unfolding ingest_update apply_local
ingest_update-Same u c = ground arith

ingest_message-Same : (msg : Message) (c : Controller) → Same c (ingest_message msg c).1
unfolding ingest_message
ingest_message-Same msg c = grind (arith, ingest_update-Same)

read_until_failure-Same :
    (events : List ReadEvent) (c : Controller) → Same c (read_until_failure events c).1
unfolding read_until_failure
read_until_failure-Same [] c = teardown_notifier-Same c
read_until_failure-Same (reader_failed ∷ events) c = teardown_notifier-Same c
read_until_failure-Same (received gap msg ∷ events) c =
    elim (Bool-cases (ltb gap liveness_timeout)) [
      | inl e ↦ rw e (
          Same-trans (ingest_message-Same msg c)
            (read_until_failure-Same events (ingest_message msg c).1))
      | inr e ↦ rw e (teardown_notifier-Same c)
    ]

pub read_frames-Same : (events : List ReadEvent) (c : Controller) → Same c (read_frames events c).1
unfolding read_frames
read_frames-Same events c = ground (
  arith,
  setup_notifier-Same c,
  read_until_failure-Same events c,
  read_until_failure-Same events (setup_notifier c),
)

pub reconnect-Same : (job : BusJob) (c : Controller) → Same c (reconnect job c).1
unfolding reconnect
reconnect-Same job c = go (open_bus job c) (open_bus-Same job c)
  where
    go :
        (r : Result (Unit {0}) × Controller)
        → Same c r.1
        → Same c
            (continue_with
              (λ (u : Unit {0}). then_do (modify setup_notifier) (send_frame dump_request_frame))
              r).1
    go (raised e, c') h = h
    go (ok _, c') h = Same-trans h (
        Same-trans (setup_notifier-Same c')
          (send_frame-Same dump_request_frame (setup_notifier c')))
