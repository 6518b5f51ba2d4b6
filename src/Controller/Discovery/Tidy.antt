-- ===== src/Controller/Discovery/Tidy.antt =====
-- controller.py: discovery and the setup keep a controller tidy.
use hass_dobiss_sx_evolution.Prelude.{
  Bool, Bool-cases, List, Result, Text, [], inl, inr, leb, ltb, not, ok, raised, true, ℕ, ◌+◌, ◌-◌,
  ◌||◌, ◌∷◌,
}
use hass_dobiss_sx_evolution.Controller.Commands.{send_frame}
use hass_dobiss_sx_evolution.Controller.Discovery.{
  Arrival, Collected, Discovery, collect, collect_initial_state, discover, discovery_timeout,
  note_seen, setup, wait_time,
}
use hass_dobiss_sx_evolution.Controller.Ingest.{ingest_message}
use hass_dobiss_sx_evolution.Controller.Lifecycle.{BusJob, open_bus, setup_notifier}
use hass_dobiss_sx_evolution.Controller.Lifecycle.Tidy.{
  IsTidy, open_bus-IsTidy, setup_notifier-IsTidy,
}
use hass_dobiss_sx_evolution.Controller.ReadLoop.Tidy.{
  ingest_message-IsTidy, send_frame-IsTidy, then_do-IsTidy,
}
use hass_dobiss_sx_evolution.Controller.State.{
  Controller, bind, continue_with, is_bus_connected, modify, then_do,
}
use hass_dobiss_sx_evolution.Protocol.Frame.{dump_request_frame}

pub collect-IsTidy :
    (configured : List Text) (deadline : ℕ) (arrivals : List Arrival) (s : Collected)
    → IsTidy s.controller
    → IsTidy (collect configured deadline arrivals s).controller
unfolding collect
collect-IsTidy configured deadline [] s t = elim (Bool-cases (leb deadline s.now)) [
  | inl e ↦ rw e t
  | inr e ↦ rw e t
]
collect-IsTidy configured deadline (a ∷ arrivals) s t =
    let rest =
      collect-IsTidy configured deadline arrivals
        (record {
          seen = note_seen configured (ingest_message a.msg s.controller).0 s.seen;
          now = s.now + a.gap;
          controller = (ingest_message a.msg s.controller).1;
        })
        (ingest_message-IsTidy a.msg t) in
    let timeout = wait_time configured s.seen (deadline - s.now) in
    elim (Bool-cases (leb deadline s.now)) [
      | inl e ↦ rw e t
      | inr e ↦ elim (Bool-cases (ltb a.gap timeout)) [
        | inl in_time ↦ rw (e, in_time) rest
        | inr late ↦ rw (e, late) t
      ]
    ]

pub discover-IsTidy :
    (now : ℕ) (arrivals : List Arrival) (c : Controller)
    → IsTidy c
    → IsTidy (discover now arrivals c).1
discover-IsTidy now arrivals c t =
    collect-IsTidy c.modules (now + discovery_timeout) arrivals
      (record { seen = []; now = now; controller = c }) t

pub collect_initial_state-IsTidy :
    (now : ℕ) (arrivals : List Arrival) (c : Controller)
    → IsTidy c
    → IsTidy (collect_initial_state now arrivals c).1
unfolding collect_initial_state
collect_initial_state-IsTidy now arrivals c t =
    elim (Bool-cases (not (is_bus_connected c) || not c.reader)) [
      | inl e ↦ rw e t
      | inr e ↦ simp e (
          then_do-IsTidy (send_frame dump_request_frame) (discover now arrivals) c
            (send_frame-IsTidy dump_request_frame t) (discover-IsTidy now arrivals))
    ]

pub mark_task-IsTidy :
    {c : Controller} (b : Bool) → IsTidy c → IsTidy (record c { reader_task = b })
mark_task-IsTidy b t = record {
  buses = t.buses;
  orphans = t.orphans;
  notifiers = t.notifiers;
  issues = t.issues;
  paired = t.paired;
  on_bus = t.on_bus;
}

pub finish_setup-IsTidy :
    (r : Result Discovery × Controller)
    → IsTidy r.1
    → IsTidy (continue_with (λ d c. (ok d, record c { reader_task = true })) r).1
finish_setup-IsTidy (ok d, c) t = mark_task-IsTidy true t
finish_setup-IsTidy (raised e, c) t = t

pub setup-IsTidy :
    (job : BusJob) (now : ℕ) (arrivals : List Arrival) (c : Controller)
    → IsTidy c
    → IsTidy (setup job now arrivals c).1
unfolding setup
setup-IsTidy job now arrivals c t =
    then_do-IsTidy (open_bus job)
      (then_do (modify setup_notifier) (
        bind (collect_initial_state now arrivals) (λ d c. (ok d, record c { reader_task = true }))))
      c (open_bus-IsTidy job t)
      (λ c' t'.
        finish_setup-IsTidy (collect_initial_state now arrivals (setup_notifier c')) (
          collect_initial_state-IsTidy now arrivals (setup_notifier c') (setup_notifier-IsTidy t')))
