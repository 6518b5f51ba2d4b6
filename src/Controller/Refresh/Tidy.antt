-- ===== src/Controller/Refresh/Tidy.antt =====
-- controller.py: a refresh keeps a controller tidy.
use hass_dobiss_sx_evolution.Prelude.{
  Bool, Bool-cases, List, Option, Result, [], false, inl, inr, leb, min, none, ok, raised, some,
  true, ℕ, ◌+◌, ◌-◌, ◌∷◌,
}
use hass_dobiss_sx_evolution.Controller.Commands.{send_frame}
use hass_dobiss_sx_evolution.Controller.Discovery.{Arrival}
use hass_dobiss_sx_evolution.Controller.Ingest.{ingest_message}
use hass_dobiss_sx_evolution.Controller.Lifecycle.Tidy.{IsTidy}
use hass_dobiss_sx_evolution.Controller.ReadLoop.Tidy.{ingest_message-IsTidy, send_frame-IsTidy}
use hass_dobiss_sx_evolution.Controller.Refresh.{
  after_request, arrived, clear_arrival, refresh_and_settle, settle,
}
use hass_dobiss_sx_evolution.Controller.State.{Controller, is_bus_connected}
use hass_dobiss_sx_evolution.Protocol.Frame.{dump_request_frame}

pub mark_arrival-IsTidy :
    {c : Controller} (e : Option Bool) → IsTidy c → IsTidy (record c { frame_arrival = e })
mark_arrival-IsTidy e t = record {
  buses = t.buses;
  orphans = t.orphans;
  notifiers = t.notifiers;
  issues = t.issues;
  paired = t.paired;
  on_bus = t.on_bus;
}

pub settle-IsTidy :
    (idle deadline : ℕ) (arrivals : List Arrival) (until now : ℕ) (heard : Bool) (c : Controller)
    → IsTidy c
    → IsTidy (settle idle deadline arrivals until now heard c).1
unfolding settle
settle-IsTidy idle deadline [] until now heard c t = t
settle-IsTidy idle deadline (a ∷ arrivals) until now heard c t =
    let at = now + a.gap in
    let c' = (ingest_message a.msg c).1 in
    let t' : IsTidy c' = ingest_message-IsTidy a.msg t in
    let cleared : IsTidy (clear_arrival c') = mark_arrival-IsTidy (some false) t' in
    elim (Bool-cases (leb until at)) [
      | inl late ↦ rw late t
      | inr in_time ↦ elim (Bool-cases (arrived c')) [
        | inr quiet ↦
            rw (in_time, quiet) (settle-IsTidy idle deadline arrivals until at heard c' t')
        | inl woken ↦ elim (Bool-cases (leb deadline at)) [
          | inl over ↦ rw (in_time, woken, over) cleared
          | inr more ↦
              rw (in_time, woken, more)
                (settle-IsTidy idle deadline arrivals (at + min idle (deadline - at)) at true
                  (clear_arrival c') cleared)
        ]
      ]
    ]

pub after_request-IsTidy :
    (idle timeout now : ℕ) (arrivals : List Arrival) (r : Result (Unit {0}) × Controller)
    → IsTidy r.1
    → IsTidy (after_request idle timeout now arrivals r).1
after_request-IsTidy idle timeout now arrivals (raised e, c) t = mark_arrival-IsTidy none t
after_request-IsTidy idle timeout now arrivals (ok _, c) t =
    mark_arrival-IsTidy none
      (settle-IsTidy idle (now + timeout) arrivals (now + timeout) now false c t)

pub refresh-IsTidy :
    (idle timeout now : ℕ) (arrivals : List Arrival) (c : Controller)
    → IsTidy c
    → IsTidy (refresh_and_settle idle timeout now arrivals c).1
unfolding refresh_and_settle
refresh-IsTidy idle timeout now arrivals c t = elim (Bool-cases (is_bus_connected c)) [
  | inl e ↦ simp e (
      after_request-IsTidy idle timeout now arrivals
        (send_frame dump_request_frame (record c { frame_arrival = some false }))
        (send_frame-IsTidy dump_request_frame (mark_arrival-IsTidy (some false) t)))
  | inr e ↦ simp e t
]
