-- ===== src/Controller/Refresh/Listeners.antt =====
-- controller.py: a refresh keeps the listeners, and raises no cancellation of its own.
use hass_dobiss_sx_evolution.Prelude.{
  Bool, Bool-cases, List, Option, Result, [], arith, cancelled_error, false, get, inl, inr, int_eq,
  leb, min, nat_eq, none, ok, pair_eq, raised, raised-ne-ok, refl, some, sym, text_eq, true, ℕ, ◌+◌,
  ◌-◌, ◌∙◌, ◌∷◌, ◌≡◌, ◌≢◌,
}
use hass_dobiss_sx_evolution.Controller.Commands.{send_frame}
use hass_dobiss_sx_evolution.Controller.Discovery.{Arrival}
use hass_dobiss_sx_evolution.Controller.Ingest.{ingest_message, is_value}
use hass_dobiss_sx_evolution.Controller.Ingest.Laws.{
  ingest_message-outcome, outcome, reading, woken,
}
use hass_dobiss_sx_evolution.Controller.Refresh.{
  after_request, arrived, clear_arrival, refresh_and_settle, settle,
}
use hass_dobiss_sx_evolution.Controller.State.{Controller, Message, OutputKey, is_bus_connected}
use hass_dobiss_sx_evolution.Protocol.Frame.{CanFrame, dump_request_frame}

send_frame-listeners : (f : CanFrame) (c : Controller) → (send_frame f c).1.listeners ≡ c.listeners
unfolding send_frame
send_frame-listeners f c = ground arith

send_frame-not_cancelled :
    (f : CanFrame) (c : Controller) → (send_frame f c).0 ≢ raised cancelled_error
unfolding send_frame
send_frame-not_cancelled f c h = ground arith

outcome-listeners :
    (read : Option (OutputKey × ℕ)) (c : Controller) → (outcome read c).1.listeners ≡ c.listeners
outcome-listeners none c = refl
outcome-listeners (some (key, value)) c = elim (Bool-cases (is_value (get key c.states) value)) [
  | inl e ↦ rw e refl
  | inr e ↦ rw e refl
]

ingest_message-listeners :
    (msg : Message) (c : Controller) → (ingest_message msg c).1.listeners ≡ c.listeners
ingest_message-listeners msg c =
    rw (ingest_message-outcome msg c) (outcome-listeners (reading c.modules msg) c)

settle-listeners :
    (idle deadline : ℕ) (arrivals : List Arrival) (until now : ℕ) (heard : Bool) (c : Controller)
    → (settle idle deadline arrivals until now heard c).1.listeners ≡ c.listeners
unfolding settle
settle-listeners idle deadline [] until now heard c = refl
settle-listeners idle deadline (a ∷ arrivals) until now heard c =
    let t = now + a.gap in
    let c' = (ingest_message a.msg c).1 in
    let kept : c'.listeners ≡ c.listeners = ingest_message-listeners a.msg c in
    elim (Bool-cases (leb until t)) [
      | inl late ↦ rw late refl
      | inr in_time ↦ elim (Bool-cases (arrived c')) [
        | inr quiet ↦
            rw (in_time, quiet) (settle-listeners idle deadline arrivals until t heard c' ∙ kept)
        | inl woken ↦ elim (Bool-cases (leb deadline t)) [
          | inl over ↦ rw (in_time, woken, over) kept
          | inr more ↦
              rw (in_time, woken, more)
                (settle-listeners idle deadline arrivals (t + min idle (deadline - t)) t true
                    (clear_arrival c')
                  ∙ kept)
        ]
      ]
    ]

after_request-listeners :
    (idle timeout now : ℕ) (arrivals : List Arrival) (r : Result (Unit {0}) × Controller)
    → (after_request idle timeout now arrivals r).1.listeners ≡ r.1.listeners
after_request-listeners idle timeout now arrivals (raised e, c) = refl
after_request-listeners idle timeout now arrivals (ok _, c) =
    settle-listeners idle (now + timeout) arrivals (now + timeout) now false c

after_request-not_cancelled :
    (idle timeout now : ℕ) (arrivals : List Arrival) (r : Result (Unit {0}) × Controller)
    → r.0 ≢ raised cancelled_error
    → (after_request idle timeout now arrivals r).0 ≢ raised cancelled_error
after_request-not_cancelled idle timeout now arrivals (raised e, c) n h = n cc
after_request-not_cancelled idle timeout now arrivals (ok _, c) n h = raised-ne-ok (sym h)

abbrev requested_with : Controller → Result (Unit {0}) × Controller
requested_with c = send_frame dump_request_frame (record c { frame_arrival = some false })

pub refresh-listeners :
    (idle timeout now : ℕ) (arrivals : List Arrival) (c : Controller)
    → (refresh_and_settle idle timeout now arrivals c).1.listeners ≡ c.listeners
unfolding refresh_and_settle
refresh-listeners idle timeout now arrivals c = elim (Bool-cases (is_bus_connected c)) [
  | inl e ↦ simp e (
      after_request-listeners idle timeout now arrivals (requested_with c)
      ∙ send_frame-listeners dump_request_frame (record c { frame_arrival = some false }))
  | inr e ↦ simp e refl
]

pub refresh-not_cancelled :
    (idle timeout now : ℕ) (arrivals : List Arrival) (c : Controller)
    → (refresh_and_settle idle timeout now arrivals c).0 ≢ raised cancelled_error
unfolding refresh_and_settle
refresh-not_cancelled idle timeout now arrivals c = elim (Bool-cases (is_bus_connected c)) [
  | inl e ↦ simp e (
      after_request-not_cancelled idle timeout now arrivals (requested_with c)
        (send_frame-not_cancelled dump_request_frame (record c { frame_arrival = some false })))
  | inr e ↦ simp e (λ h. raised-ne-ok (sym h))
]
