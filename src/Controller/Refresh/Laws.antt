-- ===== src/Controller/Refresh/Laws.antt =====
-- controller.py: a refresh ends in time, and leaves no event behind.
use hass_dobiss_sx_evolution.Prelude.{
  Bool, Bool-cases, List, Result, [], arith, false, if◌then◌else◌, inl, inr, leb, min, none, not,
  ok, raised, refl, some, true, ℕ, ◌+◌, ◌-◌, ◌∷◌, ◌≡◌, ◌≤◌, ◌⊎◌,
}
use hass_dobiss_sx_evolution.Controller.Commands.{send_frame}
use hass_dobiss_sx_evolution.Controller.Discovery.{Arrival}
use hass_dobiss_sx_evolution.Controller.Ingest.{ingest_message}
use hass_dobiss_sx_evolution.Controller.ReadLoop.Tidy.{left}
use hass_dobiss_sx_evolution.Controller.Refresh.{
  Settled, after_request, arrived, clear_arrival, refresh_and_settle, settle,
}
use hass_dobiss_sx_evolution.Controller.State.{Controller, is_bus_connected}
use hass_dobiss_sx_evolution.Protocol.Frame.{dump_request_frame}

-- The end of a wait within a deadline.
abbrev pub IsSettled : ℕ → Settled → Type 0
IsSettled deadline s = (s.finished ≤ deadline) × ((s.no_response ≡ false) ⊎ (s.finished ≡ deadline))

module _ (idle deadline : ℕ) where
  unheard :
      (heard : Bool) (until : ℕ)
      → (heard ≡ true) ⊎ (until ≡ deadline)
      → (not heard ≡ false) ⊎ (until ≡ deadline)
  unheard heard until (inl e) = inl (rw e refl)
  unheard heard until (inr e) = inr e

  settle_ends :
      (arrivals : List Arrival) (until now : ℕ) (heard : Bool) (c : Controller)
      → until ≤ deadline
      → ((heard ≡ true) ⊎ (until ≡ deadline))
      → IsSettled deadline (settle idle deadline arrivals until now heard c).0
  unfolding settle
  settle_ends [] until now heard c h k = (h, unheard heard until k)
  settle_ends (a ∷ arrivals) until now heard c h k =
      let t = now + a.gap in
      let c' = (ingest_message a.msg c).1 in
      let skip = settle_ends arrivals until t heard c' h k in
      let drain = settle_ends arrivals (t + min idle (deadline - t)) t true (clear_arrival c') in
      elim (Bool-cases (leb until t)) [
        | inl late ↦ rw late (h, unheard heard until k)
        | inr in_time ↦ elim (Bool-cases (arrived c')) [
          | inr quiet ↦ rw (in_time, quiet) skip
          | inl woken ↦ elim (Bool-cases (leb deadline t)) [
            | inl over ↦ rw (in_time, woken, over) (ground arith, inl refl)
            | inr left ↦ rw (in_time, woken, left) (drain (ground arith) (inl refl))
          ]
        ]
      ]

-- How the dump request of a refresh ends; there is none without a bus.
abbrev pub requested : Controller → Result (Unit {0})
requested c =
    if is_bus_connected c
    then (send_frame dump_request_frame (record c { frame_arrival = some false })).0
    else ok tt

-- The end of a refresh, given that of its dump request.
abbrev pub RefreshEnds : ℕ → Result (Unit {0}) → Result Settled → Type 0
RefreshEnds deadline (ok u) (ok s) = IsSettled deadline s
RefreshEnds deadline (ok u) (raised e) = ⊥
RefreshEnds deadline (raised e) r = r ≡ raised e

after_request-RefreshEnds :
    (idle timeout now : ℕ) (arrivals : List Arrival) (r : Result (Unit {0}) × Controller)
    → ((after_request idle timeout now arrivals r).1.frame_arrival ≡ none)
      × RefreshEnds (now + timeout) r.0 (after_request idle timeout now arrivals r).0
after_request-RefreshEnds idle timeout now arrivals (raised e, c) = (refl, refl)
after_request-RefreshEnds idle timeout now arrivals (ok _, c) = (
  refl,
  settle_ends idle (now + timeout) arrivals (now + timeout) now false c (omega arith) (inr refl),
)

-- A refresh over any frames of the bus, with any idle window and timeout, raises what its dump request
-- raises and returns otherwise, without a bus too: it then ends by its timeout, and it says that it
-- saw no response only at the timeout. On every way out no event is left that a later frame would set.
pub refresh_and_settle_lem :
    (idle timeout now : ℕ) (arrivals : List Arrival) (c : Controller)
    → c.frame_arrival ≡ none
    → ((refresh_and_settle idle timeout now arrivals c).1.frame_arrival ≡ none)
      × RefreshEnds (now + timeout) (requested c) (refresh_and_settle idle timeout now arrivals c).0
unfolding refresh_and_settle
refresh_and_settle_lem idle timeout now arrivals c quiet = elim (Bool-cases (is_bus_connected c)) [
  | inl e ↦ simp e (
      after_request-RefreshEnds idle timeout now arrivals
        (send_frame dump_request_frame (record c { frame_arrival = some false })))
  | inr e ↦ simp e (quiet, (omega arith, inl refl))
]
