-- ===== src/Controller/Refresh.antt =====
-- controller.py, `async_refresh_and_settle`: a dump request, and a wait until its burst of frames is
-- over. The frames that the read loop takes in meanwhile come with the gap before each, as in
-- discovery.
pub mod Laws
pub mod Listeners
pub mod Tidy
use hass_dobiss_sx_evolution.Prelude.{
  Bool, List, Result, [], false, if◌then◌else◌, leb, min, none, not, ok, raised, some, true, ℕ, ◌+◌,
  ◌-◌, ◌∷◌,
}
use hass_dobiss_sx_evolution.Controller.Commands.{send_frame}
use hass_dobiss_sx_evolution.Controller.Discovery.{Arrival}
use hass_dobiss_sx_evolution.Controller.Ingest.{ingest_message}
use hass_dobiss_sx_evolution.Controller.State.{Action, Controller, is_bus_connected}
use hass_dobiss_sx_evolution.Protocol.Frame.{dump_request_frame}

-- self._frame_arrival.is_set()
abbrev pub arrived : Controller → Bool
arrived c = elim c.frame_arrival [ none ↦ false | some set ↦ set ]

-- arrival.clear()
abbrev pub clear_arrival : Controller → Controller
clear_arrival c = record c { frame_arrival = some false }

-- How a refresh ends: at what time, and whether it saw no response at all.
pub record Settled : Type 0 where
  pub finished : ℕ
  pub no_response : Bool

-- The waits: `until` is when the current `wait_for` times out, and `heard` whether the burst has
-- begun. What is left of `deadline` bounds each idle window.
unfoldable pub settle : ℕ → ℕ → List Arrival → ℕ → ℕ → Bool → Controller → Settled × Controller
settle idle deadline [] until now heard c =
    (record { finished = until; no_response = not heard }, c)
settle idle deadline (a ∷ arrivals) until now heard c =
    let t = now + a.gap in
    let c' = (ingest_message a.msg c).1 in
    let skip = settle idle deadline arrivals until t heard c' in
    let drain =
      settle idle deadline arrivals (t + min idle (deadline - t)) t true (clear_arrival c') in
    if leb until t
    then (record { finished = until; no_response = not heard }, c)
    else if not (arrived c')
    then skip
    else if leb deadline t
    then (record { finished = t; no_response = false }, clear_arrival c')
    else drain

abbrev pub end_refresh : Controller → Controller
end_refresh c = record c { frame_arrival = none }

abbrev pub settled : Settled × Controller → Result Settled × Controller
settled (s, c) = (ok s, end_refresh c)

-- After the dump request; the `finally` clause runs on both ways out.
abbrev pub after_request :
    ℕ → ℕ → ℕ → List Arrival → Result (Unit {0}) × Controller → Result Settled × Controller
after_request idle timeout now arrivals (raised e, c) = (raised e, end_refresh c)
after_request idle timeout now arrivals (ok _, c) =
    settled (settle idle (now + timeout) arrivals (now + timeout) now false c)

-- `async_refresh_and_settle` and `_refresh_and_settle_locked`, begun at the time `now`. The lock keeps
-- a second refresh out, so the two tests of the bus are one here.
unfoldable pub refresh_and_settle : ℕ → ℕ → ℕ → List Arrival → Action Settled
refresh_and_settle idle timeout now arrivals c =
    if not (is_bus_connected c)
    then (ok (record { finished = now; no_response = false }), c)
    else after_request idle timeout now arrivals
        (send_frame dump_request_frame (record c { frame_arrival = some false }))
