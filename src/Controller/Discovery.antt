-- ===== src/Controller/Discovery.antt =====
-- controller.py, `_collect_initial_state` and `async_setup`. Times are in milliseconds. The messages
-- that the reader will give come with the gap before each; after the last one the bus is silent. A
-- message whose gap reaches the timeout comes too late for `wait_for`.
pub mod Reported
pub mod Laws
pub mod Tidy
pub mod Orphans
use hass_dobiss_sx_evolution.Prelude.{
  Bool, List, Option, Result, Text, [], add, contains, false, if◌then◌else◌, int_eq, leb, ltb, min,
  nat_eq, none, not, ok, pair_eq, some, text_eq, true, ℕ, ◌&&◌, ◌+◌, ◌-◌, ◌||◌, ◌∷◌,
}
use hass_dobiss_sx_evolution.Controller.Commands.{send_frame}
use hass_dobiss_sx_evolution.Controller.Ingest.{ingest_message}
use hass_dobiss_sx_evolution.Controller.Lifecycle.{BusJob, open_bus, setup_notifier}
use hass_dobiss_sx_evolution.Controller.State.{
  Action, Controller, Message, bind, is_bus_connected, modify, then_do,
}
use hass_dobiss_sx_evolution.Protocol.Frame.{StateUpdate, dump_request_frame}

abbrev pub discovery_timeout : ℕ
discovery_timeout = 15000

abbrev pub dump_drain_idle : ℕ
dump_drain_idle = 150

pub record Arrival : Type 0 where
  pub gap : ℕ
  pub msg : Message

-- a >= b, of sets
abbrev pub superset : List Text → List Text → Bool
superset a [] = true
superset a (x ∷ b) = contains x a && superset a b

-- The loop's variables: the modules seen, the time, and the controller.
pub record Collected : Type 0 where
  pub seen : List Text
  pub now : ℕ
  pub controller : Controller

-- if parsed is not None and parsed.module in configured_modules: seen_modules.add(parsed.module)
abbrev pub note_seen : List Text → Option StateUpdate → List Text → List Text
note_seen configured none seen = seen
note_seen configured (some u) seen =
    if contains u.module_letter configured then add u.module_letter seen else seen

-- The timeout of one `wait_for`.
abbrev pub wait_time : List Text → List Text → ℕ → ℕ
wait_time configured seen remaining =
    min (if superset seen configured then dump_drain_idle else remaining) remaining

unfoldable pub collect : List Text → ℕ → List Arrival → Collected → Collected
collect configured deadline [] s =
    if leb deadline s.now
    then s
    else record s { now = s.now + wait_time configured s.seen (deadline - s.now) }
collect configured deadline (a ∷ arrivals) s =
    let timeout = wait_time configured s.seen (deadline - s.now) in
    let (parsed, c) = ingest_message a.msg s.controller in
    let next : Collected = record {
      seen = note_seen configured parsed s.seen;
      now = s.now + a.gap;
      controller = c;
    } in
    let rest = collect configured deadline arrivals next in
    if leb deadline s.now
    then s
    else if ltb a.gap timeout
    then rest
    else record s { now = s.now + timeout }

-- What `_collect_initial_state` ends with: whether it warns, and when it ends.
pub record Discovery : Type 0 where
  pub warned : Bool
  pub seen : List Text
  pub finished : ℕ

abbrev pub no_discovery : ℕ → Discovery
no_discovery now = record { warned = false; seen = []; finished = now }

-- if seen_modules != configured_modules: a warning
abbrev pub discovered : List Text → Collected → Discovery
discovered configured s = record {
  warned = not (superset s.seen configured && superset configured s.seen);
  seen = s.seen;
  finished = s.now;
}

-- The loop and the warning, after the dump request.
abbrev pub discover : ℕ → List Arrival → Controller → Result Discovery × Controller
discover now arrivals c =
    let s =
      collect c.modules (now + discovery_timeout) arrivals
        (record { seen = []; now = now; controller = c }) in
    (ok (discovered c.modules s), s.controller)

-- `_collect_initial_state`, begun at the time `now`
unfoldable pub collect_initial_state : ℕ → List Arrival → Action Discovery
collect_initial_state now arrivals c =
    if not (is_bus_connected c) || not c.reader
    then (ok (no_discovery now), c)
    else then_do (send_frame dump_request_frame) (discover now arrivals) c

-- `async_setup`
unfoldable pub setup : BusJob → ℕ → List Arrival → Action Discovery
setup job now arrivals = then_do (open_bus job) (
    then_do (modify setup_notifier)
      (bind (collect_initial_state now arrivals) (λ d c. (ok d, record c { reader_task = true }))))
