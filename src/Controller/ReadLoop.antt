-- ===== src/Controller/ReadLoop.antt =====
-- controller.py: the background read loop, with reconnects and exponential backoff. Times are in
-- milliseconds, the backoff in seconds.
pub mod Same
pub mod Backoff
pub mod Tidy
pub mod Attempt
pub mod Recovers
use hass_dobiss_sx_evolution.Prelude.{
  List, Result, [], bus_error, cancelled_error, if◌then◌else◌, leb, ltb, min, none, not, ok, raised,
  runtime_error, some, ℕ, ◌*◌, ◌+◌, ◌||◌, ◌∷◌,
}
use hass_dobiss_sx_evolution.Controller.Commands.{send_frame}
use hass_dobiss_sx_evolution.Controller.Ingest.{ingest_message}
use hass_dobiss_sx_evolution.Controller.Lifecycle.{
  BusJob, clear_repair_issue, open_bus, raise_repair_issue, setup_notifier, teardown_notifier,
}
use hass_dobiss_sx_evolution.Controller.State.{Action, Controller, Message, modify, then_do}
use hass_dobiss_sx_evolution.Protocol.Frame.{dump_request_frame}

abbrev pub reconnect_backoff_initial_s : ℕ
reconnect_backoff_initial_s = 1

abbrev pub reconnect_backoff_max_s : ℕ
reconnect_backoff_max_s = 60

abbrev pub liveness_timeout : ℕ
liveness_timeout = 300000

-- What the reader gives: a message after a gap, or an exception.
pub data ReadEvent : Type 0 where
  received : ℕ → Message → ReadEvent
  reader_failed : ReadEvent

-- The inner `while True`: it ends only by an exception, of the reader or of a silence that reaches the
-- timeout, as the one after the last event does; then the notifier is torn down.
unfoldable pub read_until_failure : List ReadEvent → Action (Unit {0})
unfolding teardown_notifier
read_until_failure [] c = (raised runtime_error, teardown_notifier c)
read_until_failure (reader_failed ∷ events) c = (raised bus_error, teardown_notifier c)
read_until_failure (received gap msg ∷ events) c =
    let rest = read_until_failure events (ingest_message msg c).1 in
    if ltb gap liveness_timeout then rest else (raised runtime_error, teardown_notifier c)

-- `_read_frames`
unfoldable pub read_frames : List ReadEvent → Action (Unit {0})
unfolding setup_notifier
read_frames events c = elim c.bus [
  | none ↦ (raised runtime_error, c)
  | some _ ↦
      let c' = if not c.reader || not c.notifier then setup_notifier c else c in
      if not c'.reader then (raised runtime_error, c') else read_until_failure events c'
]

-- One attempt to reconnect.
unfoldable pub reconnect : BusJob → Action (Unit {0})
unfolding setup_notifier
reconnect job =
    then_do (open_bus job) (then_do (modify setup_notifier) (send_frame dump_request_frame))

-- One turn of the loop: the events until the reader fails, and the job that reopens the bus.
pub record Turn : Type 0 where
  pub events : List ReadEvent
  pub job : BusJob

-- The loop between two turns, or ended by a cancellation.
pub data Loop : Type 0 where
  alive : ℕ → Controller → Loop
  ended : Controller → Loop

abbrev pub after_failure : ℕ → Controller → Loop
after_failure backoff c =
    let new_backoff = min (backoff * 2) reconnect_backoff_max_s in
    alive new_backoff (if leb reconnect_backoff_max_s new_backoff then raise_repair_issue c else c)

-- What follows an attempt.
abbrev pub after_attempt : ℕ → Result (Unit {0}) × Controller → Loop
after_attempt backoff (ok _, c) =
    alive reconnect_backoff_initial_s
      (clear_repair_issue (record c { reconnect_count = c.reconnect_count + 1 }))
after_attempt backoff (raised cancelled_error, c) = ended c
after_attempt backoff (raised _, c) = after_failure backoff c

unfoldable pub loop_turn : Turn → ℕ → Controller → Loop
unfolding clear_repair_issue raise_repair_issue
loop_turn turn backoff c = after_attempt backoff (reconnect turn.job (read_frames turn.events c).1)

-- `_read_loop`, from a backoff on
unfoldable pub read_loop : List Turn → ℕ → Controller → Loop
read_loop [] backoff c = alive backoff c
read_loop (turn ∷ turns) backoff c = elim (loop_turn turn backoff c) [
  | ended c' ↦ ended c'
  | alive backoff' c' ↦ read_loop turns backoff' c'
]
