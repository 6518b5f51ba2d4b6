-- ===== src/Controller/ReadLoop/Tidy.antt =====
-- controller.py: every step of the controller keeps it tidy.
use hass_dobiss_sx_evolution.Prelude.{
  Bool, Bool-cases, List, Result, [], ap, arith, cancelled_error, false, inl, inr, ltb, ok, raised,
  refl, sym, ℕ, ◌+◌, ◌∙◌, ◌∷◌, ◌≡◌,
}
use hass_dobiss_sx_evolution.Controller.Commands.{
  Command, apply_local, dump, light_on, mood, notify_all, output_off, run_command, send_frame,
  shutter_close, shutter_open, shutter_stop,
}
use hass_dobiss_sx_evolution.Controller.Commands.Ran.{
  Ran, after_send, failed, run_command-Ran, update, went,
}
use hass_dobiss_sx_evolution.Controller.Ingest.{
  ingest_message, ingest_update, key_of, signal_arrival,
}
use hass_dobiss_sx_evolution.Controller.Lifecycle.{BusJob, open_bus, setup_notifier}
use hass_dobiss_sx_evolution.Controller.Lifecycle.Tidy.{
  IsTidy, clear_repair_issue-IsTidy, is_abandoned, is_closed, is_created, is_deleted, is_opened,
  is_orphaned, is_started, is_stopped, one_if, open_bus-IsTidy, raise_repair_issue-IsTidy,
  setup_notifier-IsTidy, teardown_notifier-IsTidy, times,
}
use hass_dobiss_sx_evolution.Controller.ReadLoop.{
  Loop, ReadEvent, Turn, after_attempt, after_failure, alive, ended, liveness_timeout, loop_turn,
  read_frames, read_until_failure, reader_failed, received, reconnect,
}
use hass_dobiss_sx_evolution.Controller.State.{
  Action, Controller, Effect, Message, OutputKey, continue_with, modify, notified, then_do,
}
use hass_dobiss_sx_evolution.Protocol.Frame.{CanFrame, StateUpdate, dump_request_frame}

pub count-notify_all :
    (p : Effect → Bool) (ls : List ℕ) (key : OutputKey) (v : ℕ) (trace : List Effect)
    → ((l : ℕ) → p (notified l key v) ≡ false)
    → times p (notify_all ls key v trace) ≡ times p trace
count-notify_all p [] key v trace h = refl
count-notify_all p (l ∷ ls) key v trace h =
    count-notify_all p ls key v (notified l key v ∷ trace) h ∙ rw (h l)

apply_local-IsTidy :
    {c : Controller} (key : OutputKey) (v : ℕ) → IsTidy c → IsTidy (apply_local key v c)
unfolding apply_local
apply_local-IsTidy {c} key v t = record {
  buses = omega (
    arith,
    t.buses,
    count-notify_all is_opened c.listeners key v c.trace (λ l. refl),
    count-notify_all is_closed c.listeners key v c.trace (λ l. refl),
    count-notify_all is_orphaned c.listeners key v c.trace (λ l. refl),
  );
  orphans = omega (
    arith,
    t.orphans,
    count-notify_all is_orphaned c.listeners key v c.trace (λ l. refl),
    count-notify_all is_abandoned c.listeners key v c.trace (λ l. refl),
  );
  notifiers =
      count-notify_all is_started c.listeners key v c.trace (λ l. refl)
      ∙ t.notifiers
      ∙ ap (λ n. n + one_if c.notifier)
          (sym (count-notify_all is_stopped c.listeners key v c.trace (λ l. refl)));
  issues =
      count-notify_all is_created c.listeners key v c.trace (λ l. refl)
      ∙ t.issues
      ∙ ap (λ n. n + one_if c.repair_issue_active)
          (sym (count-notify_all is_deleted c.listeners key v c.trace (λ l. refl)));
  paired = t.paired;
  on_bus = t.on_bus;
}

signal_arrival-IsTidy : {c : Controller} → IsTidy c → IsTidy (signal_arrival c)
signal_arrival-IsTidy t = record {
  buses = t.buses;
  orphans = t.orphans;
  notifiers = t.notifiers;
  issues = t.issues;
  paired = t.paired;
  on_bus = t.on_bus;
}

ingest_update-IsTidy : {c : Controller} (u : StateUpdate) → IsTidy c → IsTidy (ingest_update u c).1
unfolding ingest_update
ingest_update-IsTidy u t = ground (
  arith,
  signal_arrival-IsTidy t,
  apply_local-IsTidy (key_of u) u.state (signal_arrival-IsTidy t),
)

pub ingest_message-IsTidy :
    {c : Controller} (msg : Message) → IsTidy c → IsTidy (ingest_message msg c).1
unfolding ingest_message
ingest_message-IsTidy msg t = grind (arith, ingest_update-IsTidy)

pub send_frame-IsTidy : {c : Controller} (f : CanFrame) → IsTidy c → IsTidy (send_frame f c).1
unfolding send_frame
send_frame-IsTidy f t = ground arith

after_send-IsTidy : {c : Controller} (f : CanFrame) → IsTidy c → IsTidy (after_send f c)
after_send-IsTidy f t = record {
  buses = t.buses;
  orphans = t.orphans;
  notifiers = t.notifiers;
  issues = t.issues;
  paired = t.paired;
  on_bus = t.on_bus;
}

read_until_failure-IsTidy :
    (events : List ReadEvent) (c : Controller) → IsTidy c → IsTidy (read_until_failure events c).1
unfolding read_until_failure
read_until_failure-IsTidy [] c t = teardown_notifier-IsTidy t
read_until_failure-IsTidy (reader_failed ∷ events) c t = teardown_notifier-IsTidy t
read_until_failure-IsTidy (received gap msg ∷ events) c t =
    elim (Bool-cases (ltb gap liveness_timeout)) [
      | inl e ↦
          rw e (
            read_until_failure-IsTidy events (ingest_message msg c).1 (ingest_message-IsTidy msg t))
      | inr e ↦ rw e (teardown_notifier-IsTidy t)
    ]

pub read_frames-IsTidy :
    {c : Controller} (events : List ReadEvent) → IsTidy c → IsTidy (read_frames events c).1
unfolding read_frames
read_frames-IsTidy {c} events t =
    let s : IsTidy (setup_notifier c) = setup_notifier-IsTidy t in
    let e = read_until_failure-IsTidy events c t in
    let e' = read_until_failure-IsTidy events (setup_notifier c) s in ground arith

pub then_do-IsTidy :
    {A : Type 0} (m : Action (Unit {0})) (k : Action A) (c : Controller)
    → IsTidy (m c).1
    → ((c' : Controller) → IsTidy c' → IsTidy (k c').1)
    → IsTidy (then_do m k c).1
then_do-IsTidy m k c t next = go (m c) t
  where
    go :
        (r : Result (Unit {0}) × Controller)
        → IsTidy r.1
        → IsTidy (continue_with (λ (u : Unit {0}). k) r).1
    go (ok _, c') t = next c' t
    go (raised e, c') t = t

pub reconnect-IsTidy : {c : Controller} (job : BusJob) → IsTidy c → IsTidy (reconnect job c).1
unfolding reconnect
reconnect-IsTidy {c} job t =
    then_do-IsTidy (open_bus job) (then_do (modify setup_notifier) (send_frame dump_request_frame))
      c (open_bus-IsTidy job t)
      (λ c' t'. send_frame-IsTidy dump_request_frame (setup_notifier-IsTidy t'))

bump_count-IsTidy :
    {c : Controller} → IsTidy c → IsTidy (record c { reconnect_count = c.reconnect_count + 1 })
bump_count-IsTidy t = record {
  buses = t.buses;
  orphans = t.orphans;
  notifiers = t.notifiers;
  issues = t.issues;
  paired = t.paired;
  on_bus = t.on_bus;
}

-- The controller that a loop leaves.
abbrev pub left : Loop → Controller
left (alive backoff c) = c
left (ended c) = c

after_failure-IsTidy :
    {c : Controller} (backoff : ℕ) → IsTidy c → IsTidy (left (after_failure backoff c))
after_failure-IsTidy backoff t = ground (arith, raise_repair_issue-IsTidy t)

after_attempt-IsTidy :
    (backoff : ℕ) (r : Result (Unit {0}) × Controller)
    → IsTidy r.1
    → IsTidy (left (after_attempt backoff r))
after_attempt-IsTidy backoff (ok _, c) t = clear_repair_issue-IsTidy (bump_count-IsTidy t)
after_attempt-IsTidy backoff (raised cancelled_error, c) t = t
after_attempt-IsTidy backoff (raised _, c) t = after_failure-IsTidy backoff t

pub loop_turn-IsTidy :
    {c : Controller} (turn : Turn) (backoff : ℕ)
    → IsTidy c
    → IsTidy (left (loop_turn turn backoff c))
unfolding loop_turn
loop_turn-IsTidy {c} turn backoff t =
    after_attempt-IsTidy backoff (reconnect turn.job (read_frames turn.events c).1)
      (reconnect-IsTidy turn.job (read_frames-IsTidy turn.events t))

update-IsTidy : {c : Controller} (cmd : Command) → IsTidy c → IsTidy (update cmd c)
update-IsTidy (light_on key b) t = apply_local-IsTidy key _ t
update-IsTidy (output_off key) t = apply_local-IsTidy key 0 t
update-IsTidy (shutter_open s) t = apply_local-IsTidy _ 0 (apply_local-IsTidy _ 1 t)
update-IsTidy (shutter_close s) t = apply_local-IsTidy _ 0 (apply_local-IsTidy _ 1 t)
update-IsTidy (shutter_stop s) t = apply_local-IsTidy _ 0 (apply_local-IsTidy _ 0 t)
update-IsTidy (mood n) t = t
update-IsTidy dump t = t

pub run_command-IsTidy : {c : Controller} (cmd : Command) → IsTidy c → IsTidy (run_command cmd c).1
run_command-IsTidy {c} cmd t = go (run_command-Ran cmd c)
  where
    go : {r : Result (Unit {0}) × Controller} → Ran cmd c r → IsTidy r.1
    go (failed e p) = rw p t
    go (went f b built there p) = rw p (update-IsTidy cmd (after_send-IsTidy f t))
