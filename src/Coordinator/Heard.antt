-- ===== src/Coordinator/Heard.antt =====
-- coordinator.py: a change of the cache calls every listener.
use hass_dobiss_sx_evolution.Prelude.{
  Bool-cases, List, Option, Result, [], arith, contains, get, if◌then◌else◌, inl, inr, int_eq,
  nat_eq, nat_eqb, none, pair_eq, refl, some, suc, text_eq, true, ℕ, ◌<◌, ◌∷◌, ◌≡◌, ◌≤◌, ◌⊎◌,
}
use hass_dobiss_sx_evolution.Controller.Commands.{
  Command, apply_local, dump, light_on, mood, notify_all, output_off, run_command, shutter_close,
  shutter_open, shutter_stop,
}
use hass_dobiss_sx_evolution.Controller.Commands.Ran.{Ran, after_send, run_command-Ran, update}
use hass_dobiss_sx_evolution.Controller.Ingest.{is_value}
use hass_dobiss_sx_evolution.Controller.Ingest.Laws.{outcome}
use hass_dobiss_sx_evolution.Controller.State.{
  Controller, Effect, OutputKey, bus_closed, bus_opened, bus_orphaned, issue_created, issue_deleted,
  job_abandoned, notified, notifier_started, notifier_stopped, reauth_started, sent,
}
use hass_dobiss_sx_evolution.Protocol.Frame.{CanFrame}

-- How often a listener has been called.
abbrev pub calls : ℕ → List Effect → ℕ
calls l [] = 0
calls l (notified m key value ∷ trace) =
    let rest = calls l trace in if nat_eqb l m then suc rest else rest
calls l (sent f ∷ trace) = calls l trace
calls l (bus_opened ∷ trace) = calls l trace
calls l (bus_closed ∷ trace) = calls l trace
calls l (notifier_started ∷ trace) = calls l trace
calls l (notifier_stopped ∷ trace) = calls l trace
calls l (job_abandoned ∷ trace) = calls l trace
calls l (bus_orphaned ∷ trace) = calls l trace
calls l (issue_created ∷ trace) = calls l trace
calls l (issue_deleted ∷ trace) = calls l trace
calls l (reauth_started ∷ trace) = calls l trace

-- A change of the cache has called the listener.
abbrev pub Heard : ℕ → Controller → Controller → Type 0
Heard l c c' =
    (c'.listeners ≡ c.listeners) × ((c'.states ≡ c.states) ⊎ (calls l c.trace < calls l c'.trace))

calls-notify_all-le :
    (l : ℕ) (ls : List ℕ) (key : OutputKey) (value : ℕ) (trace : List Effect)
    → calls l trace ≤ calls l (notify_all ls key value trace)
calls-notify_all-le l [] key value trace = ground arith
calls-notify_all-le l (m ∷ ls) key value trace =
    ground (arith, calls-notify_all-le l ls key value (notified m key value ∷ trace))

calls-notify_all-lt :
    (l : ℕ) (ls : List ℕ) (key : OutputKey) (value : ℕ) (trace : List Effect)
    → contains l ls ≡ true
    → calls l trace < calls l (notify_all ls key value trace)
calls-notify_all-lt l [] key value trace h = ground arith
calls-notify_all-lt l (m ∷ ls) key value trace h = ground (
  arith,
  calls-notify_all-le l ls key value (notified m key value ∷ trace),
  calls-notify_all-lt l ls key value (notified m key value ∷ trace),
)

-- Two updates in a row.
calls-twice :
    (l : ℕ) (ls : List ℕ) (j k : OutputKey) (v w : ℕ) (trace : List Effect)
    → contains l ls ≡ true
    → calls l trace < calls l (notify_all ls k w (notify_all ls j v trace))
calls-twice l ls j k v w trace h = omega (
  arith,
  calls-notify_all-lt l ls j v trace h,
  calls-notify_all-lt l ls k w (notify_all ls j v trace) h,
)

update-Heard :
    (l : ℕ) (cmd : Command) (f : CanFrame) (c : Controller)
    → contains l c.listeners ≡ true
    → Heard l c (update cmd (after_send f c))
unfolding apply_local
update-Heard l (light_on key b) f c h =
    (refl, inr (calls-notify_all-lt l c.listeners key _ (sent f ∷ c.trace) h))
update-Heard l (output_off key) f c h =
    (refl, inr (calls-notify_all-lt l c.listeners key _ (sent f ∷ c.trace) h))
update-Heard l (shutter_open s) f c h =
    (refl, inr (calls-twice l c.listeners _ _ _ _ (sent f ∷ c.trace) h))
update-Heard l (shutter_close s) f c h =
    (refl, inr (calls-twice l c.listeners _ _ _ _ (sent f ∷ c.trace) h))
update-Heard l (shutter_stop s) f c h =
    (refl, inr (calls-twice l c.listeners _ _ _ _ (sent f ∷ c.trace) h))
update-Heard l (mood n) f c h = (refl, inl refl)
update-Heard l dump f c h = (refl, inl refl)

pub run_command-Heard :
    (l : ℕ) (cmd : Command) (c : Controller)
    → contains l c.listeners ≡ true
    → Heard l c (run_command cmd c).1
run_command-Heard l cmd c h = go (run_command-Ran cmd c)
  where
    go : {r : Result (Unit {0}) × Controller} → Ran cmd c r → Heard l c r.1
    go (Ran.failed e p) = rw p (refl, inl refl)
    go (Ran.went f b built there p) = rw p (update-Heard l cmd f c h)

pub outcome-Heard :
    (l : ℕ) (read : Option (OutputKey × ℕ)) (c : Controller)
    → contains l c.listeners ≡ true
    → Heard l c (outcome read c).1
outcome-Heard l none c h = (refl, inl refl)
outcome-Heard l (some (key, value)) c h = elim (Bool-cases (is_value (get key c.states) value)) [
  | inl e ↦ rw e (refl, inl refl)
  | inr e ↦ rw e (refl, inr (calls-notify_all-lt l c.listeners key value c.trace h))
]
