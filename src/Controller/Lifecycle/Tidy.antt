-- ===== src/Controller/Lifecycle/Tidy.antt =====
-- controller.py: every bus, notifier thread and repair issue is accounted for.
use hass_dobiss_sx_evolution.Prelude.{
  Bool, List, [], arith, false, if◌then◌else◌, not, true, ℕ, ◌+◌, ◌||◌, ◌∷◌, ◌≡◌, ◌≤◌,
}
use hass_dobiss_sx_evolution.Controller.Lifecycle.{
  BusJob, cancelled_in_close, cancelled_in_stop, cancelled_refused, cancelled_running,
  cancelled_with, clear_repair_issue, close_bus, end_abandoned, made, open_bus, raise_repair_issue,
  refused, setup_notifier, shutdown, teardown_notifier,
}
use hass_dobiss_sx_evolution.Controller.State.{
  Controller, Effect, bus_closed, bus_opened, bus_orphaned, is_bus_connected, issue_created,
  issue_deleted, job_abandoned, notifier_started, notifier_stopped,
}

abbrev pub is_opened : Effect → Bool
is_opened bus_opened = true
is_opened bus_orphaned = true
is_opened _ = false

abbrev pub is_closed : Effect → Bool
is_closed bus_closed = true
is_closed _ = false

abbrev pub is_started : Effect → Bool
is_started notifier_started = true
is_started _ = false

abbrev pub is_stopped : Effect → Bool
is_stopped notifier_stopped = true
is_stopped _ = false

abbrev pub is_created : Effect → Bool
is_created issue_created = true
is_created _ = false

abbrev pub is_deleted : Effect → Bool
is_deleted issue_deleted = true
is_deleted _ = false

abbrev pub is_orphaned : Effect → Bool
is_orphaned bus_orphaned = true
is_orphaned _ = false

abbrev pub is_abandoned : Effect → Bool
is_abandoned job_abandoned = true
is_abandoned _ = false

-- How often an effect of a kind has happened.
abbrev pub times : (Effect → Bool) → List Effect → ℕ
times p [] = 0
times p (e ∷ trace) = if p e then times p trace + 1 else times p trace

abbrev pub one_if : Bool → ℕ
one_if true = 1
one_if false = 0

-- Every bus that was opened is closed, is the current one, or is an orphan: an abandoned job has made
-- it, and there are no more of these, made and to come, than jobs were abandoned. Every notifier that was started is
-- stopped or is the current one, and the repair issue is there exactly while it is marked active. A
-- notifier goes with its reader, and with a bus.
pub record IsTidy (c : Controller) : Type 0 where
  pub buses :
      times is_opened c.trace
      ≡ times is_closed c.trace + one_if (is_bus_connected c) + times is_orphaned c.trace
  pub orphans : times is_orphaned c.trace + c.opening ≤ times is_abandoned c.trace
  pub notifiers : times is_started c.trace ≡ times is_stopped c.trace + one_if c.notifier
  pub issues : times is_created c.trace ≡ times is_deleted c.trace + one_if c.repair_issue_active
  pub paired : c.reader ≡ c.notifier
  pub on_bus : (not c.notifier || is_bus_connected c) ≡ true

pub teardown_notifier-IsTidy : {c : Controller} → IsTidy c → IsTidy (teardown_notifier c)
unfolding teardown_notifier
teardown_notifier-IsTidy t = ground arith

pub setup_notifier-IsTidy : {c : Controller} → IsTidy c → IsTidy (setup_notifier c)
unfolding setup_notifier
setup_notifier-IsTidy t = ground arith

pub open_bus-IsTidy : {c : Controller} (job : BusJob) → IsTidy c → IsTidy (open_bus job c).1
unfolding open_bus teardown_notifier close_bus
open_bus-IsTidy (made bus) t = ground arith
open_bus-IsTidy refused t = ground arith
open_bus-IsTidy (cancelled_with orphan) t = ground arith
open_bus-IsTidy cancelled_refused t = ground arith
open_bus-IsTidy cancelled_running t = ground arith
open_bus-IsTidy cancelled_in_stop t = ground arith
open_bus-IsTidy cancelled_in_close t = ground arith

pub end_abandoned-IsTidy :
    {c : Controller} (makes_bus : Bool) → IsTidy c → IsTidy (end_abandoned makes_bus c)
unfolding end_abandoned
end_abandoned-IsTidy makes_bus t = ground arith

pub shutdown-IsTidy : {c : Controller} → IsTidy c → IsTidy (shutdown c)
unfolding shutdown teardown_notifier close_bus
shutdown-IsTidy t = ground arith

pub raise_repair_issue-IsTidy : {c : Controller} → IsTidy c → IsTidy (raise_repair_issue c)
unfolding raise_repair_issue
raise_repair_issue-IsTidy t = ground arith

pub clear_repair_issue-IsTidy : {c : Controller} → IsTidy c → IsTidy (clear_repair_issue c)
unfolding clear_repair_issue
clear_repair_issue-IsTidy t = ground arith
