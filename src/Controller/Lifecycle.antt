-- ===== src/Controller/Lifecycle.antt =====
-- controller.py: the bus, its notifier and the repair issue.
pub mod Tidy
use hass_dobiss_sx_evolution.Prelude.{
  Bool, bus_error, cancelled_error, false, if◌then◌else◌, none, ok, raised, some, suc, true, zero,
  ◌+◌, ◌∷◌,
}
use hass_dobiss_sx_evolution.Controller.State.{
  Action, Bus, Controller, bus_closed, bus_opened, bus_orphaned, issue_created, issue_deleted,
  job_abandoned, notifier_started, notifier_stopped, reauth_started,
}

-- How `_open_bus` fares at its awaits. A job that the executor is given is begun at once and runs to
-- its end, whatever becomes of the task that waits for it.
pub data BusJob : Type 0 where
  -- `make_bus` returns a bus, or raises
  made : Bus → BusJob
  refused : BusJob
  -- the task is cancelled when `make_bus` has returned or raised, and before it goes on
  cancelled_with : Bus → BusJob
  cancelled_refused : BusJob
  -- the task is cancelled while `make_bus` runs: the future is cancelled with it, and what the job
  -- makes later is not looked at
  cancelled_running : BusJob
  -- the task is cancelled while the old notifier stops, or while the old bus is shut down
  cancelled_in_stop cancelled_in_close : BusJob

-- `_teardown_notifier`; an exception of `notifier.stop` is logged.
unfoldable pub teardown_notifier : Controller → Controller
teardown_notifier c =
    if c.notifier
    then record c { notifier = false; reader = false; trace = notifier_stopped ∷ c.trace }
    else c

-- `_setup_notifier`
unfoldable pub setup_notifier : Controller → Controller
unfolding teardown_notifier
setup_notifier c = elim c.bus [
  | none ↦ c
  | some _ ↦
      let c' = teardown_notifier c in
      record c' { notifier = true; reader = true; trace = notifier_started ∷ c'.trace }
]

-- Closing a bus that is there; an exception of its `shutdown` is logged.
unfoldable pub close_bus : Controller → Controller
close_bus c = elim c.bus [
  | none ↦ c
  | some _ ↦ record c { bus = none; trace = bus_closed ∷ c.trace }
]

-- `fut.cancelled()`: the handler of the cancellation finds no bus to shut down.
abbrev pub abandon_job : Controller → Controller
abandon_job c = record c { opening = c.opening + 1; trace = job_abandoned ∷ c.trace }

-- An abandoned job ends, by whether it makes a bus: nobody will close it.
unfoldable pub end_abandoned : Bool → Controller → Controller
end_abandoned makes_bus c = elim c.opening [
  | zero ↦ c
  | suc running ↦
      if makes_bus
      then record c { opening = running; trace = bus_orphaned ∷ c.trace }
      else record c { opening = running }
]

-- From `make_bus` on.
abbrev pub finish_open : BusJob → Action (Unit {0})
finish_open (made bus) c = (ok tt, record c { bus = some bus; trace = bus_opened ∷ c.trace })
finish_open refused c = (raised bus_error, c)
finish_open (cancelled_with orphan) c =
    (raised cancelled_error, record c { trace = bus_closed ∷ bus_opened ∷ c.trace })
finish_open cancelled_refused c = (raised cancelled_error, c)
finish_open cancelled_running c = (raised cancelled_error, abandon_job c)
finish_open cancelled_in_stop c = (raised cancelled_error, abandon_job c)
finish_open cancelled_in_close c = (raised cancelled_error, abandon_job c)

-- From the old bus on. Without one there is no await there, and a cancellation comes at the next.
abbrev pub close_and_make : BusJob → Action (Unit {0})
close_and_make cancelled_in_close c = elim c.bus [
  | none ↦ finish_open cancelled_running c
  | some _ ↦ (raised cancelled_error, close_bus c)
]
close_and_make job c = finish_open job (close_bus c)

-- `_open_bus`
unfoldable pub open_bus : BusJob → Action (Unit {0})
open_bus cancelled_in_stop c =
    if c.notifier
    then (raised cancelled_error, teardown_notifier c)
    else close_and_make cancelled_in_close c
open_bus job c = close_and_make job (teardown_notifier c)

-- `async_shutdown`
unfoldable pub shutdown : Controller → Controller
shutdown c = close_bus (teardown_notifier (record c { reader_task = false }))

-- `_raise_repair_issue`
unfoldable pub raise_repair_issue : Controller → Controller
raise_repair_issue c = if c.repair_issue_active then c else record c {
  repair_issue_active = true;
  trace =
      if c.entry_exists then reauth_started ∷ issue_created ∷ c.trace else issue_created ∷ c.trace;
}

-- `_clear_repair_issue`
unfoldable pub clear_repair_issue : Controller → Controller
clear_repair_issue c =
    if c.repair_issue_active
    then record c { repair_issue_active = false; trace = issue_deleted ∷ c.trace }
    else c
