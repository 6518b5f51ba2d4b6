-- ===== src/ConfigFlow/Entry/Buses.antt =====
-- config_flow.py: the bus that a probe opens is the one that the stored entry asks for, and the probe
-- leaves none open.
use hass_dobiss_sx_evolution.Prelude.{
  List, Option, Result, Text, [], cancelled_error, ok, raised, raised-ne-ok, refl, ◌++◌, ◌∷◌, ◌≡◌,
}
use hass_dobiss_sx_evolution.ConfigFlow.Entry.Probed.{
  IsShown, Stores, StoresResult, Submission, entered, submit, submit-Stores,
}
use hass_dobiss_sx_evolution.ConfigFlow.EntryForms.{
  EntryResult, UniqueIds, entry_abort, entry_created, entry_form, entry_updated,
}
use hass_dobiss_sx_evolution.Controller.Buses.{
  BusCall, and_call, bus_shutdown, make_can_bus, probe_bus_sync, suppressed,
}
use hass_dobiss_sx_evolution.Controller.Connection.{ConfigData, ConnectionConfig}
use hass_dobiss_sx_evolution.Coordinator.Links.{entry_connection}

abbrev pub probes : (BusCall → Result (Unit {0})) → ConnectionConfig → Result (Unit {0})
probes answer connection = (probe_bus_sync answer connection).1

-- The calls that made a bus, if they did, are followed by its shutdown and by no other call.
abbrev pub Probes : List BusCall × Result (Unit {0}) → List BusCall × Result (Unit {0}) → Type 0
Probes (done, ok u) probe = probe.0 ≡ done ++ (bus_shutdown ∷ [])
Probes (done, raised e) probe = probe ≡ (done, raised e)

and_call-Probes :
    (answer : BusCall → Result (Unit {0})) (job : List BusCall × Result (Unit {0}))
    → Probes job (and_call job (bus_shutdown ∷ [], suppressed answer (answer bus_shutdown)))
and_call-Probes answer (done, ok u) = refl
and_call-Probes answer (done, raised e) = refl

-- However the sockets and python-can answer, a probe shuts down the bus that `make_bus` makes for it,
-- last, and where `make_bus` raises it raises the same and calls nothing more.
pub probe_bus_sync-Probes :
    (answer : BusCall → Result (Unit {0})) (connection : ConnectionConfig)
    → Probes (make_can_bus answer connection) (probe_bus_sync answer connection)
unfolding probe_bus_sync
probe_bus_sync-Probes answer connection = and_call-Probes answer (make_can_bus answer connection)

and_call-ok :
    (job more : List BusCall × Result (Unit {0})) → (and_call job more).1 ≡ ok tt → job.1 ≡ ok tt
and_call-ok (done, ok _) more h = refl
and_call-ok (done, raised e) more h = absurd (raised-ne-ok h)

probes-Opens :
    (answer : BusCall → Result (Unit {0})) (connection : ConnectionConfig)
    → probes answer connection ≡ ok tt
    → (make_can_bus answer connection).1 ≡ ok tt
unfolding probe_bus_sync
probes-Opens answer connection h =
    and_call-ok (make_can_bus answer connection)
      (bus_shutdown ∷ [], suppressed answer (answer bus_shutdown)) h

-- A bus opens on the connection of the data.
abbrev pub Opens : (BusCall → Result (Unit {0})) → ConfigData → Type 0
Opens answer entry_data = (make_can_bus answer (entry_connection entry_data)).1 ≡ ok tt

abbrev pub OpensResult : (BusCall → Result (Unit {0})) → Result EntryResult → Type 0
OpensResult answer (raised e) = e ≡ cancelled_error
OpensResult answer (ok (entry_form step error)) = Unit
OpensResult answer (ok (entry_abort reason)) = Unit
OpensResult answer (ok (entry_created title entry_data unique_id)) = Opens answer entry_data
OpensResult answer (ok (entry_updated entry_data unique_id)) = Opens answer entry_data

Stores-Opens :
    (answer : BusCall → Result (Unit {0})) (entry : ConnectionConfig × Option Text × Option Text)
    (entry_data : ConfigData) (unique_id : Text)
    → Stores (probes answer) entry entry_data unique_id
    → Opens answer entry_data
Stores-Opens answer (connection, device, host) entry_data unique_id stores =
    rw stores.1 (probes-Opens answer connection stores.0)

result-Opens :
    (answer : BusCall → Result (Unit {0})) (entry : ConnectionConfig × Option Text × Option Text)
    (r : Result EntryResult)
    → StoresResult (probes answer) entry r
    → OpensResult answer r
result-Opens answer entry (raised e) h = h
result-Opens answer entry (ok (entry_form step error)) h = tt
result-Opens answer entry (ok (entry_abort reason)) h = tt
result-Opens answer entry (ok (entry_created title entry_data unique_id)) h =
    Stores-Opens answer entry entry_data unique_id h
result-Opens answer entry (ok (entry_updated entry_data unique_id)) h =
    Stores-Opens answer entry entry_data unique_id h

-- However the sockets and python-can answer, as long as they answer alike, a submitted form whose
-- probe calls them creates or updates an entry only where `make_bus` makes a bus for the connection
-- that the coordinator reads out of the stored data. A reauthentication is on the form that it was
-- shown for the entry.
pub submit-Opens :
    (ids : UniqueIds) (answer : BusCall → Result (Unit {0})) (submission : Submission)
    → IsShown submission
    → OpensResult answer (submit ids (probes answer) submission)
submit-Opens ids answer submission shown =
    result-Opens answer (entered submission) (submit ids (probes answer) submission)
      (submit-Stores ids (probes answer) submission shown)
