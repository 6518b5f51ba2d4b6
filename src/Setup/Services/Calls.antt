-- ===== src/Setup/Services/Calls.antt =====
-- __init__.py: which entries a service call reaches.
use hass_dobiss_sx_evolution.Prelude.{
  Bool, Bool-cases, List, Option, Result, [], ap, arith, bool_eq, cancelled_error, connection_error,
  false, if◌then◌else◌, inl, inr, int_eq, nat_eq, none, not, ok, option_eq, pair_eq, raised,
  raised-ne-ok, refl, some, sym, text_eq, true, ◌||◌, ◌∙◌, ◌∷◌, ◌≡◌, ◌≢◌, ◌⊎◌,
}
use hass_dobiss_sx_evolution.Controller.Commands.{request_dump}
use hass_dobiss_sx_evolution.Controller.State.{Controller}
use hass_dobiss_sx_evolution.Coordinator.{Coordinator, background_sync, service_sync, sync_clock}
use hass_dobiss_sx_evolution.Coordinator.Clock.{has_client}
use hass_dobiss_sx_evolution.Protocol.Eeprom.{DateTime}
use hass_dobiss_sx_evolution.Setup.Services.{
  Runtime, any_clock_link, clock_synced, handle_refresh, handle_sync_clock, has_clock_link,
  refresh_entry, refreshed, sync_entries, sync_entry, then_entries, with_controller,
}
use mathlib.Core.Path.{subst}

-- The entry after its dump request, whatever that raised.
abbrev pub dump_requested : Runtime → Runtime
dump_requested entry =
    if not entry.loaded
    then entry
    else with_controller entry (request_dump entry.coordinator.controller).1

abbrev pub all_requested : List Runtime → List Runtime
all_requested [] = []
all_requested (entry ∷ entries) = dump_requested entry ∷ all_requested entries

-- No request is cancelled.
abbrev pub NotCancelled : List Runtime → Type 0
NotCancelled [] = Unit
NotCancelled (entry ∷ entries) =
    ((request_dump entry.coordinator.controller).0 ≢ raised cancelled_error) × NotCancelled entries

refreshed_lem :
    (entry : Runtime) (r : Result (Unit {0}) × Controller)
    → r.0 ≢ raised cancelled_error
    → refreshed entry r ≡ (ok tt, with_controller entry r.1)
refreshed_lem entry (ok u, c) ne = refl
refreshed_lem entry (raised cancelled_error, c) ne = absurd (ne refl)
refreshed_lem entry (raised _, c) ne = refl

if_loaded :
    (loaded : Bool) (entry : Runtime) (r : Result (Unit {0}) × Controller)
    → r.0 ≢ raised cancelled_error
    → (if not loaded then (ok tt, entry) else refreshed entry r)
      ≡ (ok tt, if not loaded then entry else with_controller entry r.1)
if_loaded true entry r ne = refreshed_lem entry r ne
if_loaded false entry r ne = refl

refresh_entry_lem :
    (entry : Runtime)
    → (request_dump entry.coordinator.controller).0 ≢ raised cancelled_error
    → refresh_entry entry ≡ (ok tt, dump_requested entry)
refresh_entry_lem entry ne =
    if_loaded entry.loaded entry (request_dump entry.coordinator.controller) ne

-- A refresh that is not cancelled succeeds and requests a dump of the bus of every loaded entry, also
-- of those after an entry of which the bus refuses the request; the others stay as they are.
pub handle_refresh-all_requested :
    (entries : List Runtime)
    → NotCancelled entries
    → handle_refresh entries ≡ (ok tt, all_requested entries)
unfolding handle_refresh
handle_refresh-all_requested [] ne = refl
handle_refresh-all_requested (entry ∷ entries) ne =
    rw (refresh_entry_lem entry ne.0, handle_refresh-all_requested entries ne.1) refl

-- Every entry with a link has an attempt recorded at that time.
abbrev pub AllSynced : DateTime → List Runtime → Type 0
AllSynced now [] = Unit
AllSynced now (entry ∷ entries) =
    ((has_clock_link entry ≡ false) ⊎ (entry.coordinator.last_clock_sync ≡ some now))
    × AllSynced now entries

-- The entry was synced, if the call has returned.
abbrev pub SyncedResult : DateTime → Result (Unit {0}) × Coordinator → Type 0
SyncedResult now (ok u, co) = co.last_clock_sync ≡ some now
SyncedResult now (raised e, co) = Unit

background-SyncedResult :
    (now : DateTime) (r : Result (Unit {0})) (co : Coordinator)
    → SyncedResult now (background_sync now r co)
background-SyncedResult now (ok u) co = refl
background-SyncedResult now (raised cancelled_error) co = tt
background-SyncedResult now (raised _) co = refl

service-SyncedResult :
    (now : DateTime) (r : Result (Unit {0})) (co : Coordinator)
    → SyncedResult now (service_sync now r co)
service-SyncedResult now (ok u) co = refl
service-SyncedResult now (raised cancelled_error) co = tt
service-SyncedResult now (raised _) co = tt

sync_clock-SyncedResult :
    (tcp_client serial_client : Option (DateTime → Result (Unit {0}))) (now : DateTime)
    (co : Coordinator)
    → (has_client tcp_client || has_client serial_client) ≡ true
    → SyncedResult now (sync_clock tcp_client serial_client now false co)
unfolding sync_clock
sync_clock-SyncedResult (some client) serial_client now co h =
    background-SyncedResult now (client now) co
sync_clock-SyncedResult none (some client) now co h = service-SyncedResult now (client now) co
sync_clock-SyncedResult none none now co h = cc

clock_synced-last :
    (now : DateTime) (entry after : Runtime) (r : Result (Unit {0}) × Coordinator)
    → SyncedResult now r
    → clock_synced entry r ≡ (ok tt, after)
    → after.coordinator.last_clock_sync ≡ some now
clock_synced-last now entry after (ok u, co) s h =
    sym (ap (λ p. p.1.coordinator.last_clock_sync) h) ∙ s
clock_synced-last now entry after (raised connection_error, co) s h =
    absurd (raised-ne-ok (ap (λ p. p.0) h))
clock_synced-last now entry after (raised _, co) s h = absurd (raised-ne-ok (ap (λ p. p.0) h))

linked :
    (entry : Runtime)
    → has_clock_link entry ≡ true
    → (has_client entry.tcp_client || has_client entry.serial_client) ≡ true
linked entry h = ground arith

sync_entry-last :
    (now : DateTime) (entry after : Runtime)
    → sync_entry now entry ≡ (ok tt, after)
    → (has_clock_link after ≡ false) ⊎ (after.coordinator.last_clock_sync ≡ some now)
sync_entry-last now entry after h = elim (Bool-cases (has_clock_link entry)) [
  | inl e ↦ inr (
      clock_synced-last now entry after
        (sync_clock entry.tcp_client entry.serial_client now false entry.coordinator)
        (sync_clock-SyncedResult entry.tcp_client entry.serial_client now entry.coordinator
          (linked entry e))
        (simp e at h))
  | inr e ↦
      inl (sym (ap (λ (p : Result (Unit {0}) × Runtime). has_clock_link p.1) (simp e at h)) ∙ e)
]

then_entries-ok :
    (r : Result (Unit {0})) (after entries final : List Runtime)
    (first : Result (Unit {0}) × Runtime)
    → then_entries (r, after) entries first ≡ (ok tt, final)
    → (first ≡ (ok tt, first.1)) × (r ≡ ok tt) × (final ≡ first.1 ∷ after)
then_entries-ok r after entries final (ok u, entry) h =
    (refl, ap (λ p. p.0) h, sym (ap (λ p. p.1) h))
then_entries-ok r after entries final (raised e, entry) h = absurd (raised-ne-ok (ap (λ p. p.0) h))

sync_entries-AllSynced :
    (now : DateTime) (entries after : List Runtime)
    → sync_entries now entries ≡ (ok tt, after)
    → AllSynced now after
unfolding sync_entries
sync_entries-AllSynced now [] after h = subst (λ l. AllSynced now l) (ap (λ p. p.1) h) tt
sync_entries-AllSynced now (entry ∷ entries) after h =
    let parts =
      then_entries-ok (sync_entries now entries).0 (sync_entries now entries).1 entries after
        (sync_entry now entry) h in
    subst (λ l. AllSynced now l) (sym parts.2)
      (
        sync_entry-last now entry (sync_entry now entry).1 parts.0,
        sync_entries-AllSynced now entries (sync_entries now entries).1
            (λ i. (parts.1 i, (sync_entries now entries).1)),
      )

-- A call of the clock service that returns has recorded, at every loaded entry with a link to a
-- Max200, an attempt at the time of the call.
pub handle_sync_clock-AllSynced :
    (now : DateTime) (entries after : List Runtime)
    → handle_sync_clock now entries ≡ (ok tt, after)
    → AllSynced now after
unfolding handle_sync_clock
handle_sync_clock-AllSynced now entries after h = elim (Bool-cases (any_clock_link entries)) [
  | inl e ↦ sync_entries-AllSynced now entries after (simp e at h)
  | inr e ↦ absurd (raised-ne-ok (ap (λ p. p.0) (simp e at h)))
]
