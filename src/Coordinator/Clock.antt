-- ===== src/Coordinator/Clock.antt =====
-- coordinator.py: what is recorded of a clock sync, and when it raises.
use hass_dobiss_sx_evolution.Prelude.{
  Bool, Option, Result, cancelled_error, false, if◌then◌else◌, none, ok, raised, refl, some, sym,
  true, ◌||◌, ◌∙◌, ◌≡◌, ◌≢◌,
}
use hass_dobiss_sx_evolution.Coordinator.{Coordinator, background_sync, service_sync, sync_clock}
use hass_dobiss_sx_evolution.Protocol.Eeprom.{DateTime}
use mathlib.Core.Option.{none-ne-some, some-injective}

abbrev pub succeeded : Result (Unit {0}) → Bool
succeeded (ok u) = true
succeeded (raised e) = false

-- The client that a sync uses: TCP before serial.
abbrev pub chosen_client :
    Option (DateTime → Result (Unit {0}))
    → Option (DateTime → Result (Unit {0}))
    → Option (DateTime → Result (Unit {0}))
chosen_client (some tcp_client) serial_client = some tcp_client
chosen_client none serial_client = serial_client

abbrev pub has_client : Option (DateTime → Result (Unit {0})) → Bool
has_client none = false
has_client (some client) = true

-- The attempt and its outcome are recorded, and the cache and the timer are as they were.
abbrev pub Recorded : DateTime → Bool → Coordinator → Coordinator → Type 0
Recorded now success co co' =
    (co'.last_clock_sync_ok ≡ some success)
    × (co'.last_clock_sync ≡ some now)
    × (co'.controller ≡ co.controller)
    × (co'.debounce ≡ co.debounce)

background-Recorded :
    (now : DateTime) (co : Coordinator) (r : Result (Unit {0}))
    → r ≢ raised cancelled_error
    → Recorded now (succeeded r) co (background_sync now r co).1
      × ((background_sync now r co).0 ≡ ok tt)
background-Recorded now co (ok u) ne = ((refl, refl, refl, refl), refl)
background-Recorded now co (raised cancelled_error) ne = absurd (ne refl)
background-Recorded now co (raised _) ne = ((refl, refl, refl, refl), refl)

service-Recorded :
    (now : DateTime) (co : Coordinator) (r : Result (Unit {0}))
    → r ≢ raised cancelled_error
    → Recorded now (succeeded r) co (service_sync now r co).1 × ((service_sync now r co).0 ≡ r)
service-Recorded now co (ok u) ne = ((refl, refl, refl, refl), refl)
service-Recorded now co (raised cancelled_error) ne = absurd (ne refl)
service-Recorded now co (raised _) ne = ((refl, refl, refl, refl), refl)

not_cancelled :
    (used client : DateTime → Result (Unit {0})) (now : DateTime)
    → used ≡ client
    → client now ≢ raised cancelled_error
    → used now ≢ raised cancelled_error
not_cancelled used client now same ne cancelled = ne (sym (λ i. same i now) ∙ cancelled)

or_true : (b : Bool) → (b || true) ≡ true
or_true true = refl
or_true false = refl

-- With a client, every attempt that is not cancelled is recorded with its outcome; the sync raises only what the serial
-- client raises, and only when no timer called it.
pub sync_clock-Recorded :
    (tcp_client serial_client : Option (DateTime → Result (Unit {0})))
    (client : DateTime → Result (Unit {0})) (now : DateTime) (timer : Bool) (co : Coordinator)
    → chosen_client tcp_client serial_client ≡ some client
    → client now ≢ raised cancelled_error
    → let (r, co') = sync_clock tcp_client serial_client now timer co in
      Recorded now (succeeded (client now)) co co'
      × (r ≡ (if timer || has_client tcp_client then ok tt else client now))
unfolding sync_clock
sync_clock-Recorded (some tcp_client) serial_client client now timer co h ne =
    rw (sym (some-injective tcp_client client h), or_true timer)
      (background-Recorded now co (tcp_client now)
        (not_cancelled tcp_client client now (some-injective tcp_client client h) ne))
sync_clock-Recorded none (some serial_client) client now true co h ne =
    rw (sym (some-injective serial_client client h)) (
      background-Recorded now co (serial_client now)
        (not_cancelled serial_client client now (some-injective serial_client client h) ne))
sync_clock-Recorded none (some serial_client) client now false co h ne =
    rw (sym (some-injective serial_client client h)) (
      service-Recorded now co (serial_client now)
        (not_cancelled serial_client client now (some-injective serial_client client h) ne))
sync_clock-Recorded none none client now timer co h ne = absurd (none-ne-some client h)
