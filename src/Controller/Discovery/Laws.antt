-- ===== src/Controller/Discovery/Laws.antt =====
-- controller.py: discovery ends in time, and it ends early only after every module has been seen.
use hass_dobiss_sx_evolution.Prelude.{
  Bool, Bool-cases, List, Option, Result, Text, [], add, arith, contains, false, inl, inr, int_eq,
  leb, ltb, ltb→lt, nat_eq, none, not, ok, ok-injective, pair_eq, raised, refl, some, sym, text_eq,
  true, ℕ, ◌+◌, ◌-◌, ◌<◌, ◌||◌, ◌∙◌, ◌∷◌, ◌≡◌, ◌≤◌, ◌⊎◌,
}
use hass_dobiss_sx_evolution.Controller.Commands.{send_frame}
use hass_dobiss_sx_evolution.Controller.Commands.Ran.{
  Sends, after_send, failed, send_frame-Sends, went,
}
use hass_dobiss_sx_evolution.Controller.Discovery.{
  Arrival, Collected, Discovery, collect, collect_initial_state, discover, discovered,
  discovery_timeout, note_seen, superset, wait_time,
}
use hass_dobiss_sx_evolution.Controller.Discovery.Reported.{contains-collect, is_reported}
use hass_dobiss_sx_evolution.Controller.Ingest.{ingest_message}
use hass_dobiss_sx_evolution.Controller.State.{Controller, continue_with, is_bus_connected}
use hass_dobiss_sx_evolution.Protocol.Frame.{StateUpdate, dump_request_frame}
use mathlib.Core.Bool.{false≢true}
use mathlib.Core.Path.{subst}

-- What a wait from `now` leads to: the deadline at most, and before it only with all modules seen.
wait_ends :
    (configured seen : List Text) (deadline now : ℕ)
    → now < deadline
    → let t = now + wait_time configured seen (deadline - now) in
      (t ≤ deadline) × (t < deadline → superset seen configured ≡ true)
wait_ends configured seen deadline now h = elim (Bool-cases (superset seen configured)) [
  | inl e ↦ rw e (omega arith, λ early. refl)
  | inr e ↦ rw e (omega arith, λ early. absurd (omega arith))
]

abbrev EndsInTime : List Text → ℕ → Collected → Type 0
EndsInTime configured deadline e =
    (e.now ≤ deadline) × (e.now < deadline → superset e.seen configured ≡ true)

module _ (configured : List Text) (deadline : ℕ) where
  collect_ends :
      (arrivals : List Arrival) (s : Collected)
      → s.now ≤ deadline
      → EndsInTime configured deadline (collect configured deadline arrivals s)
  unfolding collect
  collect_ends [] s h = elim (Bool-cases (leb deadline s.now)) [
    | inl e ↦ rw e (h, λ early. absurd (ground arith))
    | inr e ↦ rw e (wait_ends configured s.seen deadline s.now (ground arith))
  ]
  collect_ends (a ∷ arrivals) s h = elim (Bool-cases (leb deadline s.now)) [
    | inl e ↦ rw e (h, λ early. absurd (ground arith))
    | inr e ↦
        let timeout = wait_time configured s.seen (deadline - s.now) in
        elim (Bool-cases (ltb a.gap timeout)) [
          | inl in_time ↦
              rw (e, in_time)
                (collect_ends arrivals
                  (record {
                    seen = note_seen configured (ingest_message a.msg s.controller).0 s.seen;
                    now = s.now + a.gap;
                    controller = (ingest_message a.msg s.controller).1;
                  })
                  (ground arith))
          | inr late ↦ rw (e, late) (wait_ends configured s.seen deadline s.now (ground arith))
        ]
  ]

superset-add :
    (configured : List Text) (m : Text) (seen : List Text)
    → contains m configured ≡ true
    → superset configured seen ≡ true
    → superset configured (add m seen) ≡ true
superset-add configured m seen h k = ground arith

superset-note_seen :
    (configured : List Text) (u : Option StateUpdate) (seen : List Text)
    → superset configured seen ≡ true
    → superset configured (note_seen configured u seen) ≡ true
superset-note_seen configured none seen h = h
superset-note_seen configured (some u) seen h =
    elim (Bool-cases (contains u.module_letter configured)) [
      | inl e ↦ rw e (superset-add configured u.module_letter seen e h)
      | inr e ↦ rw e h
    ]

module _ (configured : List Text) (deadline : ℕ) where
  -- Only configured modules are noted.
  collect_seen :
      (arrivals : List Arrival) (s : Collected)
      → superset configured s.seen ≡ true
      → superset configured (collect configured deadline arrivals s).seen ≡ true
  unfolding collect
  collect_seen [] s h = ground arith
  collect_seen (a ∷ arrivals) s h = ground (
    arith,
    collect_seen arrivals
        (record {
          seen = note_seen configured (ingest_message a.msg s.controller).0 s.seen;
          now = s.now + a.gap;
          controller = (ingest_message a.msg s.controller).1;
        })
        (superset-note_seen configured (ingest_message a.msg s.controller).0 s.seen h),
  )

-- What discovery promises: it ends within 15 s of its start, only configured modules are noted, it
-- warns exactly if a configured module has not been seen, and with a warning it ends at the deadline.
abbrev pub IsDiscovery : ℕ → List Text → Discovery → Type 0
IsDiscovery now configured d =
    (d.finished ≤ now + discovery_timeout)
    × (superset configured d.seen ≡ true)
    × (d.warned ≡ not (superset d.seen configured))
    × ((d.warned ≡ false) ⊎ (d.finished ≡ now + discovery_timeout))

collected-IsDiscovery :
    (now : ℕ) (configured : List Text) (e : Collected)
    → EndsInTime configured (now + discovery_timeout) e
    → superset configured e.seen ≡ true
    → IsDiscovery now configured (discovered configured e)
collected-IsDiscovery now configured e ends seen = elim (Bool-cases (superset e.seen configured)) [
  | inl all ↦ rw (seen, all) (ends.0, refl, refl, inl refl)
  | inr some_missing ↦ rw (seen, some_missing) (ends.0, refl, refl, inr (at_deadline some_missing))
]
  where
    at_deadline : superset e.seen configured ≡ false → e.now ≡ now + discovery_timeout
    at_deadline missing = elim (Bool-cases (ltb e.now (now + discovery_timeout))) [
      | inl early ↦ absurd (false≢true (sym missing ∙ ends.1 (ltb→lt _ _ early)))
      | inr late ↦ ground arith
    ]

abbrev discover_result : ℕ → List Arrival → Controller → Discovery
discover_result now arrivals c = discovered c.modules (
    collect c.modules (now + discovery_timeout) arrivals
      (record { seen = []; now = now; controller = c }))

discover-IsDiscovery :
    (now : ℕ) (arrivals : List Arrival) (c : Controller) (d : Discovery)
    → (discover now arrivals c).0 ≡ ok d
    → IsDiscovery now c.modules d
discover-IsDiscovery now arrivals c d h =
    let s : Collected = record { seen = []; now = now; controller = c } in
    let e = collect c.modules (now + discovery_timeout) arrivals s in
    subst (IsDiscovery now c.modules) (ok-injective h) (
      collected-IsDiscovery now c.modules e
        (collect_ends c.modules (now + discovery_timeout) arrivals s (omega arith))
        (collect_seen c.modules (now + discovery_timeout) arrivals s refl))

-- The module m is among those seen exactly if a message has reported it in time.
abbrev pub SeesReported : ℕ → List Text → Text → List Arrival → Discovery → Type 0
SeesReported now configured m arrivals d =
    contains m d.seen ≡ is_reported configured (now + discovery_timeout) m now arrivals

discover-SeesReported :
    (now : ℕ) (m : Text) (arrivals : List Arrival) (c : Controller) (d : Discovery)
    → (discover now arrivals c).0 ≡ ok d
    → SeesReported now c.modules m arrivals d
discover-SeesReported now m arrivals c d h =
    subst (SeesReported now c.modules m arrivals) (ok-injective h) (
      contains-collect c.modules (now + discovery_timeout) m arrivals
        (record { seen = []; now = now; controller = c }) refl
      ∙ or_false (is_reported c.modules (now + discovery_timeout) m now arrivals))
  where
    or_false : (b : Bool) → (b || false) ≡ b
    or_false b = ground arith

-- The end of discovery, given that of the dump request.
abbrev pub DiscoveryEnds :
    ℕ → List Text → Text → List Arrival → Result (Unit {0}) → Result Discovery → Type 0
DiscoveryEnds now configured m arrivals (ok u) (ok d) =
    IsDiscovery now configured d × SeesReported now configured m arrivals d
DiscoveryEnds now configured m arrivals (ok u) (raised e) = ⊥
DiscoveryEnds now configured m arrivals (raised e) r = r ≡ raised e

-- Discovery on a bus with a reader, over any messages of the bus, raises what the dump request raises,
-- and returns when the request is sent. It then ends within 15 s. It has seen a module m exactly if a
-- message that comes before the deadline reads, off the wire, as a state of the configured module m.
-- It has seen only configured modules, it warns exactly if some configured module was not seen, and
-- it warns only at the deadline.
pub collect_initial_state_lem :
    (now : ℕ) (m : Text) (arrivals : List Arrival) (c : Controller)
    → is_bus_connected c ≡ true
    → c.reader ≡ true
    → DiscoveryEnds now c.modules m arrivals
        (send_frame dump_request_frame c).0
        (collect_initial_state now arrivals c).0
unfolding collect_initial_state
collect_initial_state_lem now m arrivals c bus reader =
    simp (bus, reader) (go (send_frame-Sends dump_request_frame c))
  where
    go :
        {r : Result (Unit {0}) × Controller}
        → Sends dump_request_frame c r
        → DiscoveryEnds now c.modules m arrivals r.0
            (continue_with (λ (u : Unit {0}). discover now arrivals) r).0
    go (failed e p) = rw p refl
    go (went b there p) =
        let c' : Controller = after_send dump_request_frame c in
        let d : Discovery = discover_result now arrivals c' in
        rw p (
          discover-IsDiscovery now arrivals c' d refl,
          discover-SeesReported now m arrivals c' d refl,
        )
