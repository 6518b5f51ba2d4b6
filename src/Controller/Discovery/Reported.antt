-- ===== src/Controller/Discovery/Reported.antt =====
-- controller.py: the modules that discovery has seen are those that the bus has reported.
use hass_dobiss_sx_evolution.Prelude.{
  ==_iff, Bool, Bool-cases, List, Option, Text, [], ap, arith, contains, contains-add, false, get,
  if◌then◌else◌, inl, inr, int_eq, leb, ltb, nat_eq, nat_eqb, none, pair_eq, pos, refl, some, sym,
  text_eq, true, ℕ, ◌&&◌, ◌+◌, ◌-◌, ◌==◌, ◌||◌, ◌∙◌, ◌∷◌, ◌≡◌,
}
use hass_dobiss_sx_evolution.Controller.Discovery.{
  Arrival, Collected, collect, note_seen, superset, wait_time,
}
use hass_dobiss_sx_evolution.Controller.Ingest.{ingest_message, is_value}
use hass_dobiss_sx_evolution.Controller.Ingest.Laws.{
  ingest_message-outcome, outcome, reading, reading_bytes,
}
use hass_dobiss_sx_evolution.Controller.State.{Controller, Message, OutputKey}
use hass_dobiss_sx_evolution.Protocol.Frame.Laws.{from_bcd}
use hass_dobiss_sx_evolution.SerialClient.{parsed}
use mathlib.Core.Option.{none-ne-some, some-injective}
use mathlib.Core.Path.{subst}

-- The message reports a state of the module m, as it is read off the wire.
abbrev pub says : List Text → Text → Message → Bool
says configured m msg = elim (reading configured msg) [ none ↦ false | some (key, v) ↦ m == key.0 ]

-- Some message that comes before the deadline reports a state of the module m.
abbrev pub is_reported : List Text → ℕ → Text → ℕ → List Arrival → Bool
is_reported configured deadline m now [] = false
is_reported configured deadline m now (a ∷ arrivals) =
    let rest = is_reported configured deadline m (now + a.gap) arrivals in
    ltb (now + a.gap) deadline && (says configured m a.msg || rest)

abbrev found_if : Bool → OutputKey × ℕ → Option (OutputKey × ℕ)
found_if b p = if b then some p else none

tested :
    (configured : List Text) (b : Bool) (k key : OutputKey) (w v : ℕ)
    → (b ≡ true → contains k.0 configured ≡ true)
    → found_if b (k, w) ≡ some (key, v)
    → contains key.0 configured ≡ true
tested configured true k key w v f h =
    sym (ap (λ (p : OutputKey × ℕ). contains p.0.0 configured) (some-injective (k, w) (key, v) h))
    ∙ f refl
tested configured false k key w v f h = absurd (none-ne-some _ h)

reading_bytes-module :
    (configured : List Text) (bytes : List ℕ) (key : OutputKey) (v : ℕ)
    → reading_bytes configured bytes ≡ some (key, v)
    → contains key.0 configured ≡ true
reading_bytes-module configured [] key v h = absurd (none-ne-some _ h)
reading_bytes-module configured (_ ∷ []) key v h = absurd (none-ne-some _ h)
reading_bytes-module configured (_ ∷ _ ∷ []) key v h = absurd (none-ne-some _ h)
reading_bytes-module configured (_ ∷ _ ∷ _ ∷ []) key v h = absurd (none-ne-some _ h)
reading_bytes-module configured (_ ∷ letter ∷ bcd ∷ state ∷ rest) key v h =
    tested configured
      (ltb letter 128 && (contains (letter ∷ []) configured && ltb (from_bcd bcd) 12))
      (letter ∷ [], pos (from_bcd bcd + 1)) key state v (λ e. ground arith) h

reading-module :
    (configured : List Text) (msg : Message) (key : OutputKey) (v : ℕ)
    → reading configured msg ≡ some (key, v)
    → contains key.0 configured ≡ true
reading-module configured msg key v h = elim (Bool-cases (nat_eqb msg.arbitration_id 0x100FF00)) [
  | inl e ↦ reading_bytes-module configured msg.bytes key v (rw e at h)
  | inr e ↦ absurd (none-ne-some _ (rw e at h))
]

says-configured :
    (configured : List Text) (m : Text) (msg : Message)
    → says configured m msg ≡ true
    → contains m configured ≡ true
says-configured configured m msg h = go (reading configured msg) refl h
  where
    go :
        (read : Option (OutputKey × ℕ))
        → reading configured msg ≡ read
        → (elim read [ none ↦ false | some (key, v) ↦ m == key.0 ]) ≡ true
        → contains m configured ≡ true
    go none e h = ground arith
    go (some (key, v)) e h =
        ap (λ k. contains k configured) ((==_iff m key.0).0 h)
        ∙ reading-module configured msg key v e

is_reported-configured :
    (configured : List Text) (deadline : ℕ) (m : Text) (now : ℕ) (arrivals : List Arrival)
    → is_reported configured deadline m now arrivals ≡ true
    → contains m configured ≡ true
is_reported-configured configured deadline m now [] h = ground arith
is_reported-configured configured deadline m now (a ∷ arrivals) h = ground (
  arith,
  says-configured configured m a.msg,
  is_reported-configured configured deadline m (now + a.gap) arrivals,
)

superset-contains :
    (seen configured : List Text) (m : Text)
    → superset seen configured ≡ true
    → contains m configured ≡ true
    → contains m seen ≡ true
superset-contains seen [] m s h = ground arith
superset-contains seen (x ∷ configured) m s h =
    ground (arith, ==_iff m x, at, superset-contains seen configured m)
  where
    at : m ≡ x → contains m seen ≡ contains x seen
    at p = λ i. contains (p i) seen

note_outcome :
    (m : Text) (read : Option (OutputKey × ℕ)) (c : Controller) (seen : List Text)
    → ((key : OutputKey) (v : ℕ) → read ≡ some (key, v) → contains key.0 c.modules ≡ true)
    → contains m (note_seen c.modules (outcome read c).0 seen)
      ≡ ((elim read [ none ↦ false | some (key, v) ↦ m == key.0 ]) || contains m seen)
note_outcome m none c seen h = refl
note_outcome m (some (key, v)) c seen h = rw (h key v refl) (contains-add m key.0 seen)

-- One message adds the module that it reports.
contains-note_seen :
    (m : Text) (msg : Message) (c : Controller) (seen : List Text)
    → contains m (note_seen c.modules (ingest_message msg c).0 seen)
      ≡ (says c.modules m msg || contains m seen)
contains-note_seen m msg c seen =
    rw (ingest_message-outcome msg c)
      (note_outcome m (reading c.modules msg) c seen (reading-module c.modules msg))

outcome-modules :
    (read : Option (OutputKey × ℕ)) (c : Controller) → (outcome read c).1.modules ≡ c.modules
outcome-modules none c = refl
outcome-modules (some (key, value)) c = elim (Bool-cases (is_value (get key c.states) value)) [
  | inl e ↦ rw e refl
  | inr e ↦ rw e refl
]

ingest_message-modules :
    (msg : Message) (c : Controller) → (ingest_message msg c).1.modules ≡ c.modules
ingest_message-modules msg c =
    rw (ingest_message-outcome msg c) (outcome-modules (reading c.modules msg) c)

-- A wait that ends without a message ends at the deadline, or all modules have been seen.
late_unseen :
    (configured : List Text) (deadline : ℕ) (m : Text) (a : Arrival) (arrivals : List Arrival)
    (seen : List Text) (now : ℕ)
    → ltb a.gap (wait_time configured seen (deadline - now)) ≡ false
    → contains m seen ≡ (is_reported configured deadline m now (a ∷ arrivals) || contains m seen)
late_unseen configured deadline m a arrivals seen now late = ground (
  arith,
  superset-contains seen configured m,
  is_reported-configured configured deadline m now (a ∷ arrivals),
)

contains-note_seen_at :
    (configured : List Text) (m : Text) (msg : Message) (c : Controller) (seen : List Text)
    → c.modules ≡ configured
    → contains m (note_seen configured (ingest_message msg c).0 seen)
      ≡ (says configured m msg || contains m seen)
contains-note_seen_at configured m msg c seen same =
    subst
      (λ ms.
        contains m (note_seen ms (ingest_message msg c).0 seen)
        ≡ (says ms m msg || contains m seen))
      same (contains-note_seen m msg c seen)

-- The modules seen at the end are those seen before and those reported in time.
pub contains-collect :
    (configured : List Text) (deadline : ℕ) (m : Text) (arrivals : List Arrival) (s : Collected)
    → s.controller.modules ≡ configured
    → contains m (collect configured deadline arrivals s).seen
      ≡ (is_reported configured deadline m s.now arrivals || contains m s.seen)
unfolding collect
contains-collect configured deadline m [] s same = elim (Bool-cases (leb deadline s.now)) [
  | inl e ↦ rw e refl
  | inr e ↦ rw e refl
]
contains-collect configured deadline m (a ∷ arrivals) s same =
    let (parsed, c) = ingest_message a.msg s.controller in
    let next : Collected = record {
      seen = note_seen configured parsed s.seen;
      now = s.now + a.gap;
      controller = c;
    } in
    elim (Bool-cases (leb deadline s.now)) [
      | inl e ↦ rw e (ground arith)
      | inr e ↦ elim (Bool-cases (ltb a.gap (wait_time configured s.seen (deadline - s.now)))) [
        | inl in_time ↦
            rw (e, in_time)
              (ground (
                arith,
                contains-collect configured deadline m arrivals next
                    (ingest_message-modules a.msg s.controller ∙ same),
                contains-note_seen_at configured m a.msg s.controller s.seen same,
              ))
        | inr late ↦ rw (e, late) (late_unseen configured deadline m a arrivals s.seen s.now late)
      ]
    ]
