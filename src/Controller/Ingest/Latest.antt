-- ===== src/Controller/Ingest/Latest.antt =====
-- controller.py: after any frames the cache holds the latest state that the bus reported.
use hass_dobiss_sx_evolution.Prelude.{
  ==_iff, All, Bool-cases, Dict, List, Option, Text, [], ap, arith, get, get-put, if◌then◌else◌,
  inl, inr, int_eq, nat_eq, none, pair_eq, refl, some, text_eq, true, ℕ, ◌==◌, ◌∙◌, ◌∷◌, ◌≡◌,
}
use hass_dobiss_sx_evolution.Controller.Ingest.{ingest_all, ingest_message, is_value}
use hass_dobiss_sx_evolution.Controller.Ingest.Laws.{
  after_reading, ingest_message-outcome, outcome, reading,
}
use hass_dobiss_sx_evolution.Controller.State.{Controller, Message, OutputKey}
use hass_dobiss_sx_evolution.Protocol.Frame.{StateUpdate}

-- The last state that the messages report for `k`.
abbrev pub latest : List Text → OutputKey → List Message → Option ℕ
latest modules k [] = none
latest modules k (msg ∷ msgs) = elim (latest modules k msgs) [
  | some v ↦ some v
  | none ↦ elim (reading modules msg) [
    | none ↦ none
    | some (key, v) ↦ if k == key then some v else none
  ]
]

is_value-eq : (o : Option ℕ) (v : ℕ) → is_value o v ≡ true → o ≡ some v
is_value-eq none v h = cc
is_value-eq (some w) v h = ground arith

get-known :
    (k key : OutputKey) (v : ℕ) (d : Dict OutputKey ℕ)
    → get key d ≡ some v
    → get k d ≡ (if k == key then some v else get k d)
get-known k key v d h = elim (Bool-cases (k == key)) [
  | inl e ↦ rw e (ap (λ (j : OutputKey). get j d) ((==_iff k key).0 e) ∙ h)
  | inr e ↦ rw e
]

get-after_reading :
    (k key : OutputKey) (v : ℕ) (c : Controller)
    → get k (after_reading key v c).states ≡ (if k == key then some v else get k c.states)
get-after_reading k key v c = elim (Bool-cases (is_value (get key c.states) v)) [
  | inl same ↦ rw same (get-known k key v c.states (is_value-eq _ v same))
  | inr news ↦ rw news (get-put k key v c.states)
]

modules-after_reading :
    (key : OutputKey) (v : ℕ) (c : Controller) → (after_reading key v c).modules ≡ c.modules
modules-after_reading key v c = ground arith

-- The cached state of `k` after one outcome.
get-outcome :
    (r : Option (OutputKey × ℕ)) (k : OutputKey) (c : Controller)
    → (get k (outcome r c).1.states ≡ elim r [
      | none ↦ get k c.states
      | some (key, v) ↦ if k == key then some v else get k c.states
    ])
      × ((outcome r c).1.modules ≡ c.modules)
get-outcome none k c = (refl, refl)
get-outcome (some (key, v)) k c = (get-after_reading k key v c, modules-after_reading key v c)

abbrev pub or_cached : Option ℕ → Option ℕ → Option ℕ
or_cached none cached = cached
or_cached (some v) _ = some v

or_cached-latest :
    (l : Option ℕ) (r : Option (OutputKey × ℕ)) (k : OutputKey) (cached : Option ℕ)
    → or_cached l (elim r [ none ↦ cached | some (key, v) ↦ if k == key then some v else cached ])
      ≡ or_cached
          (elim l [
            | some v ↦ some v
            | none ↦ elim r [ none ↦ none | some (key, v) ↦ if k == key then some v else none ]
          ])
          cached
or_cached-latest (some v) r k cached = refl
or_cached-latest none none k cached = refl
or_cached-latest none (some (key, v)) k cached = elim (Bool-cases (k == key)) [
  | inl e ↦ rw e
  | inr e ↦ rw e
]

-- After any sequence of messages, what the cache holds for a key is the last state that the messages
-- report for it, as read off the wire, and the state held before if they report none.
pub get-ingest_all :
    (msgs : List Message) (k : OutputKey) (c : Controller)
    → get k (ingest_all msgs c).states ≡ or_cached (latest c.modules k msgs) (get k c.states)
get-ingest_all [] k c = refl
get-ingest_all (msg ∷ msgs) k c =
    let r = reading c.modules msg in
    let c' = (ingest_message msg c).1 in
    let (g, m) = get-outcome r k c in
    let step : c' ≡ (outcome r c).1 =
      ap (λ (p : Option StateUpdate × Controller). p.1) (ingest_message-outcome msg c) in
    get-ingest_all msgs k c'
    ∙ ap (λ (ms : List Text). or_cached (latest ms k msgs) (get k c'.states))
        (ap (λ (d : Controller). d.modules) step ∙ m)
    ∙ ap (or_cached (latest c.modules k msgs)) (ap (λ (d : Controller). get k d.states) step ∙ g)
    ∙ or_cached-latest (latest c.modules k msgs) r k (get k c.states)

-- A reading that is nothing, or what the cache holds already.
abbrev pub Matches : Dict OutputKey ℕ → Option (OutputKey × ℕ) → Type 0
Matches states none = Unit
Matches states (some (key, v)) = get key states ≡ some v

abbrev pub Repeats : List Text → Dict OutputKey ℕ → Message → Type 0
Repeats modules states msg = Matches states (reading modules msg)

is_value-some : (o : Option ℕ) (v : ℕ) → o ≡ some v → is_value o v ≡ true
is_value-some none v h = cc
is_value-some (some w) v h = ground arith

-- One outcome that repeats the cache: all that may change is the event of a waiting refresh.
outcome-silent :
    (r : Option (OutputKey × ℕ)) (c : Controller)
    → Matches c.states r
    → ((outcome r c).1.trace ≡ c.trace)
      × ((outcome r c).1.states ≡ c.states)
      × ((outcome r c).1.modules ≡ c.modules)
outcome-silent none c h = (refl, refl, refl)
outcome-silent (some (key, v)) c h = rw (is_value-some (get key c.states) v h) (refl, refl, refl)

-- Messages that report only what the cache holds already call no listener, send nothing and leave
-- the cache alone, however many there are: a dump that matches the cache is silent.
pub ingest_all-silent :
    (msgs : List Message) (c : Controller)
    → All (Repeats c.modules c.states) msgs
    → ((ingest_all msgs c).trace ≡ c.trace) × ((ingest_all msgs c).states ≡ c.states)
ingest_all-silent [] c h = (refl, refl)
ingest_all-silent (msg ∷ msgs) c h =
    let r = reading c.modules msg in
    let c' = (ingest_message msg c).1 in
    let step : c' ≡ (outcome r c).1 =
      ap (λ (p : Option StateUpdate × Controller). p.1) (ingest_message-outcome msg c) in
    let (t, s, m) = outcome-silent r c h.0 in
    let states : c'.states ≡ c.states = ap (λ (d : Controller). d.states) step ∙ s in
    let modules : c'.modules ≡ c.modules = ap (λ (d : Controller). d.modules) step ∙ m in
    let (t', s') = ingest_all-silent msgs c' (rw (states, modules) h.1) in
    (t' ∙ ap (λ (d : Controller). d.trace) step ∙ t, s' ∙ states)
