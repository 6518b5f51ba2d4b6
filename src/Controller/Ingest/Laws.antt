-- ===== src/Controller/Ingest/Laws.antt =====
-- controller.py: what one inbound frame does, against a reading of its bytes.
use hass_dobiss_sx_evolution.Prelude.{
  Bool, Bool-cases, List, Option, Option-cases, Text, [], arith, contains, false, get, if_same,
  if◌then◌else◌, inl, inr, int_eq, ltb, nat_eq, nat_eqb, none, pair_eq, pos, put, refl, some,
  text_eq, true, ℕ, ◌&&◌, ◌+◌, ◌∙◌, ◌∷◌, ◌≡◌,
}
use hass_dobiss_sx_evolution.Controller.Commands.{apply_local, notify_all}
use hass_dobiss_sx_evolution.Controller.Ingest.{
  ingest_message, ingest_update, is_value, signal_arrival,
}
use hass_dobiss_sx_evolution.Controller.State.{Controller, Effect, Message, OutputKey, notified}
use hass_dobiss_sx_evolution.Protocol.Frame.{
  StateUpdate, can_id_rx_state, can_id_tx_state, parse_state_frame,
}
use hass_dobiss_sx_evolution.Protocol.Frame.Laws.{from_bcd}

-- What the bytes of a broadcast say about a configured module: the output and its state. It is read
-- off the wire format: a second byte that is an ASCII letter of a module, a third byte that is the
-- output less one in BCD, below 12, and a fourth byte that is the state.
abbrev pub reading_bytes : List Text → List ℕ → Option (OutputKey × ℕ)
reading_bytes modules (_ ∷ letter ∷ bcd ∷ state ∷ _) =
    if ltb letter 128 && (contains (letter ∷ []) modules && ltb (from_bcd bcd) 12)
    then some ((letter ∷ [], pos (from_bcd bcd + 1)), state)
    else none
reading_bytes modules _ = none

abbrev pub reading : List Text → Message → Option (OutputKey × ℕ)
reading modules msg =
    if nat_eqb msg.arbitration_id 0x100FF00 then reading_bytes modules msg.bytes else none

-- The controller after a reading: a listener is called only if the state is news.
abbrev pub after_reading : OutputKey → ℕ → Controller → Controller
after_reading key value c =
    if is_value (get key c.states) value then signal_arrival c else record (signal_arrival c) {
      states = put key value c.states;
      trace = notify_all c.listeners key value c.trace;
    }

abbrev pub update_with : OutputKey → ℕ → StateUpdate
update_with key value = record { module_letter = key.0; output = key.1; state = value }

-- What `ingest_message` gives for a reading.
abbrev pub outcome : Option (OutputKey × ℕ) → Controller → Option StateUpdate × Controller
outcome none c = (none, c)
outcome (some (key, value)) c = (some (update_with key value), after_reading key value c)

ingest_update-outcome :
    (letter bcd state : ℕ) (c : Controller)
    → ltb letter 128 ≡ true
    → ingest_update (update_with (letter ∷ [], pos (from_bcd bcd + 1)) state) c
      ≡ outcome (reading_bytes c.modules (0 ∷ letter ∷ bcd ∷ state ∷ [])) c
unfolding ingest_update apply_local
ingest_update-outcome letter bcd state c ascii = ground arith

ingest_bytes :
    (bytes : List ℕ) (c : Controller)
    → ingest_message (record { arbitration_id = can_id_rx_state; bytes = bytes }) c
      ≡ outcome (reading_bytes c.modules bytes) c
unfolding ingest_message parse_state_frame
ingest_bytes [] c = refl
ingest_bytes (_ ∷ []) c = refl
ingest_bytes (_ ∷ _ ∷ []) c = refl
ingest_bytes (_ ∷ _ ∷ _ ∷ []) c = refl
ingest_bytes (_ ∷ letter ∷ bcd ∷ state ∷ rest) c = elim (Bool-cases (ltb letter 128)) [
  | inl e ↦ rw e (rw e at (ingest_update-outcome letter bcd state c e))
  | inr e ↦ rw e
]

not_tx : (id : ℕ) → nat_eqb id can_id_rx_state ≡ true → nat_eqb id can_id_tx_state ≡ false
not_tx id h = ground arith

pub ingest_message-outcome :
    (msg : Message) (c : Controller) → ingest_message msg c ≡ outcome (reading c.modules msg) c
unfolding ingest_message
ingest_message-outcome msg c = elim (Bool-cases (nat_eqb msg.arbitration_id can_id_rx_state)) [
  | inl e ↦ rw (not_tx msg.arbitration_id e) (rw e (ingest_bytes msg.bytes c))
  | inr e ↦ rw e (if_same (nat_eqb msg.arbitration_id can_id_tx_state) (none, c))
]

-- The event of a refresh that waits is set; without such a refresh there is none.
abbrev pub woken : Option Bool → Option Bool
woken none = none
woken (some set) = some true

abbrev pub is_cached : Option ℕ → ℕ → Bool
is_cached (some cached) state = nat_eqb cached state
is_cached none state = false

-- Each listener is called, the first one first.
abbrev pub called : List ℕ → OutputKey → ℕ → List Effect → List Effect
called [] key state trace = trace
called (l ∷ ls) key state trace = called ls key state (notified l key state ∷ trace)

-- What the controller makes of a reading.
abbrev pub taken_in : OutputKey → ℕ → Controller → Controller
taken_in key state c =
    if is_cached (get key c.states) state
    then record c { frame_arrival = woken c.frame_arrival }
    else record c {
      frame_arrival = woken c.frame_arrival;
      states = put key state c.states;
      trace = called c.listeners key state c.trace;
    }

abbrev pub told : Option (OutputKey × ℕ) → Controller → Option StateUpdate × Controller
told none c = (none, c)
told (some (key, state)) c =
    (some (record { module_letter = key.0; output = key.1; state = state }), taken_in key state c)

called-notify_all :
    (ls : List ℕ) (key : OutputKey) (state : ℕ) (trace : List Effect)
    → notify_all ls key state trace ≡ called ls key state trace
called-notify_all [] key state trace = refl
called-notify_all (l ∷ ls) key state trace =
    called-notify_all ls key state (notified l key state ∷ trace)

woken-signal : (c : Controller) → (signal_arrival c).frame_arrival ≡ woken c.frame_arrival
woken-signal c = elim (Option-cases c.frame_arrival) [
  | inl e ↦ ground arith
  | inr (set, e) ↦ ground arith
]

is_cached-is_value : (o : Option ℕ) (state : ℕ) → is_value o state ≡ is_cached o state
is_cached-is_value none state = refl
is_cached-is_value (some cached) state = refl

after_reading-taken_in :
    (key : OutputKey) (state : ℕ) (c : Controller)
    → after_reading key state c ≡ taken_in key state c
after_reading-taken_in key state c = λ i.
    if is_cached-is_value (get key c.states) state i
    then record c { frame_arrival = woken-signal c i }
    else record c {
      frame_arrival = woken-signal c i;
      states = put key state c.states;
      trace = called-notify_all c.listeners key state c.trace i;
    }

outcome-told : (read : Option (OutputKey × ℕ)) (c : Controller) → outcome read c ≡ told read c
outcome-told none c = refl
outcome-told (some (key, state)) c =
    λ i. (some (update_with key state), after_reading-taken_in key state c i)

-- A frame that reads as nothing, whatever its identifier and length, changes nothing, wakes no
-- refresh and gives `None`. Any other frame gives its update, wakes a refresh that waits, and changes
-- the cache and calls the listeners, each once and in their order, exactly if the state differs from
-- the cached one.
pub ingest_message_lem :
    (msg : Message) (c : Controller) → ingest_message msg c ≡ told (reading c.modules msg) c
ingest_message_lem msg c = ingest_message-outcome msg c ∙ outcome-told (reading c.modules msg) c
