-- ===== src/Controller/Ingest/Echo.antt =====
-- controller.py: the optimistic cache and the echo of a write agree.
use hass_dobiss_sx_evolution.Prelude.{
  Bool, Bool-cases, List, Option, Result, Text, [], ap, arith, contains, false, get, get-put_self,
  if◌then◌else◌, inl, inr, int_eq, leb_ℤ, lt→ltb, max, nat_eq, none, ok, pair_eq, pos, pos_part,
  refl, some, text_eq, true, ℕ, ℤ, ◌*◌, ◌+◌, ◌/◌, ◌<◌, ◌∙◌, ◌∷◌, ◌≡◌,
}
use hass_dobiss_sx_evolution.Controller.Commands.{
  apply_local, echo_value, light_on, on_value, run_command, turn_on,
}
use hass_dobiss_sx_evolution.Controller.Commands.Ran.{run_command_ok}
use hass_dobiss_sx_evolution.Controller.Ingest.{ingest_message}
use hass_dobiss_sx_evolution.Controller.Ingest.Latest.{ingest_all-silent}
use hass_dobiss_sx_evolution.Controller.Ingest.Laws.{reading}
use hass_dobiss_sx_evolution.Controller.State.{Controller, Message, OutputKey, dimmable}
use hass_dobiss_sx_evolution.Entities.Light.{brightness}
use hass_dobiss_sx_evolution.Protocol.Brightness.{can_tx_to_rx, ha_to_can_brightness, round_div}
use hass_dobiss_sx_evolution.Protocol.Frame.Laws.{from_bcd}

-- A broadcast of the state of an output of the module with this letter.
abbrev pub broadcast : ℕ → ℕ → ℕ → Message
broadcast letter bcd state = record {
  arbitration_id = 0x100FF00;
  bytes = 0 ∷ letter ∷ bcd ∷ state ∷ [];
}

reading-broadcast :
    (modules : List Text) (letter bcd state : ℕ)
    → letter < 128
    → from_bcd bcd < 12
    → contains (letter ∷ []) modules ≡ true
    → reading modules (broadcast letter bcd state)
      ≡ some ((letter ∷ [], pos (from_bcd bcd + 1)), state)
reading-broadcast modules letter bcd state hl hb hm =
    rw (lt→ltb letter 128 hl) (rw hm (rw (lt→ltb (from_bcd bcd) 12 hb)))

-- The state that the bus echoes for an ON write: 10 for each step of 16 that a dimmer is sent, and 1
-- for a plain output.
abbrev pub expected_echo : OutputKey → Option ℤ → Controller → ℕ
expected_echo key brightness c = if dimmable key c then on_value true brightness / 16 * 10 else 1

can_tx_to_rx-step : (k : ℕ) → can_tx_to_rx (pos (k * 16)) ≡ k * 16 / 16 * 10
unfolding can_tx_to_rx
can_tx_to_rx-step k = ground arith

-- A dimmer is sent steps of 16.
on_value_step : (brightness : Option ℤ) → (k : ℕ) × (on_value true brightness ≡ k * 16)
unfolding ha_to_can_brightness
on_value_step none = (9, refl)
on_value_step (some b) = elim (Bool-cases (leb_ℤ b (pos 0))) [
  | inl e ↦ (0, rw e refl)
  | inr e ↦ (max 1 (round_div (pos_part b * 9) 255), rw e refl)
]

pub echo_value-expected :
    (key : OutputKey) (brightness : Option ℤ) (c : Controller)
    → echo_value (dimmable key c) (on_value (dimmable key c) brightness)
      ≡ expected_echo key brightness c
echo_value-expected key brightness c = go (dimmable key c)
  where
    go :
        (dim : Bool)
        → echo_value dim (on_value dim brightness)
          ≡ (if dim then on_value true brightness / 16 * 10 else 1)
    go true = let (k, e) = on_value_step brightness in rw e (can_tx_to_rx-step k)
    go false = refl

abbrev pub output_key : ℕ → ℕ → OutputKey
output_key letter bcd = (letter ∷ [], pos (from_bcd bcd + 1))

-- A broadcast of what the cache holds is silent.
broadcast-silent :
    (letter bcd v : ℕ) (c : Controller)
    → letter < 128
    → from_bcd bcd < 12
    → contains (letter ∷ []) c.modules ≡ true
    → get (output_key letter bcd) c.states ≡ some v
    → let c' = (ingest_message (broadcast letter bcd v) c).1 in
      (c'.trace ≡ c.trace) × (c'.states ≡ c.states)
broadcast-silent letter bcd v c hl hb hm known =
    ingest_all-silent (broadcast letter bcd v ∷ []) c
      (rw (reading-broadcast c.modules letter bcd v hl hb hm) known, tt)

pub turn_on-cache :
    (key : OutputKey) (brightness : Option ℤ) (c : Controller)
    → (turn_on key brightness c).0 ≡ ok tt
    → let c' = (turn_on key brightness c).1 in
      (get key c'.states ≡ some (expected_echo key brightness c)) × (c'.modules ≡ c.modules)
unfolding run_command apply_local
turn_on-cache key brightness c h =
    let (f, _, p) = run_command_ok (light_on key brightness) c h in
    (
      ap (λ (r : Result (Unit {0}) × Controller). get key r.1.states) p
          ∙ get-put_self key (echo_value (dimmable key c) (on_value (dimmable key c) brightness))
              c.states
          ∙ ap some (echo_value-expected key brightness c),
      ap (λ (r : Result (Unit {0}) × Controller). r.1.modules) p,
    )

-- After `async_turn_on` of an output from 1 to 12 of a configured module has returned, the echo that
-- the bus is expected to broadcast finds the cache up to date: it changes no cached state and calls
-- no listener, for dimmers at any brightness and for plain outputs.
pub turn_on-echo :
    (letter bcd : ℕ) (brightness : Option ℤ) (c : Controller)
    → letter < 128
    → from_bcd bcd < 12
    → contains (letter ∷ []) c.modules ≡ true
    → (turn_on (output_key letter bcd) brightness c).0 ≡ ok tt
    → let key = output_key letter bcd in
      let c' = (turn_on key brightness c).1 in
      let echoed = (ingest_message (broadcast letter bcd (expected_echo key brightness c)) c').1 in
      (get key c'.states ≡ some (expected_echo key brightness c))
      × (echoed.trace ≡ c'.trace)
      × (echoed.states ≡ c'.states)
turn_on-echo letter bcd brightness c hl hb hm h =
    let key = output_key letter bcd in
    let (known, modules) = turn_on-cache key brightness c h in
    let (t, s) =
      broadcast-silent letter bcd (expected_echo key brightness c) (turn_on key brightness c).1 hl
        hb (ap (contains (letter ∷ [])) modules ∙ hm) known in
    (known, t, s)
