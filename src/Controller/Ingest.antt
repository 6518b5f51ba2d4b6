-- ===== src/Controller/Ingest.antt =====
-- controller.py, `_ingest_message`: an inbound CAN frame updates the cache and calls the listeners.
pub mod Laws
pub mod Latest
pub mod Echo
use hass_dobiss_sx_evolution.Prelude.{
  Bool, List, Option, [], contains, false, get, if◌then◌else◌, int_eq, ltb_ℤ, nat_eq, nat_eqb, none,
  not, pair_eq, pos, some, text_eq, true, ℕ, ◌||◌, ◌∷◌,
}
use hass_dobiss_sx_evolution.Controller.Commands.{apply_local}
use hass_dobiss_sx_evolution.Controller.Commands.Ran.{update}
use hass_dobiss_sx_evolution.Controller.State.{Controller, Message, OutputKey}
use hass_dobiss_sx_evolution.Protocol.Frame.{
  StateUpdate, can_id_rx_state, can_id_tx_state, outputs_per_module, parse_state_frame,
}

-- self._frame_arrival.set(), if a refresh waits
abbrev pub signal_arrival : Controller → Controller
signal_arrival c = record c {
  frame_arrival = elim c.frame_arrival [ none ↦ none | some _ ↦ some true ];
}

-- d.get(key) == value
abbrev pub is_value : Option ℕ → ℕ → Bool
is_value none v = false
is_value (some w) v = nat_eqb w v

abbrev pub key_of : StateUpdate → OutputKey
key_of u = (u.module_letter, u.output)

unfoldable pub ingest_update : StateUpdate → Controller → Option StateUpdate × Controller
unfolding apply_local
ingest_update update c =
    if not (contains update.module_letter c.modules)
    then (none, c)
    else if ltb_ℤ update.output (pos 1) || ltb_ℤ (pos outputs_per_module) update.output
    then (none, c)
    else if is_value (get (key_of update) (signal_arrival c).states) update.state
    then (some update, signal_arrival c)
    else (some update, apply_local (key_of update) update.state (signal_arrival c))

unfoldable pub ingest_message : Message → Controller → Option StateUpdate × Controller
ingest_message msg c =
    if nat_eqb msg.arbitration_id can_id_tx_state
    then (none, c)
    else if not (nat_eqb msg.arbitration_id can_id_rx_state)
    then (none, c)
    else elim (parse_state_frame msg.bytes) [
      | none ↦ (none, c)
      | some update ↦ ingest_update update c
    ]

-- The messages that the read loop takes in, in order.
abbrev pub ingest_all : List Message → Controller → Controller
ingest_all [] c = c
ingest_all (msg ∷ msgs) c = ingest_all msgs (ingest_message msg c).1
