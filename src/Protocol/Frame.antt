-- ===== src/Protocol/Frame.antt =====
-- protocol.py: BCD, the state frames on the CAN bus, and the mood and dump frames.
pub mod Laws
use hass_dobiss_sx_evolution.Prelude.{
  List, Option, Result, Text, [], ensure, if◌then◌else◌, leb_ℤ, ltb, none, not, ok, pos, pos_part,
  some, value_error, ℕ, ℤ, ◌%◌, ◌&&◌, ◌*◌, ◌+◌, ◌-ℤ◌, ◌/◌, ◌>>=◌, ◌>>◌, ◌∷◌,
}

-- A CAN identifier with its payload.
abbrev pub CanFrame : Type 0
CanFrame = ℕ × List ℕ

pub record StateUpdate : Type 0 where
  pub module_letter : Text
  pub output : ℤ
  pub state : ℕ

abbrev pub can_id_tx_state : ℕ
can_id_tx_state = 0x800102

abbrev pub can_id_state_dump : ℕ
can_id_state_dump = 0x800101

abbrev pub can_id_rx_state : ℕ
can_id_rx_state = 0x100FF00

unfoldable pub to_bcd : ℤ → Result ℕ
to_bcd value = do
  ensure (leb_ℤ (pos 0) value && leb_ℤ value (pos 99)) value_error
  ok (pos_part value / 10 * 16 + pos_part value % 10)

-- The `len(data) < 4` test is the pattern; `decode("ascii")` fails on a byte of 128 or more.
unfoldable pub parse_state_frame : List ℕ → Option StateUpdate
parse_state_frame (_ ∷ module_byte ∷ output_byte ∷ state_val ∷ _) =
    if ltb module_byte 128
    then some (record {
      module_letter = module_byte ∷ [];
      output = pos (output_byte / 16 * 10 + output_byte % 16 + 1);
      state = state_val;
    })
    else none
parse_state_frame _ = none

-- `None` is an invalid module or state, and a bad output raises out of `to_bcd`.
unfoldable pub build_state_frame : Text → ℤ → ℤ → Result (Option CanFrame)
unfolding to_bcd
build_state_frame (letter ∷ []) output state = if not (ltb letter 128) then ok none else (do
  output_byte ← to_bcd (output -ℤ pos 1)
  ok (
      if not (leb_ℤ (pos 0) state && leb_ℤ state (pos 255))
      then none
      else some (can_id_tx_state, 0 ∷ letter ∷ output_byte ∷ pos_part state ∷ [])))
build_state_frame _ output state = ok none

abbrev pub dump_request_frame : CanFrame
dump_request_frame = (can_id_state_dump, [])

abbrev pub outputs_per_module : ℕ
outputs_per_module = 12

abbrev pub mood_address_byte : ℕ
mood_address_byte = 0x53

unfoldable pub build_mood_frame : ℤ → Option CanFrame
build_mood_frame mood_number =
    if not (leb_ℤ (pos 0) mood_number && leb_ℤ mood_number (pos 99))
    then none
    else some (can_id_tx_state, 0 ∷ mood_address_byte ∷ pos_part mood_number ∷ 1 ∷ [])
