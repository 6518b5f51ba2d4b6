-- ===== src/Protocol/Eeprom.antt =====
-- protocol.py: the 16-byte intros of the Max200 downloads, their EEPROM addresses, and the clock
-- packets. A store of a value of 256 or more into a `bytearray` raises `ValueError`.
pub mod Laws
use hass_dobiss_sx_evolution.Prelude.{
  List, Result, [], if◌then◌else◌, ltb, ok, pos, raised, replicate, value_error, ℕ, ◌%◌, ◌*◌, ◌+◌,
  ◌/◌, ◌>>=◌, ◌>>◌, ◌∷◌,
}
use hass_dobiss_sx_evolution.Protocol.Frame.{to_bcd}

abbrev pub eeprom_base_byte : ℕ
eeprom_base_byte = 0xA0

abbrev pub eeprom_read_record_size : ℕ
eeprom_read_record_size = 0

abbrev pub eeprom_read_direction : ℕ
eeprom_read_direction = 3

abbrev pub config_response_size : ℕ
config_response_size = 36

abbrev pub output_name_response_size : ℕ
output_name_response_size = 32

abbrev pub mood_name_response_size : ℕ
mood_name_response_size = output_name_response_size

-- A value stored into a `bytearray`.
abbrev pub byte : ℕ → Result ℕ
byte n = if ltb n 256 then ok n else raised value_error

unfoldable pub build_config_download_intro : List ℕ
build_config_download_intro = 0xED ∷ 0x61 ∷ 0x30 ∷ eeprom_base_byte ∷ replicate 12 0

unfoldable pub output_name_eeprom_addr : ℕ → ℕ → ℕ
output_name_eeprom_addr module_index output_index = 0x8000 + module_index * 384 + output_index * 32

unfoldable pub build_output_name_intro : ℕ → ℕ → Result (List ℕ)
unfolding output_name_eeprom_addr
build_output_name_intro module_index output_index = do
  let addr = output_name_eeprom_addr module_index output_index
  hi ← byte (addr / 256)
  ok (0xED ∷ 0x75 ∷ 0x31 ∷ eeprom_base_byte ∷ hi ∷ (addr % 256) ∷ replicate 10 0)

unfoldable pub mood_name_eeprom_addr : ℕ → ℕ
mood_name_eeprom_addr mood_number = 0xC000 + mood_number * 32

unfoldable pub build_mood_name_intro : ℕ → Result (List ℕ)
unfolding mood_name_eeprom_addr
build_mood_name_intro mood_number = do
  let addr = mood_name_eeprom_addr mood_number
  hi ← byte (addr / 256)
  ok (0xED ∷ 0x6E ∷ 0x30 ∷ eeprom_base_byte ∷ hi ∷ (addr % 256) ∷ replicate 10 0)

-- What the code reads of a `datetime`; `isoweekday` is 1 for Monday and 7 for Sunday.
pub record DateTime : Type 0 where
  pub second : ℕ
  pub minute : ℕ
  pub hour : ℕ
  pub isoweekday : ℕ
  pub day : ℕ
  pub month : ℕ
  pub year : ℕ

unfoldable pub build_clock_set_packets : DateTime → Result (List ℕ × List ℕ)
unfolding to_bcd
build_clock_set_packets dt = do
  let intro : List ℕ = 0xED ∷ 0x4B ∷ 0x30 ∷ replicate 13 0
  second ← to_bcd (pos dt.second)
  minute ← to_bcd (pos dt.minute)
  hour ← to_bcd (pos dt.hour)
  weekday ← to_bcd (pos (dt.isoweekday % 7 + 1))
  day ← to_bcd (pos dt.day)
  month ← to_bcd (pos dt.month)
  year ← to_bcd (pos (dt.year % 100))
  ok (intro, second ∷ minute ∷ hour ∷ weekday ∷ day ∷ month ∷ year ∷ [])
