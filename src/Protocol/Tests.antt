-- ===== src/Protocol/Tests.antt =====
-- Runs of the protocol's theorems at concrete inputs.
use hass_dobiss_sx_evolution.Prelude.{
  All, List, Text, [], arith, bool_eq, codes, inl, int_eq, nat_eq, ok, option_eq, pair_eq, pos,
  refl, replicate, some, take, text_eq, ℕ, ◌++◌, ◌+◌, ◌<◌, ◌∷◌, ◌≡◌, ◌≢◌, ◌≤◌,
}
use hass_dobiss_sx_evolution.Protocol.Brightness.{ha_to_can_brightness}
use hass_dobiss_sx_evolution.Protocol.Brightness.Laws.{brightness_no_drift, shown_after_echo}
use hass_dobiss_sx_evolution.Protocol.Eeprom.{
  DateTime, mood_name_eeprom_addr, output_name_eeprom_addr,
}
use hass_dobiss_sx_evolution.Protocol.Eeprom.Laws.{Apart, eeprom_records-Apart}
use hass_dobiss_sx_evolution.Protocol.Frame.{build_state_frame, can_id_tx_state, parse_state_frame}
use hass_dobiss_sx_evolution.Protocol.Frame.Laws.{parse-build_state_frame}
use hass_dobiss_sx_evolution.Protocol.Responses.{parse_config_response, parse_output_name}
use hass_dobiss_sx_evolution.Protocol.Responses.Config.{
  Ascends, letter_at, listed, parse_config_response_lem,
}
use hass_dobiss_sx_evolution.Protocol.Responses.Names.{AllPrintable, parse_output_name_padded}

parse-build_state_frame_example :
    (payload : List ℕ) × (build_state_frame (b'A' ∷ []) (pos 12) (pos 144)
      ≡ ok (some (can_id_tx_state, payload)))
    × All (λ b. b < 256) payload
    × (parse_state_frame payload
        ≡ some (record { module_letter = b'A' ∷ []; output = pos 12; state = 144 }))
parse-build_state_frame_example =
    parse-build_state_frame b'A' 12 144 (omega arith) (omega arith) (omega arith) (omega arith)

brightness_no_drift_example :
    ha_to_can_brightness (pos (shown_after_echo 200)) ≡ ha_to_can_brightness (pos 200)
brightness_no_drift_example = brightness_no_drift 200 (omega arith)

abbrev dimmest : ℕ
dimmest = 1

abbrev full_echo : ℕ
full_echo = 90

abbrev first_slot : ℕ
first_slot = 0

eeprom_records-Apart_example :
    Apart (output_name_eeprom_addr 0 11) (output_name_eeprom_addr 1 0)
    × (output_name_eeprom_addr 0 11 + 32 ≤ mood_name_eeprom_addr 99)
    × (mood_name_eeprom_addr 99 + 32 ≤ 65536)
eeprom_records-Apart_example =
    eeprom_records-Apart 0 11 1 0 99 (omega arith) (omega arith) (omega arith) (omega arith)
      (omega arith) (inl apart)
  where
    apart : first_slot ≢ 1
    apart h = ground arith

abbrev a_sunday : DateTime
a_sunday = record {
  second = 59;
  minute = 30;
  hour = 23;
  isoweekday = 7;
  day = 31;
  month = 12;
  year = 2023;
}

-- Slot 0 is module A, slot 2 module b, the rest empty.
abbrev a_config : List ℕ
a_config = b'A' ∷ 0xFF ∷ b'b' ∷ replicate 16 0xFF

parse_config_response_example :
    Ascends 0 18 (parse_config_response a_config)
    × (listed 2 (parse_config_response a_config) ≡ letter_at (take 18 a_config) 2)
parse_config_response_example = parse_config_response_lem a_config 2 (omega arith)

abbrev hall : Text
hall = codes "Hall"

parse_output_name_padded_example : parse_output_name (hall ++ replicate 28 0) ≡ some hall
parse_output_name_padded_example =
    parse_output_name_padded hall 28 printable refl refl (omega arith) (omega arith) (omega arith)
  where
    printable : AllPrintable hall
    printable = (
      (omega arith, omega arith),
      ((omega arith, omega arith), ((omega arith, omega arith), ((omega arith, omega arith), tt))),
    )
