-- ===== src/Protocol/Responses.antt =====
-- protocol.py: the parsers of the Max200's download responses.
pub mod Config
pub mod Names
use hass_dobiss_sx_evolution.Prelude.{
  Bool, List, Option, Text, [], ascii_upper, get_elem?, if◌then◌else◌, is_ascii_alpha, keep, leb,
  length, ltb, nat_eqb, none, not, some, strip, suc, take, ℕ, ◌&&◌, ◌∷◌,
}
use hass_dobiss_sx_evolution.Protocol.Eeprom.{output_name_response_size}

abbrev pub modules_per_controller : ℕ
modules_per_controller = 18

-- The letter of one slot: `decode("ascii")`, `isalpha` and `upper` of one byte.
abbrev pub slot_letter : ℕ → Option Text
slot_letter char =
    if nat_eqb char 0
    then none
    else if not (ltb char 128)
    then none
    else if is_ascii_alpha char
    then some (ascii_upper char ∷ [])
    else none

-- The loop over the slots, from slot `i` on.
abbrev pub config_slots : ℕ → List ℕ → List (Text × ℕ)
config_slots i [] = []
config_slots i (char ∷ rest) =
    let found = config_slots (suc i) rest in
    elim (slot_letter char) [ none ↦ found | some letter ↦ (letter, i) ∷ found ]

unfoldable pub parse_config_response : List ℕ → List (Text × ℕ)
parse_config_response bytes =
    if ltb (length bytes) modules_per_controller
    then []
    else config_slots 0 (take modules_per_controller bytes)

-- 0x20 <= b <= 0x7E
abbrev pub is_printable : ℕ → Bool
is_printable b = leb 0x20 b && leb b 0x7E

-- name or None
abbrev pub or_none : Text → Option Text
or_none [] = none
or_none (c ∷ s) = some (c ∷ s)

unfoldable pub parse_output_name : List ℕ → Option Text
unfolding strip
parse_output_name bytes =
    if ltb (length bytes) output_name_response_size
    then none
    else if nat_eqb (elim (get_elem? bytes 1) [ none ↦ 0 | some b ↦ b ]) 0xFF
    then none
    else or_none (strip (keep is_printable (take 31 bytes)))
