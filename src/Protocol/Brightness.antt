-- ===== src/Protocol/Brightness.antt =====
-- protocol.py: brightness between Home Assistant (0-255), CAN writes (0-144) and CAN echoes (0-90).
-- `round` of a float quotient is rounding half to even of the exact quotient, which it is for the
-- numbers below 2 ^ 53 that occur.
pub mod Laws
use hass_dobiss_sx_evolution.Prelude.{
  if◌then◌else◌, leb_ℤ, ltb, max, min, pos, pos_part, ℕ, ℤ, ◌%◌, ◌*◌, ◌+◌, ◌/◌,
}

abbrev pub max_can_brightness_tx : ℕ
max_can_brightness_tx = 144

abbrev pub max_can_brightness_rx : ℕ
max_can_brightness_rx = 90

abbrev pub brightness_step : ℕ
brightness_step = 16

-- round(n / d)
abbrev pub round_div : ℕ → ℕ → ℕ
round_div n d =
    if ltb (2 * (n % d)) d
    then n / d
    else if ltb d (2 * (n % d))
    then n / d + 1
    else n / d + n / d % 2

unfoldable pub can_to_ha_brightness : ℕ → ℕ
can_to_ha_brightness can_state = min (can_state * 255 / max_can_brightness_rx) 255

unfoldable pub ha_to_can_brightness : ℤ → ℕ
ha_to_can_brightness ha_brightness =
    if leb_ℤ ha_brightness (pos 0)
    then 0
    else max 1 (round_div (pos_part ha_brightness * 9) 255) * brightness_step

unfoldable pub can_tx_to_rx : ℤ → ℕ
can_tx_to_rx tx_value =
    if leb_ℤ tx_value (pos 0)
    then 0
    else round_div (pos_part tx_value * max_can_brightness_rx) max_can_brightness_tx
