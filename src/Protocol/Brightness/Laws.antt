-- ===== src/Protocol/Brightness/Laws.antt =====
-- protocol.py: what the brightness conversions promise.
use hass_dobiss_sx_evolution.Prelude.{
  Bool, all_below, all_below_sound, arith, leb, ltb, nat_eqb, nat_eqb_iff, pos, refl, true, ℕ, ℤ,
  ◌%◌, ◌&&◌, ◌*◌, ◌+◌, ◌||◌, ◌↔◌, ◌≡◌, ◌≤ℤ◌, ◌≤◌,
}
use hass_dobiss_sx_evolution.Protocol.Brightness.{
  brightness_step, can_to_ha_brightness, can_tx_to_rx, ha_to_can_brightness, max_can_brightness_tx,
}

-- Of a Home Assistant brightness from 0 to 255 the CAN write is a multiple of 16 from 0 to 144, and
-- it is 0 exactly for brightness 0, so that a light that is turned on dimly is not turned off.
pub ha_to_can_brightness_bounds :
    (b : ℕ)
    → b ≤ 255
    → (ha_to_can_brightness (pos b) ≤ max_can_brightness_tx)
      × (ha_to_can_brightness (pos b) % brightness_step ≡ 0)
      × ((ha_to_can_brightness (pos b) ≡ 0) ↔ (b ≡ 0))
unfolding ha_to_can_brightness
ha_to_can_brightness_bounds b h =
    (ground arith, ground arith, (λ e. ground arith, λ e. ground arith))

-- A brighter request never gives a smaller write, for all integers.
pub ha_to_can_brightness_mono : (b c : ℤ) → b ≤ℤ c → ha_to_can_brightness b ≤ ha_to_can_brightness c
unfolding ha_to_can_brightness
ha_to_can_brightness_mono b c h = ground arith

-- The echo of a write of 16 * k, with k from 0 to 9, is 10 * k: the expected echoes are exact.
pub can_tx_to_rx_steps : (k : ℕ) → k ≤ 9 → can_tx_to_rx (pos (k * brightness_step)) ≡ k * 10
unfolding can_tx_to_rx
can_tx_to_rx_steps k h = ground arith

-- The brightness that Home Assistant shows once the echo of a write of brightness `b` is in.
abbrev pub shown_after_echo : ℕ → ℕ
shown_after_echo b = can_to_ha_brightness (can_tx_to_rx (pos (ha_to_can_brightness (pos b))))

no_drift_table :
    all_below 256 (λ b.
      nat_eqb (ha_to_can_brightness (pos (shown_after_echo b))) (ha_to_can_brightness (pos b)))
    ≡ true
unfolding all_below ha_to_can_brightness can_to_ha_brightness can_tx_to_rx
no_drift_table = refl

-- For a brightness from 0 to 255, writing back the brightness that the echo shows gives the same
-- CAN write: the conversions do not drift.
pub brightness_no_drift :
    (b : ℕ)
    → b ≤ 255
    → ha_to_can_brightness (pos (shown_after_echo b)) ≡ ha_to_can_brightness (pos b)
brightness_no_drift b h = (nat_eqb_iff _ _).0 (all_below_sound 256 _ b no_drift_table (omega arith))

abbrev is_near : ℕ → Bool
is_near b = ltb b 15 || (leb (shown_after_echo b) (b + 14) && leb b (shown_after_echo b + 14))

error_table : all_below 256 is_near ≡ true
unfolding all_below ha_to_can_brightness can_to_ha_brightness can_tx_to_rx
error_table = refl

-- For a brightness from 15 to 255 the brightness that the echo shows is at most 14 away from it.
pub brightness_error :
    (b : ℕ) → 15 ≤ b → b ≤ 255 → (shown_after_echo b ≤ b + 14) × (b ≤ shown_after_echo b + 14)
brightness_error b h k = ground (arith, all_below_sound 256 is_near b error_table)

-- Whatever byte the bus echoes, the brightness shown lies between 0 and 255, and it is 0 only for
-- the echo 0.
pub can_to_ha_brightness_bounds :
    (s : ℕ) → (can_to_ha_brightness s ≤ 255) × ((can_to_ha_brightness s ≡ 0) ↔ (s ≡ 0))
unfolding can_to_ha_brightness
can_to_ha_brightness_bounds s = (ground arith, (λ e. ground arith, λ e. ground arith))
