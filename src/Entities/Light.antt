-- ===== src/Entities/Light.antt =====
-- light.py: `DobissLight` and its optimistic brightness.
pub mod Laws
use hass_dobiss_sx_evolution.Prelude.{
  Option, Result, cancelled_error, home_assistant_error, if◌then◌else◌, nat_eqb, none, not, ok, pos,
  raised, some, ℕ, ℤ,
}
use hass_dobiss_sx_evolution.Controller.Commands.{turn_off, turn_on}
use hass_dobiss_sx_evolution.Controller.State.{Controller, OutputKey, dimmable}
use hass_dobiss_sx_evolution.Entities.{bus_call, state_of}
use hass_dobiss_sx_evolution.Protocol.Brightness.{
  can_to_ha_brightness, can_tx_to_rx, ha_to_can_brightness, max_can_brightness_tx,
}

pub record DobissLight : Type 0 where
  pub light_key : OutputKey
  -- _attr_brightness and _optimistic_can_value
  pub attr_brightness : Option ℤ
  pub optimistic_can_value : Option ℕ

abbrev pub forget : DobissLight → DobissLight
forget l = record l { attr_brightness = none; optimistic_can_value = none }

-- `_handle_coordinator_update`
unfoldable pub handle_coordinator_update : DobissLight → Controller → DobissLight
handle_coordinator_update l c = elim l.optimistic_can_value [
  | none ↦ l
  | some v ↦ if not (nat_eqb (state_of l.light_key c) v) then forget l else l
]

-- `brightness`
unfoldable pub brightness : DobissLight → Controller → Option ℤ
brightness l c = if not (dimmable l.light_key c) then none else elim l.attr_brightness [
  | some b ↦ some b
  | none ↦ some (pos (can_to_ha_brightness (state_of l.light_key c)))
]

-- The first half of `async_turn_on`: what is set before the write.
abbrev pub expect : DobissLight → Option ℤ → Controller → DobissLight
expect l ha_brightness c =
    if dimmable l.light_key c
    then elim ha_brightness [
      | some b ↦ record l {
        attr_brightness = some b;
        optimistic_can_value = some (can_tx_to_rx (pos (ha_to_can_brightness b)));
      }
      | none ↦ record l {
        attr_brightness = some (pos 255);
        optimistic_can_value = some (can_tx_to_rx (pos max_can_brightness_tx));
      }
    ]
    else l

abbrev pub or_forget :
    DobissLight → Result (Unit {0}) × Controller → Result (Unit {0}) × DobissLight × Controller
or_forget l (ok u, c) = (ok u, l, c)
or_forget l (raised cancelled_error, c) = (raised cancelled_error, l, c)
or_forget l (raised e, c) = (raised home_assistant_error, forget l, c)

-- `async_turn_on`
unfoldable pub light_turn_on :
    DobissLight → Option ℤ → Controller → Result (Unit {0}) × DobissLight × Controller
light_turn_on l ha_brightness c =
    or_forget (expect l ha_brightness c) (turn_on l.light_key ha_brightness c)

abbrev pub keep_light :
    DobissLight → Result (Unit {0}) × Controller → Result (Unit {0}) × DobissLight × Controller
keep_light l r = (r.0, l, r.1)

-- `async_turn_off`
unfoldable pub light_turn_off :
    DobissLight → Controller → Result (Unit {0}) × DobissLight × Controller
unfolding bus_call
light_turn_off l c = keep_light (forget l) (bus_call (turn_off l.light_key) c)
