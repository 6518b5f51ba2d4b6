-- ===== src/Entities/Light/Laws.antt =====
-- light.py: the slider shows what was asked for until the bus reports something else.
use hass_dobiss_sx_evolution.Prelude.{
  Bool, Bool-cases, List, Option, Option-cases, Result, [], ap, arith, cancelled_error, contains,
  false, if◌then◌else◌, inl, inr, int_eq, nat_eq, nat_eqb, none, ok, pair_eq, pos, raised,
  raised-ne-ok, refl, some, sym, text_eq, true, ℕ, ℤ, ◌&&◌, ◌↔◌, ◌∙◌, ◌∷◌, ◌≡◌, ◌⊎◌,
}
use hass_dobiss_sx_evolution.Controller.Commands.{on_value, turn_on}
use hass_dobiss_sx_evolution.Controller.Ingest.Echo.{echo_value-expected, turn_on-cache}
use hass_dobiss_sx_evolution.Controller.State.{Controller, OutputKey, dimmable}
use hass_dobiss_sx_evolution.Entities.{state_of}
use hass_dobiss_sx_evolution.Entities.Light.{
  DobissLight, brightness, expect, forget, handle_coordinator_update, light_turn_off, light_turn_on,
  or_forget,
}
use hass_dobiss_sx_evolution.Protocol.Brightness.{can_to_ha_brightness, can_tx_to_rx}
use mathlib.Core.Option.{none-ne-some}

-- The brightness that a call asks for.
abbrev pub asked : Option ℤ → ℤ
asked none = pos 255
asked (some b) = b

-- The state that the write leaves in the cache.
abbrev echo_of : Option ℤ → ℕ
echo_of ha_brightness = can_tx_to_rx (pos (on_value true ha_brightness))

expect-dimmable :
    (l : DobissLight) (ha_brightness : Option ℤ) (c : Controller)
    → dimmable l.light_key c ≡ true
    → expect l ha_brightness c ≡ record l {
      attr_brightness = some (asked ha_brightness);
      optimistic_can_value = some (echo_of ha_brightness);
    }
expect-dimmable l none c d = rw d refl
expect-dimmable l (some b) c d = rw d refl

-- The light after updates of the coordinator, each with the controller as it finds it.
abbrev pub after_updates : List Controller → DobissLight → DobissLight
after_updates [] l = l
after_updates (found ∷ updates) l = after_updates updates (handle_coordinator_update l found)

-- Every update found the output in this state.
abbrev pub all_found : OutputKey → ℕ → List Controller → Bool
all_found key v [] = true
all_found key v (found ∷ updates) = nat_eqb (state_of key found) v && all_found key v updates

-- A light that expects nothing stays so, and shows the cache.
shown_forgotten :
    (l : DobissLight) (updates : List Controller) (c : Controller)
    → dimmable l.light_key c ≡ true
    → brightness (after_updates updates (forget l)) c
      ≡ some (pos (can_to_ha_brightness (state_of l.light_key c)))
unfolding brightness handle_coordinator_update
shown_forgotten l [] c d = rw d refl
shown_forgotten l (found ∷ updates) c d = shown_forgotten l updates c d

abbrev expecting : DobissLight → ℤ → ℕ → DobissLight
expecting l b v = record l { attr_brightness = some b; optimistic_can_value = some v }

handle_kept :
    (l : DobissLight) (b : ℤ) (v : ℕ) (found : Controller)
    → nat_eqb (state_of l.light_key found) v ≡ true
    → handle_coordinator_update (expecting l b v) found ≡ expecting l b v
unfolding handle_coordinator_update
handle_kept l b v found e = rw e refl

handle_dropped :
    (l : DobissLight) (b : ℤ) (v : ℕ) (found : Controller)
    → nat_eqb (state_of l.light_key found) v ≡ false
    → handle_coordinator_update (expecting l b v) found ≡ forget l
unfolding handle_coordinator_update
handle_dropped l b v found e = rw e refl

-- Updates keep the brightness while they find the expected state, and drop it for good at the first
-- that finds another.
shown :
    (l : DobissLight) (b : ℤ) (v : ℕ) (updates : List Controller) (c : Controller)
    → dimmable l.light_key c ≡ true
    → brightness (after_updates updates (expecting l b v)) c
      ≡ some (
          if all_found l.light_key v updates
          then b
          else pos (can_to_ha_brightness (state_of l.light_key c)))
unfolding brightness
shown l b v [] c d = rw d refl
shown l b v (found ∷ updates) c d = elim (Bool-cases (nat_eqb (state_of l.light_key found) v)) [
  | inl e ↦
      ap (λ l'. brightness (after_updates updates l') c) (handle_kept l b v found e)
      ∙ shown l b v updates c d
      ∙ rw e refl
  | inr e ↦
      ap (λ l'. brightness (after_updates updates l') c) (handle_dropped l b v found e)
      ∙ shown_forgotten l updates c d
      ∙ rw e refl
]

or_forget_ok :
    (l : DobissLight) (r : Result (Unit {0}) × Controller)
    → (or_forget l r).0 ≡ ok tt
    → (r.0 ≡ ok tt) × (or_forget l r ≡ (ok tt, l, r.1))
or_forget_ok l (ok u, c) h = (h, refl)
or_forget_ok l (raised cancelled_error, c) h = absurd (raised-ne-ok h)
or_forget_ok l (raised _, c) h = absurd (raised-ne-ok h)

turn_on-state :
    (key : OutputKey) (ha_brightness : Option ℤ) (c : Controller)
    → dimmable key c ≡ true
    → (turn_on key ha_brightness c).0 ≡ ok tt
    → state_of key (turn_on key ha_brightness c).1 ≡ echo_of ha_brightness
turn_on-state key ha_brightness c d h =
    ap (λ o. elim o [ none ↦ 0 | some v ↦ v ]) (turn_on-cache key ha_brightness c h).0
    ∙ sym (echo_value-expected key ha_brightness c)
    ∙ rw d refl

-- After `async_turn_on` of a dimmer has returned, and after any updates of the coordinator that follow,
-- each with whatever cache it finds, the light shows the brightness that was asked for if each update
-- found the state that the write left. Once an update has found another state, the light shows the
-- brightness of the state that is in the cache when it is read.
pub light_turn_on-brightness :
    (l : DobissLight) (ha_brightness : Option ℤ) (c : Controller) (updates : List Controller)
    (later : Controller)
    → dimmable l.light_key c ≡ true
    → (light_turn_on l ha_brightness c).0 ≡ ok tt
    → later.dimmers ≡ c.dimmers
    → let (_, l', c') = light_turn_on l ha_brightness c in
      brightness (after_updates updates l') later
      ≡ some (
          if all_found l.light_key (state_of l.light_key c') updates
          then asked ha_brightness
          else pos (can_to_ha_brightness (state_of l.light_key later)))
unfolding light_turn_on
light_turn_on-brightness l ha_brightness c updates later d h same =
    let (written, answer) =
      or_forget_ok (expect l ha_brightness c) (turn_on l.light_key ha_brightness c) h in
    rw
      (
        answer,
        expect-dimmable l ha_brightness c d,
        turn_on-state l.light_key ha_brightness c d written,
      )
      (shown l (asked ha_brightness) (echo_of ha_brightness) updates later
        (ap (contains l.light_key) same ∙ d))

-- Whatever a call does, an optimistic brightness is there exactly when the state to expect is.
abbrev pub IsTracking : DobissLight → Type 0
IsTracking l = (l.attr_brightness ≡ none) ↔ (l.optimistic_can_value ≡ none)

-- What happens to a light: a call, or an update of the coordinator.
pub data LightEvent : Type 0 where
  turned_on : Option ℤ → LightEvent
  turned_off updated : LightEvent

abbrev pub after_event : LightEvent → DobissLight → Controller → DobissLight
after_event (turned_on ha_brightness) l c = (light_turn_on l ha_brightness c).1
after_event turned_off l c = (light_turn_off l c).1
after_event updated l c = handle_coordinator_update l c

handle_cases :
    (l : DobissLight) (c : Controller)
    → (handle_coordinator_update l c ≡ l) ⊎ (handle_coordinator_update l c ≡ forget l)
unfolding handle_coordinator_update
handle_cases l c = elim (Option-cases l.optimistic_can_value) [
  | inl e ↦ inl (rw e refl)
  | inr (v, e) ↦ elim (Bool-cases (nat_eqb (state_of l.light_key c) v)) [
    | inl same ↦ inl (ground arith)
    | inr differs ↦ inr (ground arith)
  ]
]

or_forget-IsTracking :
    (l : DobissLight) (r : Result (Unit {0}) × Controller)
    → IsTracking l
    → IsTracking (or_forget l r).1
or_forget-IsTracking l (ok u, c) t = t
or_forget-IsTracking l (raised cancelled_error, c) t = t
or_forget-IsTracking l (raised _, c) t = ((λ _. refl), (λ _. refl))

-- Every call and every update of the coordinator sets or clears the optimistic brightness and the
-- CAN value that is expected for it together.
pub after_event-IsTracking :
    (event : LightEvent) (l : DobissLight) (c : Controller)
    → IsTracking l
    → IsTracking (after_event event l c)
unfolding light_turn_on light_turn_off handle_coordinator_update
after_event-IsTracking (turned_on ha_brightness) l c t =
    or_forget-IsTracking (expect l ha_brightness c) (turn_on l.light_key ha_brightness c)
      (expected ha_brightness)
  where
    expected : (ha_brightness : Option ℤ) → IsTracking (expect l ha_brightness c)
    expected none = elim (Bool-cases (dimmable l.light_key c)) [
      | inl e ↦
          rw e ((λ h. absurd (none-ne-some _ (sym h))), (λ h. absurd (none-ne-some _ (sym h))))
      | inr e ↦ rw e t
    ]
    expected (some b) = elim (Bool-cases (dimmable l.light_key c)) [
      | inl e ↦
          rw e ((λ h. absurd (none-ne-some _ (sym h))), (λ h. absurd (none-ne-some _ (sym h))))
      | inr e ↦ rw e t
    ]
after_event-IsTracking turned_off l c t = ((λ _. refl), (λ _. refl))
after_event-IsTracking updated l c t = elim (handle_cases l c) [
  | inl kept ↦ rw kept t
  | inr forgotten ↦ rw forgotten ((λ _. refl), (λ _. refl))
]
