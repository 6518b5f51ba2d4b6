-- ===== src/Controller/Commands/Shutters.antt =====
-- controller.py: after a shutter command the cache never shows both directions active.
use hass_dobiss_sx_evolution.Prelude.{
  ==_iff, Bool-cases, Dict, Option, Result, Text, ap, false, get, get-put_ne, get-put_self, inl,
  inr, int_eq, nat_eq, ok, pair_eq, put, some, sym, text_eq, ℕ, ℤ, ◌==◌, ◌∙◌, ◌≡◌, ◌≢◌,
}
use hass_dobiss_sx_evolution.Controller.Commands.{
  Command, apply_local, run_command, shutter_close, shutter_open, shutter_stop,
}
use hass_dobiss_sx_evolution.Controller.Commands.Ran.{run_command_ok}
use hass_dobiss_sx_evolution.Controller.State.{Controller, OutputKey, ShutterConfig}

abbrev pub up : ShutterConfig → Controller → Option ℕ
up s c = get (s.module_letter, s.up_output) c.states

abbrev pub down : ShutterConfig → Controller → Option ℕ
down s c = get (s.module_letter, s.down_output) c.states

key_ne :
    (m : Text) (u d : ℤ)
    → u ≢ d
    → (let j : OutputKey = (m, u) in let k : OutputKey = (m, d) in j == k) ≡ false
key_ne m u d h =
    let j : OutputKey = (m, u) in
    let k : OutputKey = (m, d) in
    elim (Bool-cases (j == k)) [
      | inl same ↦ absurd (h (ap (λ (k : OutputKey). k.1) ((==_iff j k).0 same)))
      | inr e ↦ e
    ]

-- The second of two writes to different keys leaves the first in place.
get-two :
    (j k : OutputKey) (v w : ℕ) (d : Dict OutputKey ℕ)
    → (j == k) ≡ false
    → (get j (put k w (put j v d)) ≡ some v) × (get k (put k w (put j v d)) ≡ some w)
get-two j k v w d ne =
    (get-put_ne j k w (put j v d) ne ∙ get-put_self j v d, get-put_self k w (put j v d))

pub data ShutterMove : Type 0 where
  opens closes stops : ShutterMove

abbrev pub command_of : ShutterMove → ShutterConfig → Command
command_of opens s = shutter_open s
command_of closes s = shutter_close s
command_of stops s = shutter_stop s

abbrev pub up_after : ShutterMove → ℕ
up_after opens = 1
up_after closes = 0
up_after stops = 0

abbrev pub down_after : ShutterMove → ℕ
down_after opens = 0
down_after closes = 1
down_after stops = 0

-- The cache shows the move.
abbrev pub Shows : ShutterMove → ShutterConfig → Controller → Type 0
Shows move s c = (up s c ≡ some (up_after move)) × (down s c ≡ some (down_after move))

-- A shutter with different outputs: after a successful open the cache has the up output at 1 and the
-- down output at 0, after a successful close the reverse, and after a successful stop both at 0.
pub shutter_exclusive :
    (move : ShutterMove) (s : ShutterConfig) (c : Controller)
    → s.up_output ≢ s.down_output
    → (run_command (command_of move s) c).0 ≡ ok tt
    → Shows move s (run_command (command_of move s) c).1
unfolding run_command apply_local
shutter_exclusive opens s c h e =
    let u : OutputKey = (s.module_letter, s.up_output) in
    let d : OutputKey = (s.module_letter, s.down_output) in
    let ud : (u == d) ≡ false = key_ne s.module_letter s.up_output s.down_output h in
    let (f, _, p) = run_command_ok (shutter_open s) c e in
    let (gu, gd) = get-two u d 1 0 c.states ud in
    (
      ap (λ (r : Result (Unit {0}) × Controller). up s r.1) p ∙ gu,
      ap (λ (r : Result (Unit {0}) × Controller). down s r.1) p ∙ gd,
    )
shutter_exclusive closes s c h e =
    let u : OutputKey = (s.module_letter, s.up_output) in
    let d : OutputKey = (s.module_letter, s.down_output) in
    let du : (d == u) ≡ false = key_ne s.module_letter s.down_output s.up_output (λ e. h (sym e)) in
    let (f, _, p) = run_command_ok (shutter_close s) c e in
    let (gd, gu) = get-two d u 1 0 c.states du in
    (
      ap (λ (r : Result (Unit {0}) × Controller). up s r.1) p ∙ gu,
      ap (λ (r : Result (Unit {0}) × Controller). down s r.1) p ∙ gd,
    )
shutter_exclusive stops s c h e =
    let u : OutputKey = (s.module_letter, s.up_output) in
    let d : OutputKey = (s.module_letter, s.down_output) in
    let ud : (u == d) ≡ false = key_ne s.module_letter s.up_output s.down_output h in
    let (f, _, p) = run_command_ok (shutter_stop s) c e in
    let (gu, gd) = get-two u d 0 0 c.states ud in
    (
      ap (λ (r : Result (Unit {0}) × Controller). up s r.1) p ∙ gu,
      ap (λ (r : Result (Unit {0}) × Controller). down s r.1) p ∙ gd,
    )
