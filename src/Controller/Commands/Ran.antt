-- ===== src/Controller/Commands/Ran.antt =====
-- controller.py: how a command can end.
-- The state after a frame has been sent.
use hass_dobiss_sx_evolution.Prelude.{
  Bool-cases, Exn, Option, Option-cases, Result, Text, ap, arith, bus_error, inl, inr, none, ok,
  pos, raised, refl, runtime_error, some, sym, ℤ, ◌∙◌, ◌∷◌, ◌≡◌,
}
use hass_dobiss_sx_evolution.Controller.Commands.{
  Command, activate_mood, apply_local, dump, echo_value, light_on, mood, on_value, output_off,
  run_command, send_frame, send_state, shutter_close, shutter_open, shutter_stop,
}
use hass_dobiss_sx_evolution.Controller.State.{
  Bus, Controller, continue_with, dimmable, modify, sent,
}
use hass_dobiss_sx_evolution.Protocol.Frame.{
  CanFrame, build_mood_frame, build_state_frame, dump_request_frame,
}

abbrev pub after_send : CanFrame → Controller → Controller
after_send f c = record c { trace = sent f ∷ c.trace }

-- A send fails and changes nothing, or goes through on a bus that is there.
pub data Sends (f : CanFrame) (c : Controller) (r : Result (Unit {0}) × Controller) : Type 0 where
  failed : (e : Exn) → r ≡ (raised e, c) → Sends f c r
  went : (b : Bus) → c.bus ≡ some b → r ≡ (ok tt, after_send f c) → Sends f c r

pub send_frame-Sends : (f : CanFrame) (c : Controller) → Sends f c (send_frame f c)
unfolding send_frame
send_frame-Sends f c = elim (Option-cases c.bus) [
  | inl e ↦ failed runtime_error (ground arith)
  | inr (bus, e) ↦ elim (Bool-cases (bus.rejects c.trace f)) [
    | inl no_send ↦ failed bus_error (ground arith)
    | inr send ↦ went bus e (ground arith)
  ]
]

-- A state write fails and changes nothing, or sends the frame that `build_state_frame` gives.
pub data SendsState (m : Text) (output value : ℤ) (c : Controller)
    (r : Result (Unit {0}) × Controller) : Type 0 where
  failed : (e : Exn) → r ≡ (raised e, c) → SendsState m output value c r
  went :
      (f : CanFrame) (b : Bus)
      → build_state_frame m output value ≡ ok (some f)
      → c.bus ≡ some b
      → r ≡ (ok tt, after_send f c)
      → SendsState m output value c r

SendsState-of_Sends :
    (m : Text) (output value : ℤ) (f : CanFrame) (c : Controller)
    → build_state_frame m output value ≡ ok (some f)
    → {r : Result (Unit {0}) × Controller} → Sends f c r
    → SendsState m output value c r
SendsState-of_Sends m output value f c built (failed e p) = failed e p
SendsState-of_Sends m output value f c built (went b there p) = went f b built there p

pub send_state-SendsState :
    (m : Text) (output value : ℤ) (c : Controller)
    → SendsState m output value c (send_state m output value c)
unfolding send_state
send_state-SendsState m output value c = go (build_state_frame m output value) refl
  where
    go :
        (b : Result (Option CanFrame))
        → build_state_frame m output value ≡ b
        → SendsState m output value c (elim b [
          | raised e ↦ (raised e, c)
          | ok none ↦ (raised runtime_error, c)
          | ok (some frame) ↦ send_frame frame c
        ])
    go (raised e) built = failed e refl
    go (ok none) built = failed runtime_error refl
    go (ok (some f)) built = SendsState-of_Sends m output value f c built (send_frame-Sends f c)

-- The cache update of a command, once its frame is sent.
abbrev pub update : Command → Controller → Controller
update (light_on key brightness) c =
    apply_local key (echo_value (dimmable key c) (on_value (dimmable key c) brightness)) c
update (output_off key) c = apply_local key 0 c
update (shutter_open s) c =
    apply_local (s.module_letter, s.down_output) 0 (apply_local (s.module_letter, s.up_output) 1 c)
update (shutter_close s) c =
    apply_local (s.module_letter, s.up_output) 0 (apply_local (s.module_letter, s.down_output) 1 c)
update (shutter_stop s) c =
    apply_local (s.module_letter, s.down_output) 0 (apply_local (s.module_letter, s.up_output) 0 c)
update (mood n) c = c
update dump c = c

-- The frame that a command sends, if its arguments are valid.
abbrev pub frame_of : Command → Controller → Result (Option CanFrame)
frame_of (light_on key brightness) c =
    build_state_frame key.0 key.1 (pos (on_value (dimmable key c) brightness))
frame_of (output_off key) c = build_state_frame key.0 key.1 (pos 0)
frame_of (shutter_open s) c = build_state_frame s.module_letter s.up_output (pos 1)
frame_of (shutter_close s) c = build_state_frame s.module_letter s.down_output (pos 1)
frame_of (shutter_stop s) c = build_state_frame s.module_letter s.up_output (pos 0)
frame_of (mood n) c = ok (build_mood_frame n)
frame_of dump c = ok (some dump_request_frame)

-- A command fails and changes nothing, or sends its frame and then updates the cache.
pub data Ran (cmd : Command) (c : Controller) (r : Result (Unit {0}) × Controller) : Type 0 where
  failed : (e : Exn) → r ≡ (raised e, c) → Ran cmd c r
  went :
      (f : CanFrame) (b : Bus)
      → frame_of cmd c ≡ ok (some f)
      → c.bus ≡ some b
      → r ≡ (ok tt, update cmd (after_send f c))
      → Ran cmd c r

abbrev then_update :
    (Controller → Controller) → Result (Unit {0}) × Controller → Result (Unit {0}) × Controller
then_update g r = continue_with (λ (u : Unit {0}). modify g) r

Ran-of_SendsState :
    (cmd : Command) (g : Controller → Controller) (m : Text) (output value : ℤ) (c : Controller)
    → frame_of cmd c ≡ build_state_frame m output value
    → ((f : CanFrame) → g (after_send f c) ≡ update cmd (after_send f c))
    → {r : Result (Unit {0}) × Controller} → SendsState m output value c r
    → Ran cmd c (then_update g r)
Ran-of_SendsState cmd g m output value c same upd (failed e p) = failed e (ap (then_update g) p)
Ran-of_SendsState cmd g m output value c same upd (went f b built there p) =
    went f b (same ∙ built) there (ap (then_update g) p ∙ ap (λ c'. (ok tt, c')) (upd f))

Ran-of_Sends :
    (cmd : Command) (f : CanFrame) (c : Controller)
    → frame_of cmd c ≡ ok (some f)
    → ((c' : Controller) → update cmd c' ≡ c')
    → {r : Result (Unit {0}) × Controller} → Sends f c r
    → Ran cmd c r
Ran-of_Sends cmd f c same still (failed e p) = failed e p
Ran-of_Sends cmd f c same still (went b there p) =
    went f b same there (p ∙ ap (λ c'. (ok tt, c')) (sym (still (after_send f c))))

pub run_command-Ran : (cmd : Command) (c : Controller) → Ran cmd c (run_command cmd c)
unfolding run_command
run_command-Ran (light_on key brightness) c =
    let value = on_value (dimmable key c) brightness in
    Ran-of_SendsState (light_on key brightness)
      (λ c'. apply_local key (echo_value (dimmable key c') value) c') key.0 key.1 (pos value) c refl
      (λ f. refl) (send_state-SendsState key.0 key.1 (pos value) c)
run_command-Ran (output_off key) c =
    Ran-of_SendsState (output_off key) (update (output_off key)) key.0 key.1 (pos 0) c refl
      (λ f. refl) (send_state-SendsState key.0 key.1 (pos 0) c)
run_command-Ran (shutter_open s) c =
    Ran-of_SendsState (shutter_open s) (update (shutter_open s)) s.module_letter s.up_output (pos 1)
      c refl (λ f. refl) (send_state-SendsState s.module_letter s.up_output (pos 1) c)
run_command-Ran (shutter_close s) c =
    Ran-of_SendsState (shutter_close s) (update (shutter_close s)) s.module_letter s.down_output
      (pos 1) c refl (λ f. refl) (send_state-SendsState s.module_letter s.down_output (pos 1) c)
run_command-Ran (shutter_stop s) c =
    Ran-of_SendsState (shutter_stop s) (update (shutter_stop s)) s.module_letter s.up_output (pos 0)
      c refl (λ f. refl) (send_state-SendsState s.module_letter s.up_output (pos 0) c)
run_command-Ran (mood n) c = elim (Option-cases (build_mood_frame n)) [
  | inl e ↦ failed runtime_error (ground arith)
  | inr (f, e) ↦
      rw (e, activate_mood)
        (Ran-of_Sends (mood n) f c (ap ok e) (λ c'. refl) (send_frame-Sends f c))
]
run_command-Ran dump c =
    Ran-of_Sends dump dump_request_frame c refl (λ c'. refl) (send_frame-Sends dump_request_frame c)

-- A command that returns has sent a frame, and then updated the cache.
pub run_command_ok :
    (cmd : Command) (c : Controller)
    → (run_command cmd c).0 ≡ ok tt
    → (f : CanFrame) × (frame_of cmd c ≡ ok (some f))
      × (run_command cmd c ≡ (ok tt, update cmd (after_send f c)))
run_command_ok cmd c h = go (run_command-Ran cmd c) h
  where
    go :
        {r : Result (Unit {0}) × Controller}
        → Ran cmd c r
        → r.0 ≡ ok tt
        → (f : CanFrame) × (frame_of cmd c ≡ ok (some f))
          × (r ≡ (ok tt, update cmd (after_send f c)))
    go (failed e p) q = absurd (cc)
    go (went f b built there p) q = (f, built, p)
