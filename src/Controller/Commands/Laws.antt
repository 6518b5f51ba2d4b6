-- ===== src/Controller/Commands/Laws.antt =====
-- controller.py: a command that fails changes nothing, and one that succeeds writes one frame.
-- The keys whose cached state a command may change.
use hass_dobiss_sx_evolution.Prelude.{
  Bool, Dict, Exn, List, Option, Result, [], ap, contains, contains_none, false, get, get-put_ne,
  int_eq, nat_eq, none, ok, pair_eq, pos, put, raised, refl, some, sym, text_eq, true, ℕ, ℤ, ◌∙◌,
  ◌∷◌, ◌≡◌,
}
use hass_dobiss_sx_evolution.Controller.Commands.{
  Command, apply_local, dump, light_on, mood, notify_all, on_value, output_off, run_command,
  shutter_close, shutter_open, shutter_stop,
}
use hass_dobiss_sx_evolution.Controller.Commands.Ran.{
  Ran, after_send, failed, frame_of, run_command-Ran, run_command_ok, update, went,
}
use hass_dobiss_sx_evolution.Controller.State.{Controller, Effect, OutputKey, notified, sent}
use hass_dobiss_sx_evolution.Entities.Light.{brightness}
use hass_dobiss_sx_evolution.Protocol.Brightness.{ha_to_can_brightness}
use hass_dobiss_sx_evolution.Protocol.Frame.{
  CanFrame, build_mood_frame, build_state_frame, dump_request_frame,
}

abbrev pub addresses : Command → List OutputKey
addresses (light_on key b) = key ∷ []
addresses (output_off key) = key ∷ []
addresses (shutter_open s) = (s.module_letter, s.up_output) ∷ (s.module_letter, s.down_output) ∷ []
addresses (shutter_close s) = (s.module_letter, s.up_output) ∷ (s.module_letter, s.down_output) ∷ []
addresses (shutter_stop s) = (s.module_letter, s.up_output) ∷ (s.module_letter, s.down_output) ∷ []
addresses (mood n) = []
addresses dump = []

-- The frames sent, the latest first.
abbrev pub frames : List Effect → List CanFrame
frames [] = []
frames (sent f ∷ trace) = f ∷ frames trace
frames (_ ∷ trace) = frames trace

pub frames-notify_all :
    (ls : List ℕ) (key : OutputKey) (value : ℕ) (trace : List Effect)
    → frames (notify_all ls key value trace) ≡ frames trace
frames-notify_all [] key value trace = refl
frames-notify_all (l ∷ ls) key value trace =
    frames-notify_all ls key value (notified l key value ∷ trace)

update-bus : (cmd : Command) (c : Controller) → (update cmd c).bus ≡ c.bus
unfolding apply_local
update-bus (light_on key b) c = refl
update-bus (output_off key) c = refl
update-bus (shutter_open s) c = refl
update-bus (shutter_close s) c = refl
update-bus (shutter_stop s) c = refl
update-bus (mood n) c = refl
update-bus dump c = refl

frames-update : (cmd : Command) (c : Controller) → frames (update cmd c).trace ≡ frames c.trace
unfolding apply_local
frames-update (light_on key b) c = simp frames-notify_all
frames-update (output_off key) c = simp frames-notify_all
frames-update (shutter_open s) c = simp frames-notify_all
frames-update (shutter_close s) c = simp frames-notify_all
frames-update (shutter_stop s) c = simp frames-notify_all
frames-update (mood n) c = refl
frames-update dump c = refl

get-put_two :
    (k a b : OutputKey) (v w : ℕ) (d : Dict OutputKey ℕ)
    → contains k (a ∷ b ∷ []) ≡ false
    → get k (put b w (put a v d)) ≡ get k d
get-put_two k a b v w d h =
    let (na, rest) = contains_none k a (b ∷ []) h in
    let (nb, _) = contains_none k b [] rest in
    get-put_ne k b w (put a v d) nb ∙ get-put_ne k a v d na

get-update :
    (cmd : Command) (c : Controller) (k : OutputKey)
    → contains k (addresses cmd) ≡ false
    → get k (update cmd c).states ≡ get k c.states
unfolding apply_local
get-update (light_on key b) c k h = get-put_ne k key _ c.states (contains_none k key [] h).0
get-update (output_off key) c k h = get-put_ne k key _ c.states (contains_none k key [] h).0
get-update (shutter_open s) c k h = get-put_two k _ _ 1 0 c.states h
get-update (shutter_close s) c k h =
    let u : OutputKey = (s.module_letter, s.up_output) in
    let d : OutputKey = (s.module_letter, s.down_output) in
    let (nu, rest) = contains_none k u (d ∷ []) h in
    let (nd, _) = contains_none k d [] rest in
    get-put_ne k u 0 (put d 1 c.states) nu ∙ get-put_ne k d 1 c.states nd
get-update (shutter_stop s) c k h = get-put_two k _ _ 0 0 c.states h
get-update (mood n) c k h = refl
get-update dump c k h = refl

pub run_command-atomic :
    (cmd : Command) (c : Controller) (e : Exn)
    → (run_command cmd c).0 ≡ raised e
    → (run_command cmd c).1 ≡ c
run_command-atomic cmd c e h = go (run_command-Ran cmd c) h
  where
    go : {r : Result (Unit {0}) × Controller} → Ran cmd c r → r.0 ≡ raised e → r.1 ≡ c
    go (failed e' p) q = ap (λ (r : Result (Unit {0}) × Controller). r.1) p
    go (went f b built there p) q = cc

-- Without a bus every command raises.
pub run_command_disconnected :
    (cmd : Command) (c : Controller) → c.bus ≡ none → (e : Exn) × ((run_command cmd c).0 ≡ raised e)
run_command_disconnected cmd c h = go (run_command-Ran cmd c)
  where
    go : {r : Result (Unit {0}) × Controller} → Ran cmd c r → (e : Exn) × (r.0 ≡ raised e)
    go (failed e p) = (e, ap (λ (r : Result (Unit {0}) × Controller). r.0) p)
    go (went f b built there p) = absurd (cc)

-- What an ON write asks of an output: 1 of a plain one; of a dimmer, the CAN value of the brightness
-- that is given, and 144 without one.
abbrev pub wanted_value : Bool → Option ℤ → ℕ
wanted_value false brightness = 1
wanted_value true (some b) = ha_to_can_brightness b
wanted_value true none = 144

-- The frame that the arguments of a command stand for, if they are valid.
abbrev pub wanted_frame : Command → List OutputKey → Result (Option CanFrame)
wanted_frame (light_on (m, output) brightness) dimmers =
    build_state_frame m output (pos (wanted_value (contains (m, output) dimmers) brightness))
wanted_frame (output_off (m, output)) dimmers = build_state_frame m output (pos 0)
wanted_frame (shutter_open s) dimmers = build_state_frame s.module_letter s.up_output (pos 1)
wanted_frame (shutter_close s) dimmers = build_state_frame s.module_letter s.down_output (pos 1)
wanted_frame (shutter_stop s) dimmers = build_state_frame s.module_letter s.up_output (pos 0)
wanted_frame (mood number) dimmers = ok (build_mood_frame number)
wanted_frame dump dimmers = ok (some dump_request_frame)

on_value-wanted :
    (dim : Bool) (brightness : Option ℤ) → on_value dim brightness ≡ wanted_value dim brightness
on_value-wanted false brightness = refl
on_value-wanted true none = refl
on_value-wanted true (some b) = refl

frame_of-wanted : (cmd : Command) (c : Controller) → frame_of cmd c ≡ wanted_frame cmd c.dimmers
frame_of-wanted (light_on key brightness) c =
    λ i. build_state_frame key.0 key.1 (pos (on_value-wanted (contains key c.dimmers) brightness i))
frame_of-wanted (output_off key) c = refl
frame_of-wanted (shutter_open s) c = refl
frame_of-wanted (shutter_close s) c = refl
frame_of-wanted (shutter_stop s) c = refl
frame_of-wanted (mood number) c = refl
frame_of-wanted dump c = refl

-- A command that returns has sent exactly one frame. It is the one that the arguments stand for: a
-- write of 1 to turn a plain output on, of the given brightness or of 144 for a dimmer, of 0 to turn
-- an output off, of 1 to the up output to open a shutter and to the down output to close it, of 0 to
-- the up output to stop it, or the mood's or the dump request's frame. The command keeps the bus, and
-- leaves the cached state of an output k that it does not address.
pub run_command-sends_one :
    (cmd : Command) (c : Controller) (k : OutputKey)
    → (run_command cmd c).0 ≡ ok tt
    → contains k (addresses cmd) ≡ false
    → (f : CanFrame) × (wanted_frame cmd c.dimmers ≡ ok (some f))
      × (frames (run_command cmd c).1.trace ≡ f ∷ frames c.trace)
      × ((run_command cmd c).1.bus ≡ c.bus)
      × (get k (run_command cmd c).1.states ≡ get k c.states)
run_command-sends_one cmd c k h away =
    let (f, built, p) = run_command_ok cmd c h in
    (
      f,
      sym (frame_of-wanted cmd c) ∙ built,
      ap (λ (r : Result (Unit {0}) × Controller). frames r.1.trace) p
          ∙ frames-update cmd (after_send f c),
      ap (λ (r : Result (Unit {0}) × Controller). r.1.bus) p ∙ update-bus cmd (after_send f c),
      ap (λ (r : Result (Unit {0}) × Controller). get k r.1.states) p
          ∙ get-update cmd (after_send f c) k away,
    )
