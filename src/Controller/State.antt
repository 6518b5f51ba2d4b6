-- ===== src/Controller/State.antt =====
-- controller.py: the state of `DobissController` and the methods' monad. Tasks interleave only at an
-- `await`; a method is one step of the model, and what other tasks do between two steps is a sequence
-- of such steps.
use hass_dobiss_sx_evolution.Prelude.{
  Bool, Dict, Exn, List, Option, Result, Text, [], contains, false, if◌then◌else◌, int_eq, ltb,
  nat_eq, nat_eqb, none, ok, pair_eq, raised, some, text_eq, true, value_error, ℕ, ℤ, ◌&&◌, ◌++◌,
  ◌==◌, ◌||◌, ◌∷◌,
}
use hass_dobiss_sx_evolution.Controller.Connection.{ConnectionConfig}
use hass_dobiss_sx_evolution.Protocol.Frame.{CanFrame}

abbrev pub OutputKey : Type 0
OutputKey = Text × ℤ

pub record ShutterConfig : Type 0 where
  pub module_letter : Text
  pub up_output : ℤ
  pub down_output : ℤ

-- A call that leaves the controller: it is kept in `trace`, the latest first.
pub data Effect : Type 0 where
  sent : CanFrame → Effect
  -- a listener, by its number, with the key and the value
  notified : ℕ → OutputKey → ℕ → Effect
  bus_opened bus_closed notifier_started notifier_stopped : Effect
  -- nobody waits any more for a job that makes a bus, and such a job has made one
  job_abandoned bus_orphaned : Effect
  issue_created issue_deleted reauth_started : Effect

-- A python-can bus: whether `send` raises, after what has happened so far.
pub record Bus : Type 0 where
  pub rejects : List Effect → CanFrame → Bool

pub record Message : Type 0 where
  pub arbitration_id : ℕ
  pub bytes : List ℕ

pub record Controller : Type 0 where
  pub connection : ConnectionConfig
  pub lights : List OutputKey
  pub dimmers : List OutputKey
  pub shutters : List ShutterConfig
  pub switches : List OutputKey
  pub modules : List Text
  pub states : Dict OutputKey ℕ
  pub reconnect_count : ℕ
  pub bus : Option Bus
  -- the running jobs that make a bus for nobody
  pub opening : ℕ
  -- whether `_reader_task`, `_reader` and `_notifier` are there
  pub reader_task : Bool
  pub reader : Bool
  pub notifier : Bool
  pub listeners : List ℕ
  pub repair_issue_active : Bool
  -- the event of a refresh that waits, and whether it is set
  pub frame_arrival : Option Bool
  -- whether Home Assistant still has the config entry
  pub entry_exists : Bool
  pub trace : List Effect

abbrev pub Action : Type 0 → Type 0
Action A = Controller → Result A × Controller

module _ {A : Type 0} where
  abbrev pub pure : A → Action A
  pure a c = (ok a, c)

  abbrev pub raise : Exn → Action A
  raise e c = (raised e, c)

module _ {A B : Type 0} where
  abbrev pub continue_with : (A → Action B) → Result A × Controller → Result B × Controller
  continue_with f (ok a, c) = f a c
  continue_with f (raised e, c) = (raised e, c)

  abbrev pub bind : Action A → (A → Action B) → Action B
  bind m f c = continue_with f (m c)

abbrev pub then_do : {A : Type 0} → Action (Unit {0}) → Action A → Action A
then_do m k = bind m (λ _. k)

-- A method that cannot raise.
abbrev pub modify : (Controller → Controller) → Action (Unit {0})
modify f c = (ok tt, f c)

-- t in `sorted` order, once.
abbrev pub text_ltb : Text → Text → Bool
text_ltb [] [] = false
text_ltb [] (b ∷ t) = true
text_ltb (a ∷ s) [] = false
text_ltb (a ∷ s) (b ∷ t) = ltb a b || (nat_eqb a b && text_ltb s t)

abbrev pub insert_sorted : Text → List Text → List Text
insert_sorted m [] = m ∷ []
insert_sorted m (x ∷ xs) =
    if m == x then x ∷ xs else if text_ltb m x then m ∷ x ∷ xs else x ∷ insert_sorted m xs

abbrev pub insert_all : List OutputKey → List Text → List Text
insert_all [] ms = ms
insert_all ((m, _) ∷ keys) ms = insert_sorted m (insert_all keys ms)

abbrev pub insert_shutters : List ShutterConfig → List Text → List Text
insert_shutters [] ms = ms
insert_shutters (s ∷ shutters) ms = insert_sorted s.module_letter (insert_shutters shutters ms)

-- sorted({m for m, _ in (*lights, *dimmers, *switches)} | {s.module for s in shutters})
unfoldable pub module_letters :
    List OutputKey → List OutputKey → List ShutterConfig → List OutputKey → List Text
module_letters lights dimmers shutters switches =
    insert_all lights (insert_all dimmers (insert_all switches (insert_shutters shutters [])))

-- `DobissController.__init__`
unfoldable pub new_controller :
    ConnectionConfig
    → List OutputKey
    → List OutputKey
    → List ShutterConfig
    → List OutputKey
    → Controller
unfolding module_letters
new_controller connection lights dimmers shutters switches = record {
  connection = connection;
  lights = lights;
  dimmers = dimmers;
  shutters = shutters;
  switches = switches;
  modules = module_letters lights dimmers shutters switches;
  states = [];
  reconnect_count = 0;
  bus = none;
  opening = 0;
  reader_task = false;
  reader = false;
  notifier = false;
  listeners = [];
  repair_issue_active = false;
  frame_arrival = none;
  entry_exists = true;
  trace = [];
}

-- `is_bus_connected`
abbrev pub is_bus_connected : Controller → Bool
is_bus_connected c = elim c.bus [ none ↦ false | some _ ↦ true ]

abbrev pub dimmable : OutputKey → Controller → Bool
dimmable key c = contains key c.dimmers

-- `async_add_listener`, and the remover that it returns
unfoldable pub add_listener : ℕ → Controller → Controller
add_listener listener c = record c { listeners = c.listeners ++ listener ∷ [] }

abbrev pub list_remove : ℕ → List ℕ → Result (List ℕ)
list_remove a [] = raised value_error
list_remove a (x ∷ xs) =
    let rest = list_remove a xs in
    if nat_eqb a x then ok xs else elim rest [ ok ys ↦ ok (x ∷ ys) | raised e ↦ raised e ]

unfoldable pub remove_listener : ℕ → Action (Unit {0})
remove_listener listener c = elim (list_remove listener c.listeners) [
  | ok rest ↦ (ok tt, record c { listeners = rest })
  | raised e ↦ (raised e, c)
]
