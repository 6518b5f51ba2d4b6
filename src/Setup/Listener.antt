-- ===== src/Setup/Listener.antt =====
-- __init__.py: what a platform reload relies on.
use hass_dobiss_sx_evolution.Prelude.{
  ==_iff, Bool, List, Option, Text, [], arith, bool_eq, contains, false, int_eq, nat_eq, none,
  option_eq, pair_eq, refl, some, text_eq, true, ◌==◌, ◌||◌, ◌∷◌, ◌≡◌,
}
use hass_dobiss_sx_evolution.ConfigFlow.Flow.{Subentry}
use hass_dobiss_sx_evolution.Controller.Connection.{ConfigData}
use hass_dobiss_sx_evolution.Controller.State.{
  Controller, OutputKey, ShutterConfig, insert_all, insert_shutters, insert_sorted, module_letters,
}
use hass_dobiss_sx_evolution.Coordinator.OutputLists.{OutputLists, parse_output_lists}
use hass_dobiss_sx_evolution.Setup.{
  RegistryEntry, Snapshot, module_config, platforms, reload_listener, same_connection, same_set,
  subset, use_lists,
}

subset-contains :
    (x : Text × Bool) (xs ys : List (Text × Bool))
    → subset xs ys ≡ true
    → contains x xs ≡ true
    → contains x ys ≡ true
subset-contains x [] ys s h = ground arith
subset-contains x (y ∷ xs) ys s h = ground (arith, ==_iff x y, at, subset-contains x xs ys)
  where
    at : x ≡ y → contains x ys ≡ contains y ys
    at p = λ i. contains (p i) ys

-- Equal sets have the same members.
pub same_set-contains :
    (x : Text × Bool) (xs ys : List (Text × Bool))
    → same_set xs ys ≡ true
    → contains x xs ≡ contains x ys
same_set-contains x xs ys h = ground (arith, subset-contains x xs ys, subset-contains x ys xs)

same_connection_at : (a b : ConfigData) → same_connection a b ≡ true → a ≡ b
unfolding same_connection
same_connection_at a b h = λ i. record {
  connection_type = (==_iff a.connection_type b.connection_type).0 (ground arith) i;
  host = (==_iff a.host b.host).0 (ground arith) i;
  port = (==_iff a.port b.port).0 (ground arith) i;
  interface = (==_iff a.interface b.interface).0 (ground arith) i;
  device = (==_iff a.device b.device).0 (ground arith) i;
  master_device = (==_iff a.master_device b.master_device).0 (ground arith) i;
  max200_host = (==_iff a.max200_host b.max200_host).0 (ground arith) i;
}

-- The controller has these outputs.
abbrev pub HasLists : OutputLists → Controller → Type 0
HasLists lists c =
    (c.lights ≡ lists.light_list)
    × (c.dimmers ≡ lists.dimmer_list)
    × (c.shutters ≡ lists.shutter_list)
    × (c.switches ≡ lists.switch_list)

-- The controller has gone on with the bus, the cache and the listeners of another, and did nothing.
abbrev pub KeepsBus : Controller → Controller → Type 0
KeepsBus c c' =
    (c'.bus ≡ c.bus)
    × (c'.notifier ≡ c.notifier)
    × (c'.states ≡ c.states)
    × (c'.listeners ≡ c.listeners)
    × (c'.trace ≡ c.trace)

abbrev pub has_key_of : Text → List OutputKey → Bool
has_key_of m [] = false
has_key_of m ((letter, output) ∷ keys) = m == letter || has_key_of m keys

abbrev pub has_shutter_of : Text → List ShutterConfig → Bool
has_shutter_of m [] = false
has_shutter_of m (s ∷ shutters) = m == s.module_letter || has_shutter_of m shutters

-- Some output of the lists has the letter.
abbrev pub has_output : Text → OutputLists → Bool
has_output m lists =
    has_key_of m lists.light_list
    || (has_key_of m lists.dimmer_list
        || (has_key_of m lists.switch_list || has_shutter_of m lists.shutter_list))

contains-insert_sorted :
    (m x : Text) (xs : List Text) → contains m (insert_sorted x xs) ≡ (m == x || contains m xs)
contains-insert_sorted m x [] = refl
contains-insert_sorted m x (y ∷ xs) = ground (arith, contains-insert_sorted m x xs, ==_iff x y, at)
  where
    at : x ≡ y → (m == x) ≡ (m == y)
    at p = λ i. m == p i

contains-insert_all :
    (m : Text) (keys : List OutputKey) (ms : List Text)
    → contains m (insert_all keys ms) ≡ (has_key_of m keys || contains m ms)
contains-insert_all m [] ms = refl
contains-insert_all m ((letter, output) ∷ keys) ms =
    ground
      (arith, contains-insert_sorted m letter (insert_all keys ms), contains-insert_all m keys ms)

contains-insert_shutters :
    (m : Text) (shutters : List ShutterConfig) (ms : List Text)
    → contains m (insert_shutters shutters ms) ≡ (has_shutter_of m shutters || contains m ms)
contains-insert_shutters m [] ms = refl
contains-insert_shutters m (s ∷ shutters) ms = ground (
  arith,
  contains-insert_sorted m s.module_letter (insert_shutters shutters ms),
  contains-insert_shutters m shutters ms,
)

contains-module_letters :
    (m : Text) (lists : OutputLists)
    → contains m
        (module_letters lists.light_list lists.dimmer_list lists.shutter_list lists.switch_list)
      ≡ has_output m lists
unfolding module_letters
contains-module_letters m lists =
    let shutter_letters = insert_shutters lists.shutter_list [] in
    let switch_letters = insert_all lists.switch_list shutter_letters in
    ground (
      arith,
      contains-insert_all m lists.light_list (insert_all lists.dimmer_list switch_letters),
      contains-insert_all m lists.dimmer_list switch_letters,
      contains-insert_all m lists.switch_list shutter_letters,
      contains-insert_shutters m lists.shutter_list [],
    )

-- The platforms alone are reloaded only when a controller runs and the entry's connection, and the
-- pairs x of a letter and a dimmable flag of its modules, are as at the last update. The lights,
-- dimmers, shutters and switches of the controller are then those of the updated entry, its modules
-- are the letters m that some of these outputs has, and its bus, notifier, cache, listeners and trace
-- are as they were.
pub reload_listener-platforms :
    (running : Option Controller) (prev : Snapshot) (new_conn : ConfigData)
    (subentries : List Subentry) (registry : List RegistryEntry) (x : Text × Bool) (m : Text)
    → (reload_listener running prev new_conn subentries registry).reload ≡ platforms
    → (c : Controller) × (running ≡ some c)
      × (new_conn ≡ prev.prev_conn)
      × (contains x (module_config subentries) ≡ contains x prev.prev_modules)
      × (c' : Controller) × ((reload_listener running prev new_conn subentries
            registry).controller_after
          ≡ some c')
      × HasLists (parse_output_lists subentries) c'
      × (contains m c'.modules ≡ has_output m (parse_output_lists subentries))
      × KeepsBus c c'
unfolding reload_listener
reload_listener-platforms none prev new_conn subentries registry x m h = absurd (ground arith)
reload_listener-platforms (some c) prev new_conn subentries registry x m h = (
  c,
  refl,
  same_connection_at new_conn prev.prev_conn (unchanged h).0,
  same_set-contains x (module_config subentries) prev.prev_modules (unchanged h).1,
  use_lists (parse_output_lists subentries) c,
  rw ((unchanged h).0, (unchanged h).1) refl,
  (refl, refl, refl, refl),
  contains-module_letters m (parse_output_lists subentries),
  (refl, refl, refl, refl, refl),
)
  where
    unchanged :
        (reload_listener (some c) prev new_conn subentries registry).reload ≡ platforms
        → (same_connection new_conn prev.prev_conn ≡ true)
          × (same_set (module_config subentries) prev.prev_modules ≡ true)
    unchanged h = (ground arith, ground arith)
