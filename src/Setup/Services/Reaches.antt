-- ===== src/Setup/Services/Reaches.antt =====
-- __init__.py: a loaded entry has its services.
use hass_dobiss_sx_evolution.Prelude.{
  ==_iff, Bool, Bool-cases, List, Result, Text, [], add, arith, bool_eq, contains, contains-add,
  false, inl, inr, int_eq, keep, nat_eq, not, ok, option_eq, pair_eq, raised, refl, sym, text_eq,
  true, ◌&&◌, ◌==◌, ◌∙◌, ◌∷◌, ◌≡◌,
}
use hass_dobiss_sx_evolution.Setup.Services.{
  Domain, other_entries, register_services, setup_entry, unload_entry,
}

-- What Home Assistant and the user do to the entries of the domain: one is added, one is set up or
-- fails to, one unloads or does not, and one that is not loaded is removed.
pub data DomainStep : Domain → Domain → Type 0 where
  entry_added :
      {d : Domain} (id : Text) → DomainStep d (record d { entry_ids = add id d.entry_ids })
  entry_set_up :
      {d : Domain} (r : Result (Unit {0})) (id : Text)
      → contains id d.entry_ids ≡ true
      → DomainStep d (setup_entry r id d).1
  entry_unloaded :
      {d : Domain} (platforms_unload : Bool) (id : Text)
      → DomainStep d (unload_entry platforms_unload id d).1
  entry_removed :
      {d : Domain} (id : Text)
      → contains id d.loaded_ids ≡ false
      → DomainStep d (record d { entry_ids = keep (λ other. not (other == id)) d.entry_ids })

pub data Reaches (start : Domain) : Domain → Type 0 where
  start_domain : Reaches start start
  step_domain : {d d' : Domain} → Reaches start d → DomainStep d d' → Reaches start d'

abbrev pub no_entries : Domain
no_entries = record {
  entry_ids = [];
  loaded_ids = [];
  refresh_service = false;
  sync_clock_service = false;
}

-- The entry is one of the domain, and both services are registered.
abbrev pub IsServed : Domain → Text → Type 0
IsServed d id =
    (contains id d.entry_ids ≡ true) × (d.refresh_service ≡ true) × (d.sync_clock_service ≡ true)

abbrev pub AllServed : Domain → Type 0
AllServed d = (id : Text) → contains id d.loaded_ids ≡ true → IsServed d id

contains-keep_other :
    (x id : Text) (ids : List Text)
    → contains x (keep (λ other. not (other == id)) ids) ≡ (contains x ids && not (x == id))
contains-keep_other x id [] = refl
contains-keep_other x id (i ∷ ids) =
    ground (arith, contains-keep_other x id ids, ==_iff x i, ==_iff i id, ==_iff x id)

other_entries-contains :
    (x id : Text) (ids : List Text)
    → contains x ids ≡ true
    → (x == id) ≡ false
    → other_entries id ids ≡ true
other_entries-contains x id [] h ne = cc
other_entries-contains x id (i ∷ ids) h ne =
    ground (arith, other_entries-contains x id ids, ==_iff x i, ==_iff i id, ==_iff x id)

setup_entry-AllServed :
    (r : Result (Unit {0})) (id : Text) (d : Domain)
    → contains id d.entry_ids ≡ true
    → AllServed d
    → AllServed (setup_entry r id d).1
unfolding setup_entry register_services
setup_entry-AllServed (ok u) id d h served x loaded = (
  elim (Bool-cases (x == id)) [
    | inl e ↦ rw ((==_iff x id).0 e) h
    | inr e ↦ (served x (rw (contains-add x id d.loaded_ids, e) at loaded)).0
  ],
  refl,
  refl,
)
setup_entry-AllServed (raised e) id d h served x loaded = served x loaded

unload_entry-AllServed :
    (platforms_unload : Bool) (id : Text) (d : Domain)
    → AllServed d
    → AllServed (unload_entry platforms_unload id d).1
unfolding unload_entry
unload_entry-AllServed false id d served x loaded = served x loaded
unload_entry-AllServed true id d served x loaded =
    let kept : (contains x d.loaded_ids && not (x == id)) ≡ true =
      sym (contains-keep_other x id d.loaded_ids) ∙ loaded in
    let s : IsServed d x = served x (ground arith) in
    let others : other_entries id d.entry_ids ≡ true =
      other_entries-contains x id d.entry_ids s.0 (ground arith) in
    (s.0, rw others s.1, rw others s.2)

kept :
    (x id : Text) (ids loaded_ids : List Text)
    → contains x ids ≡ true
    → contains x loaded_ids ≡ true
    → contains id loaded_ids ≡ false
    → (contains x ids && not (x == id)) ≡ true
kept x id ids loaded_ids h loaded free = elim (Bool-cases (x == id)) [
  | inl e ↦ absurd (clash (rw ((==_iff x id).0 e) at loaded))
  | inr e ↦ rw (h, e) refl
]
  where
    clash : contains id loaded_ids ≡ true → ⊥
    clash l = cc

DomainStep-AllServed : {d d' : Domain} → DomainStep d d' → AllServed d → AllServed d'
DomainStep-AllServed (entry_added {d} id) served x loaded = (
  rw (contains-add x id d.entry_ids, (served x loaded).0) (ground arith),
  (served x loaded).1,
  (served x loaded).2,
)
DomainStep-AllServed (entry_set_up {d} r id h) served x loaded =
    setup_entry-AllServed r id d h served x loaded
DomainStep-AllServed (entry_unloaded {d} platforms_unload id) served x loaded =
    unload_entry-AllServed platforms_unload id d served x loaded
DomainStep-AllServed (entry_removed {d} id free) served x loaded = (
  contains-keep_other x id d.entry_ids
      ∙ kept x id d.entry_ids d.loaded_ids (served x loaded).0 loaded free,
  (served x loaded).1,
  (served x loaded).2,
)

-- However entries are added, set up, unloaded and removed, in any order and with every setup that
-- fails and every unloading that is refused: while an entry is loaded it is an entry of the domain
-- and both services are registered.
pub Reaches-AllServed : {d : Domain} → Reaches no_entries d → AllServed d
Reaches-AllServed start_domain x loaded = cc
Reaches-AllServed (step_domain r s) x loaded = DomainStep-AllServed s (Reaches-AllServed r) x loaded
