-- ===== src/ConfigFlow/Imports/Names.antt =====
-- config_flow.py: the names that an import fetches, and the outputs that it makes of them.
use hass_dobiss_sx_evolution.Prelude.{
  ==_iff, All, Bool-cases, Dict, List, Result, Text, [], arith, cancelled_error, contains, false,
  get_or, inl, inr, int_eq, nat_eq, ok, pair_eq, pop, pos, put, raised, refl, text_eq, ℕ, ℤ, ◌+◌,
  ◌<◌, ◌==◌, ◌∷◌, ◌≡◌,
}
use hass_dobiss_sx_evolution.ConfigFlow.Imports.{fetch_names, imported_outputs, names_or_empty}
use hass_dobiss_sx_evolution.ConfigFlow.Outputs.{Outputs, light, occupied_outputs, shutter, switch}
use hass_dobiss_sx_evolution.ConfigFlow.Outputs.Claims.{IsValid}
use hass_dobiss_sx_evolution.ConfigFlow.Outputs.Valid.{put-IsValid}

abbrev pub IsBelow : ℕ → ℕ × Text → Type 0
IsBelow n (i, name) = i < n

-- What a download gives has the indices below n.
abbrev pub NamesBelow : ℕ → Result (Dict ℕ Text) → Type 0
NamesBelow n (ok names) = All (IsBelow n) names
NamesBelow n (raised e) = Unit

-- Outputs that are all lights.
abbrev pub IsLights : Outputs → Type 0
IsLights [] = Unit
IsLights ((key, light name) ∷ outputs) = IsLights outputs
IsLights ((key, shutter down_output name) ∷ outputs) = ⊥
IsLights ((key, switch name) ∷ outputs) = ⊥

put-IsLights :
    (key : ℤ) (name : Text) (outputs : Outputs)
    → IsLights outputs
    → IsLights (put key (light name) outputs)
put-IsLights key name [] h = tt
put-IsLights key name ((k, light s) ∷ outputs) h = elim (Bool-cases (key == k)) [
  | inl e ↦ rw e h
  | inr e ↦ rw e (put-IsLights key name outputs h)
]
put-IsLights key name ((k, shutter down_output s) ∷ outputs) h = elim h [ ]
put-IsLights key name ((k, switch s) ∷ outputs) h = elim h [ ]

pop-free :
    (key : ℤ) (outputs : Outputs)
    → IsLights outputs
    → IsValid outputs
    → contains key (occupied_outputs (pop key outputs)) ≡ false
unfolding occupied_outputs
pop-free key [] h v = refl
pop-free key ((k, light s) ∷ outputs) h v = elim (Bool-cases (key == k)) [
  | inl e ↦ rw e (rw ((==_iff key k).0 e) v.2.0)
  | inr e ↦ rw e (rw e (pop-free key outputs h v.3))
]
pop-free key ((k, shutter down_output s) ∷ outputs) h v = elim h [ ]
pop-free key ((k, switch s) ∷ outputs) h v = elim h [ ]

imported-IsValid :
    (names : Dict ℕ Text) (outputs : Outputs)
    → All (IsBelow 12) names
    → IsLights outputs
    → IsValid outputs
    → IsValid (imported_outputs names outputs)
unfolding imported_outputs
imported-IsValid [] outputs below h v = v
imported-IsValid ((i, name) ∷ names) outputs below h v =
    imported-IsValid names (put (pos (i + 1)) (light name) outputs) below.1
      (put-IsLights (pos (i + 1)) name outputs h)
      (put-IsValid (pos (i + 1)) (light name) outputs v ((omega arith, omega arith), tt) (refl, tt)
        (pop-free (pos (i + 1)) outputs h v, tt))

-- What is made of the names of twelve outputs is a module's valid outputs.
pub imported_outputs-IsValid :
    (names : Dict ℕ Text) → All (IsBelow 12) names → IsValid (imported_outputs names [])
imported_outputs-IsValid names below = imported-IsValid names [] below tt tt

-- The fetched names of every module.
abbrev pub AllBelow : Dict Text (Dict ℕ Text) → Type 0
AllBelow [] = Unit
AllBelow ((letter, names) ∷ all_names) = All (IsBelow 12) names × AllBelow all_names

put-AllBelow :
    (letter : Text) (names : Dict ℕ Text) (all_names : Dict Text (Dict ℕ Text))
    → All (IsBelow 12) names
    → AllBelow all_names
    → AllBelow (put letter names all_names)
put-AllBelow letter names [] below h = (below, tt)
put-AllBelow letter names ((l, ns) ∷ all_names) below h = elim (Bool-cases (letter == l)) [
  | inl e ↦ rw e (below, h.1)
  | inr e ↦ rw e (h.0, put-AllBelow letter names all_names below h.1)
]

pub get_or-IsBelow :
    (letter : Text) (all_names : Dict Text (Dict ℕ Text))
    → AllBelow all_names
    → All (IsBelow 12) (get_or all_names letter [])
get_or-IsBelow letter [] h = tt
get_or-IsBelow letter ((l, ns) ∷ all_names) h = elim (Bool-cases (letter == l)) [
  | inl e ↦ rw (e, All) h.0
  | inr e ↦ rw (e, All) (get_or-IsBelow letter all_names h.1)
]

abbrev pub FetchedBelow : Result (Dict Text (Dict ℕ Text)) → Type 0
FetchedBelow (ok all_names) = AllBelow all_names
FetchedBelow (raised e) = Unit

names_or_empty-below :
    (r : Result (Dict ℕ Text)) (continue : Dict ℕ Text → Result (Dict Text (Dict ℕ Text)))
    → NamesBelow 12 r
    → ((names : Dict ℕ Text) → All (IsBelow 12) names → FetchedBelow (continue names))
    → FetchedBelow (names_or_empty r continue)
names_or_empty-below (ok names) continue below h = h names below
names_or_empty-below (raised cancelled_error) continue below h = tt
names_or_empty-below (raised _) continue below h = h [] tt

pub fetch_names-below :
    (download : ℕ → Result (Dict ℕ Text)) (modules : List (Text × ℕ))
    (all_names : Dict Text (Dict ℕ Text))
    → ((i : ℕ) → NamesBelow 12 (download i))
    → AllBelow all_names
    → FetchedBelow (fetch_names download modules all_names)
unfolding fetch_names
fetch_names-below download [] all_names below h = h
fetch_names-below download ((letter, index) ∷ modules) all_names below h =
    names_or_empty-below (download index)
      (λ names. fetch_names download modules (put letter names all_names)) (below index)
      (λ names b.
        fetch_names-below download modules (put letter names all_names) below
          (put-AllBelow letter names all_names b h))
