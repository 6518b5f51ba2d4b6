-- ===== src/ConfigFlow/Imports/Keeps.antt =====
-- config_flow.py: what the imports keep of the subentries, and what they add.
use hass_dobiss_sx_evolution.Prelude.{
  All, Bool, Bool-cases, Dict, List, Result, Text, [], arith, cancelled_error, contains, get_or,
  inl, inr, int_eq, keep, nat_eq, not, ok, pair_eq, pos, raised, some, sym, text_eq, ℕ, ◌++◌, ◌+◌,
  ◌∙◌, ◌∷◌, ◌≡◌,
}
use hass_dobiss_sx_evolution.ConfigFlow.Flow.{Subentry, SubentryData, module_data, mood_data}
use hass_dobiss_sx_evolution.ConfigFlow.Imports.{
  Downloads, add_modules, add_moods, fetch_names, import_config, import_modules, import_mood_names,
  import_moods, import_new, import_new_moods, imported_module, imported_mood, is_new_mood,
  new_modules, with_names,
}
use hass_dobiss_sx_evolution.ConfigFlow.Imports.Names.{
  AllBelow, FetchedBelow, IsBelow, NamesBelow, fetch_names-below, get_or-IsBelow,
  imported_outputs-IsValid,
}
use hass_dobiss_sx_evolution.ConfigFlow.Outputs.Claims.{IsValid}
use hass_dobiss_sx_evolution.ConfigFlow.Subentries.{existing_letters, existing_moods}
use hass_dobiss_sx_evolution.ConfigFlow.Subentries.Unique.{IsLetter, IsUnique, new_module, new_mood}
use mathlib.Core.List.{append_assoc, append-nil}

-- A module's outputs are valid.
abbrev pub IsValidData : SubentryData → Type 0
IsValidData (module_data sub_data) = IsValid sub_data.outputs
IsValidData (mood_data number) = Unit

-- The letters and the moods are unique and valid, the subentries before are there as they were, and
-- those that come after them have valid outputs.
abbrev pub Imported : List Subentry → List Subentry → Type 0
Imported before after =
    IsUnique after
    × ((added : List Subentry) × (after ≡ before ++ added)
        × All (λ (sub : Subentry). IsValidData sub.data_of) added)

pub none-Imported : (subs : List Subentry) → IsUnique subs → Imported subs subs
none-Imported subs u = (u, ([], sym (append-nil subs), tt))

one-Imported :
    (subs after : List Subentry) (sub : Subentry)
    → IsValidData sub.data_of
    → Imported (subs ++ sub ∷ []) after
    → Imported subs after
one-Imported subs after sub v (u, (added, e, valid)) =
    (u, (sub ∷ added, e ∙ append_assoc subs (sub ∷ []) added, (v, valid)))

add_modules-Imported :
    (fresh : ℕ → Text) (all_names : Dict Text (Dict ℕ Text)) (modules : List (Text × ℕ))
    (imported : ℕ) (subs : List Subentry)
    → IsUnique subs
    → AllBelow all_names
    → All (λ (m : Text × ℕ). IsLetter m.0) modules
    → Imported subs (add_modules fresh all_names modules imported subs).1
unfolding add_modules
add_modules-Imported fresh all_names [] imported subs u below letters = none-Imported subs u
add_modules-Imported fresh all_names ((letter, index) ∷ modules) imported subs u below letters =
    let sub : Subentry = imported_module (fresh imported) letter (get_or all_names letter []) in
    elim (Bool-cases (contains letter (existing_letters subs))) [
      | inl taken ↦ rw taken (none-Imported subs u)
      | inr free ↦ rw free (
          one-Imported subs
            (add_modules fresh all_names modules (imported + 1) (subs ++ sub ∷ [])).1 sub
            (imported_outputs-IsValid (get_or all_names letter [])
              (get_or-IsBelow letter all_names below))
            (add_modules-Imported fresh all_names modules (imported + 1) (subs ++ sub ∷ [])
              (new_module subs (fresh imported) _ _ u letters.0 free) below letters.1))
    ]

with_names-Imported :
    (fresh : ℕ → Text) (modules : List (Text × ℕ)) (subs : List Subentry)
    (r : Result (Dict Text (Dict ℕ Text)))
    → IsUnique subs
    → FetchedBelow r
    → All (λ (m : Text × ℕ). IsLetter m.0) modules
    → Imported subs (with_names fresh modules subs r).1
with_names-Imported fresh modules subs (raised e) u below letters = none-Imported subs u
with_names-Imported fresh modules subs (ok all_names) u below letters =
    add_modules-Imported fresh all_names modules 0 subs u below letters

import_new-Imported :
    (fresh : ℕ → Text) (downloads : Downloads) (modules : List (Text × ℕ)) (subs : List Subentry)
    → IsUnique subs
    → ((i : ℕ) → NamesBelow 12 (downloads.names_of_module i))
    → All (λ (m : Text × ℕ). IsLetter m.0) modules
    → Imported subs (import_new fresh downloads modules subs).1
import_new-Imported fresh downloads [] subs u below letters = none-Imported subs u
import_new-Imported fresh downloads (m ∷ modules) subs u below letters =
    with_names-Imported fresh (m ∷ modules) subs
      (fetch_names downloads.names_of_module (m ∷ modules) []) u
      (fetch_names-below downloads.names_of_module (m ∷ modules) [] below tt) letters

All-keep :
    {A : Type 0} → (P : A → Type 0) (p : A → Bool) (xs : List A) → All P xs → All P (keep p xs)
All-keep P p [] h = tt
All-keep P p (x ∷ xs) h = elim (Bool-cases (p x)) [
  | inl e ↦ rw e (h.0, All-keep P p xs h.1)
  | inr e ↦ rw e (All-keep P p xs h.1)
]

-- What a download of the config gives has letters.
abbrev pub ConfigLetters : Result (List (Text × ℕ)) → Type 0
ConfigLetters (ok modules) = All (λ (m : Text × ℕ). IsLetter m.0) modules
ConfigLetters (raised e) = Unit

import_config-Imported :
    (fresh : ℕ → Text) (downloads : Downloads) (r : Result (List (Text × ℕ))) (subs : List Subentry)
    → IsUnique subs
    → ((i : ℕ) → NamesBelow 12 (downloads.names_of_module i))
    → ConfigLetters r
    → Imported subs (import_config fresh downloads r subs).1
import_config-Imported fresh downloads (ok modules) subs u below letters =
    import_new-Imported fresh downloads (new_modules subs modules) subs u below (
      All-keep (λ (m : Text × ℕ). IsLetter m.0) (λ m. not (contains m.0 (existing_letters subs)))
        modules letters)
import_config-Imported fresh downloads (raised cancelled_error) subs u below letters =
    none-Imported subs u
import_config-Imported fresh downloads (raised _) subs u below letters = none-Imported subs u

pub import_modules-Imported :
    (fresh : ℕ → Text) (downloads : Downloads) (subs : List Subentry)
    → IsUnique subs
    → ((i : ℕ) → NamesBelow 12 (downloads.names_of_module i))
    → ConfigLetters downloads.config
    → Imported subs (import_modules fresh (some downloads) subs).1
unfolding import_modules
import_modules-Imported fresh downloads subs u below letters =
    import_config-Imported fresh downloads downloads.config subs u below letters

add_moods-Imported :
    (fresh : ℕ → Text) (moods : Dict ℕ Text) (imported : ℕ) (subs : List Subentry)
    → IsUnique subs
    → All (IsBelow 100) moods
    → Imported subs (add_moods fresh moods imported subs).1
unfolding add_moods
add_moods-Imported fresh [] imported subs u below = none-Imported subs u
add_moods-Imported fresh ((number, name) ∷ moods) imported subs u below =
    let sub : Subentry = imported_mood (fresh imported) number name in
    elim (Bool-cases (contains (pos number) (existing_moods subs))) [
      | inl taken ↦ rw taken (none-Imported subs u)
      | inr free ↦ rw free (
          one-Imported subs (add_moods fresh moods (imported + 1) (subs ++ sub ∷ [])).1 sub tt (
            add_moods-Imported fresh moods (imported + 1) (subs ++ sub ∷ [])
              (new_mood subs (fresh imported) _ (pos number) u (omega (arith, below.0)) free)
              below.1))
    ]

import_new_moods-Imported :
    (fresh : ℕ → Text) (moods : Dict ℕ Text) (subs : List Subentry)
    → IsUnique subs
    → All (IsBelow 100) moods
    → Imported subs (import_new_moods fresh moods subs).1
import_new_moods-Imported fresh [] subs u below = none-Imported subs u
import_new_moods-Imported fresh (m ∷ moods) subs u below =
    add_moods-Imported fresh (m ∷ moods) 0 subs u below

import_mood_names-Imported :
    (fresh : ℕ → Text) (r : Result (Dict ℕ Text)) (subs : List Subentry)
    → IsUnique subs
    → NamesBelow 100 r
    → Imported subs (import_mood_names fresh r subs).1
import_mood_names-Imported fresh (ok names) subs u below =
    import_new_moods-Imported fresh (keep (is_new_mood subs) names) subs u
      (All-keep (IsBelow 100) (is_new_mood subs) names below)
import_mood_names-Imported fresh (raised cancelled_error) subs u below = none-Imported subs u
import_mood_names-Imported fresh (raised _) subs u below = none-Imported subs u

pub import_moods-Imported :
    (fresh : ℕ → Text) (downloads : Downloads) (subs : List Subentry)
    → IsUnique subs
    → NamesBelow 100 downloads.mood_names_download
    → Imported subs (import_moods fresh (some downloads) subs).1
unfolding import_moods
import_moods-Imported fresh downloads subs u below =
    import_mood_names-Imported fresh downloads.mood_names_download subs u below
