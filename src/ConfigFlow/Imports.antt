-- ===== src/ConfigFlow/Imports.antt =====
-- config_flow.py: the imports of modules and moods from the Max200. What the clients' downloads give
-- is a parameter.
pub mod Keeps
pub mod Letters
pub mod Below
pub mod Lights
pub mod Links
pub mod Names
use hass_dobiss_sx_evolution.Prelude.{
  Bool, Dict, List, Option, Result, Text, [], cancelled_error, codes, contains, false, get_or,
  if◌then◌else◌, int_eq, keep, nat_eq, none, not, ok, pair_eq, pos, put, raised, some, strip,
  text_eq, ℕ, ◌&&◌, ◌++◌, ◌+◌, ◌∷◌,
}
use hass_dobiss_sx_evolution.ConfigFlow.Flow.{Subentry, module_data, mood_data}
use hass_dobiss_sx_evolution.ConfigFlow.Outputs.{Outputs, light}
use hass_dobiss_sx_evolution.ConfigFlow.Subentries.{existing_letters, existing_moods}

-- The downloads over one link: the config, the output names of a module, the mood names.
pub record Downloads : Type 0 where
  pub config : Result (List (Text × ℕ))
  pub names_of_module : ℕ → Result (Dict ℕ Text)
  pub mood_names_download : Result (Dict ℕ Text)

-- the reasons of `async_abort`, and Home Assistant's where a subentry's unique id is taken
pub data ImportAbort : Type 0 where
  no_max200_connection import_failed no_new_modules no_new_moods : ImportAbort
  import_successful : ℕ → ImportAbort
  subentry_exists : ImportAbort

-- TCP where there is a host, else serial where there is a device.
abbrev pub chosen_downloads :
    (Text → Downloads) → (Text → Downloads) → Option Text → Option Text → Option Downloads
chosen_downloads tcp serial (some host) device = some (tcp host)
chosen_downloads tcp serial none (some device) = some (serial device)
chosen_downloads tcp serial none none = none

-- [… for letter, idx in modules if letter not in existing_letters]
abbrev pub new_modules : List Subentry → List (Text × ℕ) → List (Text × ℕ)
new_modules subs modules = keep (λ m. not (contains m.0 (existing_letters subs))) modules

-- try: names = … except Exception: {}
abbrev pub names_or_empty :
    {A : Type 0} → Result (Dict ℕ Text) → (Dict ℕ Text → Result A) → Result A
names_or_empty (ok names) continue = continue names
names_or_empty (raised cancelled_error) continue = raised cancelled_error
names_or_empty (raised e) continue = continue []

-- The loop that fills `all_names`.
unfoldable pub fetch_names :
    (ℕ → Result (Dict ℕ Text))
    → List (Text × ℕ)
    → Dict Text (Dict ℕ Text)
    → Result (Dict Text (Dict ℕ Text))
fetch_names download [] all_names = ok all_names
fetch_names download ((letter, index) ∷ modules) all_names =
    names_or_empty (download index)
      (λ names. fetch_names download modules (put letter names all_names))

-- The loop over the names of one module: output i of the Max200 is output i + 1 here.
unfoldable pub imported_outputs : Dict ℕ Text → Outputs → Outputs
imported_outputs [] outputs = outputs
imported_outputs ((output_index, name) ∷ names) outputs =
    imported_outputs names (put (pos (output_index + 1)) (light name) outputs)

abbrev pub imported_module : Text → Text → Dict ℕ Text → Subentry
imported_module id letter names = record {
  subentry_id = id;
  title = codes "Module " ++ letter;
  data_of =
      module_data
        (record { letter = letter; dimmable_module = false; outputs = imported_outputs names [] });
}

-- The loop that adds the subentries: the ids of the new ones are `fresh`, by their count. A
-- subentry's unique id is its letter's, and Home Assistant refuses one that is taken.
unfoldable pub add_modules :
    (ℕ → Text)
    → Dict Text (Dict ℕ Text)
    → List (Text × ℕ)
    → ℕ
    → List Subentry
    → ImportAbort × List Subentry
unfolding imported_outputs
add_modules fresh all_names [] imported subs = (import_successful imported, subs)
add_modules fresh all_names ((letter, index) ∷ modules) imported subs =
    if contains letter (existing_letters subs)
    then (subentry_exists, subs)
    else add_modules fresh all_names modules (imported + 1)
        (subs ++ imported_module (fresh imported) letter (get_or all_names letter []) ∷ [])

abbrev pub with_names :
    (ℕ → Text)
    → List (Text × ℕ)
    → List Subentry
    → Result (Dict Text (Dict ℕ Text))
    → Result ImportAbort × List Subentry
with_names fresh modules subs (raised e) = (raised e, subs)
with_names fresh modules subs (ok all_names) =
    let (reason, subs') = add_modules fresh all_names modules 0 subs in (ok reason, subs')

abbrev pub import_new :
    (ℕ → Text) → Downloads → List (Text × ℕ) → List Subentry → Result ImportAbort × List Subentry
import_new fresh downloads [] subs = (ok no_new_modules, subs)
import_new fresh downloads (m ∷ modules) subs =
    with_names fresh (m ∷ modules) subs (fetch_names downloads.names_of_module (m ∷ modules) [])

abbrev pub import_config :
    (ℕ → Text)
    → Downloads
    → Result (List (Text × ℕ))
    → List Subentry
    → Result ImportAbort × List Subentry
import_config fresh downloads (ok modules) subs =
    import_new fresh downloads (new_modules subs modules) subs
import_config fresh downloads (raised cancelled_error) subs = (raised cancelled_error, subs)
import_config fresh downloads (raised e) subs = (ok import_failed, subs)

-- `ModuleImportSubentryFlowHandler.async_step_user`, over the downloads of the chosen link
unfoldable pub import_modules :
    (ℕ → Text) → Option Downloads → List Subentry → Result ImportAbort × List Subentry
unfolding fetch_names add_modules
import_modules fresh none subs = (ok no_max200_connection, subs)
import_modules fresh (some downloads) subs = import_config fresh downloads downloads.config subs

abbrev pub moods_per_controller : ℕ
moods_per_controller = 100

-- number not in existing_moods and name.strip() not in ("", "-")
abbrev pub is_new_mood : List Subentry → ℕ × Text → Bool
is_new_mood subs (number, name) =
    not (contains (pos number) (existing_moods subs))
    && not (contains (strip name) ([] ∷ codes "-" ∷ []))

abbrev pub imported_mood : Text → ℕ → Text → Subentry
imported_mood id number name = record {
  subentry_id = id;
  title = name;
  data_of = mood_data (pos number);
}

unfoldable pub add_moods :
    (ℕ → Text) → Dict ℕ Text → ℕ → List Subentry → ImportAbort × List Subentry
add_moods fresh [] imported subs = (import_successful imported, subs)
add_moods fresh ((number, name) ∷ moods) imported subs =
    if contains (pos number) (existing_moods subs)
    then (subentry_exists, subs)
    else add_moods fresh moods (imported + 1)
        (subs ++ imported_mood (fresh imported) number name ∷ [])

abbrev pub import_new_moods :
    (ℕ → Text) → Dict ℕ Text → List Subentry → Result ImportAbort × List Subentry
import_new_moods fresh [] subs = (ok no_new_moods, subs)
import_new_moods fresh (m ∷ moods) subs =
    let (reason, subs') = add_moods fresh (m ∷ moods) 0 subs in (ok reason, subs')

abbrev pub import_mood_names :
    (ℕ → Text) → Result (Dict ℕ Text) → List Subentry → Result ImportAbort × List Subentry
import_mood_names fresh (ok names) subs =
    import_new_moods fresh (keep (is_new_mood subs) names) subs
import_mood_names fresh (raised cancelled_error) subs = (raised cancelled_error, subs)
import_mood_names fresh (raised e) subs = (ok import_failed, subs)

-- `MoodImportSubentryFlowHandler.async_step_user`, over the downloads of the chosen link
unfoldable pub import_moods :
    (ℕ → Text) → Option Downloads → List Subentry → Result ImportAbort × List Subentry
unfolding add_moods
import_moods fresh none subs = (ok no_max200_connection, subs)
import_moods fresh (some downloads) subs =
    import_mood_names fresh downloads.mood_names_download subs
