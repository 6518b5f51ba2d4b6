-- ===== src/ConfigFlow/Imports/Letters.antt =====
-- config_flow.py: which modules an import adds.
use hass_dobiss_sx_evolution.Prelude.{
  ==_iff, Bool-cases, Dict, List, Result, Text, [], ap, arith, cancelled_error, contains,
  contains-append, false, get_or, inl, inr, int_eq, length, nat_eq, ok, pair_eq, put, raised, refl,
  some, sym, text_eq, ℕ, ◌++◌, ◌+◌, ◌∙◌, ◌∷◌, ◌≡◌, ◌≢◌,
}
use hass_dobiss_sx_evolution.ConfigFlow.Flow.{Subentry}
use hass_dobiss_sx_evolution.ConfigFlow.Imports.{
  Downloads, ImportAbort, add_modules, fetch_names, import_modules, import_new, import_successful,
  imported_module, names_or_empty, new_modules, with_names,
}
use hass_dobiss_sx_evolution.ConfigFlow.Subentries.{existing_letters}
use hass_dobiss_sx_evolution.ConfigFlow.Subentries.Unique.{Unique, existing_letters-append}
use mathlib.Core.List.{append_assoc, append-nil}

names_or_empty-ok :
    {A : Type 0}
    → (r : Result (Dict ℕ Text)) (continue : Dict ℕ Text → Result A) → r ≢ raised cancelled_error
    → ((names : Dict ℕ Text) → (a : A) × (continue names ≡ ok a))
    → (a : A) × (names_or_empty r continue ≡ ok a)
names_or_empty-ok (ok names) continue ne h = h names
names_or_empty-ok (raised cancelled_error) continue ne h = absurd (ne refl)
names_or_empty-ok (raised _) continue ne h = h []

fetch_names-ok :
    (download : ℕ → Result (Dict ℕ Text)) (modules : List (Text × ℕ))
    (all_names : Dict Text (Dict ℕ Text))
    → ((i : ℕ) → download i ≢ raised cancelled_error)
    → (fetched : Dict Text (Dict ℕ Text)) × (fetch_names download modules all_names ≡ ok fetched)
unfolding fetch_names
fetch_names-ok download [] all_names ne = (all_names, refl)
fetch_names-ok download ((letter, index) ∷ modules) all_names ne =
    names_or_empty-ok (download index)
      (λ names. fetch_names download modules (put letter names all_names)) (ne index)
      (λ names. fetch_names-ok download modules (put letter names all_names) ne)

abbrev pub letters_in : List (Text × ℕ) → List Text
letters_in [] = []
letters_in ((letter, index) ∷ modules) = letter ∷ letters_in modules

-- No letter of the modules is taken.
abbrev pub IsFree : List (Text × ℕ) → List Text → Type 0
IsFree [] taken = Unit
IsFree ((letter, index) ∷ modules) taken = (contains letter taken ≡ false) × IsFree modules taken

IsFree-append :
    (modules : List (Text × ℕ)) (taken : List Text) (letter : Text)
    → IsFree modules taken
    → contains letter (letters_in modules) ≡ false
    → IsFree modules (taken ++ letter ∷ [])
IsFree-append [] taken letter h ne = tt
IsFree-append ((l, i) ∷ modules) taken letter h ne = (
  rw (contains-append l taken (letter ∷ []))
      (ground (arith, h.0, ==_iff l letter, ==_iff letter l)),
  IsFree-append modules taken letter h.1 (ground arith),
)

IsFree-new_modules :
    (subs : List Subentry) (modules : List (Text × ℕ))
    → IsFree (new_modules subs modules) (existing_letters subs)
IsFree-new_modules subs [] = tt
IsFree-new_modules subs ((letter, i) ∷ modules) =
    elim (Bool-cases (contains letter (existing_letters subs))) [
      | inl e ↦ rw e (IsFree-new_modules subs modules)
      | inr e ↦ rw e (e, IsFree-new_modules subs modules)
    ]

-- What `add_modules` gives where every letter is new.
abbrev pub Adds : ℕ → List (Text × ℕ) → List Subentry → ImportAbort × List Subentry → Type 0
Adds imported modules subs (reason, after) =
    (reason ≡ import_successful (imported + length modules))
    × (existing_letters after ≡ existing_letters subs ++ letters_in modules)

add_modules-Adds :
    (fresh : ℕ → Text) (all_names : Dict Text (Dict ℕ Text)) (modules : List (Text × ℕ))
    (imported : ℕ) (subs : List Subentry)
    → IsFree modules (existing_letters subs)
    → Unique (letters_in modules)
    → Adds imported modules subs (add_modules fresh all_names modules imported subs)
unfolding add_modules
add_modules-Adds fresh all_names [] imported subs free u =
    (ap import_successful (omega arith), sym (append-nil (existing_letters subs)))
add_modules-Adds fresh all_names ((letter, index) ∷ modules) imported subs free u =
    let sub : Subentry = imported_module (fresh imported) letter (get_or all_names letter []) in
    let e : existing_letters (subs ++ sub ∷ []) ≡ existing_letters subs ++ letter ∷ [] =
      existing_letters-append subs (sub ∷ []) in
    let ih : Adds (imported + 1) modules (subs ++ sub ∷ [])
        (add_modules fresh all_names modules (imported + 1) (subs ++ sub ∷ [])) =
      add_modules-Adds fresh all_names modules (imported + 1) (subs ++ sub ∷ [])
        (rw e (IsFree-append modules (existing_letters subs) letter free.1 u.0)) u.1 in
    rw free.0 (
      ih.0 ∙ ap import_successful (omega arith),
      ih.1
          ∙ ap (λ l. l ++ letters_in modules) e
          ∙ append_assoc (existing_letters subs) (letter ∷ []) (letters_in modules),
    )

-- The import succeeds and adds the modules.
abbrev pub Succeeds : List (Text × ℕ) → List Subentry → Result ImportAbort × List Subentry → Type 0
Succeeds modules subs (r, after) =
    (r ≡ ok (import_successful (length modules)))
    × (existing_letters after ≡ existing_letters subs ++ letters_in modules)

fetched-Succeeds :
    (fresh : ℕ → Text) (modules : List (Text × ℕ)) (subs : List Subentry)
    (fetched : Dict Text (Dict ℕ Text)) (r : Result (Dict Text (Dict ℕ Text)))
    → r ≡ ok fetched
    → IsFree modules (existing_letters subs)
    → Unique (letters_in modules)
    → Succeeds modules subs (with_names fresh modules subs r)
fetched-Succeeds fresh modules subs fetched r e free u =
    let adds : Adds 0 modules subs (add_modules fresh fetched modules 0 subs) =
      add_modules-Adds fresh fetched modules 0 subs free u in
    rw e (ap ok (adds.0 ∙ ap import_successful (omega arith)), adds.1)

new-Succeeds :
    (fresh : ℕ → Text) (downloads : Downloads) (modules : List (Text × ℕ)) (subs : List Subentry)
    → modules ≢ []
    → IsFree modules (existing_letters subs)
    → Unique (letters_in modules)
    → ((i : ℕ) → downloads.names_of_module i ≢ raised cancelled_error)
    → Succeeds modules subs (import_new fresh downloads modules subs)
new-Succeeds fresh downloads [] subs some_new free u ne = absurd (some_new refl)
new-Succeeds fresh downloads (m ∷ modules) subs some_new free u ne =
    let (fetched, e) = fetch_names-ok downloads.names_of_module (m ∷ modules) [] ne in
    fetched-Succeeds fresh (m ∷ modules) subs fetched
      (fetch_names downloads.names_of_module (m ∷ modules) []) e free u

-- Where the config is downloaded, and lists at least one new letter and no new letter twice, the
-- import ends successfully with the count of the new letters, even if every download of names fails:
-- the letters afterwards are those of before, then the new ones in the order of the config. No
-- download of names is cancelled.
pub import_modules-Succeeds :
    (fresh : ℕ → Text) (downloads : Downloads) (modules : List (Text × ℕ)) (subs : List Subentry)
    → downloads.config ≡ ok modules
    → new_modules subs modules ≢ []
    → Unique (letters_in (new_modules subs modules))
    → ((i : ℕ) → downloads.names_of_module i ≢ raised cancelled_error)
    → Succeeds (new_modules subs modules) subs (import_modules fresh (some downloads) subs)
unfolding import_modules
import_modules-Succeeds fresh downloads modules subs e some_new u ne = simp e (
    new-Succeeds fresh downloads (new_modules subs modules) subs some_new
      (IsFree-new_modules subs modules) u ne)
