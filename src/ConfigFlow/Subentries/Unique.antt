-- ===== src/ConfigFlow/Subentries/Unique.antt =====
-- config_flow.py: the letters of the modules and the numbers of the moods stay unique.
use hass_dobiss_sx_evolution.Prelude.{
  ==_iff, All, All-append, Bool-cases, Eq, List, Option, Option-cases, Text, [], ap, arith,
  contains, contains-append, false, inl, inr, int_eq, leb_ℤ, nat_eq, negsuc, none, pair_eq, pos,
  refl, some, strip, sym, text_eq, true, ℤ, ◌&&◌, ◌++◌, ◌∙◌, ◌∷◌, ◌≡◌, ◌≤ℤ◌,
}
use hass_dobiss_sx_evolution.ConfigFlow.Flow.{
  FlowResult, ModuleData, Subentry, abort, create_entry, module_data, mood_data, show_form,
  show_menu, update_and_abort,
}
use hass_dobiss_sx_evolution.ConfigFlow.Subentries.{
  ModuleInput, MoodInput, add_module, add_mood, existing_letters, existing_moods, letters_of,
  moods_of, validate_module,
}
use mathlib.Core.List.{append_assoc, append-nil}

module _ {A : Type 0} ⦃e : Eq A⦄ where
  abbrev pub Unique : List A → Type 0
  Unique [] = Unit
  Unique (x ∷ xs) = (contains x xs ≡ false) × Unique xs

  pub Unique-append :
      (xs : List A) (x : A) → Unique xs → contains x xs ≡ false → Unique (xs ++ x ∷ [])
  Unique-append [] x u h = (refl, tt)
  Unique-append (y ∷ xs) x u h = (
    rw (contains-append y xs (x ∷ [])) (ground (arith, ==_iff x y, ==_iff y x, u.0)),
    Unique-append xs x u.1 (ground arith),
  )

-- A valid letter: one ASCII letter.
abbrev pub IsLetter : Text → Type 0
IsLetter letter = validate_module letter ≡ none

abbrev pub IsMood : ℤ → Type 0
IsMood number = (pos 0 ≤ℤ number) × (number ≤ℤ pos 99)

abbrev pub IsUnique : List Subentry → Type 0
IsUnique subs =
    Unique (existing_letters subs)
    × All IsLetter (existing_letters subs)
    × Unique (existing_moods subs)
    × All IsMood (existing_moods subs)

IsMood-of_test :
    (number : ℤ) → (leb_ℤ (pos 0) number && leb_ℤ number (pos 99)) ≡ true → IsMood number
IsMood-of_test (pos n) h = ground arith
IsMood-of_test (negsuc n) h = ground arith

-- The subentries after a step of an adding flow: Home Assistant appends what the flow creates.
abbrev pub created : Text → FlowResult → List Subentry → List Subentry
created id (create_entry entry_data title unique_id) subs =
    subs ++ (record { subentry_id = id; title = title; data_of = entry_data }) ∷ []
created id (update_and_abort entry_data title unique_id) subs = subs
created id (show_form step error) subs = subs
created id (show_menu steps) subs = subs
created id (abort reason) subs = subs

pub existing_letters-append :
    (xs ys : List Subentry)
    → existing_letters (xs ++ ys) ≡ existing_letters xs ++ existing_letters ys
existing_letters-append [] ys = refl
existing_letters-append (x ∷ xs) ys =
    ap (λ l. letters_of x.data_of ++ l) (existing_letters-append xs ys)
    ∙ sym (append_assoc (letters_of x.data_of) (existing_letters xs) (existing_letters ys))

pub existing_moods-append :
    (xs ys : List Subentry) → existing_moods (xs ++ ys) ≡ existing_moods xs ++ existing_moods ys
existing_moods-append [] ys = refl
existing_moods-append (x ∷ xs) ys =
    ap (λ l. moods_of x.data_of ++ l) (existing_moods-append xs ys)
    ∙ sym (append_assoc (moods_of x.data_of) (existing_moods xs) (existing_moods ys))

All-one :
    {A : Type 0} → (P : A → Type 0) → (xs : List A) (x : A) → All P xs → P x → All P (xs ++ x ∷ [])
All-one P xs x all p = All-append P xs (x ∷ []) all (p, tt)

pub new_module :
    (subs : List Subentry) (id : Text) (title : Text) (sub_data : ModuleData)
    → IsUnique subs
    → IsLetter sub_data.letter
    → contains sub_data.letter (existing_letters subs) ≡ false
    → IsUnique
        (subs ++ (record { subentry_id = id; title = title; data_of = module_data sub_data }) ∷ [])
new_module subs id title sub_data u letter free =
    rw
      (
        existing_letters-append subs _,
        existing_moods-append subs _,
        append-nil (existing_moods subs),
      )
      (
        Unique-append (existing_letters subs) sub_data.letter u.0 free,
        All-one IsLetter (existing_letters subs) sub_data.letter u.1 letter,
        u.2,
        u.3,
      )

pub new_mood :
    (subs : List Subentry) (id : Text) (title : Text) (number : ℤ)
    → IsUnique subs
    → IsMood number
    → contains number (existing_moods subs) ≡ false
    → IsUnique
        (subs ++ (record { subentry_id = id; title = title; data_of = mood_data number }) ∷ [])
new_mood subs id title number u in_range free =
    rw
      (
        existing_letters-append subs _,
        existing_moods-append subs _,
        append-nil (existing_letters subs),
      )
      (
        u.0,
        u.1,
        Unique-append (existing_moods subs) number u.2 free,
        All-one IsMood (existing_moods subs) number u.3 in_range,
      )

add_module-IsUnique :
    (upper : Text → Text) (id : Text) (subs : List Subentry) (user_input : Option ModuleInput)
    → IsUnique subs
    → IsUnique (created id (add_module upper subs user_input) subs)
unfolding add_module
add_module-IsUnique upper id subs none u = u
add_module-IsUnique upper id subs (some i) u =
    elim (Option-cases (validate_module (upper (strip i.letter_input)))) [
      | inl e ↦
          rw (e, created)
            (elim (Bool-cases (contains (upper (strip i.letter_input)) (existing_letters subs))) [
              | inl taken ↦ rw taken u
              | inr free ↦ rw free (new_module subs id _ _ u e free)
            ])
      | inr (error, e) ↦ rw (e, created) u
    ]

add_mood-IsUnique :
    (id : Text) (subs : List Subentry) (user_input : Option MoodInput)
    → IsUnique subs
    → IsUnique (created id (add_mood subs user_input) subs)
unfolding add_mood
add_mood-IsUnique id subs none u = u
add_mood-IsUnique id subs (some i) u =
    elim (Bool-cases (leb_ℤ (pos 0) i.number_input && leb_ℤ i.number_input (pos 99))) [
      | inl in_range ↦
          rw in_range (elim (Bool-cases (contains i.number_input (existing_moods subs))) [
            | inl taken ↦ rw taken u
            | inr free ↦
                rw free (
                  new_mood subs id _ i.number_input u (IsMood-of_test i.number_input in_range) free)
          ])
      | inr out ↦ rw out u
    ]

-- Whatever `str.upper` does, a module or a mood that the user adds leaves the letters of the modules
-- unique and each one ASCII letter, and the moods unique and from 0 to 99, if they were.
pub created-IsUnique :
    (upper : Text → Text) (id : Text) (subs : List Subentry) (module_input : Option ModuleInput)
    (mood_input : Option MoodInput)
    → IsUnique subs
    → IsUnique (created id (add_module upper subs module_input) subs)
      × IsUnique (created id (add_mood subs mood_input) subs)
created-IsUnique upper id subs module_input mood_input u =
    (add_module-IsUnique upper id subs module_input u, add_mood-IsUnique id subs mood_input u)
