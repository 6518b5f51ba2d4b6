-- ===== src/Setup/Prune.antt =====
-- __init__.py: which registry entries the pruning removes.
use hass_dobiss_sx_evolution.Prelude.{
  ==_refl, All, Bool, Bool-cases, List, Text, [], ap, arith, bool_eq, contains, contains-add,
  contains-append, false, get, get_elem?, inl, inr, int_eq, keep, nat_eq, not, option_eq, pair_eq,
  refl, some, suc, sym, text_eq, true, zero, ℕ, ℤ, ◌&&◌, ◌++◌, ◌==◌, ◌||◌, ◌∙◌, ◌∷◌, ◌≡◌, ◌⊎◌,
}
use hass_dobiss_sx_evolution.ConfigFlow.Flow.{
  ModuleData, Subentry, SubentryData, module_data, mood_data,
}
use hass_dobiss_sx_evolution.ConfigFlow.Outputs.{OutputConfig, Outputs}
use hass_dobiss_sx_evolution.ConfigFlow.Outputs.Valid.{get_cases}
use hass_dobiss_sx_evolution.Setup.{
  RegistryEntry, all_expected, expected_unique_ids, in_ids, is_stale, module_sub_ids, output_ids,
  prune_stale_entities, unique_id_of,
}
use mathlib.Core.Option.{none-ne-some, some-injective}

-- An output of the module has this unique id.
abbrev pub is_output_id : Text → Text → Outputs → Bool
is_output_id id subentry_id [] = false
is_output_id id subentry_id ((output, cfg) ∷ outputs) =
    id == unique_id_of subentry_id output cfg || is_output_id id subentry_id outputs

abbrev pub is_id_in : Text → Text → SubentryData → Bool
is_id_in id subentry_id (module_data sub_data) = is_output_id id subentry_id sub_data.outputs
is_id_in id subentry_id (mood_data number) = false

-- An output of some module has this unique id.
abbrev pub is_needed : Text → List Subentry → Bool
is_needed id [] = false
is_needed id (sub ∷ subs) = is_id_in id sub.subentry_id sub.data_of || is_needed id subs

contains-output_ids :
    (id subentry_id : Text) (outputs : Outputs)
    → contains id (output_ids subentry_id outputs) ≡ is_output_id id subentry_id outputs
unfolding output_ids
contains-output_ids id subentry_id [] = refl
contains-output_ids id subentry_id ((output, cfg) ∷ outputs) =
    contains-add id (unique_id_of subentry_id output cfg) (output_ids subentry_id outputs)
    ∙ rw (contains-output_ids id subentry_id outputs) refl

contains-expected_unique_ids :
    (id subentry_id : Text) (sub : SubentryData)
    → contains id (expected_unique_ids subentry_id sub) ≡ is_id_in id subentry_id sub
unfolding expected_unique_ids
contains-expected_unique_ids id subentry_id (module_data sub_data) =
    contains-output_ids id subentry_id sub_data.outputs
contains-expected_unique_ids id subentry_id (mood_data number) = refl

contains-all_expected :
    (id : Text) (subs : List Subentry) → contains id (all_expected subs) ≡ is_needed id subs
unfolding all_expected
contains-all_expected id [] = refl
contains-all_expected id (sub ∷ subs) =
    contains-append id (expected_unique_ids sub.subentry_id sub.data_of) (all_expected subs)
    ∙ rw
        (contains-expected_unique_ids id sub.subentry_id sub.data_of, contains-all_expected id subs)
        refl

is_output_id-get :
    (subentry_id : Text) (output : ℤ) (cfg : OutputConfig) (outputs : Outputs)
    → get output outputs ≡ some cfg
    → is_output_id (unique_id_of subentry_id output cfg) subentry_id outputs ≡ true
is_output_id-get subentry_id output cfg [] h = absurd (none-ne-some cfg h)
is_output_id-get subentry_id output cfg ((k, c) ∷ outputs) h =
    elim (get_cases output k c cfg outputs h) [
      | inl at ↦ rw (at.0, sym at.1) (rw (==_refl (unique_id_of subentry_id k c)) refl)
      | inr past ↦
          rw (is_output_id-get subentry_id output cfg outputs past.0)
            (or_true (unique_id_of subentry_id output cfg == unique_id_of subentry_id k c))
    ]
  where
    or_true : (b : Bool) → (b || true) ≡ true
    or_true true = refl
    or_true false = refl

is_needed-at :
    (i : ℕ) (id : Text) (subs : List Subentry) (sub : Subentry)
    → get_elem? subs i ≡ some sub
    → is_id_in id sub.subentry_id sub.data_of ≡ true
    → is_needed id subs ≡ true
is_needed-at i id [] sub at h = absurd (none-ne-some sub at)
is_needed-at zero id (s ∷ subs) sub at h = rw (some-injective s sub at, h) refl
is_needed-at (suc i) id (s ∷ subs) sub at h = ground (arith, is_needed-at i id subs sub at h)

keep-append :
    {A : Type 0} → (p : A → Bool) (xs ys : List A) → keep p (xs ++ ys) ≡ keep p xs ++ keep p ys
keep-append p [] ys = refl
keep-append p (x ∷ xs) ys = elim (Bool-cases (p x)) [
  | inl e ↦ rw e (ap (λ l. x ∷ l) (keep-append p xs ys))
  | inr e ↦ rw e (keep-append p xs ys)
]

is_stale-configured :
    (i : ℕ) (subs : List Subentry) (sub : Subentry) (sub_data : ModuleData) (output : ℤ)
    (cfg : OutputConfig) (reg : RegistryEntry)
    → get_elem? subs i ≡ some sub
    → sub.data_of ≡ module_data sub_data
    → get output sub_data.outputs ≡ some cfg
    → reg.unique_id ≡ unique_id_of sub.subentry_id output cfg
    → is_stale subs reg ≡ false
is_stale-configured i subs sub sub_data output cfg reg at is_mod there same =
    rw (contains-all_expected reg.unique_id subs, same)
      (rw
        (is_needed-at i (unique_id_of sub.subentry_id output cfg) subs sub at
          (rw is_mod (is_output_id-get sub.subentry_id output cfg sub_data.outputs there)))
        (and_false (in_ids reg.config_subentry_id (module_sub_ids subs))))
  where
    and_false : (b : Bool) → (b && false) ≡ false
    and_false true = refl
    and_false false = refl

-- A registry entry whose unique id is that of a configured output of a module, which is the i-th
-- subentry, survives the pruning, at any place of the registry.
pub prune_stale_entities-configured :
    (i : ℕ) (subs : List Subentry) (sub : Subentry) (sub_data : ModuleData) (output : ℤ)
    (cfg : OutputConfig) (reg : RegistryEntry) (before after : List RegistryEntry)
    → get_elem? subs i ≡ some sub
    → sub.data_of ≡ module_data sub_data
    → get output sub_data.outputs ≡ some cfg
    → reg.unique_id ≡ unique_id_of sub.subentry_id output cfg
    → prune_stale_entities subs (before ++ reg ∷ after)
      ≡ prune_stale_entities subs before ++ reg ∷ prune_stale_entities subs after
unfolding prune_stale_entities
prune_stale_entities-configured i subs sub sub_data output cfg reg before after at is_mod there
      same =
    keep-append (λ r. not (is_stale subs r)) before (reg ∷ after)
    ∙ rw (is_stale-configured i subs sub sub_data output cfg reg at is_mod there same) refl

-- An entry that belongs to no module's subentry, or whose unique id some output needs.
abbrev pub Allowed : List Subentry → RegistryEntry → Type 0
Allowed subs reg =
    (in_ids reg.config_subentry_id (module_sub_ids subs) ≡ false)
    ⊎ (is_needed reg.unique_id subs ≡ true)

-- Every entry that the pruning leaves belongs to no module's subentry, or has the unique id of a
-- configured output.
pub prune_stale_entities-All :
    (subs : List Subentry) (registry : List RegistryEntry)
    → All (Allowed subs) (prune_stale_entities subs registry)
unfolding prune_stale_entities
prune_stale_entities-All subs [] = tt
prune_stale_entities-All subs (reg ∷ registry) = elim (Bool-cases (is_stale subs reg)) [
  | inl e ↦ rw e (prune_stale_entities-All subs registry)
  | inr e ↦ rw e (fresh e, prune_stale_entities-All subs registry)
]
  where
    fresh :
        is_stale subs reg ≡ false
        → (in_ids reg.config_subentry_id (module_sub_ids subs) ≡ false)
          ⊎ (is_needed reg.unique_id subs ≡ true)
    fresh e = ground (arith, contains-all_expected reg.unique_id subs)
