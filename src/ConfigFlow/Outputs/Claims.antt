-- ===== src/ConfigFlow/Outputs/Claims.antt =====
-- config_flow.py: each output number of a module is claimed at most once.
use hass_dobiss_sx_evolution.Prelude.{
  ==_iff, ==_refl, All, Bool, Bool-cases, List, [], ap, arith, contains, false, inl, inr, int_eq,
  nat_eq, pair_eq, pop, pos, put, refl, sym, text_eq, true, ℤ, ◌==◌, ◌||◌, ◌∷◌, ◌≡◌, ◌≤ℤ◌,
}
use hass_dobiss_sx_evolution.ConfigFlow.Outputs.{
  OutputConfig, Outputs, light, occupied_outputs, shutter, switch,
}

-- The output numbers that one item claims.
abbrev pub claims : ℤ → OutputConfig → List ℤ
claims key (shutter down_output name) = key ∷ down_output ∷ []
claims key (light name) = key ∷ []
claims key (switch name) = key ∷ []

abbrev pub InRange : ℤ → Type 0
InRange n = (pos 1 ≤ℤ n) × (n ≤ℤ pos 12)

-- None of the numbers is in the list.
abbrev pub Free : List ℤ → List ℤ → Type 0
Free [] taken = Unit
Free (n ∷ ns) taken = (contains n taken ≡ false) × Free ns taken

abbrev pub Distinct : List ℤ → Type 0
Distinct [] = Unit
Distinct (n ∷ ns) = (contains n ns ≡ false) × Distinct ns

-- The claims are numbers from 1 to 12, and no two items, nor the two directions of one shutter,
-- claim the at_key.
abbrev pub IsValid : Outputs → Type 0
IsValid [] = Unit
IsValid ((key, cfg) ∷ outputs) =
    All InRange (claims key cfg)
    × Distinct (claims key cfg)
    × Free (claims key cfg) (occupied_outputs outputs)
    × IsValid outputs

pub contains-occupied_cons :
    (x key : ℤ) (cfg : OutputConfig) (outputs : Outputs)
    → contains x (occupied_outputs ((key, cfg) ∷ outputs))
      ≡ (contains x (claims key cfg) || contains x (occupied_outputs outputs))
unfolding occupied_outputs
contains-occupied_cons x key (light name) outputs = ground arith
contains-occupied_cons x key (switch name) outputs = ground arith
contains-occupied_cons x key (shutter down_output name) outputs = ground arith

contains-key : (key : ℤ) (cfg : OutputConfig) → contains key (claims key cfg) ≡ true
contains-key key (light name) = rw (==_refl key)
contains-key key (switch name) = rw (==_refl key)
contains-key key (shutter down_output name) = rw (==_refl key)

-- After a write the claims are those of the item written and those of the other items.
pub contains-occupied_put :
    (x key : ℤ) (cfg : OutputConfig) (outputs : Outputs)
    → contains x (occupied_outputs (put key cfg outputs))
      ≡ (contains x (claims key cfg) || contains x (occupied_outputs (pop key outputs)))
contains-occupied_put x key cfg [] = contains-occupied_cons x key cfg []
contains-occupied_put x key cfg ((k, c) ∷ outputs) = elim (Bool-cases (key == k)) [
  | inl e ↦ rw e (rw (sym ((==_iff key k).0 e)) (contains-occupied_cons x key cfg outputs))
  | inr e ↦ rw e (
      rw
        (
          contains-occupied_cons x k c (put key cfg outputs),
          contains-occupied_cons x k c (pop key outputs),
          contains-occupied_put x key cfg outputs,
        )
        (or_swap (contains x (claims k c)) (contains x (claims key cfg))
          (contains x (occupied_outputs (pop key outputs)))))
]
  where
    or_swap : (a b c : Bool) → (a || (b || c)) ≡ (b || (a || c))
    or_swap a b c = ground arith

pub contains-head :
    (x k : ℤ) (c : OutputConfig) (outputs : Outputs)
    → contains x (occupied_outputs ((k, c) ∷ outputs)) ≡ false
    → contains x (claims k c) ≡ false
contains-head x k c outputs h = ground (arith, contains-occupied_cons x k c outputs)

pub contains-tail :
    (x k : ℤ) (c : OutputConfig) (outputs : Outputs)
    → contains x (occupied_outputs ((k, c) ∷ outputs)) ≡ false
    → contains x (occupied_outputs outputs) ≡ false
contains-tail x k c outputs h = ground (arith, contains-occupied_cons x k c outputs)

pub key_missing :
    (key k : ℤ) (c : OutputConfig) (outputs : Outputs)
    → (key == k) ≡ true
    → contains key (occupied_outputs ((k, c) ∷ outputs)) ≡ false
    → ⊥
key_missing key k c outputs e h = ground (arith, contains-head key k c outputs h, contains-claim c)
  where
    contains-claim : (c : OutputConfig) → contains key (claims k c) ≡ true
    contains-claim (light name) = rw e refl
    contains-claim (switch name) = rw e refl
    contains-claim (shutter down_output name) = rw e refl

-- An item that is not there is not removed.
pub pop_missing :
    (key : ℤ) (outputs : Outputs)
    → contains key (occupied_outputs outputs) ≡ false
    → pop key outputs ≡ outputs
pop_missing key [] h = refl
pop_missing key ((k, c) ∷ outputs) h = elim (Bool-cases (key == k)) [
  | inl e ↦ absurd (key_missing key k c outputs e h)
  | inr e ↦
      rw e (ap (λ rest. (k, c) ∷ rest) (pop_missing key outputs (contains-tail key k c outputs h)))
]

pub contains-occupied_pop :
    (x key : ℤ) (outputs : Outputs)
    → contains x (occupied_outputs outputs) ≡ false
    → contains x (occupied_outputs (pop key outputs)) ≡ false
contains-occupied_pop x key [] h = h
contains-occupied_pop x key ((k, c) ∷ outputs) h = elim (Bool-cases (key == k)) [
  | inl e ↦ rw e (contains-tail x k c outputs h)
  | inr e ↦ rw e (
      rw
        (
          contains-occupied_cons x k c (pop key outputs),
          contains-head x k c outputs h,
          contains-occupied_pop x key outputs (contains-tail x k c outputs h),
        )
        refl)
]
