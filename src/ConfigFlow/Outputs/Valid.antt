-- ===== src/ConfigFlow/Outputs/Valid.antt =====
-- config_flow.py: writing and removing an item keeps the claims of the outputs valid.
use hass_dobiss_sx_evolution.Prelude.{
  ==_iff, All, Bool-cases, List, [], arith, contains, false, get, inl, inr, int_eq, nat_eq, pair_eq,
  pop, put, refl, some, sym, text_eq, true, ℤ, ◌==◌, ◌∙◌, ◌∷◌, ◌≡◌, ◌⊎◌,
}
use hass_dobiss_sx_evolution.ConfigFlow.Outputs.{OutputConfig, Outputs, occupied_outputs}
use hass_dobiss_sx_evolution.ConfigFlow.Outputs.Claims.{
  Distinct, Free, InRange, IsValid, claims, contains-head, contains-occupied_cons,
  contains-occupied_pop, contains-occupied_put, contains-tail,
}
use mathlib.Core.Path.{subst}
use mathlib.Core.Option.{none-ne-some, some-injective}

Free-pop :
    (ns : List ℤ) (key : ℤ) (outputs : Outputs)
    → Free ns (occupied_outputs outputs)
    → Free ns (occupied_outputs (pop key outputs))
Free-pop [] key outputs f = tt
Free-pop (n ∷ ns) key outputs f =
    (contains-occupied_pop n key outputs f.0, Free-pop ns key outputs f.1)

pub pop-IsValid : (key : ℤ) (outputs : Outputs) → IsValid outputs → IsValid (pop key outputs)
pop-IsValid key [] v = v
pop-IsValid key ((k, c) ∷ outputs) v = elim (Bool-cases (key == k)) [
  | inl e ↦ rw e v.3
  | inr e ↦ rw e (v.0, v.1, Free-pop (claims k c) key outputs v.2, pop-IsValid key outputs v.3)
]

Free-put :
    (ns : List ℤ) (key : ℤ) (cfg : OutputConfig) (outputs : Outputs)
    → Free ns (claims key cfg)
    → Free ns (occupied_outputs (pop key outputs))
    → Free ns (occupied_outputs (put key cfg outputs))
Free-put [] key cfg outputs own others = tt
Free-put (n ∷ ns) key cfg outputs own others = (
  rw (contains-occupied_put n key cfg outputs, own.0, others.0) refl,
  Free-put ns key cfg outputs own.1 others.1,
)

Free-sym : (xs ys : List ℤ) → Free xs ys → Free ys xs
Free-sym xs [] f = tt
Free-sym xs (y ∷ ys) f = (missing xs f, Free-sym xs ys (rest xs f))
  where
    missing : (xs : List ℤ) → Free xs (y ∷ ys) → contains y xs ≡ false
    missing [] f = refl
    missing (x ∷ xs) f = ground (arith, ==_iff y x, ==_iff x y, missing xs f.1)

    rest : (xs : List ℤ) → Free xs (y ∷ ys) → Free xs ys
    rest [] f = tt
    rest (x ∷ xs) f = (ground arith, rest xs f.1)

Free-head :
    (ns : List ℤ) (k : ℤ) (c : OutputConfig) (outputs : Outputs)
    → Free ns (occupied_outputs ((k, c) ∷ outputs))
    → Free ns (claims k c)
Free-head [] k c outputs f = tt
Free-head (n ∷ ns) k c outputs f = (contains-head n k c outputs f.0, Free-head ns k c outputs f.1)

Free-tail :
    (ns : List ℤ) (k : ℤ) (c : OutputConfig) (outputs : Outputs)
    → Free ns (occupied_outputs ((k, c) ∷ outputs))
    → Free ns (occupied_outputs outputs)
Free-tail [] k c outputs f = tt
Free-tail (n ∷ ns) k c outputs f = (contains-tail n k c outputs f.0, Free-tail ns k c outputs f.1)

pub put-IsValid :
    (key : ℤ) (cfg : OutputConfig) (outputs : Outputs)
    → IsValid outputs
    → All InRange (claims key cfg)
    → Distinct (claims key cfg)
    → Free (claims key cfg) (occupied_outputs (pop key outputs))
    → IsValid (put key cfg outputs)
put-IsValid key cfg [] v r d f = (r, d, f, tt)
put-IsValid key cfg ((k, c) ∷ outputs) v r d f = elim (Bool-cases (key == k)) [
  | inl e ↦ rw e (rw (sym ((==_iff key k).0 e)) (r, d, here e, v.3))
  | inr e ↦ rw e (
    v.0,
    v.1,
    Free-put (claims k c) key cfg outputs
        (Free-sym (claims key cfg) (claims k c)
          (Free-head (claims key cfg) k c (pop key outputs) (past e)))
        (Free-pop (claims k c) key outputs v.2),
    put-IsValid key cfg outputs v.3 r d (Free-tail (claims key cfg) k c (pop key outputs) (past e)),
  )
]
  where
    pop_past : (key == k) ≡ false → pop key ((k, c) ∷ outputs) ≡ (k, c) ∷ pop key outputs
    pop_past e = rw e refl

    past : (key == k) ≡ false → Free (claims key cfg) (occupied_outputs ((k, c) ∷ pop key outputs))
    past e = subst (λ o. Free (claims key cfg) (occupied_outputs o)) (pop_past e) f

    pop_here : (key == k) ≡ true → pop key ((k, c) ∷ outputs) ≡ outputs
    pop_here e = rw e refl

    here : (key == k) ≡ true → Free (claims key cfg) (occupied_outputs outputs)
    here e = subst (λ o. Free (claims key cfg) (occupied_outputs o)) (pop_here e) f

Free-cons :
    (ns : List ℤ) (k : ℤ) (c : OutputConfig) (outputs : Outputs)
    → Free ns (claims k c)
    → Free ns (occupied_outputs outputs)
    → Free ns (occupied_outputs ((k, c) ∷ outputs))
Free-cons [] k c outputs own others = tt
Free-cons (n ∷ ns) k c outputs own others = (
  rw (contains-occupied_cons n k c outputs, own.0, others.0) refl,
  Free-cons ns k c outputs own.1 others.1,
)

-- The first item: its key is looked up, or not.
pub get_cases :
    (key k : ℤ) (c cfg : OutputConfig) (outputs : Outputs)
    → get key ((k, c) ∷ outputs) ≡ some cfg
    → ((key ≡ k) × (c ≡ cfg) × (pop key ((k, c) ∷ outputs) ≡ outputs))
      ⊎ ((get key outputs ≡ some cfg)
          × (pop key ((k, c) ∷ outputs) ≡ (k, c) ∷ pop key outputs)
          × ((key == k) ≡ false))
get_cases key k c cfg outputs h = elim (Bool-cases (key == k)) [
  | inl e ↦ inl ((==_iff key k).0 e, some-injective c cfg (at_here e), rw e refl)
  | inr e ↦ inr (at_past e, rw e refl, e)
]
  where
    at_here : (key == k) ≡ true → some c ≡ some cfg
    at_here e = sym (rw e refl) ∙ h

    at_past : (key == k) ≡ false → get key outputs ≡ some cfg
    at_past e = sym (rw e refl) ∙ h

Free-at :
    (ns : List ℤ) (key : ℤ) (cfg : OutputConfig) (outputs : Outputs)
    → Free ns (occupied_outputs outputs)
    → get key outputs ≡ some cfg
    → Free ns (claims key cfg)
Free-at ns key cfg [] f h = absurd (none-ne-some cfg h)
Free-at ns key cfg ((k, c) ∷ outputs) f h = elim (get_cases key k c cfg outputs h) [
  | inl at ↦ rw (at.0, sym at.1) (Free-head ns k c outputs f)
  | inr past ↦ Free-at ns key cfg outputs (Free-tail ns k c outputs f) past.0
]

-- What an item claims is free of the other items' claims.
pub IsValid-get :
    (key : ℤ) (cfg : OutputConfig) (outputs : Outputs)
    → IsValid outputs
    → get key outputs ≡ some cfg
    → All InRange (claims key cfg)
      × Distinct (claims key cfg)
      × Free (claims key cfg) (occupied_outputs (pop key outputs))
IsValid-get key cfg [] v h = absurd (none-ne-some cfg h)
IsValid-get key cfg ((k, c) ∷ outputs) v h = elim (get_cases key k c cfg outputs h) [
  | inl at ↦ rw (at.2, at.0, sym at.1) (v.0, v.1, v.2)
  | inr past ↦
      let rest = IsValid-get key cfg outputs v.3 past.0 in
      rw past.1 (
        rest.0,
        rest.1,
        Free-cons (claims key cfg) k c (pop key outputs)
            (Free-sym (claims k c) (claims key cfg)
              (Free-at (claims k c) key cfg outputs v.2 past.0))
            rest.2,
      )
]
