-- ===== src/Prelude/Dicts.antt =====
-- A Python `dict` in insertion order, and a `set` or `list` that is tested by `in`.
use mathlib.Core.Path.{◌≡◌, refl}
use mathlib.Core.Bool.{Bool, true, false, ◌||◌}
use mathlib.Core.Option.{Option, none, some}
use mathlib.Core.List.{List, [], ◌∷◌, ◌++◌}
use native.Mathlib.Omega.{arith}
use hass_dobiss_sx_evolution.Prelude.Tests.{if◌then◌else◌}
use hass_dobiss_sx_evolution.Prelude.Eqs.{Eq, ◌==◌, ==_iff}

abbrev pub Dict {ℓ} : Type ℓ → Type ℓ → Type ℓ
Dict K V = List (K × V)

module _ {ℓ} {A : Type ℓ} ⦃e : Eq A⦄ where
  -- a in xs
  abbrev pub contains : A → List A → Bool
  contains a [] = false
  contains a (x ∷ xs) = a == x || contains a xs

  -- xs.add(a), of a set
  abbrev pub add : A → List A → List A
  add a xs = if contains a xs then xs else a ∷ xs

  pub contains-add : (a b : A) (xs : List A) → contains a (add b xs) ≡ (a == b || contains a xs)
  contains-add a b xs = ground (arith, ==_iff a b, contains-at)
    where
      contains-at : a ≡ b → contains a xs ≡ contains b xs
      contains-at p = λ i. contains (p i) xs

  pub contains-append :
      (a : A) (xs ys : List A) → contains a (xs ++ ys) ≡ (contains a xs || contains a ys)
  contains-append a [] ys = refl
  contains-append a (x ∷ xs) ys = ground (arith, contains-append a xs ys)

module _ {ℓ} {K V : Type ℓ} ⦃e : Eq K⦄ where
  -- d.get(k)
  abbrev pub get : K → Dict K V → Option V
  get k [] = none
  get k ((j, v) ∷ d) = if k == j then some v else get k d

  -- d[k] = v: in place, or at the end
  abbrev pub put : K → V → Dict K V → Dict K V
  put k v [] = (k, v) ∷ []
  put k v ((j, w) ∷ d) = if k == j then (j, v) ∷ d else (j, w) ∷ put k v d

  -- d.pop(k, None)
  abbrev pub pop : K → Dict K V → Dict K V
  pop k [] = []
  pop k ((j, w) ∷ d) = if k == j then d else (j, w) ∷ pop k d

  -- k in d
  abbrev pub has_key : K → Dict K V → Bool
  has_key k d = elim (get k d) [ none ↦ false | some _ ↦ true ]

  -- d.get(k, default)
  abbrev pub get_or : Dict K V → K → V → V
  get_or d k v = elim (get k d) [ none ↦ v | some w ↦ w ]

  pub get-put :
      (j k : K) (v : V) (d : Dict K V) → get j (put k v d) ≡ (if j == k then some v else get j d)
  get-put j k v [] = refl
  get-put j k v ((i, w) ∷ d) = ground (arith, get-put j k v d, ==_iff j k, ==_iff j i, ==_iff k i)

  pub get-put_self : (k : K) (v : V) (d : Dict K V) → get k (put k v d) ≡ some v
  get-put_self k v d = ground (arith, get-put k k v d, ==_iff k k)

  pub get-put_ne : (j k : K) (v : V) (d : Dict K V) → (j == k) ≡ false → get j (put k v d) ≡ get j d
  get-put_ne j k v d h = rw (get-put j k v d) (rw h)

-- The two tests of `contains k (a ∷ b ∷ [])`.
module _ {ℓ} {A : Type ℓ} ⦃e : Eq A⦄ where
  pub contains_none :
      (k a : A) (xs : List A)
      → contains k (a ∷ xs) ≡ false
      → ((k == a) ≡ false) × (contains k xs ≡ false)
  contains_none k a xs h = ground arith

module _ {ℓ} {K V : Type ℓ} ⦃e : Eq K⦄ where
  pub has_key-some : (k : K) (v : V) (d : Dict K V) → get k d ≡ some v → has_key k d ≡ true
  has_key-some k v d h = λ i. elim (h i) [ none ↦ false | some _ ↦ true ]
