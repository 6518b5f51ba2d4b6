-- ===== src/Prelude/Eqs.antt =====
-- Equality as an interface: numbers, integers, texts and pairs are compared by `==`.
use Prim.Native.Nat.{ℕ}
use Prim.Native.Char.{code}
use Prim.Native.String.{String}
use mathlib.Core.Path.{◌≡◌, refl}
use mathlib.Core.Logic.{◌↔◌}
use mathlib.Core.Bool.{Bool, true, false, ◌&&◌}
use mathlib.Core.List.{List, [], ◌∷◌}
use mathlib.Core.Option.{Option, none, some}
use native.Mathlib.Omega.{arith}
use hass_dobiss_sx_evolution.Prelude.Tests.{nat_eqb, nat_eqb_iff}
use hass_dobiss_sx_evolution.Prelude.Int.{ℤ, int_eqb, int_eqb_iff}

-- A test of equality, and that it is right.
pub record Eq {ℓ} (K : Type ℓ) : Type ℓ where
  pub is_equal : K → K → Bool
  pub is_equal_iff : (x y : K) → (is_equal x y ≡ true) ↔ (x ≡ y)

module _ {ℓ} {K : Type ℓ} ⦃inst : Eq K⦄ where
  infix 50 ◌==◌
  abbrev pub ◌==◌ : K → K → Bool
  x == y = inst.is_equal x y

  pub ==_iff : (x y : K) → ((x == y) ≡ true) ↔ (x ≡ y)
  ==_iff x y = inst.is_equal_iff x y

  pub ==_refl : (x : K) → (x == x) ≡ true
  ==_refl x = (==_iff x x).1 refl

instance abbrev pub nat_eq : Eq ℕ
nat_eq = record { is_equal = nat_eqb; is_equal_iff = nat_eqb_iff }

instance abbrev pub int_eq : Eq ℤ
int_eq = record { is_equal = int_eqb; is_equal_iff = int_eqb_iff }

-- A Python `str` as its code points, a `bytes` as its bytes.
abbrev pub Text : Type 0
Text = List ℕ

abbrev pub codes : String → Text
codes String.[] = []
codes (String.◌∷◌ c s) = code c ∷ codes s

abbrev pub list_eqb : List ℕ → List ℕ → Bool
list_eqb [] [] = true
list_eqb (a ∷ s) (b ∷ t) = nat_eqb a b && list_eqb s t
list_eqb [] (b ∷ t) = false
list_eqb (a ∷ s) [] = false

pub list_eqb_iff : (s t : List ℕ) → (list_eqb s t ≡ true) ↔ (s ≡ t)
list_eqb_iff [] [] = ground arith
list_eqb_iff (a ∷ s) [] = ground arith
list_eqb_iff [] (b ∷ t) = ground arith
list_eqb_iff (a ∷ s) (b ∷ t) = ground (arith, list_eqb_iff s t)

instance abbrev pub text_eq : Eq Text
text_eq = record { is_equal = list_eqb; is_equal_iff = list_eqb_iff }

module _ {ℓ} {A B : Type ℓ} ⦃ea : Eq A⦄ ⦃eb : Eq B⦄ where
  abbrev pub pair_eqb : A × B → A × B → Bool
  pair_eqb (a, b) (c, d) = a == c && b == d

  pub pair_eqb_iff : (p q : A × B) → (pair_eqb p q ≡ true) ↔ (p ≡ q)
  pair_eqb_iff (a, b) (c, d) = ground (arith, ==_iff a c, ==_iff b d)

  instance abbrev pub pair_eq : Eq (A × B)
  pair_eq = record { is_equal = pair_eqb; is_equal_iff = pair_eqb_iff }

abbrev pub bool_eqb : Bool → Bool → Bool
bool_eqb true b = b
bool_eqb false true = false
bool_eqb false false = true

pub bool_eqb_iff : (a b : Bool) → (bool_eqb a b ≡ true) ↔ (a ≡ b)
bool_eqb_iff true b = ground arith
bool_eqb_iff false true = ground arith
bool_eqb_iff false false = ground arith

instance abbrev pub bool_eq : Eq Bool
bool_eq = record { is_equal = bool_eqb; is_equal_iff = bool_eqb_iff }

module _ {ℓ} {A : Type ℓ} ⦃e : Eq A⦄ where
  abbrev pub option_eqb : Option A → Option A → Bool
  option_eqb none none = true
  option_eqb none (some b) = false
  option_eqb (some a) none = false
  option_eqb (some a) (some b) = a == b

  pub option_eqb_iff : (a b : Option A) → (option_eqb a b ≡ true) ↔ (a ≡ b)
  option_eqb_iff none none = ground arith
  option_eqb_iff none (some b) = ground arith
  option_eqb_iff (some a) none = ground arith
  option_eqb_iff (some a) (some b) = ground (arith, ==_iff a b)

  instance abbrev pub option_eq : Eq (Option A)
  option_eq = record { is_equal = option_eqb; is_equal_iff = option_eqb_iff }
