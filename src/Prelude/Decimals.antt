-- ===== src/Prelude/Decimals.antt =====
-- str(n) of a Python integer, in decimal digits.
use Prim.Native.Nat.{ℕ, zero, suc, ◌+◌, ◌*◌, ◌/◌, ◌%◌, ◌<◌, ◌-◌}
use mathlib.Core.Path.{◌≡◌, ap, ◌∙◌, sym}
use mathlib.Core.List.{[], ◌∷◌, ◌++◌, foldl, foldl-append}
use native.Mathlib.Omega.{arith}
use hass_dobiss_sx_evolution.Prelude.Tests.{ltb, if◌then◌else◌, Bool-cases}
use hass_dobiss_sx_evolution.Prelude.Int.{ℤ, pos, negsuc}
use hass_dobiss_sx_evolution.Prelude.Eqs.{Text}
use mathlib.Core.Logic.{inl, inr}

-- The digits of `n`, with fuel above `n`.
digits : ℕ → ℕ → Text
digits zero n = []
digits (suc fuel) n =
    let rest = digits fuel (n / 10) ++ (n % 10 + b'0') ∷ [] in
    if ltb n 10 then (n + b'0') ∷ [] else rest

unfoldable pub str_nat : ℕ → Text
unfolding digits
str_nat n = digits (suc n) n

unfoldable pub str_int : ℤ → Text
unfolding str_nat
str_int (pos n) = str_nat n
str_int (negsuc n) = b'-' ∷ str_nat (suc n)

-- The number that digits stand for.
abbrev read_digit : ℕ → ℕ → ℕ
read_digit acc c = acc * 10 + (c - b'0')

pub read_nat : Text → ℕ
read_nat = foldl read_digit 0

read_nat-append : (s : Text) (c : ℕ) → read_nat (s ++ c ∷ []) ≡ read_nat s * 10 + (c - b'0')
unfolding read_nat
read_nat-append s c = rw foldl-append

read_nat-digits : (fuel n : ℕ) → n < fuel → read_nat (digits fuel n) ≡ n
unfolding digits
read_nat-digits zero n h = absurd (omega arith)
read_nat-digits (suc fuel) n h = elim (Bool-cases (ltb n 10)) [
  | inl e ↦ rw e (unfold read_nat in omega arith)
  | inr e ↦ rw e (rw read_nat-append (ground (arith, read_nat-digits fuel (n / 10))))
]

pub read_nat-str_nat : (n : ℕ) → read_nat (str_nat n) ≡ n
unfolding str_nat
read_nat-str_nat n = read_nat-digits (suc n) n (omega arith)

-- Different numbers have different texts.
pub str_nat_injective : (m n : ℕ) → str_nat m ≡ str_nat n → m ≡ n
str_nat_injective m n e = sym (read_nat-str_nat m) ∙ ap read_nat e ∙ read_nat-str_nat n
