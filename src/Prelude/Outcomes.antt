-- ===== src/Prelude/Outcomes.antt =====
-- A call that may raise: its value, or the class of the Python exception.
use mathlib.Core.Path.{◌≡◌}
use mathlib.Core.Bool.{Bool, true, false}

pub data Exn : Type 0 where
  value_error runtime_error cancelled_error : Exn
  -- what python-can, pyserial and the socket layer raise
  bus_error serial_error os_error timeout_error incomplete_read_error : Exn
  connection_error : Exn
  -- what the integration raises to Home Assistant
  home_assistant_error service_validation_error config_entry_not_ready update_failed : Exn

pub data Result {ℓ} (A : Type ℓ) : Type ℓ where
  ok : A → Result A
  raised : Exn → Result A

infixl 5 ◌>>=◌ ◌>>◌
abbrev pub ◌>>=◌ {ℓ κ} : {A : Type ℓ} {B : Type κ} → Result A → (A → Result B) → Result B
ok a >>= f = f a
raised e >>= f = raised e

abbrev pub ◌>>◌ {ℓ} : {B : Type ℓ} → Result (Unit {0}) → Result B → Result B
m >> k = m >>= λ _. k

-- if not condition: raise e
abbrev pub ensure : Bool → Exn → Result (Unit {0})
ensure true e = ok tt
ensure false e = raised e

module _ {ℓ} {A : Type ℓ} where
  pub ok-injective : {a b : A} → ok a ≡ ok b → a ≡ b
  ok-injective e = cc

  pub raised-ne-ok : {e : Exn} {a : A} → raised e ≡ ok a → ⊥
  raised-ne-ok h = cc
