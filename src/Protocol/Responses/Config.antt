-- ===== src/Protocol/Responses/Config.antt =====
-- protocol.py, parse_config_response: the active modules are exactly the slots with a letter.
use hass_dobiss_sx_evolution.Prelude.{
  All, Bool-cases, List, Option, Option-cases, Text, [], arith, if◌then◌else◌, inl, inr, leb,
  leb-ltb, length, length-take-le, ltb, nat_eqb, none, refl, some, suc, take, zero, ℕ, ◌&&◌, ◌+◌,
  ◌-◌, ◌<◌, ◌∷◌, ◌≡◌, ◌≤◌,
}
use hass_dobiss_sx_evolution.Protocol.Responses.{config_slots, parse_config_response, slot_letter}
use native.Mathlib.Nat.{zero-add}

-- The letter listed for slot `i`.
abbrev pub listed : ℕ → List (Text × ℕ) → Option Text
listed i [] = none
listed i ((letter, j) ∷ rest) = if nat_eqb i j then some letter else listed i rest

-- Slots are listed in increasing order, from `i` on and below `n`.
abbrev pub Ascends : ℕ → ℕ → List (Text × ℕ) → Type 0
Ascends i n [] = Unit
Ascends i n ((letter, j) ∷ rest) = (i ≤ j) × (j < n) × Ascends (suc j) n rest

Ascends-weaken : (i j n : ℕ) (l : List (Text × ℕ)) → i ≤ j → Ascends j n l → Ascends i n l
Ascends-weaken i j n [] h a = tt
Ascends-weaken i j n ((letter, k) ∷ rest) h a = (omega arith, a.1, a.2)

slot-Ascends :
    (i n : ℕ) (o : Option Text) (found : List (Text × ℕ))
    → i < n
    → Ascends (suc i) n found
    → Ascends i n (elim o [ none ↦ found | some letter ↦ (letter, i) ∷ found ])
slot-Ascends i n none found h a = Ascends-weaken i (suc i) n found (omega arith) a
slot-Ascends i n (some letter) found h a = (omega arith, h, a)

config_slots-Ascends :
    (i n : ℕ) (bytes : List ℕ) → i + length bytes ≤ n → Ascends i n (config_slots i bytes)
config_slots-Ascends i n [] h = tt
config_slots-Ascends i n (char ∷ rest) h =
    slot-Ascends i n (slot_letter char) (config_slots (suc i) rest) (omega arith)
      (config_slots-Ascends (suc i) n rest (omega arith))

-- An ASCII letter in upper case.
abbrev pub upper_letter : ℕ → Option Text
upper_letter char =
    if leb b'A' char && leb char b'Z'
    then some (char ∷ [])
    else if leb b'a' char && leb char b'z'
    then some ((char - 32) ∷ [])
    else none

slot_letter-upper_letter : (char : ℕ) → slot_letter char ≡ upper_letter char
slot_letter-upper_letter char = ground arith

-- The upper-case letter of the byte at place `k`, if that is an ASCII letter.
abbrev pub letter_at : List ℕ → ℕ → Option Text
letter_at [] k = none
letter_at (char ∷ rest) zero = upper_letter char
letter_at (char ∷ rest) (suc k) = letter_at rest k

listed-below : (i n k : ℕ) (l : List (Text × ℕ)) → Ascends i n l → k < i → listed k l ≡ none
listed-below i n k [] a h = refl
listed-below i n k ((letter, j) ∷ rest) a h = ground (arith, listed-below (suc j) n k rest a.2)

listed-config_slots :
    (i k : ℕ) (bytes : List ℕ) → listed (i + k) (config_slots i bytes) ≡ letter_at bytes k
listed-config_slots i k [] = refl
listed-config_slots i zero (char ∷ rest) = ground (
  arith,
  slot_letter-upper_letter char,
  listed-below (suc i) (suc i + length rest) (i + 0) (config_slots (suc i) rest)
      (config_slots-Ascends (suc i) (suc i + length rest) rest (omega arith)),
)
listed-config_slots i (suc k) (char ∷ rest) =
    let e : i + suc k ≡ suc i + k = omega arith in
    rw e (ground (arith, listed-config_slots (suc i) k rest))

listed_slots : (bytes : List ℕ) (k : ℕ) → listed k (config_slots 0 bytes) ≡ letter_at bytes k
listed_slots bytes k = rw zero-add at (listed-config_slots 0 k bytes)

-- For a response of at least 18 bytes the result lists, in increasing order and each once, slots
-- below 18, and what is listed for a slot k is the upper-case letter of its byte, or nothing if the
-- byte is no ASCII letter.
pub parse_config_response_lem :
    (bytes : List ℕ) (k : ℕ)
    → 18 ≤ length bytes
    → Ascends 0 18 (parse_config_response bytes)
      × (listed k (parse_config_response bytes) ≡ letter_at (take 18 bytes) k)
unfolding parse_config_response
parse_config_response_lem bytes k long = rw (leb-ltb (length bytes) 18 long) (
  config_slots-Ascends 0 18 (take 18 bytes) (omega (arith, length-take-le {0} 18 bytes)),
  listed_slots (take 18 bytes) k,
)

-- One upper-case ASCII letter.
abbrev pub IsModuleLetter : Text → Type 0
IsModuleLetter (c ∷ []) = (b'A' ≤ c) × (c ≤ b'Z')
IsModuleLetter _ = ⊥

slot_letter-IsModuleLetter :
    (char : ℕ) (letter : Text) → slot_letter char ≡ some letter → IsModuleLetter letter
slot_letter-IsModuleLetter char [] h = ground arith
slot_letter-IsModuleLetter char (c ∷ []) h = ground arith
slot_letter-IsModuleLetter char (c ∷ d ∷ s) h = ground arith

config_slots-letters :
    (i : ℕ) (bytes : List ℕ) → All (λ (p : Text × ℕ). IsModuleLetter p.0) (config_slots i bytes)
config_slots-letters i [] = tt
config_slots-letters i (char ∷ rest) = elim (Option-cases (slot_letter char)) [
  | inl e ↦ rw (e, All, config_slots) (config_slots-letters (suc i) rest)
  | inr (letter, e) ↦
      rw (e, All, config_slots)
        (slot_letter-IsModuleLetter char letter e, config_slots-letters (suc i) rest)
]

-- Every letter in the result is one upper-case ASCII letter.
pub parse_config_response_letters :
    (bytes : List ℕ) → All (λ (p : Text × ℕ). IsModuleLetter p.0) (parse_config_response bytes)
unfolding parse_config_response
parse_config_response_letters bytes = elim (Bool-cases (ltb (length bytes) 18)) [
  | inl e ↦ rw e tt
  | inr e ↦ rw e (config_slots-letters 0 (take 18 bytes))
]
