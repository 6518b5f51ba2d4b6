-- ===== src/Protocol/Responses/Names.antt =====
-- protocol.py, parse_output_name: what a name that is returned looks like, and the round trip.
use hass_dobiss_sx_evolution.Prelude.{
  All, All-append, Bool-cases, List, Text, [], ap, arith, false, get_elem?, inl, inr, is_space,
  keep, leb-ltb, length, length-append, length-keep-le, length-replicate, length-take-le, lstrip,
  ltb, nat_eqb, none, refl, replicate, some, strip, suc, take, zero, ℕ, ◌++◌, ◌+◌, ◌∷◌, ◌≡◌, ◌≢◌,
  ◌≤◌,
}
use hass_dobiss_sx_evolution.Protocol.Responses.{is_printable, or_none, parse_output_name}
use mathlib.Core.List.{reverse, reverse-append, reverse-reverse}

abbrev pub AllPrintable : Text → Type 0
AllPrintable = All (λ c. (0x20 ≤ c) × (c ≤ 0x7E))

-- The first character is no space.
abbrev pub StartsTight : Text → Type 0
StartsTight [] = Unit
StartsTight (c ∷ s) = is_space c ≡ false

lstrip-StartsTight : (s : Text) → StartsTight (lstrip s)
lstrip-StartsTight [] = tt
lstrip-StartsTight (c ∷ s) = elim (Bool-cases (is_space c)) [
  | inl e ↦ rw e (lstrip-StartsTight s)
  | inr e ↦ rw e e
]

lstrip-AllPrintable : (s : Text) → AllPrintable s → AllPrintable (lstrip s)
lstrip-AllPrintable [] h = tt
lstrip-AllPrintable (c ∷ s) h = elim (Bool-cases (is_space c)) [
  | inl e ↦ rw e (lstrip-AllPrintable s h.1)
  | inr e ↦ rw e h
]

length-lstrip-le : (s : Text) → length (lstrip s) ≤ length s
length-lstrip-le [] = omega arith
length-lstrip-le (c ∷ s) = ground (arith, length-lstrip-le s)

reverse-AllPrintable : (s : Text) → AllPrintable s → AllPrintable (reverse s)
reverse-AllPrintable [] h = tt
reverse-AllPrintable (c ∷ s) h = rw (reverse-append (c ∷ []) s) (
    All-append (λ c. (0x20 ≤ c) × (c ≤ 0x7E)) (reverse s) (c ∷ []) (reverse-AllPrintable s h.1)
      (h.0, tt))

length-reverse : (s : Text) → length (reverse s) ≡ length s
length-reverse [] = refl
length-reverse (c ∷ s) =
    rw (reverse-append (c ∷ []) s)
      (omega (arith, length-append (reverse s) (c ∷ []), length-reverse s))

keep-AllPrintable : (s : List ℕ) → AllPrintable (keep is_printable s)
keep-AllPrintable [] = tt
keep-AllPrintable (c ∷ s) = ground (arith, keep-AllPrintable s)

strip-AllPrintable : (s : Text) → AllPrintable s → AllPrintable (strip s)
unfolding strip
strip-AllPrintable s h =
    reverse-AllPrintable _
      (lstrip-AllPrintable _ (reverse-AllPrintable _ (lstrip-AllPrintable s h)))

length-strip-le : (s : Text) → length (strip s) ≤ length s
unfolding strip
length-strip-le s = omega (
  arith,
  length-reverse (lstrip (reverse (lstrip s))),
  length-lstrip-le (reverse (lstrip s)),
  length-reverse (lstrip s),
  length-lstrip-le s,
)

lstrip-append_tight :
    (s : Text) (c : ℕ) → is_space c ≡ false → lstrip (s ++ c ∷ []) ≡ lstrip s ++ c ∷ []
lstrip-append_tight [] c h = rw h
lstrip-append_tight (d ∷ s) c h = ground (arith, lstrip-append_tight s c h)

-- The first character stays when the spaces at the end go.
rstrip_tight : (s : Text) → StartsTight s → StartsTight (reverse (lstrip (reverse s)))
rstrip_tight [] h = tt
rstrip_tight (c ∷ s) h =
    rw (reverse-append (c ∷ []) s) (
      rw (lstrip-append_tight (reverse s) c h)
        (rw (reverse-append (lstrip (reverse s)) (c ∷ [])) h))

strip-StartsTight : (s : Text) → StartsTight (strip s)
unfolding strip
strip-StartsTight s = rstrip_tight (lstrip s) (lstrip-StartsTight s)

strip-EndsTight : (s : Text) → StartsTight (reverse (strip s))
unfolding strip
strip-EndsTight s = rw reverse-reverse (lstrip-StartsTight (reverse (lstrip s)))

or_none-some : (s name : Text) → or_none s ≡ some name → (s ≡ name) × (1 ≤ length name)
or_none-some [] name h = cc
or_none-some (c ∷ s) name h = ground arith

abbrev second : List ℕ → ℕ
second bytes = elim (get_elem? bytes 1) [ none ↦ 0 | some b ↦ b ]

parse_output_name-inv :
    (bytes : List ℕ) (name : Text)
    → parse_output_name bytes ≡ some name
    → (32 ≤ length bytes)
      × (get_elem? bytes 1 ≢ some 0xFF)
      × (strip (keep is_printable (take 31 bytes)) ≡ name)
      × (1 ≤ length name)
unfolding parse_output_name
parse_output_name-inv bytes name h = elim (Bool-cases (ltb (length bytes) 32)) [
  | inl short ↦ absurd (cc (rw short at h))
  | inr long ↦ elim (Bool-cases (nat_eqb (second bytes) 0xFF)) [
    | inl unset ↦ absurd (cc (rw unset at (rw long at h)))
    | inr named ↦
        let found = or_none-some _ name (rw named at (rw long at h)) in
        (
          ground arith,
          λ e. cc (ap (λ o. nat_eqb (elim o [ none ↦ 0 | some b ↦ b ]) 0xFF) e),
          found.0,
          found.1,
        )
  ]
]

-- A name that is returned has 1 to 31 characters, all of them printable ASCII, and neither begins
-- nor ends with white space; it comes only from a response of 32 bytes or more whose second byte is
-- not 0xFF.
pub parse_output_name-IsName :
    (bytes : List ℕ) (name : Text)
    → parse_output_name bytes ≡ some name
    → (1 ≤ length name)
      × (length name ≤ 31)
      × AllPrintable name
      × StartsTight name
      × StartsTight (reverse name)
      × (32 ≤ length bytes)
      × (get_elem? bytes 1 ≢ some 0xFF)
parse_output_name-IsName bytes name h =
    let (long, named, e, nonempty) = parse_output_name-inv bytes name h in
    let raw = take 31 bytes in
    (
      nonempty,
      rw (← e) (
          omega (
            arith,
            length-strip-le (keep is_printable raw),
            length-keep-le {0} is_printable raw,
            length-take-le {0} 31 bytes,
          )),
      rw (← e) (strip-AllPrintable _ (keep-AllPrintable raw)),
      rw (← e) (strip-StartsTight (keep is_printable raw)),
      rw (← e) (strip-EndsTight (keep is_printable raw)),
      long,
      named,
    )

lstrip_tight : (s : Text) → StartsTight s → lstrip s ≡ s
lstrip_tight [] h = refl
lstrip_tight (c ∷ s) h = rw h

strip_tight : (s : Text) → StartsTight s → StartsTight (reverse s) → strip s ≡ s
unfolding strip
strip_tight s h k = rw (lstrip_tight s h) (rw (lstrip_tight (reverse s) k) (reverse-reverse s))

keep-padding : (k n : ℕ) → keep is_printable (take k (replicate n 0)) ≡ []
keep-padding zero n = refl
keep-padding (suc k) zero = refl
keep-padding (suc k) (suc n) = keep-padding k n

keep-padded :
    (k n : ℕ) (name : Text)
    → AllPrintable name
    → length name ≤ k
    → keep is_printable (take k (name ++ replicate n 0)) ≡ name
keep-padded k n [] h l = keep-padding k n
keep-padded zero n (c ∷ s) h l = absurd (omega arith)
keep-padded (suc k) n (c ∷ s) h l = ground (arith, keep-padded k n s h.1)

second_byte :
    (name : Text) (n : ℕ)
    → AllPrintable name
    → nat_eqb (elim (get_elem? (name ++ replicate n 0) 1) [ none ↦ 0 | some b ↦ b ]) 0xFF ≡ false
second_byte [] zero h = refl
second_byte [] (suc zero) h = refl
second_byte [] (suc (suc n)) h = refl
second_byte (c ∷ []) zero h = refl
second_byte (c ∷ []) (suc n) h = refl
second_byte (c ∷ d ∷ s) n h = ground arith

-- A name of 1 to 31 printable ASCII characters that neither begins nor ends with a space is read
-- back from a record in which zeros follow it up to 32 bytes or more.
pub parse_output_name_padded :
    (name : Text) (n : ℕ)
    → AllPrintable name
    → StartsTight name
    → StartsTight (reverse name)
    → 1 ≤ length name
    → length name ≤ 31
    → 32 ≤ length name + n
    → parse_output_name (name ++ replicate n 0) ≡ some name
unfolding parse_output_name
parse_output_name_padded [] n h st et l1 l31 l32 = absurd (omega arith)
parse_output_name_padded (c ∷ s) n h st et l1 l31 l32 =
    rw
      (leb-ltb (length ((c ∷ s) ++ replicate n 0)) 32 (
        omega (arith, length-append {0} (c ∷ s) (replicate n 0), length-replicate {0} {A = ℕ} n 0)))
      (rw (second_byte (c ∷ s) n h)
        (rw (keep-padded 31 n (c ∷ s) h l31) (rw (strip_tight (c ∷ s) st et))))
