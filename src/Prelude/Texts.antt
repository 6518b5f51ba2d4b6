-- ===== src/Prelude/Texts.antt =====
-- What the source uses of Python's `str` methods, on code points.
use Prim.Native.Nat.{ℕ, ◌-◌}
use mathlib.Core.Bool.{Bool, ◌&&◌, ◌||◌}
use mathlib.Core.List.{[], ◌∷◌, reverse}
use hass_dobiss_sx_evolution.Prelude.Tests.{leb, nat_eqb, if◌then◌else◌}
use hass_dobiss_sx_evolution.Prelude.Eqs.{Text}

-- c.isspace()
abbrev pub is_space : ℕ → Bool
is_space c =
    (leb 9 c && leb c 13)
    || ((leb 28 c && leb c 32)
        || (nat_eqb c 133
            || (nat_eqb c 160
                || (nat_eqb c 5760
                    || ((leb 8192 c && leb c 8202)
                        || (nat_eqb c 8232
                            || (nat_eqb c 8233
                                || (nat_eqb c 8239 || (nat_eqb c 8287 || nat_eqb c 12288)))))))))

abbrev pub lstrip : Text → Text
lstrip [] = []
lstrip (c ∷ s) = let rest = lstrip s in if is_space c then rest else c ∷ s

-- s.strip()
unfoldable pub strip : Text → Text
strip s = reverse (lstrip (reverse (lstrip s)))

-- c.isascii() and c.isalpha()
abbrev pub is_ascii_alpha : ℕ → Bool
is_ascii_alpha c = (leb b'A' c && leb c b'Z') || (leb b'a' c && leb c b'z')

-- c.upper(), of an ASCII character
abbrev pub ascii_upper : ℕ → ℕ
ascii_upper c = if leb b'a' c && leb c b'z' then c - 32 else c
