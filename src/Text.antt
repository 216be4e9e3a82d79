-- ===== src/Text.antt =====
-- Text as the list of its code points, and the part of Python's `str` that the services use:
-- `str.isspace`, `strip`, `lstrip`, `rstrip`.
pub mod Strip
pub mod Equality
use Prim.Native.Char.{code}
use Prim.Native.String
use ai_kaeyris.Prelude.{
  ℕ, String, Bool, true, false, ◌||◌, ◌&&◌, not, List, [], ◌∷◌, ltb, leb, ◌==◌, if◌then◌else◌,
  select, length, take,
}

abbrev pub Text : Type 0
Text = List ℕ

-- The code points of a literal.
abbrev pub codes : String → Text
codes String.[] = []
codes (String.◌∷◌ c s) = code c ∷ codes s

abbrev within : ℕ → ℕ → ℕ → Bool
within lo hi c = leb lo c && leb c hi

-- The whitespace of Python's `str.isspace`, which `strip` and the `\s` of `re` go by.
unfoldable pub is_space : ℕ → Bool
is_space c =
    within 9 13 c
    || within 28 32 c
    || c == 0x85
    || c == 0xa0
    || c == 0x1680
    || within 0x2000 0x200a c
    || within 0x2028 0x2029 c
    || c == 0x202f
    || c == 0x205f
    || c == 0x3000

unfoldable pub lstrip : Text → Text
lstrip [] = []
lstrip (c ∷ s) = let rest = lstrip s in if is_space c then rest else c ∷ s

abbrev rstrip_onto : ℕ → Text → Text
rstrip_onto c [] = if is_space c then [] else c ∷ []
rstrip_onto c (d ∷ s) = c ∷ d ∷ s

unfoldable pub rstrip : Text → Text
rstrip [] = []
rstrip (c ∷ s) = rstrip_onto c (rstrip s)

unfoldable pub strip : Text → Text
unfolding lstrip rstrip
strip s = rstrip (lstrip s)

-- The code points that are no whitespace.
abbrev pub solid : Text → Text
solid = select (λ c. not (is_space c))

-- `==` on texts.
unfoldable pub text_eq : Text → Text → Bool
text_eq [] [] = true
text_eq [] (d ∷ t) = false
text_eq (c ∷ s) [] = false
text_eq (c ∷ s) (d ∷ t) = let rest = text_eq s t in if c == d then rest else false

-- `s.startswith(prefix)`
unfoldable pub starts_with : Text → Text → Bool
unfolding text_eq
starts_with prefix s = text_eq (take (length prefix) s) prefix
