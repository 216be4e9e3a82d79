-- ===== src/Text/Strip.antt =====
-- Lemmas on the stripping of texts.
use ai_kaeyris.Prelude.{
  ℕ, suc, ◌≤◌, ◌<◌, ◌≡◌, refl, ◌∙◌, false, [], ◌∷◌, length, arith, Bool-cases, inl, inr,
}
use ai_kaeyris.Text.{Text, is_space, lstrip, rstrip, rstrip_onto, strip, solid}

pub solid-lstrip : (s : Text) → solid (lstrip s) ≡ solid s
unfolding lstrip
solid-lstrip [] = refl
solid-lstrip (c ∷ s) = ground (arith, solid-lstrip s)

solid-rstrip_onto : (c : ℕ) (s : Text) → solid (rstrip_onto c s) ≡ solid (c ∷ s)
solid-rstrip_onto c [] = ground arith
solid-rstrip_onto c (d ∷ s) = refl

pub solid-rstrip : (s : Text) → solid (rstrip s) ≡ solid s
unfolding rstrip
solid-rstrip [] = refl
solid-rstrip (c ∷ s) = solid-rstrip_onto c (rstrip s) ∙ ground (arith, solid-rstrip s)

pub solid-strip : (s : Text) → solid (strip s) ≡ solid s
solid-strip s = unfold strip in (solid-rstrip (lstrip s) ∙ solid-lstrip s)

pub length-lstrip-le : (s : Text) → length (lstrip s) ≤ length s
unfolding lstrip
length-lstrip-le [] = omega arith
length-lstrip-le (c ∷ s) = ground (arith, length-lstrip-le s)

length-rstrip_onto-le : (c : ℕ) (s : Text) → length (rstrip_onto c s) ≤ suc (length s)
length-rstrip_onto-le c [] = ground arith
length-rstrip_onto-le c (d ∷ s) = omega arith

pub length-rstrip-le : (s : Text) → length (rstrip s) ≤ length s
unfolding rstrip
length-rstrip-le [] = omega arith
length-rstrip-le (c ∷ s) = omega (arith, length-rstrip_onto-le c (rstrip s), length-rstrip-le s)

pub length-strip-le : (s : Text) → length (strip s) ≤ length s
unfolding strip
length-strip-le s = omega (arith, length-rstrip-le (lstrip s), length-lstrip-le s)

-- A text has no whitespace at its front.
abbrev pub IsTrimmed : Text → Type 0
IsTrimmed [] = Unit
IsTrimmed (c ∷ s) = is_space c ≡ false

pub lstrip-IsTrimmed : (s : Text) → IsTrimmed (lstrip s)
unfolding lstrip
lstrip-IsTrimmed [] = tt
lstrip-IsTrimmed (c ∷ s) = elim (Bool-cases (is_space c)) [
  | inl e ↦ rw e (lstrip-IsTrimmed s)
  | inr e ↦ rw e e
]

pub lstrip_of_IsTrimmed : (s : Text) → IsTrimmed s → lstrip s ≡ s
unfolding lstrip
lstrip_of_IsTrimmed [] h = refl
lstrip_of_IsTrimmed (c ∷ s) h = rw h

rstrip_onto-IsTrimmed : (c : ℕ) (s : Text) → is_space c ≡ false → IsTrimmed (rstrip_onto c s)
rstrip_onto-IsTrimmed c [] h = rw h h
rstrip_onto-IsTrimmed c (d ∷ s) h = h

pub rstrip-IsTrimmed : (s : Text) → IsTrimmed s → IsTrimmed (rstrip s)
unfolding rstrip
rstrip-IsTrimmed [] h = tt
rstrip-IsTrimmed (c ∷ s) h = rstrip_onto-IsTrimmed c (rstrip s) h

pub strip-IsTrimmed : (s : Text) → IsTrimmed (strip s)
unfolding strip
strip-IsTrimmed s = rstrip-IsTrimmed (lstrip s) (lstrip-IsTrimmed s)

rstrip-rstrip_onto : (c : ℕ) (s : Text) → rstrip s ≡ s → rstrip (rstrip_onto c s) ≡ rstrip_onto c s
unfolding rstrip
rstrip-rstrip_onto c [] h = ground arith
rstrip-rstrip_onto c (d ∷ s) h = rw h

pub rstrip-rstrip : (s : Text) → rstrip (rstrip s) ≡ rstrip s
unfolding rstrip
rstrip-rstrip [] = refl
rstrip-rstrip (c ∷ s) = rstrip-rstrip_onto c (rstrip s) (rstrip-rstrip s)

-- Stripping twice is stripping once.
pub strip-strip : (s : Text) → strip (strip s) ≡ strip s
unfolding strip
strip-strip s =
    rw (lstrip_of_IsTrimmed _ (rstrip-IsTrimmed (lstrip s) (lstrip-IsTrimmed s)))
      (rstrip-rstrip (lstrip s))

-- A trimmed text that is not empty keeps its first code point.
pub strip-ne-nil : (c : ℕ) (s : Text) → is_space c ≡ false → 0 < length (strip (c ∷ s))
unfolding strip lstrip rstrip
strip-ne-nil c s h = rw h (keeps c (rstrip s) h)
  where
    keeps : (c : ℕ) (s : Text) → is_space c ≡ false → 0 < length (rstrip_onto c s)
    keeps c [] h = rw h (omega arith)
    keeps c (d ∷ s) h = omega arith
