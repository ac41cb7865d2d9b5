-- ===== src/Text/Normal.antt =====
-- `normalize` is idempotent, so code that normalizes a name again leaves it as it is.
use Prim.Native.Char.{Char, char, code}
use Prim.Native.String.{String}
use native.Mathlib.Decide.{dec_le}
use mathlib.Core.Logic.{dif_pos, dif_neg}
use native.Mathlib.Bridge.{le_prop}
use text.Mathlib.TextEquality.{Char-path}
use cervo_rules.Prelude.{
  ℕ, ◌+◌, ◌≡◌, refl, ap, ◌∙◌, false, arith, leb, ◌&&◌, if◌then◌else◌, inl, inr, Bool-cases,
}
use cervo_rules.Text.{
  Text, is_space, lower_char, lower, trim_left, cons_trimmed, trim_right, trim_space, normalize,
}

-- What `lower_char` does to the number of a character.
abbrev lower_code : ℕ → ℕ
lower_code n = if leb 65 n && leb n 90 then n + 32 else n

code-lower_char : (c : Char) → code (lower_char c) ≡ lower_code (code c)
unfolding lower_char
code-lower_char (char n p) = elim (dec_le 65 n) [
  | no h ↦ rw (dif_neg, h) (ground arith)
  | yes h ↦ rw (dif_pos _ le_prop h) (elim (dec_le n 90) [
    | no k ↦ rw (dif_neg, k) (ground arith)
    | yes k ↦ rw (dif_pos _ le_prop k) (ground arith)
  ])
]

lower_char-lower_char : (c : Char) → lower_char (lower_char c) ≡ lower_char c
lower_char-lower_char c =
    Char-path _ _ (ground (arith, code-lower_char c, code-lower_char (lower_char c)))

is_space-lower_char : (c : Char) → is_space (lower_char c) ≡ is_space c
unfolding is_space lower_char
is_space-lower_char (char n p) = ground arith

lower-lower : (s : Text) → lower (lower s) ≡ lower s
unfolding lower
lower-lower String.[] = refl
lower-lower (String.◌∷◌ c s) = cc (lower_char-lower_char c, lower-lower s)

trim_left-lower : (s : Text) → trim_left (lower s) ≡ lower (trim_left s)
unfolding lower trim_left
trim_left-lower String.[] = refl
trim_left-lower (String.◌∷◌ c s) = elim (Bool-cases (is_space c)) [
  | inl e ↦ rw (is_space-lower_char, e) (trim_left-lower s)
  | inr e ↦ rw (is_space-lower_char, e)
]

cons_trimmed-lower :
    (c : Char) (s : Text) → cons_trimmed (lower_char c) (lower s) ≡ lower (cons_trimmed c s)
unfolding cons_trimmed lower
cons_trimmed-lower c String.[] = elim (Bool-cases (is_space c)) [
  | inl e ↦ rw (is_space-lower_char, e)
  | inr e ↦ rw (is_space-lower_char, e)
]
cons_trimmed-lower c (String.◌∷◌ d s) = refl

trim_right-lower : (s : Text) → trim_right (lower s) ≡ lower (trim_right s)
unfolding trim_right lower
trim_right-lower String.[] = refl
trim_right-lower (String.◌∷◌ c s) =
    ap (cons_trimmed (lower_char c)) (trim_right-lower s) ∙ cons_trimmed-lower c (trim_right s)

-- A text that starts with no space.
abbrev StartsClean : Text → Type 0
StartsClean String.[] = Unit
StartsClean (String.◌∷◌ c s) = is_space c ≡ false

trim_left-StartsClean : (s : Text) → StartsClean (trim_left s)
unfolding trim_left
trim_left-StartsClean String.[] = tt
trim_left-StartsClean (String.◌∷◌ c s) = elim (Bool-cases (is_space c)) [
  | inl e ↦ rw e (trim_left-StartsClean s)
  | inr e ↦ rw e e
]

trim_left_of_StartsClean : (s : Text) → StartsClean s → trim_left s ≡ s
unfolding trim_left
trim_left_of_StartsClean String.[] h = refl
trim_left_of_StartsClean (String.◌∷◌ c s) h = rw h

trim_right-cons_trimmed :
    (c : Char) (s : Text) → trim_right s ≡ s → trim_right (cons_trimmed c s) ≡ cons_trimmed c s
unfolding trim_right cons_trimmed
trim_right-cons_trimmed c String.[] h = elim (Bool-cases (is_space c)) [
  | inl e ↦ rw (e, trim_right)
  | inr e ↦ rw (e, trim_right, e)
]
trim_right-cons_trimmed c (String.◌∷◌ d s) h = rw (h, cons_trimmed)

trim_right-trim_right : (s : Text) → trim_right (trim_right s) ≡ trim_right s
unfolding trim_right
trim_right-trim_right String.[] = refl
trim_right-trim_right (String.◌∷◌ c s) =
    trim_right-cons_trimmed c (trim_right s) (trim_right-trim_right s)

cons_trimmed-StartsClean :
    (c : Char) (s : Text) → is_space c ≡ false → StartsClean (cons_trimmed c s)
unfolding cons_trimmed
cons_trimmed-StartsClean c String.[] h = rw h h
cons_trimmed-StartsClean c (String.◌∷◌ d s) h = h

trim_right-StartsClean : (s : Text) → StartsClean s → StartsClean (trim_right s)
unfolding trim_right
trim_right-StartsClean String.[] h = tt
trim_right-StartsClean (String.◌∷◌ c s) h = cons_trimmed-StartsClean c (trim_right s) h

trim_space-StartsClean : (s : Text) → StartsClean (trim_space s)
unfolding trim_space
trim_space-StartsClean s = trim_right-StartsClean (trim_left s) (trim_left-StartsClean s)

pub trim_space-trim_space : (s : Text) → trim_space (trim_space s) ≡ trim_space s
unfolding trim_space
trim_space-trim_space s =
    ap trim_right (trim_left_of_StartsClean (trim_right (trim_left s)) (trim_space-StartsClean s))
    ∙ trim_right-trim_right (trim_left s)

trim_space-lower : (s : Text) → trim_space (lower s) ≡ lower (trim_space s)
unfolding trim_space
trim_space-lower s = ap trim_right (trim_left-lower s) ∙ trim_right-lower (trim_left s)

pub normalize-normalize : (s : Text) → normalize (normalize s) ≡ normalize s
unfolding normalize
normalize-normalize s =
    ap lower (trim_space-lower (trim_space s) ∙ ap lower (trim_space-trim_space s))
    ∙ lower-lower (trim_space s)
