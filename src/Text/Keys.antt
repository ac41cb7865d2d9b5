-- ===== src/Text/Keys.antt =====
-- Keys that `strings.Join` makes of several texts with a NUL between them compare as their parts do.
use Prim.Native.Nat.{Ordering, compare as compare_ℕ}
use Prim.Native.Char.{char, code}
use Prim.Native.String.{String, compare, then as and_then}
use text.Mathlib.TextEquality.{path_by_compare}
use text.Mathlib.TextPositions.{compare_refl}
use text.Mathlib.TextLemmas.{cons-append, nil-append}
use cervo_rules.Prelude.{
  Bool, false, ◌||◌, nat_beq, ◌≡◌, ap, ◌∙◌, refl, ◌&◌, arith, eq_iff, ◌==◌, if◌then◌else◌,
}
use cervo_rules.Text.{Text, text_less, nul_text}
use cervo_rules.Text.Order.{compare-cons, compare-nil-cons, compare-cons-nil}

abbrev pub has_nul : Text → Bool
has_nul String.[] = false
has_nul (String.◌∷◌ c s) = nat_beq (code c) 0 || has_nul s

-- No character is NUL.
abbrev pub HasNoNul : Text → Type 0
HasNoNul s = has_nul s ≡ false

then_assoc : (a b c : Ordering) → and_then a (and_then b c) ≡ and_then (and_then a b) c
then_assoc Ordering.lt b c = refl
then_assoc Ordering.eq b c = refl
then_assoc Ordering.gt b c = refl

-- The NUL and what follows it.
nul_then : Text → Text
nul_then s = String.◌∷◌ (char 0 tt) s

nul_text-append : (s : Text) → nul_text & s ≡ nul_then s
unfolding nul_then
nul_text-append s = cons-append (char 0 tt) String.[] s ∙ ap (String.◌∷◌ (char 0 tt)) (nil-append s)

compare-keyed :
    (x y s t : Text)
    → HasNoNul x
    → HasNoNul y
    → compare (x & nul_then s) (y & nul_then t) ≡ and_then (compare x y) (compare s t)
unfolding nul_then
compare-keyed String.[] String.[] s t h k =
    rw (nil-append, nil-append) (compare-cons (char 0 tt) (char 0 tt) s t)
compare-keyed String.[] (String.◌∷◌ d y) s t h k =
    let first : compare_ℕ 0 (code d) ≡ Ordering.lt = ground arith in
    rw (nil-append, cons-append, compare-cons, first, compare-nil-cons) refl
compare-keyed (String.◌∷◌ c x) String.[] s t h k =
    let first : compare_ℕ (code c) 0 ≡ Ordering.gt = ground arith in
    rw (nil-append, cons-append, compare-cons, first, compare-cons-nil) refl
compare-keyed (String.◌∷◌ c x) (String.◌∷◌ d y) s t h k =
    rw
      (
        cons-append,
        cons-append,
        compare-cons,
        compare-cons,
        compare-keyed x y s t (ground arith) (ground arith),
      )
      (then_assoc (compare_ℕ (code c) (code d)) (compare x y) (compare s t))

-- Two keys are ordered by their first parts, and by what follows where these are equal.
pub text_less-keyed :
    (x y s t : Text)
    → HasNoNul x
    → HasNoNul y
    → text_less (x & (nul_text & s)) (y & (nul_text & t))
      ≡ (if x == y then text_less s t else text_less x y)
unfolding text_less
text_less-keyed x y s t h k =
    let e = compare-keyed x y s t h k in
    rw (nul_text-append, nul_text-append, text_less, e)
      (ground (arith, eq_iff x y, path_by_compare x y, compare_refl x))
