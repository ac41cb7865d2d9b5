-- ===== src/Text/Order.antt =====
-- `<` on Go strings is a strict total order.
use Prim.Native.Nat.{Ordering, compare as compare_ℕ}
use Prim.Native.Char.{Char, code}
use Prim.Native.String.{String, compare, then as and_then}
use Prim.Native.String.compare as clause
use text.Mathlib.TextEquality.{path_by_compare}
use text.Mathlib.TextPositions.{compare_refl}
use mathlib.Core.HLevel.{hedberg}
use cervo_rules.Prelude.{
  ◌≡◌, refl, Bool, true, false, arith, inl, inr, eq_iff, ◌==◌, Bool-cases, if◌then◌else◌,
}
use cervo_rules.Prelude.Sort.{IsWeakOrder, IsConnected}
use cervo_rules.Text.{Text, text_less}

pub Text-discrete : Discrete Text
Text-discrete a b = elim (Bool-cases (a == b)) [
  | inl e ↦ yes ((eq_iff a b).0 e)
  | inr e ↦ no (λ h. cc ((eq_iff a b).1 h))
]

pub Text-set : IsSet Text
Text-set = hedberg Text-discrete

abbrev flip : Ordering → Ordering
flip Ordering.lt = Ordering.gt
flip Ordering.eq = Ordering.eq
flip Ordering.gt = Ordering.lt

pub compare-cons :
    (c d : Char) (s t : Text)
    → compare (String.◌∷◌ c s) (String.◌∷◌ d t)
      ≡ and_then (compare_ℕ (code c) (code d)) (compare s t)
compare-cons c d s t = λ i. clause.cons-cons c d s t i

pub compare-nil-cons : (d : Char) (t : Text) → compare String.[] (String.◌∷◌ d t) ≡ Ordering.lt
compare-nil-cons d t = λ i. clause.nil-cons d t i

pub compare-cons-nil : (c : Char) (s : Text) → compare (String.◌∷◌ c s) String.[] ≡ Ordering.gt
compare-cons-nil c s = λ i. clause.cons-nil c s i

compare-flip : (s t : Text) → compare s t ≡ flip (compare t s)
compare-flip String.[] String.[] = refl
compare-flip String.[] (String.◌∷◌ d t) = rw (compare-nil-cons, compare-cons-nil)
compare-flip (String.◌∷◌ c s) String.[] = rw (compare-nil-cons, compare-cons-nil)
compare-flip (String.◌∷◌ c s) (String.◌∷◌ d t) =
    ground (arith, compare-flip s t, compare-cons c d s t, compare-cons d c t s)

compare_trans :
    (s t u : Text)
    → compare s t ≡ Ordering.lt
    → compare t u ≡ Ordering.lt
    → compare s u ≡ Ordering.lt
compare_trans String.[] String.[] u h k = k
compare_trans String.[] (String.◌∷◌ d t) String.[] h k = cc (compare-cons-nil d t)
compare_trans String.[] (String.◌∷◌ d t) (String.◌∷◌ e u) h k = compare-nil-cons e u
compare_trans (String.◌∷◌ c s) String.[] u h k = cc (compare-cons-nil c s)
compare_trans (String.◌∷◌ c s) (String.◌∷◌ d t) String.[] h k = cc (compare-cons-nil d t)
compare_trans (String.◌∷◌ c s) (String.◌∷◌ d t) (String.◌∷◌ e u) h k = ground (
  arith,
  compare-cons c d s t,
  compare-cons d e t u,
  compare-cons c e s u,
  compare_trans s t u,
  path_by_compare s t,
  path_by_compare t u,
  compare_refl s,
)

pub text_less-IsConnected : IsConnected text_less
unfolding text_less
text_less-IsConnected a b h k = ground (arith, compare-flip a b, path_by_compare a b)

pub text_less_irrefl : (a : Text) → text_less a a ≡ false
unfolding text_less
text_less_irrefl a = ground (arith, compare_refl a)

text_less_asym : (a b : Text) → text_less a b ≡ true → text_less b a ≡ false
unfolding text_less
text_less_asym a b h = ground (arith, compare-flip a b)

text_less_trans :
    (a b c : Text) → text_less a b ≡ true → text_less b c ≡ true → text_less a c ≡ true
unfolding text_less
text_less_trans a b c h k = ground (arith, compare_trans a b c)

text_less_neg_trans :
    (a b c : Text) → text_less a b ≡ false → text_less b c ≡ false → text_less a c ≡ false
text_less_neg_trans a b c h k = elim (Bool-cases (text_less a c)) [
  | inr no_less ↦ no_less
  | inl ac ↦ elim (Bool-cases (text_less c b)) [
    | inl cb ↦ cc (text_less_trans a c b ac cb)
    | inr bc ↦ cc (text_less-IsConnected b c k bc)
  ]
]

pub text_less-IsWeakOrder : IsWeakOrder text_less
text_less-IsWeakOrder = record {
  asym = text_less_asym;
  trans = text_less_trans;
  neg_trans = text_less_neg_trans;
}

-- The comparison that a `sort.Slice` over records writes out: by one name, and where two items agree
-- on it by the rest.
module _ {ℓ} {A : Type ℓ} (name : A → Text) where
  unfoldable pub by_name : A → A → Bool
  by_name a b = text_less (name a) (name b)

  pub by_name-IsWeakOrder : IsWeakOrder by_name
  unfolding by_name
  by_name-IsWeakOrder = record {
    asym = λ a b. text_less_asym (name a) (name b);
    trans = λ a b c. text_less_trans (name a) (name b) (name c);
    neg_trans = λ a b c. text_less_neg_trans (name a) (name b) (name c);
  }

module _ {ℓ} {A : Type ℓ} (name : A → Text) (rest : A → A → Bool) where
  unfoldable pub by_name_then : A → A → Bool
  by_name_then a b = if name a == name b then rest a b else text_less (name a) (name b)

  asym_then : IsWeakOrder rest → (a b : A) → by_name_then a b ≡ true → by_name_then b a ≡ false
  unfolding by_name_then
  asym_then w a b h = ground (
    arith,
    eq_iff (name a) (name b),
    eq_iff (name b) (name a),
    w.asym a b,
    text_less_asym (name a) (name b),
  )

  trans_then :
      IsWeakOrder rest
      → (a b c : A) → by_name_then a b ≡ true
      → by_name_then b c ≡ true
      → by_name_then a c ≡ true
  unfolding by_name_then
  trans_then w a b c h k = ground (
    arith,
    eq_iff (name a) (name b),
    eq_iff (name b) (name c),
    eq_iff (name a) (name c),
    w.trans a b c,
    text_less_trans (name a) (name b) (name c),
    text_less_asym (name a) (name b),
  )

  neg_trans_then :
      IsWeakOrder rest
      → (a b c : A) → by_name_then a b ≡ false
      → by_name_then b c ≡ false
      → by_name_then a c ≡ false
  unfolding by_name_then
  neg_trans_then w a b c h k = ground (
    arith,
    eq_iff (name a) (name b),
    eq_iff (name b) (name c),
    eq_iff (name a) (name c),
    w.neg_trans a b c,
    text_less_neg_trans (name a) (name b) (name c),
    text_less-IsConnected (name a) (name b),
  )

  pub by_name_then-IsWeakOrder : IsWeakOrder rest → IsWeakOrder by_name_then
  by_name_then-IsWeakOrder w = record {
    asym = asym_then w;
    trans = trans_then w;
    neg_trans = neg_trans_then w;
  }

  -- Items that the order does not tell apart agree on the name and are not told apart by the rest.
  pub by_name_then_tie :
      (a b : A)
      → by_name_then a b ≡ false
      → by_name_then b a ≡ false
      → (name a ≡ name b) × (rest a b ≡ false) × (rest b a ≡ false)
  unfolding by_name_then
  by_name_then_tie a b h k = ground (
    arith,
    eq_iff (name a) (name b),
    eq_iff (name b) (name a),
    text_less-IsConnected (name a) (name b),
  )
