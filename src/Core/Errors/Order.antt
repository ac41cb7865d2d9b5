-- ===== src/Core/Errors/Order.antt =====
-- core/errors.go: what `SortStable` keeps and what it orders.
use cervo_rules.Prelude.{
  ◌≡◌, ◌↔◌, refl, subst, Bool, ◌&&◌, inl, inr, Memᴰ, Memᴰ-cons, true, false, [], ◌∷◌, Perm, arith,
  keep, ◌==◌, eq_iff,
}
use cervo_rules.Prelude.Sort.{
  sort_stable as stable_sort, insert, sort-perm, sort-IsSorted, IsSorted, sort-sort, keep-sort,
  IsWeakOrder, mem-sort, IsSorted-least,
}
use cervo_rules.Text.{join}
use cervo_rules.Text.Keys.{HasNoNul, text_less-keyed}
use cervo_rules.Text.Order.{text_less-IsWeakOrder, text_less_irrefl, by_name, by_name_then}
use cervo_rules.Core.Error.{Error}
use cervo_rules.Core.Errors.{Errors, error_sort_key, less_error, sort_stable}

less_error-IsWeakOrder : IsWeakOrder less_error
unfolding less_error
less_error-IsWeakOrder =
    let w = text_less-IsWeakOrder in
    record {
      asym = λ a b. w.asym (error_sort_key a) (error_sort_key b);
      trans = λ a b c. w.trans (error_sort_key a) (error_sort_key b) (error_sort_key c);
      neg_trans = λ a b c. w.neg_trans (error_sort_key a) (error_sort_key b) (error_sort_key c);
    }

-- The order by field, then by rule, code, value and reason.
abbrev pub by_fields : Error → Error → Bool
by_fields =
    by_name_then (λ e. e.field)
      (by_name_then (λ e. e.rule)
        (by_name_then (λ e. e.code) (by_name_then (λ e. e.value) (by_name (λ e. e.reason)))))

-- An error of which the first four of these texts hold no NUL, as the sort key takes for granted.
abbrev pub HasPlainKey : Error → Type 0
HasPlainKey e = HasNoNul e.field × HasNoNul e.rule × HasNoNul e.code × HasNoNul e.value

less_error-by_fields :
    (a b : Error) → HasPlainKey a → HasPlainKey b → less_error a b ≡ by_fields a b
unfolding less_error error_sort_key join by_name_then by_name
less_error-by_fields a b (af, ar, ac, av) (bf, br, bc, bv) =
    rw
      (
        text_less-keyed a.field b.field _ _ af bf,
        text_less-keyed a.rule b.rule _ _ ar br,
        text_less-keyed a.code b.code _ _ ac bc,
        text_less-keyed a.value b.value _ _ av bv,
      )
      refl

IsSorted-by_fields :
    (es : Errors)
    → ((e : Error) → Memᴰ e es → HasPlainKey e)
    → IsSorted less_error es
    → IsSorted by_fields es
IsSorted-by_fields [] p s = tt
IsSorted-by_fields (x ∷ []) p s = tt
IsSorted-by_fields (x ∷ y ∷ l) p (h, s) = (
  rw (← less_error-by_fields y x (p y (Memᴰ.tail (Memᴰ.head refl))) (p x (Memᴰ.head refl))) h,
  IsSorted-by_fields (y ∷ l) (λ e m. p e (Memᴰ.tail m)) s,
)

-- Two errors agree on the five texts of the sort key.
abbrev pub agree : Error → Error → Bool
agree a b =
    a.field == b.field
    && a.rule == b.rule
    && a.code == b.code
    && a.value == b.value
    && a.reason == b.reason

key-agree : (a b : Error) → agree a b ≡ true → error_sort_key a ≡ error_sort_key b
unfolding error_sort_key
key-agree a b h =
    let same : (a.field ≡ b.field)
        × (a.rule ≡ b.rule)
        × (a.code ≡ b.code)
        × (a.value ≡ b.value)
        × (a.reason ≡ b.reason) =
      ground (
        arith,
        eq_iff a.field b.field,
        eq_iff a.rule b.rule,
        eq_iff a.code b.code,
        eq_iff a.value b.value,
        eq_iff a.reason b.reason,
      ) in
    let (f, r, c, v, t) = same in rw (f, r, c, v, t) refl

less-agree : (k a b : Error) → agree k a ≡ true → agree k b ≡ true → less_error a b ≡ false
unfolding less_error
less-agree k a b p q =
    rw (← key-agree k a p, ← key-agree k b q) (text_less_irrefl (error_sort_key k))

-- `SortStable` keeps every error, puts them in order by field, rule, code, value and reason, where
-- the first four hold no NUL, and leaves those that agree on all five in the order in which they
-- were reported; a second call changes nothing.
pub sort_stable-IsSorted :
    (es : Errors)
    → ((e : Error) → Memᴰ e es → HasPlainKey e)
    → Perm (sort_stable es) es
      × IsSorted by_fields (sort_stable es)
      × ((k : Error) → keep (agree k) (sort_stable es) ≡ keep (agree k) es)
      × (sort_stable (sort_stable es) ≡ sort_stable es)
unfolding sort_stable
sort_stable-IsSorted es plain = (
  sort-perm less_error es,
  IsSorted-by_fields (stable_sort less_error es) (λ e m. plain e ((mem-sort less_error e es).0 m))
      (sort-IsSorted less_error less_error-IsWeakOrder es),
  λ k. keep-sort less_error (agree k) (less-agree k) es,
  sort-sort less_error less_error-IsWeakOrder es,
)

-- The first of the sorted errors is one of them, and none comes before it.
pub sort_stable-least :
    (es : Errors) (e : Error) (rest : Errors)
    → sort_stable es ≡ e ∷ rest
    → Memᴰ e es × ((x : Error) → Memᴰ x es → less_error x e ≡ false)
unfolding sort_stable less_error
sort_stable-least es e rest h =
    let w = less_error-IsWeakOrder in
    let irrefl : (a : Error) → less_error a a ≡ false = λ a. text_less_irrefl (error_sort_key a) in
    let sorted : IsSorted less_error (e ∷ rest) =
      subst (IsSorted less_error) h (sort-IsSorted less_error w es) in
    (
      (mem-sort less_error e es).0 (rw h (Memᴰ.head refl)),
      λ x m. elim ((Memᴰ-cons x e rest).0 (subst (Memᴰ x) h ((mem-sort less_error x es).1 m))) [
        | inl same ↦ rw same (irrefl e)
        | inr k ↦ IsSorted-least less_error w e x rest sorted k
      ],
    )

insert-not_nil : (e : Error) (es : Errors) → ¬ (insert less_error e es ≡ [])
unfolding insert
insert-not_nil e [] h = cc
insert-not_nil e (x ∷ xs) h = ground arith

-- Sorting loses no error and invents none.
pub sort_stable-nil_iff : (es : Errors) → (sort_stable es ≡ []) ↔ (es ≡ [])
unfolding sort_stable stable_sort
sort_stable-nil_iff [] = (λ h. h, λ h. h)
sort_stable-nil_iff (e ∷ es) =
    (λ h. absurd (insert-not_nil e (stable_sort less_error es) h), λ h. cc)
