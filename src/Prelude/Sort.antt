-- ===== src/Prelude/Sort.antt =====
-- `sort.SliceStable` (and `sort.Slice` where the order is total) with the caller's `less`: a stable
-- insertion sort, which gives the one result that the documentation of package sort allows.
use mathlib.Core.Path.{◌≡◌, refl, ap, ◌∙◌}
use mathlib.Core.Bool.{Bool, true, false}
use mathlib.Core.List.{List, [], ◌∷◌, map, Perm, Permᴰ, Memᴰ}
use mathlib.Core.List.Perm
use mathlib.Core.Logic.{◌↔◌, ◌⊎◌, ∥∥₁_elim, inl, inr}
use native.Mathlib.Omega.{arith}
use cervo_rules.Prelude.Tests.{if◌then◌else◌, Bool-cases}
use cervo_rules.Prelude.Lists.{keep, Memᴰ-cons, Memᴰ-nil}

module _ {ℓ} {A : Type ℓ} (less : A → A → Bool) where
  -- In front of the first item that is not less: equal items keep their order.
  unfoldable pub insert : A → List A → List A
  insert x [] = x ∷ []
  insert x (y ∷ ys) = if less y x then y ∷ insert x ys else x ∷ y ∷ ys

  unfoldable pub sort_stable : List A → List A
  unfolding insert
  sort_stable [] = []
  sort_stable (x ∷ xs) = insert x (sort_stable xs)

  -- What `less` has to satisfy: a strict weak order.
  pub record IsWeakOrder : Type ℓ where
    pub asym : (a b : A) → less a b ≡ true → less b a ≡ false
    pub trans : (a b c : A) → less a b ≡ true → less b c ≡ true → less a c ≡ true
    pub neg_trans : (a b c : A) → less a b ≡ false → less b c ≡ false → less a c ≡ false

  -- Items that the order does not tell apart are equal.
  abbrev pub IsConnected : Type ℓ
  IsConnected = (a b : A) → less a b ≡ false → less b a ≡ false → a ≡ b

  pub insert-perm : (x : A) (l : List A) → Perm (insert x l) (x ∷ l)
  unfolding insert
  insert-perm x [] = Perm.rfl
  insert-perm x (y ∷ ys) = elim (Bool-cases (less y x)) [
    | inl e ↦ rw e (Perm.trans (Perm.cons y (insert-perm x ys)) (Perm.swap x y ys))
    | inr e ↦ rw e Perm.rfl
  ]

  pub mem-insert : (a x : A) (l : List A) → Memᴰ a (insert x l) ↔ ((a ≡ x) ⊎ Memᴰ a l)
  unfolding insert
  mem-insert a x [] = Memᴰ-cons a x []
  mem-insert a x (y ∷ ys) = ground (
    arith,
    mem-insert a x ys,
    Memᴰ-cons a y (insert x ys),
    Memᴰ-cons a y ys,
    Memᴰ-cons a x (y ∷ ys),
  )

  pub sort-perm : (l : List A) → Perm (sort_stable l) l
  unfolding sort_stable
  sort-perm [] = Perm.rfl
  sort-perm (x ∷ xs) = Perm.trans (insert-perm x (sort_stable xs)) (Perm.cons x (sort-perm xs))

module _ {ℓ} {A : Type ℓ} (less : A → A → Bool) (w : IsWeakOrder less) (c : IsConnected less) where
  insert_comm :
      (x y : A) (l : List A) → insert less x (insert less y l) ≡ insert less y (insert less x l)
  unfolding insert
  insert_comm x y [] = ground (arith, w.asym x y, w.asym y x, c x y)
  insert_comm x y (z ∷ l) = ground (
    arith,
    insert_comm x y l,
    w.asym x y,
    w.asym y x,
    c x y,
    w.trans z x y,
    w.trans z y x,
    w.neg_trans z x y,
    w.neg_trans z y x,
  )

  sort-permᴰ : {l r : List A} → Permᴰ l r → sort_stable less l ≡ sort_stable less r
  unfolding sort_stable
  sort-permᴰ Permᴰ.nil = refl
  sort-permᴰ (Permᴰ.cons e p) = cc (sort-permᴰ p)
  sort-permᴰ (Permᴰ.swap {a} {b} {l} e f) = rw (← e, ← f) (insert_comm a b (sort_stable less l))
  sort-permᴰ (Permᴰ.trans p q) = sort-permᴰ p ∙ sort-permᴰ q

  -- Under a total order the result does not depend on the order of the input.
  pub sort-eq_of_perm :
      IsSet A → {l r : List A} → Perm l r → sort_stable less l ≡ sort_stable less r
  sort-eq_of_perm s p = ∥∥₁_elim p (hlevel s) sort-permᴰ

module _ {ℓ} {A : Type ℓ} (less : A → A → Bool) where
  -- Neighbours are in order.
  abbrev pub IsSorted : List A → Type 0
  IsSorted [] = Unit
  IsSorted (x ∷ []) = Unit
  IsSorted (x ∷ y ∷ l) = (less y x ≡ false) × IsSorted (y ∷ l)

  insert-IsSorted :
      IsWeakOrder less → (x : A) (l : List A) → IsSorted l → IsSorted (insert less x l)
  unfolding insert
  insert-IsSorted w x [] s = tt
  insert-IsSorted w x (y ∷ []) s = ground (arith, w.asym y x)
  insert-IsSorted w x (y ∷ z ∷ l) s = ground (arith, w.asym y x, insert-IsSorted w x (z ∷ l))

  pub sort-IsSorted : IsWeakOrder less → (l : List A) → IsSorted (sort_stable less l)
  unfolding sort_stable
  sort-IsSorted w [] = tt
  sort-IsSorted w (x ∷ xs) = insert-IsSorted w x (sort_stable less xs) (sort-IsSorted w xs)

  -- No item of a list in order comes before its head.
  pub IsSorted-least :
      IsWeakOrder less → (x y : A) (l : List A) → IsSorted (x ∷ l) → Memᴰ y l → less y x ≡ false
  IsSorted-least w x y [] s m = absurd (Memᴰ-nil y m)
  IsSorted-least w x y (z ∷ l) (h, s) m = elim ((Memᴰ-cons y z l).0 m) [
    | inl e ↦ rw e h
    | inr k ↦ w.neg_trans y z x (IsSorted-least w z y l s k) h
  ]

  -- A list in order stays as it is.
  pub sort_of_IsSorted : (l : List A) → IsSorted l → sort_stable less l ≡ l
  unfolding sort_stable insert
  sort_of_IsSorted [] s = refl
  sort_of_IsSorted (x ∷ []) s = refl
  sort_of_IsSorted (x ∷ y ∷ l) s = rw (sort_of_IsSorted (y ∷ l) s.1, s.0, insert)

  pub sort-sort :
      IsWeakOrder less → (l : List A) → sort_stable less (sort_stable less l) ≡ sort_stable less l
  sort-sort w l = sort_of_IsSorted (sort_stable less l) (sort-IsSorted w l)

  -- Stability: the items that a test selects, none less than another, keep their order.
  keep-insert :
      (p : A → Bool)
      → ((a b : A) → p a ≡ true → p b ≡ true → less a b ≡ false)
      → (x : A) (l : List A) → keep p (insert less x l) ≡ keep p (x ∷ l)
  unfolding insert
  keep-insert p same x [] = refl
  keep-insert p same x (y ∷ l) = ground (arith, keep-insert p same x l, same y x)

  pub keep-sort :
      (p : A → Bool)
      → ((a b : A) → p a ≡ true → p b ≡ true → less a b ≡ false)
      → (l : List A) → keep p (sort_stable less l) ≡ keep p l
  unfolding sort_stable
  keep-sort p same [] = refl
  keep-sort p same (x ∷ xs) =
      ground (arith, keep-insert p same x (sort_stable less xs), keep-sort p same xs)

  -- Membership is unchanged.
  pub mem-sort : (a : A) (l : List A) → Memᴰ a (sort_stable less l) ↔ Memᴰ a l
  unfolding sort_stable
  mem-sort a [] = (λ m. m, λ m. m)
  mem-sort a (x ∷ xs) =
      ground (arith, mem-insert less a x (sort_stable less xs), mem-sort a xs, Memᴰ-cons a x xs)

-- Sorting what a map gives.
module _ {ℓ} {A : Type ℓ} (less : A → A → Bool) (n : A → A) (w : IsWeakOrder less)
    (c : IsConnected less) where
  pub sort-map-perm :
      IsSet A → {l r : List A} → Perm l r → sort_stable less (map n l) ≡ sort_stable less (map n r)
  sort-map-perm is_set p = sort-eq_of_perm less w c is_set (Perm.map n p)

  pub sort-map-sort :
      IsSet A
      → ((a : A) → n (n a) ≡ n a)
      → (l : List A)
      → sort_stable less (map n (sort_stable less (map n l))) ≡ sort_stable less (map n l)
  sort-map-sort is_set idem l =
      sort-map-perm is_set (sort-perm less (map n l)) ∙ ap (sort_stable less) (map-map_idem l)
    where
      map-map_idem : (r : List A) → map n (map n r) ≡ map n r
      map-map_idem [] = refl
      map-map_idem (x ∷ xs) = cc (idem x, map-map_idem xs)
