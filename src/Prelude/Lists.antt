-- ===== src/Prelude/Lists.antt =====
-- Lists with Boolean tests, and lists measured by native numbers.
use Prim.Native.Nat.{ℕ, suc, ◌+◌}
use mathlib.Core.Path.{◌≡◌, refl}
use mathlib.Core.Logic.{◌↔◌, ◌⊎◌, inl, inr, ⊎_elim}
use mathlib.Core.Bool.{Bool, true, false, ◌||◌}
use mathlib.Core.List.{List, [], ◌∷◌, ◌++◌, Memᴰ}
use mathlib.Core.List.Memᴰ
use native.Mathlib.Omega.{arith}
use text.Mathlib.Text.{◌==◌}
use text.Mathlib.TextEquality.{eq_iff}
use Prim.Native.String.{String}
use cervo_rules.Prelude.Tests.{if◌then◌else◌}

module _ {ℓ} {A : Type ℓ} where
  abbrev pub length : List A → ℕ
  length [] = 0
  length (x ∷ xs) = suc (length xs)

  -- Whether some item passes a test: a `for` that returns at the first hit.
  abbrev pub any : (A → Bool) → List A → Bool
  any p [] = false
  any p (x ∷ xs) = p x || any p xs

  -- The items that pass a test, in order: a `for` with `continue` and `append`.
  abbrev pub keep : (A → Bool) → List A → List A
  keep p [] = []
  keep p (x ∷ xs) = if p x then x ∷ keep p xs else keep p xs

  abbrev pub is_empty : List A → Bool
  is_empty [] = true
  is_empty (x ∷ xs) = false

  -- A `for` that appends what each item gives.
  abbrev pub flat {κ} : {B : Type κ} → (B → List A) → List B → List A
  flat f [] = []
  flat f (x ∷ xs) = f x ++ flat f xs

  pub Memᴰ-cons : (a x : A) (xs : List A) → Memᴰ a (x ∷ xs) ↔ ((a ≡ x) ⊎ Memᴰ a xs)
  Memᴰ-cons a x xs = (Memᴰ.cases_cons, ⊎_elim Memᴰ.head Memᴰ.tail)

  pub Memᴰ-nil : (a : A) → ¬ Memᴰ a []
  Memᴰ-nil a m = Memᴰ.not-nil m

  pub Memᴰ-append : (a : A) (xs ys : List A) → Memᴰ a (xs ++ ys) ↔ (Memᴰ a xs ⊎ Memᴰ a ys)
  Memᴰ-append a xs ys = (Memᴰ.append_cases xs, ⊎_elim (Memᴰ.append_left ys) (Memᴰ.append_right xs))

  pub Memᴰ-keep :
      (p : A → Bool) (a : A) (xs : List A) → Memᴰ a (keep p xs) ↔ (Memᴰ a xs × (p a ≡ true))
  Memᴰ-keep p a [] = (λ m. absurd (Memᴰ-nil a m), λ m. m.0)
  Memᴰ-keep p a (x ∷ xs) =
      ground (arith, Memᴰ-keep p a xs, Memᴰ-cons a x xs, Memᴰ-cons a x (keep p xs))

  pub append-eq-nil_iff : (xs ys : List A) → (xs ++ ys ≡ []) ↔ ((xs ≡ []) × (ys ≡ []))
  append-eq-nil_iff [] ys = (λ h. (refl, h), λ h. h.1)
  append-eq-nil_iff (x ∷ xs) ys = (λ h. cc, λ h. cc)

  flat_sound {κ} :
      {B : Type κ} (f : B → List A) (xs : List B) (x : B) → flat f xs ≡ [] → Memᴰ x xs → f x ≡ []
  flat_sound f [] x h m = absurd (Memᴰ.not-nil m)
  flat_sound f (y ∷ xs) x h m =
      let (first, rest) = (append-eq-nil_iff (f y) (flat f xs)).0 h in
      elim (Memᴰ.cases_cons m) [ inl e ↦ rw e first | inr k ↦ flat_sound f xs x rest k ]

  flat_complete {κ} :
      {B : Type κ} (f : B → List A) (xs : List B)
      → ((x : B) → Memᴰ x xs → f x ≡ [])
      → flat f xs ≡ []
  flat_complete f [] h = refl
  flat_complete f (y ∷ xs) h =
      (append-eq-nil_iff (f y) (flat f xs)).1
        (h y (Memᴰ.head refl), flat_complete f xs (λ x m. h x (Memᴰ.tail m)))

  -- Nothing is appended exactly where no item gives anything.
  pub flat-eq-nil_iff {κ} :
      {B : Type κ} (f : B → List A) (xs : List B)
      → (flat f xs ≡ []) ↔ ((x : B) → Memᴰ x xs → f x ≡ [])
  flat-eq-nil_iff f xs = (λ h x m. flat_sound f xs x h m, flat_complete f xs)

  pub length-append : (xs ys : List A) → length (xs ++ ys) ≡ length xs + length ys
  length-append [] ys = omega arith
  length-append (x ∷ xs) ys = omega (arith, length-append xs ys)

-- Membership in a set of names, which the source keeps as a map to `struct{}`.
abbrev pub elem : String → List String → Bool
elem a [] = false
elem a (x ∷ xs) = x == a || elem a xs

pub elem_iff : (a : String) (xs : List String) → (elem a xs ≡ true) ↔ Memᴰ a xs
elem_iff a [] = (λ h. cc, λ m. absurd (Memᴰ-nil a m))
elem_iff a (x ∷ xs) = ground (arith, elem_iff a xs, Memᴰ-cons a x xs, eq_iff x a)

-- No text twice.
abbrev pub Distinct : List String → Type 0
Distinct [] = Unit
Distinct (x ∷ xs) = (elem x xs ≡ false) × Distinct xs
