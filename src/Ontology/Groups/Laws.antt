-- ===== src/Ontology/Groups/Laws.antt =====
-- What the groups hold after a run over pairs of a key and a name.
use mathlib.Core.List.Memᴰ
use cervo_rules.Prelude.{
  Distinct, ◌<◌, ◌≡◌, refl, sym, ◌∙◌, ◌↔◌, ◌⊎◌, inl, inr, false, List, [], ◌∷◌, ◌++◌, Memᴰ,
  Memᴰ-cons, Memᴰ-append, Memᴰ-nil, arith, ◌==◌, eq_iff, elem, elem_iff, length, Bool-cases,
}
use cervo_rules.Text.{Text}
use cervo_rules.Ontology.Groups.{Groups, no_groups, update, group_add, group_errors}
use cervo_rules.Core.Error.{Error}

-- A run over pairs.
abbrev pub group_all : Groups → List (Text × Text) → Groups
group_all g [] = g
group_all g ((k, v) ∷ rest) = group_all (group_add g k v) rest

abbrev pub Pair : Text → Text → List (Text × Text) → Type 0
Pair k v [] = ⊥
Pair k v ((j, w) ∷ rest) = ((k ≡ j) × (v ≡ w)) ⊎ Pair k v rest

held-add :
    (g : Groups) (j w k v : Text)
    → Memᴰ v ((group_add g j w).held k) ↔ (Memᴰ v (g.held k) ⊎ ((k ≡ j) × (v ≡ w)))
unfolding group_add update
held-add g j w k v = elim (Bool-cases (j == k)) [
  | inl e ↦
      let same : j ≡ k = (eq_iff j k).0 e in
      ground (
        arith,
        elem_iff w (g.held j),
        Memᴰ-append v (g.held j) (w ∷ []),
        Memᴰ-cons v w [],
        Memᴰ-nil v,
      )
  | inr e ↦ ground (arith, eq_iff j k)
]

pub held-all :
    (g : Groups) (ps : List (Text × Text)) (k v : Text)
    → Memᴰ v ((group_all g ps).held k) ↔ (Memᴰ v (g.held k) ⊎ Pair k v ps)
held-all g [] k v = (inl, λ m. elim m [ inl a ↦ a | inr b ↦ absurd b ])
held-all g ((j, w) ∷ ps) k v = ground (arith, held-add g j w k v, held-all (group_add g j w) ps k v)

elem-concat :
    (y v : Text) (ys : List Text)
    → elem y ys ≡ false
    → (y == v) ≡ false
    → elem y (ys ++ v ∷ []) ≡ false
elem-concat y v [] h k = ground (arith, eq_iff v y, eq_iff y v)
elem-concat y v (x ∷ xs) h k = ground (arith, elem-concat y v xs)

Distinct-concat :
    (v : Text) (xs : List Text) → Distinct xs → elem v xs ≡ false → Distinct (xs ++ v ∷ [])
Distinct-concat v [] d h = (refl, tt)
Distinct-concat v (x ∷ xs) d h =
    (elem-concat x v xs d.0 (ground arith), Distinct-concat v xs d.1 (ground arith))

-- A list of different names has fewer than two of them where all are equal.
Distinct-few :
    (xs : List Text)
    → Distinct xs
    → (length xs < 2) ↔ ((a b : Text) → Memᴰ a xs → Memᴰ b xs → a ≡ b)
Distinct-few [] d = (λ h a b m. absurd (Memᴰ-nil a m), λ h. omega arith)
Distinct-few (x ∷ []) d =
    (λ h a b m k. Memᴰ.eq_of_singleton m ∙ sym (Memᴰ.eq_of_singleton k), λ h. omega arith)
Distinct-few (x ∷ y ∷ xs) d = (
  λ h. absurd (omega arith),
  λ h. absurd (ground (arith, h x y (Memᴰ.head refl) (Memᴰ.tail (Memᴰ.head refl)), eq_iff y x)),
)

-- Every list holds different names, and every key with a name stands in the order.
record IsProper (g : Groups) : Type 0 where
  distinct : (k : Text) → Distinct (g.held k)
  ordered : (k v : Text) → Memᴰ v (g.held k) → Memᴰ k g.order

IsProper-add : (g : Groups) (j w : Text) → IsProper g → IsProper (group_add g j w)
unfolding group_add update
IsProper-add g j w h = record {
  distinct =
      λ k. ground (arith, h.distinct k, h.distinct j, Distinct-concat w (g.held j), eq_iff j k);
  ordered = λ k v m. ground (
    arith,
    h.ordered k v,
    held-add g j w k v,
    elem_iff j g.order,
    Memᴰ-append k g.order (j ∷ []),
    Memᴰ-cons k j [],
  );
}

IsProper-all : (g : Groups) (ps : List (Text × Text)) → IsProper g → IsProper (group_all g ps)
IsProper-all g [] h = h
IsProper-all g ((k, v) ∷ ps) h = IsProper-all (group_add g k v) ps (IsProper-add g k v h)

-- The loop reports nothing where every key that it visits holds fewer than two names.
group_errors_sound :
    (err : Text → List Text → Error) (g : Groups) (ks : List Text) (k : Text)
    → group_errors err g ks ≡ []
    → Memᴰ k ks
    → length (g.held k) < 2
unfolding group_errors
group_errors_sound err g [] k h m = absurd (Memᴰ-nil k m)
group_errors_sound err g (j ∷ ks) k h m =
    ground (arith, group_errors_sound err g ks k, Memᴰ-cons k j ks)

group_errors_complete :
    (err : Text → List Text → Error) (g : Groups) (ks : List Text)
    → ((k : Text) → Memᴰ k ks → length (g.held k) < 2)
    → group_errors err g ks ≡ []
unfolding group_errors
group_errors_complete err g [] h = refl
group_errors_complete err g (j ∷ ks) h =
    let rest = group_errors_complete err g ks (λ k m. h k (Memᴰ.tail m)) in
    ground (arith, h j (Memᴰ.head refl))

-- After a run over pairs nothing is reported exactly where no key is paired with two names.
pub group_errors_iff :
    (err : Text → List Text → Error) (ps : List (Text × Text))
    → (group_errors err (group_all no_groups ps) (group_all no_groups ps).order ≡ [])
      ↔ ((k v w : Text) → Pair k v ps → Pair k w ps → v ≡ w)
group_errors_iff err ps =
    let g = group_all no_groups ps in
    let proper : IsProper g =
      IsProper-all no_groups ps
        (record { distinct = λ k. tt; ordered = λ k v m. absurd (Memᴰ-nil v m) }) in
    let few = λ (k : Text). Distinct-few (g.held k) (proper.distinct k) in
    let holds = λ (k v : Text). held-all no_groups ps k v in
    (
      λ h k v w p q.
          let m = (holds k v).1 (inr p) in
          (few k).0 (group_errors_sound err g g.order k h (proper.ordered k v m)) v w m
            ((holds k w).1 (inr q)),
      λ h.
          group_errors_complete err g g.order
            (λ k m. (few k).1 (λ a b ma mb. h k a b (of_held k a ma) (of_held k b mb))),
    )
  where
    of_held : (k a : Text) → Memᴰ a ((group_all no_groups ps).held k) → Pair k a ps
    of_held k a m = elim ((held-all no_groups ps k a).0 m) [
      | inl e ↦ absurd (Memᴰ-nil a e)
      | inr p ↦ p
    ]
