-- ===== src/Ontology/Constraints/Disjoint.antt =====
-- `DisjointSet.check` reports nothing exactly where the types are held apart.
use mathlib.Core.List.Memᴰ
use cervo_rules.Prelude.{
  ◌<◌, ◌≡◌, refl, ◌↔◌, ◌⊎◌, inl, inr, ◌∙◌, sym, List, [], ◌∷◌, Memᴰ, Memᴰ-cons, Memᴰ-nil, arith,
  if◌then◌else◌, elem, elem_iff, length, Bool-cases, ltb,
}
use cervo_rules.Text.{Text}
use cervo_rules.Ontology.Names.{EntityType, new_entity_type, new_individual}
use cervo_rules.Ontology.Snapshot.{TypeAssertion, Snapshot}
use cervo_rules.Ontology.Groups.{Groups, no_groups, group_add}
use cervo_rules.Ontology.Groups.Laws.{group_all, Pair, group_errors_iff}
use cervo_rules.Ontology.Constraints.{
  DisjointSet, normalize_set, hold_types, disjoint_error, set_errors, check_disjoint,
}

-- No individual is asserted to hold two different types of the list.
abbrev pub HeldApart : List EntityType → List TypeAssertion → Type 0
HeldApart members types =
    (a b : TypeAssertion)
    → Memᴰ a types
    → Memᴰ b types
    → new_individual a.individual ≡ new_individual b.individual
    → Memᴰ (new_entity_type a.type) members
    → Memᴰ (new_entity_type b.type) members
    → new_entity_type a.type ≡ new_entity_type b.type

-- The pairs that the loop groups.
abbrev pairs : List EntityType → List TypeAssertion → List (Text × Text)
pairs members [] = []
pairs members (a ∷ rest) =
    if elem (new_entity_type a.type) members
    then (new_individual a.individual, new_entity_type a.type) ∷ pairs members rest
    else pairs members rest

hold_types-pairs :
    (members : List EntityType) (g : Groups) (xs : List TypeAssertion)
    → hold_types members g xs ≡ group_all g (pairs members xs)
unfolding hold_types
hold_types-pairs members g [] = refl
hold_types-pairs members g (a ∷ xs) = elim (Bool-cases (elem (new_entity_type a.type) members)) [
  | inl e ↦ rw e (
      hold_types-pairs members (group_add g (new_individual a.individual) (new_entity_type a.type))
        xs)
  | inr e ↦ rw e (hold_types-pairs members g xs)
]

Pair-of_mem :
    (members : List EntityType) (xs : List TypeAssertion) (a : TypeAssertion)
    → Memᴰ a xs
    → Memᴰ (new_entity_type a.type) members
    → Pair (new_individual a.individual) (new_entity_type a.type) (pairs members xs)
Pair-of_mem members [] a m t = Memᴰ-nil a m
Pair-of_mem members (x ∷ xs) a m t =
    ground
      (arith, Memᴰ-cons a x xs, elem_iff (new_entity_type x.type) members, Pair-of_mem members xs a)

-- An assertion that gives the pair.
abbrev Origin : List EntityType → List TypeAssertion → Text → Text → Type 0
Origin members xs i t =
    (a : TypeAssertion) × Memᴰ a xs
    × (new_individual a.individual ≡ i)
    × (new_entity_type a.type ≡ t)
    × Memᴰ t members

Origin-cons :
    (members : List EntityType) (x : TypeAssertion) (xs : List TypeAssertion) (i t : Text)
    → Origin members xs i t
    → Origin members (x ∷ xs) i t
Origin-cons members x xs i t (a, m, e, f, k) = (a, Memᴰ.tail m, e, f, k)

Origin-of_Pair :
    (members : List EntityType) (xs : List TypeAssertion) (i t : Text)
    → Pair i t (pairs members xs)
    → Origin members xs i t
Origin-of_Pair members [] i t p = absurd p
Origin-of_Pair members (x ∷ xs) i t p = elim (Bool-cases (elem (new_entity_type x.type) members)) [
  | inr e ↦ Origin-cons members x xs i t (Origin-of_Pair members xs i t (rw e at p))
  | inl e ↦
      let q : ((i ≡ new_individual x.individual) × (t ≡ new_entity_type x.type))
          ⊎ Pair i t (pairs members xs) =
        rw e at p in
      elim q [
        | inl (h, k) ↦ (
          x,
          Memᴰ.head refl,
          sym h,
          sym k,
          rw k ((elem_iff (new_entity_type x.type) members).0 e),
        )
        | inr r ↦ Origin-cons members x xs i t (Origin-of_Pair members xs i t r)
      ]
]

-- Apart means that the pairs have one type for each individual.
HeldApart-iff :
    (members : List EntityType) (xs : List TypeAssertion)
    → ((k v w : Text) → Pair k v (pairs members xs) → Pair k w (pairs members xs) → v ≡ w)
      ↔ HeldApart members xs
HeldApart-iff members xs = (
  λ h a b m k e ta tb.
      h _ _ _ (Pair-of_mem members xs a m ta) (rw e (Pair-of_mem members xs b k tb)),
  λ h i v w p q.
      let (a, m, ai, av, mv) = Origin-of_Pair members xs i v p in
      let (b, k, bi, bw, mw) = Origin-of_Pair members xs i w q in
      sym av ∙ h a b m k (ai ∙ sym bi) (rw av mv) (rw bw mw) ∙ bw,
)

HeldApart-of_few :
    (members : List EntityType) (xs : List TypeAssertion)
    → length members < 2
    → HeldApart members xs
HeldApart-of_few [] xs h a b m k e ta tb = absurd (Memᴰ-nil _ ta)
HeldApart-of_few (t ∷ []) xs h a b m k e ta tb =
    Memᴰ.eq_of_singleton ta ∙ sym (Memᴰ.eq_of_singleton tb)
HeldApart-of_few (t ∷ u ∷ members) xs h a b m k e ta tb = absurd (omega arith)

set_errors_iff :
    (d : DisjointSet) (s : Snapshot) → (set_errors d s ≡ []) ↔ HeldApart d.types s.types
unfolding set_errors
set_errors_iff d s = elim (Bool-cases (ltb (length d.types) 2)) [
  | inl e ↦ (λ h. HeldApart-of_few d.types s.types (ground arith), λ h. rw e)
  | inr e ↦
      let errors = group_errors_iff (disjoint_error d) (pairs d.types s.types) in
      let apart = HeldApart-iff d.types s.types in
      rw (e, hold_types-pairs d.types no_groups s.types)
        (λ h. apart.0 (errors.0 h), λ h. errors.1 (apart.1 h))
]

-- `DisjointSet.check` reports nothing exactly where no individual is asserted to hold two different
-- types of the normalized set.
pub check_disjoint_iff :
    (d : DisjointSet) (s : Snapshot)
    → (check_disjoint d s ≡ []) ↔ HeldApart (normalize_set d).types s.types
unfolding check_disjoint
check_disjoint_iff d s = set_errors_iff (normalize_set d) s
