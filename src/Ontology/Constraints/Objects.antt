-- ===== src/Ontology/Constraints/Objects.antt =====
-- ontology/constraints.go: the objects that `FunctionalProperty.check` groups by subject.

use cervo_rules.Prelude.{
  ◌≡◌, refl, ◌↔◌, ◌⊎◌, inl, inr, ◌∙◌, sym, List, [], ◌∷◌, Memᴰ, Memᴰ-cons, Memᴰ-nil, arith,
  if◌then◌else◌, ◌==◌, eq_iff, Bool-cases,
}
use cervo_rules.Text.{Text}
use cervo_rules.Ontology.Names.{Relation, new_individual, new_relation}
use cervo_rules.Ontology.Snapshot.{RelationAssertion}
use cervo_rules.Ontology.Groups.{Groups, group_add}
use cervo_rules.Ontology.Groups.Laws.{group_all, Pair}
use cervo_rules.Ontology.Constraints.{bind_objects}

-- No two assertions of the relation give one subject different objects.
abbrev pub SingleValued : Relation → List RelationAssertion → Type 0
SingleValued r relations =
    (a b : RelationAssertion)
    → Memᴰ a relations
    → Memᴰ b relations
    → new_relation a.relation ≡ r
    → new_relation b.relation ≡ r
    → new_individual a.subject ≡ new_individual b.subject
    → new_individual a.object ≡ new_individual b.object

abbrev pub pairs : Relation → List RelationAssertion → List (Text × Text)
pairs r [] = []
pairs r (a ∷ rest) =
    if new_relation a.relation == r
    then (new_individual a.subject, new_individual a.object) ∷ pairs r rest
    else pairs r rest

pub bind_objects-pairs :
    (r : Relation) (g : Groups) (xs : List RelationAssertion)
    → bind_objects r g xs ≡ group_all g (pairs r xs)
unfolding bind_objects
bind_objects-pairs r g [] = refl
bind_objects-pairs r g (a ∷ xs) = elim (Bool-cases (new_relation a.relation == r)) [
  | inl e ↦
      rw e
        (bind_objects-pairs r (group_add g (new_individual a.subject) (new_individual a.object)) xs)
  | inr e ↦ rw e (bind_objects-pairs r g xs)
]

pub Pair-of_mem :
    (r : Relation) (xs : List RelationAssertion) (a : RelationAssertion)
    → Memᴰ a xs
    → new_relation a.relation ≡ r
    → Pair (new_individual a.subject) (new_individual a.object) (pairs r xs)
Pair-of_mem r [] a m t = Memᴰ-nil a m
Pair-of_mem r (x ∷ xs) a m t =
    ground (arith, Memᴰ-cons a x xs, eq_iff (new_relation x.relation) r, Pair-of_mem r xs a)

-- An assertion that gives the pair.
abbrev pub Origin : Relation → List RelationAssertion → Text → Text → Type 0
Origin r xs i t =
    (a : RelationAssertion) × Memᴰ a xs
    × (new_relation a.relation ≡ r)
    × (new_individual a.subject ≡ i)
    × (new_individual a.object ≡ t)

Origin-cons :
    (r : Relation) (x : RelationAssertion) (xs : List RelationAssertion) (i t : Text)
    → Origin r xs i t
    → Origin r (x ∷ xs) i t
Origin-cons r x xs i t (a, m, e, f, k) = (a, Memᴰ.tail m, e, f, k)

pub Origin-of_Pair :
    (r : Relation) (xs : List RelationAssertion) (i t : Text)
    → Pair i t (pairs r xs)
    → Origin r xs i t
Origin-of_Pair r [] i t p = absurd p
Origin-of_Pair r (x ∷ xs) i t p = elim (Bool-cases (new_relation x.relation == r)) [
  | inr e ↦ Origin-cons r x xs i t (Origin-of_Pair r xs i t (rw e at p))
  | inl e ↦
      let q : ((i ≡ new_individual x.subject) × (t ≡ new_individual x.object))
          ⊎ Pair i t (pairs r xs) =
        rw e at p in
      elim q [
        | inl (h, k) ↦ (x, Memᴰ.head refl, (eq_iff (new_relation x.relation) r).0 e, sym h, sym k)
        | inr later ↦ Origin-cons r x xs i t (Origin-of_Pair r xs i t later)
      ]
]

pub SingleValued-iff :
    (r : Relation) (xs : List RelationAssertion)
    → ((k v w : Text) → Pair k v (pairs r xs) → Pair k w (pairs r xs) → v ≡ w) ↔ SingleValued r xs
SingleValued-iff r xs = (
  λ h a b m k ra rb e. h _ _ _ (Pair-of_mem r xs a m ra) (rw e (Pair-of_mem r xs b k rb)),
  λ h i v w p q.
      let (a, m, ra, ai, av) = Origin-of_Pair r xs i v p in
      let (b, k, rb, bi, bw) = Origin-of_Pair r xs i w q in
      sym av ∙ h a b m k ra rb (ai ∙ sym bi) ∙ bw,
)
