-- ===== src/Ontology/Model/Agreement.antt =====
-- ontology/ontology.go: the two readings of the signatures, the map of `Check` and `domainOf`.
use mathlib.Core.List.Memᴰ
use cervo_rules.Prelude.{
  ◌≡◌, refl, inl, inr, true, false, Option, none, some, List, [], ◌∷◌, map, Memᴰ, Memᴰ-nil, arith,
  ◌==◌, eq_iff, elem, Bool-cases, Option-cases,
}
use cervo_rules.Prelude.Sort.{mem-sort}
use cervo_rules.Text.Normal.{normalize-normalize}
use cervo_rules.Text.Order.{by_name}
use cervo_rules.Ontology.Names.{EntityType, Relation, new_relation}
use cervo_rules.Ontology.Signature.{PredicateSignature, normalize_signature}
use cervo_rules.Ontology.Model.{Ontology, normalize_model, domain_in, domain_of}
use cervo_rules.Ontology.Model.Validation.{duplicate_errors}
use cervo_rules.Ontology.Model.Check.{signature_for}

-- A relation that was seen before has no signature in the rest of a list without duplicates.
signature_for-fresh :
    (seen : List Relation) (signatures : List PredicateSignature) (r : Relation)
    → duplicate_errors seen signatures ≡ []
    → elem r seen ≡ true
    → signature_for r signatures ≡ none
unfolding duplicate_errors signature_for
signature_for-fresh seen [] r h m = refl
signature_for-fresh seen (g ∷ rest) r h m =
    ground (arith, eq_iff g.relation r, signature_for-fresh (g.relation ∷ seen) rest r)

abbrev pub domain_or_empty : Option PredicateSignature → EntityType
domain_or_empty none = ""
domain_or_empty (some g) = g.domain

domain_in-signature_for :
    (seen : List Relation) (signatures : List PredicateSignature) (r : Relation)
    → ((g : PredicateSignature) → Memᴰ g signatures → normalize_signature g ≡ g)
    → duplicate_errors seen signatures ≡ []
    → domain_in r signatures ≡ domain_or_empty (signature_for (new_relation r) signatures)
unfolding duplicate_errors signature_for domain_in
domain_in-signature_for seen [] r fixed h = refl
domain_in-signature_for seen (g ∷ rest) r fixed h =
    let same : normalize_signature g ≡ g = fixed g (Memᴰ.head refl) in
    let free : duplicate_errors (g.relation ∷ seen) rest ≡ [] = ground arith in
    let later =
      domain_in-signature_for (g.relation ∷ seen) rest r (λ k m. fixed k (Memᴰ.tail m)) free in
    elim (Bool-cases (g.relation == new_relation r)) [
      | inl e ↦
          let none_left : signature_for (new_relation r) rest ≡ none =
            signature_for-fresh (g.relation ∷ seen) rest (new_relation r) free
              (ground (arith, eq_iff g.relation (new_relation r))) in
          rw (same, none_left, e) refl
      | inr e ↦ elim (Option-cases (signature_for (new_relation r) rest)) [
        | inl n ↦ rw (same, n, e, later, n) refl
        | inr (k, n) ↦ rw (same, n, e, later, n) refl
      ]
    ]

normalize_signature_idem :
    (g : PredicateSignature) → normalize_signature (normalize_signature g) ≡ normalize_signature g
unfolding normalize_signature
normalize_signature_idem g =
    rw (normalize-normalize g.relation, normalize-normalize g.domain, normalize-normalize g.range)
      refl

normalized_of_map :
    (signatures : List PredicateSignature) (g : PredicateSignature)
    → Memᴰ g (map normalize_signature signatures)
    → normalize_signature g ≡ g
normalized_of_map [] g m = absurd (Memᴰ-nil g m)
normalized_of_map (x ∷ xs) g m = elim (Memᴰ.cases_cons m) [
  | inl e ↦ rw e (normalize_signature_idem x)
  | inr k ↦ normalized_of_map xs g k
]

module _ {C : Type 0} where
  -- Where `Validate` finds no relation with two signatures in the normalized form of a model that
  -- is not marked as normalized, the domain that `domainOf` reads there is the one of the signature
  -- that the map of `Check` keeps, or empty if it keeps none.
  pub domain_of-signature_for :
      (o : Ontology C) (r : Relation)
      → o.normalized ≡ false
      → duplicate_errors [] (normalize_model o).signatures ≡ []
      → domain_of (normalize_model o) r
        ≡ domain_or_empty (signature_for (new_relation r) (normalize_model o).signatures)
  unfolding domain_of normalize_model
  domain_of-signature_for o r raw h =
      let fixed : (g : PredicateSignature)
          → Memᴰ g (normalize_model o).signatures
          → normalize_signature g ≡ g =
        λ g m.
          normalized_of_map o.signatures g
            ((mem-sort (by_name (λ k. k.relation)) g _).0 (rw raw at m)) in
      domain_in-signature_for [] (normalize_model o).signatures r fixed h
