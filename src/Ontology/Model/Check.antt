-- ===== src/Ontology/Model/Check.antt =====
-- ontology/ontology.go: `Check` of a snapshot, and `CheckTransition`.
use cervo_rules.Prelude.{
  Option, none, some, List, [], ◌∷◌, ◌++◌, if◌then◌else◌, ◌==◌, elem, is_empty, flat,
}
use cervo_rules.Text.{Text}
use cervo_rules.Core.Error.{Error}
use cervo_rules.Core.Errors
use cervo_rules.Core.Errors.{Errors}
use cervo_rules.Ontology.Names.{
  EntityType, Individual, Relation, State, fatal_error, error_code_unknown_entity_type,
  error_code_unknown_lifecycle,
}
use cervo_rules.Ontology.Snapshot.{TypeAssertion, RelationAssertion, Snapshot, normalize_snapshot}
use cervo_rules.Ontology.Signature.{PredicateSignature, check_assertion}
use cervo_rules.Ontology.Constraints.{check_disjoint, check_functional}
use cervo_rules.Ontology.Lifecycle.Check as LifecycleCheck
use cervo_rules.Ontology.Model.{Ontology, Constraint, normalize_model, domain_of, lifecycle_of}

unfoldable pub undeclared_error : EntityType → Error
undeclared_error t = record fatal_error {
  code = error_code_unknown_entity_type;
  field = "types";
  value = t;
  reason = "asserted entity type is not declared by the ontology";
  suggestion = "declare the type or correct the assertion";
}

unfoldable pub undeclared_errors : List EntityType → List TypeAssertion → Errors
undeclared_errors declared [] = []
undeclared_errors declared (a ∷ rest) =
    if elem a.type declared
    then undeclared_errors declared rest
    else undeclared_error a.type ∷ undeclared_errors declared rest

-- No declared type means that any type may be asserted.
unfoldable pub type_errors : List EntityType → List TypeAssertion → Errors
type_errors declared types = if is_empty declared then [] else undeclared_errors declared types

-- The map from a relation to its signature, which the last declaration sets.
unfoldable pub signature_for : Relation → List PredicateSignature → Option PredicateSignature
signature_for r [] = none
signature_for r (g ∷ rest) = elim (signature_for r rest) [
  | some later ↦ some later
  | none ↦ if g.relation == r then some g else none
]

-- A relation with no signature is free.
unfoldable pub relation_error : List PredicateSignature → Snapshot → RelationAssertion → Errors
relation_error signatures s a = elim (signature_for a.relation signatures) [
  | none ↦ []
  | some g ↦ check_assertion g s a
]

unfoldable pub unknown_lifecycle_error : Text → Error
unknown_lifecycle_error n = record fatal_error {
  code = error_code_unknown_lifecycle;
  field = "lifecycles";
  value = n;
  reason = "lifecycle is not declared by the ontology";
  suggestion = "declare the lifecycle before checking transitions against it";
}

module _ {C : Type 0} where
  unfoldable pub custom_error : ⦃c : Constraint C⦄ → Ontology C → Snapshot → Option C → Errors
  custom_error m s none = []
  custom_error ⦃c⦄ m s (some k) = c.check k m s

  -- What `Check` appends, of a normalized model and snapshot.
  unfoldable pub violations : ⦃c : Constraint C⦄ → Ontology C → Snapshot → Errors
  violations m s =
      type_errors m.entities s.types
      ++ flat (relation_error m.signatures s) s.relations
      ++ flat (λ d. check_disjoint d s) m.disjoint
      ++ flat (λ f. check_functional f s (domain_of m f.relation)) m.functional
      ++ flat (λ l. LifecycleCheck.check_snapshot l s) m.lifecycles
      ++ flat (custom_error m s) m.custom

  -- `Ontology.Check`
  unfoldable pub check : ⦃c : Constraint C⦄ → Ontology C → Snapshot → Errors
  check o s = Errors.sort_stable (violations (normalize_model o) (normalize_snapshot s))

  -- `Ontology.CheckTransition`
  unfoldable pub check_transition : Ontology C → Snapshot → Text → Individual → State → Errors
  check_transition o s n i to = elim (lifecycle_of o n) [
    | none ↦ unknown_lifecycle_error n ∷ []
    | some l ↦ LifecycleCheck.check_transition l s i to
  ]
