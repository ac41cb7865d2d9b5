-- ===== src/Ontology/Model.antt =====
-- ontology/ontology.go, ontology/constraint.go: the caller's symbolic model.
pub mod Validation
pub mod Check
pub mod Typing
pub mod Satisfies
pub mod Agreement
use cervo_rules.Prelude.{
  ◌&◌, ◌≡◌, Bool, true, false, Option, none, some, List, [], ◌∷◌, ◌++◌, map, if◌then◌else◌, ◌==◌,
  elem,
}
use cervo_rules.Prelude.Sort.{sort_stable}
use cervo_rules.Text.{Text, normalize, text_less}
use cervo_rules.Text.Order.{by_name}
use cervo_rules.Core.Errors.{Errors}
use cervo_rules.Ontology.Names.{EntityType, Relation, new_relation, names_from}
use cervo_rules.Ontology.Snapshot.{Snapshot}
use cervo_rules.Ontology.Signature.{PredicateSignature, normalize_signature}
use cervo_rules.Ontology.Constraints.{
  DisjointSet, normalize_set, FunctionalProperty, normalize_property,
}
use cervo_rules.Ontology.Lifecycle.{Lifecycle, normalize_lifecycle}

-- `C` is the consumer's type of constraints; an entry of `custom` may be nil.
pub record Ontology (C : Type 0) : Type 0 where
  pub entities : List EntityType
  pub signatures : List PredicateSignature
  pub disjoint : List DisjointSet
  pub functional : List FunctionalProperty
  pub lifecycles : List Lifecycle
  pub custom : List (Option C)
  pub normalized : Bool

-- The interface that a consumer implements.
pub record Constraint (C : Type 0) : Type 0 where
  pub name : C → Text
  pub validate : C → Ontology C → Errors
  pub check : C → Ontology C → Snapshot → Errors

-- `ConstraintFunc`: an adapter for a check alone, which may be nil.
pub record ConstraintFunc (M : Type 0) : Type 0 where
  pub constraint_name : Text
  pub fn : Option (M → Snapshot → Errors)

module _ {M : Type 0} where
  unfoldable pub func_name : ConstraintFunc M → Text
  func_name c = if c.constraint_name == "" then "custom" else c.constraint_name

  unfoldable pub func_validate : ConstraintFunc M → M → Errors
  func_validate c m = []

  unfoldable pub func_check : ConstraintFunc M → M → Snapshot → Errors
  func_check c m s = elim c.fn [ none ↦ [] | some f ↦ f m s ]

-- `domainOf`, over the signatures: the domain of the first one for the relation.
unfoldable pub domain_in : Relation → List PredicateSignature → EntityType
domain_in r [] = ""
domain_in r (g ∷ rest) =
    if (normalize_signature g).relation == new_relation r
    then (normalize_signature g).domain
    else domain_in r rest

-- The first lifecycle of a name.
unfoldable pub lifecycle_in : Text → List Lifecycle → Option Lifecycle
lifecycle_in n [] = none
lifecycle_in n (l ∷ rest) = if l.name == n then some l else lifecycle_in n rest

module _ {C : Type 0} where
  -- `Ontology.Normalize`
  unfoldable pub normalize_model : Ontology C → Ontology C
  normalize_model o = if o.normalized then o else record {
    entities = sort_stable text_less (names_from [] o.entities);
    signatures = sort_stable (by_name (λ g. g.relation)) (map normalize_signature o.signatures);
    disjoint = sort_stable (by_name (λ d. d.name)) (map normalize_set o.disjoint);
    functional = sort_stable (by_name (λ f. f.relation)) (map normalize_property o.functional);
    lifecycles = sort_stable (by_name (λ l. l.name)) (map normalize_lifecycle o.lifecycles);
    custom = o.custom;
    normalized = true;
  }

  unfoldable pub domain_of : Ontology C → Relation → EntityType
  domain_of o r = domain_in r o.signatures

  -- `Ontology.Lifecycle`
  unfoldable pub lifecycle_of : Ontology C → Text → Option Lifecycle
  lifecycle_of o n = lifecycle_in (normalize n) (normalize_model o).lifecycles
