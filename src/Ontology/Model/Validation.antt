-- ===== src/Ontology/Model/Validation.antt =====
-- ontology/ontology.go: `Validate`, the check of the definition itself.
use cervo_rules.Prelude.{
  ◌&◌, ◌&&◌, ◌||◌, Option, none, some, List, [], ◌∷◌, ◌++◌, map, if◌then◌else◌, ◌==◌, elem, ltb,
  length, flat,
}
use cervo_rules.Text.{Text}
use cervo_rules.Core.Codes.{error_code_invalid_config, severity_warning}
use cervo_rules.Core.Error.{Error}
use cervo_rules.Core.Errors
use cervo_rules.Core.Errors.{Errors}
use cervo_rules.Ontology.Names.{
  EntityType, Relation, fatal_error, error_code_functional_violation,
  error_code_unknown_entity_type,
}
use cervo_rules.Ontology.Signature.{PredicateSignature}
use cervo_rules.Ontology.Constraints.{DisjointSet, FunctionalProperty}
use cervo_rules.Ontology.Lifecycle.{Lifecycle}
use cervo_rules.Ontology.Lifecycle.Validation as LifecycleValidation
use cervo_rules.Ontology.Model.{Ontology, Constraint, normalize_model, domain_of}

unfoldable pub duplicate_error : Relation → Error
duplicate_error r = record fatal_error {
  code = error_code_functional_violation;
  field = "signatures";
  value = r;
  reason = "relation has more than one predicate signature";
  suggestion = "declare one signature per relation";
}

-- The loop over the signatures that have been seen.
unfoldable pub duplicate_errors : List Relation → List PredicateSignature → Errors
duplicate_errors seen [] = []
duplicate_errors seen (g ∷ rest) =
    let again = duplicate_error g.relation ∷ duplicate_errors seen rest in
    let first = duplicate_errors (g.relation ∷ seen) rest in
    if elem g.relation seen then again else first

unfoldable pub unknown_entity : List EntityType → Text → EntityType → Errors
unknown_entity declared field t =
    if t == "" || elem t declared
    then []
    else record fatal_error {
      code = error_code_unknown_entity_type;
      field = field;
      value = t;
      reason = "entity type is not declared in entities";
      suggestion = "declare the entity type before referencing it";
    }
      ∷ []

unfoldable pub signature_error : List EntityType → PredicateSignature → Errors
signature_error declared g =
    unknown_entity declared ("signatures." & (g.relation & ".domain")) g.domain
    ++ unknown_entity declared ("signatures." & (g.relation & ".range")) g.range

unfoldable pub small_set_errors : DisjointSet → Errors
small_set_errors d =
    if ltb (length d.types) 2
    then record fatal_error {
      code = error_code_invalid_config;
      severity = severity_warning;
      field = "constraints.disjoint." & d.name;
      reason = "disjoint set needs at least two types to constrain anything";
      suggestion = "add another type or remove the set";
    }
      ∷ []
    else []

unfoldable pub disjoint_errors : List EntityType → DisjointSet → Errors
disjoint_errors declared d =
    flat (unknown_entity declared ("constraints.disjoint." & d.name)) d.types ++ small_set_errors d

unfoldable pub unnamed_error : Error
unnamed_error = record fatal_error {
  code = error_code_invalid_config;
  field = "constraints.functional";
  reason = "functional constraint requires a relation name";
}

unfoldable pub unsigned_error : Relation → Error
unsigned_error r = record fatal_error {
  code = error_code_invalid_config;
  severity = severity_warning;
  field = "constraints.functional." & r;
  value = r;
  reason = "functional relation has no declared signature";
  suggestion = "declare a signature so domain and range are checked too";
}

unfoldable pub no_domain_error : Relation → Error
no_domain_error r = record fatal_error {
  code = error_code_invalid_config;
  field = "constraints.functional." & (r & ".required");
  value = r;
  reason = "required functional relation has no declared domain to quantify over";
  suggestion = "declare a signature with a domain for this relation, or drop required";
}

unfoldable pub lifecycle_errors : List EntityType → Lifecycle → Errors
lifecycle_errors declared l =
    unknown_entity declared ("lifecycles." & (l.name & ".entity")) l.entity
    ++ LifecycleValidation.validate l

module _ {C : Type 0} where
  unfoldable pub property_errors : Ontology C → FunctionalProperty → Errors
  property_errors m f =
      if f.relation == ""
      then unnamed_error ∷ []
      else (if elem f.relation (map (λ g. g.relation) m.signatures)
          then []
          else unsigned_error f.relation ∷ [])
        ++ (if f.required && domain_of m f.relation == ""
            then no_domain_error f.relation ∷ []
            else [])

  unfoldable pub custom_errors : ⦃c : Constraint C⦄ → Ontology C → Option C → Errors
  custom_errors m none = []
  custom_errors ⦃c⦄ m (some k) = c.validate k m

  -- `Ontology.Validate`, of a model that is already normalized.
  unfoldable pub validate_normal : ⦃c : Constraint C⦄ → Ontology C → Errors
  validate_normal m = Errors.sort_stable (
      duplicate_errors [] m.signatures
      ++ flat (signature_error m.entities) m.signatures
      ++ flat (disjoint_errors m.entities) m.disjoint
      ++ flat (property_errors m) m.functional
      ++ flat (custom_errors m) m.custom
      ++ flat (lifecycle_errors m.entities) m.lifecycles)

  unfoldable pub validate : ⦃c : Constraint C⦄ → Ontology C → Errors
  validate o = validate_normal (normalize_model o)
