-- ===== src/Ontology/Signature.antt =====
-- ontology/signature.go: the domain and range of a relation.
use cervo_rules.Prelude.{◌&◌, Bool, not, ◌&&◌, [], ◌∷◌, ◌++◌, if◌then◌else◌, ◌==◌, elem}
use cervo_rules.Text.{Text}
use cervo_rules.Core.Codes.{severity_error}
use cervo_rules.Core.Error.{Error}
use cervo_rules.Core.Errors.{Errors}
use cervo_rules.Ontology.Names.{
  EntityType, Individual, Relation, new_entity_type, new_relation, fatal_error,
  error_code_domain_violation, error_code_range_violation,
}
use cervo_rules.Ontology.Snapshot.{RelationAssertion, Snapshot, types_of}

pub record PredicateSignature : Type 0 where
  pub relation : Relation
  pub domain : EntityType
  pub range : EntityType
  pub description : Text

unfoldable pub normalize_signature : PredicateSignature → PredicateSignature
normalize_signature s = record s {
  relation = new_relation s.relation;
  domain = new_entity_type s.domain;
  range = new_entity_type s.range;
}

unfoldable pub has_type : Snapshot → Individual → EntityType → Bool
has_type s i want = elem want (types_of s i)

unfoldable pub domain_error : PredicateSignature → RelationAssertion → Error
domain_error g a = record fatal_error {
  code = error_code_domain_violation;
  severity = severity_error;
  field = "relations." & (g.relation & ".subject");
  value = a.subject;
  reason = "subject of " & (g.relation & (" must be of type " & g.domain));
  suggestion = "assert the subject type before relating it, or fix the relation";
}

unfoldable pub range_error : PredicateSignature → RelationAssertion → Error
range_error g a = record fatal_error {
  code = error_code_range_violation;
  severity = severity_error;
  field = "relations." & (g.relation & ".object");
  value = a.object;
  reason = "object of " & (g.relation & (" must be of type " & g.range));
  suggestion = "assert the object type before relating it, or fix the relation";
}

-- `checkAssertion`, of a signature that is already normalized.
unfoldable pub assertion_errors : PredicateSignature → Snapshot → RelationAssertion → Errors
assertion_errors g s a =
    (if not (g.domain == "") && not (has_type s a.subject g.domain)
      then domain_error g a ∷ []
      else [])
    ++ (if not (g.range == "") && not (has_type s a.object g.range)
        then range_error g a ∷ []
        else [])

-- `PredicateSignature.checkAssertion`
unfoldable pub check_assertion : PredicateSignature → Snapshot → RelationAssertion → Errors
check_assertion g s a = assertion_errors (normalize_signature g) s a
