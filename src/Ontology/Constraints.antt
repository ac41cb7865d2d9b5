-- ===== src/Ontology/Constraints.antt =====
-- ontology/constraints.go: disjoint sets of types, and functional relations.
pub mod Disjoint
pub mod Objects
pub mod Functional
use cervo_rules.Prelude.{
  ◌&◌, ◌≡◌, Bool, true, false, not, ◌&&◌, ◌||◌, List, [], ◌∷◌, ◌++◌, if◌then◌else◌, ◌==◌, elem, ltb,
  length, is_empty, keep, map,
}
use cervo_rules.Prelude.Sort.{sort_stable}
use cervo_rules.Text.{Text, normalize, text_less, join}
use cervo_rules.Core.Error.{Error}
use cervo_rules.Core.Errors.{Errors}
use cervo_rules.Ontology.Names.{
  EntityType, Individual, Relation, new_entity_type, new_individual, new_relation, names_from,
  fatal_error, error_code_disjoint_violation, error_code_functional_violation,
}
use cervo_rules.Ontology.Snapshot.{TypeAssertion, RelationAssertion, Snapshot}
use cervo_rules.Ontology.Groups.{Groups, no_groups, group_add, group_errors}

pub record DisjointSet : Type 0 where
  pub name : Text
  pub types : List EntityType

unfoldable pub normalize_set : DisjointSet → DisjointSet
normalize_set d = record {
  name = normalize d.name;
  types = sort_stable text_less (names_from [] d.types);
}

-- The first loop of `DisjointSet.check`.
unfoldable pub hold_types : List EntityType → Groups → List TypeAssertion → Groups
hold_types members g [] = g
hold_types members g (a ∷ rest) =
    let i = new_individual a.individual in
    let t = new_entity_type a.type in
    hold_types members (if elem t members then group_add g i t else g) rest

unfoldable pub disjoint_error : DisjointSet → Individual → List EntityType → Error
disjoint_error d i types = record fatal_error {
  code = error_code_disjoint_violation;
  field = "constraints.disjoint." & d.name;
  value = i;
  reason = "individual holds disjoint types " & (join ", " types & (" from set " & d.name));
  suggestion = "remove one of the conflicting type assertions";
}

-- `DisjointSet.check`, of a set that is already normalized.
unfoldable pub set_errors : DisjointSet → Snapshot → Errors
set_errors d s =
    let g = hold_types d.types no_groups s.types in
    if ltb (length d.types) 2 then [] else group_errors (disjoint_error d) g g.order

unfoldable pub check_disjoint : DisjointSet → Snapshot → Errors
check_disjoint d s = set_errors (normalize_set d) s

pub record FunctionalProperty : Type 0 where
  pub relation : Relation
  pub required : Bool

unfoldable pub normalize_property : FunctionalProperty → FunctionalProperty
normalize_property f = record f { relation = new_relation f.relation }

-- The first loop of `FunctionalProperty.check`.
unfoldable pub bind_objects : Relation → Groups → List RelationAssertion → Groups
bind_objects r g [] = g
bind_objects r g (a ∷ rest) =
    let subject = new_individual a.subject in
    let object = new_individual a.object in
    bind_objects r (if new_relation a.relation == r then group_add g subject object else g) rest

unfoldable pub bound_error : FunctionalProperty → Individual → List Individual → Error
bound_error f subject objects = record fatal_error {
  code = error_code_functional_violation;
  field = "constraints.functional." & f.relation;
  value = subject;
  reason =
      "functional relation " & (f.relation & (" bound to multiple objects: " & join ", " objects));
  suggestion = "keep a single object for this relation, or drop the functional constraint";
}

unfoldable pub missing_error : FunctionalProperty → EntityType → Individual → Error
missing_error f domain i = record fatal_error {
  code = error_code_functional_violation;
  field = "constraints.functional." & f.relation;
  value = i;
  reason = "required functional relation " & (f.relation & (" has no object for this " & domain));
  suggestion = "assert exactly one object for this relation";
}

-- The loop of `domainIndividuals`.
unfoldable pub individuals_from :
    EntityType → List Individual → List TypeAssertion → List Individual
individuals_from domain seen [] = []
individuals_from domain seen (a ∷ rest) =
    let i = new_individual a.individual in
    let skipped = individuals_from domain seen rest in
    let kept = i ∷ individuals_from domain (i ∷ seen) rest in
    if not (new_entity_type a.type == domain) || elem i seen then skipped else kept

unfoldable pub domain_individuals : Snapshot → EntityType → List Individual
domain_individuals s domain = sort_stable text_less (individuals_from domain [] s.types)

-- The last loop: the individuals of the domain with no object.
unfoldable pub missing_errors : FunctionalProperty → EntityType → Groups → List Individual → Errors
missing_errors f domain g [] = []
missing_errors f domain g (i ∷ rest) =
    if is_empty (g.held i)
    then missing_error f domain i ∷ missing_errors f domain g rest
    else missing_errors f domain g rest

-- `FunctionalProperty.check`, of a property that is already normalized.
unfoldable pub property_errors : FunctionalProperty → Snapshot → EntityType → Errors
property_errors f s domain =
    let g = bind_objects f.relation no_groups s.relations in
    if f.relation == ""
    then []
    else group_errors (bound_error f) g g.order
      ++ (if not f.required || domain == ""
          then []
          else missing_errors f domain g (domain_individuals s domain))

unfoldable pub check_functional : FunctionalProperty → Snapshot → EntityType → Errors
check_functional f s domain = property_errors (normalize_property f) s domain
