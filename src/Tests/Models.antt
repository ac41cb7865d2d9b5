-- ===== src/Tests/Models.antt =====
-- Runs of the model's checks, and the results on them.
use cervo_rules.Prelude.{◌≡◌, refl, ◌↔◌, ◌≢◌, ◌⊎◌, true, [], ◌∷◌}
use mathlib.Core.List.Perm
use cervo_rules.Prelude.Sort.{sort_stable}
use cervo_rules.Ontology.Names.{EntityType, new_relation}
use cervo_rules.Ontology.Snapshot.{normalize_snapshot}
use cervo_rules.Ontology.Signature.{has_type}
use cervo_rules.Ontology.Constraints.{
  DisjointSet, normalize_set, check_disjoint, FunctionalProperty, normalize_property,
  check_functional,
}
use cervo_rules.Ontology.Constraints.Disjoint.{HeldApart, check_disjoint_iff}
use cervo_rules.Ontology.Constraints.Objects.{SingleValued}
use cervo_rules.Ontology.Constraints.Functional.{IsTotal, check_functional_iff}
use cervo_rules.Ontology.Model.{normalize_model, domain_of}
use cervo_rules.Ontology.Model.Validation.{duplicate_errors}
use cervo_rules.Ontology.Model.Check.{check, signature_for}
use cervo_rules.Ontology.Model.Typing.{HasType, has_type_iff}
use cervo_rules.Ontology.Model.Satisfies.{Satisfies, check_iff, check-perm}
use cervo_rules.Ontology.Model.Agreement.{domain_or_empty, domain_of-signature_for}
use cervo_rules.Tests.Shop.{shop, day, day_reversed, named_constraint}

check_iff_example :
    (check shop day ≡ []) ↔ Satisfies (normalize_model shop) (normalize_snapshot day)
check_iff_example = check_iff shop day

check-perm_example : check shop day ≡ check shop day_reversed
check-perm_example =
    check-perm shop day day_reversed refl refl (Perm.swap _ _ []) Perm.rfl (Perm.swap _ _ [])

has_type_iff_example : (has_type day "o-1" "order" ≡ true) ↔ HasType day "o-1" "order"
has_type_iff_example = has_type_iff day "o-1" "order"

abbrev kinds : DisjointSet
kinds = record { name = "kinds"; types = "order" ∷ "customer" ∷ [] }

check_disjoint_iff_example :
    (check_disjoint kinds day ≡ []) ↔ HeldApart (normalize_set kinds).types day.types
check_disjoint_iff_example = check_disjoint_iff kinds day

abbrev order_type : EntityType
order_type = "order"

abbrev owned : FunctionalProperty
owned = record { relation = "owned_by"; required = true }

check_functional_iff_example : (check_functional owned day "order" ≡ []) ↔ (
    ((normalize_property owned).relation ≡ "")
    ⊎ (SingleValued (normalize_property owned).relation day.relations
        × ((normalize_property owned).required ≡ true
            → order_type ≢ ""
            → IsTotal (normalize_property owned).relation "order" day)))
check_functional_iff_example = check_functional_iff owned day "order"

domain_of-signature_for_example :
    domain_of (normalize_model shop) "owned_by"
    ≡ domain_or_empty (signature_for (new_relation "owned_by") (normalize_model shop).signatures)
unfolding duplicate_errors normalize_model sort_stable
domain_of-signature_for_example = domain_of-signature_for shop "owned_by" refl refl
