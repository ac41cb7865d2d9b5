-- ===== src/Tests/Lifecycles.antt =====
-- Runs of the lifecycles, and the results on them.
use cervo_rules.Prelude.{◌≡◌, refl, ◌↔◌, [], Memᴰ}
use mathlib.Core.List.Perm
use cervo_rules.Ontology.Names.{new_state}
use cervo_rules.Ontology.Snapshot.{normalize_snapshot}
use cervo_rules.Ontology.Snapshot.Order.{normalize_snapshot-perm}
use cervo_rules.Ontology.Lifecycle.{normalize_lifecycle, search_from, unreachable_from}
use cervo_rules.Ontology.Lifecycle.Check.{check_transition, check_single_state}
use cervo_rules.Ontology.Lifecycle.Reach.{Reach, search_from_ends, unreachable_from_iff}
use cervo_rules.Ontology.Lifecycle.Validation as LifecycleValidation
use cervo_rules.Ontology.Lifecycle.WellFormed.{WellFormed, validate_iff}
use cervo_rules.Ontology.Lifecycle.Single.{Agree, check_single_state_iff}
use cervo_rules.Ontology.Lifecycle.Legal.{LegalMove, check_transition_iff}
use cervo_rules.Tests.Shop.{order, day, day_reversed}

check_transition_iff_example :
    (check_transition order day "o-1" "refunded" ≡ [])
    ↔ LegalMove order day "o-1" (new_state "refunded")
check_transition_iff_example = check_transition_iff order day "o-1" "refunded" (λ h. cc) (λ h. cc)

check_single_state_iff_example :
    (check_single_state order day "o-1" ≡ [])
    ↔ Agree (normalize_lifecycle order) "o-1" (normalize_snapshot day).states
check_single_state_iff_example = check_single_state_iff order day "o-1"

search_from_ends_example : (search_from order "placed").queue ≡ []
search_from_ends_example = search_from_ends order "placed"

unreachable_from_iff_example :
    Memᴰ "lost" (unreachable_from order "placed")
    ↔ (Memᴰ "lost" order.states × ¬ Reach order "placed" "lost")
unreachable_from_iff_example = unreachable_from_iff order "placed" "lost"

normalize_snapshot-perm_example : normalize_snapshot day ≡ normalize_snapshot day_reversed
normalize_snapshot-perm_example =
    normalize_snapshot-perm day day_reversed refl refl (Perm.swap _ _ []) Perm.rfl
      (Perm.swap _ _ [])

validate_iff_example :
    (LifecycleValidation.validate order ≡ []) ↔ WellFormed (normalize_lifecycle order)
validate_iff_example = validate_iff order
