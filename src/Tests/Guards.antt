-- ===== src/Tests/Guards.antt =====
-- Runs of the guard, and the results on them.
use cervo_rules.Prelude.{
  ◌≡◌, refl, ◌↔◌, ◌⊎◌, inl, inr, true, false, ℕ, eq_iff, none, some, List, [], ◌∷◌, Memᴰ,
}
use native.Mathlib.Decide.{dec_le}
use mathlib.Core.List.Memᴰ
use cervo_rules.Ontology.Guard.Bindings.{BoundTo, new_guard-bound_check}
use cervo_rules.Text.{
  Text, normalize, lower, trim_space, trim_right, trim_left, is_space, cons_trimmed, lower_char,
}
use cervo_rules.Core.Errors.{single}
use cervo_rules.Core.Types.{Request, metadata_value}
use cervo_rules.Core.Conditions.{Condition, new_condition}
use cervo_rules.Ontology.Names.{Individual}
use cervo_rules.Ontology.Snapshot.{Snapshot}
use cervo_rules.Ontology.Scope.{
  SnapshotResolver, resolve_once, with_request_scope, normalize_answer, foreign_error, read_scope,
}
use cervo_rules.Ontology.Guard.{
  new_guard, Check, Guard, bound_check, subject, explain, holds, ask, subject_for,
}
use cervo_rules.Ontology.Guard.Closed.{explain-closed}
use cervo_rules.Ontology.Guard.Meaning.{Meets, explain_iff}
use cervo_rules.Ontology.Guard.Once.{
  holds_all, holds_all-once, resolve_once-again, resolve_once-foreign, SameRequest,
}
use cervo_rules.Tests.Shop.{shop, day, request, counting, refund_check, named_constraint}

abbrev shop_guard : Guard Text ℕ
shop_guard = record {
  ontology = shop;
  resolve = some counting;
  checks = ("may_refund", refund_check) ∷ [];
}

explain_iff_example :
    ((explain shop_guard "may_refund" (request "r-1" "o-1") none 0).0.holds ≡ true) ↔ (
      (k : Check) × (resolve : SnapshotResolver ℕ) × (i : Individual) × (s : Snapshot)
      × (bound_check (new_condition "may_refund") shop_guard.checks ≡ some k)
      × (shop_guard.resolve ≡ some resolve)
      × (subject "may_refund" k (request "r-1" "o-1") ≡ inr i)
      × ((resolve_once none resolve (request "r-1" "o-1") 0).0 ≡ inr s)
      × Meets shop_guard.ontology k i s)
explain_iff_example = explain_iff shop_guard "may_refund" (request "r-1" "o-1") none 0

abbrev empty_guard : Guard Text ℕ
empty_guard = record { ontology = shop; resolve = some counting; checks = [] }

explain-closed_example :
    ((explain empty_guard "may_refund" (request "r-1" "o-1") none 0).0.holds ≡ false)
    × ((explain empty_guard "may_refund" (request "r-1" "o-1") none 0).0.violations ≡ [])
unfolding explain bound_check
explain-closed_example =
    explain-closed empty_guard "may_refund" (request "r-1" "o-1") none 0 (λ h. cc)

other_request : ¬ SameRequest "r-1" "r-2"
other_request h = elim h [
  | inl e ↦ cc
  | inr k ↦ elim k [ inl e ↦ cc | inr e ↦ let f : false ≡ true = (eq_iff "r-2" "r-1").1 e in cc ]
]

abbrev questions : List (Condition × Request)
questions = ("may_refund", request "r-1" "o-1") ∷ ("may_refund", request "r-1" "o-2") ∷ []

holds_all-once_example :
    let after = (holds_all shop_guard questions (with_request_scope none) 0).2 in
    (after ≡ 0)
    ⊎ ((resolve : SnapshotResolver ℕ) × (q : Condition × Request) × Memᴰ q questions
        × (shop_guard.resolve ≡ some resolve)
        × (after ≡ (resolve q.1 0).1))
holds_all-once_example = holds_all-once shop_guard questions none 0

resolve_once-again_example :
    let (answer, ctx', w') =
      resolve_once (with_request_scope none) counting (request "r-1" "o-1") 0 in
    (answer ≡ normalize_answer (inr day))
    × (w' ≡ 1)
    × (resolve_once ctx' counting (request "r-1" "o-2") w' ≡ (answer, ctx', w'))
resolve_once-again_example =
    resolve_once-again none counting counting (request "r-1" "o-1") (request "r-1" "o-2") 0
      (inr (inr refl))

resolve_once-foreign_example :
    let (answer, ctx', w') =
      resolve_once (with_request_scope none) counting (request "r-1" "o-1") 0 in
    resolve_once ctx' counting (request "r-2" "o-1") w'
    ≡ (inl (single (foreign_error "r-2" "r-1")), ctx', w')
resolve_once-foreign_example =
    resolve_once-foreign none counting counting (request "r-1" "o-1") (request "r-2" "o-1") 0
      other_request

-- Asked one after another in one scope, the two questions cost one call; without a scope, two.
one_call : (holds_all shop_guard questions (with_request_scope none) 0).2 ≡ 1
unfolding holds explain ask resolve_once with_request_scope bound_check subject subject_for
    normalize lower trim_space trim_right trim_left is_space cons_trimmed lower_char dec_le
    metadata_value read_scope normalize_answer
one_call = refl

abbrev bindings : List (Condition × Check)
bindings = ("May_Refund", refund_check) ∷ []

one_entry : BoundTo (new_condition "May_Refund") refund_check bindings
one_entry e m f = rw (Memᴰ.eq_of_singleton m) refl

new_guard-bound_check_example :
    bound_check (new_condition "May_Refund") (new_guard shop (some counting) bindings).0.checks
    ≡ some refund_check
new_guard-bound_check_example =
    new_guard-bound_check shop (some counting) bindings "May_Refund" refund_check (Memᴰ.head refl)
      one_entry
