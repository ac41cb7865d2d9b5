-- ===== src/Policygen/Validate.antt =====
-- internal/policygen/generator.go: the validation of a policy against a vocabulary.
use cervo_rules.Prelude.{
  ◌&◌, ◌⊎◌, inr, not, ◌&&◌, List, [], ◌∷◌, if◌then◌else◌, ◌==◌, elem, is_empty,
}
use cervo_rules.Prelude.Results.{◌>>=◌, ◌>>◌, reject_if}
use cervo_rules.Prelude.Sort.{sort_stable}
use cervo_rules.Text.{Text, normalize, trim_space, text_less}
use cervo_rules.Float.{Float}
use cervo_rules.Policygen.Schema.{
  FactBounds, FactIndex, MaybePredicate, nothing, just, Vocabulary, RouteSpec, DenySpec, TestSpec,
  Policy,
}
use cervo_rules.Policygen.Problem.{Problem}
use cervo_rules.Policygen.Facts.{build_fact_index}
use cervo_rules.Policygen.Predicate.{validate_predicate}
use cervo_rules.Policygen.Quote.{quote}
use cervo_rules.Policygen.Routes.{
  VocabularyIndex, new_vocabulary_index, has_operation, has_executor, validate_routes,
}
use cervo_rules.Policygen.Conditions.{validate_conditions, validate_requires}

abbrev pub supported_policy_version : Text
supported_policy_version = "cervorules.policy.v3"

-- `policyPlan`
pub record PolicyPlan (F : Type 0) : Type 0 where
  pub facts : FactIndex F
  pub referenced : List Text

module _ {F : Type 0} where
  -- `if x.When == nil { continue }; validatePredicate(...)`
  unfoldable pub validate_guard :
      ⦃fl : Float F⦄
      → FactIndex F
      → List Text
      → MaybePredicate F
      → List Text
      → Text
      → Problem F ⊎ List Text
  validate_guard facts declared nothing referenced path = inr referenced
  validate_guard facts declared (just p) referenced path =
      validate_predicate facts declared p referenced path

  -- The second loop over the routes.
  unfoldable pub validate_route_rules :
      ⦃fl : Float F⦄
      → FactIndex F
      → List Text
      → List Text
      → List (RouteSpec F)
      → Problem F ⊎ List Text
  validate_route_rules facts declared referenced [] = inr referenced
  validate_route_rules facts declared referenced (r ∷ rest) =
      validate_requires declared [] r.requires "route" r.id
      >> (validate_guard facts declared r.guard referenced ("route " & (quote r.id & " when"))
          >>= λ referenced'. validate_route_rules facts declared referenced' rest)

  -- The loop over the denies.
  unfoldable pub validate_denies :
      ⦃fl : Float F⦄
      → VocabularyIndex
      → FactIndex F
      → List Text
      → List Text
      → List (DenySpec F)
      → Problem F ⊎ List Text
  validate_denies index facts declared referenced [] = inr referenced
  validate_denies index facts declared referenced (d ∷ rest) =
      reject_if (trim_space d.id == "") Problem.deny_without_id
      >> (reject_if
            (not (trim_space d.operation == "")
              && not (has_operation index (trim_space d.operation)))
            (Problem.unknown_deny_operation d.operation d.id)
          >> (validate_requires declared [] d.requires "deny" d.id
              >> (validate_guard facts declared d.guard referenced
                    ("deny " & (quote d.id & " when"))
                  >>= λ referenced'. validate_denies index facts declared referenced' rest)))

  unfoldable pub validate_tests : List TestSpec → Problem F ⊎ Unit {0}
  validate_tests [] = inr tt
  validate_tests (t ∷ rest) =
      reject_if (t.request.operation == "") (Problem.test_without_operation t.name)
      >> validate_tests rest

  -- The names of the facts that have bounds and that no rule reads.
  unfoldable pub unread : List Text → List (Text × FactBounds F) → List Text
  unread referenced [] = []
  unread referenced ((name, d) ∷ rest) =
      if elem (normalize name) referenced
      then unread referenced rest
      else name ∷ unread referenced rest

  -- `rejectUnreadFactBounds`
  unfoldable pub reject_unread_fact_bounds :
      List (Text × FactBounds F) → List Text → Problem F ⊎ Unit {0}
  reject_unread_fact_bounds facts referenced =
      reject_if (not (is_empty (unread referenced facts)))
        (Problem.unread_bounds (sort_stable text_less (unread referenced facts)))

  -- `validate`
  unfoldable pub validate : ⦃fl : Float F⦄ → Vocabulary → Policy F → Problem F ⊎ PolicyPlan F
  validate vocab p = do
    reject_if (not (p.version == supported_policy_version)) (Problem.unsupported_version p.version)
    reject_if (trim_space p.name == "") Problem.policy_name_required
    let index = new_vocabulary_index vocab
    reject_if (not (p.default_executor == "") && not (has_executor index p.default_executor))
        (Problem.unknown_default_executor p.default_executor)
    validate_routes index [] [] p.routes
    declared ← validate_conditions p.conditions
    facts ← build_fact_index vocab.facts p.facts
    routed ← validate_route_rules facts declared [] p.routes
    referenced ← validate_denies index facts declared routed p.denies
    validate_tests p.tests
    reject_unread_fact_bounds p.facts referenced
    inr (record { facts = facts; referenced = sort_stable text_less referenced })
