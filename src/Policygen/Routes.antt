-- ===== src/Policygen/Routes.antt =====
-- internal/policygen/generator.go: the names that the routes of a policy use.
use cervo_rules.Prelude.{
  ◌⊎◌, inl, inr, Bool, true, false, not, ◌&&◌, none, some, List, [], ◌∷◌, map, if◌then◌else◌, ◌==◌,
  elem, is_empty,
}
use cervo_rules.Prelude.Maps.{entry, put}
use cervo_rules.Prelude.Results.{◌>>=◌, ◌>>◌, reject_if}
use cervo_rules.Text.{Text, normalize, trim_space}
use cervo_rules.Policygen.Schema.{Vocabulary, VocabularyEntry, RouteSpec}
use cervo_rules.Policygen.Problem.{Problem}

pub record VocabularyIndex : Type 0 where
  pub operations : List Text
  pub targets : List Text
  pub executors : List Text

-- `newVocabularyIndex`
unfoldable pub new_vocabulary_index : Vocabulary → VocabularyIndex
new_vocabulary_index v = record {
  operations = map {A = Text × VocabularyEntry} (λ e. normalize e.0) v.operations;
  targets = map {A = Text × VocabularyEntry} (λ e. normalize e.0) v.targets;
  executors = map {A = Text × VocabularyEntry} (λ e. normalize e.0) v.executors;
}

unfoldable pub has_operation : VocabularyIndex → Text → Bool
has_operation i value = elem (normalize value) i.operations

unfoldable pub has_target : VocabularyIndex → Text → Bool
has_target i value = elem (normalize value) i.targets

unfoldable pub has_executor : VocabularyIndex → Text → Bool
has_executor i value = elem (normalize value) i.executors

unfoldable pub normalize_all : List Text → List Text
normalize_all values = map normalize values

unfoldable pub equal_strings : List Text → List Text → Bool
equal_strings [] [] = true
equal_strings (a ∷ as') (b ∷ bs) = a == b && equal_strings as' bs
equal_strings [] (b ∷ bs) = false
equal_strings (a ∷ as') [] = false

-- `routeFallbacks`
pub record RouteFallbacks : Type 0 where
  pub route : Text
  pub fallbacks : List Text

module _ {F : Type 0} where
  unfoldable pub validate_fallbacks : VocabularyIndex → Text → List Text → Problem F ⊎ Unit {0}
  validate_fallbacks index id [] = inr tt
  validate_fallbacks index id (x ∷ rest) =
      reject_if (not (has_executor index x)) (Problem.unknown_fallback x id)
      >> validate_fallbacks index id rest

  -- The fallbacks of a route against those seen for its executor.
  unfoldable pub agree_fallbacks :
      List (Text × RouteFallbacks) → RouteSpec F → Problem F ⊎ List (Text × RouteFallbacks)
  agree_fallbacks seen r =
      if is_empty r.fallback_executors then inr seen else elim (entry (normalize r.executor) seen) [
        | some previous ↦
            if equal_strings previous.fallbacks (normalize_all r.fallback_executors)
            then inr seen
            else inl (Problem.different_fallbacks previous.route r.id r.executor)
        | none ↦ inr (
            put (normalize r.executor)
              (record { route = r.id; fallbacks = normalize_all r.fallback_executors }) seen)
      ]

  -- What a route names: its operation, target, executor and fallbacks.
  unfoldable pub validate_route_names :
      VocabularyIndex → List (Text × Text) → RouteSpec F → Problem F ⊎ Unit {0}
  validate_route_names index seen r =
      reject_if (trim_space r.operation == "") (Problem.missing_operation r.id)
      >> (reject_if (not (has_operation index r.operation))
            (Problem.unknown_route_operation r.operation r.id)
          >> (elim (entry (normalize r.operation) seen) [
            | some previous ↦ inl (Problem.route_collision previous r.id r.operation)
            | none ↦
                reject_if (not (has_target index r.target)) (Problem.unknown_target r.target r.id)
                >> (reject_if (not (has_executor index r.executor))
                      (Problem.unknown_executor r.executor r.id)
                    >> validate_fallbacks index r.id r.fallback_executors)
          ]))

  -- The first loop over the routes, with `seenRouteOperations` and `seenFallbacks`.
  unfoldable pub validate_routes :
      VocabularyIndex
      → List (Text × Text)
      → List (Text × RouteFallbacks)
      → List (RouteSpec F)
      → Problem F ⊎ Unit {0}
  validate_routes index seen fallbacks [] = inr tt
  validate_routes index seen fallbacks (r ∷ rest) =
      validate_route_names index seen r
      >> (agree_fallbacks fallbacks r >>= λ fallbacks'.
          validate_routes index (put (normalize r.operation) r.id seen) fallbacks' rest)
