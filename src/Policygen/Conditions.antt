-- ===== src/Policygen/Conditions.antt =====
-- internal/policygen/generator.go: the conditions that a policy declares, and those that a rule requires.
use cervo_rules.Prelude.{
  ◌⊎◌, inl, inr, not, ◌||◌, none, some, List, [], ◌∷◌, if◌then◌else◌, ◌==◌, elem, is_empty,
}
use cervo_rules.Prelude.Maps.{entry, put, mark}
use cervo_rules.Prelude.Results.{◌>>◌, reject_if}
use cervo_rules.Text.{Text, normalize, trim_space}
use cervo_rules.Policygen.Schema.{ConditionSpec}
use cervo_rules.Policygen.Problem.{Problem}
use cervo_rules.Policygen.Facts.{sorted_entries}

module _ {F : Type 0} where
  -- The fields that the kind of a condition needs.
  unfoldable pub validate_condition : Text → ConditionSpec → Problem F ⊎ Unit {0}
  validate_condition name c =
      if c.kind == "transition_allowed"
      then reject_if (c.lifecycle == "" || c.to == "" || c.subject_key == "")
          (Problem.incomplete_transition name)
      else if c.kind == "in_state"
      then reject_if (c.lifecycle == "" || c.subject_key == "" || is_empty c.states)
          (Problem.incomplete_state name)
      else if c.kind == "has_type"
      then reject_if (c.entity_type == "" || c.subject_key == "") (Problem.incomplete_type name)
      else if c.kind == "integrity"
      then inr tt
      else if c.kind == ""
      then inl (Problem.missing_condition_kind name)
      else inl (Problem.unknown_condition_kind name c.kind)

  -- The loop of `validateConditions`, with `seen` and `declared`.
  unfoldable pub declare_conditions :
      List (Text × Text) → List Text → List (Text × ConditionSpec) → Problem F ⊎ List Text
  declare_conditions seen declared [] = inr declared
  declare_conditions seen declared ((name, c) ∷ rest) =
      reject_if (trim_space name == "") Problem.condition_name_required
      >> (elim (entry (normalize name) seen) [
        | some previous ↦ inl (Problem.condition_under_two_keys (normalize name) previous name)
        | none ↦
            validate_condition name c
            >> declare_conditions (put (normalize name) name seen) (mark (normalize name) declared)
                rest
      ])

  -- `validateConditions`
  unfoldable pub validate_conditions : List (Text × ConditionSpec) → Problem F ⊎ List Text
  validate_conditions conditions = declare_conditions [] [] (sorted_entries conditions)

  -- `validateRequires`, with `seen`.
  unfoldable pub validate_requires :
      List Text → List Text → List Text → Text → Text → Problem F ⊎ Unit {0}
  validate_requires declared seen [] kind id = inr tt
  validate_requires declared seen (name ∷ rest) kind id =
      reject_if (normalize name == "") (Problem.empty_requirement kind id)
      >> (reject_if (not (elem (normalize name) declared))
            (Problem.undeclared_requirement kind id name)
          >> (reject_if (elem (normalize name) seen) (Problem.repeated_requirement kind id name)
              >> validate_requires declared (mark (normalize name) seen) rest kind id))
