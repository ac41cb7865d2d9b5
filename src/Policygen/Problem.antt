-- ===== src/Policygen/Problem.antt =====
-- internal/policygen/facts.go, internal/policygen/generator.go: the errors of validation.
use cervo_rules.Prelude.{ℕ, List}
use cervo_rules.Text.{Text}
use cervo_rules.Policygen.Schema.{Scalar}

-- One constructor for each message, with the values that it quotes.
pub data Problem (F : Type 0) : Type 0 where
  -- buildFactIndex
  fact_name_required : Problem F
  fact_name_invalid : Text → Problem F
  field_collision : Text → Text → Text → Problem F
  same_values : Text → Text → Text → Problem F
  bounds_under_two_keys : Text → Text → Text → Problem F
  undeclared_bounds : Text → Problem F
  -- parseFactKind
  unwanted_values : Text → Text → Problem F
  needs_values : Text → Problem F
  missing_type : Text → Problem F
  unknown_type : Text → Text → Problem F
  -- applyFactBounds, checkDefaultWithinBounds, checkFinite
  unbounded_kind : Text → Text → Problem F
  min_above_max : Text → Problem F
  fractional_bound : Text → Problem F
  inexact_bound : Text → F → Problem F
  empty_default : Text → Problem F
  undecoded_default : Text → Text → Problem F
  bad_default : Text → Problem F → Problem F
  below_minimum : Text → Scalar F → F → Problem F
  above_maximum : Text → Scalar F → F → Problem F
  infinite_bound : Text → Problem F
  -- coerceFactValue
  expected_number : Scalar F → Problem F
  not_finite : Problem F
  expected_integer : Scalar F → Problem F
  expected_bool : Scalar F → Problem F
  expected_string : Scalar F → Problem F
  outside_domain : Text → List Text → Problem F
  empty_value : Problem F
  padded_value : Text → Problem F
  unknown_kind : Text → Problem F
  -- validatePredicate, with the path of the node
  not_one_form : Text → Problem F
  undeclared_condition : Text → Text → Problem F
  undeclared_fact : Text → Text → Problem F
  fact_of_unknown_type : Text → Text → Problem F
  invalid_operator : Text → Text → Text → Problem F
  takes_no_value : Text → Text → Problem F
  in_needs_values : Text → Problem F
  in_takes_no_value : Text → Problem F
  bad_element : Text → ℕ → Problem F → Problem F
  takes_no_values : Text → Text → Problem F
  two_operands : Text → Problem F
  needs_operand : Text → Text → Problem F
  bad_value : Text → Problem F → Problem F
  undeclared_operand : Text → Text → Problem F
  mixed_kinds : Text → Text → Text → Text → Text → Problem F
  compared_to_itself : Text → Text → Problem F
  -- validate
  unsupported_version : Text → Problem F
  policy_name_required : Problem F
  unknown_default_executor : Text → Problem F
  missing_operation : Text → Problem F
  unknown_route_operation : Text → Text → Problem F
  route_collision : Text → Text → Text → Problem F
  unknown_target : Text → Text → Problem F
  unknown_executor : Text → Text → Problem F
  unknown_fallback : Text → Text → Problem F
  different_fallbacks : Text → Text → Text → Problem F
  deny_without_id : Problem F
  unknown_deny_operation : Text → Text → Problem F
  test_without_operation : Text → Problem F
  unread_bounds : List Text → Problem F
  -- validateConditions
  condition_name_required : Problem F
  condition_under_two_keys : Text → Text → Text → Problem F
  incomplete_transition : Text → Problem F
  incomplete_state : Text → Problem F
  incomplete_type : Text → Problem F
  missing_condition_kind : Text → Problem F
  unknown_condition_kind : Text → Text → Problem F
  -- validateRequires
  empty_requirement : Text → Text → Problem F
  undeclared_requirement : Text → Text → Text → Problem F
  repeated_requirement : Text → Text → Text → Problem F
  -- validateGenerateOptions, load
  invalid_package : Text → Problem F
  missing_vocabulary_package : Problem F
  invalid_vocabulary_package : Text → Problem F
  missing_vocabulary_import : Problem F
  missing_vocabulary_reader : Problem F
  missing_policy_reader : Problem F
  unread_vocabulary : Text → Problem F
  unread_policy : Text → Problem F
  undecoded_vocabulary : Text → Problem F
  undecoded_policy : Text → Problem F
