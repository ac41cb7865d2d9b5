-- ===== src/Core/Codes.antt =====
-- core/errors.go: the catalog of error codes and severities.
use cervo_rules.Text.{Text}

-- `ErrorCode` and `Severity` are open string types.
abbrev pub ErrorCode : Type 0
ErrorCode = Text

abbrev pub Severity : Type 0
Severity = Text

abbrev pub error_code_invalid_rule : ErrorCode
error_code_invalid_rule = "invalid_rule"

abbrev pub error_code_invalid_config : ErrorCode
error_code_invalid_config = "invalid_config"

abbrev pub error_code_empty_operation : ErrorCode
error_code_empty_operation = "empty_operation"

abbrev pub error_code_unknown_operation : ErrorCode
error_code_unknown_operation = "unknown_operation"

abbrev pub error_code_empty_target : ErrorCode
error_code_empty_target = "empty_target"

abbrev pub error_code_unknown_target : ErrorCode
error_code_unknown_target = "unknown_target"

abbrev pub error_code_empty_executor : ErrorCode
error_code_empty_executor = "empty_executor"

abbrev pub error_code_unknown_executor : ErrorCode
error_code_unknown_executor = "unknown_executor"

abbrev pub error_code_renamed_primitive : ErrorCode
error_code_renamed_primitive = "renamed_primitive"

abbrev pub error_code_unsupported_feature : ErrorCode
error_code_unsupported_feature = "unsupported_feature"

abbrev pub error_code_deprecated_field : ErrorCode
error_code_deprecated_field = "deprecated_field"

abbrev pub error_code_invalid_runtime_config : ErrorCode
error_code_invalid_runtime_config = "invalid_runtime_config"

abbrev pub error_code_invalid_policy_schema : ErrorCode
error_code_invalid_policy_schema = "invalid_policy_schema"

abbrev pub error_code_schema_validation_failed : ErrorCode
error_code_schema_validation_failed = "schema_validation_failed"

abbrev pub error_code_policy_build_failed : ErrorCode
error_code_policy_build_failed = "policy_build_failed"

abbrev pub error_code_generated_policy_invalid : ErrorCode
error_code_generated_policy_invalid = "generated_policy_invalid"

abbrev pub error_code_deprecated_generated_api : ErrorCode
error_code_deprecated_generated_api = "deprecated_generated_api"

abbrev pub error_code_compat_breaking_change : ErrorCode
error_code_compat_breaking_change = "compat_breaking_change"

abbrev pub error_code_internal_invariant_failed : ErrorCode
error_code_internal_invariant_failed = "internal_invariant_failed"

abbrev pub error_code_evaluation_failed : ErrorCode
error_code_evaluation_failed = "evaluation_failed"

abbrev pub error_code_context_canceled : ErrorCode
error_code_context_canceled = "context_canceled"

abbrev pub error_code_context_deadline_exceeded : ErrorCode
error_code_context_deadline_exceeded = "context_deadline_exceeded"

abbrev pub error_code_budget_exceeded : ErrorCode
error_code_budget_exceeded = "budget_exceeded"

abbrev pub error_code_unsafe_rule : ErrorCode
error_code_unsafe_rule = "unsafe_rule"

abbrev pub error_code_unsafe_negation : ErrorCode
error_code_unsafe_negation = "unsafe_negation"

abbrev pub error_code_max_facts_exceeded : ErrorCode
error_code_max_facts_exceeded = "max_facts_exceeded"

abbrev pub error_code_max_bindings_exceeded : ErrorCode
error_code_max_bindings_exceeded = "max_bindings_exceeded"

abbrev pub error_code_max_iterations_exceeded : ErrorCode
error_code_max_iterations_exceeded = "max_iterations_exceeded"

abbrev pub error_code_expensive_rule : ErrorCode
error_code_expensive_rule = "expensive_rule"

abbrev pub error_code_rule_disabled : ErrorCode
error_code_rule_disabled = "rule_disabled"

abbrev pub error_code_unknown_condition : ErrorCode
error_code_unknown_condition = "unknown_condition"

abbrev pub error_code_condition_failed : ErrorCode
error_code_condition_failed = "condition_failed"

abbrev pub error_code_missing_conditions : ErrorCode
error_code_missing_conditions = "missing_conditions"

abbrev pub error_code_missing_fact : ErrorCode
error_code_missing_fact = "missing_fact"

abbrev pub error_code_invalid_fact : ErrorCode
error_code_invalid_fact = "invalid_fact"

abbrev pub error_code_body_bytes_exceeded : ErrorCode
error_code_body_bytes_exceeded = "body_bytes_exceeded"

abbrev pub error_code_max_tokens_exceeded : ErrorCode
error_code_max_tokens_exceeded = "max_tokens_exceeded"

abbrev pub error_code_stream_not_allowed : ErrorCode
error_code_stream_not_allowed = "stream_not_allowed"

abbrev pub error_code_tools_not_allowed : ErrorCode
error_code_tools_not_allowed = "tools_not_allowed"

abbrev pub error_code_images_not_allowed : ErrorCode
error_code_images_not_allowed = "images_not_allowed"

abbrev pub severity_info : Severity
severity_info = "info"

abbrev pub severity_warning : Severity
severity_warning = "warning"

abbrev pub severity_error : Severity
severity_error = "error"

abbrev pub severity_fatal : Severity
severity_fatal = "fatal"
