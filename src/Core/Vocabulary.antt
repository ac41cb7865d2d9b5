-- ===== src/Core/Vocabulary.antt =====
-- core/vocabulary.go: the fixed sets of operations, targets and executors.
pub mod Valid
use cervo_rules.Prelude.{
  ℕ, suc, ◌&◌, ◌≡◌, Bool, true, false, ◌||◌, Option, none, some, List, [], ◌∷◌, ◌++◌, map,
  if◌then◌else◌, ◌==◌, elem, is_empty,
}
use cervo_rules.Text.{Text, normalize, decimal}
use cervo_rules.Core.Codes.{
  error_code_empty_operation, error_code_empty_target, error_code_empty_executor,
  error_code_unknown_operation, error_code_unknown_target, error_code_unknown_executor,
  error_code_invalid_config,
}
use cervo_rules.Core.Error.{Error, zero_error}
use cervo_rules.Core.Errors
use cervo_rules.Core.Errors.{Errors, Failure, single, many, other, message}
use cervo_rules.Core.Types.{
  Operation, Target, Executor, Request, Decision, new_operation, new_target, new_executor,
}

-- A set is the list of the names that were put into it; it is read by its emptiness and by
-- membership alone. The zero value has three empty sets.
pub record StaticVocabulary : Type 0 where
  pub operations : List Operation
  pub targets : List Target
  pub executors : List Executor

-- An option may be nil.
abbrev pub VocabularyOption : Type 0
VocabularyOption = Option (StaticVocabulary → StaticVocabulary)

unfoldable pub apply_options : StaticVocabulary → List VocabularyOption → StaticVocabulary
apply_options v [] = v
apply_options v (none ∷ rest) = apply_options v rest
apply_options v (some f ∷ rest) = apply_options (f v) rest

unfoldable pub new_vocabulary : List VocabularyOption → StaticVocabulary
new_vocabulary options =
    apply_options (record { operations = []; targets = []; executors = [] }) options

-- `operationSet`, `targetSet` and `executorSet`
unfoldable pub name_set : List Text → List Text
name_set [] = []
name_set (x ∷ xs) = if normalize x == "" then name_set xs else normalize x ∷ name_set xs

unfoldable pub allowed_operations : List Operation → VocabularyOption
allowed_operations xs = some (λ v. record v { operations = name_set xs })

unfoldable pub allowed_targets : List Target → VocabularyOption
allowed_targets xs = some (λ v. record v { targets = name_set xs })

unfoldable pub allowed_executors : List Executor → VocabularyOption
allowed_executors xs = some (λ v. record v { executors = name_set xs })

unfoldable pub unknown_operation : Operation → Error
unknown_operation x = record zero_error {
  code = error_code_unknown_operation;
  field = "operation";
  value = x;
  reason = "unknown operation is not in vocabulary";
}

unfoldable pub empty_operation : Error
empty_operation = record zero_error {
  code = error_code_empty_operation;
  field = "operation";
  reason = "operation is empty";
}

-- `ValidateOperation`, whose errors are all of the type `Error`.
unfoldable pub validate_operation : StaticVocabulary → Operation → Option Error
validate_operation v x =
    if new_operation x == ""
    then some empty_operation
    else if is_empty v.operations || elem (new_operation x) v.operations
    then none
    else some (unknown_operation (new_operation x))

unfoldable pub unknown_target : Target → Error
unknown_target x = record zero_error {
  code = error_code_unknown_target;
  field = "target";
  value = x;
  reason = "unknown target is not in vocabulary";
}

unfoldable pub empty_target : Error
empty_target = record zero_error {
  code = error_code_empty_target;
  field = "target";
  reason = "target is empty";
}

-- `ValidateTarget`, whose errors are all of the type `Error`.
unfoldable pub validate_target : StaticVocabulary → Target → Option Error
validate_target v x =
    if new_target x == ""
    then some empty_target
    else if is_empty v.targets || elem (new_target x) v.targets
    then none
    else some (unknown_target (new_target x))

unfoldable pub unknown_executor : Executor → Error
unknown_executor x = record zero_error {
  code = error_code_unknown_executor;
  field = "executor";
  value = x;
  reason = "unknown executor is not in vocabulary";
}

unfoldable pub empty_executor : Error
empty_executor = record zero_error {
  code = error_code_empty_executor;
  field = "executor";
  reason = "executor is empty";
}

-- `ValidateExecutor`, whose errors are all of the type `Error`.
unfoldable pub validate_executor : StaticVocabulary → Executor → Option Error
validate_executor v x =
    if new_executor x == ""
    then some empty_executor
    else if is_empty v.executors || elem (new_executor x) v.executors
    then none
    else some (unknown_executor (new_executor x))

-- `ValidateRequest`
unfoldable pub validate_request : StaticVocabulary → Request → Option Error
validate_request v req = if req.operation == "" then none else validate_operation v req.operation

unfoldable pub indexed_field : Text → ℕ → Text
indexed_field name i = name & ("[" & (decimal i & "]"))

-- `appendValidationError`: what is appended to the errors.
unfoldable pub validation_errors : Failure → Text → Errors
validation_errors (single e) field = record e { field = field } ∷ []
validation_errors (many es) field = map {A = Error} (λ e. record e { field = field }) es
validation_errors (other m) field =
    record zero_error { code = error_code_invalid_config; field = field; reason = m } ∷ []

-- `if err := ...; err != nil { errs = appendValidationError(errs, err, field) }`
unfoldable pub labelled : Option Error → Text → Errors
labelled none field = []
labelled (some e) field = validation_errors (single e) field

-- `if decision.X != "" { ... }`
unfoldable pub present : Text → Option Error → Text → Errors
present x e field = if x == "" then [] else labelled e field

unfoldable pub target_errors : StaticVocabulary → ℕ → List Target → Errors
target_errors v i [] = []
target_errors v i (t ∷ rest) =
    labelled (validate_target v t) (indexed_field "fallback_targets" i)
    ++ target_errors v (suc i) rest

unfoldable pub executor_errors : StaticVocabulary → ℕ → List Executor → Errors
executor_errors v i [] = []
executor_errors v i (e ∷ rest) =
    labelled (validate_executor v e) (indexed_field "fallback_executors" i)
    ++ executor_errors v (suc i) rest

unfoldable pub decision_errors : StaticVocabulary → Decision → Errors
decision_errors v d =
    present d.target (validate_target v d.target) "target"
    ++ present d.executor (validate_executor v d.executor) "executor"
    ++ target_errors v 0 d.fallback_targets
    ++ executor_errors v 0 d.fallback_executors

-- `ValidateDecision`
unfoldable pub validate_decision : StaticVocabulary → Decision → Option Errors
validate_decision v d =
    if is_empty (decision_errors v d) then none else some (Errors.sort_stable (decision_errors v d))
