-- ===== src/Fuzzpolicy/Factory.antt =====
-- internal/fuzzpolicy/generated_policy.go, internal/fuzzpolicy/vocab/generated.go: the factory, which
-- merges and validates a configuration and builds the engine.
use cervo_rules.Prelude.{
  ℕ, suc, ◌&◌, ◌⊎◌, inl, inr, false, Option, none, some, List, [], ◌∷◌, ◌++◌, map, if◌then◌else◌,
  ◌==◌, is_empty,
}
use cervo_rules.Prelude.Maps.{entry, put}
use cervo_rules.Text.{Text, normalize, decimal}
use cervo_rules.Core.Codes.{error_code_invalid_runtime_config}
use cervo_rules.Core.Error.{Error, zero_error}
use cervo_rules.Core.Errors
use cervo_rules.Core.Errors.{Errors, Failure, single, many, other, message}
use cervo_rules.Core.Types.{Operation, Target, Executor}
use cervo_rules.Core.Vocabulary.{
  StaticVocabulary, new_vocabulary, allowed_operations, allowed_targets, allowed_executors,
  validate_operation, validate_target, validate_executor,
}
use cervo_rules.Runtime.{
  PolicyMetadata, PolicyRuntimeConfig, PolicyBuildError, new_policy_build_error, clone,
}
use cervo_rules.Float.{Float}
use cervo_rules.Fuzzpolicy.Rules.{
  FactFrame, Match, match_change_freeze, match_unhealthy_target, match_unreviewed_deploy,
}
use cervo_rules.Fuzzpolicy.Engine.{
  Evaluator, Context, RuleMatcher, GeneratedRoute, GeneratedDeny, GeneratedEngine,
}

-- `Vocabulary`
unfoldable pub vocabulary : StaticVocabulary
vocabulary = new_vocabulary (
    allowed_operations ("deploy" ∷ "message_create" ∷ [])
    ∷ allowed_targets ("deployer" ∷ "message_worker" ∷ [])
    ∷ allowed_executors ("standard_executor" ∷ [])
    ∷ [])

-- `Metadata`
unfoldable pub policy_metadata : PolicyMetadata
policy_metadata = record {
  name = "predicate-composition.v3";
  dsl_version = "cervorules.policy.v3";
  generated_with = "cervorules-policygen/v3";
  vocabulary_hash = "e876d0163e12818597e76ff42b8690f4b4ec63d72fb43c6bfbdfd4a38315928c";
  policy_hash = "ee8bd24fff7e6c6b9dcb94a35b031c3e326516e6a0b64c7332f7be52552d1404";
}

-- `appendRuntimeValidationError`
unfoldable pub append_runtime_validation_error : Errors → Option Failure → Text → Errors
append_runtime_validation_error errs none field = errs
append_runtime_validation_error errs (some (single e)) field =
    errs ++ record e { field = field } ∷ []
append_runtime_validation_error errs (some (many es)) field =
    errs ++ map {A = Error} (λ e. record e { field = field }) es
append_runtime_validation_error errs (some (other m)) field =
    errs
    ++ record zero_error { code = error_code_invalid_runtime_config; field = field; reason = m }
      ∷ []

abbrev pub as_failure : Option Error → Option Failure
as_failure none = none
as_failure (some e) = some (single e)

-- `fmt.Sprintf("name[%s]", key)`
abbrev pub keyed_field : Text → Text → Text
keyed_field name key = name & ("[" & (key & "]"))

-- `range` over a map, which may be nil.
abbrev pub entries {ℓ} : {V : Type ℓ} → Option (List (Text × V)) → List (Text × V)
entries none = []
entries (some m) = m

-- The loop over `cfg.OperationTargets`.
unfoldable pub target_errors : Errors → List (Operation × Target) → Errors
target_errors errs [] = errs
target_errors errs ((operation, target) ∷ rest) =
    let field = keyed_field "operation_targets" operation in
    let errs' =
      append_runtime_validation_error errs (as_failure (validate_operation vocabulary operation))
        field in
    target_errors
      (append_runtime_validation_error errs' (as_failure (validate_target vocabulary target))
        (field & ".target"))
      rest

-- The loop over the fallbacks of one executor.
unfoldable pub fallback_errors : Errors → Text → ℕ → List Executor → Errors
fallback_errors errs field i [] = errs
fallback_errors errs field i (fallback ∷ rest) =
    fallback_errors
      (append_runtime_validation_error errs (as_failure (validate_executor vocabulary fallback))
        (keyed_field field (decimal i)))
      field (suc i) rest

-- The loop over `cfg.ExecutorFallbacks`.
unfoldable pub executor_fallback_errors : Errors → List (Executor × List Executor) → Errors
executor_fallback_errors errs [] = errs
executor_fallback_errors errs ((executor, fallbacks) ∷ rest) =
    let field = keyed_field "executor_fallbacks" executor in
    let errs' =
      append_runtime_validation_error errs (as_failure (validate_executor vocabulary executor))
        field in
    executor_fallback_errors (fallback_errors errs' field 0 fallbacks) rest

unfoldable pub default_executor_errors : Executor → Errors
default_executor_errors x =
    if x == ""
    then []
    else append_runtime_validation_error [] (as_failure (validate_executor vocabulary x))
        "defaults.executor"

module _ {S : Type 0} where
  -- `DefaultConfig`
  unfoldable pub default_config : PolicyRuntimeConfig S
  default_config = record {
    trusted_users = [];
    default_executor = "standard_executor";
    operation_targets = some (("deploy", "deployer") ∷ ("message_create", "message_worker") ∷ []);
    executor_fallbacks = some [];
    conditions = none;
  }

  unfoldable pub config_errors : PolicyRuntimeConfig S → Errors
  config_errors cfg =
      executor_fallback_errors
        (target_errors (default_executor_errors cfg.default_executor)
          (entries cfg.operation_targets))
        (entries cfg.executor_fallbacks)

  -- `ValidateConfig`
  unfoldable pub validate_config : PolicyRuntimeConfig S → Option Failure
  validate_config cfg =
      if is_empty (config_errors cfg)
      then none
      else some (many (Errors.sort_stable (config_errors cfg)))

-- The loop of an override over a map, which is made where it is nil.
unfoldable pub merge_map {ℓ} :
    {V : Type ℓ} → Option (List (Text × V)) → List (Text × V) → Option (List (Text × V))
merge_map out [] = out
merge_map out ((k, v) ∷ rest) = merge_map (some (put k v (entries out))) rest

-- `mergeRuntimeConfig`
unfoldable pub merge_runtime_config :
    {S : Type 0} → PolicyRuntimeConfig S → PolicyRuntimeConfig S → PolicyRuntimeConfig S
merge_runtime_config base override =
    let out = clone base in
    record {
      trusted_users =
          if is_empty override.trusted_users then out.trusted_users else override.trusted_users;
      default_executor =
          if override.default_executor == ""
          then out.default_executor
          else override.default_executor;
      operation_targets = merge_map out.operation_targets (entries override.operation_targets);
      executor_fallbacks = merge_map out.executor_fallbacks (entries override.executor_fallbacks);
      conditions = elim override.conditions [ none ↦ out.conditions | some ev ↦ some ev ];
    }

-- The loop over `cfg.TrustedUsers`.
unfoldable pub trusted_set : List Text → List Text
trusted_set [] = []
trusted_set (u ∷ rest) =
    if normalize u == "" then trusted_set rest else normalize u ∷ trusted_set rest

module _ {F W : Type 0} where
  -- A route with neither conditions nor a predicate.
  abbrev pub plain_route : Target → Text → GeneratedRoute F W
  plain_route target id = record {
    target = target;
    executor = "";
    id = id;
    reason = id;
    requires_trusted_user = false;
    requires = [];
    matcher = none;
  }

  -- The map `routes` of `Build`.
  unfoldable pub policy_routes : List (Operation × GeneratedRoute F W)
  policy_routes =
      ("deploy", plain_route "deployer" "deploy")
      ∷ ("message_create", plain_route "message_worker" "message_create")
      ∷ []

  -- The zero value, which `disabledRoutes[operation]` gives, since that map is empty.
  abbrev pub zero_route : GeneratedRoute F W
  zero_route = plain_route "" ""

  -- The body of the loop over `cfg.OperationTargets`.
  unfoldable pub retarget :
      Executor → Operation → Target → Option (GeneratedRoute F W) → GeneratedRoute F W
  retarget default operation target found =
      let r : GeneratedRoute F W = elim found [ none ↦ zero_route | some r ↦ r ] in
      record r {
        target = target;
        executor = if r.executor == "" then default else r.executor;
        id = if r.id == "" then operation else r.id;
        reason = if r.reason == "" then "runtime override" else r.reason;
      }

  unfoldable pub override_routes :
      Executor
      → List (Operation × GeneratedRoute F W)
      → List (Operation × Target)
      → List (Operation × GeneratedRoute F W)
  override_routes default routes [] = routes
  override_routes default routes ((operation, target) ∷ rest) =
      override_routes default
        (put operation (retarget default operation target (entry operation routes)) routes) rest

  -- A predicate of facts alone as a rule's matcher.
  abbrev pub facts_only : (FactFrame F → Match) → Option (RuleMatcher F W)
  facts_only m = some (λ req f w. (inr (m f), w))

  unfoldable pub freeze_rule : GeneratedDeny F W
  freeze_rule = record {
    operation = "";
    id = "deny-change-freeze";
    reason = "a change freeze is in effect";
    requires = [];
    matcher = facts_only match_change_freeze;
  }

  unfoldable pub unhealthy_rule : ⦃fl : Float F⦄ → GeneratedDeny F W
  unhealthy_rule = record {
    operation = "message_create";
    id = "deny-unhealthy-target";
    reason = "the worker is saturated, or it is burning its error budget";
    requires = [];
    matcher = facts_only match_unhealthy_target;
  }

  unfoldable pub unreviewed_rule : ⦃fl : Float F⦄ → GeneratedDeny F W
  unreviewed_rule = record {
    operation = "deploy";
    id = "deny-unreviewed-production-deploy";
    reason = "a production deploy needs a healthy target";
    requires = [];
    matcher = facts_only match_unreviewed_deploy;
  }

  -- The slice `denies` of `Build`.
  unfoldable pub policy_denies : ⦃fl : Float F⦄ → List (GeneratedDeny F W)
  policy_denies = freeze_rule ∷ unhealthy_rule ∷ unreviewed_rule ∷ []

  -- The engine of a configuration that is merged and valid.
  unfoldable pub engine_of :
      ⦃fl : Float F⦄ → PolicyRuntimeConfig (Evaluator W) → GeneratedEngine F W
  engine_of cfg = record {
    routes = override_routes cfg.default_executor policy_routes (entries cfg.operation_targets);
    denies = policy_denies;
    disabled_denies = [];
    trusted_users = trusted_set cfg.trusted_users;
    default_executor = cfg.default_executor;
    executor_fallbacks = entries cfg.executor_fallbacks;
    conditions = cfg.conditions;
  }

-- The error of `Build`.
pub data BuildFailure : Type 0 where
  canceled : Failure → BuildFailure
  invalid : Option PolicyBuildError → BuildFailure

-- `Build`
unfoldable pub build :
    {F W : Type 0} ⦃fl : Float F⦄
    → Context
    → PolicyRuntimeConfig (Evaluator W)
    → BuildFailure ⊎ GeneratedEngine F W
build (some err) cfg = inl (canceled err)
build none cfg =
    let merged = merge_runtime_config default_config cfg in
    elim (validate_config merged) [
      | none ↦ inr (engine_of merged)
      | some err ↦ inl (invalid (new_policy_build_error policy_metadata (some err)))
    ]
