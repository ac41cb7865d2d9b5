-- ===== src/Runtime.antt =====
-- runtime/factory.go, runtime/errors.go: the configuration of a generated policy, the contract of its
-- factory, and the error of a failed build.
use cervo_rules.Prelude.{
  ◌≡◌, refl, ◌⊎◌, Memᴰ, false, inl, inr, Option, none, some, List, [], ◌∷◌, ◌++◌, if◌then◌else◌,
  is_empty, List-cases, ap,
}
use cervo_rules.Prelude.Maps.{put_all}
use cervo_rules.Text.{Text, join}
use cervo_rules.Core.Codes.{severity_fatal, error_code_policy_build_failed}
use cervo_rules.Core.Error.{Error, zero_error, part}
use cervo_rules.Core.Errors.{
  Errors, Failure, single, many, other, text, sort_stable, less_error, as_error,
}
use cervo_rules.Core.Errors.Order.{sort_stable-nil_iff, sort_stable-least}
use cervo_rules.Core.Types.{Operation, Target, Executor}

pub record PolicyMetadata : Type 0 where
  pub name : Text
  pub dsl_version : Text
  pub generated_with : Text
  pub vocabulary_hash : Text
  pub policy_hash : Text

-- The maps are lists of their entries, or none where they are nil; `conditions` is a caller's
-- evaluator, or none.
pub record PolicyRuntimeConfig (S : Type 0) : Type 0 where
  pub trusted_users : List Text
  pub default_executor : Executor
  pub operation_targets : Option (List (Operation × Target))
  pub executor_fallbacks : Option (List (Executor × List Executor))
  pub conditions : Option S

-- A copy of a map, which is nil where the map is.
unfoldable pub copy_map {ℓ} : {V : Type ℓ} → Option (List (Text × V)) → Option (List (Text × V))
copy_map none = none
copy_map (some entries) = some (put_all [] entries)

-- `PolicyRuntimeConfig.Clone`
unfoldable pub clone : {S : Type 0} → PolicyRuntimeConfig S → PolicyRuntimeConfig S
clone c = record c {
  trusted_users = [] ++ c.trusted_users;
  operation_targets = copy_map c.operation_targets;
  executor_fallbacks = copy_map c.executor_fallbacks;
}

pub record PolicyBuildError : Type 0 where
  pub metadata : PolicyMetadata
  pub errors : Errors
  pub cause : Failure

unfoldable pub build_failed : Error
build_failed = record zero_error {
  code = error_code_policy_build_failed;
  severity = severity_fatal;
  component = "runtime";
  reason = "policy build failed";
}

unfoldable pub normalize_policy_build_errors : Failure → Errors
normalize_policy_build_errors (many es) = sort_stable es
normalize_policy_build_errors (single e) = e ∷ []
normalize_policy_build_errors (other m) = build_failed ∷ []

-- `NewPolicyBuildError`: the cause, and the result, may be nil.
unfoldable pub new_policy_build_error : PolicyMetadata → Option Failure → Option PolicyBuildError
new_policy_build_error m none = none
new_policy_build_error m (some cause) =
    some (record { metadata = m; errors = normalize_policy_build_errors cause; cause = cause })

-- `PolicyBuildError.Error`
unfoldable pub build_error_text : Option PolicyBuildError → Text
build_error_text none = "policy build error"
build_error_text (some e) = join ": " (
    "policy build failed"
    ∷ (part e.metadata.name ++ (if is_empty e.errors then [] else text e.errors ∷ [])))

-- `PolicyBuildError.Unwrap`
unfoldable pub build_error_unwrap : Option PolicyBuildError → Option Failure
build_error_unwrap none = none
build_error_unwrap (some e) = some e.cause

-- `As(*Errors)`
unfoldable pub build_error_as_errors : Option PolicyBuildError → Option Errors
build_error_as_errors none = none
build_error_as_errors (some e) = some e.errors

-- `As(*Error)`
unfoldable pub build_error_as_error : Option PolicyBuildError → Option Error
build_error_as_error none = none
build_error_as_error (some e) = as_error e.errors

-- The error that a caller gets for a cause: the cause itself, one of a collection that no other one
-- precedes, or a fatal error of the runtime.
abbrev pub Extracted : Failure → Error → Type 0
Extracted (single x) e = e ≡ x
Extracted (many es) e = Memᴰ e es × ((x : Error) → Memᴰ x es → less_error x e ≡ false)
Extracted (other m) e = e ≡ record zero_error {
  code = "policy_build_failed";
  severity = "fatal";
  component = "runtime";
  reason = "policy build failed";
}

-- Of the error of a build that failed for a cause, `As` extracts the cause where this is a structured
-- error, the least error where it is a collection, and an error that says `policy_build_failed`
-- where it is neither. It extracts none exactly where the cause is an empty collection.
pub new_policy_build_error-as :
    (m : PolicyMetadata) (cause : Failure)
    → ((cause ≡ many []) × (build_error_as_error (new_policy_build_error m (some cause)) ≡ none))
      ⊎ ((e : Error) × (build_error_as_error (new_policy_build_error m (some cause)) ≡ some e)
          × Extracted cause e)
unfolding new_policy_build_error build_error_as_error as_error normalize_policy_build_errors
    build_failed
new_policy_build_error-as m (single e) = inr (e, refl, refl)
new_policy_build_error-as m (other t) = inr (_, refl, refl)
new_policy_build_error-as m (many es) = elim (List-cases (sort_stable es)) [
  | inl e ↦ inl (ap many ((sort_stable-nil_iff es).0 e), rw (e, as_error) refl)
  | inr (x, rest, e) ↦ inr (x, rw (e, as_error) refl, sort_stable-least es x rest e)
]
