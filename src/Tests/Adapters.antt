-- ===== src/Tests/Adapters.antt =====
-- Runs of the runtime's errors, the report and the HTTP adapter, and the results on them.
use cervo_rules.Prelude.{◌≡◌, refl, ◌⊎◌, inr, true, false, none, some, List, [], ◌∷◌, ◌==◌}
use cervo_rules.Text.{Text, lower}
use cervo_rules.Core.Error.{Error, zero_error}
use cervo_rules.Core.Errors.{Errors, many}
use cervo_rules.Core.Types.{Decision}
use cervo_rules.Core.Decisions.{new_decision_result, with_observation}
use cervo_rules.Runtime.{
  PolicyMetadata, new_policy_build_error, build_error_as_error, Extracted,
  new_policy_build_error-as,
}
use cervo_rules.Observe.{new_policy_evaluation_report, metric_labels, metric_labels-low}
use cervo_rules.Httpadapter.{
  Regexp, CompiledPathOperation, Classifier, HttpRequest, upper, infer_path_operation,
}
use cervo_rules.Httpadapter.Paths.{NoMatch, IsFirst, infer_path_operation-IsFirst}
use cervo_rules.Tests.Shop.{request}

abbrev metadata : PolicyMetadata
metadata = record {
  name = "refunds";
  dsl_version = "v3";
  generated_with = "";
  vocabulary_hash = "";
  policy_hash = "";
}

abbrev both : Errors
both = record zero_error { code = "b" } ∷ record zero_error { code = "a" } ∷ []

new_policy_build_error-as_example :
    ((many both ≡ many [])
      × (build_error_as_error (new_policy_build_error metadata (some (many both))) ≡ none))
    ⊎ ((e : Error) × (build_error_as_error (new_policy_build_error metadata (some (many both)))
          ≡ some e)
        × Extracted (many both) e)
new_policy_build_error-as_example = new_policy_build_error-as metadata (many both)

abbrev allowed : Text → Decision
allowed reason = record {
  allow = true;
  target = "billing";
  executor = "";
  fallback_targets = [];
  fallback_executors = [];
  reason = reason;
}

metric_labels-low_example :
    metric_labels (
      new_policy_evaluation_report
        (new_decision_result (request "r-1" "o-1") (allowed "a") (with_observation true ∷ [])))
    ≡ metric_labels (
        new_policy_evaluation_report
          (new_decision_result (request "r-2" "o-2") (allowed "b") (with_observation true ∷ [])))
metric_labels-low_example =
    metric_labels-low (request "r-1" "o-1") (request "r-2" "o-2") (allowed "a") (allowed "b")
      (with_observation true ∷ []) refl refl refl refl

-- Expressions that are plain texts, which match themselves alone.
abbrev plain_regexp : Regexp Text
plain_regexp = record { compile = λ t. inr t; is_match = λ r path. r == path; quote = λ t. t }

abbrev rule : Text → Text → CompiledPathOperation Text
rule p o = record { methods = "POST" ∷ []; prefix = p; contains = ""; regex = none; operation = o }

abbrev classifier : Classifier Text
classifier = record {
  options = record {
    headers = record { request_id = []; user = []; channel = []; operation = []; risk = [] };
    path_operations = [];
    channel_operations = none;
    copy_headers = false;
  };
  paths = rule "/refunds" "refund" ∷ rule "/" "browse" ∷ [];
}

abbrev post : HttpRequest (List Text)
post = record { method = "post"; path = "/Refunds/7"; header = [] }

infer_path_operation-IsFirst_example :
    (NoMatch plain_regexp classifier.paths (upper "post") (lower "/Refunds/7")
      × (infer_path_operation plain_regexp (λ h k. "") classifier post ≡ ""))
    ⊎ IsFirst plain_regexp classifier.paths
        (upper "post")
        (lower "/Refunds/7")
        (infer_path_operation plain_regexp (λ h k. "") classifier post)
infer_path_operation-IsFirst_example =
    infer_path_operation-IsFirst plain_regexp (λ h k. "") classifier post
