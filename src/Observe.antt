-- ===== src/Observe.antt =====
-- observe/report.go: the operational report of a decision.
use cervo_rules.Prelude.{
  ◌≡◌, refl, ℕ, Bool, Option, none, some, List, [], ◌∷◌, if◌then◌else◌, length, Bool-cases, inl,
  inr,
}
use cervo_rules.Text.{Text}
use cervo_rules.Core.Types.{Operation, Target, Executor, Request, Decision}
use cervo_rules.Core.Decisions.{
  DecisionResult, DecisionObservation, DecisionOption, new_decision_result, new_decision_options,
  observe,
}

pub record PolicyEvaluationReport : Type 0 where
  pub schema_version : Text
  pub request_id : Text
  pub operation : Operation
  pub allow : Bool
  pub target : Target
  pub executor : Executor
  pub reason : Text
  pub diagnostics : ℕ

abbrev pub report_schema_version : Text
report_schema_version = "cervorules.v3.policy_evaluation_report.v1"

abbrev pub observed_id : Option DecisionObservation → Text
observed_id none = ""
observed_id (some o) = o.request_id

abbrev pub observed_operation : Option DecisionObservation → Operation
observed_operation none = ""
observed_operation (some o) = o.operation

-- `NewPolicyEvaluationReport`
unfoldable pub new_policy_evaluation_report : DecisionResult → PolicyEvaluationReport
new_policy_evaluation_report r = record {
  schema_version = report_schema_version;
  request_id = observed_id r.observation;
  operation = observed_operation r.observation;
  allow = r.decision.allow;
  target = r.decision.target;
  executor = r.decision.executor;
  reason = r.decision.reason;
  diagnostics = length r.diagnostics;
}

-- `MetricLabels`, as the list of the map's entries.
unfoldable pub metric_labels : PolicyEvaluationReport → List (Text × Text)
metric_labels r =
    ("schema_version", r.schema_version)
    ∷ ("outcome", if r.allow then "allow" else "deny")
    ∷ ("operation", r.operation)
    ∷ ("target", r.target)
    ∷ ("executor", r.executor)
    ∷ []

-- What `any` holds of a field of a log.
pub data LogValue : Type 0 where
  text : Text → LogValue
  flag : Bool → LogValue
  number : ℕ → LogValue

-- `LogFields`, as the list of the map's entries.
unfoldable pub log_fields : PolicyEvaluationReport → List (Text × LogValue)
log_fields r =
    ("schema_version", LogValue.text r.schema_version)
    ∷ ("request_id", LogValue.text r.request_id)
    ∷ ("operation", LogValue.text r.operation)
    ∷ ("allow", LogValue.flag r.allow)
    ∷ ("target", LogValue.text r.target)
    ∷ ("executor", LogValue.text r.executor)
    ∷ ("reason", LogValue.text r.reason)
    ∷ ("diagnostics", LogValue.number r.diagnostics)
    ∷ []

observed_operation-result :
    (req : Request) (d : Decision) (options : List DecisionOption)
    → observed_operation (new_decision_result req d options).observation
      ≡ (if (new_decision_options options).observation then req.operation else "")
unfolding new_decision_result observe
observed_operation-result req d options =
    elim (Bool-cases (new_decision_options options).observation) [
      | inl e ↦ rw e refl
      | inr e ↦ rw e refl
    ]

-- The metric labels of a decision do not depend on who asked: two requests of one operation give the
-- same labels, whatever their IDs, users, channels and metadata, and whatever the reasons of two
-- decisions that allow the same and select the same target and executor.
pub metric_labels-low :
    (req other : Request) (d e : Decision) (options : List DecisionOption)
    → req.operation ≡ other.operation
    → d.allow ≡ e.allow
    → d.target ≡ e.target
    → d.executor ≡ e.executor
    → metric_labels (new_policy_evaluation_report (new_decision_result req d options))
      ≡ metric_labels (new_policy_evaluation_report (new_decision_result other e options))
unfolding metric_labels new_policy_evaluation_report new_decision_result
metric_labels-low req other d e options h a t x =
    rw
      (
        observed_operation-result req d options,
        observed_operation-result other e options,
        h,
        a,
        t,
        x,
      )
      refl
