-- ===== src/Fuzzpolicy/Engine.antt =====
-- internal/fuzzpolicy/generated_policy.go: the engine, which decides a request by its deny rules and
-- its routes.
use cervo_rules.Prelude.{
  ◌&◌, ◌⊎◌, inl, inr, Bool, true, false, not, ◌&&◌, Option, none, some, List, [], ◌∷◌, ◌++◌,
  if◌then◌else◌, ◌==◌, elem,
}
use cervo_rules.Prelude.Maps.{entry}
use cervo_rules.Text.{Text, normalize}
use cervo_rules.Core.Codes.{severity_fatal, error_code_missing_conditions}
use cervo_rules.Core.Error.{Error, zero_error}
use cervo_rules.Core.Errors.{Failure, single}
use cervo_rules.Core.Types.{Operation, Target, Executor, Request, Decision}
use cervo_rules.Core.Conditions.{Condition, Verdict}
use cervo_rules.Core.Decisions.{
  DecisionOptions, DecisionResult, DecisionTraceStep, new_decision_result, with_trace,
  with_observation,
}
use cervo_rules.Float.{Float}
use cervo_rules.Fuzzpolicy.Rules.{FactFrame, Match, new_fact_frame}

-- A caller's evaluator of conditions, which reads and may change a world `W`.
abbrev pub Evaluator : Type 0 → Type 0
Evaluator W = Condition → Request → W → Verdict × W

-- `ctx`, by what `ctx.Err()` gives where it is done.
abbrev pub Context : Type 0
Context = Option Failure

-- `ruleMatcher`, without the engine: no predicate of this policy reads it, and it would hold itself.
abbrev pub RuleMatcher : Type 0 → Type 0 → Type 0
RuleMatcher F W = Request → FactFrame F → W → (Failure ⊎ Match) × W

pub record GeneratedRoute (F W : Type 0) : Type 0 where
  pub target : Target
  pub executor : Executor
  pub id : Text
  pub reason : Text
  pub requires_trusted_user : Bool
  pub requires : List Condition
  pub matcher : Option (RuleMatcher F W)

pub record GeneratedDeny (F W : Type 0) : Type 0 where
  pub operation : Operation
  pub id : Text
  pub reason : Text
  pub requires : List Condition
  pub matcher : Option (RuleMatcher F W)

-- A map is the list of its entries, and the set of trusted users the list of its keys.
pub record GeneratedEngine (F W : Type 0) : Type 0 where
  pub routes : List (Operation × GeneratedRoute F W)
  pub denies : List (GeneratedDeny F W)
  pub disabled_denies : List (Operation × Text)
  pub trusted_users : List Text
  pub default_executor : Executor
  pub executor_fallbacks : List (Executor × List Executor)
  pub conditions : Option (Evaluator W)

-- `e.executorFallbacks[executor]`, of which a missing key reads as nil.
unfoldable pub fallbacks_of : Executor → List (Executor × List Executor) → List Executor
fallbacks_of x m = elim (entry x m) [ none ↦ [] | some l ↦ l ]

unfoldable pub no_evaluator_error : Error
no_evaluator_error = record zero_error {
  code = error_code_missing_conditions;
  severity = severity_fatal;
  component = "policy";
  field = "conditions";
  reason = "policy requires conditions but no evaluator is configured";
}

-- `isTrustedUser`
unfoldable pub is_trusted_user : List Text → Text → Bool
is_trusted_user users user = if normalize user == "" then false else elem (normalize user) users

module _ {W : Type 0} where
  -- What follows the answer for one required condition.
  unfoldable pub after_condition : Verdict → (W → (Failure ⊎ Bool) × W) → W → (Failure ⊎ Bool) × W
  after_condition (holds, some err) next w = (inl err, w)
  after_condition (holds, none) next w = if holds then next w else (inr false, w)

  unfoldable pub hold_each : Evaluator W → List Condition → Request → W → (Failure ⊎ Bool) × W
  hold_each ev [] req w = (inr true, w)
  hold_each ev (c ∷ rest) req w =
      let (answer, w') = ev c req w in after_condition answer (hold_each ev rest req) w'

  -- `conditionsHold`
  unfoldable pub conditions_hold :
      Option (Evaluator W) → List Condition → Request → W → (Failure ⊎ Bool) × W
  conditions_hold conditions [] req w = (inr true, w)
  conditions_hold none (c ∷ rest) req w = (inl (single no_evaluator_error), w)
  conditions_hold (some ev) (c ∷ rest) req w = hold_each ev (c ∷ rest) req w

-- `finish`
unfoldable pub finish :
    Request → Decision → DecisionOptions → List DecisionTraceStep → DecisionResult
finish req d options steps =
    let result =
      new_decision_result req d
        (with_trace options.trace ∷ with_observation options.observation ∷ []) in
    elim result.trace [
      | none ↦ result
      | some trace ↦ record result { trace = some (record trace { steps = steps }) }
    ]

-- `if traceEnabled { steps = append(steps, ...) }`
unfoldable pub add_step : Bool → Text → Match → List DecisionTraceStep → List DecisionTraceStep
add_step enabled id (matched, detail) steps =
    if enabled
    then steps ++ record { name = id; matched = matched; reason = detail } ∷ []
    else steps

unfoldable pub refused : Text → Decision
refused reason = record {
  allow = false;
  target = "";
  executor = "";
  fallback_targets = [];
  fallback_executors = [];
  reason = reason;
}

-- How the loop over the deny rules ends: with an error, at a rule that applies, or behind the last
-- one, with the steps of the trace.
pub data DenyOutcome : Type 0 where
  failed : Failure → DenyOutcome
  denied : Text → List DecisionTraceStep → DenyOutcome
  passed : List DecisionTraceStep → DenyOutcome

-- A result, or an error beside the zero result.
abbrev pub Outcome : Type 0 → Type 0
Outcome W = (Failure ⊎ DecisionResult) × W

module _ {F W : Type 0} where
  -- `applies, detail, err = match(...)`, where the conditions hold and there is a predicate.
  unfoldable pub run_matcher :
      Failure ⊎ Bool → Option (RuleMatcher F W) → Request → FactFrame F → W → (Failure ⊎ Match) × W
  run_matcher (inl err) m req f w = (inl err, w)
  run_matcher (inr false) m req f w = (inr (false, ""), w)
  run_matcher (inr true) none req f w = (inr (true, ""), w)
  run_matcher (inr true) (some m) req f w = m req f w

  -- The conditions and the predicate of a rule, in the loop over the denies and for the route.
  unfoldable pub rule_applies :
      Option (Evaluator W)
      → List Condition
      → Option (RuleMatcher F W)
      → Request
      → FactFrame F
      → W
      → (Failure ⊎ Match) × W
  rule_applies conditions requires m req f w =
      let (holds, w') = conditions_hold conditions requires req w in run_matcher holds m req f w'

  -- `deny.operation != "" && deny.operation != req.Operation`
  unfoldable pub is_elsewhere : GeneratedDeny F W → Request → Bool
  is_elsewhere d req = not (d.operation == "") && not (d.operation == req.operation)

  -- What follows the answer of one deny rule.
  unfoldable pub after_deny :
      Bool
      → GeneratedDeny F W
      → Failure ⊎ Match
      → (List DecisionTraceStep → W → DenyOutcome × W)
      → List DecisionTraceStep
      → W
      → DenyOutcome × W
  after_deny traced d (inl err) next steps w = (failed err, w)
  after_deny traced d (inr m) next steps w =
      if m.0
      then (denied d.reason (add_step traced d.id m steps), w)
      else next (add_step traced d.id m steps) w

  unfoldable pub run_denies :
      Option (Evaluator W)
      → Bool
      → Request
      → FactFrame F
      → List (GeneratedDeny F W)
      → List DecisionTraceStep
      → W
      → DenyOutcome × W
  run_denies conditions traced req f [] steps w = (passed steps, w)
  run_denies conditions traced req f (d ∷ rest) steps w = elim (is_elsewhere d req) [
    | true ↦ run_denies conditions traced req f rest steps w
    | false ↦
        let (answer, w') = rule_applies conditions d.requires d.matcher req f w in
        after_deny traced d answer (run_denies conditions traced req f rest) steps w'
  ]

  -- `executor := route.executor; if executor == "" { executor = e.defaultExecutor }`
  unfoldable pub executor_of : GeneratedEngine F W → GeneratedRoute F W → Executor
  executor_of e r = if r.executor == "" then e.default_executor else r.executor

  unfoldable pub permitted : GeneratedEngine F W → GeneratedRoute F W → Decision
  permitted e r = record {
    allow = true;
    target = r.target;
    executor = executor_of e r;
    fallback_targets = [];
    fallback_executors = fallbacks_of (executor_of e r) e.executor_fallbacks;
    reason = r.reason;
  }

  -- What follows the answer for the route.
  unfoldable pub after_route :
      GeneratedEngine F W
      → Request
      → DecisionOptions
      → GeneratedRoute F W
      → Failure ⊎ Match
      → List DecisionTraceStep
      → Failure ⊎ DecisionResult
  after_route e req options r (inl err) steps = inl err
  after_route e req options r (inr m) steps =
      let steps' = add_step options.trace r.id m steps in
      if m.0
      then inr (finish req (permitted e r) options steps')
      else inr (
          finish req
            (refused ("operation " & (req.operation & " did not satisfy its required conditions")))
            options steps')

  -- The route of the operation.
  unfoldable pub decide_route :
      GeneratedEngine F W
      → Request
      → DecisionOptions
      → FactFrame F
      → GeneratedRoute F W
      → List DecisionTraceStep
      → W
      → Outcome W
  decide_route e req options f r steps w =
      if r.requires_trusted_user && not (is_trusted_user e.trusted_users req.user)
      then (
        inr (
            finish req (refused ("operation " & (req.operation & " requires trusted user"))) options
              steps),
        w,
      )
      else let (answer, w') = rule_applies e.conditions r.requires r.matcher req f w in
        (after_route e req options r answer steps, w')

  -- The reason of a decision on an operation without a route.
  unfoldable pub unrouted_reason : GeneratedEngine F W → Request → Text
  unrouted_reason e req = elim (entry req.operation e.disabled_denies) [
    | none ↦ "no route for operation " & req.operation
    | some reason ↦ reason
  ]

  -- What follows the deny rules.
  unfoldable pub after_denies :
      GeneratedEngine F W → Request → DecisionOptions → FactFrame F → DenyOutcome → W → Outcome W
  after_denies e req options f (failed err) w = (inl err, w)
  after_denies e req options f (denied reason steps) w =
      (inr (finish req (refused reason) options steps), w)
  after_denies e req options f (passed steps) w = elim (entry req.operation e.routes) [
    | none ↦ (inr (finish req (refused (unrouted_reason e req)) options steps), w)
    | some r ↦ decide_route e req options f r steps w
  ]

  -- What follows the facts.
  unfoldable pub decide_with_facts :
      GeneratedEngine F W → Request → DecisionOptions → FactFrame F → W → Outcome W
  decide_with_facts e req options f w =
      let (outcome, w') = run_denies e.conditions options.trace req f e.denies [] w in
      after_denies e req options f outcome w'

  -- `DecideWithOptions`
  unfoldable pub decide_with_options :
      ⦃fl : Float F⦄ → GeneratedEngine F W → Context → Request → DecisionOptions → W → Outcome W
  decide_with_options e (some err) req options w = (inl err, w)
  decide_with_options e none req options w = elim (new_fact_frame req) [
    | inl err ↦ (inl (single err), w)
    | inr f ↦ decide_with_facts e req options f w
  ]

  -- `Decide`
  unfoldable pub decide : ⦃fl : Float F⦄ → GeneratedEngine F W → Context → Request → W → Outcome W
  decide e ctx req w =
      decide_with_options e ctx req (record { trace = false; observation = false }) w
