-- ===== src/Core/Decisions.antt =====
-- core/decision_options.go, core/decision_result.go, core/engine.go, core/routing.go: the options, the
-- envelope of a decision, the contract of an engine, and the routing plan.
use cervo_rules.Prelude.{
  ◌≡◌, ℕ, Bool, false, Option, none, some, List, [], ◌∷◌, if◌then◌else◌, ◌==◌,
}
use cervo_rules.Text.{Text}
use cervo_rules.Core.Errors.{Errors, Failure}
use cervo_rules.Core.Types.{Operation, Target, Executor, Request, Decision}

pub record DecisionOptions : Type 0 where
  pub trace : Bool
  pub observation : Bool

-- An option may be nil.
abbrev pub DecisionOption : Type 0
DecisionOption = Option (DecisionOptions → DecisionOptions)

unfoldable pub apply_options : DecisionOptions → List DecisionOption → DecisionOptions
apply_options o [] = o
apply_options o (none ∷ rest) = apply_options o rest
apply_options o (some f ∷ rest) = apply_options (f o) rest

unfoldable pub new_decision_options : List DecisionOption → DecisionOptions
new_decision_options options = apply_options (record { trace = false; observation = false }) options

unfoldable pub with_trace : Bool → DecisionOption
with_trace enabled = some (λ o. record o { trace = enabled })

unfoldable pub with_observation : Bool → DecisionOption
with_observation enabled = some (λ o. record o { observation = enabled })

pub record DecisionTraceStep : Type 0 where
  pub name : Text
  pub matched : Bool
  pub reason : Text

pub record DecisionTrace : Type 0 where
  pub schema_version : Text
  pub steps : List DecisionTraceStep

pub record DecisionObservation : Type 0 where
  pub schema_version : Text
  pub request_id : Text
  pub operation : Operation
  pub allow : Bool
  pub target : Target
  pub executor : Executor
  pub reason : Text
  pub user : Text

pub record DecisionStats : Type 0 where
  pub trace_enabled : Bool
  pub observation_enabled : Bool
  pub diagnostics : ℕ

pub record DecisionResult : Type 0 where
  pub decision : Decision
  pub trace : Option DecisionTrace
  pub observation : Option DecisionObservation
  pub diagnostics : Errors
  pub stats : DecisionStats

abbrev pub trace_schema_version : Text
trace_schema_version = "cervorules.v3.decision_trace.v1"

abbrev pub observation_schema_version : Text
observation_schema_version = "cervorules.v3.decision_observation.v1"

-- The observation leaves the user empty.
unfoldable pub observe : Request → Decision → DecisionObservation
observe req d = record {
  schema_version = observation_schema_version;
  request_id = req.id;
  operation = req.operation;
  allow = d.allow;
  target = d.target;
  executor = d.executor;
  reason = d.reason;
  user = "";
}

-- `NewDecisionResult`
unfoldable pub new_decision_result : Request → Decision → List DecisionOption → DecisionResult
new_decision_result req d options =
    let o = new_decision_options options in
    record {
      decision = d;
      trace =
          if o.trace
          then some (record { schema_version = trace_schema_version; steps = [] })
          else none;
      observation = if o.observation then some (observe req d) else none;
      diagnostics = [];
      stats = record {
        trace_enabled = o.trace;
        observation_enabled = o.observation;
        diagnostics = 0;
      };
    }

-- The `Engine` interface, of an engine whose calls change a world `W`.
pub record Engine (S W : Type 0) : Type 0 where
  pub decide : S → Request → W → (DecisionResult × Option Failure) × W
  pub decide_with_options :
      S → Request → DecisionOptions → W → (DecisionResult × Option Failure) × W

abbrev pub RoutingStrategy : Type 0
RoutingStrategy = Text

abbrev pub indexed_routing_strategy : RoutingStrategy
indexed_routing_strategy = "indexed"

abbrev pub linear_routing_strategy : RoutingStrategy
linear_routing_strategy = "linear"

pub record RoutingRule : Type 0 where
  pub operation : Operation
  pub target : Target
  pub executor : Executor
  pub reason : Text

pub record RoutingPlan : Type 0 where
  pub strategy : RoutingStrategy
  pub rules : List RoutingRule

unfoldable pub new_indexed_routing_plan : List RoutingRule → RoutingPlan
new_indexed_routing_plan rules = record { strategy = indexed_routing_strategy; rules = rules }

unfoldable pub new_linear_routing_plan : List RoutingRule → RoutingPlan
new_linear_routing_plan rules = record { strategy = linear_routing_strategy; rules = rules }

unfoldable pub is_linear : RoutingPlan → Bool
is_linear p = p.strategy == linear_routing_strategy

-- Two requests with one ID and one operation get the same envelope of a decision, whatever their
-- users, channels and metadata.
pub new_decision_result-private :
    (req other : Request) (d : Decision) (options : List DecisionOption)
    → req.id ≡ other.id
    → req.operation ≡ other.operation
    → new_decision_result req d options ≡ new_decision_result other d options
unfolding new_decision_result observe
new_decision_result-private req other d options h k = rw (h, k)
