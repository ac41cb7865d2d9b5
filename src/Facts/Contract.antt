-- ===== src/Facts/Contract.antt =====
-- facts/contract.go: options, terms, facts, patterns, plans and statistics.
use cervo_rules.Prelude.{Bool, Option, List, if◌then◌else◌, ◌==◌}
use cervo_rules.Prelude.Int.{ℤ}
use cervo_rules.Text.{Text}

abbrev pub TraceMode : Type 0
TraceMode = Text

abbrev pub trace_disabled : TraceMode
trace_disabled = "disabled"

abbrev pub trace_enabled : TraceMode
trace_enabled = "enabled"

pub record EvalOptions : Type 0 where
  pub max_iterations : ℤ
  pub max_facts : ℤ
  pub max_bindings : ℤ
  pub expensive_rule_binding_threshold : ℤ
  pub trace : TraceMode

unfoldable pub normalize_options : EvalOptions → EvalOptions
normalize_options o = if o.trace == "" then record o { trace = trace_disabled } else o

unfoldable pub is_trace_enabled : EvalOptions → Bool
is_trace_enabled o = (normalize_options o).trace == trace_enabled

abbrev pub Atom : Type 0
Atom = Text

abbrev pub TermKind : Type 0
TermKind = Text

abbrev pub term_const : TermKind
term_const = "const"

abbrev pub term_var : TermKind
term_var = "var"

pub record Term : Type 0 where
  pub kind : TermKind
  pub value : Text

pub record Fact : Type 0 where
  pub predicate : Atom
  pub terms : List Term

pub record Pattern : Type 0 where
  pub predicate : Atom
  pub terms : List Term
  pub negated : Bool

pub record RuleEvaluationStat : Type 0 where
  pub name : Text
  pub evaluations : ℤ
  pub derived_facts : ℤ
  pub max_bindings : ℤ

pub record EvaluationStats : Type 0 where
  pub iterations : ℤ
  pub rules : List RuleEvaluationStat

pub record ComplexityDiagnostic : Type 0 where
  pub code : Text
  pub rule : Text
  pub field : Text
  pub limit : ℤ
  pub observed : ℤ
  pub reason : Text

pub record PatternPlan : Type 0 where
  pub declared_index : ℤ
  pub predicate : Text
  pub negated : Bool
  pub constants : ℤ
  pub constant_positions : List ℤ
  pub candidate_count : ℤ
  pub selectivity_reason : Text

pub record RulePlan : Type 0 where
  pub name : Text
  pub stratum : ℤ
  pub reordered : Bool
  pub patterns : List PatternPlan

pub record EvaluationPlan : Type 0 where
  pub schema_version : Text
  pub rules : List RulePlan

unfoldable pub new_evaluation_plan : List RulePlan → EvaluationPlan
new_evaluation_plan rules = record { schema_version = "cervorules.v3.facts.plan.v1"; rules = rules }

pub record Result : Type 0 where
  pub facts : List Fact
  pub plan : Option EvaluationPlan
  pub diagnostics : List ComplexityDiagnostic
  pub stats : EvaluationStats
