-- ===== src/Tests/Evaluations.antt =====
-- Runs of the limits and of the facts, and the results on them.
use cervo_rules.Prelude.{◌≡◌, refl, ◌≢◌, ◌↔◌, ◌⊎◌, true, false, some, [], ◌∷◌, Memᴰ}
use cervo_rules.Prelude.Int.{pos, negsuc, ltb_ℤ}
use cervo_rules.Prelude.Sort.{sort_stable, insert}
use cervo_rules.Text.{Text}
use cervo_rules.Core.Error.{Error, zero_error}
use cervo_rules.Limits.{Budget, Requested, has_violation, check_budget}
use cervo_rules.Limits.Budgets.{IsWithin, check_budget_iff}
use cervo_rules.Facts.Contract.{
  Term, Pattern, ComplexityDiagnostic, EvaluationPlan, EvaluationStats, PatternPlan, term_var,
}
use cervo_rules.Facts.Binding.{
  BindingFrame, new_binding_layout, new_binding_frame, slots_from, slot_for, bind, lookup,
}
use cervo_rules.Facts.Binding.Frames.{IsFrame, new_binding_frame-IsFrame, lookup-bind}
use cervo_rules.Facts.Diagnostics.{structured_errors, Source, structured_errors_iff}
use cervo_rules.Facts.Indexes.{
  CompoundIndexOptions, normalize_index_options, recommend, recommend_compound_indexes,
  recommend_from, is_skipped, all_candidates, bindings_of,
}
use cervo_rules.Facts.Indexes.Thresholds.{Earned, recommend_compound_indexes-Earned}

abbrev budget : Budget
budget = record {
  max_body_bytes = pos 1024;
  max_tokens = negsuc 0;
  allow_stream = false;
  allow_tools = true;
  allow_images = false;
}

abbrev asked : Requested
asked = record {
  body_bytes = pos 2048;
  max_tokens = pos 9;
  stream = true;
  tools = true;
  images = false;
}

check_budget_iff_example :
    ((has_violation "body_bytes" (check_budget budget asked) ≡ false)
      ↔ IsWithin (pos 1024) (pos 2048))
    × ((has_violation "max_tokens" (check_budget budget asked) ≡ false)
        ↔ IsWithin (negsuc 0) (pos 9))
    × ((has_violation "stream" (check_budget budget asked) ≡ false)
        ↔ ((asked.stream ≡ false) ⊎ (budget.allow_stream ≡ true)))
    × ((has_violation "tools" (check_budget budget asked) ≡ false)
        ↔ ((asked.tools ≡ false) ⊎ (budget.allow_tools ≡ true)))
    × ((has_violation "images" (check_budget budget asked) ≡ false)
        ↔ ((asked.images ≡ false) ⊎ (budget.allow_images ≡ true)))
check_budget_iff_example = check_budget_iff budget asked

abbrev variable : Text → Term
variable v = record { kind = term_var; value = v }

abbrev edge : Pattern
edge = record { predicate = "edge"; terms = variable "x" ∷ variable "y" ∷ []; negated = false }

abbrev edge_frame : BindingFrame
edge_frame = new_binding_frame (new_binding_layout "path" (edge ∷ []))

abbrev paris : Term
paris = record { kind = "const"; value = "paris" }

lookup-bind_example :
    (g : BindingFrame) × (bind edge_frame "y" paris ≡ some (true, g))
    × IsFrame g
    × (lookup g "y" ≡ some (some paris))
    × ((u : Text) → u ≢ "y" → lookup g u ≡ lookup edge_frame u)
unfolding new_binding_frame new_binding_layout slots_from slot_for
lookup-bind_example =
    lookup-bind edge_frame "y" paris 1 (new_binding_frame-IsFrame "path" (edge ∷ []) "y").0 refl

abbrev overrun : ComplexityDiagnostic
overrun = record {
  code = "max_facts";
  rule = "path";
  field = "";
  limit = pos 10;
  observed = pos 11;
  reason = "too many facts";
}

abbrev too_many : Error
too_many = record zero_error {
  code = "max_facts_exceeded";
  severity = "fatal";
  component = "facts";
  rule = "path";
  limit = pos 10;
  observed = pos 11;
  reason = "too many facts";
}

structured_errors_iff_example :
    Memᴰ too_many (structured_errors (overrun ∷ [])) ↔ Source (overrun ∷ []) too_many
structured_errors_iff_example = structured_errors_iff (overrun ∷ []) too_many

abbrev scan : PatternPlan
scan = record {
  declared_index = pos 0;
  predicate = "edge";
  negated = false;
  constants = pos 0;
  constant_positions = [];
  candidate_count = pos 500;
  selectivity_reason = "";
}

abbrev plan : EvaluationPlan
plan = record {
  schema_version = "cervorules.v3.facts.plan.v1";
  rules = record { name = "path"; stratum = pos 0; reordered = false; patterns = scan ∷ [] } ∷ [];
}

abbrev stats : EvaluationStats
stats = record { iterations = pos 1; rules = [] }

abbrev defaults : CompoundIndexOptions
defaults = record { min_candidate_count = pos 0; min_bindings = pos 0 }

recommend_compound_indexes-Earned_example :
    Earned
      (normalize_index_options defaults)
      (all_candidates stats.rules plan.rules)
      (recommend (normalize_index_options defaults) "path" (pos 0) scan)
unfolding recommend_compound_indexes recommend_from is_skipped normalize_index_options bindings_of
    ltb_ℤ sort_stable insert
recommend_compound_indexes-Earned_example =
    recommend_compound_indexes-Earned plan stats defaults
      (recommend (normalize_index_options defaults) "path" (pos 0) scan) (Memᴰ.head refl)
