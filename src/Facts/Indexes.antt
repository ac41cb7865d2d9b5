-- ===== src/Facts/Indexes.antt =====
-- facts/binding_profile.go: `RecommendCompoundIndexes`.
pub mod Thresholds
use cervo_rules.Prelude.{
  ◌&◌, Bool, true, false, not, ◌&&◌, ◌||◌, List, [], ◌∷◌, if◌then◌else◌, ◌==◌, elem,
}
use cervo_rules.Prelude.Int.{ℤ, pos, ltb_ℤ}
use cervo_rules.Prelude.Sort.{sort_stable}
use cervo_rules.Text.{Text, text_less, decimal_ℤ, nul_text}
use cervo_rules.Facts.Contract.{
  EvaluationPlan, EvaluationStats, RulePlan, PatternPlan, RuleEvaluationStat,
}

pub record CompoundIndexOptions : Type 0 where
  pub min_candidate_count : ℤ
  pub min_bindings : ℤ

-- `if n <= 0 { n = ... }`
abbrev pub default_to : ℤ → ℤ → ℤ
default_to d n = if ltb_ℤ (pos 0) n then n else d

-- `CompoundIndexOptions.Normalize`
unfoldable pub normalize_index_options : CompoundIndexOptions → CompoundIndexOptions
normalize_index_options o = record {
  min_candidate_count = default_to (pos 128) o.min_candidate_count;
  min_bindings = default_to (pos 512) o.min_bindings;
}

pub record Recommendation : Type 0 where
  pub rule : Text
  pub predicate : Text
  pub declared_index : ℤ
  pub constant_positions : List ℤ
  pub candidate_count : ℤ
  pub max_bindings : ℤ
  pub reason : Text

-- `bindingsByRule`: the last statistic of a name is in force, and a missing name reads as 0.
unfoldable pub bindings_of : ℤ → Text → List RuleEvaluationStat → ℤ
bindings_of found r [] = found
bindings_of found r (s ∷ rest) = bindings_of (if s.name == r then s.max_bindings else found) r rest

unfoldable pub recommendation_key : Text → PatternPlan → Text
recommendation_key rule p =
    rule & (nul_text & (p.predicate & (nul_text & decimal_ℤ p.declared_index)))

unfoldable pub index_reason : ℤ → ℤ → CompoundIndexOptions → Text
index_reason candidates bindings o =
    if not (ltb_ℤ candidates o.min_candidate_count) && not (ltb_ℤ bindings o.min_bindings)
    then "high candidate count and binding fanout"
    else if not (ltb_ℤ candidates o.min_candidate_count)
    then "high candidate count"
    else "high binding fanout"

unfoldable pub recommend : CompoundIndexOptions → Text → ℤ → PatternPlan → Recommendation
recommend o rule bindings p = record {
  rule = rule;
  predicate = p.predicate;
  declared_index = p.declared_index;
  constant_positions = p.constant_positions;
  candidate_count = p.candidate_count;
  max_bindings = bindings;
  reason = index_reason p.candidate_count bindings o;
}

-- The two `continue` of the inner loop that do not read what has been seen.
unfoldable pub is_skipped : CompoundIndexOptions → ℤ → PatternPlan → Bool
is_skipped o bindings p =
    p.negated
    || p.predicate == ""
    || ltb_ℤ p.candidate_count o.min_candidate_count && ltb_ℤ bindings o.min_bindings

-- The patterns of all rules, each with its rule and the bindings of that rule.
abbrev pub Candidate : Type 0
Candidate = Text × ℤ × PatternPlan

abbrev pub candidates_of : Text → ℤ → List PatternPlan → List Candidate → List Candidate
candidates_of r b [] rest = rest
candidates_of r b (p ∷ ps) rest = (r, b, p) ∷ candidates_of r b ps rest

abbrev pub all_candidates : List RuleEvaluationStat → List RulePlan → List Candidate
all_candidates stats [] = []
all_candidates stats (r ∷ rs) =
    candidates_of r.name (bindings_of (pos 0) r.name stats) r.patterns (all_candidates stats rs)

-- The body of the two loops, with the keys that have been seen.
unfoldable pub recommend_from :
    CompoundIndexOptions → List Text → List Candidate → List Recommendation
recommend_from o seen [] = []
recommend_from o seen ((r, b, p) ∷ rest) =
    let passed = recommend_from o seen rest in
    let found = recommend o r b p ∷ recommend_from o (recommendation_key r p ∷ seen) rest in
    if is_skipped o b p || elem (recommendation_key r p) seen then passed else found

abbrev pub eqb_ℤ : ℤ → ℤ → Bool
eqb_ℤ a b = not (ltb_ℤ a b) && not (ltb_ℤ b a)

unfoldable pub less_recommendation : Recommendation → Recommendation → Bool
less_recommendation a b =
    if not (eqb_ℤ a.max_bindings b.max_bindings)
    then ltb_ℤ b.max_bindings a.max_bindings
    else if not (eqb_ℤ a.candidate_count b.candidate_count)
    then ltb_ℤ b.candidate_count a.candidate_count
    else if not (a.rule == b.rule)
    then text_less a.rule b.rule
    else ltb_ℤ a.declared_index b.declared_index

-- `RecommendCompoundIndexes`
unfoldable pub recommend_compound_indexes :
    EvaluationPlan → EvaluationStats → CompoundIndexOptions → List Recommendation
recommend_compound_indexes plan stats o =
    sort_stable less_recommendation
      (recommend_from (normalize_index_options o) [] (all_candidates stats.rules plan.rules))
