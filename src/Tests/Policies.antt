-- ===== src/Tests/Policies.antt =====
-- Runs of the generated engine, and the results on them.
use Prim.Native.Nat.{◌*◌}
use cervo_rules.Prelude.{
  ℕ, suc, ◌≡◌, refl, ◌↔◌, inl, inr, true, false, Option, none, some, [], ◌∷◌, ltb, nat_beq,
}
use cervo_rules.Prelude.Int.{pos, negsuc, ltb_ℤ}
use cervo_rules.Prelude.Maps.{entry, put, put_all}
use cervo_rules.Prelude.Results.{◌>>=◌}
use cervo_rules.Text.{Text, decimal, trim_space, lower, normalize}
use cervo_rules.Core.Types.{Request, Decision}
use cervo_rules.Core.Decisions.{DecisionOptions, DecisionResult}
use cervo_rules.Runtime.{PolicyRuntimeConfig}
use cervo_rules.Float.{Float}
use cervo_rules.Fuzzpolicy.Facts.{digits}
use cervo_rules.Fuzzpolicy.Rules.{FactFrame, new_fact_frame}
use cervo_rules.Fuzzpolicy.Engine.{
  Context, Evaluator, GeneratedEngine, GeneratedRoute, decide_with_options,
}
use cervo_rules.Fuzzpolicy.Factory.{build, engine_of, merge_runtime_config, default_config}
use cervo_rules.Fuzzpolicy.Decides.{Decides}
use cervo_rules.Fuzzpolicy.Agreement.{decide_iff}
use cervo_rules.Fuzzpolicy.Trace.{decision_of, decide_with_options-decision}
use cervo_rules.Fuzzpolicy.Total.{CanAnswer, CanMatch, DeniesAnswer, decide_with_options-total}
use cervo_rules.Fuzzpolicy.Policy.{IsClear, IsRouted, build-decides}
use cervo_rules.Fuzzpolicy.Ranges.{Reads, IsInRange, new_fact_frame-Reads}

-- Numbers in tenths.
abbrev tenths : Text → Option ℕ
tenths s = elim (digits 0 s) [ none ↦ none | some n ↦ some (n * 10) ]

abbrev literal_tenths : Text → ℕ
literal_tenths s = elim (tenths s) [ none ↦ 5 | some n ↦ n ]

instance abbrev pub scaled : Float ℕ
scaled = record {
  parse = tenths;
  print = decimal;
  literal = literal_tenths;
  lt = ltb;
  eq = nat_beq;
  is_nan = λ v. false;
  is_inf = λ v. false;
  trunc = λ v. v;
  abs = λ v. v;
  of_int = elim [ pos n ↦ n * 10 | negsuc n ↦ 0 ];
  to_int = λ v. pos v;
}

abbrev deploy : Request
deploy = record {
  id = "r1";
  user = "ann";
  channel = "cli";
  operation = "deploy";
  metadata =
      ("change_freeze", " false ")
      ∷ ("environment", "Production")
      ∷ ("error_rate_pct", "0")
      ∷ ("queue_depth", "12")
      ∷ [];
}

abbrev frame : FactFrame ℕ
frame = record {
  change_freeze = false;
  environment = "production";
  error_budget_pct = 10;
  error_rate_pct = 0;
  queue_depth = pos 12;
}

frame_is_read : new_fact_frame deploy ≡ inr frame
unfolding new_fact_frame ◌>>=◌ cervo_rules.Fuzzpolicy.Facts.fact_bool_value
    cervo_rules.Fuzzpolicy.Facts.fact_raw_value cervo_rules.Fuzzpolicy.Facts.bool_of
    cervo_rules.Fuzzpolicy.Facts.parse_bool cervo_rules.Fuzzpolicy.Facts.fact_enum_value
    cervo_rules.Fuzzpolicy.Facts.enum_of cervo_rules.Fuzzpolicy.Facts.fact_number_value
    cervo_rules.Fuzzpolicy.Facts.absent_fact cervo_rules.Fuzzpolicy.Facts.fact_integer_value
    cervo_rules.Fuzzpolicy.Facts.integer_of cervo_rules.Fuzzpolicy.Facts.invalid_fact_error
    cervo_rules.Fuzzpolicy.Facts.missing_fact_error cervo_rules.Fuzzpolicy.Facts.negative
    cervo_rules.Fuzzpolicy.Facts.nonnegative cervo_rules.Fuzzpolicy.Facts.number_of
    cervo_rules.Fuzzpolicy.Facts.parse_int cervo_rules.Fuzzpolicy.Facts.within_bounds entry
    trim_space cervo_rules.Text.trim_right cervo_rules.Text.trim_left cervo_rules.Text.is_space
    cervo_rules.Text.cons_trimmed lower cervo_rules.Text.lower_char native.Mathlib.Decide.dec_le
    digits cervo_rules.Fuzzpolicy.Rules.budget_bounds cervo_rules.Fuzzpolicy.Rules.rate_bounds ltb_ℤ
    native.Mathlib.Bridge.IsLe
frame_is_read = refl

-- An evaluator that says yes and counts.
abbrev counting : Evaluator ℕ
counting c req w = ((true, none), suc w)

abbrev ready_route : GeneratedRoute ℕ ℕ
ready_route = record {
  target = "deployer";
  executor = "";
  id = "deploy";
  reason = "deploy";
  requires_trusted_user = false;
  requires = "ready" ∷ [];
  matcher = none;
}

abbrev engine : GeneratedEngine ℕ ℕ
engine = record {
  routes = ("deploy", ready_route) ∷ [];
  denies =
      record {
        operation = "deploy";
        id = "frozen";
        reason = "frozen";
        requires = "ready" ∷ [];
        matcher = some (λ req f w. (inr (f.change_freeze, "change_freeze is_true"), w));
      }
      ∷ [];
  disabled_denies = [];
  trusted_users = [];
  default_executor = "standard_executor";
  executor_fallbacks = [];
  conditions = some counting;
}

abbrev traced : DecisionOptions
traced = record { trace = true; observation = false }

abbrev untraced : DecisionOptions
untraced = record { trace = false; observation = false }

abbrev go : Decision
go = record {
  allow = true;
  target = "deployer";
  executor = "standard_executor";
  fallback_targets = [];
  fallback_executors = [];
  reason = "deploy";
}

decide_iff_example :
    ((res : DecisionResult) × (decide_with_options engine none deploy traced 0 ≡ (inr res, 2))
      × (res.decision ≡ go))
    ↔ ((◌≡◌ {A = Context} none none)
        × ((f : FactFrame ℕ) × (new_fact_frame deploy ≡ inr f) × Decides engine deploy f 0 2 go))
decide_iff_example = decide_iff engine none deploy traced 0 2 go

decide_with_options-decision_example :
    (decision_of (decide_with_options engine none deploy traced 0).0
      ≡ decision_of (decide_with_options engine none deploy untraced 0).0)
    × ((decide_with_options engine none deploy traced 0).1
        ≡ (decide_with_options engine none deploy untraced 0).1)
decide_with_options-decision_example =
    decide_with_options-decision engine none deploy traced untraced 0

denies_answer : DeniesAnswer deploy frame engine.conditions engine.denies
denies_answer = (
  (
    inr (counting, refl, λ c w. refl),
    inr (
      λ req f w. (inr (f.change_freeze, "change_freeze is_true"), w),
      refl,
      λ w. ((false, "change_freeze is_true"), w, refl),
    ),
  ),
  tt,
)

routes_answer :
    (r : GeneratedRoute ℕ ℕ)
    → entry "deploy" engine.routes ≡ some r
    → CanAnswer deploy frame engine.conditions r.requires × CanMatch deploy frame r.matcher
unfolding entry
routes_answer r h =
    let same : ready_route ≡ r = cc in rw (← same) (inr (counting, refl, λ c w. refl), inl refl)

decide_with_options-total_example :
    (res : DecisionResult) × (v : ℕ) × (decide_with_options engine none deploy untraced 0
      ≡ (inr res, v))
decide_with_options-total_example =
    decide_with_options-total engine deploy untraced 0 frame frame_is_read denies_answer
      routes_answer

abbrev config : PolicyRuntimeConfig (Evaluator ℕ)
config = record {
  trusted_users = " Ann " ∷ [];
  default_executor = "";
  operation_targets = some (("deploy", "deployer") ∷ []);
  executor_fallbacks = none;
  conditions = none;
}

abbrev built : GeneratedEngine ℕ ℕ
built = engine_of (merge_runtime_config default_config config)

config_builds : build none config ≡ inr built
unfolding build merge_runtime_config cervo_rules.Runtime.clone cervo_rules.Runtime.copy_map
    default_config put_all put normalize lower trim_space engine_of entry
    cervo_rules.Fuzzpolicy.Factory.validate_config cervo_rules.Fuzzpolicy.Factory.config_errors
    cervo_rules.Fuzzpolicy.Factory.executor_fallback_errors cervo_rules.Fuzzpolicy.Factory.merge_map
    cervo_rules.Fuzzpolicy.Factory.target_errors
    cervo_rules.Fuzzpolicy.Factory.append_runtime_validation_error
    cervo_rules.Fuzzpolicy.Factory.default_executor_errors
    cervo_rules.Fuzzpolicy.Factory.fallback_errors cervo_rules.Fuzzpolicy.Factory.vocabulary
    cervo_rules.Core.Vocabulary.validate_target cervo_rules.Core.Vocabulary.validate_operation
    cervo_rules.Core.Vocabulary.validate_executor cervo_rules.Core.Vocabulary.allowed_executors
    cervo_rules.Core.Vocabulary.allowed_operations cervo_rules.Core.Vocabulary.allowed_targets
    cervo_rules.Core.Vocabulary.apply_options cervo_rules.Core.Vocabulary.name_set
    cervo_rules.Core.Vocabulary.new_vocabulary cervo_rules.Text.trim_right
    cervo_rules.Text.trim_left cervo_rules.Text.is_space cervo_rules.Text.cons_trimmed
    cervo_rules.Text.lower_char native.Mathlib.Decide.dec_le native.Mathlib.Bridge.IsLe
config_builds = refl

build-decides_example :
    (res : DecisionResult) × (decide_with_options built none deploy untraced 7 ≡ (inr res, 7))
    × ((res.decision.allow ≡ true) ↔ (IsClear frame "deploy" × IsRouted config "deploy"))
build-decides_example =
    build-decides config deploy untraced frame 7 built config_builds frame_is_read

new_fact_frame-Reads_example : Reads {A = FactFrame ℕ} IsInRange (new_fact_frame deploy)
new_fact_frame-Reads_example = new_fact_frame-Reads ℕ deploy
