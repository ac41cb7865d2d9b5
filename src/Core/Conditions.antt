-- ===== src/Core/Conditions.antt =====
-- core/conditions.go: the contract of a guard, and its two adapters.
use cervo_rules.Prelude.{
  ◌≡◌, refl, ◌⊎◌, inl, inr, Bool, false, Option, none, some, List, [], ◌∷◌, map, if◌then◌else◌,
  ◌==◌, Option-cases,
}
use cervo_rules.Prelude.Sort.{sort_stable}
use cervo_rules.Text.{Text, normalize, text_less}
use cervo_rules.Core.Codes.{
  severity_fatal, error_code_missing_conditions, error_code_unknown_condition,
}
use cervo_rules.Core.Error.{Error, zero_error}
use cervo_rules.Core.Errors.{Failure, single}
use cervo_rules.Core.Types.{Request}

abbrev pub Condition : Type 0
Condition = Text

abbrev pub new_condition : Text → Condition
new_condition v = normalize v

-- What `Holds` returns: the answer, and the error or nil.
abbrev pub Verdict : Type 0
Verdict = Bool × Option Failure

-- The `Conditions` interface.
pub record Conditions (S : Type 0) : Type 0 where
  pub holds : S → Condition → Request → Verdict

abbrev pub ConditionFunc : Type 0
ConditionFunc = Option (Condition → Request → Verdict)

unfoldable pub missing_evaluator : Condition → Error
missing_evaluator c = record zero_error {
  code = error_code_missing_conditions;
  severity = severity_fatal;
  component = "core";
  field = "conditions";
  value = c;
  reason = "no condition evaluator is configured";
}

-- `ConditionFunc.Holds`
unfoldable pub func_holds : ConditionFunc → Condition → Request → Verdict
func_holds none c req = (false, some (single (missing_evaluator c)))
func_holds (some f) c req = f c req

-- The map as a list of its entries; a function of it may be nil.
abbrev pub ConditionSet : Type 0
ConditionSet = List (Condition × Option (Request → Verdict))

unfoldable pub registered : Condition → ConditionSet → Option (Request → Verdict)
registered c [] = none
registered c ((k, f) ∷ rest) = if k == c then f else registered c rest

unfoldable pub unregistered_error : Condition → Error
unregistered_error c = record zero_error {
  code = error_code_unknown_condition;
  severity = severity_fatal;
  component = "core";
  field = "conditions";
  value = c;
  reason = "condition is not registered";
  suggestion = "register the condition on the runtime config before building the policy";
}

-- `ConditionSet.Holds`
unfoldable pub set_holds : ConditionSet → Condition → Request → Verdict
set_holds s c req = elim (registered (new_condition c) s) [
  | none ↦ (false, some (single (unregistered_error c)))
  | some evaluate ↦ evaluate req
]

-- `ConditionSet.Names`
unfoldable pub names : ConditionSet → List Condition
names s = sort_stable text_less (map (λ e. e.0) s)

instance pub func_conditions : Conditions ConditionFunc
func_conditions = record { holds = func_holds }

instance pub set_conditions : Conditions ConditionSet
set_conditions = record { holds = set_holds }

-- `Holds` of a condition set gives what the evaluator registered under the normalized name gives
-- or, where there is none or it is nil, false and the error of a condition that is not registered.
pub set_holds-closed :
    (s : ConditionSet) (c : Condition) (req : Request)
    → ((f : Request → Verdict) × (registered (new_condition c) s ≡ some f)
        × (set_holds s c req ≡ f req))
      ⊎ ((registered (new_condition c) s ≡ none)
          × (set_holds s c req ≡ (false, some (single (unregistered_error c)))))
unfolding set_holds
set_holds-closed s c req = elim (Option-cases (registered (new_condition c) s)) [
  | inl e ↦ inr (e, rw (e, set_holds))
  | inr (f, e) ↦ inl (f, e, rw (e, set_holds) refl)
]
