-- ===== src/Tests/Cores.antt =====
-- Runs of the core package, and the results on them.
use mathlib.Core.List.Memᴰ
use cervo_rules.Prelude.{Memᴰ, inl, ◌≡◌, refl, ◌↔◌, inr, true, none, some, [], ◌∷◌, keep, Perm}
use cervo_rules.Prelude.Sort.{IsSorted}
use native.Mathlib.Decide.{dec_le}
use cervo_rules.Text.{
  Text, normalize, lower, trim_space, trim_right, trim_left, is_space, cons_trimmed, lower_char,
}
use cervo_rules.Core.Codes.{severity_fatal}
use cervo_rules.Core.Error.{Error, zero_error, redact_with, error_text, Redactor}
use cervo_rules.Core.Errors.{sort_stable}
use cervo_rules.Core.Errors.Order.{HasPlainKey, by_fields, agree, sort_stable-IsSorted}
use cervo_rules.Core.Redaction.{
  redact_fields, field_segments, split_fields, is_separator, redact_with-hides,
  error_text-sensitive,
}
use cervo_rules.Core.Types.{Decision}
use cervo_rules.Core.Conditions.{ConditionSet}
use cervo_rules.Core.Vocabulary.{StaticVocabulary, name_set, validate_decision}
use cervo_rules.Core.Vocabulary.Valid.{ValidDecision, validate_decision_iff}
use cervo_rules.Core.Decisions.{new_decision_result, new_decision_result-private, with_observation}
use cervo_rules.Tests.Shop.{request}

abbrev late : Error
late = record zero_error { code = "late"; field = "b"; value = "4"; sensitive = true }

abbrev early : Error
early = record zero_error { code = "early"; field = "a"; severity = severity_fatal }

plain : (e : Error) → Memᴰ e (late ∷ early ∷ []) → HasPlainKey e
plain e m = elim (Memᴰ.cases_cons m) [
  | inl h ↦ rw h (refl, refl, refl, refl)
  | inr n ↦ rw (Memᴰ.eq_of_singleton n) (refl, refl, refl, refl)
]

sort_stable-IsSorted_example :
    Perm (sort_stable (late ∷ early ∷ [])) (late ∷ early ∷ [])
    × IsSorted by_fields (sort_stable (late ∷ early ∷ []))
    × ((k : Error)
        → keep (agree k) (sort_stable (late ∷ early ∷ [])) ≡ keep (agree k) (late ∷ early ∷ []))
    × (sort_stable (sort_stable (late ∷ early ∷ [])) ≡ sort_stable (late ∷ early ∷ []))
sort_stable-IsSorted_example = sort_stable-IsSorted (late ∷ early ∷ []) plain

error_text-sensitive_example : error_text (record late { value = "5" }) ≡ error_text late
error_text-sensitive_example = error_text-sensitive late "5" refl (λ h. cc) (λ h. cc)

abbrev secrets : Redactor
secrets = some (redact_fields ("secret" ∷ []))

redact_with-hides_example :
    redact_with secrets (record early { field = "card.secret"; value = "1" })
    ≡ redact_with secrets (record early { field = "card.secret"; value = "2" })
unfolding redact_fields field_segments split_fields is_separator normalize lower trim_space
    trim_right trim_left is_space cons_trimmed lower_char dec_le name_set
redact_with-hides_example =
    redact_with-hides secrets (record early { field = "card.secret" }) "1" "2" (inr refl) (λ h. cc)
      (λ h. cc)

abbrev conditions : ConditionSet
conditions = ("open", some (λ req. (true, none))) ∷ ("unwired", none) ∷ []

abbrev refund : Text
refund = "refund"

abbrev desk : StaticVocabulary
desk = record { operations = "refund" ∷ []; targets = "billing" ∷ []; executors = [] }

abbrev verdict : Decision
verdict = record {
  allow = true;
  target = "Billing";
  executor = "";
  fallback_targets = "billing" ∷ "elsewhere" ∷ [];
  fallback_executors = [];
  reason = "";
}

validate_decision_iff_example : (validate_decision desk verdict ≡ none) ↔ ValidDecision desk verdict
validate_decision_iff_example = validate_decision_iff desk verdict

new_decision_result-private_example :
    new_decision_result (request "r-1" "o-1") verdict (with_observation true ∷ [])
    ≡ new_decision_result (request "r-1" "o-2") verdict (with_observation true ∷ [])
new_decision_result-private_example =
    new_decision_result-private (request "r-1" "o-1") (request "r-1" "o-2") verdict
      (with_observation true ∷ []) refl refl
