-- ===== src/Tests/Schemas.antt =====
-- Runs of the validation of a policy and of the generator of a vocabulary, and the results on them.
use cervo_rules.Prelude.{ℕ, ◌≡◌, refl, ◌↔◌, inl, inr, true, false, none, some, List, [], ◌∷◌}
use cervo_rules.Prelude.Int.{pos}
use cervo_rules.Prelude.Results.{Accepts}
use cervo_rules.Text.{Text}
use cervo_rules.Policygen.Schema.{
  Scalar, Leaf, Predicate, node, nil, cons, nothing, just, FactIndex,
}
use cervo_rules.Policygen.Predicate.{validate_predicate}
use cervo_rules.Policygen.WellTyped.{IsTyped, validate_predicate_iff}
use cervo_rules.Policygen.Schema.{VocabularyEntry}
use cervo_rules.Policygen.Facts.{sorted_entries}
use cervo_rules.Prelude.{Distinct}
use cervo_rules.Vocabgen.{GeneratedConstant, build_constants}
use cervo_rules.Vocabgen.Constants.{AllValued, names, constants, build_constants_iff}
use cervo_rules.Policygen.Schema.{Vocabulary, Policy}
use cervo_rules.Policygen.Validate.{PolicyPlan, validate}
use cervo_rules.Prelude.{Memᴰ}
use cervo_rules.Prelude.Maps.{entry}
use cervo_rules.Text.{normalize}
use cervo_rules.Policygen.Schema.{FactBinding, FactBounds, absent}
use cervo_rules.Policygen.Declared.{IsDeclared}
use cervo_rules.Policygen.Plan.{validate-IsDeclared}
use cervo_rules.Tests.Policies.{scaled}

abbrev declared : FactIndex ℕ
declared =
    (
      "depth",
      record {
        name = "depth";
        kind = "integer";
        values = [];
        field = "Depth";
        min = none;
        max = none;
        default = none;
      },
    )
    ∷ (
      "limit",
      record {
        name = "limit";
        kind = "integer";
        values = [];
        field = "Limit";
        min = none;
        max = none;
        default = none;
      },
    )
    ∷ []

abbrev no_leaf : Leaf ℕ
no_leaf = record { fact = ""; op = ""; value = Scalar.null; fact_value = ""; values = [] }

-- `{fact: depth, op: gte, value: 3}`
abbrev deep : Predicate ℕ
deep =
    node nil nil nothing
      (record no_leaf { fact = "Depth"; op = "gte"; value = Scalar.integer (pos 3) }) ""

-- `{fact: depth, op: lt, value_fact: limit}`
abbrev below_limit : Predicate ℕ
below_limit =
    node nil nil nothing (record no_leaf { fact = "depth"; op = "lt"; fact_value = "limit" }) ""

-- `{all: [deep, {not: below_limit}, {condition: ready}]}`
abbrev queue_is_full : Predicate ℕ
queue_is_full =
    node
      (cons deep (
        cons (node nil nil (just below_limit) no_leaf "")
          (cons (node nil nil nothing no_leaf "ready") nil)))
      nil nothing no_leaf ""

queue_is_full_validates :
    validate_predicate declared ("ready" ∷ []) queue_is_full [] "when"
    ≡ inr ("limit" ∷ "depth" ∷ [])
unfolding validate_predicate cervo_rules.Policygen.Predicate.form_of
    cervo_rules.Policygen.Predicate.forms cervo_rules.Policygen.Predicate.switch_of
    cervo_rules.Prelude.Results.◌>>=◌ cervo_rules.Policygen.Predicate.validate_fact_leaf
    cervo_rules.Prelude.Maps.entry cervo_rules.Text.normalize cervo_rules.Text.lower
    cervo_rules.Text.trim_space cervo_rules.Text.trim_right cervo_rules.Text.trim_left
    cervo_rules.Text.is_space cervo_rules.Text.cons_trimmed cervo_rules.Text.lower_char
    native.Mathlib.Decide.dec_le cervo_rules.Policygen.Predicate.ops_by_kind
    cervo_rules.Policygen.Kinds.coerce_bool cervo_rules.Policygen.Kinds.coerce_enum
    cervo_rules.Policygen.Kinds.coerce_fact_value cervo_rules.Policygen.Kinds.coerce_integer
    cervo_rules.Policygen.Kinds.coerce_number cervo_rules.Policygen.Kinds.coerce_string
    cervo_rules.Policygen.Kinds.to_float cervo_rules.Policygen.Predicate.validate_elements
    cervo_rules.Policygen.Predicate.validate_fact_comparison
    cervo_rules.Policygen.Predicate.validate_operand cervo_rules.Prelude.Maps.mark
    cervo_rules.Prelude.Results.◌>>◌ cervo_rules.Text.decimal cervo_rules.Text.decimal_from
    native.Mathlib.Bridge.IsLe
queue_is_full_validates = refl

validate_predicate_iff_example :
    Accepts (validate_predicate declared ("ready" ∷ []) queue_is_full [] "when")
    ↔ IsTyped declared ("ready" ∷ []) queue_is_full
validate_predicate_iff_example =
    validate_predicate_iff declared ("ready" ∷ []) queue_is_full [] "when"

abbrev listed : List (Text × VocabularyEntry)
listed =
    ("send_mail", record { description = ""; go_name = "" })
    ∷ (" Deploy", record { description = ""; go_name = "Ship" })
    ∷ []

build_constants_iff_example :
    (build_constants "Operation" "Operation" listed
      ≡ inr (constants "Operation" "Operation" (sorted_entries listed)))
    ↔ ((constants "Operation" "Operation" (sorted_entries listed)
          ≡ constants "Operation" "Operation" (sorted_entries listed))
        × (AllValued (constants "Operation" "Operation" (sorted_entries listed))
            × Distinct (names (constants "Operation" "Operation" (sorted_entries listed)))))
build_constants_iff_example =
    build_constants_iff "Operation" "Operation" listed
      (constants "Operation" "Operation" (sorted_entries listed))

constants_of_listed :
    constants "Operation" "Operation" (sorted_entries listed)
    ≡ record { name = "OperationShip"; typ = "Operation"; value = "deploy" }
      ∷ record { name = "OperationSendMail"; typ = "Operation"; value = "send_mail" }
      ∷ []
unfolding sorted_entries cervo_rules.Prelude.Sort.sort_stable cervo_rules.Text.text_less
    cervo_rules.Vocabgen.constant_of cervo_rules.Vocabgen.entry_name cervo_rules.Text.normalize
    cervo_rules.Text.trim_space cervo_rules.Text.lower cervo_rules.Text.trim_right
    cervo_rules.Text.trim_left cervo_rules.Text.is_space cervo_rules.Vocabgen.export_name
    cervo_rules.Text.cons_trimmed cervo_rules.Policygen.Kinds.camel cervo_rules.Text.lower_char
    native.Mathlib.Decide.dec_le cervo_rules.Text.upper_char
constants_of_listed = refl

abbrev named : VocabularyEntry
named = record { description = ""; go_name = "" }

abbrev mailing : Vocabulary
mailing = record {
  operations = ("send", named) ∷ [];
  targets = ("mailer", named) ∷ [];
  executors = ("worker", named) ∷ [];
  facts = ("depth", record { kind = "integer"; values = []; description = ""; go_name = "" }) ∷ [];
}

abbrev mail_policy : Policy ℕ
mail_policy = record {
  version = "cervorules.policy.v3";
  name = "mail";
  trusted_users = [];
  default_executor = "worker";
  routes =
      record {
        id = "send";
        operation = "send";
        target = "mailer";
        executor = "worker";
        fallback_executors = [];
        disabled_by_default = false;
        disabled_reason = "";
        requires_trusted_user = false;
        requires = [];
        guard = nothing;
      }
      ∷ [];
  denies =
      record { id = "deep"; operation = "send"; reason = "full"; requires = []; guard = just deep }
      ∷ [];
  tests = [];
  conditions = [];
  facts = ("Depth", record { min = some 10; max = none; default = absent }) ∷ [];
}

abbrev mail_plan : PolicyPlan ℕ
mail_plan = record {
  facts =
      (
        "depth",
        record {
          name = "depth";
          kind = "integer";
          values = [];
          field = "factDepth";
          min = some 10;
          max = none;
          default = none;
        },
      )
      ∷ [];
  referenced = "depth" ∷ [];
}

mail_policy_validates : validate mailing mail_policy ≡ inr mail_plan
unfolding validate cervo_rules.Prelude.Results.◌>>◌ cervo_rules.Text.trim_space
    cervo_rules.Text.trim_right cervo_rules.Text.trim_left cervo_rules.Text.is_space
    cervo_rules.Text.cons_trimmed cervo_rules.Policygen.Routes.has_executor
    cervo_rules.Policygen.Routes.new_vocabulary_index cervo_rules.Text.normalize
    cervo_rules.Text.lower cervo_rules.Text.lower_char native.Mathlib.Decide.dec_le
    cervo_rules.Policygen.Routes.validate_routes cervo_rules.Policygen.Routes.validate_route_names
    cervo_rules.Policygen.Routes.has_operation cervo_rules.Prelude.Maps.entry
    cervo_rules.Policygen.Conditions.declare_conditions
    cervo_rules.Policygen.Conditions.validate_condition
    cervo_rules.Policygen.Conditions.validate_conditions
    cervo_rules.Policygen.Conditions.validate_requires cervo_rules.Policygen.Facts.apply_bounds
    cervo_rules.Policygen.Facts.apply_default cervo_rules.Policygen.Facts.apply_fact_bounds
    cervo_rules.Policygen.Facts.bound_facts cervo_rules.Policygen.Facts.build_fact_index
    cervo_rules.Policygen.Facts.check_default
    cervo_rules.Policygen.Facts.check_default_within_bounds cervo_rules.Policygen.Facts.check_finite
    cervo_rules.Policygen.Facts.check_integer_bound cervo_rules.Policygen.Facts.collect_values
    cervo_rules.Policygen.Facts.declare_fact cervo_rules.Policygen.Facts.declare_facts
    sorted_entries cervo_rules.Policygen.Kinds.all_name_chars cervo_rules.Policygen.Kinds.camel
    cervo_rules.Policygen.Kinds.coerce_bool cervo_rules.Policygen.Kinds.coerce_enum
    cervo_rules.Policygen.Kinds.coerce_fact_value cervo_rules.Policygen.Kinds.coerce_integer
    cervo_rules.Policygen.Kinds.coerce_number cervo_rules.Policygen.Kinds.coerce_string
    cervo_rules.Policygen.Kinds.fact_field_name cervo_rules.Policygen.Kinds.is_fact_name
    cervo_rules.Policygen.Kinds.parse_fact_kind cervo_rules.Policygen.Kinds.to_float
    cervo_rules.Policygen.Predicate.form_of cervo_rules.Policygen.Predicate.forms
    cervo_rules.Policygen.Predicate.ops_by_kind cervo_rules.Policygen.Predicate.switch_of
    cervo_rules.Policygen.Predicate.validate_elements
    cervo_rules.Policygen.Predicate.validate_fact_comparison
    cervo_rules.Policygen.Predicate.validate_fact_leaf
    cervo_rules.Policygen.Predicate.validate_operand validate_predicate
    cervo_rules.Policygen.Quote.quote cervo_rules.Policygen.Quote.quote_char
    cervo_rules.Policygen.Quote.quote_chars cervo_rules.Policygen.Routes.agree_fallbacks
    cervo_rules.Policygen.Routes.equal_strings cervo_rules.Policygen.Routes.has_target
    cervo_rules.Policygen.Routes.normalize_all cervo_rules.Policygen.Routes.validate_fallbacks
    cervo_rules.Policygen.Validate.reject_unread_fact_bounds cervo_rules.Policygen.Validate.unread
    cervo_rules.Policygen.Validate.validate_denies cervo_rules.Policygen.Validate.validate_guard
    cervo_rules.Policygen.Validate.validate_route_rules
    cervo_rules.Policygen.Validate.validate_tests cervo_rules.Prelude.Int.ltb_ℤ
    cervo_rules.Prelude.Maps.mark cervo_rules.Prelude.Maps.put cervo_rules.Prelude.Results.◌>>=◌
    cervo_rules.Prelude.Sort.insert cervo_rules.Prelude.Sort.sort_stable cervo_rules.Text.decimal
    cervo_rules.Text.decimal_from cervo_rules.Text.text_less cervo_rules.Text.upper_char
    native.Mathlib.Bridge.IsLe cervo_rules.Fuzzpolicy.Facts.digits
mail_policy_validates = refl

validate-IsDeclared_example :
    ((n : Text)
      → Memᴰ n mail_plan.referenced
      → (b : FactBinding ℕ) × (entry n mail_plan.facts ≡ some b) × IsDeclared mailing.facts n b)
    × ((name : Text) (d : FactBounds ℕ)
        → Memᴰ (name, d) mail_policy.facts
        → Memᴰ (normalize name) mail_plan.referenced)
validate-IsDeclared_example =
    validate-IsDeclared mailing mail_policy mail_plan mail_policy_validates
