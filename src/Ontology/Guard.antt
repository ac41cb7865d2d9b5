-- ===== src/Ontology/Guard.antt =====
-- ontology/conditions.go: the guard, which answers named conditions from an ontology.
pub mod Closed
pub mod Meaning
pub mod Bindings
pub mod Once
use cervo_rules.Prelude.{
  ◌&◌, ◌≡◌, ◌⊎◌, inl, inr, Bool, true, false, not, ◌&&◌, Option, none, some, List, [], ◌∷◌, map,
  if◌then◌else◌, ◌==◌, any, is_empty,
}
use cervo_rules.Prelude.Sort.{sort_stable}
use cervo_rules.Text.{Text, text_less}
use cervo_rules.Core.Codes.{
  error_code_condition_failed, error_code_invalid_config, error_code_missing_conditions,
  error_code_unknown_condition, error_code_unsupported_feature,
}
use cervo_rules.Core.Error.{Error}
use cervo_rules.Core.Errors.{Errors, Failure, single, message, fatal}
use cervo_rules.Core.Types.{Request, metadata_value}
use cervo_rules.Core.Conditions.{Condition, Verdict, new_condition}
use cervo_rules.Ontology.Names.{
  EntityType, Individual, State, new_entity_type, new_individual, new_state, fatal_error,
}
use cervo_rules.Ontology.Snapshot.{Snapshot, state_of}
use cervo_rules.Ontology.Signature.{has_type}
use cervo_rules.Ontology.Model.{Ontology, Constraint, normalize_model}
use cervo_rules.Ontology.Model.Validation as ModelValidation
use cervo_rules.Ontology.Model.Check as ModelCheck
use cervo_rules.Ontology.Scope.{SnapshotResolver, Context, resolve_once}

-- A kind is a string, which need not be one of the four.
abbrev pub CheckKind : Type 0
CheckKind = Text

abbrev pub check_transition_allowed : CheckKind
check_transition_allowed = "transition_allowed"

abbrev pub check_in_state : CheckKind
check_in_state = "in_state"

abbrev pub check_has_type : CheckKind
check_has_type = "has_type"

abbrev pub check_integrity : CheckKind
check_integrity = "integrity"

pub record Check : Type 0 where
  pub kind : CheckKind
  pub lifecycle : Text
  pub subject_key : Text
  pub to : State
  pub states : List State
  pub entity_type : EntityType

-- `checks` is the map as a list of its entries, a later one in force; the resolver may be nil.
pub record Guard (C W : Type 0) : Type 0 where
  pub ontology : Ontology C
  pub resolve : Option (SnapshotResolver W)
  pub checks : List (Condition × Check)

-- `normalized[NewCondition(condition)] = check`, for each entry of the caller's map in the order in
-- which the loop meets them: an entry replaces an earlier one of the same name.
unfoldable pub bind_check : Condition → Check → List (Condition × Check) → List (Condition × Check)
bind_check c k [] = (c, k) ∷ []
bind_check c k ((d, j) ∷ rest) =
    let later = bind_check c k rest in if d == c then (c, k) ∷ rest else (d, j) ∷ later

unfoldable pub bind_checks :
    List (Condition × Check) → List (Condition × Check) → List (Condition × Check)
bind_checks bound [] = bound
bind_checks bound ((c, k) ∷ rest) = bind_checks (bind_check (new_condition c) k bound) rest

unfoldable pub bound_check : Condition → List (Condition × Check) → Option Check
bound_check c [] = none
bound_check c ((d, k) ∷ rest) = if d == c then some k else bound_check c rest

unfoldable pub missing_subject_key : Condition → Error
missing_subject_key c = record fatal_error {
  code = error_code_invalid_config;
  field = "conditions." & (c & ".subject_key");
  reason = "check requires a subject_key naming a request metadata entry";
  suggestion = "set subject_key to the metadata key carrying the entity id";
}

unfoldable pub missing_subject : Condition → Text → Error
missing_subject c key = record fatal_error {
  code = error_code_condition_failed;
  field = "metadata." & key;
  reason = "request metadata is missing the subject required by condition " & c;
  suggestion = "the caller must supply " & (key & " before this operation can be evaluated");
}

-- `subjectFor`
unfoldable pub subject_for : Condition → Check → Request → Error ⊎ Individual
subject_for c k req =
    if k.subject_key == ""
    then inl (missing_subject_key c)
    else if new_individual (metadata_value k.subject_key req.metadata) == ""
    then inl (missing_subject c k.subject_key)
    else inr (new_individual (metadata_value k.subject_key req.metadata))

unfoldable pub unbound_error : Condition → Error
unbound_error c = record fatal_error {
  code = error_code_unknown_condition;
  field = "conditions";
  value = c;
  reason = "condition is not bound to an ontology check";
  suggestion = "bind the condition on the guard before building the policy";
}

unfoldable pub no_resolver_error : Condition → Error
no_resolver_error c = record fatal_error {
  code = error_code_missing_conditions;
  field = "conditions." & c;
  reason = "guard has no snapshot resolver";
}

unfoldable pub resolver_error : Condition → Failure → Error
resolver_error c cause = record fatal_error {
  code = error_code_condition_failed;
  field = "conditions." & c;
  reason = "snapshot resolver failed";
  cause = some (message cause);
}

unfoldable pub unsupported_error : Condition → CheckKind → Error
unsupported_error c kind = record fatal_error {
  code = error_code_unsupported_feature;
  field = "conditions." & c;
  value = kind;
  reason = "unsupported ontology check kind";
  suggestion = "use transition_allowed, in_state, has_type, or integrity";
}

-- What `Explain` returns: the answer, the violations behind a false, and the error or nil.
pub record Answer : Type 0 where
  pub holds : Bool
  pub violations : Errors
  pub error : Option Failure

abbrev pub refusal : Error → Answer
refusal e = record { holds = false; violations = []; error = some (single e) }

abbrev pub plain : Bool → Answer
plain b = record { holds = b; violations = []; error = none }

-- `return len(violations) == 0, violations, nil`
abbrev pub violated_by : Errors → Answer
violated_by es = record { holds = is_empty es; violations = es; error = none }

-- The case `CheckInState`.
unfoldable pub in_state : List State → Option State → Bool
in_state states none = false
in_state states (some current) = any (λ s. new_state s == current) states

-- The subject, which an integrity check does not have.
unfoldable pub subject : Condition → Check → Request → Error ⊎ Individual
subject c k req = if k.kind == check_integrity then inr "" else subject_for c k req

module _ {C : Type 0} where
  -- What follows once the subject and the snapshot are known.
  unfoldable pub evaluate :
      ⦃c : Constraint C⦄ → Ontology C → Condition → Check → Individual → Snapshot → Answer
  evaluate o c k i s =
      if k.kind == check_integrity
      then violated_by (ModelCheck.check o s)
      else if k.kind == check_transition_allowed
      then violated_by (ModelCheck.check_transition o s k.lifecycle i k.to)
      else if k.kind == check_in_state
      then plain (in_state k.states (state_of s k.lifecycle i))
      else if k.kind == check_has_type
      then plain (has_type s i (new_entity_type k.entity_type))
      else refusal (unsupported_error c k.kind)

  module _ {W : Type 0} where
    -- `NewGuard`
    unfoldable pub new_guard :
        ⦃c : Constraint C⦄
        → Ontology C
        → Option (SnapshotResolver W)
        → List (Condition × Check)
        → Guard C W × Errors
    new_guard o resolve checks = (
      record { ontology = normalize_model o; resolve = resolve; checks = bind_checks [] checks },
      fatal (ModelValidation.validate o),
    )

    -- `Guard.Conditions`
    unfoldable pub conditions : Guard C W → List Condition
    conditions g = sort_stable text_less (map (λ e. e.0) g.checks)

    -- The question, once the check, the resolver and the subject are known.
    unfoldable pub ask :
        ⦃c : Constraint C⦄
        → Ontology C
        → Condition
        → Check
        → Individual
        → SnapshotResolver W
        → Request
        → Context
        → W
        → Answer × Context × W
    ask o c k i resolve req ctx w =
        let (answer, ctx', w') = resolve_once ctx resolve req w in
        elim answer [
          | inl e ↦ (refusal (resolver_error c e), ctx', w')
          | inr s ↦ (evaluate o c k i s, ctx', w')
        ]

    -- `Guard.Explain`, of a context and a world.
    unfoldable pub explain :
        ⦃c : Constraint C⦄ → Guard C W → Condition → Request → Context → W → Answer × Context × W
    explain g c req ctx w = elim (bound_check (new_condition c) g.checks) [
      | none ↦ (refusal (unbound_error c), ctx, w)
      | some k ↦ elim g.resolve [
        | none ↦ (refusal (no_resolver_error c), ctx, w)
        | some resolve ↦ elim (subject c k req) [
          | inl e ↦ (refusal e, ctx, w)
          | inr i ↦ ask g.ontology c k i resolve req ctx w
        ]
      ]
    ]

    -- `Guard.Holds`
    unfoldable pub holds :
        ⦃c : Constraint C⦄ → Guard C W → Condition → Request → Context → W → Verdict × Context × W
    holds g c req ctx w =
        let (answer, ctx', w') = explain g c req ctx w in ((answer.holds, answer.error), ctx', w')
