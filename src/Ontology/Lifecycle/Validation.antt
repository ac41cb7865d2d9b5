-- ===== src/Ontology/Lifecycle/Validation.antt =====
-- ontology/lifecycle.go: `Validate`, the check of the declaration itself.
use cervo_rules.Prelude.{◌&◌, List, [], ◌∷◌, ◌++◌, map, if◌then◌else◌, ◌==◌, elem, is_empty}
use cervo_rules.Text.{Text}
use cervo_rules.Core.Codes.{severity_warning}
use cervo_rules.Core.Error.{Error}
use cervo_rules.Core.Errors
use cervo_rules.Core.Errors.{Errors}
use cervo_rules.Ontology.Names.{
  State, fatal_error, error_code_unknown_lifecycle, error_code_unknown_state,
  error_code_unreachable_state,
}
use cervo_rules.Ontology.Lifecycle.{
  Transition, Lifecycle, normalize_lifecycle, unreachable_from, lifecycle_field,
}

abbrev pub undeclared : Lifecycle → Text → State → Text → Errors
undeclared l field s reason =
    if elem s l.states
    then []
    else record fatal_error {
      code = error_code_unknown_state;
      field = lifecycle_field l & field;
      value = s;
      reason = reason;
    }
      ∷ []

-- The two loops over the transitions of a normalized lifecycle.
unfoldable pub target_errors : Lifecycle → List State → Errors
target_errors l [] = []
target_errors l (to ∷ rest) =
    undeclared l ".transitions.to" to "transition target state is not declared in states"
    ++ target_errors l rest

unfoldable pub transition_errors : Lifecycle → List Transition → Errors
transition_errors l [] = []
transition_errors l (t ∷ ts) =
    undeclared l ".transitions.from" t.from "transition source state is not declared in states"
    ++ target_errors l t.to
    ++ transition_errors l ts

unfoldable pub unreachable_error : Lifecycle → State → Error
unreachable_error l s = record fatal_error {
  code = error_code_unreachable_state;
  severity = severity_warning;
  field = lifecycle_field l & ".states";
  value = s;
  reason = "state is not reachable from the initial state";
  suggestion = "add a transition into this state or remove it";
}

unfoldable pub name_errors : Lifecycle → Errors
name_errors l =
    if l.name == ""
    then record fatal_error {
      code = error_code_unknown_lifecycle;
      field = "lifecycles";
      reason = "lifecycle name is required";
    }
      ∷ []
    else []

unfoldable pub initial_errors : Lifecycle → Errors
initial_errors l =
    if l.initial == ""
    then []
    else undeclared l ".initial" l.initial "initial state is not declared in states"

unfoldable pub unreachable_errors : Lifecycle → Errors
unreachable_errors l =
    if l.initial == "" then [] else map (unreachable_error l) (unreachable_from l l.initial)

unfoldable pub no_states_error : Lifecycle → Error
no_states_error l = record fatal_error {
  code = error_code_unknown_state;
  field = lifecycle_field l & ".states";
  reason = "lifecycle declares no states";
}

-- `Lifecycle.Validate`, of a lifecycle that is already normalized.
unfoldable pub validate_normal : Lifecycle → Errors
validate_normal l =
    if is_empty l.states
    then Errors.sort_stable (name_errors l ++ no_states_error l ∷ [])
    else Errors.sort_stable (
        name_errors l
        ++ initial_errors l
        ++ transition_errors l l.transitions
        ++ unreachable_errors l)

unfoldable pub validate : Lifecycle → Errors
validate l = validate_normal (normalize_lifecycle l)
