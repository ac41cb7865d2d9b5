-- ===== src/Ontology/Lifecycle/Check.antt =====
-- ontology/lifecycle.go: `CheckTransition`, `checkSingleState` and `checkSnapshot`.
use cervo_rules.Prelude.{
  ◌&◌, Bool, not, ◌&&◌, ◌||◌, Option, none, some, List, [], ◌∷◌, ◌++◌, if◌then◌else◌, ◌==◌, elem,
  is_empty,
}
use cervo_rules.Text.{Text, join}
use cervo_rules.Core.Error.{Error}
use cervo_rules.Core.Errors.{Errors}
use cervo_rules.Ontology.Names.{
  Individual, State, new_individual, new_state, fatal_error, error_code_functional_violation,
  error_code_illegal_transition, error_code_terminal_state, error_code_unknown_state,
}
use cervo_rules.Ontology.Snapshot.{StateAssertion, Snapshot, normalize_snapshot, state_of}
use cervo_rules.Ontology.Lifecycle.{
  Lifecycle, normalize_lifecycle, has_state, next, is_terminal, lifecycle_field,
}

unfoldable pub join_states : List State → Text
join_states s = if is_empty s then "(none)" else join ", " s

unfoldable pub lookup_state : Individual → List (Individual × State) → Option State
lookup_state i [] = none
lookup_state i ((j, s) ∷ rest) = if j == i then some s else lookup_state i rest

unfoldable pub conflict_error : Lifecycle → Individual → State → State → Error
conflict_error l i previous s = record fatal_error {
  code = error_code_functional_violation;
  field = lifecycle_field l & ".states";
  value = i;
  reason =
      "individual is recorded in two states of lifecycle "
      & (l.name & (": " & (previous & (" and " & s))));
  suggestion = "record one current state per individual; a history belongs outside the snapshot";
}

-- An assertion that the loop of `checkSingleState` does not pass over.
unfoldable pub is_relevant : Lifecycle → Individual → StateAssertion → Bool
is_relevant l only a =
    a.lifecycle == l.name && (only == "" || new_individual a.individual == new_individual only)

-- The loop of `checkSingleState`; `seen` maps an individual to the state it was first seen in.
unfoldable pub conflicts :
    Lifecycle → Individual → List (Individual × State) → List StateAssertion → Errors
conflicts l only seen [] = []
conflicts l only seen (a ∷ rest) =
    let i = new_individual a.individual in
    let passed = conflicts l only seen rest in
    let first = conflicts l only ((i, a.state) ∷ seen) rest in
    if is_relevant l only a
    then elim (lookup_state i seen) [
      | none ↦ first
      | some previous ↦
          if previous == a.state then passed else conflict_error l i previous a.state ∷ passed
    ]
    else passed

unfoldable pub check_single_state : Lifecycle → Snapshot → Individual → Errors
check_single_state l s only =
    conflicts (normalize_lifecycle l) only [] (normalize_snapshot s).states

-- The answers of `CheckTransition` on a normalized lifecycle.
unfoldable pub unknown_target_error : Lifecycle → State → Error
unknown_target_error l target = record fatal_error {
  code = error_code_unknown_state;
  field = lifecycle_field l & ".to";
  value = target;
  reason = "target state is not declared by lifecycle " & l.name;
  suggestion = "use one of: " & join_states l.states;
}

unfoldable pub unrecorded_error : Lifecycle → Individual → Error
unrecorded_error l i = record fatal_error {
  code = error_code_illegal_transition;
  field = lifecycle_field l;
  value = i;
  reason =
      "individual has no recorded state; lifecycle " & (l.name & (" must start at " & l.initial));
  suggestion = "record the current state before proposing a transition";
}

unfoldable pub already_error : Lifecycle → Individual → State → Error
already_error l i target = record fatal_error {
  code = error_code_illegal_transition;
  field = lifecycle_field l;
  value = i;
  reason = "individual is already in state " & target;
  suggestion = "treat this action as already applied instead of repeating it";
}

unfoldable pub terminal_error : Lifecycle → Individual → State → State → Error
terminal_error l i current target = record fatal_error {
  code = error_code_terminal_state;
  field = lifecycle_field l;
  value = i;
  reason =
      "state "
      & (current
          & (" is terminal in lifecycle "
              & (l.name & ("; no transition to " & (target & " is legal")))));
  suggestion = "reject the action; the entity has reached a final state";
}

unfoldable pub illegal_error : Lifecycle → Individual → State → State → Error
illegal_error l i current target = record fatal_error {
  code = error_code_illegal_transition;
  field = lifecycle_field l;
  value = i;
  reason =
      "transition " & (current & (" -> " & (target & (" is not declared in lifecycle " & l.name))));
  suggestion = "legal next states: " & join_states (next l current);
}

-- What follows once the current state is read.
unfoldable pub move_errors : Lifecycle → Individual → State → Option State → Errors
move_errors l i target none =
    if l.initial == "" || target == l.initial then [] else unrecorded_error l i ∷ []
move_errors l i target (some current) =
    if current == target
    then already_error l i target ∷ []
    else if is_terminal l current
    then terminal_error l i current target ∷ []
    else if elem target (next l current)
    then []
    else illegal_error l i current target ∷ []

-- `CheckTransition`, of a lifecycle that is already normalized.
unfoldable pub check_normal : Lifecycle → Snapshot → Individual → State → Errors
check_normal l s i target =
    if has_state l target
    then elim (check_single_state l s i) [
      | e ∷ es ↦ e ∷ es
      | [] ↦ move_errors l i target (state_of (normalize_snapshot s) l.name i)
    ]
    else unknown_target_error l target ∷ []

-- `Lifecycle.CheckTransition`
unfoldable pub check_transition : Lifecycle → Snapshot → Individual → State → Errors
check_transition l s i to = check_normal (normalize_lifecycle l) s i (new_state to)

-- The second loop of `checkSnapshot`.
unfoldable pub unknown_state_errors : Lifecycle → List StateAssertion → Errors
unknown_state_errors l [] = []
unknown_state_errors l (a ∷ rest) =
    if a.lifecycle == l.name && not (has_state l a.state)
    then record fatal_error {
      code = error_code_unknown_state;
      field = lifecycle_field l & ".states";
      value = a.state;
      reason = "recorded state is not declared by lifecycle " & l.name;
      suggestion = "use one of: " & join_states l.states;
    }
      ∷ unknown_state_errors l rest
    else unknown_state_errors l rest

-- `Lifecycle.checkSnapshot`
unfoldable pub check_snapshot : Lifecycle → Snapshot → Errors
check_snapshot l s =
    check_single_state (normalize_lifecycle l) s ""
    ++ unknown_state_errors (normalize_lifecycle l) (normalize_snapshot s).states
