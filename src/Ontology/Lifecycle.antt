-- ===== src/Ontology/Lifecycle.antt =====
-- ontology/lifecycle.go: a declarative state machine, and the states that it reaches.
pub mod Reach
pub mod Validation
pub mod WellFormed
pub mod Check
pub mod Normal
pub mod Single
pub mod Legal
use cervo_rules.Prelude.{
  ℕ, zero, suc, ◌&◌, ◌≡◌, Bool, true, false, not, ◌&&◌, ◌||◌, Option, none, some, List, [], ◌∷◌,
  ◌++◌, map, if◌then◌else◌, ◌==◌, elem, keep, is_empty, length,
}
use mathlib.Core.List.{foldl}
use cervo_rules.Prelude.Sort.{sort_stable}
use cervo_rules.Text.{Text, normalize, text_less, join}
use cervo_rules.Core.Codes.{severity_fatal, severity_warning}
use cervo_rules.Core.Error.{Error}
use cervo_rules.Core.Errors
use cervo_rules.Core.Errors.{Errors}
use cervo_rules.Ontology.Names.{
  EntityType, Individual, State, new_entity_type, new_individual, new_state, names_from,
  fatal_error, error_code_functional_violation, error_code_illegal_transition,
  error_code_terminal_state, error_code_unknown_lifecycle, error_code_unknown_state,
  error_code_unreachable_state,
}
use cervo_rules.Ontology.Snapshot.{StateAssertion, Snapshot, normalize_snapshot, state_of}

pub record Transition : Type 0 where
  pub from : State
  pub to : List State

pub record Lifecycle : Type 0 where
  pub name : Text
  pub entity : EntityType
  pub states : List State
  pub initial : State
  pub transitions : List Transition
  pub normalized : Bool

unfoldable pub normalize_transition : Transition → Transition
normalize_transition t = record {
  from = new_state t.from;
  to = sort_stable text_less (names_from [] t.to);
}

unfoldable pub less_transition : Transition → Transition → Bool
less_transition a b = text_less a.from b.from

-- `Lifecycle.Normalize`
unfoldable pub normalize_lifecycle : Lifecycle → Lifecycle
normalize_lifecycle l = if l.normalized then l else record {
  name = normalize l.name;
  entity = new_entity_type l.entity;
  states = names_from [] l.states;
  initial = new_state l.initial;
  transitions = sort_stable less_transition (map normalize_transition l.transitions);
  normalized = true;
}

unfoldable pub has_state : Lifecycle → State → Bool
has_state l s = elem (new_state s) (normalize_lifecycle l).states

-- The first transition out of a state.
unfoldable pub next_in : State → List Transition → List State
next_in s [] = []
next_in s (t ∷ ts) = if t.from == s then t.to else next_in s ts

unfoldable pub next : Lifecycle → State → List State
next l s = next_in (new_state s) (normalize_lifecycle l).transitions

unfoldable pub is_terminal : Lifecycle → State → Bool
is_terminal l s = is_empty (next l s)

-- The state of the breadth-first loop in `unreachableFrom`.
pub record Search : Type 0 where
  pub reachable : List State
  pub queue : List State

unfoldable pub visit : Search → State → Search
visit s n =
    if elem n s.reachable
    then s
    else record { reachable = n ∷ s.reachable; queue = s.queue ++ n ∷ [] }

-- One round, with the head of the queue taken off.
unfoldable pub expand : Lifecycle → Search → State → List State → Search
expand l s current rest = foldl visit (record s { queue = rest }) (next l current)

unfoldable pub search_loop : Lifecycle → ℕ → Search → Search
search_loop l zero s = s
search_loop l (suc fuel) s = elim s.queue [
  | [] ↦ s
  | current ∷ rest ↦ search_loop l fuel (expand l s current rest)
]

-- All targets of a lifecycle: no more states than these and the start are ever queued.
abbrev pub all_targets : List Transition → List State
all_targets [] = []
all_targets (t ∷ ts) = t.to ++ all_targets ts

unfoldable pub search_from : Lifecycle → State → Search
search_from l start =
    search_loop l (suc (length (all_targets (normalize_lifecycle l).transitions)))
      (record { reachable = start ∷ []; queue = start ∷ [] })

unfoldable pub unreachable_from : Lifecycle → State → List State
unreachable_from l start =
    sort_stable text_less (keep (λ s. not (elem s (search_from l start).reachable)) l.states)

abbrev pub lifecycle_field : Lifecycle → Text
lifecycle_field l = "lifecycles." & l.name
