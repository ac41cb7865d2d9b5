-- ===== src/Ontology/Snapshot.antt =====
-- ontology/types.go: the closed-world snapshot, its `Normalize`, and its two readers.
pub mod Order
pub mod Normal
use cervo_rules.Prelude.{
  ◌≡◌, Bool, true, false, ◌&&◌, Option, none, some, List, [], ◌∷◌, map, if◌then◌else◌, ◌==◌, keep,
}
use cervo_rules.Prelude.Sort.{sort_stable}
use cervo_rules.Text.{Text, normalize, text_less}
use cervo_rules.Ontology.Names.{
  EntityType, Individual, Relation, State, new_entity_type, new_individual, new_relation, new_state,
}

pub record TypeAssertion : Type 0 where
  pub individual : Individual
  pub type : EntityType

pub record RelationAssertion : Type 0 where
  pub relation : Relation
  pub subject : Individual
  pub object : Individual

pub record StateAssertion : Type 0 where
  pub lifecycle : Text
  pub individual : Individual
  pub state : State

pub record Snapshot : Type 0 where
  pub types : List TypeAssertion
  pub relations : List RelationAssertion
  pub states : List StateAssertion
  pub normalized : Bool

unfoldable pub normalize_type : TypeAssertion → TypeAssertion
normalize_type a = record {
  individual = new_individual a.individual;
  type = new_entity_type a.type;
}

unfoldable pub normalize_relation : RelationAssertion → RelationAssertion
normalize_relation a = record {
  relation = new_relation a.relation;
  subject = new_individual a.subject;
  object = new_individual a.object;
}

unfoldable pub normalize_state : StateAssertion → StateAssertion
normalize_state a = record {
  lifecycle = normalize a.lifecycle;
  individual = new_individual a.individual;
  state = new_state a.state;
}

-- The three comparisons of `Normalize`.
unfoldable pub less_type : TypeAssertion → TypeAssertion → Bool
less_type a b =
    if a.individual == b.individual
    then text_less a.type b.type
    else text_less a.individual b.individual

unfoldable pub less_relation : RelationAssertion → RelationAssertion → Bool
less_relation a b =
    if a.relation == b.relation
    then if a.subject == b.subject
      then text_less a.object b.object
      else text_less a.subject b.subject
    else text_less a.relation b.relation

unfoldable pub less_state : StateAssertion → StateAssertion → Bool
less_state a b =
    if a.lifecycle == b.lifecycle
    then if a.individual == b.individual
      then text_less a.state b.state
      else text_less a.individual b.individual
    else text_less a.lifecycle b.lifecycle

-- `Snapshot.Normalize`
unfoldable pub normalize_snapshot : Snapshot → Snapshot
normalize_snapshot s = if s.normalized then s else record {
  types = sort_stable less_type (map normalize_type s.types);
  relations = sort_stable less_relation (map normalize_relation s.relations);
  states = sort_stable less_state (map normalize_state s.states);
  normalized = true;
}

-- `Snapshot.TypesOf`
unfoldable pub types_of : Snapshot → Individual → List EntityType
types_of s i = sort_stable text_less (
    map (λ a. new_entity_type a.type)
      (keep (λ a. new_individual a.individual == new_individual i) s.types))

-- The loop of `StateOf`, with the wanted names normalized.
unfoldable pub find_state : Text → Individual → List StateAssertion → Option State
find_state l i [] = none
find_state l i (a ∷ rest) =
    if normalize a.lifecycle == l && new_individual a.individual == i
    then some (new_state a.state)
    else find_state l i rest

-- `Snapshot.StateOf`
unfoldable pub state_of : Snapshot → Text → Individual → Option State
state_of s l i = find_state (normalize l) (new_individual i) s.states
