-- ===== src/Tests/Shop.antt =====
-- The inputs of the tests: a shop whose orders are placed, paid and refunded.
use cervo_rules.Prelude.{inr, true, false, none, some, [], ◌∷◌, if◌then◌else◌, is_empty, ℕ, suc}
use cervo_rules.Text.{Text}
use cervo_rules.Core.Error.{zero_error}
use cervo_rules.Core.Types.{Request}
use cervo_rules.Ontology.Snapshot.{TypeAssertion, RelationAssertion, StateAssertion, Snapshot}
use cervo_rules.Ontology.Signature.{PredicateSignature}
use cervo_rules.Ontology.Lifecycle.{Lifecycle}
use cervo_rules.Ontology.Model.{Ontology, Constraint}
use cervo_rules.Ontology.Scope.{SnapshotResolver}
use cervo_rules.Ontology.Guard.{Check, check_transition_allowed}

abbrev pub order : Lifecycle
order = record {
  name = "Order";
  entity = "order";
  states = "placed" ∷ "paid" ∷ "refunded" ∷ "lost" ∷ [];
  initial = "placed";
  transitions =
      record { from = "placed"; to = "paid" ∷ [] }
      ∷ record { from = "paid"; to = "refunded" ∷ [] }
      ∷ [];
  normalized = false;
}

abbrev pub state : Text → Text → StateAssertion
state i s = record { lifecycle = "order"; individual = i; state = s }

abbrev pub typed : Text → Text → TypeAssertion
typed i t = record { individual = i; type = t }

abbrev pub owns : Text → Text → RelationAssertion
owns i o = record { relation = "owned_by"; subject = i; object = o }

-- o-1 is paid and o-2 refunded.
abbrev pub day : Snapshot
day = record {
  types = typed "O-1" "order" ∷ typed "ada" "customer" ∷ [];
  relations = owns "o-1" "Ada" ∷ [];
  states = state "o-1" "Paid" ∷ state "o-2" "refunded" ∷ [];
  normalized = false;
}

abbrev pub day_reversed : Snapshot
day_reversed = record {
  types = typed "ada" "customer" ∷ typed "O-1" "order" ∷ [];
  relations = owns "o-1" "Ada" ∷ [];
  states = state "o-2" "refunded" ∷ state "o-1" "Paid" ∷ [];
  normalized = false;
}

-- o-1 is paid and refunded at once.
abbrev pub torn_day : Snapshot
torn_day = record day { states = state "o-1" "paid" ∷ state "o-1" "refunded" ∷ [] }

-- The consumer's constraints are names, and each asks for some type assertion.
instance pub named_constraint : Constraint Text
named_constraint = record {
  name = λ k. k;
  validate = λ k m. [];
  check = λ k m s. if is_empty s.types then record zero_error { code = k } ∷ [] else [];
}

abbrev pub signature : PredicateSignature
signature = record { relation = "Owned_By"; domain = "order"; range = "customer"; description = "" }

abbrev pub shop : Ontology Text
shop = record {
  entities = "order" ∷ "customer" ∷ [];
  signatures = signature ∷ [];
  disjoint = record { name = "kinds"; types = "order" ∷ "customer" ∷ [] } ∷ [];
  functional = record { relation = "owned_by"; required = true } ∷ [];
  lifecycles = order ∷ [];
  custom = some "inhabited" ∷ none ∷ [];
  normalized = false;
}

abbrev pub request : Text → Text → Request
request id i = record {
  id = id;
  user = "ada";
  channel = "chat";
  operation = "refund";
  metadata = ("order", i) ∷ [];
}

-- A resolver that counts its calls.
abbrev pub counting : SnapshotResolver ℕ
counting req w = (inr day, suc w)

abbrev pub refund_check : Check
refund_check = record {
  kind = check_transition_allowed;
  lifecycle = "order";
  subject_key = "order";
  to = "refunded";
  states = [];
  entity_type = "";
}
