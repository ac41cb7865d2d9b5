-- ===== src/Ontology/Names.antt =====
-- ontology/types.go, ontology/errors.go: the names of the model, and what its codes are called.
use cervo_rules.Prelude.{◌||◌, List, [], ◌∷◌, if◌then◌else◌, ◌==◌, elem}
use cervo_rules.Text.{Text, normalize, trim_space}
use cervo_rules.Core.Codes.{ErrorCode, severity_fatal}
use cervo_rules.Core.Error.{Error, zero_error}

abbrev pub EntityType : Type 0
EntityType = Text

abbrev pub Individual : Type 0
Individual = Text

abbrev pub Relation : Type 0
Relation = Text

abbrev pub State : Type 0
State = Text

abbrev pub new_entity_type : Text → EntityType
new_entity_type = normalize

-- Individuals keep their case.
abbrev pub new_individual : Text → Individual
new_individual = trim_space

abbrev pub new_relation : Text → Relation
new_relation = normalize

abbrev pub new_state : Text → State
new_state = normalize

-- The loop that normalizes names, and leaves out what is empty or was seen before.
unfoldable pub names_from : List Text → List Text → List Text
names_from seen [] = []
names_from seen (x ∷ xs) =
    let skipped = names_from seen xs in
    let kept = normalize x ∷ names_from (normalize x ∷ seen) xs in
    if normalize x == "" || elem (normalize x) seen then skipped else kept

abbrev pub component_name : Text
component_name = "ontology"

abbrev pub fatal_error : Error
fatal_error = record zero_error { severity = severity_fatal; component = component_name }

abbrev pub error_code_unknown_entity_type : ErrorCode
error_code_unknown_entity_type = "unknown_entity_type"

abbrev pub error_code_domain_violation : ErrorCode
error_code_domain_violation = "domain_violation"

abbrev pub error_code_range_violation : ErrorCode
error_code_range_violation = "range_violation"

abbrev pub error_code_disjoint_violation : ErrorCode
error_code_disjoint_violation = "disjoint_violation"

abbrev pub error_code_functional_violation : ErrorCode
error_code_functional_violation = "functional_violation"

abbrev pub error_code_unknown_lifecycle : ErrorCode
error_code_unknown_lifecycle = "unknown_lifecycle"

abbrev pub error_code_unknown_state : ErrorCode
error_code_unknown_state = "unknown_state"

abbrev pub error_code_illegal_transition : ErrorCode
error_code_illegal_transition = "illegal_transition"

abbrev pub error_code_terminal_state : ErrorCode
error_code_terminal_state = "terminal_state"

abbrev pub error_code_unreachable_state : ErrorCode
error_code_unreachable_state = "unreachable_state"
