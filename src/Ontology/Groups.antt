-- ===== src/Ontology/Groups.antt =====
-- The map from a name to a list of different names, with the order in which the keys came, that
-- `DisjointSet.check` and `FunctionalProperty.check` of ontology/constraints.go build.
pub mod Laws
use cervo_rules.Prelude.{Bool, List, [], ◌∷◌, ◌++◌, if◌then◌else◌, ◌==◌, elem, ltb, length}
use cervo_rules.Prelude.Sort.{sort_stable}
use cervo_rules.Core.Error.{Error}
use cervo_rules.Core.Errors.{Errors}
use cervo_rules.Text.{Text, text_less}

pub record Groups : Type 0 where
  pub order : List Text
  pub held : Text → List Text

abbrev pub no_groups : Groups
no_groups = record { order = []; held = λ _. [] }

unfoldable pub update : (Text → List Text) → Text → List Text → Text → List Text
update f k vs j = if k == j then vs else f j

-- `order` gets a new key, and the key's list a new name.
unfoldable pub group_add : Groups → Text → Text → Groups
group_add g k v = record {
  order = if elem k g.order then g.order else g.order ++ k ∷ [];
  held = if elem v (g.held k) then g.held else update g.held k (g.held k ++ v ∷ []);
}

-- One error for each key that holds more than one name, with the names sorted.
unfoldable pub group_errors : (Text → List Text → Error) → Groups → List Text → Errors
group_errors err g [] = []
group_errors err g (k ∷ rest) =
    if ltb (length (g.held k)) 2
    then group_errors err g rest
    else err k (sort_stable text_less (g.held k)) ∷ group_errors err g rest
