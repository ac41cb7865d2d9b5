-- ===== src/Core/Types.antt =====
-- core/types.go: the request and the decision of every runtime.
use cervo_rules.Prelude.{Bool, List, [], ◌∷◌, if◌then◌else◌, ◌==◌}
use cervo_rules.Text.{Text, normalize}

abbrev pub Operation : Type 0
Operation = Text

abbrev pub Target : Type 0
Target = Text

abbrev pub Executor : Type 0
Executor = Text

-- `metadata` is the map as a list of its entries.
pub record Request : Type 0 where
  pub id : Text
  pub user : Text
  pub channel : Text
  pub operation : Operation
  pub metadata : List (Text × Text)

-- `req.Metadata[key]`: a key that is missing reads as the empty string.
unfoldable pub metadata_value : Text → List (Text × Text) → Text
metadata_value key [] = ""
metadata_value key ((k, v) ∷ rest) = if k == key then v else metadata_value key rest

pub record Decision : Type 0 where
  pub allow : Bool
  pub target : Target
  pub executor : Executor
  pub fallback_targets : List Target
  pub fallback_executors : List Executor
  pub reason : Text

abbrev pub new_operation : Text → Operation
new_operation v = normalize v

abbrev pub new_target : Text → Target
new_target v = normalize v

abbrev pub new_executor : Text → Executor
new_executor v = normalize v
