-- ===== src/Policygen/Schema.antt =====
-- internal/policygen/facts.go, internal/policygen/generator.go: what a vocabulary and a policy declare, as
-- the YAML decoder gives it, and the errors of their validation.
use cervo_rules.Prelude.{◌⊎◌, Bool, Option, List}
use cervo_rules.Prelude.Int.{ℤ}
use cervo_rules.Text.{Text}

-- What `any` holds of a YAML scalar: nil, a string, a bool, an int or an int64, a float64, or anything
-- else, which is known by how it prints.
pub data Scalar (F : Type 0) : Type 0 where
  null : Scalar F
  text : Text → Scalar F
  flag : Bool → Scalar F
  integer : ℤ → Scalar F
  number : F → Scalar F
  other : Text → Scalar F

-- `factKind`, an open string type.
abbrev pub FactKind : Type 0
FactKind = Text

pub record FactDecl : Type 0 where
  pub kind : Text
  pub values : List Text
  pub description : Text
  pub go_name : Text

-- A `yaml.Node` of a default: the key is absent, its tag is `!!null`, or it decodes to an error or a
-- value.
pub data DefaultNode (F : Type 0) : Type 0 where
  absent : DefaultNode F
  empty : DefaultNode F
  node : Text ⊎ Scalar F → DefaultNode F

pub record FactBounds (F : Type 0) : Type 0 where
  pub min : Option F
  pub max : Option F
  pub default : DefaultNode F

-- The fields of a fact comparison.
pub record Leaf (F : Type 0) : Type 0 where
  pub fact : Text
  pub op : Text
  pub value : Scalar F
  pub fact_value : Text
  pub values : List (Scalar F)

-- `predicateSpec`, of which every field may be set: `all`, `any`, `not`, those of a comparison, and
-- `condition`.
mutual
  pub data Predicate (F : Type 0) : Type 0 where
    node : Predicates F → Predicates F → MaybePredicate F → Leaf F → Text → Predicate F

  pub data Predicates (F : Type 0) : Type 0 where
    nil : Predicates F
    cons : Predicate F → Predicates F → Predicates F

  pub data MaybePredicate (F : Type 0) : Type 0 where
    nothing : MaybePredicate F
    just : Predicate F → MaybePredicate F

-- `factBinding`; the default and its flag are an option.
pub record FactBinding (F : Type 0) : Type 0 where
  pub name : Text
  pub kind : FactKind
  pub values : List Text
  pub field : Text
  pub min : Option F
  pub max : Option F
  pub default : Option (Scalar F)

abbrev pub FactIndex : Type 0 → Type 0
FactIndex F = List (Text × FactBinding F)

pub record VocabularyEntry : Type 0 where
  pub description : Text
  pub go_name : Text

-- The maps are lists of their entries.
pub record Vocabulary : Type 0 where
  pub operations : List (Text × VocabularyEntry)
  pub targets : List (Text × VocabularyEntry)
  pub executors : List (Text × VocabularyEntry)
  pub facts : List (Text × FactDecl)

pub record ConditionSpec : Type 0 where
  pub kind : Text
  pub lifecycle : Text
  pub subject_key : Text
  pub to : Text
  pub states : List Text
  pub entity_type : Text
  pub description : Text

pub record RouteSpec (F : Type 0) : Type 0 where
  pub id : Text
  pub operation : Text
  pub target : Text
  pub executor : Text
  pub fallback_executors : List Text
  pub disabled_by_default : Bool
  pub disabled_reason : Text
  pub requires_trusted_user : Bool
  pub requires : List Text
  pub guard : MaybePredicate F

pub record DenySpec (F : Type 0) : Type 0 where
  pub id : Text
  pub operation : Text
  pub reason : Text
  pub requires : List Text
  pub guard : MaybePredicate F

pub record RequestSpec : Type 0 where
  pub id : Text
  pub user : Text
  pub channel : Text
  pub operation : Text
  pub metadata : List (Text × Text)

pub record ExpectationSpec : Type 0 where
  pub allow : Option Bool
  pub target : Text
  pub executor : Text
  pub fallback_executors : List Text
  pub reason : Text
  pub reason_contains : Text

pub record TestSpec : Type 0 where
  pub name : Text
  pub request : RequestSpec
  pub expect : ExpectationSpec

-- `default_executor` is the one field of `defaults`; `guard` above is the key `when`.
pub record Policy (F : Type 0) : Type 0 where
  pub version : Text
  pub name : Text
  pub trusted_users : List Text
  pub default_executor : Text
  pub routes : List (RouteSpec F)
  pub denies : List (DenySpec F)
  pub tests : List TestSpec
  pub conditions : List (Text × ConditionSpec)
  pub facts : List (Text × FactBounds F)
