-- ===== src/Policygen/Check.antt =====
-- internal/policygen/generator.go: reading the two files, and Check.
use cervo_rules.Prelude.{
  ℕ, ◌+◌, ◌⊎◌, inl, inr, Bool, not, Option, none, some, List, [], ◌∷◌, ◌==◌, is_empty, length,
}
use cervo_rules.Prelude.Maps.{entry}
use cervo_rules.Prelude.Results.{◌>>=◌, ◌>>◌, reject_if}
use cervo_rules.Prelude.Sort.{sort_stable}
use cervo_rules.Text.{Text, trim_space, text_less}
use cervo_rules.Float.{Float}
use cervo_rules.Policygen.Schema.{FactBinding, Vocabulary, RouteSpec, DenySpec, Policy}
use cervo_rules.Policygen.Problem.{Problem}
use cervo_rules.Policygen.Kinds.{is_package_name}
use cervo_rules.Policygen.Predicate.{is_nothing, count}
use cervo_rules.Policygen.Validate.{PolicyPlan, validate}

-- A nil reader is none.
pub record Options (R : Type 0) : Type 0 where
  pub package_name : Text
  pub vocabulary_package : Text
  pub cervo_rules_import : Text
  pub vocabulary_import : Text
  pub vocabulary_reader : Option R
  pub policy_reader : Option R
  pub generated_tests : Bool

pub record PolicyMetadata : Type 0 where
  pub name : Text
  pub dsl_version : Text
  pub generated_with : Text
  pub vocabulary_hash : Text
  pub policy_hash : Text

pub record CodegenSnapshot : Type 0 where
  pub policy_name : Text
  pub dsl_version : Text
  pub operations : ℕ
  pub targets : ℕ
  pub executors : ℕ
  pub routes : ℕ
  pub denies : ℕ
  pub tests : ℕ
  pub conditions : ℕ
  pub facts : ℕ
  pub policy_facts : ℕ
  pub predicates : ℕ

pub record Output : Type 0 where
  pub source : Text
  pub test_source : Text
  pub metadata : PolicyMetadata
  pub snapshot : CodegenSnapshot

-- A decoded file with the bytes that it was read from.
pub record LoadedVocabulary (D : Type 0) : Type 0 where
  pub spec : Vocabulary
  pub bytes : D

pub record LoadedPolicy (F D : Type 0) : Type 0 where
  pub spec : Policy F
  pub bytes : D

module _ {F : Type 0} where
  -- `usesFacts`
  unfoldable pub uses_facts : PolicyPlan F → Bool
  uses_facts plan = not (is_empty plan.referenced)

  -- The facts of names, of which a missing one reads as the zero binding.
  unfoldable pub referenced_bindings :
      List (Text × FactBinding F) → List Text → List (FactBinding F)
  referenced_bindings facts [] = []
  referenced_bindings facts (n ∷ rest) = elim (entry n facts) [
    | none ↦
        record {
          name = "";
          kind = "";
          values = [];
          field = "";
          min = none;
          max = none;
          default = none;
        }
        ∷ referenced_bindings facts rest
    | some b ↦ b ∷ referenced_bindings facts rest
  ]

  -- `bindings`
  unfoldable pub bindings : PolicyPlan F → List (FactBinding F)
  bindings plan = referenced_bindings plan.facts plan.referenced

  -- `validateGenerateOptions`
  unfoldable pub validate_generate_options : {R : Type 0} → Options R → Problem F ⊎ Unit {0}
  validate_generate_options options = do
    reject_if (not (is_package_name options.package_name))
        (Problem.invalid_package options.package_name)
    reject_if (trim_space options.vocabulary_package == "") Problem.missing_vocabulary_package
    reject_if (not (is_package_name options.vocabulary_package))
        (Problem.invalid_vocabulary_package options.vocabulary_package)
    reject_if (trim_space options.vocabulary_import == "") Problem.missing_vocabulary_import
    inr tt

  -- The loops of `countPredicates`.
  unfoldable pub count_route_guards : List (RouteSpec F) → ℕ
  count_route_guards [] = 0
  count_route_guards (r ∷ rest) = count (not (is_nothing r.guard)) + count_route_guards rest

  unfoldable pub count_deny_guards : List (DenySpec F) → ℕ
  count_deny_guards [] = 0
  count_deny_guards (d ∷ rest) = count (not (is_nothing d.guard)) + count_deny_guards rest

  -- `countPredicates`
  unfoldable pub count_predicates : Policy F → ℕ
  count_predicates p = count_route_guards p.routes + count_deny_guards p.denies

  -- `snapshotFor`
  unfoldable pub snapshot_for :
      {D : Type 0} → LoadedPolicy F D → LoadedVocabulary D → CodegenSnapshot
  snapshot_for policy vocab = record {
    policy_name = policy.spec.name;
    dsl_version = policy.spec.version;
    operations = length vocab.spec.operations;
    targets = length vocab.spec.targets;
    executors = length vocab.spec.executors;
    routes = length policy.spec.routes;
    denies = length policy.spec.denies;
    tests = length policy.spec.tests;
    conditions = length policy.spec.conditions;
    facts = length vocab.spec.facts;
    policy_facts = length policy.spec.facts;
    predicates = count_predicates policy.spec;
  }

  -- `sortedRoutes`
  unfoldable pub sorted_routes : List (RouteSpec F) → List (RouteSpec F)
  sorted_routes routes = sort_stable (λ a b. text_less a.operation b.operation) routes

-- The error of a call, under a message.
unfoldable pub wrap {ℓ κ} : {E : Type ℓ} {A : Type κ} → (Text → E) → Text ⊎ A → E ⊎ A
wrap message (inl err) = inl (message err)
wrap message (inr a) = inr a

-- `io.ReadAll` of a reader, the YAML decoder with known fields on the two types, and the hexadecimal
-- digits of `sha256.Sum256`.
module _ {F R D : Type 0} (read_all : R → Text ⊎ D) (decode_vocabulary : D → Text ⊎ Vocabulary)
    (decode_policy : D → Text ⊎ Policy F) (hash : D → Text) where
  -- `load`
  unfoldable pub load : Options R → Problem F ⊎ (LoadedVocabulary D × LoadedPolicy F D)
  load options = elim options.vocabulary_reader [
    | none ↦ inl Problem.missing_vocabulary_reader
    | some vocab_reader ↦ elim options.policy_reader [
      | none ↦ inl Problem.missing_policy_reader
      | some policy_reader ↦ do
        vocab_data ← wrap Problem.unread_vocabulary (read_all vocab_reader)
        policy_data ← wrap Problem.unread_policy (read_all policy_reader)
        vocab ← wrap Problem.undecoded_vocabulary (decode_vocabulary vocab_data)
        policy ← wrap Problem.undecoded_policy (decode_policy policy_data)
        inr (
          record { spec = vocab; bytes = vocab_data },
          record { spec = policy; bytes = policy_data },
        )
    ]
  ]

  -- `metadataFor`
  unfoldable pub metadata_for : LoadedPolicy F D → LoadedVocabulary D → PolicyMetadata
  metadata_for policy vocab = record {
    name = policy.spec.name;
    dsl_version = policy.spec.version;
    generated_with = "cervorules-policygen/v3";
    vocabulary_hash = hash vocab.bytes;
    policy_hash = hash policy.bytes;
  }

  -- `Check`
  unfoldable pub check_options : ⦃fl : Float F⦄ → Options R → Problem F ⊎ Output
  check_options options = do
    loaded ← load options
    plan ← validate loaded.0.spec loaded.1.spec
    inr (record {
      source = "";
      test_source = "";
      metadata = metadata_for loaded.1 loaded.0;
      snapshot = snapshot_for loaded.1 loaded.0;
    })
