-- ===== src/Vocabgen.antt =====
-- internal/vocabgen/generator.go: the generator of vocabulary code, from a decoded specification to the
-- source text.
use Prim.Native.Char.{Char, code}
use Prim.Native.String.{String}
use cervo_rules.Prelude.{
  ◌&◌, ◌⊎◌, inl, inr, Bool, true, false, ◌&&◌, ◌||◌, Option, none, some, List, [], ◌∷◌, map,
  if◌then◌else◌, ◌==◌, nat_beq, not,
}
use cervo_rules.Prelude.Maps.{entry, put}
use cervo_rules.Prelude.Results.{◌>>=◌, ◌>>◌, reject_if}
use cervo_rules.Text.{Text, lower, trim_space, normalize}
use cervo_rules.Policygen.Schema.{FactDecl, VocabularyEntry}
use cervo_rules.Policygen.Kinds.{is_package_name, camel}
use cervo_rules.Policygen.Facts.{sorted_entries}
use cervo_rules.Policygen.Quote.{quote}
pub mod Constants

abbrev default_import_path : Text
default_import_path = "github.com/cervantesh/cervo-rules/v3/core"

-- A nil reader is none.
pub record Options (R : Type 0) : Type 0 where
  pub package_name : Text
  pub import_path : Text
  pub reader : Option R

-- A map is the list of its entries, whether it is nil or empty.
pub record Spec : Type 0 where
  pub operations : List (Text × VocabularyEntry)
  pub targets : List (Text × VocabularyEntry)
  pub executors : List (Text × VocabularyEntry)
  pub facts : List (Text × FactDecl)

-- One constructor for each message, with the values that it quotes.
pub data Problem : Type 0 where
  invalid_package : Text → Problem
  missing_reader : Problem
  undecoded : Text → Problem
  empty_value : Text → Problem
  duplicate_constant : Text → Text → Text → Problem
  unformatted : Text → Text → Problem

pub record GeneratedConstant : Type 0 where
  pub name : Text
  pub typ : Text
  pub value : Text

-- `validateOptions`
unfoldable pub validate_options : {R : Type 0} → Options R → Problem ⊎ R
validate_options options =
    reject_if (not (is_package_name options.package_name))
      (Problem.invalid_package options.package_name)
    >> (elim options.reader [ none ↦ inl Problem.missing_reader | some r ↦ inr r ])

-- `factEntries`
unfoldable pub fact_entry : Text × FactDecl → Text × VocabularyEntry
fact_entry (name, fact) = (name, record { description = fact.description; go_name = fact.go_name })

unfoldable pub fact_entries : List (Text × FactDecl) → List (Text × VocabularyEntry)
fact_entries facts = map fact_entry facts

-- `exportName`
unfoldable pub export_name : Text → Text
export_name value = camel true value

-- `entryName`
unfoldable pub entry_name : VocabularyEntry → Text → Text
entry_name e value =
    if not (trim_space e.go_name == "") then trim_space e.go_name else export_name value

-- The constant of one key.
unfoldable pub constant_of : Text → Text → Text × VocabularyEntry → GeneratedConstant
constant_of prefix typ (key, e) = record {
  name = prefix & entry_name e (normalize key);
  typ = typ;
  value = normalize key;
}

-- The loop over the sorted keys, with `seen`.
unfoldable pub add_constants :
    Text
    → Text
    → List (Text × Text)
    → List (Text × VocabularyEntry)
    → Problem ⊎ List GeneratedConstant
add_constants prefix typ seen [] = inr []
add_constants prefix typ seen (x ∷ rest) =
    let c = constant_of prefix typ x in
    reject_if (c.value == "") (Problem.empty_value (lower prefix)) >> (elim (entry c.name seen) [
      | some previous ↦ inl (Problem.duplicate_constant c.name previous x.0)
      | none ↦ add_constants prefix typ (put c.name x.0 seen) rest >>= λ cs. inr (c ∷ cs)
    ])

-- `buildConstants`
unfoldable pub build_constants :
    Text → Text → List (Text × VocabularyEntry) → Problem ⊎ List GeneratedConstant
build_constants prefix typ values = add_constants prefix typ [] (sorted_entries values)

-- The line of one constant in `writeConstBlock`.
unfoldable pub const_line : GeneratedConstant → Text
const_line c =
    if c.typ == ""
    then c.name & (" = " & (quote c.value & "\n"))
    else c.name & (" cervorules." & (c.typ & (" = " & (quote c.value & "\n"))))

unfoldable pub concat_lines : List Text → Text
concat_lines [] = ""
concat_lines (l ∷ rest) = l & concat_lines rest

-- `writeConstBlock`
unfoldable pub const_block : List GeneratedConstant → Text
const_block [] = ""
const_block (c ∷ cs) = "const (\n" & (concat_lines (map const_line (c ∷ cs)) & ")\n\n")

-- `writeAllowedCall`
unfoldable pub allowed_call : Text → List GeneratedConstant → Text
allowed_call name [] = ""
allowed_call name (c ∷ cs) =
    "cervorules." & (name & ("(\n" & (concat_lines (map (λ k. k.name & ",\n") (c ∷ cs)) & "),\n")))

-- `writeVocabularyFunc`
unfoldable pub vocabulary_func :
    List GeneratedConstant → List GeneratedConstant → List GeneratedConstant → Text
vocabulary_func operations targets executors =
    "func Vocabulary() cervorules.Vocabulary {\nreturn cervorules.NewVocabulary(\n"
    & (allowed_call "AllowedOperations" operations
        & (allowed_call "AllowedTargets" targets
            & (allowed_call "AllowedExecutors" executors & ")\n}\n")))

unfoldable pub source_text :
    Text
    → Text
    → List GeneratedConstant
    → List GeneratedConstant
    → List GeneratedConstant
    → List GeneratedConstant
    → Text
source_text package_name import_path operations targets executors facts =
    "// Code generated by cervorules-vocabgen; DO NOT EDIT.\n\n"
    & ("package "
        & (package_name
            & ("\n\nimport cervorules "
                & (quote import_path
                    & ("\n\n"
                        & (const_block operations
                            & (const_block targets
                                & (const_block executors
                                    & (const_block facts
                                        & vocabulary_func operations targets executors)))))))))

-- `renderSource`
unfoldable pub render_source : Text → Text → Spec → Problem ⊎ Text
render_source package_name import_path parsed =
    build_constants "Operation" "Operation" parsed.operations >>= λ operations.
    build_constants "Target" "Target" parsed.targets >>= λ targets.
    build_constants "Executor" "Executor" parsed.executors >>= λ executors.
    build_constants "Fact" "" (fact_entries parsed.facts) >>= λ facts.
    inr (source_text package_name import_path operations targets executors facts)

-- `parseSpec` and `Generate`, of the YAML decoder with known fields and of `format.Source`, which give a
-- value or the text of an error.
module _ {R : Type 0} (decode : R → Text ⊎ Spec) (format : Text → Text ⊎ Text) where
  unfoldable pub parse_spec : R → Problem ⊎ Spec
  parse_spec reader = elim (decode reader) [
    | inl err ↦ inl (Problem.undecoded err)
    | inr spec ↦ inr spec
  ]

  unfoldable pub format_source : Text → Problem ⊎ Text
  format_source source = elim (format source) [
    | inl err ↦ inl (Problem.unformatted err source)
    | inr formatted ↦ inr formatted
  ]

  unfoldable pub import_path_of : Options R → Text
  import_path_of options =
      if trim_space options.import_path == ""
      then default_import_path
      else trim_space options.import_path

  -- `Generate`
  unfoldable pub generate : Options R → Problem ⊎ Text
  generate options = validate_options options >>= λ reader. parse_spec reader >>= λ parsed.
      render_source options.package_name (import_path_of options) parsed >>= λ source.
      format_source source
