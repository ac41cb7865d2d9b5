-- ===== src/Policygen/Kinds.antt =====
-- internal/policygen/facts.go: the names, the kinds and the values of facts.
use Prim.Native.Char.{Char, code}
use Prim.Native.String.{String}
use cervo_rules.Prelude.{
  ◌&◌, ◌⊎◌, inl, inr, Bool, true, false, ◌&&◌, ◌||◌, Option, none, some, List, [], ◌∷◌,
  if◌then◌else◌, ◌==◌, elem, is_empty, leb, nat_beq,
}
use cervo_rules.Text.{upper_char, Text, normalize, trim_space}
use cervo_rules.Float.{Float}
use cervo_rules.Policygen.Schema.{
  Scalar, text, flag, integer, number, FactKind, FactDecl, FactBinding,
}
use cervo_rules.Policygen.Problem.{Problem}

abbrev pub kind_number : FactKind
kind_number = "number"

abbrev pub kind_integer : FactKind
kind_integer = "integer"

abbrev pub kind_bool : FactKind
kind_bool = "bool"

abbrev pub kind_enum : FactKind
kind_enum = "enum"

abbrev pub kind_string : FactKind
kind_string = "string"

abbrev is_letter : Char → Bool
is_letter c = leb 65 (code c) && leb (code c) 90 || leb 97 (code c) && leb (code c) 122

abbrev is_digit : Char → Bool
is_digit c = leb 48 (code c) && leb (code c) 57

unfoldable pub all_name_chars : Text → Bool
all_name_chars String.[] = true
all_name_chars (String.◌∷◌ c s) =
    (is_letter c || is_digit c || nat_beq (code c) 95 || nat_beq (code c) 46 || nat_beq (code c) 45)
    && all_name_chars s

-- `factNamePattern`
unfoldable pub is_fact_name : Text → Bool
is_fact_name String.[] = false
is_fact_name (String.◌∷◌ c s) = (is_letter c || nat_beq (code c) 95) && all_name_chars s

-- `packagePattern`, which vocabgen calls `packageNamePattern`
unfoldable pub all_word_chars : Text → Bool
all_word_chars String.[] = true
all_word_chars (String.◌∷◌ c s) =
    (is_letter c || is_digit c || nat_beq (code c) 95) && all_word_chars s

unfoldable pub is_package_name : Text → Bool
is_package_name String.[] = false
is_package_name (String.◌∷◌ c s) = (is_letter c || nat_beq (code c) 95) && all_word_chars s

-- The loop of `factFieldName`, with `upperNext`.
unfoldable pub camel : Bool → Text → Text
camel upper String.[] = String.[]
camel upper (String.◌∷◌ c s) =
    let word = String.◌∷◌ (if upper then upper_char c else c) (camel false s) in
    let skip = camel true s in if is_letter c || is_digit c then word else skip

-- `factFieldName`
unfoldable pub fact_field_name : Text → Text
fact_field_name name = "fact" & camel true name

module _ {F : Type 0} where
  -- `parseFactKind`
  unfoldable pub parse_fact_kind : Text → FactDecl → Problem F ⊎ FactKind
  parse_fact_kind name decl =
      let kind = normalize decl.kind in
      if elem kind (kind_number ∷ kind_integer ∷ kind_bool ∷ kind_string ∷ [])
      then if is_empty decl.values then inr kind else inl (Problem.unwanted_values name kind)
      else if kind == kind_enum
      then if is_empty decl.values then inl (Problem.needs_values name) else inr kind
      else if kind == ""
      then inl (Problem.missing_type name)
      else inl (Problem.unknown_type name decl.kind)

  -- `toFloat`
  unfoldable pub to_float : ⦃fl : Float F⦄ → Scalar F → Option F
  to_float ⦃fl⦄ (integer i) = some (fl.of_int i)
  to_float (number v) = some v
  to_float _ = none

  unfoldable pub coerce_number : ⦃fl : Float F⦄ → Scalar F → Problem F ⊎ Scalar F
  coerce_number ⦃fl⦄ raw = elim (to_float raw) [
    | none ↦ inl (Problem.expected_number raw)
    | some v ↦ if fl.is_nan v || fl.is_inf v then inl Problem.not_finite else inr (number v)
  ]

  unfoldable pub coerce_integer : Scalar F → Problem F ⊎ Scalar F
  coerce_integer (integer i) = inr (integer i)
  coerce_integer raw = inl (Problem.expected_integer raw)

  unfoldable pub coerce_bool : Scalar F → Problem F ⊎ Scalar F
  coerce_bool (flag b) = inr (flag b)
  coerce_bool raw = inl (Problem.expected_bool raw)

  unfoldable pub coerce_enum : List Text → Scalar F → Problem F ⊎ Scalar F
  coerce_enum values (text s) =
      if elem (normalize s) values
      then inr (text (normalize s))
      else inl (Problem.outside_domain s values)
  coerce_enum values raw = inl (Problem.expected_string raw)

  unfoldable pub coerce_string : Scalar F → Problem F ⊎ Scalar F
  coerce_string (text s) =
      if s == ""
      then inl Problem.empty_value
      else if trim_space s == s
      then inr (text s)
      else inl (Problem.padded_value s)
  coerce_string raw = inl (Problem.expected_string raw)

  -- `coerceFactValue`
  unfoldable pub coerce_fact_value :
      ⦃fl : Float F⦄ → FactBinding F → Scalar F → Problem F ⊎ Scalar F
  coerce_fact_value b raw =
      if b.kind == kind_number
      then coerce_number raw
      else if b.kind == kind_integer
      then coerce_integer raw
      else if b.kind == kind_bool
      then coerce_bool raw
      else if b.kind == kind_enum
      then coerce_enum b.values raw
      else if b.kind == kind_string
      then coerce_string raw
      else inl (Problem.unknown_kind b.kind)
