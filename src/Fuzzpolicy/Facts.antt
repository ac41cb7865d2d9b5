-- ===== src/Fuzzpolicy/Facts.antt =====
-- internal/fuzzpolicy/generated_policy.go: the readers of facts, which the metadata of a request holds.
use Prim.Native.Nat.{◌*◌}
use Prim.Native.Char.{code}
use Prim.Native.String.{String}
use cervo_rules.Prelude.{
  ℕ, ◌+◌, ◌-◌, ◌&◌, ◌⊎◌, inl, inr, Bool, true, false, ◌&&◌, ◌||◌, Option, none, some, List, [], ◌∷◌,
  if◌then◌else◌, ◌==◌, leb, elem, nat_beq,
}
use cervo_rules.Prelude.Int.{ℤ, pos, negsuc, ltb_ℤ}
use cervo_rules.Prelude.Maps.{entry}
use cervo_rules.Text.{Text, trim_space, lower}
use cervo_rules.Core.Codes.{severity_fatal, error_code_missing_fact, error_code_invalid_fact}
use cervo_rules.Core.Error.{Error, zero_error}
use cervo_rules.Core.Types.{Request}
use cervo_rules.Float.{Float}

-- `factRawValue`: none where the fact is absent.
unfoldable pub fact_raw_value : Request → Text → Option Text
fact_raw_value req name = elim (entry name req.metadata) [
  | none ↦ none
  | some raw ↦ if trim_space raw == "" then none else some (trim_space raw)
]

unfoldable pub missing_fact_error : Text → Error
missing_fact_error name = record zero_error {
  code = error_code_missing_fact;
  severity = severity_fatal;
  component = "policy";
  field = "facts." & name;
  reason = "fact is absent from request metadata and the policy declares no default";
  suggestion = "supply the fact in Request.Metadata, or declare a default for it in the policy";
}

unfoldable pub invalid_fact_error : Text → Text → Text → Error
invalid_fact_error name value reason = record zero_error {
  code = error_code_invalid_fact;
  severity = severity_fatal;
  component = "policy";
  field = "facts." & name;
  value = value;
  reason = reason;
  sensitive = true;
}

-- A pair of a flag and a value, such as `hasMin` and `min`, is an option.
pub record NumberBounds (F : Type 0) : Type 0 where
  pub default : Option F
  pub min : Option F
  pub max : Option F

pub record IntegerBounds : Type 0 where
  pub default : Option ℤ
  pub min : Option ℤ
  pub max : Option ℤ

pub record BoolBounds : Type 0 where
  pub default : Option Bool

pub record StringBounds : Type 0 where
  pub default : Option Text

-- What a reader does where the fact is absent.
unfoldable pub absent_fact {ℓ} : {A : Type ℓ} → Text → Option A → Error ⊎ A
absent_fact name none = inl (missing_fact_error name)
absent_fact name (some def) = inr def

-- `bounds.hasMin && value < bounds.min`, for a comparison.
abbrev pub is_below {ℓ} : {A : Type ℓ} → (A → A → Bool) → A → Option A → Bool
is_below lt value none = false
is_below lt value (some min) = lt value min

-- `bounds.hasMax && value > bounds.max`
abbrev pub is_above {ℓ} : {A : Type ℓ} → (A → A → Bool) → A → Option A → Bool
is_above lt value none = false
is_above lt value (some max) = lt max value

-- The two tests of a value against its bounds.
unfoldable pub within_bounds {ℓ} :
    {A : Type ℓ} → (A → A → Bool) → Text → Text → Option A → Option A → A → Error ⊎ A
within_bounds lt name raw min max value =
    if is_below lt value min
    then inl (invalid_fact_error name raw "fact is below its declared minimum")
    else if is_above lt value max
    then inl (invalid_fact_error name raw "fact is above its declared maximum")
    else inr value

-- The value of a fact that is present.
unfoldable pub number_of : {F : Type 0} ⦃fl : Float F⦄ → Text → NumberBounds F → Text → Error ⊎ F
number_of ⦃fl⦄ name bounds raw = elim (fl.parse raw) [
  | none ↦ inl (invalid_fact_error name raw "fact is not a number")
  | some value ↦
      if fl.is_nan value || fl.is_inf value
      then inl (invalid_fact_error name raw "fact is not a finite number")
      else within_bounds fl.lt name raw bounds.min bounds.max value
]

-- `factNumberValue`
unfoldable pub fact_number_value :
    {F : Type 0} ⦃fl : Float F⦄ → Request → Text → NumberBounds F → Error ⊎ F
fact_number_value req name bounds = elim (fact_raw_value req name) [
  | none ↦ absent_fact name bounds.default
  | some raw ↦ number_of name bounds raw
]

-- The digits of a decimal number, behind what they follow.
unfoldable pub digits : ℕ → Text → Option ℕ
digits n String.[] = some n
digits n (String.◌∷◌ c s) =
    let rest = digits (n * 10 + (code c - 48)) s in
    if leb 48 (code c) && leb (code c) 57 then rest else none

-- The largest int64.
abbrev pub max_int64 : ℕ
max_int64 = 9223372036854775807

unfoldable pub nonnegative : Option ℕ → Option ℤ
nonnegative none = none
nonnegative (some n) = if leb n max_int64 then some (pos n) else none

unfoldable pub negative : Option ℕ → Option ℤ
negative none = none
negative (some n) =
    if nat_beq n 0
    then some (pos 0)
    else if leb n (max_int64 + 1)
    then some (negsuc (n - 1))
    else none

abbrev pub unsigned : Text → Option ℕ
unsigned s = if s == "" then none else digits 0 s

-- `strconv.ParseInt(s, 10, 64)`, with none for an error: a sign or none, then digits.
unfoldable pub parse_int : Text → Option ℤ
parse_int String.[] = none
parse_int (String.◌∷◌ c s) =
    if nat_beq (code c) 43
    then nonnegative (unsigned s)
    else if nat_beq (code c) 45
    then negative (unsigned s)
    else nonnegative (unsigned (String.◌∷◌ c s))

unfoldable pub integer_of : Text → IntegerBounds → Text → Error ⊎ ℤ
integer_of name bounds raw = elim (parse_int raw) [
  | none ↦ inl (invalid_fact_error name raw "fact is not an integer")
  | some value ↦ within_bounds ltb_ℤ name raw bounds.min bounds.max value
]

-- `factIntegerValue`
unfoldable pub fact_integer_value : Request → Text → IntegerBounds → Error ⊎ ℤ
fact_integer_value req name bounds = elim (fact_raw_value req name) [
  | none ↦ absent_fact name bounds.default
  | some raw ↦ integer_of name bounds raw
]

-- `strconv.ParseBool`, with none for an error.
unfoldable pub parse_bool : Text → Option Bool
parse_bool s =
    if elem s ("1" ∷ "t" ∷ "T" ∷ "true" ∷ "TRUE" ∷ "True" ∷ [])
    then some true
    else if elem s ("0" ∷ "f" ∷ "F" ∷ "false" ∷ "FALSE" ∷ "False" ∷ [])
    then some false
    else none

unfoldable pub bool_of : Text → Text → Error ⊎ Bool
bool_of name raw = elim (parse_bool raw) [
  | none ↦ inl (invalid_fact_error name raw "fact is not a bool")
  | some value ↦ inr value
]

-- `factBoolValue`
unfoldable pub fact_bool_value : Request → Text → BoolBounds → Error ⊎ Bool
fact_bool_value req name bounds = elim (fact_raw_value req name) [
  | none ↦ absent_fact name bounds.default
  | some raw ↦ bool_of name raw
]

unfoldable pub enum_of : Text → List Text → Text → Error ⊎ Text
enum_of name allowed raw =
    if elem (lower raw) allowed
    then inr (lower raw)
    else inl (invalid_fact_error name raw "fact is outside its declared domain")

-- `factEnumValue`
unfoldable pub fact_enum_value : Request → Text → List Text → StringBounds → Error ⊎ Text
fact_enum_value req name allowed bounds = elim (fact_raw_value req name) [
  | none ↦ absent_fact name bounds.default
  | some raw ↦ enum_of name allowed raw
]
