-- ===== src/Core/Error.antt =====
-- core/errors.go: the structured error, its redaction and its text, and collections of errors.
use cervo_rules.Prelude.{
  Bool, false, not, ◌&&◌, ◌||◌, Option, none, some, List, [], ◌∷◌, ◌++◌, if◌then◌else◌, ◌==◌,
  is_empty,
}
use cervo_rules.Prelude.Int.{ℤ, pos}
use cervo_rules.Core.Codes.{ErrorCode, Severity}
use cervo_rules.Text.{Text, join}

-- `Cause` is an error of the caller, known here by its message.
pub record Error : Type 0 where
  pub code : ErrorCode
  pub severity : Severity
  pub component : Text
  pub field : Text
  pub rule : Text
  pub value : Text
  pub limit : ℤ
  pub observed : ℤ
  pub reason : Text
  pub suggestion : Text
  pub cause : Option Text
  pub sensitive : Bool

-- The zero value, which a Go composite literal fills in.
abbrev pub zero_error : Error
zero_error = record {
  code = "";
  severity = "";
  component = "";
  field = "";
  rule = "";
  value = "";
  limit = pos 0;
  observed = pos 0;
  reason = "";
  suggestion = "";
  cause = none;
  sensitive = false;
}

-- core/redaction.go: a `Redactor` may be nil.
abbrev pub Redactor : Type 0
Redactor = Option (Text → Bool)

abbrev pub redacted_value : Text
redacted_value = "[REDACTED]"

unfoldable pub redacted : Error → Error
redacted e = if not (e.value == "") && e.sensitive then record e { value = redacted_value } else e

-- `redactor != nil && redactor(field)`.
abbrev pub matches : Redactor → Text → Bool
matches none f = false
matches (some r) f = r f

unfoldable pub redact_with : Redactor → Error → Error
redact_with r e =
    if e.value == ""
    then e
    else if e.sensitive || matches r e.field
    then record e { value = redacted_value }
    else e

-- `if part != "" { parts = append(parts, part) }`
abbrev pub part : Text → List Text
part s = if s == "" then [] else s ∷ []

unfoldable pub value_part : Error → List Text
value_part e =
    if e.value == "" then [] else if e.sensitive then redacted_value ∷ [] else e.value ∷ []

unfoldable pub error_parts : Error → List Text
error_parts e =
    part e.code
    ++ part e.component
    ++ part e.field
    ++ part e.rule
    ++ value_part e
    ++ part e.reason
    ++ part e.suggestion

-- `Error.Error`
unfoldable pub error_text : Error → Text
error_text e = if is_empty (error_parts e) then "cervorules error" else join ": " (error_parts e)

unfoldable pub unwrap : Error → Option Text
unwrap e = e.cause
