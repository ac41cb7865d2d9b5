-- ===== src/Core/Errors.antt =====
-- core/errors.go: the collection `Errors`.
pub mod Order
use cervo_rules.Prelude.{
  ◌&◌, ◌≡◌, Bool, true, false, Option, none, some, List, [], ◌∷◌, map, if◌then◌else◌, ◌==◌, keep,
  any,
}
use cervo_rules.Prelude.Sort.{sort_stable as stable_sort}
use cervo_rules.Text.{Text, text_less, join, nul_text}
use cervo_rules.Core.Codes.{ErrorCode, severity_fatal}
use cervo_rules.Core.Error.{
  Error, Redactor, error_text, redacted as redacted_error, redact_with as redact_error_with,
}

abbrev pub Errors : Type 0
Errors = List Error

unfoldable pub redacted : Errors → Errors
redacted es = map redacted_error es

unfoldable pub redact_with : Redactor → Errors → Errors
redact_with r es = map (redact_error_with r) es

unfoldable pub text : Errors → Text
text [] = "no validation errors"
text (e ∷ []) = error_text e
text (e ∷ _ ∷ _) = error_text e & " and more validation errors"

unfoldable pub has : ErrorCode → Errors → Bool
has c es = any (λ e. e.code == c) es

unfoldable pub by_code : ErrorCode → Errors → Errors
by_code c es = keep (λ e. e.code == c) es

unfoldable pub by_field : Text → Errors → Errors
by_field f es = keep (λ e. e.field == f) es

unfoldable pub fatal : Errors → Errors
fatal es = keep (λ e. e.severity == severity_fatal) es

-- `As(*Errors)` gives the collection, and `As(*Error)` its first item.
unfoldable pub as_error : Errors → Option Error
as_error [] = none
as_error (e ∷ _) = some e

-- The five fields behind one another, with a NUL between them.
unfoldable pub error_sort_key : Error → Text
error_sort_key e = join nul_text (e.field ∷ e.rule ∷ e.code ∷ e.value ∷ e.reason ∷ [])

unfoldable pub less_error : Error → Error → Bool
less_error a b = text_less (error_sort_key a) (error_sort_key b)

-- `Errors.SortStable`
unfoldable pub sort_stable : Errors → Errors
sort_stable es = stable_sort less_error es

-- A Go `error` that may stand where the source returns one: an `Error`, an `Errors`, or another
-- error, which is known by its message.
pub data Failure : Type 0 where
  single : Error → Failure
  many : Errors → Failure
  other : Text → Failure

-- The `Error()` method.
unfoldable pub message : Failure → Text
message (single e) = error_text e
message (many es) = text es
message (other m) = m
