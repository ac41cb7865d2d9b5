-- ===== src/Core/Redaction.antt =====
-- core/redaction.go: `RedactFields`; and what redaction withholds from the texts of core/errors.go.
use Prim.Native.Char.{Char, code}
use Prim.Native.String.{String}
use cervo_rules.Prelude.{
  ◌≡◌, refl, ◌&◌, ◌≢◌, ◌⊎◌, Bool, true, ◌||◌, List, [], ◌∷◌, ◌++◌, if◌then◌else◌, ◌==◌, eq_iff,
  elem, any, nat_beq, arith,
}
use cervo_rules.Text.{Text, normalize}
use cervo_rules.Core.Error.{
  Error, Redactor, redact_with, matches, part, value_part, error_parts, error_text,
}
use cervo_rules.Core.Vocabulary.{name_set}

-- '.', '_', '[' and ']'.
unfoldable pub is_separator : Char → Bool
is_separator c =
    nat_beq (code c) 46 || nat_beq (code c) 95 || nat_beq (code c) 91 || nat_beq (code c) 93

-- `strings.FieldsFunc`, with the field that is being read.
unfoldable pub split_fields : Text → Text → List Text
split_fields String.[] word = part word
split_fields (String.◌∷◌ c s) word =
    let ended = part word ++ split_fields s "" in
    let longer = split_fields s (word & String.◌∷◌ c String.[]) in
    if is_separator c then ended else longer

unfoldable pub field_segments : Text → List Text
field_segments field =
    if normalize field == ""
    then []
    else split_fields (normalize field) "" ++ (normalize field ∷ [])

-- `RedactFields`: a redactor that is never nil. An empty set matches nothing.
unfoldable pub redact_fields : List Text → Text → Bool
redact_fields names field = any (λ segment. elem segment (name_set names)) (field_segments field)

value_part-sensitive :
    (e : Error) (v : Text)
    → e.sensitive ≡ true
    → e.value ≢ ""
    → v ≢ ""
    → value_part (record e { value = v }) ≡ value_part e
unfolding value_part
value_part-sensitive e v s h k = ground (arith, eq_iff e.value "", eq_iff v "")

-- The text of a sensitive error does not depend on its value: any two values that are not empty
-- give the same text.
pub error_text-sensitive :
    (e : Error) (v : Text)
    → e.sensitive ≡ true
    → e.value ≢ ""
    → v ≢ ""
    → error_text (record e { value = v }) ≡ error_text e
unfolding error_text error_parts
error_text-sensitive e v s h k = rw (value_part-sensitive e v s h k) refl

-- What `RedactWith` gives for a sensitive error, or for one whose field the redactor matches, does not
-- depend on the error's value: any two values that are not empty give the same error.
pub redact_with-hides :
    (r : Redactor) (e : Error) (v w : Text)
    → (e.sensitive ≡ true) ⊎ (matches r e.field ≡ true)
    → v ≢ ""
    → w ≢ ""
    → redact_with r (record e { value = v }) ≡ redact_with r (record e { value = w })
unfolding redact_with
redact_with-hides r e v w h k m = ground (arith, eq_iff v "", eq_iff w "")

-- Redacting a second time with the same redactor changes nothing, whatever the redactor.
pub redact_with-redact_with :
    (r : Redactor) (e : Error) → redact_with r (redact_with r e) ≡ redact_with r e
unfolding redact_with
redact_with-redact_with r e = ground arith
