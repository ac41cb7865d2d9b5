-- ===== src/Httpadapter.antt =====
-- httpadapter/classifier.go, httpadapter/redaction.go: requests of a transport as requests of a policy.
pub mod Paths
use native.Mathlib.Decide.{dec_le}
use text.Mathlib.Text.{starts_with}
use Prim.Native.Nat.{Ordering, compare as compare_ℕ}
use Prim.Native.Char.{Char, char, code, IsScalar}
use Prim.Native.String.{String}
use mathlib.Core.Logic.{dite}
use cervo_rules.Prelude.{
  ℕ, ◌-◌, ◌≤◌, ◌&◌, ◌≡◌, ◌⊎◌, inl, inr, Bool, true, false, not, ◌&&◌, ◌||◌, Option, none, some,
  List, [], ◌∷◌, map, if◌then◌else◌, ◌==◌, elem, is_empty, arith,
}
use cervo_rules.Text.{upper_char, Text, lower, trim_space}
use cervo_rules.Core.Errors.{Failure, other, message}
use cervo_rules.Core.Error.{Redactor}
use cervo_rules.Core.Redaction.{redact_fields}
use cervo_rules.Core.Types.{Operation, Request, new_operation, metadata_value}

pub record HeaderOptions : Type 0 where
  pub request_id : List Text
  pub user : List Text
  pub channel : List Text
  pub operation : List Text
  pub risk : List Text

pub record PathOperation : Type 0 where
  pub methods : List Text
  pub prefix : Text
  pub contains : Text
  pub regex : Text
  pub operation : Operation

-- The channels are none where the map is nil.
pub record HttpClassificationOptions : Type 0 where
  pub headers : HeaderOptions
  pub path_operations : List PathOperation
  pub channel_operations : Option (List (Text × Operation))
  pub copy_headers : Bool

-- `H` is net/http's `Header`; none where the headers are not copied.
pub record RequestFacts (H : Type 0) : Type 0 where
  pub id : Text
  pub user : Text
  pub channel : Text
  pub risk : Text
  pub operation : Operation
  pub headers : Option H

-- What the adapter reads of net/http's `Request`; `get` is `Header.Get`.
pub record HttpRequest (H : Type 0) : Type 0 where
  pub method : Text
  pub path : Text
  pub header : H

-- Package regexp: `compile` gives the error's message or an expression of type `R`.
pub record Regexp (R : Type 0) : Type 0 where
  pub compile : Text → Text ⊎ R
  pub is_match : R → Text → Bool
  pub quote : Text → Text

pub record CompiledPathOperation (R : Type 0) : Type 0 where
  pub methods : List Text
  pub prefix : Text
  pub contains : Text
  pub regex : Option R
  pub operation : Operation

pub record Classifier (R : Type 0) : Type 0 where
  pub options : HttpClassificationOptions
  pub paths : List (CompiledPathOperation R)

-- `RequestFacts.Request`
unfoldable pub request_of : {H : Type 0} → RequestFacts H → Request
request_of f = record {
  id = f.id;
  user = f.user;
  channel = f.channel;
  operation = f.operation;
  metadata = if f.risk == "" then [] else ("risk", f.risk) ∷ [];
}

unfoldable pub upper : Text → Text
upper String.[] = String.[]
upper (String.◌∷◌ c s) = String.◌∷◌ (upper_char c) (upper s)

-- `strings.Contains`
unfoldable pub contains_text : Text → Text → Bool
contains_text String.[] t = t == ""
contains_text (String.◌∷◌ c s) t = starts_with (String.◌∷◌ c s) t || contains_text s t

module _ {R : Type 0} (engine : Regexp R) where
  -- The expression of a rule, if it has one, with its error or itself.
  unfoldable pub compile_regex : PathOperation → Failure ⊎ Option R
  compile_regex rule =
      if trim_space rule.regex == ""
      then inr none
      else elim (engine.compile ("(?i)" & rule.regex)) [
        | inl e ↦
            inl (other ("compile path operation regex " & (engine.quote rule.regex & (": " & e))))
        | inr r ↦ inr (some r)
      ]

  unfoldable pub compile_rule : PathOperation → Option R → CompiledPathOperation R
  compile_rule rule r = record {
    methods = map (λ m. upper (trim_space m)) rule.methods;
    prefix = lower rule.prefix;
    contains = lower rule.contains;
    regex = r;
    operation = new_operation rule.operation;
  }

  -- The loop over the rules, which stops at the first error.
  unfoldable pub compile_rules : List PathOperation → Failure ⊎ List (CompiledPathOperation R)
  compile_rules [] = inr []
  compile_rules (rule ∷ rest) = elim (compile_regex rule) [
    | inl e ↦ inl e
    | inr r ↦ elim (compile_rules rest) [
      | inl e ↦ inl e
      | inr compiled ↦ inr (compile_rule rule r ∷ compiled)
    ]
  ]

  -- Of channels that are one after they are normalized, the last entry is in force.
  unfoldable pub normalize_channels : List (Text × Operation) → List (Text × Operation)
  normalize_channels xs = map (λ (c, o). (lower (trim_space c), new_operation o)) xs

  unfoldable pub channel_operation : Text → Operation → List (Text × Operation) → Operation
  channel_operation c found [] = found
  channel_operation c found ((d, o) ∷ rest) = channel_operation c (if d == c then o else found) rest

  -- `NewClassifier`
  unfoldable pub new_classifier : HttpClassificationOptions → Failure ⊎ Classifier R
  new_classifier options = elim (compile_rules options.path_operations) [
    | inl e ↦ inl e
    | inr paths ↦ inr (record {
      options = record options {
        channel_operations = elim options.channel_operations [
          | none ↦ none
          | some xs ↦ some (normalize_channels xs)
        ];
      };
      paths = paths;
    })
  ]

  -- The four `continue` of the loop over the rules.
  unfoldable pub rule_matches : CompiledPathOperation R → Text → Text → Bool
  rule_matches rule method path =
      (is_empty rule.methods || elem method rule.methods)
      && (rule.prefix == "" || starts_with path rule.prefix)
      && (rule.contains == "" || contains_text path rule.contains)
      && elim rule.regex [ none ↦ true | some r ↦ engine.is_match r path ]

  unfoldable pub first_match : List (CompiledPathOperation R) → Text → Text → Operation
  first_match [] method path = ""
  first_match (rule ∷ rest) method path =
      if rule_matches rule method path then rule.operation else first_match rest method path

  module _ {H : Type 0} (get : H → Text → Text) where
    -- `inferPathOperation`
    unfoldable pub infer_path_operation : Classifier R → HttpRequest H → Operation
    infer_path_operation c r = first_match c.paths (upper r.method) (lower r.path)

    unfoldable pub first_header : HttpRequest H → List Text → Text
    first_header r [] = ""
    first_header r (h ∷ rest) =
        if trim_space (get r.header h) == ""
        then first_header r rest
        else trim_space (get r.header h)

    unfoldable pub channel_of : Option (List (Text × Operation)) → Text → Operation
    channel_of none channel = ""
    channel_of (some xs) channel = channel_operation (lower (trim_space channel)) "" xs

    -- The three sources of an operation, in their order.
    unfoldable pub operation_of : Classifier R → HttpRequest H → Text → Operation
    operation_of c r channel =
        let named = first_header r c.options.headers.operation in
        let header = if named == "" then "" else new_operation named in
        let path = if header == "" then infer_path_operation c r else header in
        if path == "" && not (channel == "")
        then channel_of c.options.channel_operations channel
        else path

    -- `FactsFromHTTPRequest`, of a classifier and a request that are not nil.
    unfoldable pub facts_of : Classifier R → HttpRequest H → RequestFacts H
    facts_of c r = record {
      id = first_header r c.options.headers.request_id;
      user = first_header r c.options.headers.user;
      channel = first_header r c.options.headers.channel;
      risk = first_header r c.options.headers.risk;
      operation = operation_of c r (first_header r c.options.headers.channel);
      headers = if c.options.copy_headers then some r.header else none;
    }

abbrev pub sensitive_field_names : List Text
sensitive_field_names =
    "authorization" ∷ "auth" ∷ "header" ∷ "headers" ∷ "body" ∷ "cookie" ∷ "credential" ∷ "token"
    ∷ []

unfoldable pub http_redactor : Redactor
http_redactor = some (redact_fields sensitive_field_names)
