-- ===== src/Limits.antt =====
-- limits/limits.go: a budget, what a request asks of it, and every violation.
pub mod Budgets
use cervo_rules.Prelude.{
  ◌&◌, Bool, true, false, not, ◌&&◌, List, [], ◌∷◌, ◌++◌, if◌then◌else◌, ◌==◌, any,
}
use cervo_rules.Prelude.Int.{ℤ, pos, ltb_ℤ}
use cervo_rules.Text.{Text, decimal_ℤ}

pub record Budget : Type 0 where
  pub max_body_bytes : ℤ
  pub max_tokens : ℤ
  pub allow_stream : Bool
  pub allow_tools : Bool
  pub allow_images : Bool

pub record Requested : Type 0 where
  pub body_bytes : ℤ
  pub max_tokens : ℤ
  pub stream : Bool
  pub tools : Bool
  pub images : Bool

pub record Violation : Type 0 where
  pub field : Text
  pub reason : Text

abbrev pub Violations : Type 0
Violations = List Violation

unfoldable pub violations_text : Violations → Text
violations_text [] = ""
violations_text (v ∷ _) = v.reason

-- `Violations.Has`
unfoldable pub has_violation : Text → Violations → Bool
has_violation f vs = any (λ v. v.field == f) vs

-- `if test { violations = append(violations, ...) }`
abbrev pub unless_allowed : Bool → Text → Text → Violations
unless_allowed test f r = if test then record { field = f; reason = r } ∷ [] else []

-- A limit that is not positive limits nothing.
unfoldable pub exceeds : ℤ → ℤ → Bool
exceeds limit n = ltb_ℤ (pos 0) limit && ltb_ℤ limit n

-- `Check`
unfoldable pub check_budget : Budget → Requested → Violations
check_budget b r =
    unless_allowed (exceeds b.max_body_bytes r.body_bytes) "body_bytes"
      ("request body exceeds policy limit of " & (decimal_ℤ b.max_body_bytes & " bytes"))
    ++ unless_allowed (exceeds b.max_tokens r.max_tokens) "max_tokens"
        ("max_tokens exceeds policy limit of " & decimal_ℤ b.max_tokens)
    ++ unless_allowed (r.stream && not b.allow_stream) "stream" "streaming is not allowed by policy"
    ++ unless_allowed (r.tools && not b.allow_tools) "tools" "tools are not allowed by policy"
    ++ unless_allowed (r.images && not b.allow_images) "images" "images are not allowed by policy"
