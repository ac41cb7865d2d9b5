-- ===== src/Facts/Diagnostics.antt =====
-- facts/structured_errors.go: the fatal diagnostics as structured errors.
use mathlib.Core.List.Memᴰ
use cervo_rules.Prelude.{
  ◌≡◌, refl, ◌↔◌, inl, inr, ◌⊎◌, false, eq_iff, Option, none, some, List, [], ◌∷◌, if◌then◌else◌,
  ◌==◌, Memᴰ, Memᴰ-nil, arith, Option-cases,
}
use cervo_rules.Prelude.Sort.{mem-sort}
use cervo_rules.Text.{Text}
use cervo_rules.Core.Codes.{
  ErrorCode, severity_fatal, error_code_max_bindings_exceeded, error_code_max_facts_exceeded,
  error_code_max_iterations_exceeded, error_code_budget_exceeded, error_code_unsafe_negation,
  error_code_unsafe_rule,
}
use cervo_rules.Core.Error.{Error, zero_error}
use cervo_rules.Core.Errors.{Errors, sort_stable, less_error}
use cervo_rules.Facts.Contract.{ComplexityDiagnostic}

unfoldable pub fatal_diagnostic_code : Text → Option ErrorCode
fatal_diagnostic_code code =
    if code == "max_bindings"
    then some error_code_max_bindings_exceeded
    else if code == "max_facts"
    then some error_code_max_facts_exceeded
    else if code == "max_iterations"
    then some error_code_max_iterations_exceeded
    else if code == "budget_exceeded"
    then some error_code_budget_exceeded
    else if code == "unsafe_negation"
    then some error_code_unsafe_negation
    else if code == "unsafe_rule"
    then some error_code_unsafe_rule
    else none

-- `StructuredErrorFromDiagnostic`
unfoldable pub structured_error : ComplexityDiagnostic → Option Error
structured_error d = elim (fatal_diagnostic_code d.code) [
  | none ↦ none
  | some c ↦ some (record zero_error {
    code = c;
    severity = severity_fatal;
    component = "facts";
    field = d.field;
    rule = d.rule;
    limit = d.limit;
    observed = d.observed;
    reason = d.reason;
  })
]

unfoldable pub convert : List ComplexityDiagnostic → Errors
convert [] = []
convert (d ∷ ds) = elim (structured_error d) [ none ↦ convert ds | some e ↦ e ∷ convert ds ]

-- `StructuredErrorsFromDiagnostics`
unfoldable pub structured_errors : List ComplexityDiagnostic → Errors
structured_errors ds = sort_stable (convert ds)

-- The codes of the fatal diagnostics, and the error codes that they stand for.
abbrev pub IsFatal : Text → ErrorCode → Type 0
IsFatal code c =
    ((code ≡ "max_bindings") × (c ≡ "max_bindings_exceeded"))
    ⊎ ((code ≡ "max_facts") × (c ≡ "max_facts_exceeded"))
    ⊎ ((code ≡ "max_iterations") × (c ≡ "max_iterations_exceeded"))
    ⊎ ((code ≡ "budget_exceeded") × (c ≡ "budget_exceeded"))
    ⊎ ((code ≡ "unsafe_negation") × (c ≡ "unsafe_negation"))
    ⊎ ((code ≡ "unsafe_rule") × (c ≡ "unsafe_rule"))

-- The fatal error of package facts with an error code, at the place of a diagnostic.
abbrev pub Describes : ErrorCode → ComplexityDiagnostic → Error → Type 0
Describes c d e = e ≡ record {
  code = c;
  severity = "fatal";
  component = "facts";
  field = d.field;
  rule = d.rule;
  value = "";
  limit = d.limit;
  observed = d.observed;
  reason = d.reason;
  suggestion = "";
  cause = none;
  sensitive = false;
}

-- A fatal diagnostic that the error describes.
abbrev pub Source : List ComplexityDiagnostic → Error → Type 0
Source ds e =
    (d : ComplexityDiagnostic) × Memᴰ d ds × ((c : ErrorCode) × IsFatal d.code c × Describes c d e)

fatal_diagnostic_code_iff :
    (code : Text) (c : ErrorCode) → (fatal_diagnostic_code code ≡ some c) ↔ IsFatal code c
unfolding fatal_diagnostic_code
fatal_diagnostic_code_iff code c = (
  λ h. ground (
    arith,
    eq_iff code "max_bindings",
    eq_iff code "max_facts",
    eq_iff code "max_iterations",
    eq_iff code "budget_exceeded",
    eq_iff code "unsafe_negation",
    eq_iff code "unsafe_rule",
  ),
  λ h. elim h [
    | inl (a, b) ↦ rw (a, b) refl
    | inr h ↦ elim h [
      | inl (a, b) ↦ rw (a, b) refl
      | inr h ↦ elim h [
        | inl (a, b) ↦ rw (a, b) refl
        | inr h ↦ elim h [
          | inl (a, b) ↦ rw (a, b) refl
          | inr h ↦ elim h [ inl (a, b) ↦ rw (a, b) refl | inr (a, b) ↦ rw (a, b) refl ]
        ]
      ]
    ]
  ],
)

structured_error_iff :
    (d : ComplexityDiagnostic) (e : Error)
    → (structured_error d ≡ some e) ↔ ((c : ErrorCode) × IsFatal d.code c × Describes c d e)
unfolding structured_error
structured_error_iff d e = elim (Option-cases (fatal_diagnostic_code d.code)) [
  | inl n ↦
      rw (n, structured_error)
        (λ h. cc, λ (c, f, _). let k = (fatal_diagnostic_code_iff d.code c).1 f in cc)
  | inr (c, n) ↦
      rw (n, structured_error)
        (
          λ h. (c, (fatal_diagnostic_code_iff d.code c).0 n, cc),
          λ (c', f, s).
              let k = (fatal_diagnostic_code_iff d.code c').1 f in
              let same : c ≡ c' = cc in rw (s, same) refl,
        )
]

-- A diagnostic that the code turns into the error.
abbrev Gives : List ComplexityDiagnostic → Error → Type 0
Gives ds e = (d : ComplexityDiagnostic) × Memᴰ d ds × (structured_error d ≡ some e)

convert_iff : (ds : List ComplexityDiagnostic) (e : Error) → Memᴰ e (convert ds) ↔ Gives ds e
unfolding convert
convert_iff [] e = (λ m. absurd (Memᴰ-nil e m), λ (d, m, s). absurd (Memᴰ-nil d m))
convert_iff (x ∷ xs) e =
    let (sound, complete) = convert_iff xs e in
    elim (Option-cases (structured_error x)) [
      | inl n ↦ (
        λ m. let (d, k, s) = sound (rw (n, convert) at m) in (d, Memᴰ.tail k, s),
        λ (d, m, s). elim (Memᴰ.cases_cons m) [
          | inl same ↦ absurd (ground arith)
          | inr k ↦ rw (n, convert) (complete (d, k, s))
        ],
      )
      | inr (f, n) ↦ (
        λ m. elim (Memᴰ.cases_cons (rw (n, convert) at m)) [
          | inl same ↦ (x, Memᴰ.head refl, cc)
          | inr k ↦ let (d, r, s) = sound k in (d, Memᴰ.tail r, s)
        ],
        λ (d, m, s). elim (Memᴰ.cases_cons m) [
          | inl same ↦ rw (n, convert) (Memᴰ.head (ground arith))
          | inr k ↦ rw (n, convert) (Memᴰ.tail (complete (d, k, s)))
        ],
      )
    ]

-- The structured errors of a list of diagnostics are exactly the fatal errors of package facts that
-- describe one of its diagnostics with one of the six fatal codes, at its field, rule, limit and
-- observed value: none is lost, and none is made of another diagnostic.
pub structured_errors_iff :
    (ds : List ComplexityDiagnostic) (e : Error) → Memᴰ e (structured_errors ds) ↔ Source ds e
unfolding structured_errors sort_stable
structured_errors_iff ds e =
    let sorted = mem-sort less_error e (convert ds) in
    let all = convert_iff ds e in
    (
      λ m. let (d, k, s) = all.0 (sorted.0 m) in (d, k, (structured_error_iff d e).0 s),
      λ (d, k, s). sorted.1 (all.1 (d, k, (structured_error_iff d e).1 s)),
    )
