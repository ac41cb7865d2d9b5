-- ===== src/Policygen/Leaves.antt =====
-- internal/policygen/facts.go: a comparison is accepted exactly where it fits the declared facts.
use cervo_rules.Prelude.{
  ◌≡◌, refl, ◌≢◌, ◌↔◌, ◌⊎◌, inl, inr, Bool, true, false, not, ◌||◌, List, [], ◌∷◌, if◌then◌else◌,
  ◌==◌, arith, elem_iff, eq_iff, is_empty, Bool-cases, Option-cases, sum_cases,
}
use cervo_rules.Prelude.Maps.{entry, mark}
use cervo_rules.Prelude.Results.{◌>>◌, reject_if, Accepts, Accepts->>}
use cervo_rules.Text.{Text, normalize}
use cervo_rules.Float.{Float}
use cervo_rules.Policygen.Schema.{Leaf, FactBinding, FactIndex}
use cervo_rules.Policygen.Problem.{Problem}
use cervo_rules.Policygen.Kinds.{coerce_fact_value}
use cervo_rules.Policygen.Predicate.{
  ops_by_kind, is_null, validate_fact_comparison, validate_operand, validate_fact_leaf,
}
use cervo_rules.Policygen.Typing.{
  IsOfKind, TakesNone, TakesFact, TakesOne, Fits, LeafFits, coerce_fact_value_iff,
  validate_elements_iff, rejected, accepted, apart,
}

-- A check and what follows it.
pub check_iff :
    {E B : Type 0} (b : Bool) (e : E) (k : E ⊎ B)
    → Accepts (reject_if b e >> k) ↔ ((b ≡ false) × Accepts k)
unfolding ◌>>◌
check_iff true e k = (λ h. absurd h, λ (h, j). cc)
check_iff false e k = (λ h. (refl, h), λ (h, j). j)

-- The negation of a test of texts.
pub differs_iff : (a b : Text) → ((a == b) ≡ false) ↔ (a ≢ b)
differs_iff a b = (
  λ h e. let j = (eq_iff a b).1 e in absurd (apart h j),
  λ h. elim (Bool-cases (a == b)) [ inl j ↦ absurd (h ((eq_iff a b).0 j)) | inr j ↦ j ],
)

pub empty_iff : {A : Type 0} (xs : List A) → (is_empty xs ≡ true) ↔ (xs ≡ [])
empty_iff [] = (λ h. refl, λ h. refl)
empty_iff (x ∷ xs) = (λ h. cc, λ h. cc)

nonempty_iff : {A : Type 0} (xs : List A) → (is_empty xs ≡ false) ↔ (xs ≢ [])
nonempty_iff [] = (λ h. cc, λ h. absurd (h refl))
nonempty_iff (x ∷ xs) = (λ h e. cc, λ h. refl)

pub not_iff : (b : Bool) → (not b ≡ false) ↔ (b ≡ true)
not_iff true = (λ h. refl, λ h. refl)
not_iff false = (λ h. cc, λ h. cc)

module _ {F : Type 0} ⦃fl : Float F⦄ (facts : FactIndex F) (referenced : List Text) (path : Text)
    (b : FactBinding F) (l : Leaf F) where
  comparison_iff :
      Accepts (validate_fact_comparison facts referenced path b l) ↔ TakesFact facts b l
  unfolding validate_fact_comparison
  comparison_iff = elim (Option-cases (entry (normalize l.fact_value) facts)) [
    | inl n ↦ rw (n, validate_fact_comparison) (λ h. absurd h, λ (o, k, _). cc)
    | inr (o, n) ↦
        rw (n, validate_fact_comparison)
          (
            λ h.
                let (p, q) = (check_iff _ _ _).0 h in
                let (r, _) = (check_iff _ _ _).0 q in
                (
                  o,
                  refl,
                  ((eq_iff o.kind b.kind).0 ((not_iff _).0 p), (differs_iff o.name b.name).0 r),
                ),
            λ (o', k, (h, j)).
                let same : o ≡ o' = cc in
                (check_iff _ _ _).1 (
                  (not_iff _).1 ((eq_iff o.kind b.kind).1 (rw same h)),
                  (check_iff _ _ _).1 ((differs_iff o.name b.name).1 (rw same j), tt),
                ),
          )
  ]

  no_operand_iff :
      ((not (is_null l.value) || not (l.fact_value == "") || not (is_empty l.values)) ≡ false)
      ↔ TakesNone l
  no_operand_iff = ground (arith, eq_iff l.fact_value "", empty_iff l.values)

  no_value_iff :
      ((not (is_null l.value) || not (l.fact_value == "")) ≡ false)
      ↔ ((is_null l.value ≡ true) × (l.fact_value ≡ ""))
  no_value_iff = ground (arith, eq_iff l.fact_value "")

  -- The value of a comparison.
  value_iff :
      Accepts (elim (coerce_fact_value b l.value) as (λ x. Problem F ⊎ List Text) [
        | inl e ↦ inl (Problem.bad_value path e)
        | inr v ↦ inr referenced
      ])
      ↔ IsOfKind b l.value
  value_iff = elim (sum_cases (coerce_fact_value b l.value)) [
    | inl (e, k) ↦ rw k (
      λ x. absurd x,
      λ h.
          absurd (rejected (coerce_fact_value b l.value) k ((coerce_fact_value_iff b l.value).1 h)),
    )
    | inr (v, k) ↦ rw k (
      λ x. (coerce_fact_value_iff b l.value).0 (accepted (coerce_fact_value b l.value) k),
      λ h. tt,
    )
  ]

  one_iff :
      (op : Text)
      → Accepts (
          reject_if (not (is_empty l.values)) (Problem.takes_no_values path op)
          >> (if not (l.fact_value == "")
              then reject_if (not (is_null l.value)) (Problem.two_operands path)
                >> validate_fact_comparison facts referenced path b l
              else reject_if (is_null l.value) (Problem.needs_operand path op)
                >> (elim (coerce_fact_value b l.value) as (λ x. Problem F ⊎ List Text) [
                  | inl e ↦ inl (Problem.bad_value path e)
                  | inr v ↦ inr referenced
                ])))
        ↔ TakesOne facts b l
  one_iff op = elim (Bool-cases (l.fact_value == "")) [
    | inl e ↦ rw e (
      λ x.
          let (p, q) = (check_iff _ _ _).0 x in
          let (r, t) = (check_iff _ _ _).0 q in
          ((empty_iff _).0 ((not_iff _).0 p), inr ((eq_iff _ _).0 e, (r, value_iff.0 t))),
      λ (p, q). elim q [
        | inl (n, _) ↦ absurd (n ((eq_iff _ _).0 e))
        | inr (_, (r, t)) ↦
            (check_iff _ _ _).1
              ((not_iff _).1 ((empty_iff _).1 p), (check_iff _ _ _).1 (r, value_iff.1 t))
      ],
    )
    | inr e ↦ rw e (
      λ x.
          let (p, q) = (check_iff _ _ _).0 x in
          let (r, t) = (check_iff _ _ _).0 q in
          (
            (empty_iff _).0 ((not_iff _).0 p),
            inl ((differs_iff _ _).0 e, ((not_iff _).0 r, comparison_iff.0 t)),
          ),
      λ (p, q). elim q [
        | inl (_, (r, t)) ↦ (check_iff _ _ _).1 (
          (not_iff _).1 ((empty_iff _).1 p),
          (check_iff _ _ _).1 ((not_iff _).1 r, comparison_iff.1 t),
        )
        | inr (n, _) ↦ absurd (apart e ((eq_iff _ _).1 n))
      ],
    )
  ]

  -- The operand of a comparison is accepted exactly where it is the one that the operator takes.
  pub validate_operand_iff :
      (op : Text) → Accepts (validate_operand facts referenced path b l op) ↔ Fits facts b l op
  unfolding validate_operand
  validate_operand_iff op = elim (Bool-cases (op == "is_true" || op == "is_false")) [
    | inl h ↦ rw h (
      λ x. no_operand_iff.0 ((check_iff _ _ _).0 x).0,
      λ x. (check_iff _ _ _).1 (no_operand_iff.1 x, tt),
    )
    | inr h ↦ elim (Bool-cases (op == "in")) [
      | inl i ↦
          rw (h, i)
            (
              λ x.
                  let (p, q) = (check_iff _ _ _).0 x in
                  let (r, t) = (check_iff _ _ _).0 q in
                  let (v, n) = no_value_iff.0 r in
                  let (w, _) = (Accepts->> _ _).0 t in
                  ((nonempty_iff _).0 p, v, n, (validate_elements_iff b path 0 l.values).0 w),
              λ (p, v, n, w). (check_iff _ _ _).1 (
                (nonempty_iff _).1 p,
                (check_iff _ _ _).1 (
                  no_value_iff.1 (v, n),
                  (Accepts->> _ _).1 ((validate_elements_iff b path 0 l.values).1 w, tt),
                ),
              ),
            )
      | inr i ↦ rw (h, i) (one_iff op)
    ]
  ]

module _ {F : Type 0} ⦃fl : Float F⦄ (facts : FactIndex F) (referenced : List Text)
    (path : Text) where
  -- A leaf is accepted exactly where it fits the declared facts.
  pub validate_fact_leaf_iff :
      (l : Leaf F) → Accepts (validate_fact_leaf facts referenced path l) ↔ LeafFits facts l
  unfolding validate_fact_leaf
  validate_fact_leaf_iff l = elim (Option-cases (entry (normalize l.fact) facts)) [
    | inl n ↦ rw (n, validate_fact_leaf) (λ h. absurd h, λ (b, k, _). cc)
    | inr (b, n) ↦ elim (Option-cases (ops_by_kind b.kind)) [
      | inl k ↦
          rw (n, validate_fact_leaf, k)
            (λ h. absurd h, λ (b', j, (ops, j', _)). let same : b ≡ b' = cc in cc)
      | inr (ops, k) ↦
          rw (n, validate_fact_leaf, k)
            (
              λ h.
                  let (p, q) = (check_iff _ _ _).0 h in
                  (
                    b,
                    refl,
                    (
                      ops,
                      k,
                      (
                        (elem_iff _ _).0 ((not_iff _).0 p),
                        (validate_operand_iff facts _ path b l _).0 q,
                      ),
                    ),
                  ),
              λ (b', j, (ops', j', (m, t))).
                  let same : b ≡ b' = cc in
                  let same_ops : ops ≡ ops' = cc in
                  (check_iff _ _ _).1 (
                    (not_iff _).1 ((elem_iff (normalize l.op) ops).1 (rw same_ops m)),
                    (validate_operand_iff facts (mark (normalize l.fact) referenced) path b l
                          (normalize l.op)).1
                        (rw same t),
                  ),
            )
    ]
  ]
