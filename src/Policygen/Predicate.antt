-- ===== src/Policygen/Predicate.antt =====
-- internal/policygen/facts.go: the validation of a predicate, and its description.
use cervo_rules.Prelude.{
  ℕ, suc, ◌+◌, ◌&◌, ◌⊎◌, inl, inr, Bool, true, false, not, ◌||◌, Option, none, some, List, [], ◌∷◌,
  map, if◌then◌else◌, ◌==◌, elem, is_empty, nat_beq,
}
use cervo_rules.Prelude.Maps.{entry, mark}
use cervo_rules.Prelude.Results.{◌>>=◌, ◌>>◌, reject_if}
use cervo_rules.Text.{Text, normalize, decimal, decimal_ℤ, join}
use cervo_rules.Float.{Float}
use cervo_rules.Policygen.Schema.{
  Scalar, null, text, flag, integer, number, other, FactKind, Leaf, Predicate, Predicates,
  MaybePredicate, node, nil, cons, nothing, just, FactBinding, FactIndex,
}
use cervo_rules.Policygen.Problem.{Problem}
use cervo_rules.Policygen.Kinds.{
  kind_number, kind_integer, kind_bool, kind_enum, kind_string, coerce_fact_value,
}

-- `opsByKind`
unfoldable pub ops_by_kind : FactKind → Option (List Text)
ops_by_kind kind =
    if kind == kind_number || kind == kind_integer
    then some ("eq" ∷ "ne" ∷ "gt" ∷ "gte" ∷ "lt" ∷ "lte" ∷ "in" ∷ [])
    else if kind == kind_bool
    then some ("eq" ∷ "ne" ∷ "is_true" ∷ "is_false" ∷ [])
    else if kind == kind_enum || kind == kind_string
    then some ("eq" ∷ "ne" ∷ "in" ∷ [])
    else none

-- What the switch of `validatePredicate` finds.
pub data Form : Type 0 where
  malformed all_of any_of negated condition comparison : Form

-- `if set { forms++ }`
abbrev pub count : Bool → ℕ
count true = 1
count false = 0

module _ {F : Type 0} where
  -- `raw == nil`
  abbrev pub is_null : Scalar F → Bool
  is_null null = true
  is_null _ = false

  abbrev pub is_nil : Predicates F → Bool
  is_nil nil = true
  is_nil (cons p ps) = false

  abbrev pub is_nothing : MaybePredicate F → Bool
  is_nothing nothing = true
  is_nothing (just p) = false

  -- `validateFactComparison`
  unfoldable pub validate_fact_comparison :
      FactIndex F → List Text → Text → FactBinding F → Leaf F → Problem F ⊎ List Text
  validate_fact_comparison facts referenced path b l = elim (entry (normalize l.fact_value) facts) [
    | none ↦ inl (Problem.undeclared_operand path l.fact_value)
    | some o ↦
        reject_if (not (o.kind == b.kind)) (Problem.mixed_kinds path b.kind b.name o.kind o.name)
        >> (reject_if (o.name == b.name) (Problem.compared_to_itself path b.name)
            >> inr (mark (normalize l.fact_value) referenced))
  ]

  -- The loop over the values of `in`.
  unfoldable pub validate_elements :
      ⦃fl : Float F⦄ → FactBinding F → Text → ℕ → List (Scalar F) → Problem F ⊎ Unit {0}
  validate_elements b path i [] = inr tt
  validate_elements b path i (raw ∷ rest) = elim (coerce_fact_value b raw) [
    | inl e ↦ inl (Problem.bad_element path i e)
    | inr v ↦ validate_elements b path (suc i) rest
  ]

  -- The operand of a comparison with `in`, of `is_true` and `is_false`, and of the other operators.
  unfoldable pub validate_operand :
      ⦃fl : Float F⦄
      → FactIndex F
      → List Text
      → Text
      → FactBinding F
      → Leaf F
      → Text
      → Problem F ⊎ List Text
  validate_operand facts referenced path b l op =
      if op == "is_true" || op == "is_false"
      then reject_if (not (is_null l.value) || not (l.fact_value == "") || not (is_empty l.values))
          (Problem.takes_no_value path op)
        >> inr referenced
      else if op == "in"
      then reject_if (is_empty l.values) (Problem.in_needs_values path)
        >> (reject_if (not (is_null l.value) || not (l.fact_value == ""))
              (Problem.in_takes_no_value path)
            >> (validate_elements b path 0 l.values >> inr referenced))
      else reject_if (not (is_empty l.values)) (Problem.takes_no_values path op)
        >> (if not (l.fact_value == "")
            then reject_if (not (is_null l.value)) (Problem.two_operands path)
              >> validate_fact_comparison facts referenced path b l
            else reject_if (is_null l.value) (Problem.needs_operand path op)
              >> (elim (coerce_fact_value b l.value) [
                | inl e ↦ inl (Problem.bad_value path e)
                | inr v ↦ inr referenced
              ]))

  -- `validateFactLeaf`
  unfoldable pub validate_fact_leaf :
      ⦃fl : Float F⦄ → FactIndex F → List Text → Text → Leaf F → Problem F ⊎ List Text
  validate_fact_leaf facts referenced path l = elim (entry (normalize l.fact) facts) [
    | none ↦ inl (Problem.undeclared_fact path l.fact)
    | some b ↦ elim (ops_by_kind b.kind) [
      | none ↦ inl (Problem.fact_of_unknown_type path l.fact)
      | some allowed ↦
          reject_if (not (elem (normalize l.op) allowed))
            (Problem.invalid_operator path l.op b.kind)
          >> validate_operand facts (mark (normalize l.fact) referenced) path b l (normalize l.op)
    ]
  ]

  unfoldable pub forms : Predicates F → Predicates F → MaybePredicate F → Leaf F → Text → ℕ
  forms all any neg l c =
      count (not (is_nil all))
      + count (not (is_nil any))
      + count (not (is_nothing neg))
      + count (not (l.fact == ""))
      + count (not (c == ""))

  -- The switch, which describePredicate has too.
  unfoldable pub switch_of : Predicates F → Predicates F → MaybePredicate F → Text → Form
  switch_of all any neg c =
      if not (is_nil all)
      then all_of
      else if not (is_nil any)
      then any_of
      else if not (is_nothing neg)
      then negated
      else if not (c == "")
      then condition
      else comparison

  unfoldable pub form_of : Predicates F → Predicates F → MaybePredicate F → Leaf F → Text → Form
  form_of all any neg l c =
      if nat_beq (forms all any neg l c) 1 then switch_of all any neg c else malformed

  -- `validatePredicate`, with the set of the facts read so far.
  unfoldable mutual
    pub validate_predicate :
        ⦃fl : Float F⦄
        → FactIndex F
        → List Text
        → Predicate F
        → List Text
        → Text
        → Problem F ⊎ List Text
    validate_predicate facts conditions (node all any neg l c) referenced path =
        elim (form_of all any neg l c) [
          | malformed ↦ inl (Problem.not_one_form path)
          | all_of ↦ validate_each facts conditions all referenced (path & ".all") 0
          | any_of ↦ validate_each facts conditions any referenced (path & ".any") 0
          | negated ↦ validate_negated facts conditions neg referenced (path & ".not")
          | condition ↦
              reject_if (not (elem (normalize c) conditions)) (Problem.undeclared_condition path c)
              >> inr referenced
          | comparison ↦ validate_fact_leaf facts referenced path l
        ]

    -- The loop over the children.
    pub validate_each :
        ⦃fl : Float F⦄
        → FactIndex F
        → List Text
        → Predicates F
        → List Text
        → Text
        → ℕ
        → Problem F ⊎ List Text
    validate_each facts conditions nil referenced path i = inr referenced
    validate_each facts conditions (cons p ps) referenced path i =
        validate_predicate facts conditions p referenced (path & ("[" & (decimal i & "]"))) >>= λ r.
        validate_each facts conditions ps r path (suc i)

    -- The child of a negation, which the form says is there.
    pub validate_negated :
        ⦃fl : Float F⦄
        → FactIndex F
        → List Text
        → MaybePredicate F
        → List Text
        → Text
        → Problem F ⊎ List Text
    validate_negated facts conditions nothing referenced path = inr referenced
    validate_negated facts conditions (just p) referenced path =
        validate_predicate facts conditions p referenced path

  -- `describeScalar`
  unfoldable pub describe_scalar : ⦃fl : Float F⦄ → Scalar F → Text
  describe_scalar (text s) = s
  describe_scalar (flag b) = if b then "true" else "false"
  describe_scalar (integer i) = decimal_ℤ i
  describe_scalar ⦃fl⦄ (number v) = fl.print v
  describe_scalar null = "<nil>"
  describe_scalar (other s) = s

  unfoldable pub describe_leaf : ⦃fl : Float F⦄ → Leaf F → Text
  describe_leaf l =
      let op = normalize l.op in
      if op == "is_true" || op == "is_false"
      then normalize l.fact & (" " & op)
      else if op == "in"
      then normalize l.fact
        & (" in [" & (join ", " (map {A = Scalar F} describe_scalar l.values) & "]"))
      else if not (l.fact_value == "")
      then normalize l.fact & (" " & (op & (" " & normalize l.fact_value)))
      else normalize l.fact & (" " & (op & (" " & describe_scalar l.value)))

  -- `describePredicate`, `describeChildren`
  unfoldable mutual
    pub describe_predicate : ⦃fl : Float F⦄ → Predicate F → Text
    describe_predicate (node all any neg l c) = elim (switch_of all any neg c) [
      | all_of ↦ "all(" & (join ", " (describe_each all) & ")")
      | any_of ↦ "any(" & (join ", " (describe_each any) & ")")
      | negated ↦ "not(" & (describe_negated neg & ")")
      | condition ↦ "condition " & normalize c
      | _ ↦ describe_leaf l
    ]

    pub describe_each : ⦃fl : Float F⦄ → Predicates F → List Text
    describe_each nil = []
    describe_each (cons p ps) = describe_predicate p ∷ describe_each ps

    pub describe_negated : ⦃fl : Float F⦄ → MaybePredicate F → Text
    describe_negated nothing = ""
    describe_negated (just p) = describe_predicate p
