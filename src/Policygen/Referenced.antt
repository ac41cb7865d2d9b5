-- ===== src/Policygen/Referenced.antt =====
-- internal/policygen/facts.go, internal/policygen/generator.go: the facts that a validated policy reads.
use cervo_rules.Prelude.{
  ℕ, suc, ◌≡◌, ◌⊎◌, inl, inr, not, ◌||◌, ◌&◌, some, List, [], ◌∷◌, ◌==◌, elem, Bool-cases,
  Option-cases, sum_cases, Memᴰ,
}
use cervo_rules.Prelude.Maps.{entry, mark, mark_iff}
use cervo_rules.Prelude.Results.{◌>>=◌, ◌>>◌, reject_if}
use cervo_rules.Text.{Text, normalize, decimal}
use cervo_rules.Float.{Float}
use cervo_rules.Policygen.Schema.{
  Leaf, Predicate, Predicates, MaybePredicate, node, nil, cons, nothing, just, FactBinding,
  FactIndex,
}
use cervo_rules.Policygen.Problem.{Problem}
use cervo_rules.Policygen.Kinds.{coerce_fact_value}
use cervo_rules.Policygen.Predicate.{
  malformed, all_of, any_of, negated, condition, comparison, form_of, ops_by_kind,
  validate_fact_comparison, validate_operand, validate_fact_leaf, validate_predicate, validate_each,
  validate_negated, Form,
}
use cervo_rules.Policygen.Schema.{RouteSpec, DenySpec}
use cervo_rules.Policygen.Quote.{quote}
use cervo_rules.Policygen.Routes.{VocabularyIndex}
use cervo_rules.Policygen.Validate.{validate_guard, validate_route_rules, validate_denies}

module _ {F : Type 0} (facts : FactIndex F) where
  -- Every name is that of a declared fact.
  abbrev pub AllDeclared : List Text → Type 0
  AllDeclared names = (n : Text) → Memᴰ n names → (b : FactBinding F) × (entry n facts ≡ some b)

  AllDeclared-mark :
      (n : Text) (b : FactBinding F) (names : List Text)
      → entry n facts ≡ some b
      → AllDeclared names
      → AllDeclared (mark n names)
  AllDeclared-mark n b names e h m i = elim ((mark_iff m n names).0 i) [
    | inl j ↦ (b, rw j e)
    | inr j ↦ h m j
  ]

  -- A step that gives only names of declared facts.
  abbrev pub Keeps : Problem F ⊎ List Text → Type 0
  Keeps (inl p) = Unit
  Keeps (inr names) = AllDeclared names

  Keeps->> : (m : Problem F ⊎ Unit {0}) (k : Problem F ⊎ List Text) → Keeps k → Keeps (m >> k)
  unfolding ◌>>◌
  Keeps->> (inl p) k h = tt
  Keeps->> (inr u) k h = h

  Keeps->>= :
      (m : Problem F ⊎ List Text) (f : List Text → Problem F ⊎ List Text)
      → Keeps m
      → ((r : List Text) → AllDeclared r → Keeps (f r))
      → Keeps (m >>= f)
  unfolding ◌>>=◌
  Keeps->>= (inl p) f h k = tt
  Keeps->>= (inr r) f h k = k r h

  module _ (r : List Text) (h : AllDeclared r) (path : Text) where
    Keeps-comparison :
        (b : FactBinding F) (l : Leaf F) → Keeps (validate_fact_comparison facts r path b l)
    unfolding validate_fact_comparison
    Keeps-comparison b l = elim (Option-cases (entry (normalize l.fact_value) facts)) [
      | inl e ↦ rw (e, validate_fact_comparison) tt
      | inr (o, e) ↦
          rw (e, validate_fact_comparison)
            (Keeps->> _ _ (Keeps->> _ _ (AllDeclared-mark (normalize l.fact_value) o r e h)))
    ]

    Keeps-operand :
        ⦃fl : Float F⦄ (b : FactBinding F) (l : Leaf F) (op : Text)
        → Keeps (validate_operand facts r path b l op)
    unfolding validate_operand
    Keeps-operand b l op = elim (Bool-cases (op == "is_true" || op == "is_false")) [
      | inl i ↦ rw (validate_operand, i) (Keeps->> _ _ h)
      | inr i ↦ elim (Bool-cases (op == "in")) [
        | inl j ↦ rw (validate_operand, i, j) (Keeps->> _ _ (Keeps->> _ _ (Keeps->> _ _ h)))
        | inr j ↦ elim (Bool-cases (l.fact_value == "")) [
          | inl k ↦ elim (sum_cases (coerce_fact_value b l.value)) [
            | inl (p, c) ↦ rw (validate_operand, i, j, k, c) (Keeps->> _ _ (Keeps->> _ _ tt))
            | inr (v, c) ↦ rw (validate_operand, i, j, k, c) (Keeps->> _ _ (Keeps->> _ _ h))
          ]
          | inr k ↦
              rw (validate_operand, i, j, k) (Keeps->> _ _ (Keeps->> _ _ (Keeps-comparison b l)))
        ]
      ]
    ]

  Keeps-leaf :
      ⦃fl : Float F⦄ (r : List Text)
      → AllDeclared r
      → (path : Text) (l : Leaf F) → Keeps (validate_fact_leaf facts r path l)
  unfolding validate_fact_leaf
  Keeps-leaf r h path l = elim (Option-cases (entry (normalize l.fact) facts)) [
    | inl e ↦ rw (validate_fact_leaf, e) tt
    | inr (b, e) ↦ elim (Option-cases (ops_by_kind b.kind)) [
      | inl k ↦ rw (validate_fact_leaf, e, k) tt
      | inr (ops, k) ↦
          rw (validate_fact_leaf, e, k)
            (Keeps->> _ _ (
              Keeps-operand (mark (normalize l.fact) r)
                (AllDeclared-mark (normalize l.fact) b r e h) path b l (normalize l.op)))
    ]
  ]

  -- A node of a form, of which the children keep.
  Keeps-node :
      ⦃fl : Float F⦄ (f : Form) (conditions : List Text) (all any : Predicates F)
      (neg : MaybePredicate F) (l : Leaf F) (c : Text) (r : List Text)
      → AllDeclared r
      → (path : Text) → Keeps (validate_each facts conditions all r (path & ".all") 0)
      → Keeps (validate_each facts conditions any r (path & ".any") 0)
      → Keeps (validate_negated facts conditions neg r (path & ".not"))
      → Keeps (elim f as (λ x. Problem F ⊎ List Text) [
        | malformed ↦ inl (Problem.not_one_form path)
        | all_of ↦ validate_each facts conditions all r (path & ".all") 0
        | any_of ↦ validate_each facts conditions any r (path & ".any") 0
        | negated ↦ validate_negated facts conditions neg r (path & ".not")
        | condition ↦
            reject_if (not (elem (normalize c) conditions)) (Problem.undeclared_condition path c)
            >> inr r
        | comparison ↦ validate_fact_leaf facts r path l
      ])
  Keeps-node malformed conditions all any neg l c r h path x y z = tt
  Keeps-node all_of conditions all any neg l c r h path x y z = x
  Keeps-node any_of conditions all any neg l c r h path x y z = y
  Keeps-node negated conditions all any neg l c r h path x y z = z
  Keeps-node condition conditions all any neg l c r h path x y z = Keeps->> _ _ h
  Keeps-node comparison conditions all any neg l c r h path x y z = Keeps-leaf r h path l

  mutual
    unfolding validate_predicate

    Keeps-predicate :
        ⦃fl : Float F⦄ (conditions : List Text) (p : Predicate F) (r : List Text)
        → AllDeclared r
        → (path : Text) → Keeps (validate_predicate facts conditions p r path)
    Keeps-predicate conditions (node all any neg l c) r h path =
        Keeps-node (form_of all any neg l c) conditions all any neg l c r h path
          (Keeps-each conditions all r h (path & ".all") 0)
          (Keeps-each conditions any r h (path & ".any") 0)
          (Keeps-negated conditions neg r h (path & ".not"))

    Keeps-each :
        ⦃fl : Float F⦄ (conditions : List Text) (ps : Predicates F) (r : List Text)
        → AllDeclared r
        → (path : Text) (i : ℕ) → Keeps (validate_each facts conditions ps r path i)
    Keeps-each conditions nil r h path i = h
    Keeps-each conditions (cons p ps) r h path i =
        Keeps->>= (validate_predicate facts conditions p r (path & ("[" & (decimal i & "]")))) _
          (Keeps-predicate conditions p r h (path & ("[" & (decimal i & "]"))))
          (λ t k. Keeps-each conditions ps t k path (suc i))

    Keeps-negated :
        ⦃fl : Float F⦄ (conditions : List Text) (neg : MaybePredicate F) (r : List Text)
        → AllDeclared r
        → (path : Text) → Keeps (validate_negated facts conditions neg r path)
    Keeps-negated conditions nothing r h path = h
    Keeps-negated conditions (just p) r h path = Keeps-predicate conditions p r h path

  module _ ⦃fl : Float F⦄ (declared : List Text) where
    Keeps-guard :
        (m : MaybePredicate F) (r : List Text)
        → AllDeclared r
        → (path : Text) → Keeps (validate_guard facts declared m r path)
    unfolding validate_guard
    Keeps-guard nothing r h path = h
    Keeps-guard (just p) r h path = Keeps-predicate declared p r h path

    pub Keeps-routes :
        (routes : List (RouteSpec F)) (r : List Text)
        → AllDeclared r
        → Keeps (validate_route_rules facts declared r routes)
    unfolding validate_route_rules
    Keeps-routes [] r h = h
    Keeps-routes (x ∷ rest) r h = Keeps->> _ _ (
        Keeps->>= _ _ (Keeps-guard x.guard r h ("route " & (quote x.id & " when")))
          (λ t k. Keeps-routes rest t k))

    pub Keeps-denies :
        (index : VocabularyIndex) (denies : List (DenySpec F)) (r : List Text)
        → AllDeclared r
        → Keeps (validate_denies index facts declared r denies)
    unfolding validate_denies
    Keeps-denies index [] r h = h
    Keeps-denies index (x ∷ rest) r h = Keeps->> _ _ (
        Keeps->> _ _ (
          Keeps->> _ _ (
            Keeps->>= _ _ (Keeps-guard x.guard r h ("deny " & (quote x.id & " when")))
              (λ t k. Keeps-denies index rest t k))))

  pub Keeps-inr : (m : Problem F ⊎ List Text) (r : List Text) → Keeps m → m ≡ inr r → AllDeclared r
  Keeps-inr (inl p) r h e = cc
  Keeps-inr (inr t) r h e = let same : t ≡ r = cc in rw (← same) h
