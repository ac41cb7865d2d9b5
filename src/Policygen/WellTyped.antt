-- ===== src/Policygen/WellTyped.antt =====
-- internal/policygen/facts.go: what it means that a predicate is well typed, and the agreement of
-- validatePredicate.
use cervo_rules.Prelude.{
  ℕ, suc, ◌≡◌, refl, ◌≢◌, ◌↔◌, ◌⊎◌, inl, inr, Bool, true, false, not, ◌&◌, List, ◌==◌, arith, elem,
  elem_iff, Memᴰ, nat_beq, ◌+◌, if◌then◌else◌, sum_cases,
}
use cervo_rules.Prelude.Results.{◌>>=◌, ◌>>◌, reject_if, Accepts}
use cervo_rules.Text.{Text, normalize, decimal}
use cervo_rules.Float.{Float}
use cervo_rules.Policygen.Schema.{
  Leaf, Predicate, Predicates, MaybePredicate, node, nil, cons, nothing, just, FactIndex,
}
use cervo_rules.Policygen.Problem.{Problem}
use cervo_rules.Policygen.Predicate.{
  Form, malformed, all_of, any_of, negated, condition, comparison, count, is_nil, is_nothing, forms,
  switch_of, form_of, validate_fact_leaf, validate_predicate, validate_each, validate_negated,
}
use cervo_rules.Policygen.Typing.{LeafFits, rejected, accepted}
use cervo_rules.Policygen.Leaves.{check_iff, not_iff, validate_fact_leaf_iff}

-- A node with these parts has exactly this form: one part is there and the others are not.
abbrev pub IsForm : Form → Bool → Bool → Bool → Bool → Bool → Type 0
IsForm malformed a b c d e = ⊥
IsForm all_of a b c d e = (a ≡ true) × (b ≡ false) × (c ≡ false) × (d ≡ false) × (e ≡ false)
IsForm any_of a b c d e = (a ≡ false) × (b ≡ true) × (c ≡ false) × (d ≡ false) × (e ≡ false)
IsForm negated a b c d e = (a ≡ false) × (b ≡ false) × (c ≡ true) × (d ≡ false) × (e ≡ false)
IsForm condition a b c d e = (a ≡ false) × (b ≡ false) × (c ≡ false) × (d ≡ false) × (e ≡ true)
IsForm comparison a b c d e = (a ≡ false) × (b ≡ false) × (c ≡ false) × (d ≡ true) × (e ≡ false)

module _ {F : Type 0} ⦃fl : Float F⦄ (facts : FactIndex F) (conditions : List Text) where
  -- A predicate over the declared facts and conditions: a node of exactly one form, with what it holds.
  unfoldable mutual
    pub IsTyped : Predicate F → Type 0
    IsTyped (node all any neg l c) =
        (f : Form) × IsForm f (not (is_nil all)) (not (is_nil any)) (not (is_nothing neg))
          (not (l.fact == "")) (not (c == ""))
        × elim f [
          | malformed ↦ ⊥
          | all_of ↦ AllTyped all
          | any_of ↦ AllTyped any
          | negated ↦ MaybeTyped neg
          | condition ↦ Memᴰ (normalize c) conditions
          | comparison ↦ LeafFits facts l
        ]

    pub AllTyped : Predicates F → Type 0
    AllTyped nil = Unit
    AllTyped (cons p ps) = IsTyped p × AllTyped ps

    pub MaybeTyped : MaybePredicate F → Type 0
    MaybeTyped nothing = Unit
    MaybeTyped (just p) = IsTyped p

-- The form of a node by the flags of its parts.
abbrev flagged : Bool → Bool → Bool → Bool → Bool → Form
flagged a b c d e =
    if nat_beq (count a + count b + count c + count d + count e) 1
    then if a
      then all_of
      else if b
      then any_of
      else if c
      then negated
      else if e
      then condition
      else comparison
    else malformed

flagged-IsForm : (a b c d e : Bool) (f : Form) → IsForm f a b c d e → flagged a b c d e ≡ f
flagged-IsForm a b c d e malformed h = absurd h
flagged-IsForm a b c d e all_of (h, i, j, k, l) = rw (h, i, j, k, l) refl
flagged-IsForm a b c d e any_of (h, i, j, k, l) = rw (h, i, j, k, l) refl
flagged-IsForm a b c d e negated (h, i, j, k, l) = rw (h, i, j, k, l) refl
flagged-IsForm a b c d e condition (h, i, j, k, l) = rw (h, i, j, k, l) refl
flagged-IsForm a b c d e comparison (h, i, j, k, l) = rw (h, i, j, k, l) refl

well_formed : (a b c d e : Bool) (f : Form) → IsForm f a b c d e → f ≢ malformed
well_formed a b c d e malformed h = absurd h
well_formed a b c d e all_of h = λ k. cc
well_formed a b c d e any_of h = λ k. cc
well_formed a b c d e negated h = λ k. cc
well_formed a b c d e condition h = λ k. cc
well_formed a b c d e comparison h = λ k. cc

-- Where the form is not malformed, the node has it.
IsForm-flagged :
    (a b c d e : Bool) → (flagged a b c d e ≡ malformed) ⊎ IsForm (flagged a b c d e) a b c d e
IsForm-flagged true b c d e = ground arith
IsForm-flagged false true c d e = ground arith
IsForm-flagged false false c d e = ground arith

-- A node has at most one form, the one that its flags give.
unique_form :
    (P : Form → Type 0) (a b c d e : Bool)
    → ((f : Form) × IsForm f a b c d e × P f)
      ↔ ((flagged a b c d e ≢ malformed) × P (flagged a b c d e))
unique_form P a b c d e = (
  λ (f, j, t). rw (flagged-IsForm a b c d e f j) (well_formed a b c d e f j, t),
  λ (n, t). elim (IsForm-flagged a b c d e) [
    | inl m ↦ absurd (n m)
    | inr j ↦ (flagged a b c d e, j, t)
  ],
)

member_iff :
    {E B : Type 0} (x : Text) (xs : List Text) (e : E) (k : E ⊎ B)
    → Accepts (reject_if (not (elem x xs)) e >> k) ↔ (Memᴰ x xs × Accepts k)
member_iff x xs e k = (
  λ h. let (m, t) = (check_iff _ e k).0 h in ((elem_iff x xs).0 ((not_iff _).0 m), t),
  λ (m, t). (check_iff _ e k).1 ((not_iff _).1 ((elem_iff x xs).1 m), t),
)

module _ {F : Type 0} ⦃fl : Float F⦄ (facts : FactIndex F) (conditions : List Text) where
  -- What a node of a form must hold.
  abbrev Content : Predicates F → Predicates F → MaybePredicate F → Leaf F → Text → Form → Type 0
  Content all any neg l c f = elim f [
    | malformed ↦ ⊥
    | all_of ↦ AllTyped facts conditions all
    | any_of ↦ AllTyped facts conditions any
    | negated ↦ MaybeTyped facts conditions neg
    | condition ↦ Memᴰ (normalize c) conditions
    | comparison ↦ LeafFits facts l
  ]

  -- The validation of a node, where the validations of its parts are right.
  node_iff :
      (all any : Predicates F) (neg : MaybePredicate F) (l : Leaf F) (c : Text)
      (referenced : List Text) (path : Text)
      → (Accepts (validate_each facts conditions all referenced (path & ".all") 0)
          ↔ AllTyped facts conditions all)
      → (Accepts (validate_each facts conditions any referenced (path & ".any") 0)
          ↔ AllTyped facts conditions any)
      → (Accepts (validate_negated facts conditions neg referenced (path & ".not"))
          ↔ MaybeTyped facts conditions neg)
      → Accepts (validate_predicate facts conditions (node all any neg l c) referenced path)
        ↔ IsTyped facts conditions (node all any neg l c)
  unfolding validate_predicate form_of forms switch_of IsTyped
  node_iff all any neg l c referenced path h i j =
      let flags =
        flagged (not (is_nil all)) (not (is_nil any)) (not (is_nothing neg)) (not (l.fact == ""))
          (not (c == "")) in
      let unique =
        unique_form (Content all any neg l c) (not (is_nil all)) (not (is_nil any))
          (not (is_nothing neg)) (not (l.fact == "")) (not (c == "")) in
      let (to, from) = branch flags in (λ x. unique.1 (to x), λ x. from (unique.0 x))
    where
      branch :
          (f : Form)
          → Accepts (elim f as (λ x. Problem F ⊎ List Text) [
            | malformed ↦ inl (Problem.not_one_form path)
            | all_of ↦ validate_each facts conditions all referenced (path & ".all") 0
            | any_of ↦ validate_each facts conditions any referenced (path & ".any") 0
            | negated ↦ validate_negated facts conditions neg referenced (path & ".not")
            | condition ↦
                reject_if
                  (not (elem (normalize c) conditions))
                  (Problem.undeclared_condition path c)
                >> inr referenced
            | comparison ↦ validate_fact_leaf facts referenced path l
          ])
            ↔ ((f ≢ malformed) × Content all any neg l c f)
      branch malformed = (λ x. absurd x, λ (n, _). absurd (n refl))
      branch all_of = (λ x. (λ e. cc, h.0 x), λ (_, x). h.1 x)
      branch any_of = (λ x. (λ e. cc, i.0 x), λ (_, x). i.1 x)
      branch negated = (λ x. (λ e. cc, j.0 x), λ (_, x). j.1 x)
      branch condition = (
        λ x. (λ e. cc, ((member_iff (normalize c) conditions _ _).0 x).0),
        λ (_, x). (member_iff (normalize c) conditions _ _).1 (x, tt),
      )
      branch comparison = (
        λ x. (λ e. cc, (validate_fact_leaf_iff facts referenced path l).0 x),
        λ (_, x). (validate_fact_leaf_iff facts referenced path l).1 x,
      )

  mutual
    unfolding validate_predicate IsTyped ◌>>=◌

    predicate_iff :
        (p : Predicate F) (referenced : List Text) (path : Text)
        → Accepts (validate_predicate facts conditions p referenced path)
          ↔ IsTyped facts conditions p
    predicate_iff (node all any neg l c) referenced path =
        node_iff all any neg l c referenced path (each_iff all referenced (path & ".all") 0)
          (each_iff any referenced (path & ".any") 0) (negated_iff neg referenced (path & ".not"))

    each_iff :
        (ps : Predicates F) (referenced : List Text) (path : Text) (i : ℕ)
        → Accepts (validate_each facts conditions ps referenced path i)
          ↔ AllTyped facts conditions ps
    each_iff nil referenced path i = (λ h. tt, λ h. tt)
    each_iff (cons p ps) referenced path i =
        let here = predicate_iff p referenced (path & ("[" & (decimal i & "]"))) in
        elim (sum_cases
          (validate_predicate facts conditions p referenced (path & ("[" & (decimal i & "]"))))) [
            | inl (e, k) ↦ rw k (λ x. absurd x, λ (h, _). absurd (rejected _ k (here.1 h)))
            | inr (r, k) ↦ rw k (
              λ x. (here.0 (accepted _ k), (each_iff ps r path (suc i)).0 x),
              λ (h, t). (each_iff ps r path (suc i)).1 t,
            )
          ]

    negated_iff :
        (neg : MaybePredicate F) (referenced : List Text) (path : Text)
        → Accepts (validate_negated facts conditions neg referenced path)
          ↔ MaybeTyped facts conditions neg
    negated_iff nothing referenced path = (λ h. tt, λ h. tt)
    negated_iff (just p) referenced path = predicate_iff p referenced path

  -- The validation of a predicate accepts exactly the predicates that are typed over the declared facts
  -- and conditions.
  pub validate_predicate_iff :
      (p : Predicate F) (referenced : List Text) (path : Text)
      → Accepts (validate_predicate facts conditions p referenced path) ↔ IsTyped facts conditions p
  validate_predicate_iff p referenced path = predicate_iff p referenced path
