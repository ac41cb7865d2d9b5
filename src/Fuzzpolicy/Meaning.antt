-- ===== src/Fuzzpolicy/Meaning.antt =====
-- internal/fuzzpolicy/generated_policy.go: what it means that a rule applies and that a request is
-- permitted, as relations between the worlds before and after.
use cervo_rules.Prelude.{
  ◌≡◌, refl, ◌↔◌, ◌⊎◌, inl, inr, Bool, true, false, Option, none, some, List, [], ◌∷◌, arith, ap,
  sym, ◌∙◌,
}
use cervo_rules.Text.{Text}
use cervo_rules.Core.Errors.{Failure}
use cervo_rules.Core.Types.{Request}
use cervo_rules.Core.Conditions.{Condition, Verdict}
use cervo_rules.Fuzzpolicy.Rules.{FactFrame, Match}
use cervo_rules.Fuzzpolicy.Engine.{
  Evaluator, RuleMatcher, after_condition, hold_each, conditions_hold, run_matcher, rule_applies,
}

module _ {W : Type 0} where
  -- The evaluator answers each condition in turn with yes.
  abbrev pub AllHold : Evaluator W → Request → List Condition → W → W → Type 0
  AllHold ev req [] w w' = w ≡ w'
  AllHold ev req (c ∷ rest) w w' =
      (v : W) × (ev c req w ≡ ((true, none), v)) × AllHold ev req rest v w'

  -- It answers some of the first conditions with yes, and the next with no.
  abbrev pub OneFails : Evaluator W → Request → List Condition → W → W → Type 0
  OneFails ev req [] w w' = ⊥
  OneFails ev req (c ∷ rest) w w' =
      (ev c req w ≡ ((false, none), w'))
      ⊎ ((v : W) × (ev c req w ≡ ((true, none), v)) × OneFails ev req rest v w')

  verdict_cases :
      (p : Verdict × W)
      → ((h : Bool) × (err : Failure) × (v : W) × (p ≡ ((h, some err), v)))
        ⊎ (((v : W) × (p ≡ ((true, none), v))) ⊎ ((v : W) × (p ≡ ((false, none), v))))
  verdict_cases ((h, some err), v) = inl (h, err, v, refl)
  verdict_cases ((true, none), v) = inr (inl (v, refl))
  verdict_cases ((false, none), v) = inr (inr (v, refl))

  hold_each-true_iff :
      (ev : Evaluator W) (req : Request) (cs : List Condition) (w w' : W)
      → (hold_each ev cs req w ≡ (inr true, w')) ↔ AllHold ev req cs w w'
  unfolding hold_each after_condition
  hold_each-true_iff ev req [] w w' = ground arith
  hold_each-true_iff ev req (c ∷ cs) w w' = elim (verdict_cases (ev c req w)) [
    | inl (h, err, v, e) ↦ rw (e, hold_each) (λ k. cc, λ (v, k, r). cc)
    | inr (inl (v, e)) ↦
        rw (e, hold_each)
          (
            λ k. (v, refl, (hold_each-true_iff ev req cs v w').0 k),
            λ (u, k, r).
                (hold_each-true_iff ev req cs v w').1
                  (rw (← (ap (λ (x : Verdict × W). x.1) k)) at r),
          )
    | inr (inr (v, e)) ↦ rw (e, hold_each) (λ k. cc, λ (v, k, r). cc)
  ]

  hold_each-false_iff :
      (ev : Evaluator W) (req : Request) (cs : List Condition) (w w' : W)
      → (hold_each ev cs req w ≡ (inr false, w')) ↔ OneFails ev req cs w w'
  unfolding hold_each after_condition
  hold_each-false_iff ev req [] w w' = ground arith
  hold_each-false_iff ev req (c ∷ cs) w w' = elim (verdict_cases (ev c req w)) [
    | inl (h, err, v, e) ↦ rw (e, hold_each) (λ k. cc, elim [ inl k ↦ cc | inr (v, k, r) ↦ cc ])
    | inr (inl (v, e)) ↦
        rw (e, hold_each)
          (
            λ k. inr (v, refl, (hold_each-false_iff ev req cs v w').0 k),
            elim [
              | inl k ↦ cc
              | inr (u, k, r) ↦
                  (hold_each-false_iff ev req cs v w').1
                    (rw (← (ap (λ (x : Verdict × W). x.1) k)) at r)
            ],
          )
    | inr (inr (v, e)) ↦ rw (e, hold_each) (λ k. inl (cc), elim [ inl k ↦ cc | inr (v, k, r) ↦ cc ])
  ]

  abbrev pub ConditionsHold : Option (Evaluator W) → Request → List Condition → W → W → Type 0
  ConditionsHold conditions req [] w w' = w ≡ w'
  ConditionsHold none req (c ∷ cs) w w' = ⊥
  ConditionsHold (some ev) req (c ∷ cs) w w' = AllHold ev req (c ∷ cs) w w'

  abbrev pub ConditionsFail : Option (Evaluator W) → Request → List Condition → W → W → Type 0
  ConditionsFail conditions req [] w w' = ⊥
  ConditionsFail none req (c ∷ cs) w w' = ⊥
  ConditionsFail (some ev) req (c ∷ cs) w w' = OneFails ev req (c ∷ cs) w w'

  conditions_hold-true_iff :
      (conditions : Option (Evaluator W)) (req : Request) (cs : List Condition) (w w' : W)
      → (conditions_hold conditions cs req w ≡ (inr true, w'))
        ↔ ConditionsHold conditions req cs w w'
  unfolding conditions_hold
  conditions_hold-true_iff none req [] w w' = ground arith
  conditions_hold-true_iff (some ev) req [] w w' = ground arith
  conditions_hold-true_iff none req (c ∷ cs) w w' = ground arith
  conditions_hold-true_iff (some ev) req (c ∷ cs) w w' = hold_each-true_iff ev req (c ∷ cs) w w'

  conditions_hold-false_iff :
      (conditions : Option (Evaluator W)) (req : Request) (cs : List Condition) (w w' : W)
      → (conditions_hold conditions cs req w ≡ (inr false, w'))
        ↔ ConditionsFail conditions req cs w w'
  unfolding conditions_hold
  conditions_hold-false_iff none req [] w w' = ground arith
  conditions_hold-false_iff (some ev) req [] w w' = ground arith
  conditions_hold-false_iff none req (c ∷ cs) w w' = ground arith
  conditions_hold-false_iff (some ev) req (c ∷ cs) w w' = hold_each-false_iff ev req (c ∷ cs) w w'

  answer_cases :
      (p : (Failure ⊎ Bool) × W)
      → ((err : Failure) × (v : W) × (p ≡ (inl err, v)))
        ⊎ (((v : W) × (p ≡ (inr true, v))) ⊎ ((v : W) × (p ≡ (inr false, v))))
  answer_cases (inl err, v) = inl (err, v, refl)
  answer_cases (inr true, v) = inr (inl (v, refl))
  answer_cases (inr false, v) = inr (inr (v, refl))

  -- A rule answers with an error or with a match.
  pub match_cases :
      (p : (Failure ⊎ Match) × W)
      → ((err : Failure) × (v : W) × (p ≡ (inl err, v)))
        ⊎ (((d : Text) × (v : W) × (p ≡ (inr (true, d), v)))
            ⊎ ((d : Text) × (v : W) × (p ≡ (inr (false, d), v))))
  match_cases (inl err, v) = inl (err, v, refl)
  match_cases (inr (true, d), v) = inr (inl (d, v, refl))
  match_cases (inr (false, d), v) = inr (inr (d, v, refl))

module _ {F W : Type 0} where
  -- The predicate of a rule, or none, answers `b`.
  abbrev pub MatcherSays : Option (RuleMatcher F W) → Bool → Request → FactFrame F → W → W → Type 0
  MatcherSays none b req f w w' = (b ≡ true) × (w ≡ w')
  MatcherSays (some m) b req f w w' = (detail : Text) × (m req f w ≡ (inr (b, detail), w'))

  -- The rule's conditions hold and its predicate matches.
  abbrev pub RuleHolds :
      Option (Evaluator W)
      → List Condition
      → Option (RuleMatcher F W)
      → Request
      → FactFrame F
      → W
      → W
      → Type 0
  RuleHolds conditions cs m req f w w' =
      (v : W) × ConditionsHold conditions req cs w v × MatcherSays m true req f v w'

  -- A condition answers no, or all hold and the predicate does not match.
  abbrev pub RuleFails :
      Option (Evaluator W)
      → List Condition
      → Option (RuleMatcher F W)
      → Request
      → FactFrame F
      → W
      → W
      → Type 0
  RuleFails conditions cs m req f w w' =
      ConditionsFail conditions req cs w w'
      ⊎ ((v : W) × ConditionsHold conditions req cs w v × MatcherSays m false req f v w')

  module _ (conditions : Option (Evaluator W)) (cs : List Condition) (req : Request)
      (f : FactFrame F) where
    run_matcher-true_iff :
        (m : Option (RuleMatcher F W)) (v w' : W)
        → ((d : Text) × (run_matcher (inr true) m req f v ≡ (inr (true, d), w')))
          ↔ MatcherSays m true req f v w'
    unfolding run_matcher
    run_matcher-true_iff none v w' = (λ (d, k). (refl, ground arith), λ (e, k). ("", ground arith))
    run_matcher-true_iff (some m) v w' = (λ k. k, λ k. k)

    run_matcher-false_iff :
        (m : Option (RuleMatcher F W)) (v w' : W)
        → ((d : Text) × (run_matcher (inr true) m req f v ≡ (inr (false, d), w')))
          ↔ MatcherSays m false req f v w'
    unfolding run_matcher
    run_matcher-false_iff none v w' = (λ (d, k). cc, λ (e, k). cc)
    run_matcher-false_iff (some m) v w' = (λ k. k, λ k. k)

    rule_applies-of :
        (m : Option (RuleMatcher F W)) (w : W) {a : Failure ⊎ Bool} {v : W}
        → conditions_hold conditions cs req w ≡ (a, v)
        → rule_applies conditions cs m req f w ≡ run_matcher a m req f v
    unfolding rule_applies
    rule_applies-of m w e = rw e

    -- A rule applies exactly where its conditions hold and its predicate matches.
    pub rule_applies-true_iff :
        (m : Option (RuleMatcher F W)) (w w' : W)
        → ((d : Text) × (rule_applies conditions cs m req f w ≡ (inr (true, d), w')))
          ↔ RuleHolds conditions cs m req f w w'
    unfolding run_matcher
    rule_applies-true_iff m w w' = (
      λ (d, k). elim (answer_cases (conditions_hold conditions cs req w)) [
        | inl (err, v, e) ↦ cc (rule_applies-of m w e)
        | inr (inl (v, e)) ↦ (
          v,
          (conditions_hold-true_iff conditions req cs w v).0 e,
          (run_matcher-true_iff m v w').0 (d, sym (rule_applies-of m w e) ∙ k),
        )
        | inr (inr (v, e)) ↦ cc (rule_applies-of m w e)
      ],
      λ (v, h, k).
          let (d, j) = (run_matcher-true_iff m v w').1 k in
          (d, rule_applies-of m w ((conditions_hold-true_iff conditions req cs w v).1 h) ∙ j),
    )

    -- It does not apply, without an error, exactly where a condition answers no or all hold and the
    -- predicate does not match.
    pub rule_applies-false_iff :
        (m : Option (RuleMatcher F W)) (w w' : W)
        → ((d : Text) × (rule_applies conditions cs m req f w ≡ (inr (false, d), w')))
          ↔ RuleFails conditions cs m req f w w'
    unfolding run_matcher
    rule_applies-false_iff m w w' = (
      λ (d, k). elim (answer_cases (conditions_hold conditions cs req w)) [
        | inl (err, v, e) ↦ cc (rule_applies-of m w e)
        | inr (inl (v, e)) ↦ inr (
          v,
          (conditions_hold-true_iff conditions req cs w v).0 e,
          (run_matcher-false_iff m v w').0 (d, sym (rule_applies-of m w e) ∙ k),
        )
        | inr (inr (v, e)) ↦ inl (
            (conditions_hold-false_iff conditions req cs w w').0 (
              e
              ∙ ap (λ (x : W). (inr false, x))
                  (ap (λ (x : (Failure ⊎ Match) × W). x.1) (sym (rule_applies-of m w e) ∙ k))))
      ],
      elim [
        | inl h ↦ ("", rule_applies-of m w ((conditions_hold-false_iff conditions req cs w w').1 h))
        | inr (v, h, k) ↦
            let (d, j) = (run_matcher-false_iff m v w').1 k in
            (d, rule_applies-of m w ((conditions_hold-true_iff conditions req cs w v).1 h) ∙ j)
      ],
    )
