-- ===== src/Fuzzpolicy/Trace.antt =====
-- internal/fuzzpolicy/generated_policy.go: the options of a decision explain it and do not change it.
use cervo_rules.Prelude.{
  ◌≡◌, refl, ◌⊎◌, inl, inr, Bool, true, false, Option, none, some, List, [], ◌∷◌, arith, Bool-cases,
  Option-cases, sum_cases, ap, sym, ◌∙◌,
}
use cervo_rules.Prelude.Maps.{entry}
use cervo_rules.Core.Errors.{Failure}
use cervo_rules.Core.Types.{Request, Decision}
use cervo_rules.Core.Decisions.{DecisionOptions, DecisionTraceStep, DecisionResult}
use cervo_rules.Float.{Float}
use cervo_rules.Fuzzpolicy.Rules.{FactFrame, Match, new_fact_frame}
use cervo_rules.Fuzzpolicy.Engine.{
  Evaluator, Context, GeneratedRoute, GeneratedDeny, GeneratedEngine, DenyOutcome, failed, denied,
  passed, rule_applies, refused, permitted, unrouted_reason, is_elsewhere, finish, after_deny,
  run_denies, add_step, decide_route, after_route, after_denies, decide_with_facts,
  decide_with_options,
}
use cervo_rules.Fuzzpolicy.Decides.{finish-decision, is_barred, not_trusted, not_eligible}

-- The decision or the error of an answer, without its explanation.
abbrev pub decision_of : Failure ⊎ DecisionResult → Failure ⊎ Decision
decision_of (inl err) = inl err
decision_of (inr res) = inr res.decision

-- How the deny rules end, without the trace.
abbrev bare : DenyOutcome → DenyOutcome
bare (failed err) = failed err
bare (denied reason steps) = denied reason []
bare (passed steps) = passed []

module _ {F W : Type 0} where
  after_deny-bare :
      (a b : Bool) (d : GeneratedDeny F W) (m : Failure ⊎ Match)
      (next next' : List DecisionTraceStep → W → DenyOutcome × W) (s s' : List DecisionTraceStep)
      (v : W)
      → ((t t' : List DecisionTraceStep) (u : W)
          → (bare (next t u).0 ≡ bare (next' t' u).0) × ((next t u).1 ≡ (next' t' u).1))
      → (bare (after_deny a d m next s v).0 ≡ bare (after_deny b d m next' s' v).0)
        × ((after_deny a d m next s v).1 ≡ (after_deny b d m next' s' v).1)
  unfolding after_deny
  after_deny-bare a b d (inl err) next next' s s' v h = (refl, refl)
  after_deny-bare a b d (inr (true, t)) next next' s s' v h = (refl, refl)
  after_deny-bare a b d (inr (false, t)) next next' s s' v h =
      h (add_step a d.id (false, t) s) (add_step b d.id (false, t) s') v

  run_denies-bare :
      (conditions : Option (Evaluator W)) (a b : Bool) (req : Request) (f : FactFrame F)
      (ds : List (GeneratedDeny F W)) (s s' : List DecisionTraceStep) (w : W)
      → (bare (run_denies conditions a req f ds s w).0
          ≡ bare (run_denies conditions b req f ds s' w).0)
        × ((run_denies conditions a req f ds s w).1 ≡ (run_denies conditions b req f ds s' w).1)
  unfolding run_denies
  run_denies-bare conditions a b req f [] s s' w = (refl, refl)
  run_denies-bare conditions a b req f (d ∷ ds) s s' w = elim (Bool-cases (is_elsewhere d req)) [
    | inl e ↦ rw (e, run_denies) (run_denies-bare conditions a b req f ds s s' w)
    | inr e ↦
        rw (e, run_denies)
          (after_deny-bare a b d (rule_applies conditions d.requires d.matcher req f w).0
            (run_denies conditions a req f ds) (run_denies conditions b req f ds) s s'
            (rule_applies conditions d.requires d.matcher req f w).1
            (λ t t' u. run_denies-bare conditions a b req f ds t t' u))
  ]

  module _ (e : GeneratedEngine F W) (req : Request) (o o' : DecisionOptions) where
    finish-same :
        (d : Decision) (s s' : List DecisionTraceStep)
        → ◌≡◌ {A = Failure ⊎ Decision}
            (inr (finish req d o s).decision)
            (inr (finish req d o' s').decision)
    finish-same d s s' =
        ap (λ (x : Decision). inr x) (finish-decision req d o s ∙ sym (finish-decision req d o' s'))

    after_route-decision :
        (f : FactFrame F) (r : GeneratedRoute F W) (m : Failure ⊎ Match)
        (s s' : List DecisionTraceStep)
        → decision_of (after_route e req o r m s) ≡ decision_of (after_route e req o' r m s')
    unfolding after_route
    after_route-decision f r (inl err) s s' = refl
    after_route-decision f r (inr (true, t)) s s' =
        finish-same (permitted e r) (add_step o.trace r.id (true, t) s)
          (add_step o'.trace r.id (true, t) s')
    after_route-decision f r (inr (false, t)) s s' =
        finish-same (not_eligible e req f) (add_step o.trace r.id (false, t) s)
          (add_step o'.trace r.id (false, t) s')

    decide_route-decision :
        (f : FactFrame F) (r : GeneratedRoute F W) (s s' : List DecisionTraceStep) (w : W)
        → (decision_of (decide_route e req o f r s w).0
            ≡ decision_of (decide_route e req o' f r s' w).0)
          × ((decide_route e req o f r s w).1 ≡ (decide_route e req o' f r s' w).1)
    unfolding decide_route
    decide_route-decision f r s s' w = elim (Bool-cases (is_barred e req f r)) [
      | inl b ↦ rw (b, decide_route) (finish-same (not_trusted e req f) s s', refl)
      | inr b ↦
          rw (b, decide_route)
            (
              after_route-decision f r (rule_applies e.conditions r.requires r.matcher req f w).0 s
                  s',
              refl,
            )
    ]

    after_denies-decision :
        (f : FactFrame F) (d d' : DenyOutcome) (w : W)
        → bare d ≡ bare d'
        → (decision_of (after_denies e req o f d w).0
            ≡ decision_of (after_denies e req o' f d' w).0)
          × ((after_denies e req o f d w).1 ≡ (after_denies e req o' f d' w).1)
    unfolding after_denies
    after_denies-decision f (failed err) (failed err') w h = ground arith
    after_denies-decision f (denied reason t) (denied reason' t') w h =
        let j : reason ≡ reason' = cc in rw j (finish-same (refused reason') t t', refl)
    after_denies-decision f (passed t) (passed t') w h =
        elim (Option-cases (entry req.operation e.routes)) [
          | inl n ↦ rw (n, after_denies) (finish-same (refused (unrouted_reason e req)) t t', refl)
          | inr (r, n) ↦ rw (n, after_denies) (decide_route-decision f r t t' w)
        ]
    after_denies-decision f (failed err) (denied reason t) w h = cc
    after_denies-decision f (failed err) (passed t) w h = cc
    after_denies-decision f (denied reason t) (failed err) w h = cc
    after_denies-decision f (denied reason t) (passed t') w h = cc
    after_denies-decision f (passed t) (failed err) w h = cc
    after_denies-decision f (passed t) (denied reason t') w h = cc

    decide_with_facts-decision :
        (f : FactFrame F) (w : W)
        → (decision_of (decide_with_facts e req o f w).0
            ≡ decision_of (decide_with_facts e req o' f w).0)
          × ((decide_with_facts e req o f w).1 ≡ (decide_with_facts e req o' f w).1)
    unfolding decide_with_facts
    decide_with_facts-decision f w =
        let (same, world) = run_denies-bare e.conditions o.trace o'.trace req f e.denies [] [] w in
        ground (
          arith,
          after_denies-decision f (run_denies e.conditions o.trace req f e.denies [] w).0
              (run_denies e.conditions o'.trace req f e.denies [] w).0
              (run_denies e.conditions o.trace req f e.denies [] w).1 same,
          world,
        )

  -- The options of a decision change neither the decision nor the error, and the world is left the
  -- same.
  pub decide_with_options-decision :
      ⦃fl : Float F⦄ (e : GeneratedEngine F W) (ctx : Context) (req : Request)
      (o o' : DecisionOptions) (w : W)
      → (decision_of (decide_with_options e ctx req o w).0
          ≡ decision_of (decide_with_options e ctx req o' w).0)
        × ((decide_with_options e ctx req o w).1 ≡ (decide_with_options e ctx req o' w).1)
  unfolding decide_with_options
  decide_with_options-decision e (some err) req o o' w = (refl, refl)
  decide_with_options-decision e none req o o' w = elim (sum_cases (new_fact_frame {F = F} req)) [
    | inl (err, n) ↦ rw (n, decide_with_options) (refl, refl)
    | inr (f, n) ↦ rw (n, decide_with_options) (decide_with_facts-decision e req o o' f w)
  ]
