-- ===== src/Fuzzpolicy/Agreement.antt =====
-- internal/fuzzpolicy/generated_policy.go: the engine decides what the policy prescribes.
use cervo_rules.Prelude.{
  ◌≡◌, refl, ◌↔◌, ◌⊎◌, inl, inr, none, some, List, [], arith, sum_cases, sym, subst,
}
use cervo_rules.Text.{Text}
use cervo_rules.Core.Errors.{Failure}
use cervo_rules.Core.Types.{Request, Decision}
use cervo_rules.Core.Decisions.{DecisionOptions, DecisionTraceStep, DecisionResult}
use cervo_rules.Float.{Float}
use cervo_rules.Fuzzpolicy.Rules.{FactFrame, new_fact_frame}
use cervo_rules.Fuzzpolicy.Engine.{
  Context, GeneratedEngine, DenyOutcome, failed, denied, passed, refused, run_denies, after_denies,
  decide_with_facts, decide_with_options,
}
use cervo_rules.Fuzzpolicy.Denies.{
  DeniesPass, DeniedFor, run_denies-passed_iff, run_denies-denied_iff,
}
use cervo_rules.Fuzzpolicy.Decides.{Decides, Answers, finish-Answers, after_denies-passed_iff}

inr_injective : {A B : Type 0} {a b : B} → ◌≡◌ {A = A ⊎ B} (inr a) (inr b) → a ≡ b
inr_injective h = cc

module _ {W : Type 0} where
  outcome_cases :
      (p : DenyOutcome × W)
      → ((err : Failure) × (v : W) × (p ≡ (failed err, v)))
        ⊎ (((reason : Text) × (s : List DecisionTraceStep) × (v : W) × (p ≡ (denied reason s, v)))
            ⊎ ((s : List DecisionTraceStep) × (v : W) × (p ≡ (passed s, v))))
  outcome_cases (failed err, v) = inl (err, v, refl)
  outcome_cases (denied reason s, v) = inr (inl (reason, s, v, refl))
  outcome_cases (passed s, v) = inr (inr (s, v, refl))

module _ {F W : Type 0} (e : GeneratedEngine F W) (req : Request) (f : FactFrame F) where
  module _ (options : DecisionOptions) (w w' : W) where
    abbrev loop : DenyOutcome × W
    loop = run_denies e.conditions options.trace req f e.denies [] w

    passes-answer :
        {o : DenyOutcome} {v u : W}
        → loop ≡ (o, v)
        → DeniesPass e.conditions req f e.denies w u
        → (s : List DecisionTraceStep) × (o ≡ passed s) × (v ≡ u)
    passes-answer {u = u} k h =
        let (s, j) = (run_denies-passed_iff e.conditions options.trace req f e.denies [] w u).1 h in
        (s, ground arith, ground arith)

    denied-answer :
        {o : DenyOutcome} {v : W} (reason : Text)
        → loop ≡ (o, v)
        → DeniedFor e.conditions req f reason e.denies w w'
        → (s : List DecisionTraceStep) × (o ≡ denied reason s) × (v ≡ w')
    denied-answer reason k h =
        let (s, j) =
          (run_denies-denied_iff e.conditions options.trace req f reason e.denies [] w w').1 h in
        (s, ground arith, ground arith)

    outcome_agrees :
        (d : Decision) (o : DenyOutcome) (v : W)
        → loop ≡ (o, v)
        → Answers (after_denies e req options f o v) w' d ↔ Decides e req f w w' d
    unfolding after_denies
    outcome_agrees d (failed err) v k = (
      λ (res, h, _). cc,
      elim [
        | inl (reason, h, _) ↦ let (s, j, _) = denied-answer reason k h in cc
        | inr (u, h, _) ↦ let (s, j, _) = passes-answer k h in cc
      ],
    )
    outcome_agrees d (denied reason s) v k = (
      λ h.
          let (j, g) = (finish-Answers req options (refused reason) d s v w').0 h in
          inl (
            reason,
            (run_denies-denied_iff e.conditions options.trace req f reason e.denies [] w w').0
                (s, ground arith),
            g,
          ),
      elim [
        | inl (reason', h, g) ↦
            let (s', i, j) = denied-answer reason' k h in
            (finish-Answers req options (refused reason) d s v w').1 (j, ground arith)
        | inr (u, h, _) ↦ let (s', j, _) = passes-answer k h in cc
      ],
    )
    outcome_agrees d (passed s) v k = (
      λ h. inr (
        v,
        (run_denies-passed_iff e.conditions options.trace req f e.denies [] w v).0 (s, k),
        (after_denies-passed_iff e req f options s v w' d).0 h,
      ),
      elim [
        | inl (reason, h, _) ↦ let (s', j, _) = denied-answer reason k h in cc
        | inr (u, h, g) ↦
            let (s', _, j) = passes-answer k h in
            (after_denies-passed_iff e req f options s v w' d).1 (rw (← j) at g)
      ],
    )

    decide_with_facts_iff :
        (d : Decision) → Answers (decide_with_facts e req options f w) w' d ↔ Decides e req f w w' d
    unfolding decide_with_facts
    decide_with_facts_iff d = outcome_agrees d loop.0 loop.1 refl

module _ {F W : Type 0} ⦃fl : Float F⦄ where
  -- The engine answers with a decision exactly where the context is not done, the facts parse, and the
  -- policy prescribes that decision; it then leaves the world that the prescription says.
  pub decide_iff :
      (e : GeneratedEngine F W) (ctx : Context) (req : Request) (options : DecisionOptions)
      (w w' : W) (d : Decision)
      → ((res : DecisionResult) × (decide_with_options e ctx req options w ≡ (inr res, w'))
          × (res.decision ≡ d))
        ↔ ((ctx ≡ none)
            × ((f : FactFrame F) × (new_fact_frame req ≡ inr f) × Decides e req f w w' d))
  unfolding decide_with_options
  decide_iff e (some err) req options w w' d = (λ (res, h, _). cc, λ (n, _). cc)
  decide_iff e none req options w w' d = elim (sum_cases (new_fact_frame {F = F} req)) [
    | inl (err, n) ↦ rw (n, decide_with_options) (λ (res, h, _). cc, λ (_, (f, x, _)). cc)
    | inr (f, n) ↦
        rw (n, decide_with_options)
          (
            λ h. (refl, (f, refl, (decide_with_facts_iff e req f options w w' d).0 h)),
            λ (_, (f', x, h)).
                (decide_with_facts_iff e req f options w w' d).1
                  (subst (λ (g : FactFrame F). Decides e req g w w' d) (sym (inr_injective x)) h),
          )
  ]
