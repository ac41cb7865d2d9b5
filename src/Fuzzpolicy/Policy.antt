-- ===== src/Fuzzpolicy/Policy.antt =====
-- internal/fuzzpolicy/generated_policy.go: what the policy allows, for every configuration that builds.
use cervo_rules.Prelude.{
  ◌≡◌, refl, ◌≢◌, ◌↔◌, ◌⊎◌, inl, inr, Bool, true, false, Option, none, some, List, [], ◌∷◌, arith,
  Bool-cases, Option-cases, eq_iff, ◌∙◌, ◌==◌,
}
use cervo_rules.Prelude.Int.{pos, ltb_ℤ}
use cervo_rules.Prelude.Maps.{entry}
use cervo_rules.Text.{Text}
use cervo_rules.Core.Types.{Operation, Request}
use cervo_rules.Core.Decisions.{DecisionOptions, DecisionTraceStep, DecisionResult}
use cervo_rules.Runtime.{PolicyRuntimeConfig}
use cervo_rules.Float.{Float}
use cervo_rules.Fuzzpolicy.Rules.{
  FactFrame, Match, new_fact_frame, match_change_freeze, match_unhealthy_target,
  match_unreviewed_node1, match_unreviewed_deploy,
}
use cervo_rules.Fuzzpolicy.Engine.{
  Evaluator, GeneratedDeny, GeneratedRoute, GeneratedEngine, DenyOutcome, denied, passed,
  rule_applies, run_matcher, conditions_hold, is_elsewhere, after_deny, run_denies, add_step,
  decide_route, after_route, after_denies, decide_with_facts, decide_with_options, finish,
  permitted, refused, unrouted_reason,
}
use cervo_rules.Fuzzpolicy.Factory.{
  facts_only, freeze_rule, unhealthy_rule, unreviewed_rule, policy_denies, engine_of, build,
  validate_config, merge_runtime_config, default_config, entries,
}
use cervo_rules.Fuzzpolicy.Decides.{finish-decision}
use cervo_rules.Fuzzpolicy.Routes.{
  IsPlain, built_routes, built_routes-IsPlain, built_routes-none_iff,
}

module _ {F : Type 0} ⦃fl : Float F⦄ (f : FactFrame F) where
  -- A change freeze in production.
  abbrev pub IsFrozen : Type 0
  IsFrozen = (f.change_freeze ≡ true) × (f.environment ≡ "production")

  -- A queue of 10000 or more, or more errors than the budget.
  abbrev pub IsUnhealthy : Type 0
  IsUnhealthy =
      (ltb_ℤ f.queue_depth (pos 10000) ≡ false) ⊎ (fl.lt f.error_budget_pct f.error_rate_pct ≡ true)

  -- Production, with an error rate that is not below one half.
  abbrev pub IsUnreviewed : Type 0
  IsUnreviewed =
      (f.environment ≡ "production") × (fl.lt f.error_rate_pct (fl.literal "0.5") ≡ false)

  -- What the policy's deny rules let through.
  abbrev pub IsClear : Operation → Type 0
  IsClear op =
      (¬ IsFrozen) × ((op ≡ "message_create") → ¬ IsUnhealthy) × ((op ≡ "deploy") → ¬ IsUnreviewed)

  frozen_iff : ((match_change_freeze f).0 ≡ true) ↔ IsFrozen
  unfolding match_change_freeze
  frozen_iff = ground (arith, eq_iff f.environment "production")

  unhealthy_iff : ((match_unhealthy_target f).0 ≡ true) ↔ IsUnhealthy
  unfolding match_unhealthy_target
  unhealthy_iff = ground arith

  unreviewed_iff : ((match_unreviewed_deploy f).0 ≡ true) ↔ IsUnreviewed
  unfolding match_unreviewed_deploy match_unreviewed_node1
  unreviewed_iff = ground (arith, eq_iff f.environment "production")

module _ {F W : Type 0} (conditions : Option (Evaluator W)) (traced : Bool) (req : Request)
    (f : FactFrame F) where
  -- A deny rule without conditions, whose predicate reads the facts alone, denies or is passed by.
  plain_deny :
      (d : GeneratedDeny F W) (m : FactFrame F → Match) (ds : List (GeneratedDeny F W))
      (s : List DecisionTraceStep) (w : W)
      → d.requires ≡ []
      → d.matcher ≡ facts_only m
      → (((is_elsewhere d req ≡ true) ⊎ ((m f).0 ≡ false))
          × ((t : List DecisionTraceStep) × (run_denies conditions traced req f (d ∷ ds) s w
                ≡ run_denies conditions traced req f ds t w)))
        ⊎ ((is_elsewhere d req ≡ false)
            × ((m f).0 ≡ true)
            × ((t : List DecisionTraceStep) × (run_denies conditions traced req f (d ∷ ds) s w
                  ≡ (denied d.reason t, w))))
  unfolding run_denies rule_applies run_matcher conditions_hold after_deny
  plain_deny d m ds s w h k = elim (Bool-cases (is_elsewhere d req)) [
    | inl e ↦ inl (inl e, (s, rw (e, run_denies) refl))
    | inr e ↦ elim (Bool-cases (m f).0) [
      | inl t ↦ inr (e, t, (add_step traced d.id (m f) s, rw (e, run_denies, h, k, t) refl))
      | inr t ↦ inl (inr t, (add_step traced d.id (m f) s, rw (e, run_denies, h, k, t) refl))
    ]
  ]

run_denies-nil :
    {F W : Type 0} (conditions : Option (Evaluator W)) (traced : Bool) (req : Request)
    (f : FactFrame F) (s : List DecisionTraceStep) (w : W)
    → run_denies conditions traced req f [] s w ≡ (passed s, w)
unfolding run_denies
run_denies-nil conditions traced req f s w = refl

differ : {a : Bool} → a ≡ false → a ≡ true → ⊥
differ h k = ground arith

blocked : {a b : Bool} → (a ≡ true) ⊎ (b ≡ false) → a ≡ false → b ≡ true → ⊥
blocked p h k = ground arith

module _ (F W : Type 0) ⦃fl : Float F⦄ (req : Request) where
  freeze_rule-applies : is_elsewhere (freeze_rule {F = F} {W = W}) req ≡ false
  unfolding is_elsewhere freeze_rule
  freeze_rule-applies = refl

  unhealthy_rule-applies_iff :
      (is_elsewhere (unhealthy_rule {F = F} {W = W}) req ≡ false)
      ↔ (req.operation ≡ "message_create")
  unfolding is_elsewhere unhealthy_rule
  unhealthy_rule-applies_iff = ground (arith, eq_iff "message_create" req.operation)

  unreviewed_rule-applies_iff :
      (is_elsewhere (unreviewed_rule {F = F} {W = W}) req ≡ false) ↔ (req.operation ≡ "deploy")
  unfolding is_elsewhere unreviewed_rule
  unreviewed_rule-applies_iff = ground (arith, eq_iff "deploy" req.operation)

module _ {F W : Type 0} ⦃fl : Float F⦄ (conditions : Option (Evaluator W)) (traced : Bool)
    (req : Request) (f : FactFrame F) (w : W) where
  -- The policy's deny rules pass exactly the requests that are clear, and leave the world alone.
  policy_denies-cases :
      (IsClear f req.operation
        × ((t : List DecisionTraceStep) × (run_denies conditions traced req f policy_denies [] w
              ≡ (passed t, w))))
      ⊎ ((¬ IsClear f req.operation)
          × ((reason : Text) × (t : List DecisionTraceStep) × (run_denies conditions traced req f
                  policy_denies [] w
                ≡ (denied reason t, w))))
  unfolding policy_denies freeze_rule unhealthy_rule unreviewed_rule
  policy_denies-cases =
      elim (plain_deny conditions traced req f freeze_rule match_change_freeze
        (unhealthy_rule ∷ unreviewed_rule ∷ []) [] w refl refl) [
          | inr (_, m, (t, e)) ↦
              inr (λ c. c.0 ((frozen_iff f).0 m), ("a change freeze is in effect", t, e))
          | inl (p, (s, e)) ↦
              elim (plain_deny conditions traced req f unhealthy_rule match_unhealthy_target
                (unreviewed_rule ∷ []) s w refl refl) [
                  | inr (o, m, (t, e')) ↦ inr (
                    λ c. c.1 ((unhealthy_rule-applies_iff F W req).0 o) ((unhealthy_iff f).0 m),
                    ("the worker is saturated, or it is burning its error budget", t, e ∙ e'),
                  )
                  | inl (p', (s', e')) ↦
                      elim (plain_deny conditions traced req f unreviewed_rule
                        match_unreviewed_deploy [] s' w refl refl) [
                          | inr (o, m, (t, e'')) ↦ inr (
                            λ c.
                                c.2 ((unreviewed_rule-applies_iff F W req).0 o)
                                  ((unreviewed_iff f).0 m),
                            ("a production deploy needs a healthy target", t, e ∙ e' ∙ e''),
                          )
                          | inl (p'', (s'', e'')) ↦ inl (
                            (
                              λ z. blocked p (freeze_rule-applies F W req) ((frozen_iff f).1 z),
                              λ o z.
                                  blocked p' ((unhealthy_rule-applies_iff F W req).1 o)
                                    ((unhealthy_iff f).1 z),
                              λ o z.
                                  blocked p'' ((unreviewed_rule-applies_iff F W req).1 o)
                                    ((unreviewed_iff f).1 z),
                            ),
                            (s'', e ∙ e' ∙ e'' ∙ run_denies-nil conditions traced req f s'' w),
                          )
                        ]
                ]
        ]

module _ {F W : Type 0} ⦃fl : Float F⦄ (e : GeneratedEngine F W) (req : Request)
    (options : DecisionOptions) (f : FactFrame F) where
  -- A plain route permits, and leaves the world alone.
  decide_route-plain :
      (r : GeneratedRoute F W) (t : List DecisionTraceStep) (w : W)
      → IsPlain r
      → (res : DecisionResult) × (decide_route e req options f r t w ≡ (inr res, w))
        × (res.decision.allow ≡ true)
  unfolding decide_route rule_applies run_matcher conditions_hold after_route permitted
  decide_route-plain r t w p = (
    finish req (permitted e r) options (add_step options.trace r.id (true, "") t),
    rw (p.open_to_all, decide_route, p.unconditional, p.no_matcher) refl,
    rw (finish-decision req (permitted e r) options (add_step options.trace r.id (true, "") t))
        refl,
  )

  after_denies-built :
      (t : List DecisionTraceStep) (w : W)
      → ((r : GeneratedRoute F W) → entry req.operation e.routes ≡ some r → IsPlain r)
      → (res : DecisionResult) × (after_denies e req options f (passed t) w ≡ (inr res, w))
        × ((res.decision.allow ≡ true) ↔ (entry req.operation e.routes ≢ none))
  unfolding after_denies refused
  after_denies-built t w h = elim (Option-cases (entry req.operation e.routes)) [
    | inl n ↦ (
      finish req (refused (unrouted_reason e req)) options t,
      rw (n, after_denies) refl,
      rw (finish-decision req (refused (unrouted_reason e req)) options t)
          (λ x. cc, λ x. absurd (x n)),
    )
    | inr (r, n) ↦
        let (res, k, a) = decide_route-plain r t w (h r n) in
        (res, rw (n, after_denies) k, (λ _ x. cc, λ _. a))
  ]

-- A build that succeeds gives the engine of the merged configuration.
pub build-engine_of :
    {F W : Type 0} ⦃fl : Float F⦄ (cfg : PolicyRuntimeConfig (Evaluator W))
    (e : GeneratedEngine F W)
    → build none cfg ≡ inr e
    → e ≡ engine_of (merge_runtime_config default_config cfg)
unfolding build
build-engine_of cfg e h =
    elim (Option-cases (validate_config (merge_runtime_config default_config cfg))) [
      | inl n ↦ ground arith
      | inr (err, n) ↦ ground arith
    ]

-- The operations of the policy, and those whose target the configuration overrides.
abbrev pub IsRouted : {W : Type 0} → PolicyRuntimeConfig (Evaluator W) → Operation → Type 0
IsRouted cfg op =
    (op ≡ "deploy") ⊎ ((op ≡ "message_create") ⊎ (entry op (entries cfg.operation_targets) ≢ none))

module _ {F W : Type 0} where
  built_iff :
      (cfg : PolicyRuntimeConfig (Evaluator W)) (op : Operation)
      → (entry op (built_routes {F = F} cfg) ≢ none) ↔ IsRouted cfg op
  built_iff cfg op = (
    λ h. elim (Bool-cases (op == "deploy")) [
      | inl a ↦ inl ((eq_iff op "deploy").0 a)
      | inr a ↦ elim (Bool-cases (op == "message_create")) [
        | inl b ↦ inr (inl ((eq_iff op "message_create").0 b))
        | inr b ↦ inr (
            inr (λ n. h (
              (built_routes-none_iff {F = F} cfg op).1 (
                λ i. differ a ((eq_iff op "deploy").1 i),
                λ i. differ b ((eq_iff op "message_create").1 i),
                n,
              ))))
      ]
    ],
    λ r n.
        let (a, b, c) = (built_routes-none_iff {F = F} cfg op).0 n in
        elim r [ inl i ↦ a i | inr (inl i) ↦ b i | inr (inr i) ↦ i c ],
  )

  decide-of :
      ⦃fl : Float F⦄ (e : GeneratedEngine F W) (req : Request) (options : DecisionOptions)
      (f : FactFrame F) (w : W) {o : DenyOutcome} {v : W}
      → new_fact_frame req ≡ inr f
      → run_denies e.conditions options.trace req f e.denies [] w ≡ (o, v)
      → decide_with_options e none req options w ≡ after_denies e req options f o v
  unfolding decide_with_options decide_with_facts
  decide-of e req options f w k j = rw (k, decide_with_options, j)

  module _ ⦃fl : Float F⦄ (cfg : PolicyRuntimeConfig (Evaluator W)) (req : Request)
      (options : DecisionOptions) (f : FactFrame F) (w : W) where
    decide-engine_of :
        new_fact_frame req ≡ inr f
        → (res : DecisionResult) × (decide_with_options {F = F}
              (engine_of (merge_runtime_config default_config cfg))
              none
              req
              options
              w
            ≡ (inr res, w))
          × ((res.decision.allow ≡ true) ↔ (IsClear f req.operation × IsRouted cfg req.operation))
    unfolding engine_of after_denies refused
    decide-engine_of k =
        let m = merge_runtime_config default_config cfg in
        let e : GeneratedEngine F W = engine_of m in
        elim (policy_denies-cases m.conditions options.trace req f w) [
          | inl (c, (t, j)) ↦
              let (res, g, a) =
                after_denies-built e req options f t w (built_routes-IsPlain cfg req.operation) in
              (
                res,
                decide-of e req options f w k j ∙ g,
                (
                  λ x. (c, (built_iff cfg req.operation).0 (a.0 x)),
                  λ (_, x). a.1 ((built_iff cfg req.operation).1 x),
                ),
              )
          | inr (c, (reason, t, j)) ↦ (
            finish req (refused reason) options t,
            decide-of e req options f w k j,
            rw (finish-decision req (refused reason) options t) (λ x. cc, λ (x, _). absurd (c x)),
          )
        ]

    -- Where a configuration builds and the facts of a request parse, the engine returns a decision and
    -- leaves the world as it was, and it allows exactly the requests that are clear of the deny rules
    -- and whose operation is routed.
    pub build-decides :
        (e : GeneratedEngine F W)
        → build none cfg ≡ inr e
        → new_fact_frame req ≡ inr f
        → (res : DecisionResult) × (decide_with_options e none req options w ≡ (inr res, w))
          × ((res.decision.allow ≡ true) ↔ (IsClear f req.operation × IsRouted cfg req.operation))
    build-decides e h k = rw (build-engine_of cfg e h) (decide-engine_of k)
