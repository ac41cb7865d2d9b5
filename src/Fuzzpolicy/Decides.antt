-- ===== src/Fuzzpolicy/Decides.antt =====
-- internal/fuzzpolicy/generated_policy.go: the decision that a policy prescribes, as a relation between
-- the worlds before and after.
use cervo_rules.Prelude.{
  ◌&◌, ◌≡◌, refl, ◌↔◌, ◌⊎◌, inl, inr, Bool, true, false, not, ◌&&◌, Option, none, some, List, arith,
  Bool-cases, Option-cases,
}
use cervo_rules.Prelude.Maps.{entry}
use cervo_rules.Text.{Text}
use cervo_rules.Core.Errors.{Failure}
use cervo_rules.Core.Types.{Request, Decision}
use cervo_rules.Core.Decisions.{
  DecisionOptions, DecisionTraceStep, DecisionResult, new_decision_result, new_decision_options,
  apply_options, with_trace, with_observation,
}
use cervo_rules.Fuzzpolicy.Rules.{FactFrame, Match}
use cervo_rules.Fuzzpolicy.Engine.{
  GeneratedRoute, GeneratedEngine, passed, rule_applies, is_trusted_user, permitted, refused,
  finish, add_step, unrouted_reason, decide_route, after_route, after_denies,
}
use cervo_rules.Fuzzpolicy.Meaning.{
  RuleHolds, RuleFails, rule_applies-true_iff, rule_applies-false_iff,
}
use cervo_rules.Fuzzpolicy.Denies.{DeniesPass, DeniedFor}

some_injective : {A : Type 0} {a b : A} → ◌≡◌ {A = Option A} (some a) (some b) → a ≡ b
some_injective h = cc

pub finish-decision :
    (req : Request) (d : Decision) (options : DecisionOptions) (steps : List DecisionTraceStep)
    → (finish req d options steps).decision ≡ d
unfolding finish new_decision_result new_decision_options apply_options with_trace with_observation
finish-decision req d options steps = ground arith

module _ {W : Type 0} where
  -- The engine answers with this decision, and leaves this world.
  abbrev pub Answers : (Failure ⊎ DecisionResult) × W → W → Decision → Type 0
  Answers o w' d = (res : DecisionResult) × (o ≡ (inr res, w')) × (res.decision ≡ d)

  -- The engine answers with a decision exactly where it finishes with that one.
  pub finish-Answers :
      (req : Request) (options : DecisionOptions) (c d : Decision) (steps : List DecisionTraceStep)
      (v w' : W)
      → Answers (inr (finish req c options steps), v) w' d ↔ ((v ≡ w') × (d ≡ c))
  finish-Answers req options c d steps v w' = (
    λ (res, h, k). ground (arith, finish-decision req c options steps),
    λ (h, k). (
      finish req c options steps,
      ground arith,
      ground (arith, finish-decision req c options steps),
    ),
  )

module _ {F W : Type 0} (e : GeneratedEngine F W) (req : Request) (f : FactFrame F) where
  -- The route asks for a trusted user, and the request's user is none.
  abbrev pub is_barred : GeneratedRoute F W → Bool
  is_barred r = r.requires_trusted_user && not (is_trusted_user e.trusted_users req.user)

  abbrev pub not_trusted : Decision
  not_trusted = refused ("operation " & (req.operation & " requires trusted user"))

  abbrev pub not_eligible : Decision
  not_eligible =
      refused ("operation " & (req.operation & " did not satisfy its required conditions"))

  -- What a route prescribes.
  abbrev pub RouteDecides : GeneratedRoute F W → W → W → Decision → Type 0
  RouteDecides r w w' d =
      ((is_barred r ≡ true) × ((w ≡ w') × (d ≡ not_trusted)))
      ⊎ ((is_barred r ≡ false)
          × ((RuleHolds e.conditions r.requires r.matcher req f w w' × (d ≡ permitted e r))
              ⊎ (RuleFails e.conditions r.requires r.matcher req f w w' × (d ≡ not_eligible))))

  -- What a policy prescribes once no deny rule applies.
  abbrev pub PassedDecides : W → W → Decision → Type 0
  PassedDecides w w' d =
      ((entry req.operation e.routes ≡ none) × ((w ≡ w') × (d ≡ refused (unrouted_reason e req))))
      ⊎ ((r : GeneratedRoute F W) × (entry req.operation e.routes ≡ some r) × RouteDecides r w w' d)

  -- What a policy prescribes: the first deny rule that applies, or else the route.
  abbrev pub Decides : W → W → Decision → Type 0
  Decides w w' d =
      ((reason : Text) × DeniedFor e.conditions req f reason e.denies w w' × (d ≡ refused reason))
      ⊎ ((v : W) × DeniesPass e.conditions req f e.denies w v × PassedDecides v w' d)

  module _ (options : DecisionOptions) (steps : List DecisionTraceStep) where
    decide_route-of :
        (r : GeneratedRoute F W) (w : W) {a : Failure ⊎ Match} {v : W}
        → is_barred r ≡ false
        → rule_applies e.conditions r.requires r.matcher req f w ≡ (a, v)
        → decide_route e req options f r steps w ≡ (after_route e req options r a steps, v)
    unfolding decide_route
    decide_route-of r w b k = rw (b, decide_route, k)

    module _ (r : GeneratedRoute F W) (w w' : W) where
      holds-answer :
          {a : Failure ⊎ Match} {v : W}
          → rule_applies e.conditions r.requires r.matcher req f w ≡ (a, v)
          → RuleHolds e.conditions r.requires r.matcher req f w w'
          → (t : Text) × (a ≡ inr (true, t)) × (v ≡ w')
      holds-answer k h =
          let (t, j) = (rule_applies-true_iff e.conditions r.requires req f r.matcher w w').1 h in
          (t, ground arith, ground arith)

      fails-answer :
          {a : Failure ⊎ Match} {v : W}
          → rule_applies e.conditions r.requires r.matcher req f w ≡ (a, v)
          → RuleFails e.conditions r.requires r.matcher req f w w'
          → (t : Text) × (a ≡ inr (false, t)) × (v ≡ w')
      fails-answer k h =
          let (t, j) = (rule_applies-false_iff e.conditions r.requires req f r.matcher w w').1 h in
          (t, ground arith, ground arith)

      route_eligible :
          (d : Decision) {a : Failure ⊎ Match} {v : W}
          → is_barred r ≡ false
          → rule_applies e.conditions r.requires r.matcher req f w ≡ (a, v)
          → Answers (after_route e req options r a steps, v) w' d ↔ RouteDecides r w w' d
      unfolding after_route
      route_eligible d {a = inl err} {v} b k = (
        λ (res, h, _). cc,
        elim [
          | inl (x, _) ↦ cc
          | inr (_, inl (h, _)) ↦ let (t, j, _) = holds-answer k h in cc
          | inr (_, inr (h, _)) ↦ let (t, j, _) = fails-answer k h in cc
        ],
      )
      route_eligible d {a = inr (true, t)} {v} b k =
          let same =
            finish-Answers req options (permitted e r) d
              (add_step options.trace r.id (true, t) steps) v w' in
          (
            λ h.
                let (j, g) = same.0 h in
                inr (
                  b,
                  inl (
                    (rule_applies-true_iff e.conditions r.requires req f r.matcher w w').0
                        (t, ground arith),
                    g,
                  ),
                ),
            elim [
              | inl (x, _) ↦ cc
              | inr (_, inl (h, g)) ↦ let (t', _, j) = holds-answer k h in same.1 (j, g)
              | inr (_, inr (h, _)) ↦ let (t', j, _) = fails-answer k h in cc
            ],
          )
      route_eligible d {a = inr (false, t)} {v} b k =
          let same =
            finish-Answers req options not_eligible d (add_step options.trace r.id (false, t) steps)
              v w' in
          (
            λ h.
                let (j, g) = same.0 h in
                inr (
                  b,
                  inr (
                    (rule_applies-false_iff e.conditions r.requires req f r.matcher w w').0
                        (t, ground arith),
                    g,
                  ),
                ),
            elim [
              | inl (x, _) ↦ cc
              | inr (_, inl (h, _)) ↦ let (t', j, _) = holds-answer k h in cc
              | inr (_, inr (h, g)) ↦ let (t', _, j) = fails-answer k h in same.1 (j, g)
            ],
          )

    decide_route_iff :
        (r : GeneratedRoute F W) (w w' : W) (d : Decision)
        → Answers (decide_route e req options f r steps w) w' d ↔ RouteDecides r w w' d
    unfolding decide_route
    decide_route_iff r w w' d = elim (Bool-cases (is_barred r)) [
      | inl b ↦
          rw (b, decide_route)
            (
              λ h. inl (refl, (finish-Answers req options not_trusted d steps w w').0 h),
              elim [
                | inl (_, h) ↦ (finish-Answers req options not_trusted d steps w w').1 h
                | inr (x, _) ↦ cc
              ],
            )
      | inr b ↦ rw (decide_route-of r w b refl) (route_eligible r w w' d b refl)
    ]

    pub after_denies-passed_iff :
        (w w' : W) (d : Decision)
        → Answers (after_denies e req options f (passed steps) w) w' d ↔ PassedDecides w w' d
    unfolding after_denies
    after_denies-passed_iff w w' d = elim (Option-cases (entry req.operation e.routes)) [
      | inl n ↦
          rw (n, after_denies)
            (
              λ h. inl (
                refl,
                (finish-Answers req options (refused (unrouted_reason e req)) d steps w w').0 h,
              ),
              elim [
                | inl (_, h) ↦
                    (finish-Answers req options (refused (unrouted_reason e req)) d steps w w').1 h
                | inr (r, x, _) ↦ cc
              ],
            )
      | inr (r, n) ↦
          rw (n, after_denies)
            (
              λ h. inr (r, refl, (decide_route_iff r w w' d).0 h),
              elim [
                | inl (x, _) ↦ cc
                | inr (r', x, h) ↦ (decide_route_iff r w w' d).1 (rw (← (some_injective x)) at h)
              ],
            )
    ]
