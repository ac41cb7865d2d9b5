-- ===== src/Fuzzpolicy/Total.antt =====
-- internal/fuzzpolicy/generated_policy.go: a decision is returned wherever the conditions and the
-- predicates answer.
use cervo_rules.Prelude.{
  ◌≡◌, refl, ◌⊎◌, inl, inr, Bool, true, false, Option, none, some, List, [], ◌∷◌, arith, Bool-cases,
  Option-cases,
}
use cervo_rules.Prelude.Maps.{entry}
use cervo_rules.Core.Types.{Request}
use cervo_rules.Core.Conditions.{Condition}
use cervo_rules.Core.Decisions.{DecisionOptions, DecisionTraceStep, DecisionResult}
use cervo_rules.Float.{Float}
use cervo_rules.Fuzzpolicy.Rules.{FactFrame, Match, new_fact_frame}
use cervo_rules.Fuzzpolicy.Engine.{
  Evaluator, RuleMatcher, GeneratedRoute, GeneratedDeny, GeneratedEngine, DenyOutcome, failed,
  denied, passed, after_condition, hold_each, conditions_hold, run_matcher, rule_applies,
  is_elsewhere, finish, after_deny, run_denies, add_step, decide_route, after_route, after_denies,
  decide_with_facts, decide_with_options, refused, permitted, unrouted_reason,
}
use cervo_rules.Fuzzpolicy.Decides.{is_barred, not_trusted, not_eligible}

-- The deny rules end without an error.
abbrev Goes : DenyOutcome → Type 0
Goes (failed err) = ⊥
Goes (denied reason steps) = Unit
Goes (passed steps) = Unit

module _ {F W : Type 0} (req : Request) (f : FactFrame F) where
  -- The evaluator answers every condition without an error, or none is required.
  abbrev pub CanAnswer : Option (Evaluator W) → List Condition → Type 0
  CanAnswer conditions cs =
      (cs ≡ [])
      ⊎ ((ev : Evaluator W) × (conditions ≡ some ev)
          × ((c : Condition) (w : W) → (ev c req w).0.1 ≡ none))

  -- The predicate answers without an error, or there is none.
  abbrev pub CanMatch : Option (RuleMatcher F W) → Type 0
  CanMatch m =
      (m ≡ none)
      ⊎ ((p : RuleMatcher F W) × (m ≡ some p)
          × ((w : W) → (b : Match) × (v : W) × (p req f w ≡ (inr b, v))))

  hold_each-total :
      (ev : Evaluator W)
      → ((c : Condition) (w : W) → (ev c req w).0.1 ≡ none)
      → (cs : List Condition) (w : W) → (b : Bool) × (v : W) × (hold_each ev cs req w ≡ (inr b, v))
  unfolding hold_each after_condition
  hold_each-total ev h [] w = (true, w, refl)
  hold_each-total ev h (c ∷ cs) w =
      let (b, v, k) = hold_each-total ev h cs (ev c req w).1 in
      elim (Bool-cases (ev c req w).0.0) [
        | inl t ↦ (b, v, ground (arith, h c w))
        | inr t ↦ (false, (ev c req w).1, ground (arith, h c w))
      ]

  conditions_hold-total :
      (conditions : Option (Evaluator W)) (cs : List Condition) (w : W)
      → CanAnswer conditions cs
      → (b : Bool) × (v : W) × (conditions_hold conditions cs req w ≡ (inr b, v))
  unfolding conditions_hold
  conditions_hold-total conditions [] w h = (true, w, ground arith)
  conditions_hold-total none (c ∷ cs) w (inl h) = cc
  conditions_hold-total (some ev) (c ∷ cs) w (inl h) = cc
  conditions_hold-total none (c ∷ cs) w (inr (ev, k, h)) = cc
  conditions_hold-total (some ev) (c ∷ cs) w (inr (ev', k, h)) =
      let j : ev ≡ ev' = cc in rw j (hold_each-total ev' h (c ∷ cs) w)

  run_matcher-total :
      (a : Bool) (m : Option (RuleMatcher F W)) (w : W)
      → CanMatch m
      → (b : Match) × (v : W) × (run_matcher (inr a) m req f w ≡ (inr b, v))
  unfolding run_matcher
  run_matcher-total false m w h = ((false, ""), w, refl)
  run_matcher-total true none w h = ((true, ""), w, refl)
  run_matcher-total true (some m) w (inl n) = cc
  run_matcher-total true (some m) w (inr (p, n, g)) = let (b, v, k) = g w in (b, v, ground arith)

  rule_applies-total :
      (conditions : Option (Evaluator W)) (cs : List Condition) (m : Option (RuleMatcher F W))
      (w : W)
      → CanAnswer conditions cs
      → CanMatch m
      → (b : Match) × (v : W) × (rule_applies conditions cs m req f w ≡ (inr b, v))
  unfolding rule_applies
  rule_applies-total conditions cs m w h k =
      let (a, v, e) = conditions_hold-total conditions cs w h in
      let (b, u, j) = run_matcher-total a m v k in (b, u, rw (e, rule_applies) j)

  -- Every deny rule can answer.
  abbrev pub DeniesAnswer : Option (Evaluator W) → List (GeneratedDeny F W) → Type 0
  DeniesAnswer conditions [] = Unit
  DeniesAnswer conditions (d ∷ ds) =
      (CanAnswer conditions d.requires × CanMatch d.matcher) × DeniesAnswer conditions ds

  run_denies-total :
      (conditions : Option (Evaluator W)) (traced : Bool) (ds : List (GeneratedDeny F W))
      (s : List DecisionTraceStep) (w : W)
      → DeniesAnswer conditions ds
      → Goes (run_denies conditions traced req f ds s w).0
  unfolding run_denies after_deny
  run_denies-total conditions traced [] s w h = tt
  run_denies-total conditions traced (d ∷ ds) s w ((h, k), rest) =
      elim (Bool-cases (is_elsewhere d req)) [
        | inl e ↦ rw (e, run_denies) (run_denies-total conditions traced ds s w rest)
        | inr e ↦
            let (b, v, j) = rule_applies-total conditions d.requires d.matcher w h k in
            elim (Bool-cases b.0) [
              | inl t ↦ rw (e, run_denies, j, after_deny, t) tt
              | inr t ↦
                  rw (e, run_denies, j, after_deny, t)
                    (run_denies-total conditions traced ds (add_step traced d.id b s) v rest)
            ]
      ]

  -- What is known of a route's answer.
  after_route-total :
      (e : GeneratedEngine F W) (options : DecisionOptions) (r : GeneratedRoute F W) (b : Match)
      (s : List DecisionTraceStep)
      → (res : DecisionResult) × (after_route e req options r (inr b) s ≡ inr res)
  unfolding after_route
  after_route-total e options r (true, t) s =
      (finish req (permitted e r) options (add_step options.trace r.id (true, t) s), refl)
  after_route-total e options r (false, t) s =
      (finish req (not_eligible e req f) options (add_step options.trace r.id (false, t) s), refl)

  decide_route-total :
      (e : GeneratedEngine F W) (options : DecisionOptions) (r : GeneratedRoute F W)
      (s : List DecisionTraceStep) (w : W)
      → CanAnswer e.conditions r.requires
      → CanMatch r.matcher
      → (res : DecisionResult) × (v : W) × (decide_route e req options f r s w ≡ (inr res, v))
  unfolding decide_route
  decide_route-total e options r s w h k = elim (Bool-cases (is_barred e req f r)) [
    | inl b ↦ (finish req (not_trusted e req f) options s, w, rw (b, decide_route) refl)
    | inr b ↦
        let (m, v, j) = rule_applies-total e.conditions r.requires r.matcher w h k in
        let (res, g) = after_route-total e options r m s in
        (res, v, rw (b, decide_route, j, g) refl)
  ]

  after_denies-total :
      (e : GeneratedEngine F W) (options : DecisionOptions) (o : DenyOutcome) (w : W)
      → Goes o
      → ((r : GeneratedRoute F W)
          → entry req.operation e.routes ≡ some r
          → CanAnswer e.conditions r.requires × CanMatch r.matcher)
      → (res : DecisionResult) × (v : W) × (after_denies e req options f o w ≡ (inr res, v))
  unfolding after_denies
  after_denies-total e options (failed err) w g h = absurd g
  after_denies-total e options (denied reason s) w g h =
      (finish req (refused reason) options s, w, refl)
  after_denies-total e options (passed s) w g h =
      elim (Option-cases (entry req.operation e.routes)) [
        | inl n ↦
            (finish req (refused (unrouted_reason e req)) options s, w, rw (n, after_denies) refl)
        | inr (r, n) ↦
            let (res, v, k) = decide_route-total e options r s w (h r n).0 (h r n).1 in
            (res, v, rw (n, after_denies) k)
      ]

-- Where the context is not done, the facts parse, and every deny rule and the route of the operation
-- can answer, a decision is returned.
pub decide_with_options-total :
    {F W : Type 0} ⦃fl : Float F⦄ (e : GeneratedEngine F W) (req : Request)
    (options : DecisionOptions) (w : W) (f : FactFrame F)
    → new_fact_frame req ≡ inr f
    → DeniesAnswer req f e.conditions e.denies
    → ((r : GeneratedRoute F W)
        → entry req.operation e.routes ≡ some r
        → CanAnswer req f e.conditions r.requires × CanMatch req f r.matcher)
    → (res : DecisionResult) × (v : W) × (decide_with_options e none req options w ≡ (inr res, v))
unfolding decide_with_options decide_with_facts
decide_with_options-total e req options w f n d h =
    let (res, v, k) =
      after_denies-total req f e options
        (run_denies e.conditions options.trace req f e.denies [] w).0
        (run_denies e.conditions options.trace req f e.denies [] w).1
        (run_denies-total req f e.conditions options.trace e.denies [] w d) h in
    (res, v, rw (n, decide_with_options) k)
