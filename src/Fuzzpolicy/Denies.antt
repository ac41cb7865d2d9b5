-- ===== src/Fuzzpolicy/Denies.antt =====
-- internal/fuzzpolicy/generated_policy.go: the deny rules of a policy as relations between the worlds
-- before and after, and the agreement of the loop over them.
use cervo_rules.Prelude.{
  ◌≡◌, ◌↔◌, ◌⊎◌, inl, inr, Bool, true, false, Option, List, [], ◌∷◌, arith, Bool-cases, ap, sym,
  subst, ◌∙◌,
}
use cervo_rules.Text.{Text}
use cervo_rules.Core.Errors.{Failure}
use cervo_rules.Core.Types.{Request}
use cervo_rules.Core.Decisions.{DecisionTraceStep}
use cervo_rules.Fuzzpolicy.Rules.{FactFrame, Match}
use cervo_rules.Fuzzpolicy.Engine.{
  Evaluator, GeneratedDeny, DenyOutcome, denied, passed, rule_applies, is_elsewhere, after_deny,
  run_denies, add_step,
}
use cervo_rules.Fuzzpolicy.Meaning.{
  RuleHolds, RuleFails, match_cases, rule_applies-true_iff, rule_applies-false_iff,
}

module _ {F W : Type 0} where
  -- No deny rule of the request's operation applies.
  abbrev pub DeniesPass :
      Option (Evaluator W) → Request → FactFrame F → List (GeneratedDeny F W) → W → W → Type 0
  DeniesPass conditions req f [] w w' = w ≡ w'
  DeniesPass conditions req f (d ∷ rest) w w' =
      ((is_elsewhere d req ≡ true) × DeniesPass conditions req f rest w w')
      ⊎ ((is_elsewhere d req ≡ false)
          × ((v : W) × RuleFails conditions d.requires d.matcher req f w v
              × DeniesPass conditions req f rest v w'))

  -- The first deny rule of the operation that applies has this reason.
  abbrev pub DeniedFor :
      Option (Evaluator W)
      → Request
      → FactFrame F
      → Text
      → List (GeneratedDeny F W)
      → W
      → W
      → Type 0
  DeniedFor conditions req f reason [] w w' = ⊥
  DeniedFor conditions req f reason (d ∷ rest) w w' =
      ((is_elsewhere d req ≡ true) × DeniedFor conditions req f reason rest w w')
      ⊎ ((is_elsewhere d req ≡ false)
          × (((reason ≡ d.reason) × RuleHolds conditions d.requires d.matcher req f w w')
              ⊎ ((v : W) × RuleFails conditions d.requires d.matcher req f w v
                  × DeniedFor conditions req f reason rest v w')))

  module _ (conditions : Option (Evaluator W)) (traced : Bool) (req : Request)
      (f : FactFrame F) where
    run_denies-skip :
        (d : GeneratedDeny F W) (ds : List (GeneratedDeny F W)) (steps : List DecisionTraceStep)
        (w : W)
        → is_elsewhere d req ≡ true
        → run_denies conditions traced req f (d ∷ ds) steps w
          ≡ run_denies conditions traced req f ds steps w
    unfolding run_denies
    run_denies-skip d ds steps w e = rw (e, run_denies)

    run_denies-of :
        (d : GeneratedDeny F W) (ds : List (GeneratedDeny F W)) (steps : List DecisionTraceStep)
        (w : W) {a : Failure ⊎ Match} {v : W}
        → is_elsewhere d req ≡ false
        → rule_applies conditions d.requires d.matcher req f w ≡ (a, v)
        → run_denies conditions traced req f (d ∷ ds) steps w
          ≡ after_deny traced d a (run_denies conditions traced req f ds) steps v
    unfolding run_denies
    run_denies-of d ds steps w e k = rw (e, run_denies, k)

    -- The answers of one rule are of one kind, and leave one world.
    fails-world :
        (d : GeneratedDeny F W) (w : W) {t : Text} {u v : W}
        → rule_applies conditions d.requires d.matcher req f w ≡ (inr (false, t), v)
        → RuleFails conditions d.requires d.matcher req f w u
        → v ≡ u
    fails-world d w {u = u} k h =
        let (t', j) = (rule_applies-false_iff conditions d.requires req f d.matcher w u).1 h in
        ap (λ (x : (Failure ⊎ Match) × W). x.1) (sym k ∙ j)

    pub run_denies-passed_iff :
        (ds : List (GeneratedDeny F W)) (steps : List DecisionTraceStep) (w w' : W)
        → ((steps' : List DecisionTraceStep) × (run_denies conditions traced req f ds steps w
              ≡ (passed steps', w')))
          ↔ DeniesPass conditions req f ds w w'
    unfolding after_deny
    run_denies-passed_iff [] steps w w' =
        unfold run_denies in (λ (s, k). ground arith, λ e. (steps, ground arith))
    run_denies-passed_iff (d ∷ ds) steps w w' = elim (Bool-cases (is_elsewhere d req)) [
      | inl e ↦ rw (run_denies-skip d ds steps w e) (
        λ h. inl (e, (run_denies-passed_iff ds steps w w').0 h),
        elim [ inl (_, h) ↦ (run_denies-passed_iff ds steps w w').1 h | inr (x, _) ↦ cc ],
      )
      | inr e ↦ elim (match_cases (rule_applies conditions d.requires d.matcher req f w)) [
        | inl (err, v, k) ↦ rw (run_denies-of d ds steps w e k) (
          λ (s, h). cc,
          elim [
            | inl (x, _) ↦ cc
            | inr (x, (u, h, _)) ↦
                let (t, j) =
                  (rule_applies-false_iff conditions d.requires req f d.matcher w u).1 h in
                cc
          ],
        )
        | inr (inl (t, v, k)) ↦ rw (run_denies-of d ds steps w e k) (
          λ (s, h). cc,
          elim [
            | inl (x, _) ↦ cc
            | inr (x, (u, h, _)) ↦
                let (t, j) =
                  (rule_applies-false_iff conditions d.requires req f d.matcher w u).1 h in
                cc
          ],
        )
        | inr (inr (t, v, k)) ↦ rw (run_denies-of d ds steps w e k) (
          λ h. inr (
            e,
            (
              v,
              (rule_applies-false_iff conditions d.requires req f d.matcher w v).0 (t, k),
              (run_denies-passed_iff ds (add_step traced d.id (false, t) steps) v w').0 h,
            ),
          ),
          elim [
            | inl (x, _) ↦ cc
            | inr (x, (u, h, r)) ↦
                (run_denies-passed_iff ds (add_step traced d.id (false, t) steps) v w').1 (
                  subst (λ (x : W). DeniesPass conditions req f ds x w') (sym (fails-world d w k h))
                    r)
          ],
        )
      ]
    ]

    pub run_denies-denied_iff :
        (reason : Text) (ds : List (GeneratedDeny F W)) (steps : List DecisionTraceStep) (w w' : W)
        → ((steps' : List DecisionTraceStep) × (run_denies conditions traced req f ds steps w
              ≡ (denied reason steps', w')))
          ↔ DeniedFor conditions req f reason ds w w'
    unfolding after_deny
    run_denies-denied_iff reason [] steps w w' =
        unfold run_denies in (λ (s, k). cc, λ e. elim e [ ])
    run_denies-denied_iff reason (d ∷ ds) steps w w' = elim (Bool-cases (is_elsewhere d req)) [
      | inl e ↦ rw (run_denies-skip d ds steps w e) (
        λ h. inl (e, (run_denies-denied_iff reason ds steps w w').0 h),
        elim [ inl (_, h) ↦ (run_denies-denied_iff reason ds steps w w').1 h | inr (x, _) ↦ cc ],
      )
      | inr e ↦ elim (match_cases (rule_applies conditions d.requires d.matcher req f w)) [
        | inl (err, v, k) ↦ rw (run_denies-of d ds steps w e k) (
          λ (s, h). cc,
          elim [
            | inl (x, _) ↦ cc
            | inr (x, inl (_, h)) ↦
                let (t, j) =
                  (rule_applies-true_iff conditions d.requires req f d.matcher w w').1 h in
                cc
            | inr (x, inr (u, h, _)) ↦
                let (t, j) =
                  (rule_applies-false_iff conditions d.requires req f d.matcher w u).1 h in
                cc
          ],
        )
        | inr (inl (t, v, k)) ↦ rw (run_denies-of d ds steps w e k) (
          λ (s, h). inr (
            e,
            inl (
              ground arith,
              (rule_applies-true_iff conditions d.requires req f d.matcher w w').0
                  (t, rw (← (ap (λ (x : DenyOutcome × W). x.1) h)) k),
            ),
          ),
          elim [
            | inl (x, _) ↦ cc
            | inr (x, inl (r, h)) ↦
                let (t', j) =
                  (rule_applies-true_iff conditions d.requires req f d.matcher w w').1 h in
                (add_step traced d.id (true, t) steps, cc)
            | inr (x, inr (u, h, _)) ↦
                let (t, j) =
                  (rule_applies-false_iff conditions d.requires req f d.matcher w u).1 h in
                cc
          ],
        )
        | inr (inr (t, v, k)) ↦ rw (run_denies-of d ds steps w e k) (
          λ h. inr (
            e,
            inr (
              v,
              (rule_applies-false_iff conditions d.requires req f d.matcher w v).0 (t, k),
              (run_denies-denied_iff reason ds (add_step traced d.id (false, t) steps) v w').0 h,
            ),
          ),
          elim [
            | inl (x, _) ↦ cc
            | inr (x, inl (_, h)) ↦
                let (t, j) =
                  (rule_applies-true_iff conditions d.requires req f d.matcher w w').1 h in
                cc
            | inr (x, inr (u, h, r)) ↦
                (run_denies-denied_iff reason ds (add_step traced d.id (false, t) steps) v w').1 (
                  subst (λ (x : W). DeniedFor conditions req f reason ds x w')
                    (sym (fails-world d w k h)) r)
          ],
        )
      ]
    ]
