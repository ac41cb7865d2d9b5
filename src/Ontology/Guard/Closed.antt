-- ===== src/Ontology/Guard/Closed.antt =====
-- ontology/conditions.go: the guard fails closed, and holds exactly where the ontology answers yes.

use cervo_rules.Prelude.{
  ◌≡◌, refl, ◌≢◌, ◌⊎◌, inl, inr, false, none, some, [], arith, Option-cases, sum_cases,
}
use cervo_rules.Core.Error.{Error}
use cervo_rules.Core.Types.{Request}
use cervo_rules.Core.Conditions.{Condition, new_condition}
use cervo_rules.Ontology.Names.{Individual}
use cervo_rules.Ontology.Snapshot.{Snapshot}
use cervo_rules.Ontology.Model.{Constraint}
use cervo_rules.Ontology.Scope.{SnapshotResolver, Context, resolve_once}
use cervo_rules.Ontology.Guard.{
  Check, Guard, refusal, bound_check, subject, evaluate, ask, explain, unbound_error,
  no_resolver_error,
}

module _ {C : Type 0} ⦃c : Constraint C⦄ {W : Type 0} (g : Guard C W) where
  -- A question is refused before anything is resolved, or it is asked of the snapshot.
  pub explain-cases :
      (n : Condition) (req : Request) (ctx : Context) (w : W)
      → ((e : Error) × (explain g n req ctx w ≡ (refusal e, ctx, w)))
        ⊎ ((k : Check) × (resolve : SnapshotResolver W) × (i : Individual) × (bound_check
                (new_condition n)
                g.checks
              ≡ some k)
            × (g.resolve ≡ some resolve)
            × (subject n k req ≡ inr i)
            × (explain g n req ctx w ≡ ask g.ontology n k i resolve req ctx w))
  unfolding explain
  explain-cases n req ctx w = elim (Option-cases (bound_check (new_condition n) g.checks)) [
    | inl b ↦ inl (unbound_error n, rw (b, explain) refl)
    | inr (k, b) ↦ elim (Option-cases g.resolve) [
      | inl f ↦ inl (no_resolver_error n, rw (b, f, explain) refl)
      | inr (resolve, f) ↦ elim (sum_cases (subject n k req)) [
        | inl (e, j) ↦ inl (e, rw (b, f, j, explain) refl)
        | inr (i, j) ↦ inr (k, resolve, i, b, f, j, rw (b, f, j, explain) refl)
      ]
    ]
  ]

  evaluate-refuses :
      (n : Condition) (k : Check) (i : Individual) (s : Snapshot)
      → (evaluate g.ontology n k i s).error ≢ none
      → ((evaluate g.ontology n k i s).holds ≡ false)
        × ((evaluate g.ontology n k i s).violations ≡ [])
  unfolding evaluate
  evaluate-refuses n k i s h = ground arith

  -- Wherever `Explain` returns an error it answers false and names no violation.
  pub explain-closed :
      (n : Condition) (req : Request) (ctx : Context) (w : W)
      → (explain g n req ctx w).0.error ≢ none
      → ((explain g n req ctx w).0.holds ≡ false) × ((explain g n req ctx w).0.violations ≡ [])
  unfolding ask
  explain-closed n req ctx w h = elim (explain-cases n req ctx w) [
    | inl (e, same) ↦ rw same (refl, refl)
    | inr (k, resolve, i, b, f, j, same) ↦ elim (sum_cases (resolve_once ctx resolve req w).0) [
      | inl (e, a) ↦ rw (same, ask, a) (refl, refl)
      | inr (s, a) ↦ rw (same, ask, a) (evaluate-refuses n k i s (rw (same, ask, a) at h))
    ]
  ]
