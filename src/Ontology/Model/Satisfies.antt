-- ===== src/Ontology/Model/Satisfies.antt =====
-- `Ontology.Check` reports nothing exactly where the snapshot satisfies the model.
use cervo_rules.Prelude.{
  ◌≡◌, refl, ◌↔◌, ◌⊎◌, inl, inr, true, false, some, List, [], ◌∷◌, Memᴰ, Memᴰ-cons, Memᴰ-nil, arith,
  eq_iff, elem_iff, Option-cases, flat, flat-eq-nil_iff, append-eq-nil_iff, ◌≢◌, Perm,
}
use cervo_rules.Text.{Text}
use cervo_rules.Core.Errors.Order.{sort_stable-nil_iff}
use cervo_rules.Ontology.Names.{State}
use cervo_rules.Ontology.Snapshot.{StateAssertion, Snapshot, normalize_snapshot}
use cervo_rules.Ontology.Snapshot.Order.{normalize_snapshot-perm}
use cervo_rules.Ontology.Constraints.{
  DisjointSet, normalize_set, FunctionalProperty, normalize_property, check_disjoint,
  check_functional,
}
use cervo_rules.Ontology.Constraints.Disjoint.{HeldApart, check_disjoint_iff}
use cervo_rules.Ontology.Constraints.Objects.{SingleValued}
use cervo_rules.Ontology.Constraints.Functional.{IsTotal, check_functional_iff}
use cervo_rules.Ontology.Lifecycle.{Lifecycle, normalize_lifecycle, has_state}
use cervo_rules.Ontology.Lifecycle.Check as LifecycleCheck
use cervo_rules.Ontology.Lifecycle.Check.{unknown_state_errors, check_single_state}
use cervo_rules.Ontology.Lifecycle.Single.{Agree, check_single_state_iff}
use cervo_rules.Ontology.Lifecycle.Normal.{normalize_lifecycle_idem}
use cervo_rules.Ontology.Names.{new_state}
use cervo_rules.Ontology.Model.{Ontology, Constraint, normalize_model, domain_of}
use cervo_rules.Ontology.Model.Check.{custom_error, violations, check}
use cervo_rules.Ontology.Model.Typing.{Declared, Related, type_errors_iff, relation_errors_iff}

-- Every recorded state of the lifecycle is one of its states.
abbrev pub StatesDeclared : Lifecycle → List StateAssertion → Type 0
StatesDeclared l states =
    (a : StateAssertion)
    → Memᴰ a states
    → a.lifecycle ≡ (normalize_lifecycle l).name
    → Memᴰ (new_state a.state) (normalize_lifecycle l).states

declared_iff :
    (l : Lifecycle) (s : State)
    → (has_state (normalize_lifecycle l) s ≡ true)
      ↔ Memᴰ (new_state s) (normalize_lifecycle l).states
unfolding has_state
declared_iff l s =
    rw (normalize_lifecycle_idem) (elem_iff (new_state s) (normalize_lifecycle l).states)

module _ (l : Lifecycle) where
  unknown_sound :
      (states : List StateAssertion)
      → unknown_state_errors (normalize_lifecycle l) states ≡ []
      → StatesDeclared l states
  unfolding unknown_state_errors
  unknown_sound [] h a m e = absurd (Memᴰ-nil a m)
  unknown_sound (x ∷ xs) h a m e = ground (
    arith,
    Memᴰ-cons a x xs,
    unknown_sound xs (ground arith) a,
    declared_iff l x.state,
    eq_iff x.lifecycle (normalize_lifecycle l).name,
  )

  unknown_complete :
      (states : List StateAssertion)
      → StatesDeclared l states
      → unknown_state_errors (normalize_lifecycle l) states ≡ []
  unfolding unknown_state_errors
  unknown_complete [] h = refl
  unknown_complete (x ∷ xs) h =
      let rest = unknown_complete xs (λ a m. h a (Memᴰ.tail m)) in
      ground (
        arith,
        h x (Memᴰ.head refl),
        declared_iff l x.state,
        eq_iff x.lifecycle (normalize_lifecycle l).name,
      )

-- `Lifecycle.checkSnapshot` reports nothing exactly where no individual is recorded in two states
-- of the lifecycle and every state recorded for it is declared.
pub check_snapshot_iff :
    (l : Lifecycle) (s : Snapshot)
    → (LifecycleCheck.check_snapshot l s ≡ []) ↔ (
        Agree (normalize_lifecycle l) "" (normalize_snapshot s).states
        × StatesDeclared l (normalize_snapshot s).states)
unfolding LifecycleCheck.check_snapshot
check_snapshot_iff l s =
    let states = (normalize_snapshot s).states in
    let both =
      append-eq-nil_iff (check_single_state (normalize_lifecycle l) s "")
        (unknown_state_errors (normalize_lifecycle l) states) in
    let single : (check_single_state (normalize_lifecycle l) s "" ≡ [])
        ↔ Agree (normalize_lifecycle l) "" states =
      rw (normalize_lifecycle_idem l) at (check_single_state_iff (normalize_lifecycle l) s "") in
    (
      λ h. let (a, b) = both.0 h in (single.0 a, unknown_sound l states b),
      λ (a, b). both.1 (single.1 a, unknown_complete l states b),
    )

-- A required property of a domain is total, and every property has one object.
abbrev pub IsFunctional : FunctionalProperty → Text → Snapshot → Type 0
IsFunctional f domain s =
    ((normalize_property f).relation ≡ "")
    ⊎ (SingleValued (normalize_property f).relation s.relations
        × ((normalize_property f).required ≡ true
            → domain ≢ ""
            → IsTotal (normalize_property f).relation domain s))

-- What a model asks of a snapshot, each slice of the model read as a set.
pub record Satisfies {C : Type 0} ⦃c : Constraint C⦄ (m : Ontology C) (s : Snapshot) : Type 0 where
  pub declared : Declared m.entities s.types
  pub related : Related m.signatures s
  pub apart : (d : DisjointSet) → Memᴰ d m.disjoint → HeldApart (normalize_set d).types s.types
  pub functional :
      (f : FunctionalProperty) → Memᴰ f m.functional → IsFunctional f (domain_of m f.relation) s
  pub recorded :
      (l : Lifecycle)
      → Memᴰ l m.lifecycles
      → Agree (normalize_lifecycle l) "" (normalize_snapshot s).states
        × StatesDeclared l (normalize_snapshot s).states
  pub custom : (k : C) → Memᴰ (some k) m.custom → c.check k m s ≡ []

module _ {C : Type 0} ⦃c : Constraint C⦄ where
  custom_iff :
      (m : Ontology C) (s : Snapshot)
      → (flat (custom_error m s) m.custom ≡ [])
        ↔ ((k : C) → Memᴰ (some k) m.custom → c.check k m s ≡ [])
  unfolding custom_error
  custom_iff m s =
      let each = flat-eq-nil_iff (custom_error m s) m.custom in
      (
        λ h k. each.0 h (some k),
        λ h. each.1 (λ o n. elim (Option-cases o) [
          | inl e ↦ rw e refl
          | inr (k, e) ↦ rw e (h k (rw e at n))
        ]),
      )

  violations_iff : (m : Ontology C) (s : Snapshot) → (violations m s ≡ []) ↔ Satisfies m s
  unfolding violations
  violations_iff m s =
      let related = relation_errors_iff m.signatures s in
      let apart = flat-eq-nil_iff (λ d. check_disjoint d s) m.disjoint in
      let functional =
        flat-eq-nil_iff (λ f. check_functional f s (domain_of m f.relation)) m.functional in
      let recorded = flat-eq-nil_iff (λ l. LifecycleCheck.check_snapshot l s) m.lifecycles in
      (
        λ h.
            let (h1, k) = (append-eq-nil_iff _ _).0 h in
            let (h2, l) = (append-eq-nil_iff _ _).0 h1 in
            let (h3, f) = (append-eq-nil_iff _ _).0 h2 in
            let (h4, d) = (append-eq-nil_iff _ _).0 h3 in
            let (a, b) = (append-eq-nil_iff _ _).0 h4 in
            record {
              declared = (type_errors_iff m.entities s.types).0 a;
              related = related.0 b;
              apart = λ x n. (check_disjoint_iff x s).0 (apart.0 d x n);
              functional = λ x n. (check_functional_iff x s _).0 (functional.0 f x n);
              recorded = λ x n. (check_snapshot_iff x s).0 (recorded.0 l x n);
              custom = (custom_iff m s).0 k;
            },
        λ r.
            let a = (type_errors_iff m.entities s.types).1 r.declared in
            let b = related.1 r.related in
            let d = apart.1 (λ x n. (check_disjoint_iff x s).1 (r.apart x n)) in
            let f = functional.1 (λ x n. (check_functional_iff x s _).1 (r.functional x n)) in
            let l = recorded.1 (λ x n. (check_snapshot_iff x s).1 (r.recorded x n)) in
            let k = (custom_iff m s).1 r.custom in
            let h4 = (append-eq-nil_iff _ _).1 (a, b) in
            let h3 = (append-eq-nil_iff _ _).1 (h4, d) in
            let h2 = (append-eq-nil_iff _ _).1 (h3, f) in
            let h1 = (append-eq-nil_iff _ _).1 (h2, l) in (append-eq-nil_iff _ _).1 (h1, k),
      )

  -- `Check` reports nothing exactly where the normalized snapshot satisfies the normalized model.
  pub check_iff :
      (o : Ontology C) (s : Snapshot)
      → (check o s ≡ []) ↔ Satisfies (normalize_model o) (normalize_snapshot s)
  unfolding check
  check_iff o s =
      let sorted = sort_stable-nil_iff (violations (normalize_model o) (normalize_snapshot s)) in
      let all = violations_iff (normalize_model o) (normalize_snapshot s) in
      (λ h. all.0 (sorted.0 h), λ h. sorted.1 (all.1 h))

  -- `Check` reports the same errors in the same order for two snapshots, neither marked as
  -- normalized, that list the same assertions in different orders.
  pub check-perm :
      (o : Ontology C) (s t : Snapshot)
      → s.normalized ≡ false
      → t.normalized ≡ false
      → Perm s.types t.types
      → Perm s.relations t.relations
      → Perm s.states t.states
      → check o s ≡ check o t
  unfolding check
  check-perm o s t hs ht p q r = rw (normalize_snapshot-perm s t hs ht p q r)
