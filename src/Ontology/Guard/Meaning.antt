-- ===== src/Ontology/Guard/Meaning.antt =====
-- ontology/conditions.go: a condition holds exactly where the snapshot answers yes.
use mathlib.Core.List.Memᴰ
use cervo_rules.Prelude.{
  ◌≡◌, refl, ◌↔◌, ◌⊎◌, inl, inr, true, false, Option, none, some, List, [], ◌∷◌, Memᴰ, Memᴰ-nil,
  ◌==◌, eq_iff, arith, is_empty, List-cases, sum_cases, map, sym, Bool-cases,
}
use cervo_rules.Core.Errors.{Errors}
use cervo_rules.Core.Types.{Request}
use cervo_rules.Core.Conditions.{Condition, new_condition}
use cervo_rules.Ontology.Names.{Individual, State, new_entity_type, new_state}
use cervo_rules.Ontology.Snapshot.{Snapshot, normalize_snapshot, state_of}
use cervo_rules.Ontology.Model.{Ontology, Constraint, normalize_model}
use cervo_rules.Ontology.Model.Check as ModelCheck
use cervo_rules.Ontology.Model.Typing.{HasType, has_type_iff}
use cervo_rules.Ontology.Model.Satisfies.{Satisfies, check_iff}
use cervo_rules.Ontology.Scope.{SnapshotResolver, Context, resolve_once}
use cervo_rules.Ontology.Guard.{
  Check, Guard, bound_check, in_state, subject, evaluate, ask, explain, check_integrity,
  check_transition_allowed, check_in_state, check_has_type,
}
use cervo_rules.Ontology.Guard.Closed.{explain-cases}

in_state_iff :
    (states : List State) (o : Option State)
    → (in_state states o ≡ true)
      ↔ ((current : State) × (o ≡ some current) × Memᴰ current (map new_state states))
unfolding in_state
in_state_iff states none = (λ h. cc, λ (s, e, m). cc)
in_state_iff [] (some t) = (λ h. cc, λ (s, e, m). absurd (Memᴰ-nil s m))
in_state_iff (x ∷ xs) (some t) =
    let (sound, complete) = in_state_iff xs (some t) in
    elim (Bool-cases (new_state x == t)) [
      | inl e ↦ (
        λ h. (t, refl, Memᴰ.head (sym ((eq_iff (new_state x) t).0 e))),
        λ h. rw (e, in_state) refl,
      )
      | inr e ↦ (
        λ h. let (s, f, m) = sound (rw (e, in_state) at h) in (s, f, Memᴰ.tail m),
        λ (s, f, m). elim (Memᴰ.cases_cons m) [
          | inl same ↦ absurd (ground (arith, eq_iff (new_state x) t))
          | inr k ↦ rw (e, in_state) (complete (s, f, k))
        ],
      )
    ]

is_empty_iff : (es : Errors) → (is_empty es ≡ true) ↔ (es ≡ [])
is_empty_iff es = ground (arith, List-cases es)

module _ {C : Type 0} ⦃c : Constraint C⦄ where
  -- The question that a check of each kind asks of a snapshot.
  abbrev pub Meets : Ontology C → Check → Individual → Snapshot → Type 0
  Meets o k i s =
      ((k.kind ≡ check_integrity) × Satisfies (normalize_model o) (normalize_snapshot s))
      ⊎ ((k.kind ≡ check_transition_allowed)
          × (ModelCheck.check_transition o s k.lifecycle i k.to ≡ []))
      ⊎ ((k.kind ≡ check_in_state)
          × ((current : State) × (state_of s k.lifecycle i ≡ some current)
              × Memᴰ current (map new_state k.states)))
      ⊎ ((k.kind ≡ check_has_type) × HasType s i (new_entity_type k.entity_type))

  evaluate_iff :
      (o : Ontology C) (n : Condition) (k : Check) (i : Individual) (s : Snapshot)
      → ((evaluate o n k i s).holds ≡ true) ↔ Meets o k i s
  unfolding evaluate
  evaluate_iff o n k i s =
      let integrity = check_iff o s in
      let legal = is_empty_iff (ModelCheck.check_transition o s k.lifecycle i k.to) in
      let state = in_state_iff k.states (state_of s k.lifecycle i) in
      let typed = has_type_iff s i (new_entity_type k.entity_type) in
      (
        λ h. ground (
          arith,
          eq_iff k.kind check_integrity,
          eq_iff k.kind check_transition_allowed,
          eq_iff k.kind check_in_state,
          eq_iff k.kind check_has_type,
          integrity.0,
          is_empty_iff (ModelCheck.check o s),
          legal.0,
          state.0,
          typed.0,
        ),
        λ m. elim m [
          | inl (e, sat) ↦
              rw (e, evaluate) ((is_empty_iff (ModelCheck.check o s)).1 (integrity.1 sat))
          | inr (inl (e, h)) ↦ rw (e, evaluate) (legal.1 h)
          | inr (inr (inl (e, h))) ↦ rw (e, evaluate) (state.1 h)
          | inr (inr (inr (e, h))) ↦ rw (e, evaluate) (typed.1 h)
        ],
      )

  -- A condition holds exactly where it is bound to a check, the guard has a resolver, the subject
  -- of the check is known, the scope gives a snapshot, and that snapshot meets the check.
  pub explain_iff :
      {W : Type 0} (g : Guard C W) (n : Condition) (req : Request) (ctx : Context) (w : W)
      → ((explain g n req ctx w).0.holds ≡ true) ↔ (
          (k : Check) × (resolve : SnapshotResolver W) × (i : Individual) × (s : Snapshot)
          × (bound_check (new_condition n) g.checks ≡ some k)
          × (g.resolve ≡ some resolve)
          × (subject n k req ≡ inr i)
          × ((resolve_once ctx resolve req w).0 ≡ inr s)
          × Meets g.ontology k i s)
  unfolding explain ask
  explain_iff g n req ctx w = (
    λ h. elim (explain-cases g n req ctx w) [
      | inl (e, same) ↦ let f : false ≡ true = rw same at h in cc
      | inr (k, resolve, i, b, f, j, same) ↦ elim (sum_cases (resolve_once ctx resolve req w).0) [
        | inl (e, a) ↦ let f : false ≡ true = rw (same, ask, a) at h in cc
        | inr (s, a) ↦ (
          k,
          resolve,
          i,
          s,
          b,
          f,
          j,
          a,
          (evaluate_iff g.ontology n k i s).0 (rw (same, ask, a) at h),
        )
      ]
    ],
    λ (k, resolve, i, s, b, f, j, a, m).
        rw (b, f, j, a, explain, ask) ((evaluate_iff g.ontology n k i s).1 m),
  )
