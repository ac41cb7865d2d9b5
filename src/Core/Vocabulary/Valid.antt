-- ===== src/Core/Vocabulary/Valid.antt =====
-- core/vocabulary.go: which names, requests and decisions a vocabulary accepts.
use mathlib.Core.List.Memᴰ
use cervo_rules.Prelude.{
  ℕ, suc, ◌≡◌, refl, ◌≢◌, ◌↔◌, ◌⊎◌, inl, inr, Option, none, some, List, [], ◌∷◌, Memᴰ, Memᴰ-cons,
  Memᴰ-nil, arith, ◌==◌, eq_iff, elem_iff, append-eq-nil_iff, Bool-cases, List-cases, sym, ap, ◌∙◌,
}
use cervo_rules.Text.{Text, normalize}
use cervo_rules.Core.Error.{Error}
use cervo_rules.Core.Types.{Target, Executor, Request, Decision}
use cervo_rules.Core.Vocabulary.{
  StaticVocabulary, name_set, validate_operation, validate_target, validate_executor,
  validate_request, validation_errors, labelled, present, target_errors, executor_errors,
  decision_errors, validate_decision, indexed_field,
}

-- The set keeps the normalized names that are not empty.
pub name_set_iff :
    (t : Text) (xs : List Text)
    → Memᴰ t (name_set xs) ↔ ((t ≢ "") × ((x : Text) × Memᴰ x xs × (normalize x ≡ t)))
unfolding name_set
name_set_iff t [] = (λ m. absurd (Memᴰ-nil t m), λ (h, (x, m, e)). absurd (Memᴰ-nil x m))
name_set_iff t (x ∷ xs) =
    let (sound, complete) = name_set_iff t xs in
    elim (Bool-cases (normalize x == "")) [
      | inl e ↦ (
        λ m. let (h, (y, k, f)) = sound (rw (e, name_set) at m) in (h, (y, Memᴰ.tail k, f)),
        λ (h, (y, k, f)).
            rw (e, name_set)
              (complete (h, (y, ground (arith, Memᴰ-cons y x xs, eq_iff (normalize x) ""), f))),
      )
      | inr e ↦ (
        λ m. elim (Memᴰ.cases_cons (rw (e, name_set) at m)) [
          | inl same ↦ (ground (arith, eq_iff (normalize x) ""), (x, Memᴰ.head refl, sym same))
          | inr k ↦ let (h, (y, n, f)) = sound k in (h, (y, Memᴰ.tail n, f))
        ],
        λ (h, (y, k, f)). elim (Memᴰ.cases_cons k) [
          | inl same ↦ rw (e, name_set) (Memᴰ.head (sym f ∙ ap normalize same))
          | inr n ↦ rw (e, name_set) (Memᴰ.tail (complete (h, (y, n, f))))
        ],
      )
    ]

-- A name is accepted if it is not empty and the set is empty or has its normal form.
abbrev pub Accepted : List Text → Text → Type 0
Accepted names x = (normalize x ≢ "") × ((names ≡ []) ⊎ Memᴰ (normalize x) names)

module _ (v : StaticVocabulary) where
  validate_target_iff : (t : Target) → (validate_target v t ≡ none) ↔ Accepted v.targets t
  unfolding validate_target
  validate_target_iff t = ground (
    arith,
    List-cases v.targets,
    eq_iff (normalize t) "",
    elem_iff (normalize t) v.targets,
    Memᴰ-nil (normalize t),
  )

  validate_executor_iff : (t : Executor) → (validate_executor v t ≡ none) ↔ Accepted v.executors t
  unfolding validate_executor
  validate_executor_iff t = ground (
    arith,
    List-cases v.executors,
    eq_iff (normalize t) "",
    elem_iff (normalize t) v.executors,
    Memᴰ-nil (normalize t),
  )

  -- `ValidateRequest` accepts exactly a request with no operation, or with one whose normal form is
  -- not empty and is in the set of operations, if that set has any name.
  pub validate_request_iff :
      (req : Request)
      → (validate_request v req ≡ none)
        ↔ ((req.operation ≡ "") ⊎ Accepted v.operations req.operation)
  unfolding validate_request validate_operation
  validate_request_iff req = ground (
    arith,
    List-cases v.operations,
    eq_iff req.operation "",
    eq_iff (normalize req.operation) "",
    elem_iff (normalize req.operation) v.operations,
    Memᴰ-nil (normalize req.operation),
  )

  labelled-nil_iff : (o : Option Error) (f : Text) → (labelled o f ≡ []) ↔ (o ≡ none)
  unfolding labelled validation_errors
  labelled-nil_iff none f = (λ h. refl, λ h. refl)
  labelled-nil_iff (some e) f = (λ h. cc, λ h. cc)

  target_errors-nil_iff :
      (i : ℕ) (ts : List Target)
      → (target_errors v i ts ≡ []) ↔ ((t : Target) → Memᴰ t ts → Accepted v.targets t)
  unfolding target_errors
  target_errors-nil_iff i [] = (λ h t m. absurd (Memᴰ-nil t m), λ h. refl)
  target_errors-nil_iff i (t ∷ ts) =
      let both =
        append-eq-nil_iff (labelled (validate_target v t) (indexed_field "fallback_targets" i))
          (target_errors v (suc i) ts) in
      let rest = target_errors-nil_iff (suc i) ts in
      let first = labelled-nil_iff (validate_target v t) (indexed_field "fallback_targets" i) in
      (
        λ h u m. elim (Memᴰ.cases_cons m) [
          | inl e ↦ rw e ((validate_target_iff t).0 (first.0 (both.0 h).0))
          | inr k ↦ rest.0 (both.0 h).1 u k
        ],
        λ h. both.1 (
          first.1 ((validate_target_iff t).1 (h t (Memᴰ.head refl))),
          rest.1 (λ u m. h u (Memᴰ.tail m)),
        ),
      )

  executor_errors-nil_iff :
      (i : ℕ) (ts : List Executor)
      → (executor_errors v i ts ≡ []) ↔ ((t : Executor) → Memᴰ t ts → Accepted v.executors t)
  unfolding executor_errors
  executor_errors-nil_iff i [] = (λ h t m. absurd (Memᴰ-nil t m), λ h. refl)
  executor_errors-nil_iff i (t ∷ ts) =
      let both =
        append-eq-nil_iff (labelled (validate_executor v t) (indexed_field "fallback_executors" i))
          (executor_errors v (suc i) ts) in
      let rest = executor_errors-nil_iff (suc i) ts in
      let first = labelled-nil_iff (validate_executor v t) (indexed_field "fallback_executors" i) in
      (
        λ h u m. elim (Memᴰ.cases_cons m) [
          | inl e ↦ rw e ((validate_executor_iff t).0 (first.0 (both.0 h).0))
          | inr k ↦ rest.0 (both.0 h).1 u k
        ],
        λ h. both.1 (
          first.1 ((validate_executor_iff t).1 (h t (Memᴰ.head refl))),
          rest.1 (λ u m. h u (Memᴰ.tail m)),
        ),
      )

  present-nil_iff :
      (x : Text) (o : Option Error) (f : Text) → (present x o f ≡ []) ↔ ((x ≡ "") ⊎ (o ≡ none))
  unfolding present
  present-nil_iff x o f = ground (arith, eq_iff x "", labelled-nil_iff o f)

  -- What `ValidateDecision` asks of a decision.
  pub record ValidDecision (d : Decision) : Type 0 where
    pub target : (d.target ≡ "") ⊎ Accepted v.targets d.target
    pub executor : (d.executor ≡ "") ⊎ Accepted v.executors d.executor
    pub fallback_targets : (t : Target) → Memᴰ t d.fallback_targets → Accepted v.targets t
    pub fallback_executors : (e : Executor) → Memᴰ e d.fallback_executors → Accepted v.executors e

  decision_errors-nil_iff : (d : Decision) → (decision_errors v d ≡ []) ↔ ValidDecision d
  unfolding decision_errors
  decision_errors-nil_iff d =
      let t = present-nil_iff d.target (validate_target v d.target) "target" in
      let e = present-nil_iff d.executor (validate_executor v d.executor) "executor" in
      let ts = target_errors-nil_iff 0 d.fallback_targets in
      let es = executor_errors-nil_iff 0 d.fallback_executors in
      (
        λ h.
            let (h1, k4) = (append-eq-nil_iff _ _).0 h in
            let (h2, k3) = (append-eq-nil_iff _ _).0 h1 in
            let (k1, k2) = (append-eq-nil_iff _ _).0 h2 in
            record {
              target = ground (arith, t.0 k1, validate_target_iff d.target);
              executor = ground (arith, e.0 k2, validate_executor_iff d.executor);
              fallback_targets = ts.0 k3;
              fallback_executors = es.0 k4;
            },
        λ r.
            let k1 = t.1 (ground (arith, r.target, validate_target_iff d.target)) in
            let k2 = e.1 (ground (arith, r.executor, validate_executor_iff d.executor)) in
            let h2 = (append-eq-nil_iff _ _).1 (k1, k2) in
            let h1 = (append-eq-nil_iff _ _).1 (h2, ts.1 r.fallback_targets) in
            (append-eq-nil_iff _ _).1 (h1, es.1 r.fallback_executors),
      )

  -- `ValidateDecision` returns nil exactly for a decision whose target and executor are absent or
  -- accepted, and whose fallbacks are all accepted.
  pub validate_decision_iff : (d : Decision) → (validate_decision v d ≡ none) ↔ ValidDecision d
  unfolding validate_decision
  validate_decision_iff d =
      let all = decision_errors-nil_iff d in
      (
        λ h. all.0 (ground (arith, List-cases (decision_errors v d))),
        λ r. let e = all.1 r in rw e refl,
      )
