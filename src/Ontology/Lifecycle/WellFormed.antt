-- ===== src/Ontology/Lifecycle/WellFormed.antt =====
-- ontology/lifecycle.go: `Validate` reports nothing exactly for a well-formed lifecycle.
use mathlib.Core.List.Memᴰ
use cervo_rules.Prelude.{
  ◌≡◌, refl, ◌≢◌, ◌↔◌, ◌⊎◌, inl, inr, true, List, [], ◌∷◌, ◌++◌, map, ◌==◌, eq_iff, elem, elem_iff,
  Memᴰ, Memᴰ-nil, arith, Bool-cases, List-cases, append-eq-nil_iff,
}
use cervo_rules.Text.{Text}
use cervo_rules.Core.Errors.{Errors}
use cervo_rules.Core.Errors.Order.{sort_stable-nil_iff}
use cervo_rules.Ontology.Names.{State}
use cervo_rules.Ontology.Lifecycle.{
  Transition, Lifecycle, normalize_lifecycle, search_from, unreachable_from,
}
use cervo_rules.Ontology.Lifecycle.Validation.{
  undeclared, target_errors, transition_errors, unreachable_error, name_errors, initial_errors,
  unreachable_errors, no_states_error, validate_normal, validate,
}
use cervo_rules.Ontology.Lifecycle.Reach.{Reach, search_from-reachable, unreachable_from_iff}

-- What `Validate` asks of a normalized lifecycle.
pub record WellFormed (l : Lifecycle) : Type 0 where
  pub named : l.name ≢ ""
  pub inhabited : l.states ≢ []
  pub initial : (l.initial ≡ "") ⊎ Memᴰ l.initial l.states
  pub sources : (t : Transition) → Memᴰ t l.transitions → Memᴰ t.from l.states
  pub targets :
      (t : Transition) → Memᴰ t l.transitions → (v : State) → Memᴰ v t.to → Memᴰ v l.states
  pub reachable : (l.initial ≡ "") ⊎ ((v : State) → Memᴰ v l.states → Reach l l.initial v)

module _ (l : Lifecycle) where
  undeclared_iff : (f : Text) (s : State) (r : Text) → (undeclared l f s r ≡ []) ↔ Memᴰ s l.states
  undeclared_iff f s r = ground (arith, elem_iff s l.states)

  targets_iff :
      (ts : List State) → (target_errors l ts ≡ []) ↔ ((v : State) → Memᴰ v ts → Memᴰ v l.states)
  unfolding target_errors
  targets_iff [] = (λ h v m. absurd (Memᴰ-nil v m), λ h. refl)
  targets_iff (t ∷ ts) =
      let both =
        append-eq-nil_iff
          (undeclared l ".transitions.to" t "transition target state is not declared in states")
          (target_errors l ts) in
      let first =
        undeclared_iff ".transitions.to" t "transition target state is not declared in states" in
      let rest = targets_iff ts in
      (
        λ h v m. elim (Memᴰ.cases_cons m) [
          | inl e ↦ rw e (first.0 (both.0 h).0)
          | inr k ↦ rest.0 (both.0 h).1 v k
        ],
        λ h. both.1 (first.1 (h t (Memᴰ.head refl)), rest.1 (λ v m. h v (Memᴰ.tail m))),
      )

  transitions_iff :
      (ts : List Transition)
      → (transition_errors l ts ≡ []) ↔ (
          (t : Transition)
          → Memᴰ t ts
          → Memᴰ t.from l.states × ((v : State) → Memᴰ v t.to → Memᴰ v l.states))
  unfolding transition_errors
  transitions_iff [] = (λ h t m. absurd (Memᴰ-nil t m), λ h. refl)
  transitions_iff (t ∷ ts) =
      let source =
        undeclared_iff ".transitions.from" t.from
          "transition source state is not declared in states" in
      let rest = transitions_iff ts in
      (
        λ h u m.
            let (h1, k) = (append-eq-nil_iff _ _).0 h in
            let (a, b) = (append-eq-nil_iff _ _).0 h1 in
            elim (Memᴰ.cases_cons m) [
              | inl e ↦ rw e (source.0 a, (targets_iff t.to).0 b)
              | inr n ↦ rest.0 k u n
            ],
        λ h.
            let (a, b) = h t (Memᴰ.head refl) in
            (append-eq-nil_iff _ _).1 (
              (append-eq-nil_iff _ _).1 (source.1 a, (targets_iff t.to).1 b),
              rest.1 (λ u m. h u (Memᴰ.tail m)),
            ),
      )

  -- A declared state that is not listed as unreachable is reached.
  all_reached_iff :
      (unreachable_from l l.initial ≡ []) ↔ ((v : State) → Memᴰ v l.states → Reach l l.initial v)
  all_reached_iff = (
    λ h v m. elim (Bool-cases (elem v (search_from l l.initial).reachable)) [
      | inl e ↦ (search_from-reachable l l.initial v).0 ((elem_iff v _).0 e)
      | inr e ↦ absurd (
          Memᴰ-nil v (
            rw h at (
              (unreachable_from_iff l l.initial v).1 (
                m,
                λ r.
                    let f : elem v (search_from l l.initial).reachable ≡ true =
                      (elem_iff v _).1 ((search_from-reachable l l.initial v).1 r) in
                    ground arith,
              ))))
    ],
    λ h. elim (List-cases (unreachable_from l l.initial)) [
      | inl e ↦ e
      | inr (v, rest, e) ↦
          let (m, not_reached) = (unreachable_from_iff l l.initial v).0 (rw e (Memᴰ.head refl)) in
          absurd (not_reached (h v m))
    ],
  )

  unreachable_errors_iff :
      (unreachable_errors l ≡ [])
      ↔ ((l.initial ≡ "") ⊎ ((v : State) → Memᴰ v l.states → Reach l l.initial v))
  unfolding unreachable_errors
  unreachable_errors_iff = elim (Bool-cases (l.initial == "")) [
    | inl e ↦ (λ h. inl ((eq_iff l.initial "").0 e), λ h. rw e refl)
    | inr e ↦ (
      λ h. inr (all_reached_iff.0 (map-nil (unreachable_from l l.initial) (rw e at h))),
      λ h. elim h [
        | inl f ↦ absurd (ground (arith, eq_iff l.initial ""))
        | inr all ↦ rw (e, all_reached_iff.1 all) refl
      ],
    )
  ]
    where
      map-nil : (xs : List State) → map (unreachable_error l) xs ≡ [] → xs ≡ []
      map-nil [] h = refl
      map-nil (x ∷ xs) h = cc

name_errors_iff : (l : Lifecycle) → (name_errors l ≡ []) ↔ (l.name ≢ "")
unfolding name_errors
name_errors_iff l = ground (arith, eq_iff l.name "")

initial_errors_iff :
    (l : Lifecycle) → (initial_errors l ≡ []) ↔ ((l.initial ≡ "") ⊎ Memᴰ l.initial l.states)
unfolding initial_errors
initial_errors_iff l = ground (arith, eq_iff l.initial "", elem_iff l.initial l.states)

-- The errors of a lifecycle that declares some state.
abbrev all_errors : Lifecycle → Errors
all_errors l =
    name_errors l ++ initial_errors l ++ transition_errors l l.transitions ++ unreachable_errors l

validate_normal-nil :
    (l : Lifecycle) → (validate_normal l ≡ []) ↔ ((l.states ≢ []) × (all_errors l ≡ []))
unfolding validate_normal
validate_normal-nil l = ground (
  arith,
  List-cases l.states,
  sort_stable-nil_iff (all_errors l),
  sort_stable-nil_iff (name_errors l ++ no_states_error l ∷ []),
  append-eq-nil_iff (name_errors l) (no_states_error l ∷ []),
)

-- `Lifecycle.Validate` reports nothing exactly where the normalized lifecycle has a name and states,
-- its initial state and the ends of its transitions are declared, and every state is reached from
-- the initial state, if there is one, by steps that each go from a state to a target of the first
-- transition declared out of it.
pub validate_iff : (l : Lifecycle) → (validate l ≡ []) ↔ WellFormed (normalize_lifecycle l)
unfolding validate
validate_iff lifecycle =
    let l = normalize_lifecycle lifecycle in
    let whole = validate_normal-nil l in
    (
      λ h.
          let (inhabited, h0) = whole.0 h in
          let (h1, r) = (append-eq-nil_iff _ _).0 h0 in
          let (h2, t) = (append-eq-nil_iff _ _).0 h1 in
          let (n, i) = (append-eq-nil_iff _ _).0 h2 in
          record {
            named = (name_errors_iff l).0 n;
            inhabited = inhabited;
            initial = (initial_errors_iff l).0 i;
            sources = λ x m. ((transitions_iff l l.transitions).0 t x m).0;
            targets = λ x m. ((transitions_iff l l.transitions).0 t x m).1;
            reachable = (unreachable_errors_iff l).0 r;
          },
      λ w.
          let n = (name_errors_iff l).1 w.named in
          let i = (initial_errors_iff l).1 w.initial in
          let t = (transitions_iff l l.transitions).1 (λ x m. (w.sources x m, w.targets x m)) in
          let r = (unreachable_errors_iff l).1 w.reachable in
          let h2 = (append-eq-nil_iff _ _).1 (n, i) in
          let h1 = (append-eq-nil_iff _ _).1 (h2, t) in
          whole.1 (w.inhabited, (append-eq-nil_iff _ _).1 (h1, r)),
    )
