-- ===== src/Ontology/Lifecycle/Legal.antt =====
-- `CheckTransition` permits exactly the legal moves.

use cervo_rules.Prelude.{
  ◌≡◌, refl, ◌≢◌, ◌∙◌, ap, sym, ◌↔◌, ◌⊎◌, inl, inr, true, Option, none, some, List, [], Memᴰ,
  Memᴰ-nil, arith, eq_iff, elem_iff, Option-cases, List-cases,
}
use cervo_rules.Text.{normalize}
use cervo_rules.Ontology.Names.{Individual, State, new_individual, new_state}
use cervo_rules.Ontology.Snapshot.{StateAssertion, Snapshot, normalize_snapshot, state_of}
use cervo_rules.Ontology.Snapshot.Normal.{IsHonest, state_fields, find_state-none, find_state-some}
use cervo_rules.Ontology.Lifecycle.Normal.{
  IsNamed, normal_name, normalize_lifecycle_idem, next-normalize, has_state-normalize,
}
use cervo_rules.Ontology.Lifecycle.Reach.{Leads, next_iff}
use cervo_rules.Ontology.Lifecycle.{Lifecycle, normalize_lifecycle, has_state, next, is_terminal}
use cervo_rules.Ontology.Lifecycle.Check.{
  check_single_state, move_errors, check_normal, check_transition,
}
use cervo_rules.Ontology.Lifecycle.Single.{Agree, check_single_state_iff}

-- Some assertion of the normalized snapshot records the individual in the state.
abbrev pub Recorded : Lifecycle → Snapshot → Individual → State → Type 0
Recorded l s i c =
    (a : StateAssertion) × Memᴰ a (normalize_snapshot s).states
    × (a.lifecycle ≡ (normalize_lifecycle l).name)
    × (a.individual ≡ new_individual i)
    × (a.state ≡ c)

-- The move of an individual to a target, as the comment of `CheckTransition` describes it.
pub record LegalMove (l : Lifecycle) (s : Snapshot) (i : Individual) (target : State) : Type 0 where
  pub declared : Memᴰ target (normalize_lifecycle l).states
  pub single : Agree (normalize_lifecycle l) i (normalize_snapshot s).states
  pub moves :
      (((c : State) → ¬ Recorded l s i c)
        × (((normalize_lifecycle l).initial ≡ "") ⊎ (target ≡ (normalize_lifecycle l).initial)))
      ⊎ ((c : State) × Recorded l s i c × (c ≢ target) × Leads l c target)

module _ (l : Lifecycle) (s : Snapshot) (i : Individual) (named : IsNamed l)
    (honest : IsHonest s) where
  abbrev states : List StateAssertion
  states = (normalize_snapshot s).states

  abbrev current : Option State
  current = state_of (normalize_snapshot s) (normalize_lifecycle l).name i

  Recorded-of_current : (c : State) → current ≡ some c → Recorded l s i c
  unfolding state_of
  Recorded-of_current c h =
      let (a, m, r, e) = find_state-some _ _ states c h in
      let (lifecycle, individual, state) = state_fields s honest a m in
      let name = normal_name l named in (a, m, cc, cc, cc)

  not-Recorded : current ≡ none → (c : State) → ¬ Recorded l s i c
  unfolding state_of
  not-Recorded h c (a, m, e, f, g) =
      let (lifecycle, individual, state) = state_fields s honest a m in
      find_state-none _ _ states a h m (ap normalize e, individual ∙ f)

  Recorded-current :
      Agree (normalize_lifecycle l) i states → (c : State) → Recorded l s i c → current ≡ some c
  Recorded-current agree c r = elim (Option-cases current) [
    | inl e ↦ absurd (not-Recorded e c r)
    | inr (d, e) ↦
        let (a, m, al, ai, ac) = r in
        let (b, k, bl, bi, bd) = Recorded-of_current d e in
        let na = (state_fields s honest a m).1 ∙ ai in
        let nb = (state_fields s honest b k).1 ∙ bi in
        let same : a.state ≡ b.state = agree a b m k (al, inr na) (bl, inr nb) (na ∙ sym nb) in cc
  ]

-- What the end of `CheckTransition` asks of the current state that was read.
abbrev Allowed : Lifecycle → State → Option State → Type 0
Allowed l target none = (l.initial ≡ "") ⊎ (target ≡ l.initial)
Allowed l target (some c) = (c ≢ target) × Memᴰ target (next l c)

move_errors_iff :
    (l : Lifecycle) (i : Individual) (target : State) (o : Option State)
    → (move_errors l i target o ≡ []) ↔ Allowed l target o
unfolding move_errors is_terminal
move_errors_iff l i target none = ground (arith, eq_iff l.initial "", eq_iff target l.initial)
move_errors_iff l i target (some c) =
    ground
      (arith, List-cases (next l c), eq_iff c target, elem_iff target (next l c), Memᴰ-nil target)

check_normal-nil :
    (l : Lifecycle) (s : Snapshot) (i : Individual) (target : State)
    → (check_normal l s i target ≡ []) ↔ (
        (has_state l target ≡ true)
        × (check_single_state l s i ≡ [])
        × (move_errors l i target (state_of (normalize_snapshot s) l.name i) ≡ []))
unfolding check_normal
check_normal-nil l s i target = ground arith

module _ (l : Lifecycle) (s : Snapshot) (i : Individual) (named : IsNamed l)
    (honest : IsHonest s) where
  abbrev read : Option State
  read = state_of (normalize_snapshot s) (normalize_lifecycle l).name i

  abbrev Moves : State → Type 0
  Moves target =
      (((c : State) → ¬ Recorded l s i c)
        × (((normalize_lifecycle l).initial ≡ "") ⊎ (target ≡ (normalize_lifecycle l).initial)))
      ⊎ ((c : State) × Recorded l s i c × (c ≢ target) × Leads l c target)

  Moves-of_Allowed :
      (target : State) (o : Option State)
      → read ≡ o
      → Allowed (normalize_lifecycle l) target o
      → Moves target
  Moves-of_Allowed target none e h = inl (not-Recorded l s i named honest e, h)
  Moves-of_Allowed target (some c) e h = inr (
    c,
    Recorded-of_current l s i named honest c e,
    h.0,
    (next_iff l c target).0 (rw next-normalize at h.1),
  )

  Allowed-of_Moves :
      Agree (normalize_lifecycle l) i (normalize_snapshot s).states
      → (target : State) → Moves target
      → Allowed (normalize_lifecycle l) target read
  Allowed-of_Moves agree target (inl (unrecorded, h)) = elim (Option-cases read) [
    | inl e ↦ rw e h
    | inr (c, e) ↦ absurd (unrecorded c (Recorded-of_current l s i named honest c e))
  ]
  Allowed-of_Moves agree target (inr (c, r, ne, m)) =
      rw (Recorded-current l s i named honest agree c r)
        (ne, rw next-normalize ((next_iff l c target).1 m))

-- `CheckTransition` reports nothing exactly for the legal moves: the target is declared, no two
-- assertions about the individual record different states of the lifecycle, and either no state is
-- recorded and the target is the initial state (or none is declared), or the recorded state is
-- another than the target and its first declared transition lists the target. A lifecycle or a
-- snapshot that is marked as normalized must be so in its name or in its state assertions.
pub check_transition_iff :
    (l : Lifecycle) (s : Snapshot) (i : Individual) (to : State)
    → IsNamed l
    → IsHonest s
    → (check_transition l s i to ≡ []) ↔ LegalMove l s i (new_state to)
unfolding check_transition
check_transition_iff l s i to named honest =
    let whole = check_normal-nil (normalize_lifecycle l) s i (new_state to) in
    let target = has_state-normalize l to in
    let moves =
      move_errors_iff (normalize_lifecycle l) i (new_state to) (read l s i named honest) in
    let agree : (check_single_state (normalize_lifecycle l) s i ≡ [])
        ↔ Agree (normalize_lifecycle l) i (normalize_snapshot s).states =
      rw (normalize_lifecycle_idem l) at (check_single_state_iff (normalize_lifecycle l) s i) in
    (
      λ h.
          let (declared, single, move) = whole.0 h in
          record {
            declared = target.0 declared;
            single = agree.0 single;
            moves = Moves-of_Allowed l s i named honest (new_state to) _ refl (moves.0 move);
          },
      λ m. whole.1 (
        target.1 m.declared,
        agree.1 m.single,
        moves.1 (Allowed-of_Moves l s i named honest m.single (new_state to) m.moves),
      ),
    )
