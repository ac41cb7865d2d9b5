-- ===== src/Ontology/Snapshot/Normal.antt =====
-- What is known of the assertions of a normalized snapshot, and what `StateOf` finds among them.
use cervo_rules.Prelude.{
  ◌≡◌, refl, ap, inl, inr, ◌&&◌, true, none, some, List, [], ◌∷◌, map, Memᴰ, Memᴰ-cons, Memᴰ-nil,
  arith, ◌==◌, eq_iff, Bool-cases,
}
use cervo_rules.Prelude.Sort.{mem-sort}
use cervo_rules.Text.{Text, normalize}
use cervo_rules.Ontology.Names.{Individual, State, new_individual, new_state}
use cervo_rules.Ontology.Snapshot.{
  StateAssertion, Snapshot, normalize_state, normalize_snapshot, less_state, find_state,
}
use cervo_rules.Ontology.Snapshot.Order.{normalize_state_idem}

-- A snapshot that is marked as normalized is: only `Normalize` sets the mark.
abbrev pub IsHonest : Snapshot → Type 0
IsHonest s = s.normalized ≡ true → (a : StateAssertion) → Memᴰ a s.states → normalize_state a ≡ a

mem-map_normal :
    (a : StateAssertion) (xs : List StateAssertion)
    → Memᴰ a (map normalize_state xs)
    → normalize_state a ≡ a
mem-map_normal a [] m = absurd (Memᴰ-nil a m)
mem-map_normal a (x ∷ xs) m = ground (
  arith,
  Memᴰ-cons a (normalize_state x) (map normalize_state xs),
  normalize_state_idem x,
  mem-map_normal a xs,
)

pub states_normal :
    (s : Snapshot)
    → IsHonest s
    → (a : StateAssertion) → Memᴰ a (normalize_snapshot s).states
    → normalize_state a ≡ a
unfolding normalize_snapshot
states_normal s h a m = elim (Bool-cases s.normalized) [
  | inl e ↦ h e a (rw e at m)
  | inr e ↦
      mem-map_normal a s.states
        ((mem-sort less_state a (map normalize_state s.states)).0 (rw e at m))
]

-- Its three names are normal.
pub state_fields :
    (s : Snapshot)
    → IsHonest s
    → (a : StateAssertion) → Memᴰ a (normalize_snapshot s).states
    → (normalize a.lifecycle ≡ a.lifecycle)
      × (new_individual a.individual ≡ a.individual)
      × (new_state a.state ≡ a.state)
unfolding normalize_state
state_fields s h a m =
    let normal = states_normal s h a m in
    (
      ap (λ (x : StateAssertion). x.lifecycle) normal,
      ap (λ (x : StateAssertion). x.individual) normal,
      ap (λ (x : StateAssertion). x.state) normal,
    )

-- An assertion that `StateOf` would take.
abbrev pub Records : Text → Individual → StateAssertion → Type 0
Records l i a = (normalize a.lifecycle ≡ l) × (new_individual a.individual ≡ i)

pub find_state-none :
    (l : Text) (i : Individual) (xs : List StateAssertion) (a : StateAssertion)
    → find_state l i xs ≡ none
    → Memᴰ a xs
    → ¬ Records l i a
unfolding find_state
find_state-none l i [] a h m r = Memᴰ-nil a m
find_state-none l i (x ∷ xs) a h m r = ground (
  arith,
  Memᴰ-cons a x xs,
  eq_iff (normalize x.lifecycle) l,
  eq_iff (new_individual x.individual) i,
  find_state-none l i xs a,
)

pub find_state-some :
    (l : Text) (i : Individual) (xs : List StateAssertion) (c : State)
    → find_state l i xs ≡ some c
    → (a : StateAssertion) × Memᴰ a xs × Records l i a × (new_state a.state ≡ c)
unfolding find_state
find_state-some l i [] c h = cc
find_state-some l i (x ∷ xs) c h =
    elim (Bool-cases (normalize x.lifecycle == l && new_individual x.individual == i)) [
      | inl e ↦ (
        x,
        (Memᴰ-cons x x xs).1 (inl refl),
        ground (arith, eq_iff (normalize x.lifecycle) l, eq_iff (new_individual x.individual) i),
        ground arith,
      )
      | inr e ↦
          let (a, m, r, s) = find_state-some l i xs c (rw e at h) in
          (a, (Memᴰ-cons a x xs).1 (inr m), r, s)
    ]
