-- ===== src/Ontology/Lifecycle/Single.antt =====
-- `checkSingleState` finds nothing exactly where the recorded states agree.

use cervo_rules.Prelude.{
  ◌≡◌, refl, ◌↔◌, ◌⊎◌, inl, inr, true, some, List, [], ◌∷◌, Memᴰ, Memᴰ-cons, Memᴰ-nil, arith,
  eq_iff, Bool-cases, Option-cases,
}
use cervo_rules.Ontology.Names.{Individual, State, new_individual}
use cervo_rules.Ontology.Snapshot.{StateAssertion, Snapshot, normalize_snapshot}
use cervo_rules.Ontology.Lifecycle.{Lifecycle, normalize_lifecycle}
use cervo_rules.Ontology.Lifecycle.Check.{is_relevant, lookup_state, conflicts, check_single_state}

-- The assertions about a lifecycle, of one individual or of all (`only` is empty).
abbrev pub IsAbout : Lifecycle → Individual → StateAssertion → Type 0
IsAbout l only a =
    (a.lifecycle ≡ l.name) × ((only ≡ "") ⊎ (new_individual a.individual ≡ new_individual only))

-- Any two assertions about one individual record the same state.
abbrev pub Agree : Lifecycle → Individual → List StateAssertion → Type 0
Agree l only states =
    (a b : StateAssertion)
    → Memᴰ a states
    → Memᴰ b states
    → IsAbout l only a
    → IsAbout l only b
    → new_individual a.individual ≡ new_individual b.individual
    → a.state ≡ b.state

pub is_relevant_iff :
    (l : Lifecycle) (only : Individual) (a : StateAssertion)
    → (is_relevant l only a ≡ true) ↔ IsAbout l only a
unfolding is_relevant
is_relevant_iff l only a = ground (
  arith,
  eq_iff a.lifecycle l.name,
  eq_iff only "",
  eq_iff (new_individual a.individual) (new_individual only),
)

module _ (l : Lifecycle) (only : Individual) where
  -- What the loop has seen agrees with what is left.
  abbrev Fits : List (Individual × State) → List StateAssertion → Type 0
  Fits seen states =
      (a : StateAssertion) (s : State)
      → Memᴰ a states
      → IsAbout l only a
      → lookup_state (new_individual a.individual) seen ≡ some s
      → s ≡ a.state

  conflicts_sound :
      (seen : List (Individual × State)) (states : List StateAssertion)
      → conflicts l only seen states ≡ []
      → Fits seen states × Agree l only states
  unfolding conflicts lookup_state
  conflicts_sound seen [] h = (λ a s m. absurd (Memᴰ-nil a m), λ a b m. absurd (Memᴰ-nil a m))
  conflicts_sound seen (x ∷ xs) h = elim (Bool-cases (is_relevant l only x)) [
    | inr skip ↦
        let (fits, agree) = conflicts_sound seen xs (ground arith) in
        (
          λ a s m about e. ground (arith, fits a s, Memᴰ-cons a x xs, is_relevant_iff l only x),
          λ a b m k p q e.
              ground
                (arith, agree a b, Memᴰ-cons a x xs, Memᴰ-cons b x xs, is_relevant_iff l only x),
        )
    | inl rel ↦ elim (Option-cases (lookup_state (new_individual x.individual) seen)) [
      | inl unseen ↦
          let (fits, agree) =
            conflicts_sound ((new_individual x.individual, x.state) ∷ seen) xs (ground arith) in
          (
            λ a s m about e. ground (
              arith,
              fits a s,
              Memᴰ-cons a x xs,
              eq_iff (new_individual x.individual) (new_individual a.individual),
            ),
            λ a b m k p q e. ground (
              arith,
              agree a b,
              fits a x.state,
              fits b x.state,
              Memᴰ-cons a x xs,
              Memᴰ-cons b x xs,
              eq_iff (new_individual x.individual) (new_individual a.individual),
              eq_iff (new_individual x.individual) (new_individual b.individual),
            ),
          )
      | inr (s, found) ↦
          let same : s ≡ x.state = ground (arith, eq_iff s x.state) in
          let (fits, agree) = conflicts_sound seen xs (ground (arith, eq_iff s x.state)) in
          (
            λ a t m about e. ground (arith, fits a t, Memᴰ-cons a x xs),
            λ a b m k p q e.
                ground (arith, agree a b, fits a s, fits b s, Memᴰ-cons a x xs, Memᴰ-cons b x xs),
          )
    ]
  ]

  conflicts_complete :
      (seen : List (Individual × State)) (states : List StateAssertion)
      → Fits seen states
      → Agree l only states
      → conflicts l only seen states ≡ []
  unfolding conflicts lookup_state
  conflicts_complete seen [] fits agree = refl
  conflicts_complete seen (x ∷ xs) fits agree =
      let agree' : Agree l only xs = λ a b m k. agree a b (Memᴰ.tail m) (Memᴰ.tail k) in
      let fits' : Fits seen xs = λ a s m. fits a s (Memᴰ.tail m) in
      elim (Bool-cases (is_relevant l only x)) [
        | inr skip ↦ rw skip (conflicts_complete seen xs fits' agree')
        | inl rel ↦ elim (Option-cases (lookup_state (new_individual x.individual) seen)) [
          | inl unseen ↦
              let first : Fits ((new_individual x.individual, x.state) ∷ seen) xs = λ a s m about e.
                ground (
                  arith,
                  fits a s,
                  agree x a (Memᴰ.head refl) (Memᴰ.tail m),
                  Memᴰ-cons a x xs,
                  is_relevant_iff l only x,
                  eq_iff (new_individual x.individual) (new_individual a.individual),
                ) in
              rw (rel, unseen)
                (conflicts_complete ((new_individual x.individual, x.state) ∷ seen) xs first agree')
          | inr (s, found) ↦
              let same : s ≡ x.state =
                fits x s (Memᴰ.head refl) ((is_relevant_iff l only x).0 rel) found in
              ground (arith, eq_iff s x.state, conflicts_complete seen xs fits' agree')
        ]
      ]

-- `checkSingleState` reports nothing exactly where any two assertions of the normalized snapshot
-- about one individual and this lifecycle record the same state.
pub check_single_state_iff :
    (l : Lifecycle) (s : Snapshot) (only : Individual)
    → (check_single_state l s only ≡ [])
      ↔ Agree (normalize_lifecycle l) only (normalize_snapshot s).states
unfolding check_single_state lookup_state
check_single_state_iff l s only = (
  λ h. (conflicts_sound (normalize_lifecycle l) only [] (normalize_snapshot s).states h).1,
  conflicts_complete (normalize_lifecycle l) only [] (normalize_snapshot s).states
      (λ a t m about e. cc),
)
