-- ===== src/Ontology/Guard/Bindings.antt =====
-- ontology/conditions.go: a new guard finds every check that the caller binds.
use mathlib.Core.List.Memᴰ
use cervo_rules.Prelude.{
  ◌≡◌, refl, inl, inr, Option, some, List, [], ◌∷◌, if◌then◌else◌, ◌==◌, eq_iff, Memᴰ, Memᴰ-nil,
  arith,
}
use cervo_rules.Core.Conditions.{Condition, new_condition}
use cervo_rules.Ontology.Model.{Ontology, Constraint}
use cervo_rules.Ontology.Scope.{SnapshotResolver}
use cervo_rules.Ontology.Guard.{Check, bind_check, bind_checks, bound_check, new_guard}

bound_check-bind_check :
    (n c : Condition) (k : Check) (bound : List (Condition × Check))
    → bound_check n (bind_check c k bound) ≡ (if c == n then some k else bound_check n bound)
unfolding bind_check bound_check
bound_check-bind_check n c k [] = refl
bound_check-bind_check n c k ((d, j) ∷ rest) =
    ground (arith, eq_iff d c, eq_iff d n, eq_iff c n, bound_check-bind_check n c k rest)

-- The entries of a name all have one check.
abbrev pub BoundTo : Condition → Check → List (Condition × Check) → Type 0
BoundTo n k entries = (e : Condition × Check) → Memᴰ e entries → new_condition e.0 ≡ n → e.1 ≡ k

bound_check-kept :
    (n : Condition) (k : Check) (bound entries : List (Condition × Check))
    → BoundTo n k entries
    → bound_check n bound ≡ some k
    → bound_check n (bind_checks bound entries) ≡ some k
unfolding bind_checks
bound_check-kept n k bound [] all h = h
bound_check-kept n k bound ((c, j) ∷ rest) all h =
    let now = bound_check-bind_check n (new_condition c) j bound in
    let same = all (c, j) (Memᴰ.head refl) in
    bound_check-kept n k (bind_check (new_condition c) j bound) rest (λ e m. all e (Memᴰ.tail m))
      (ground (arith, now, same, eq_iff (new_condition c) n))

bound_check-bound :
    (n : Condition) (k : Check) (bound entries : List (Condition × Check)) (e : Condition × Check)
    → BoundTo n k entries
    → Memᴰ e entries
    → new_condition e.0 ≡ n
    → bound_check n (bind_checks bound entries) ≡ some k
unfolding bind_checks
bound_check-bound n k bound [] e all m f = absurd (Memᴰ-nil e m)
bound_check-bound n k bound ((c, j) ∷ rest) e all m f =
    let rest_of : BoundTo n k rest = λ x p. all x (Memᴰ.tail p) in
    let now = bound_check-bind_check n (new_condition c) j bound in
    elim (Memᴰ.cases_cons m) [
      | inl same ↦
          let named : new_condition c ≡ n = rw same at f in
          let checked : j ≡ k = all (c, j) (Memᴰ.head refl) named in
          bound_check-kept n k (bind_check (new_condition c) j bound) rest rest_of
            (ground (arith, now, eq_iff (new_condition c) n))
      | inr p ↦ bound_check-bound n k (bind_check (new_condition c) j bound) rest e rest_of p f
    ]

module _ {C : Type 0} ⦃c : Constraint C⦄ {W : Type 0} where
  -- A guard that `NewGuard` builds finds under its normal form each condition that the caller binds,
  -- in whatever order the map is read, provided that the entries of one normal form all have one
  -- check.
  pub new_guard-bound_check :
      (o : Ontology C) (resolve : Option (SnapshotResolver W)) (entries : List (Condition × Check))
      (n : Condition) (k : Check)
      → Memᴰ (n, k) entries
      → BoundTo (new_condition n) k entries
      → bound_check (new_condition n) (new_guard o resolve entries).0.checks ≡ some k
  unfolding new_guard
  new_guard-bound_check o resolve entries n k m all =
      bound_check-bound (new_condition n) k [] entries (n, k) all m refl
