-- ===== src/Ontology/Constraints/Functional.antt =====
-- `FunctionalProperty.check` reports nothing exactly where the relation is a function, and total where
-- the property is required.

use cervo_rules.Prelude.{
  ◌≡◌, refl, ◌≢◌, ◌↔◌, ◌⊎◌, inl, inr, ◌∙◌, sym, true, not, ◌||◌, List, [], ◌∷◌, Memᴰ, Memᴰ-cons,
  Memᴰ-nil, arith, if◌then◌else◌, ◌==◌, eq_iff, elem, elem_iff, Bool-cases, List-cases,
  append-eq-nil_iff,
}
use cervo_rules.Prelude.Sort.{mem-sort}
use cervo_rules.Text.{Text, text_less}
use cervo_rules.Ontology.Names.{
  EntityType, Individual, Relation, new_entity_type, new_individual, new_relation,
}
use cervo_rules.Ontology.Snapshot.{TypeAssertion, RelationAssertion, Snapshot}
use cervo_rules.Core.Errors.{Errors}
use cervo_rules.Ontology.Groups.{Groups, no_groups, group_errors}
use cervo_rules.Ontology.Groups.Laws.{group_all, held-all, group_errors_iff}
use cervo_rules.Ontology.Constraints.{
  FunctionalProperty, normalize_property, bound_error, individuals_from, domain_individuals,
  missing_errors, property_errors, check_functional,
}
use cervo_rules.Ontology.Constraints.Objects.{
  SingleValued, pairs, bind_objects-pairs, Pair-of_mem, Origin, Origin-of_Pair, SingleValued-iff,
}

-- Every individual of the type is the subject of an assertion of the relation.
abbrev pub IsTotal : Relation → EntityType → Snapshot → Type 0
IsTotal r domain s =
    (t : TypeAssertion)
    → Memᴰ t s.types
    → new_entity_type t.type ≡ domain
    → (a : RelationAssertion) × Memᴰ a s.relations
      × (new_relation a.relation ≡ r)
      × (new_individual a.subject ≡ new_individual t.individual)

-- The pairs that the loop groups.
-- A type assertion that puts an individual in the domain.
abbrev Typed : EntityType → List TypeAssertion → Individual → Type 0
Typed domain xs i =
    (t : TypeAssertion) × Memᴰ t xs
    × (new_entity_type t.type ≡ domain)
    × (new_individual t.individual ≡ i)

Typed-cons :
    (domain : EntityType) (x : TypeAssertion) (xs : List TypeAssertion) (i : Individual)
    → Typed domain xs i
    → Typed domain (x ∷ xs) i
Typed-cons domain x xs i (t, m, e, f) = (t, Memᴰ.tail m, e, f)

-- The individuals of a type are found, and nothing else.
Typed-of_mem :
    (domain : EntityType) (seen : List Individual) (xs : List TypeAssertion) (i : Individual)
    → Memᴰ i (individuals_from domain seen xs)
    → Typed domain xs i
unfolding individuals_from
Typed-of_mem domain seen [] i m = absurd (Memᴰ-nil i m)
Typed-of_mem domain seen (x ∷ xs) i m =
    elim (Bool-cases
      (not (new_entity_type x.type == domain) || elem (new_individual x.individual) seen)) [
        | inl e ↦ Typed-cons domain x xs i (Typed-of_mem domain seen xs i (rw e at m))
        | inr e ↦
            let q : (i ≡ new_individual x.individual)
                ⊎ Memᴰ i (individuals_from domain (new_individual x.individual ∷ seen) xs) =
              (Memᴰ-cons i _ _).0 (rw e at m) in
            elim q [
              | inl h ↦
                  (x, Memᴰ.head refl, ground (arith, eq_iff (new_entity_type x.type) domain), sym h)
              | inr k ↦
                  Typed-cons domain x xs i
                    (Typed-of_mem domain (new_individual x.individual ∷ seen) xs i k)
            ]
      ]

individuals_from_mem :
    (domain : EntityType) (seen : List Individual) (xs : List TypeAssertion) (t : TypeAssertion)
    → Memᴰ t xs
    → new_entity_type t.type ≡ domain
    → Memᴰ (new_individual t.individual) seen
      ⊎ Memᴰ (new_individual t.individual) (individuals_from domain seen xs)
unfolding individuals_from
individuals_from_mem domain seen [] t m e = absurd (Memᴰ-nil t m)
individuals_from_mem domain seen (x ∷ xs) t m e =
    let i = new_individual x.individual in
    ground (
      arith,
      Memᴰ-cons t x xs,
      eq_iff (new_entity_type x.type) domain,
      elem_iff i seen,
      individuals_from_mem domain seen xs t,
      individuals_from_mem domain (i ∷ seen) xs t,
      Memᴰ-cons (new_individual t.individual) i seen,
      Memᴰ-cons (new_individual t.individual) i (individuals_from domain (i ∷ seen) xs),
    )

missing_errors_sound :
    (f : FunctionalProperty) (domain : EntityType) (g : Groups) (is : List Individual)
    (i : Individual)
    → missing_errors f domain g is ≡ []
    → Memᴰ i is
    → g.held i ≢ []
unfolding missing_errors
missing_errors_sound f domain g [] i h m = absurd (Memᴰ-nil i m)
missing_errors_sound f domain g (j ∷ is) i h m =
    ground (arith, List-cases (g.held j), missing_errors_sound f domain g is i, Memᴰ-cons i j is)

missing_errors_complete :
    (f : FunctionalProperty) (domain : EntityType) (g : Groups) (is : List Individual)
    → ((i : Individual) → Memᴰ i is → g.held i ≢ [])
    → missing_errors f domain g is ≡ []
unfolding missing_errors
missing_errors_complete f domain g [] h = refl
missing_errors_complete f domain g (j ∷ is) h =
    let rest = missing_errors_complete f domain g is (λ i m. h i (Memᴰ.tail m)) in
    ground (arith, h j (Memᴰ.head refl), List-cases (g.held j))

-- The part that runs only for a required property with a domain.
optional_iff :
    (f : FunctionalProperty) (domain : EntityType) (es : Errors)
    → ((if not f.required || domain == "" then [] else es) ≡ [])
      ↔ (f.required ≡ true → domain ≢ "" → es ≡ [])
optional_iff f domain es = (
  λ h q n. ground (arith, eq_iff domain ""),
  λ h. elim (Bool-cases (not f.required || domain == "")) [
    | inl e ↦ rw e
    | inr e ↦ rw e (h (ground arith) (ground (arith, eq_iff domain "")))
  ],
)

module _ (r : Relation) (s : Snapshot) where
  abbrev bound : Groups
  bound = group_all no_groups (pairs r s.relations)

  held_of_origin :
      (i : Individual) (a : RelationAssertion)
      → Memᴰ a s.relations
      → new_relation a.relation ≡ r
      → new_individual a.subject ≡ i
      → bound.held i ≢ []
  held_of_origin i a m e f empty =
      let p =
        (held-all no_groups (pairs r s.relations) i (new_individual a.object)).1
          (inr (rw (← f) (Pair-of_mem r s.relations a m e))) in
      Memᴰ-nil _ (rw empty at p)

  Origin-of_held : (i : Individual) → bound.held i ≢ [] → (v : Text) × Origin r s.relations i v
  Origin-of_held i h = elim (List-cases (bound.held i)) [
    | inl e ↦ absurd (h e)
    | inr (v, rest, e) ↦
        elim ((held-all no_groups (pairs r s.relations) i v).0 (rw e (Memᴰ.head refl))) [
          | inl m ↦ absurd (Memᴰ-nil v m)
          | inr p ↦ (v, Origin-of_Pair r s.relations i v p)
        ]
  ]

  missing_iff :
      (f : FunctionalProperty) (domain : EntityType)
      → (missing_errors f domain bound (domain_individuals s domain) ≡ []) ↔ IsTotal r domain s
  unfolding domain_individuals
  missing_iff f domain = (
    λ h t m e.
        let found : Memᴰ (new_individual t.individual) (individuals_from domain [] s.types) =
          elim (individuals_from_mem domain [] s.types t m e) [
            | inl n ↦ absurd (Memᴰ-nil _ n)
            | inr k ↦ k
          ] in
        let (v, origin) =
          Origin-of_held (new_individual t.individual)
            (missing_errors_sound f domain bound _ _ h ((mem-sort text_less _ _).1 found)) in
        (origin.0, origin.1, origin.2, origin.3),
    λ h. missing_errors_complete f domain bound _ λ i m.
        let (t, k, e, ti) = Typed-of_mem domain [] s.types i ((mem-sort text_less _ _).0 m) in
        let (a, ka, ra, ai) = h t k e in held_of_origin i a ka ra (ai ∙ ti),
  )

property_errors_iff :
    (f : FunctionalProperty) (s : Snapshot) (domain : EntityType)
    → (property_errors f s domain ≡ []) ↔ (
        (f.relation ≡ "")
        ⊎ (SingleValued f.relation s.relations
            × (f.required ≡ true → domain ≢ "" → IsTotal f.relation domain s)))
unfolding property_errors
property_errors_iff f s domain =
    let single = group_errors_iff (bound_error f) (pairs f.relation s.relations) in
    let values = SingleValued-iff f.relation s.relations in
    let total = missing_iff f.relation s f domain in
    let groups = bind_objects-pairs f.relation no_groups s.relations in
    let g = group_all no_groups (pairs f.relation s.relations) in
    let both = append-eq-nil_iff (group_errors (bound_error f) g g.order) (
      if not f.required || domain == ""
      then []
      else missing_errors f domain g (domain_individuals s domain)) in
    let optional =
      optional_iff f domain (missing_errors f domain g (domain_individuals s domain)) in
    elim (Bool-cases (f.relation == "")) [
      | inl e ↦ rw e (λ h. inl ((eq_iff f.relation "").0 e), λ h. refl)
      | inr e ↦
          rw (e, groups)
            (
              λ h.
                  inr (
                    values.0 (single.0 (both.0 h).0),
                    λ q n. total.0 (optional.0 (both.0 h).1 q n),
                  ),
              λ h. elim h [
                | inl n ↦ absurd (ground (arith, eq_iff f.relation ""))
                | inr (v, t) ↦ both.1 (single.1 (values.1 v), optional.1 (λ q n. total.1 (t q n)))
              ],
            )
    ]

-- `FunctionalProperty.check` reports nothing exactly where the relation has no name, or gives no
-- subject two objects and, if it is required and has a domain, gives every individual of the domain
-- an object.
pub check_functional_iff :
    (f : FunctionalProperty) (s : Snapshot) (domain : EntityType)
    → (check_functional f s domain ≡ []) ↔ (
        ((normalize_property f).relation ≡ "")
        ⊎ (SingleValued (normalize_property f).relation s.relations
            × ((normalize_property f).required ≡ true
                → domain ≢ ""
                → IsTotal (normalize_property f).relation domain s)))
unfolding check_functional
check_functional_iff f s domain = property_errors_iff (normalize_property f) s domain
