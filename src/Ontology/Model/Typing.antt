-- ===== src/Ontology/Model/Typing.antt =====
-- ontology/signature.go, ontology/ontology.go: what the checks of types and relations ask.
use mathlib.Core.List.Memᴰ
use cervo_rules.Prelude.{
  ◌≡◌, refl, ◌↔◌, ◌⊎◌, inl, inr, sym, true, some, List, [], ◌∷◌, map, Memᴰ, Memᴰ-cons, Memᴰ-nil,
  arith, ◌==◌, eq_iff, elem_iff, Bool-cases, Option-cases, flat, flat-eq-nil_iff, keep,
}
use cervo_rules.Prelude.Sort.{mem-sort}
use cervo_rules.Text.{text_less}
use cervo_rules.Ontology.Names.{EntityType, Individual, new_entity_type, new_individual}
use cervo_rules.Ontology.Snapshot.{TypeAssertion, RelationAssertion, Snapshot, types_of}
use cervo_rules.Ontology.Signature.{
  PredicateSignature, normalize_signature, has_type, assertion_errors, check_assertion,
}
use cervo_rules.Ontology.Model.Check.{undeclared_errors, type_errors, signature_for, relation_error}

-- Some assertion gives the individual the type.
abbrev pub HasType : Snapshot → Individual → EntityType → Type 0
HasType s i t =
    (a : TypeAssertion) × Memᴰ a s.types
    × (new_individual a.individual ≡ new_individual i)
    × (new_entity_type a.type ≡ t)

mem-typed :
    (i : Individual) (t : EntityType) (xs : List TypeAssertion)
    → Memᴰ t (
        map
          (λ a. new_entity_type a.type)
          (keep (λ a. new_individual a.individual == new_individual i) xs))
    → (a : TypeAssertion) × Memᴰ a xs
      × (new_individual a.individual ≡ new_individual i)
      × (new_entity_type a.type ≡ t)
mem-typed i t [] m = absurd (Memᴰ-nil t m)
mem-typed i t (x ∷ xs) m = elim (Bool-cases (new_individual x.individual == new_individual i)) [
  | inl e ↦ elim (Memᴰ.cases_cons (rw e at m)) [
    | inl h ↦ (x, Memᴰ.head refl, (eq_iff _ _).0 e, sym h)
    | inr k ↦ let (a, ka, ia, ta) = mem-typed i t xs k in (a, Memᴰ.tail ka, ia, ta)
  ]
  | inr e ↦ let (a, ka, ia, ta) = mem-typed i t xs (rw e at m) in (a, Memᴰ.tail ka, ia, ta)
]

typed-mem :
    (i : Individual) (a : TypeAssertion) (xs : List TypeAssertion)
    → Memᴰ a xs
    → new_individual a.individual ≡ new_individual i
    → Memᴰ (new_entity_type a.type) (
        map
          (λ a. new_entity_type a.type)
          (keep (λ a. new_individual a.individual == new_individual i) xs))
typed-mem i a [] m e = absurd (Memᴰ-nil a m)
typed-mem i a (x ∷ xs) m e = elim (Bool-cases (new_individual x.individual == new_individual i)) [
  | inl h ↦ elim (Memᴰ.cases_cons m) [
    | inl same ↦ rw (h, same) (Memᴰ.head refl)
    | inr k ↦ rw h (Memᴰ.tail (typed-mem i a xs k e))
  ]
  | inr h ↦ elim (Memᴰ.cases_cons m) [
    | inl same ↦ absurd (ground (arith, eq_iff (new_individual x.individual) (new_individual i)))
    | inr k ↦ rw h (typed-mem i a xs k e)
  ]
]

-- `hasType` finds exactly the asserted types.
pub has_type_iff :
    (s : Snapshot) (i : Individual) (t : EntityType) → (has_type s i t ≡ true) ↔ HasType s i t
unfolding has_type types_of
has_type_iff s i t = (
  λ h. mem-typed i t s.types ((mem-sort text_less t _).0 ((elem_iff t _).0 h)),
  λ (a, m, e, f).
      (elem_iff t _).1 ((mem-sort text_less t _).1 (rw (← f) (typed-mem i a s.types m e))),
)

-- A relation assertion fits a signature.
abbrev pub Fits : PredicateSignature → Snapshot → RelationAssertion → Type 0
Fits g s a =
    ((g.domain ≡ "") ⊎ HasType s a.subject g.domain) × ((g.range ≡ "") ⊎ HasType s a.object g.range)

assertion_errors_iff :
    (g : PredicateSignature) (s : Snapshot) (a : RelationAssertion)
    → (assertion_errors g s a ≡ []) ↔ Fits g s a
unfolding assertion_errors
assertion_errors_iff g s a = ground (
  arith,
  eq_iff g.domain "",
  eq_iff g.range "",
  has_type_iff s a.subject g.domain,
  has_type_iff s a.object g.range,
)

-- Every assertion of a relation with a signature has a subject of the domain and an object of the
-- range.
abbrev pub Related : List PredicateSignature → Snapshot → Type 0
Related signatures s =
    (a : RelationAssertion)
    → Memᴰ a s.relations
    → (g : PredicateSignature) → signature_for a.relation signatures ≡ some g
    → Fits (normalize_signature g) s a

pub relation_error_iff :
    (signatures : List PredicateSignature) (s : Snapshot) (a : RelationAssertion)
    → (relation_error signatures s a ≡ []) ↔ (
        (g : PredicateSignature)
        → signature_for a.relation signatures ≡ some g
        → Fits (normalize_signature g) s a)
unfolding relation_error check_assertion
relation_error_iff signatures s a = elim (Option-cases (signature_for a.relation signatures)) [
  | inl e ↦ (λ h g f. cc, λ h. rw (e, relation_error) refl)
  | inr (g, e) ↦ (
    λ h k f.
        let same : g ≡ k = cc in
        rw (← same)
          ((assertion_errors_iff (normalize_signature g) s a).0 (rw (e, relation_error) at h)),
    λ h. rw (e, relation_error) ((assertion_errors_iff (normalize_signature g) s a).1 (h g e)),
  )
]

-- Every asserted type is declared, if any is.
abbrev pub Declared : List EntityType → List TypeAssertion → Type 0
Declared declared types =
    (declared ≡ []) ⊎ ((a : TypeAssertion) → Memᴰ a types → Memᴰ a.type declared)

undeclared_sound :
    (declared : List EntityType) (types : List TypeAssertion) (a : TypeAssertion)
    → undeclared_errors declared types ≡ []
    → Memᴰ a types
    → Memᴰ a.type declared
unfolding undeclared_errors
undeclared_sound declared [] a h m = absurd (Memᴰ-nil a m)
undeclared_sound declared (x ∷ xs) a h m =
    ground (arith, elem_iff x.type declared, undeclared_sound declared xs a, Memᴰ-cons a x xs)

undeclared_complete :
    (declared : List EntityType) (types : List TypeAssertion)
    → ((a : TypeAssertion) → Memᴰ a types → Memᴰ a.type declared)
    → undeclared_errors declared types ≡ []
unfolding undeclared_errors
undeclared_complete declared [] h = refl
undeclared_complete declared (x ∷ xs) h =
    let rest = undeclared_complete declared xs (λ a m. h a (Memᴰ.tail m)) in
    ground (arith, elem_iff x.type declared, h x (Memᴰ.head refl))

pub type_errors_iff :
    (declared : List EntityType) (types : List TypeAssertion)
    → (type_errors declared types ≡ []) ↔ Declared declared types
unfolding type_errors
type_errors_iff [] types = (λ h. inl refl, λ h. refl)
type_errors_iff (d ∷ ds) types = (
  λ h. inr (λ a m. undeclared_sound (d ∷ ds) types a h m),
  λ h. elim h [ inl e ↦ cc | inr all ↦ undeclared_complete (d ∷ ds) types all ],
)

pub relation_errors_iff :
    (signatures : List PredicateSignature) (s : Snapshot)
    → (flat (relation_error signatures s) s.relations ≡ []) ↔ Related signatures s
relation_errors_iff signatures s =
    let each = flat-eq-nil_iff (relation_error signatures s) s.relations in
    (
      λ h a m. (relation_error_iff signatures s a).0 (each.0 h a m),
      λ h. each.1 (λ a m. (relation_error_iff signatures s a).1 (h a m)),
    )
