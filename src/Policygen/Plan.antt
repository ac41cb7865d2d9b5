-- ===== src/Policygen/Plan.antt =====
-- internal/policygen/facts.go, internal/policygen/generator.go: the plan of a validated policy, against
-- its vocabulary.
use mathlib.Core.List.Memᴰ
use cervo_rules.Policygen.Referenced.{AllDeclared, Keeps-routes, Keeps-denies, Keeps-inr}
use cervo_rules.Policygen.Declared.{IsDeclared, build_fact_index-IsIndex}
use cervo_rules.Prelude.{
  ◌≡◌, ap, elem_iff, inl, inr, some, List, [], ◌∷◌, elem, Bool-cases, Memᴰ, Memᴰ-nil,
}
use cervo_rules.Prelude.Maps.{entry}
use cervo_rules.Prelude.Results.{>>-inr_iff, >>=-inr_iff, reject_if-inr_iff}
use cervo_rules.Text.{Text, normalize, text_less}
use cervo_rules.Float.{Float}
use cervo_rules.Policygen.Schema.{FactBinding}
use cervo_rules.Policygen.Leaves.{empty_iff, not_iff}
use cervo_rules.Policygen.Facts.{build_fact_index}
use cervo_rules.Policygen.Schema.{FactBounds, Vocabulary, Policy}
use cervo_rules.Policygen.Routes.{new_vocabulary_index}
use cervo_rules.Policygen.Validate.{PolicyPlan, validate, unread, reject_unread_fact_bounds}
use cervo_rules.Prelude.Sort.{sort_stable, mem-sort}

module _ {F : Type 0} where
  unread-nil :
      (read : List Text) (bounds : List (Text × FactBounds F))
      → unread read bounds ≡ []
      → (name : Text) (d : FactBounds F) → Memᴰ (name, d) bounds
      → Memᴰ (normalize name) read
  unfolding unread
  unread-nil read [] h name d m = absurd (Memᴰ-nil _ m)
  unread-nil read ((key, c) ∷ rest) h name d m = elim (Bool-cases (elem (normalize key) read)) [
    | inr e ↦ let k = rw (unread, e) at h in cc
    | inl e ↦ elim (Memᴰ.cases_cons m) [
      | inl same ↦
          let key_same : name ≡ key = ap (λ x. x.0) same in
          rw key_same ((elem_iff (normalize key) read).0 e)
      | inr k ↦ unread-nil read rest (rw (unread, e) at h) name d k
    ]
  ]

-- What the plan of a validated policy consists of: the index of the facts, names that it has, and the
-- name of each fact that the policy bounds.
pub record IsPlan {F : Type 0} ⦃fl : Float F⦄ (vocab : Vocabulary) (p : Policy F)
    (plan : PolicyPlan F) : Type 0 where
  pub indexed : build_fact_index vocab.facts p.facts ≡ inr plan.facts
  pub declared : AllDeclared plan.facts plan.referenced
  pub bounded :
      (name : Text) (d : FactBounds F)
      → Memᴰ (name, d) p.facts
      → Memᴰ (normalize name) plan.referenced

pub validate-IsPlan :
    {F : Type 0} ⦃fl : Float F⦄ (vocab : Vocabulary) (p : Policy F) (plan : PolicyPlan F)
    → validate vocab p ≡ inr plan
    → IsPlan vocab p plan
unfolding validate reject_unread_fact_bounds
validate-IsPlan vocab p plan h =
    let (_, h1) = (>>-inr_iff _ _ _).0 h in
    let (_, h2) = (>>-inr_iff _ _ _).0 h1 in
    let (_, h3) = (>>-inr_iff _ _ _).0 h2 in
    let (_, h4) = (>>-inr_iff _ _ _).0 h3 in
    let (declared, _, h5) = (>>=-inr_iff _ _ _).0 h4 in
    let (facts, i, h6) = (>>=-inr_iff _ _ _).0 h5 in
    let (routed, e, h7) = (>>=-inr_iff _ _ _).0 h6 in
    let (read, e', h8) = (>>=-inr_iff _ _ _).0 h7 in
    let (_, h9) = (>>-inr_iff _ _ _).0 h8 in
    let (u, h10) = (>>-inr_iff _ _ _).0 h9 in
    let after_routes =
      Keeps-inr facts _ routed
        (Keeps-routes facts declared p.routes [] (λ n m. absurd (Memᴰ-nil n m))) e in
    let after_denies =
      Keeps-inr facts _ read
        (Keeps-denies facts declared (new_vocabulary_index vocab) p.denies routed after_routes)
        e' in
    let none_unread =
      (empty_iff (unread read p.facts)).0 ((not_iff _).0 ((reject_if-inr_iff _ _).0 u)) in
    let same : record { facts = facts; referenced = sort_stable text_less read } ≡ plan = cc in
    rw (← same) (record {
      indexed = i;
      declared = λ n m. after_denies n ((mem-sort text_less n read).0 m);
      bounded = λ name d m.
          (mem-sort text_less (normalize name) read).1
            (unread-nil read p.facts none_unread name d m);
    })

-- Each fact that the plan of a validated policy reads is in its index with the name, the kind, the
-- values and the field of one of the declarations of the vocabulary, under a key with that normal
-- form, and each fact that the policy bounds is one of those that the plan reads.
pub validate-IsDeclared :
    {F : Type 0} ⦃fl : Float F⦄ (vocab : Vocabulary) (p : Policy F) (plan : PolicyPlan F)
    → validate vocab p ≡ inr plan
    → ((n : Text)
        → Memᴰ n plan.referenced
        → (b : FactBinding F) × (entry n plan.facts ≡ some b) × IsDeclared vocab.facts n b)
      × ((name : Text) (d : FactBounds F)
          → Memᴰ (name, d) p.facts
          → Memᴰ (normalize name) plan.referenced)
validate-IsDeclared vocab p plan h =
    let parts = validate-IsPlan vocab p plan h in
    let index = build_fact_index-IsIndex vocab.facts p.facts plan.facts parts.indexed in
    (λ n m. let (b, e) = parts.declared n m in (b, e, index n b e), parts.bounded)
