-- ===== src/Policygen/Declared.antt =====
-- internal/policygen/facts.go, internal/policygen/generator.go: the index of the facts that a validated
-- policy reads, against the declarations of its vocabulary.
use mathlib.Core.List.{append-nil, append_assoc}
use cervo_rules.Prelude.{
  ◌≡◌, refl, sym, ◌∙◌, inl, inr, ◌&&◌, none, some, List, [], ◌∷◌, ◌++◌, map, ◌==◌, arith, eq_iff,
  Bool-cases, Option-cases, sum_cases, Memᴰ,
}
use cervo_rules.Prelude.Maps.{entry, put, entry-put}
use cervo_rules.Prelude.Results.{>>-inr_iff, >>=-inr_iff}
use cervo_rules.Prelude.Sort.{mem-sort}
use cervo_rules.Text.{Text, normalize, text_less}
use cervo_rules.Float.{Float}
use cervo_rules.Policygen.Schema.{
  FactDecl, DefaultNode, FactBounds, FactBinding, FactIndex, absent, empty, node,
}
use cervo_rules.Policygen.Kinds.{is_fact_name, fact_field_name, parse_fact_kind, coerce_fact_value}
use cervo_rules.Policygen.Facts.{
  sorted_entries, is_none, apply_bounds, apply_default, apply_fact_bounds, collect_values,
  declare_fact, declare_facts, bound_facts, build_fact_index,
}

-- The declaration of a fact under a key, as its binding states it.
abbrev pub Declares : {F : Type 0} → Text → FactDecl → FactBinding F → Type 0
Declares name decl b =
    (b.name ≡ normalize name)
    × (b.kind ≡ normalize decl.kind)
    × (b.values ≡ map normalize decl.values)
    × (b.field ≡ fact_field_name (normalize name))

-- A binding under a name is that of one of the declarations, under a key with that normal form.
abbrev pub IsDeclared : {F : Type 0} → List (Text × FactDecl) → Text → FactBinding F → Type 0
IsDeclared decls n b =
    (name : Text) × (decl : FactDecl) × Memᴰ (name, decl) decls
    × (normalize name ≡ n)
    × Declares name decl b

abbrev pub IsIndex : {F : Type 0} → List (Text × FactDecl) → FactIndex F → Type 0
IsIndex {F} decls index =
    (n : Text) (b : FactBinding F) → entry n index ≡ some b → IsDeclared decls n b

module _ {F : Type 0} where
  parse_fact_kind-inr :
      (name : Text) (decl : FactDecl) (kind : Text)
      → parse_fact_kind {F = F} name decl ≡ inr kind
      → kind ≡ normalize decl.kind
  unfolding parse_fact_kind
  parse_fact_kind-inr name decl kind h = ground arith

  collect_values-inr :
      (name : Text) (seen : List (Text × Text)) (out vs r : List Text)
      → collect_values {F = F} name seen out vs ≡ inr r
      → r ≡ out ++ map normalize vs
  unfolding collect_values
  collect_values-inr name seen out [] r h =
      let same : out ≡ r = cc in rw (append-nil out, same) refl
  collect_values-inr name seen out (v ∷ vs) r h = elim (Option-cases (entry (normalize v) seen)) [
    | inl n ↦
        let k = rw (collect_values, n) at h in
        let e =
          collect_values-inr name (put (normalize v) v seen) (out ++ normalize v ∷ []) vs r k in
        e ∙ append_assoc out (normalize v ∷ []) (map normalize vs)
    | inr (u, n) ↦ let k = rw (collect_values, n) at h in cc
  ]

  declare_fact-Declares :
      (fields : List (Text × Text)) (name : Text) (decl : FactDecl) (b : FactBinding F)
      → declare_fact fields name decl ≡ inr b
      → Declares name decl b
  unfolding declare_fact
  declare_fact-Declares fields name decl b h = elim (Bool-cases (normalize name == "")) [
    | inl i ↦ let k = rw (declare_fact, i) at h in cc
    | inr i ↦ elim (Bool-cases (is_fact_name (normalize name))) [
      | inr j ↦ let k = rw (declare_fact, i, j) at h in cc
      | inl j ↦
          let (kind, p, k) = (>>=-inr_iff _ _ _).0 (rw (declare_fact, i, j) at h) in
          elim (Option-cases (entry (fact_field_name (normalize name)) fields)) [
            | inr (u, n) ↦ let k' = rw n at k in cc
            | inl n ↦
                let (values, v, q) = (>>=-inr_iff _ _ _).0 (rw n at k) in
                let of_kind = parse_fact_kind-inr (normalize name) decl kind p in
                let of_values = collect_values-inr name [] [] decl.values values v in
                let built : record {
                  name = normalize name;
                  kind = kind;
                  values = values;
                  field = fact_field_name (normalize name);
                  min = none;
                  max = none;
                  default = none;
                }
                    ≡ b =
                  cc in
                rw (← built) (refl, of_kind, of_values, refl)
          ]
    ]
  ]

  put-IsIndex :
      (decls : List (Text × FactDecl)) (index : FactIndex F) (n : Text) (b : FactBinding F)
      → IsIndex decls index
      → IsDeclared decls n b
      → IsIndex decls (put n b index)
  put-IsIndex decls index n b h d m c e = elim (Bool-cases (n == m)) [
    | inl i ↦
        let k = rw (entry-put n m b index, i) at e in
        let same : b ≡ c = cc in let name_same = (eq_iff n m).0 i in rw (← same, ← name_same) d
    | inr i ↦ let k = rw (entry-put n m b index, i) at e in h m c k
  ]

  -- The loop over the declarations keeps an index of them.
  declare_facts-IsIndex :
      (decls rest : List (Text × FactDecl))
      → ((x : Text × FactDecl) → Memᴰ x rest → Memᴰ x decls)
      → (fields : List (Text × Text)) (index r : FactIndex F) → IsIndex decls index
      → declare_facts fields index rest ≡ inr r
      → IsIndex decls r
  unfolding declare_facts
  declare_facts-IsIndex decls [] sub fields index r h e = let same : index ≡ r = cc in rw (← same) h
  declare_facts-IsIndex decls ((name, decl) ∷ rest) sub fields index r h e =
      let (b, p, k) = (>>=-inr_iff _ _ _).0 e in
      let d = declare_fact-Declares fields name decl b p in
      declare_facts-IsIndex decls rest (λ x m. sub x (Memᴰ.tail m)) (put b.field name fields)
        (put b.name b index) r
        (put-IsIndex decls index b.name b h
          (name, decl, sub (name, decl) (Memᴰ.head refl), sym d.0, d))
        k

  -- Two bindings state one declaration.
  abbrev AgreeOnDecl : FactBinding F → FactBinding F → Type 0
  AgreeOnDecl b c =
      (c.name ≡ b.name) × (c.kind ≡ b.kind) × (c.values ≡ b.values) × (c.field ≡ b.field)

  -- Bounds and a default leave what was declared as it is.
  apply_bounds-same :
      ⦃fl : Float F⦄ (b c : FactBinding F) (d : FactBounds F)
      → apply_bounds b d ≡ inr c
      → AgreeOnDecl b c
  unfolding apply_bounds
  apply_bounds-same b c d h = elim (Bool-cases (is_none d.min && is_none d.max)) [
    | inl e ↦
        let k = rw (apply_bounds, e) at h in
        let same : b ≡ c = cc in rw (← same) (refl, refl, refl, refl)
    | inr e ↦
        let (_, k1) = (>>-inr_iff _ _ _).0 (rw (apply_bounds, e) at h) in
        let (_, k2) = (>>-inr_iff _ _ _).0 k1 in
        let (_, k3) = (>>-inr_iff _ _ _).0 k2 in
        let (_, k4) = (>>-inr_iff _ _ _).0 k3 in
        let (_, k5) = (>>-inr_iff _ _ _).0 k4 in
        let same : record b { min = d.min; max = d.max } ≡ c = cc in
        rw (← same) (refl, refl, refl, refl)
  ]

  apply_default-same :
      ⦃fl : Float F⦄ (b c : FactBinding F) (d : DefaultNode F)
      → apply_default b d ≡ inr c
      → AgreeOnDecl b c
  unfolding apply_default
  apply_default-same b c absent h = let same : b ≡ c = cc in rw (← same) (refl, refl, refl, refl)
  apply_default-same b c empty h = cc
  apply_default-same b c (node (inl m)) h = cc
  apply_default-same b c (node (inr raw)) h = elim (sum_cases (coerce_fact_value b raw)) [
    | inl (p, e) ↦ let k = rw (apply_default, e) at h in cc
    | inr (v, e) ↦
        let (_, k) = (>>-inr_iff _ _ _).0 (rw (apply_default, e) at h) in
        let same : record b { default = some v } ≡ c = cc in rw (← same) (refl, refl, refl, refl)
  ]

  apply_fact_bounds-same :
      ⦃fl : Float F⦄ (b c : FactBinding F) (d : FactBounds F)
      → apply_fact_bounds b d ≡ inr c
      → AgreeOnDecl b c
  unfolding apply_fact_bounds
  apply_fact_bounds-same b c d h =
      let (m, p, q) = (>>=-inr_iff _ _ _).0 h in
      let (n, k, v, f) = apply_bounds-same b m d p in
      let (n', k', v', f') = apply_default-same m c d.default q in (n' ∙ n, k' ∙ k, v' ∙ v, f' ∙ f)

  -- The loop over the bounds keeps an index of the declarations.
  bound_facts-IsIndex :
      ⦃fl : Float F⦄ (decls : List (Text × FactDecl)) (rest : List (Text × FactBounds F))
      (seen : List (Text × Text)) (index r : FactIndex F)
      → IsIndex decls index
      → bound_facts seen index rest ≡ inr r
      → IsIndex decls r
  unfolding bound_facts
  bound_facts-IsIndex decls [] seen index r h e = let same : index ≡ r = cc in rw (← same) h
  bound_facts-IsIndex decls ((name, d) ∷ rest) seen index r h e =
      elim (Option-cases (entry (normalize name) seen)) [
        | inr (u, n) ↦ let k = rw (bound_facts, n) at e in cc
        | inl n ↦ elim (Option-cases (entry (normalize name) index)) [
          | inl m ↦ let k = rw (bound_facts, n, m) at e in cc
          | inr (b, m) ↦
              let (c, p, k) = (>>=-inr_iff _ _ _).0 (rw (bound_facts, n, m) at e) in
              let (i, j, v, f) = apply_fact_bounds-same b c d p in
              let (key, decl, w, x, (i', j', v', f')) = h (normalize name) b m in
              bound_facts-IsIndex decls rest (put (normalize name) name seen)
                (put (normalize name) c index) r
                (put-IsIndex decls index (normalize name) c h
                  (key, decl, w, x, (i ∙ i', j ∙ j', v ∙ v', f ∙ f')))
                k
        ]
      ]

  -- `buildFactIndex` gives an index of the declarations.
  pub build_fact_index-IsIndex :
      ⦃fl : Float F⦄ (decls : List (Text × FactDecl)) (bounds : List (Text × FactBounds F))
      (r : FactIndex F)
      → build_fact_index decls bounds ≡ inr r
      → IsIndex decls r
  unfolding build_fact_index sorted_entries entry
  build_fact_index-IsIndex decls bounds r h =
      let (index, p, q) = (>>=-inr_iff _ _ _).0 h in
      let start =
        declare_facts-IsIndex decls (sorted_entries decls)
          (λ x m. (mem-sort (λ a b. text_less a.0 b.0) x decls).0 m) [] [] index (λ n b e. cc) p in
      bound_facts-IsIndex decls (sorted_entries bounds) [] index r start q
