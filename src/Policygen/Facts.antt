-- ===== src/Policygen/Facts.antt =====
-- internal/policygen/facts.go: the index of the declared facts, their bounds and their defaults.
use cervo_rules.Prelude.{
  ◌⊎◌, inl, inr, Bool, true, false, not, ◌&&◌, ◌||◌, Option, none, some, List, [], ◌∷◌, ◌++◌,
  if◌then◌else◌, ◌==◌,
}
use cervo_rules.Prelude.Int.{ltb_ℤ}
use cervo_rules.Prelude.Maps.{entry, put}
use cervo_rules.Prelude.Results.{◌>>=◌, ◌>>◌, reject_if}
use cervo_rules.Prelude.Sort.{sort_stable}
use cervo_rules.Text.{Text, normalize, text_less}
use cervo_rules.Float.{Float}
use cervo_rules.Policygen.Schema.{
  Scalar, integer, number, FactDecl, DefaultNode, absent, empty, node, FactBounds, FactBinding,
  FactIndex,
}
use cervo_rules.Policygen.Problem.{Problem}
use cervo_rules.Policygen.Kinds.{
  kind_number, kind_integer, is_fact_name, fact_field_name, parse_fact_kind, coerce_fact_value,
}

-- `sortedKeys`, with the values of the keys.
unfoldable pub sorted_entries {ℓ} : {V : Type ℓ} → List (Text × V) → List (Text × V)
sorted_entries m = sort_stable (λ a b. text_less a.0 b.0) m

module _ {F : Type 0} where
  -- `x != nil && test(*x)`
  abbrev pub is_some_and : Option F → (F → Bool) → Bool
  is_some_and none p = false
  is_some_and (some v) p = p v

  -- The two tests of a default, for a comparison with the minimum and with the maximum.
  unfoldable pub check_default :
      FactBinding F → Scalar F → (F → Bool) → (F → Bool) → Problem F ⊎ Unit {0}
  check_default b value below above = elim b.min [
    | none ↦ elim b.max [
      | none ↦ inr tt
      | some hi ↦ reject_if (above hi) (Problem.above_maximum b.name value hi)
    ]
    | some lo ↦ reject_if (below lo) (Problem.below_minimum b.name value lo) >> (elim b.max [
      | none ↦ inr tt
      | some hi ↦ reject_if (above hi) (Problem.above_maximum b.name value hi)
    ])
  ]

  -- `checkDefaultWithinBounds`
  unfoldable pub check_default_within_bounds :
      ⦃fl : Float F⦄ → FactBinding F → Scalar F → Problem F ⊎ Unit {0}
  check_default_within_bounds ⦃fl⦄ b (number v) =
      check_default b (number v) (λ lo. fl.lt v lo) (λ hi. fl.lt hi v)
  check_default_within_bounds ⦃fl⦄ b (integer i) =
      check_default b (integer i) (λ lo. ltb_ℤ i (fl.to_int lo)) (λ hi. ltb_ℤ (fl.to_int hi) i)
  check_default_within_bounds b _ = inr tt

  -- `checkFinite`
  unfoldable pub check_finite : ⦃fl : Float F⦄ → Text → Option F → Problem F ⊎ Unit {0}
  check_finite ⦃fl⦄ name v =
      reject_if (is_some_and v (λ x. fl.is_nan x || fl.is_inf x)) (Problem.infinite_bound name)

  -- One round of the loop over the bounds of an integer; 2^53 is `maxExactIntegerBound`.
  unfoldable pub check_integer_bound : ⦃fl : Float F⦄ → Text → Option F → Problem F ⊎ Unit {0}
  check_integer_bound name none = inr tt
  check_integer_bound ⦃fl⦄ name (some v) =
      reject_if (not (fl.eq v (fl.trunc v))) (Problem.fractional_bound name)
      >> reject_if (fl.lt (fl.literal "9007199254740992") (fl.abs v)) (Problem.inexact_bound name v)

  -- `bounds.Min != nil && bounds.Max != nil && *bounds.Min > *bounds.Max`
  abbrev pub is_crossed : ⦃fl : Float F⦄ → FactBounds F → Bool
  is_crossed ⦃fl⦄ d = is_some_and d.min (λ lo. is_some_and d.max (λ hi. fl.lt hi lo))

  abbrev pub is_none : Option F → Bool
  is_none none = true
  is_none (some v) = false

  -- The first half of `applyFactBounds`: the bounds.
  unfoldable pub apply_bounds :
      ⦃fl : Float F⦄ → FactBinding F → FactBounds F → Problem F ⊎ FactBinding F
  apply_bounds b d =
      if is_none d.min && is_none d.max
      then inr b
      else reject_if (not (b.kind == kind_number) && not (b.kind == kind_integer))
          (Problem.unbounded_kind b.name b.kind)
        >> (check_finite b.name d.min
            >> (check_finite b.name d.max
                >> (reject_if (is_crossed d) (Problem.min_above_max b.name)
                    >> ((if b.kind == kind_integer
                          then check_integer_bound b.name d.min >> check_integer_bound b.name d.max
                          else inr tt)
                        >> inr (record b { min = d.min; max = d.max })))))

  -- The second half: the default.
  unfoldable pub apply_default :
      ⦃fl : Float F⦄ → FactBinding F → DefaultNode F → Problem F ⊎ FactBinding F
  apply_default b absent = inr b
  apply_default b empty = inl (Problem.empty_default b.name)
  apply_default b (node (inl m)) = inl (Problem.undecoded_default b.name m)
  apply_default b (node (inr raw)) = elim (coerce_fact_value b raw) [
    | inl e ↦ inl (Problem.bad_default b.name e)
    | inr value ↦ check_default_within_bounds b value >> inr (record b { default = some value })
  ]

  -- `applyFactBounds`
  unfoldable pub apply_fact_bounds :
      ⦃fl : Float F⦄ → FactBinding F → FactBounds F → Problem F ⊎ FactBinding F
  apply_fact_bounds b d = apply_bounds b d >>= λ b'. apply_default b' d.default

  -- The loop over the declared values, with `seenValues` and `values`.
  unfoldable pub collect_values :
      Text → List (Text × Text) → List Text → List Text → Problem F ⊎ List Text
  collect_values name seen out [] = inr out
  collect_values name seen out (v ∷ rest) = elim (entry (normalize v) seen) [
    | some previous ↦ inl (Problem.same_values name previous v)
    | none ↦ collect_values name (put (normalize v) v seen) (out ++ normalize v ∷ []) rest
  ]

  -- One declaration: the field it takes, and its binding.
  unfoldable pub declare_fact : List (Text × Text) → Text → FactDecl → Problem F ⊎ FactBinding F
  declare_fact fields name decl =
      if normalize name == ""
      then inl Problem.fact_name_required
      else if not (is_fact_name (normalize name))
      then inl (Problem.fact_name_invalid name)
      else parse_fact_kind (normalize name) decl >>= λ kind.
          elim (entry (fact_field_name (normalize name)) fields) [
            | some previous ↦
                inl (Problem.field_collision previous name (fact_field_name (normalize name)))
            | none ↦ collect_values name [] [] decl.values >>= λ values. inr (record {
              name = normalize name;
              kind = kind;
              values = values;
              field = fact_field_name (normalize name);
              min = none;
              max = none;
              default = none;
            })
          ]

  -- The loop over the declarations, with `fields`.
  unfoldable pub declare_facts :
      List (Text × Text) → FactIndex F → List (Text × FactDecl) → Problem F ⊎ FactIndex F
  declare_facts fields index [] = inr index
  declare_facts fields index ((name, decl) ∷ rest) = declare_fact fields name decl >>= λ b.
      declare_facts (put b.field name fields) (put b.name b index) rest

  -- The loop over the bounds of the policy, with `seenPolicyFacts`.
  unfoldable pub bound_facts :
      ⦃fl : Float F⦄
      → List (Text × Text)
      → FactIndex F
      → List (Text × FactBounds F)
      → Problem F ⊎ FactIndex F
  bound_facts seen index [] = inr index
  bound_facts seen index ((name, d) ∷ rest) = elim (entry (normalize name) seen) [
    | some previous ↦ inl (Problem.bounds_under_two_keys (normalize name) previous name)
    | none ↦ elim (entry (normalize name) index) [
      | none ↦ inl (Problem.undeclared_bounds name)
      | some b ↦ apply_fact_bounds b d >>= λ b'.
          bound_facts (put (normalize name) name seen) (put (normalize name) b' index) rest
    ]
  ]

  -- `buildFactIndex`
  unfoldable pub build_fact_index :
      ⦃fl : Float F⦄ → List (Text × FactDecl) → List (Text × FactBounds F) → Problem F ⊎ FactIndex F
  build_fact_index decls bounds = declare_facts [] [] (sorted_entries decls) >>= λ index.
      bound_facts [] index (sorted_entries bounds)
