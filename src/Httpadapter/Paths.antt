-- ===== src/Httpadapter/Paths.antt =====
-- httpadapter/classifier.go: the rule that gives a request its operation.
use mathlib.Core.List.Memᴰ
use text.Mathlib.TextBridge.{IsPrefix}
use text.Mathlib.TextEquality.{starts_with_iff}
use cervo_rules.Prelude.{
  ◌≡◌, refl, ap, ◌↔◌, ◌⊎◌, inl, inr, true, Option, none, some, List, [], ◌∷◌, ◌++◌, eq_iff,
  elem_iff, Memᴰ, Memᴰ-nil, arith, Bool-cases, List-cases,
}
use cervo_rules.Text.{Text, lower}
use cervo_rules.Core.Types.{Operation}
use cervo_rules.Httpadapter.{
  Regexp, CompiledPathOperation, Classifier, HttpRequest, contains_text, rule_matches, first_match,
  upper, infer_path_operation,
}

module _ {R : Type 0} (engine : Regexp R) where
  abbrev pub PassesRegex : Option R → Text → Type 0
  PassesRegex none path = Unit
  PassesRegex (some r) path = engine.is_match r path ≡ true

  -- A rule for any method or this one, whose prefix the path has, whose text it contains, and whose
  -- expression it matches; an empty one asks for nothing.
  abbrev pub Matches : CompiledPathOperation R → Text → Text → Type 0
  Matches rule method path =
      ((rule.methods ≡ []) ⊎ Memᴰ method rule.methods)
      × ((rule.prefix ≡ "") ⊎ IsPrefix rule.prefix path)
      × ((rule.contains ≡ "") ⊎ (contains_text path rule.contains ≡ true))
      × PassesRegex rule.regex path

  passes_iff :
      (o : Option R) (path : Text)
      → (elim o [ none ↦ true | some r ↦ engine.is_match r path ] ≡ true) ↔ PassesRegex o path
  passes_iff none path = (λ h. tt, λ h. refl)
  passes_iff (some r) path = (λ h. h, λ h. h)

  rule_matches_iff :
      (rule : CompiledPathOperation R) (method path : Text)
      → (rule_matches engine rule method path ≡ true) ↔ Matches rule method path
  unfolding rule_matches
  rule_matches_iff rule method path = ground (
    arith,
    List-cases rule.methods,
    elem_iff method rule.methods,
    Memᴰ-nil method,
    eq_iff rule.prefix "",
    eq_iff rule.contains "",
    starts_with_iff path rule.prefix,
    passes_iff rule.regex path,
  )

  -- Of the rules, the first that matches gives the operation.
  abbrev pub IsFirst : List (CompiledPathOperation R) → Text → Text → Operation → Type 0
  IsFirst rules method path o =
      (before : List (CompiledPathOperation R)) × (rule : CompiledPathOperation R) × (after : List
        (CompiledPathOperation R))
      × (rules ≡ before ++ rule ∷ after)
      × ((r : CompiledPathOperation R) → Memᴰ r before → ¬ Matches r method path)
      × Matches rule method path
      × (o ≡ rule.operation)

  abbrev pub NoMatch : List (CompiledPathOperation R) → Text → Text → Type 0
  NoMatch rules method path = (r : CompiledPathOperation R) → Memᴰ r rules → ¬ Matches r method path

  first_match-IsFirst :
      (rules : List (CompiledPathOperation R)) (method path : Text)
      → (NoMatch rules method path × (first_match engine rules method path ≡ ""))
        ⊎ IsFirst rules method path (first_match engine rules method path)
  unfolding first_match
  first_match-IsFirst [] method path = inl (λ r m. absurd (Memᴰ-nil r m), refl)
  first_match-IsFirst (x ∷ xs) method path =
      let hit = rule_matches_iff x method path in
      elim (Bool-cases (rule_matches engine x method path)) [
        | inl e ↦
            rw (e, first_match) (inr ([], x, xs, refl, λ r m. absurd (Memᴰ-nil r m), hit.0 e, refl))
        | inr e ↦
            let miss : ¬ Matches x method path = λ h. ground (arith, hit.1 h) in
            let extend : (ys : List (CompiledPathOperation R))
                → NoMatch ys method path
                → NoMatch (x ∷ ys) method path =
              λ ys none_of r m k. elim (Memᴰ.cases_cons m) [
                | inl same ↦ miss (rw same at k)
                | inr n ↦ none_of r n k
              ] in
            rw (e, first_match)
              (elim (first_match-IsFirst xs method path) [
                | inl (none_of, empty) ↦ inl (extend xs none_of, empty)
                | inr (before, rule, after, split, none_of, met, o) ↦ inr (
                  x ∷ before,
                  rule,
                  after,
                  ap (λ ys. x ∷ ys) split,
                  extend before none_of,
                  met,
                  o,
                )
              ])
      ]

  -- The path of a request gives the operation of the first rule that the request matches, with its
  -- method in upper case and its path in lower case, and no operation where it matches none.
  pub infer_path_operation-IsFirst :
      {H : Type 0} (get : H → Text → Text) (c : Classifier R) (r : HttpRequest H)
      → (NoMatch c.paths (upper r.method) (lower r.path)
          × (infer_path_operation engine get c r ≡ ""))
        ⊎ IsFirst c.paths (upper r.method) (lower r.path) (infer_path_operation engine get c r)
  unfolding infer_path_operation
  infer_path_operation-IsFirst get c r = first_match-IsFirst c.paths (upper r.method) (lower r.path)
