-- ===== src/Vocabgen/Constants.antt =====
-- internal/vocabgen/generator.go: the constants that buildConstants gives, and where it gives any.
use cervo_rules.Prelude.{
  ◌≡◌, refl, ◌≢◌, ◌↔◌, inl, inr, false, none, List, [], ◌∷◌, map, ◌==◌, arith, elem, eq_iff,
  Distinct, Bool-cases, Option-cases,
}
use cervo_rules.Prelude.Maps.{entry, put, entry-put}
use cervo_rules.Prelude.Results.{>>=-inr_iff, >>-inr_iff, reject_if-inr_iff}
use cervo_rules.Text.{Text}
use cervo_rules.Policygen.Leaves.{differs_iff}
use cervo_rules.Policygen.Schema.{VocabularyEntry}
use cervo_rules.Policygen.Facts.{sorted_entries}
use cervo_rules.Vocabgen.{GeneratedConstant, constant_of, add_constants, build_constants}

abbrev pub names : List GeneratedConstant → List Text
names cs = map (λ c. c.name) cs

abbrev pub AllValued : List GeneratedConstant → Type 0
AllValued [] = Unit
AllValued (c ∷ cs) = (c.value ≢ "") × AllValued cs

-- None of the constants has a name that was seen.
abbrev AllFresh : List (Text × Text) → List GeneratedConstant → Type 0
AllFresh seen [] = Unit
AllFresh seen (c ∷ cs) = (entry c.name seen ≡ none) × AllFresh seen cs

AllFresh-nil : (cs : List GeneratedConstant) → AllFresh [] cs
unfolding entry
AllFresh-nil [] = tt
AllFresh-nil (c ∷ cs) = (refl, AllFresh-nil cs)

-- One more name that was seen.
AllFresh-put :
    (n k : Text) (seen : List (Text × Text)) (cs : List GeneratedConstant)
    → AllFresh (put n k seen) cs ↔ ((elem n (names cs) ≡ false) × AllFresh seen cs)
AllFresh-put n k seen [] = (λ h. (refl, tt), λ h. tt)
AllFresh-put n k seen (c ∷ cs) =
    let sym : (c.name == n) ≡ (n == c.name) = ground (arith, eq_iff n c.name, eq_iff c.name n) in
    elim (Bool-cases (n == c.name)) [
      | inl h ↦ rw (entry-put n c.name k seen, sym, h) (λ (x, _). cc, λ (x, _). cc)
      | inr h ↦ rw (entry-put n c.name k seen, sym, h) (ground (arith, AllFresh-put n k seen cs))
    ]

module _ (prefix typ : Text) where
  -- The constants of a list of keys.
  abbrev pub constants : List (Text × VocabularyEntry) → List GeneratedConstant
  constants xs = map (constant_of prefix typ) xs

  add_constants_iff :
      (xs : List (Text × VocabularyEntry)) (seen : List (Text × Text)) (cs : List GeneratedConstant)
      → (add_constants prefix typ seen xs ≡ inr cs) ↔ (
          (cs ≡ constants xs)
          × (AllValued (constants xs)
              × (Distinct (names (constants xs)) × AllFresh seen (constants xs))))
  unfolding add_constants
  add_constants_iff [] seen cs =
      (λ h. let e : [] ≡ cs = cc in (rw (← e) refl, (tt, (tt, tt))), λ (e, _). rw e refl)
  add_constants_iff (x ∷ rest) seen cs =
      let c = constant_of prefix typ x in
      elim (Option-cases (entry c.name seen)) [
        | inr (p, e) ↦
            rw (add_constants, e)
              (λ h. let (_, k) = (>>-inr_iff _ _ _).0 h in cc, λ (_, (_, (_, (k, _)))). cc)
        | inl e ↦
            rw (add_constants, e)
              (
                λ h.
                    let (v, k) = (>>-inr_iff _ _ _).0 h in
                    let (t, j, u) = (>>=-inr_iff _ _ _).0 k in
                    let (s, (w, (d, f))) = (add_constants_iff rest (put c.name x.0 seen) t).0 j in
                    let (n, f') = (AllFresh-put c.name x.0 seen (constants rest)).0 f in
                    let same : c ∷ t ≡ cs = cc in
                    (
                      rw (← same, s) refl,
                      (
                        ((differs_iff _ _).0 ((reject_if-inr_iff _ _).0 v), w),
                        ((n, d), (refl, f')),
                      ),
                    ),
                λ (s, ((v, w), ((n, d), (_, f)))). (>>-inr_iff _ _ _).1 (
                  (reject_if-inr_iff _ _).1 ((differs_iff _ _).1 v),
                  (>>=-inr_iff _ _ _).1 (
                    constants rest,
                    (add_constants_iff rest (put c.name x.0 seen) (constants rest)).1
                        (refl, (w, (d, (AllFresh-put c.name x.0 seen (constants rest)).1 (n, f)))),
                    rw s refl,
                  ),
                ),
              )
      ]

-- buildConstants gives the constants of the sorted keys, exactly where no value is empty and no name is
-- given twice; every other specification is an error.
pub build_constants_iff :
    (prefix typ : Text) (values : List (Text × VocabularyEntry)) (cs : List GeneratedConstant)
    → (build_constants prefix typ values ≡ inr cs) ↔ (
        (cs ≡ constants prefix typ (sorted_entries values))
        × (AllValued (constants prefix typ (sorted_entries values))
            × Distinct (names (constants prefix typ (sorted_entries values)))))
unfolding build_constants
build_constants_iff prefix typ values cs =
    let (to, from) = add_constants_iff prefix typ (sorted_entries values) [] cs in
    (
      λ h. let (s, (v, (d, _))) = to h in (s, (v, d)),
      λ (s, (v, d)). from (s, (v, (d, AllFresh-nil _))),
    )
