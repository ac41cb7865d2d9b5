-- ===== src/Facts/Indexes/Thresholds.antt =====
-- facts/binding_profile.go: what every recommendation of an index rests on.
use mathlib.Core.List.Memᴰ
use cervo_rules.Prelude.{
  ◌≡◌, refl, ◌≢◌, ◌⊎◌, inl, inr, false, ◌||◌, List, [], ◌∷◌, eq_iff, elem, Memᴰ, Memᴰ-nil, arith,
  Bool-cases,
}
use cervo_rules.Prelude.Int.{ℤ, ltb_ℤ}
use cervo_rules.Prelude.Sort.{mem-sort}
use cervo_rules.Text.{Text}
use cervo_rules.Facts.Contract.{EvaluationPlan, EvaluationStats, PatternPlan}
use cervo_rules.Facts.Indexes.{
  CompoundIndexOptions, normalize_index_options, Recommendation, recommend, recommendation_key,
  is_skipped, Candidate, all_candidates, recommend_from, less_recommendation,
  recommend_compound_indexes,
}

-- What makes a pattern worth an index, and the recommendation made of it.
abbrev pub Earned : CompoundIndexOptions → List Candidate → Recommendation → Type 0
Earned o candidates x =
    (r : Text) × (b : ℤ) × (p : PatternPlan) × Memᴰ (r, b, p) candidates
    × (p.negated ≡ false)
    × (p.predicate ≢ "")
    × ((ltb_ℤ p.candidate_count o.min_candidate_count ≡ false) ⊎ (ltb_ℤ b o.min_bindings ≡ false))
    × (x ≡ recommend o r b p)

unskipped :
    (o : CompoundIndexOptions) (b : ℤ) (p : PatternPlan)
    → is_skipped o b p ≡ false
    → (p.negated ≡ false)
      × (p.predicate ≢ "")
      × ((ltb_ℤ p.candidate_count o.min_candidate_count ≡ false) ⊎ (ltb_ℤ b o.min_bindings ≡ false))
unfolding is_skipped
unskipped o b p h = ground (arith, eq_iff p.predicate "")

Earned-from :
    (o : CompoundIndexOptions) (seen : List Text) (candidates : List Candidate) (x : Recommendation)
    → Memᴰ x (recommend_from o seen candidates)
    → Earned o candidates x
unfolding recommend_from
Earned-from o seen [] x m = absurd (Memᴰ-nil x m)
Earned-from o seen ((r, b, p) ∷ rest) x m =
    elim (Bool-cases (is_skipped o b p || elem (recommendation_key r p) seen)) [
      | inl e ↦ later (Earned-from o seen rest x (rw (e, recommend_from) at m))
      | inr e ↦ elim (Memᴰ.cases_cons (rw (e, recommend_from) at m)) [
        | inl same ↦
            let (n, q, t) = unskipped o b p (ground arith) in
            (r, b, p, Memᴰ.head refl, n, q, t, same)
        | inr k ↦ later (Earned-from o (recommendation_key r p ∷ seen) rest x k)
      ]
    ]
  where
    later : Earned o rest x → Earned o ((r, b, p) ∷ rest) x
    later (r', b', p', k, n, q, t, e) = (r', b', p', Memᴰ.tail k, n, q, t, e)

-- Every index that is recommended is of a pattern of the plan that is not negated and has a
-- predicate, and whose candidates or whose rule's bindings reach the normalized threshold.
pub recommend_compound_indexes-Earned :
    (plan : EvaluationPlan) (stats : EvaluationStats) (o : CompoundIndexOptions)
    (x : Recommendation)
    → Memᴰ x (recommend_compound_indexes plan stats o)
    → Earned (normalize_index_options o) (all_candidates stats.rules plan.rules) x
unfolding recommend_compound_indexes
recommend_compound_indexes-Earned plan stats o x m =
    Earned-from (normalize_index_options o) [] (all_candidates stats.rules plan.rules) x
      ((mem-sort less_recommendation x _).0 m)
