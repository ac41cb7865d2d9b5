-- ===== src/Fuzzpolicy/Ranges.antt =====
-- internal/fuzzpolicy/generated_policy.go: the frame of facts is within the declared ranges, or there is
-- a structured error that withholds what was read.
use cervo_rules.Prelude.{
  ◌≡◌, refl, ◌⊎◌, inl, inr, Bool, true, false, ◌||◌, Option, none, some, List, [], ◌∷◌, arith, Memᴰ,
  Bool-cases, Option-cases, elem, elem_iff,
}
use cervo_rules.Prelude.Int.{pos, ltb_ℤ}
use cervo_rules.Prelude.Results.{◌>>=◌}
use cervo_rules.Text.{Text, lower}
use cervo_rules.Core.Codes.{severity_fatal, error_code_missing_fact, error_code_invalid_fact}
use cervo_rules.Core.Error.{Error}
use cervo_rules.Core.Types.{Request}
use cervo_rules.Float.{Float}
use cervo_rules.Fuzzpolicy.Facts.{
  NumberBounds, IntegerBounds, BoolBounds, missing_fact_error, invalid_fact_error, absent_fact,
  within_bounds, is_below, is_above, fact_raw_value, number_of, integer_of, bool_of, enum_of,
  parse_int, parse_bool, fact_number_value, fact_integer_value, fact_bool_value, fact_enum_value,
}
use cervo_rules.Fuzzpolicy.Rules.{FactFrame, new_fact_frame, budget_bounds, rate_bounds}

-- A fatal error of the policy: a missing fact, without a value, or an invalid one, whose value is marked
-- sensitive.
abbrev pub IsFactError : Error → Type 0
IsFactError e =
    (e.severity ≡ severity_fatal)
    × ((e.component ≡ "policy")
        × (((e.code ≡ error_code_missing_fact) × (e.value ≡ ""))
            ⊎ ((e.code ≡ error_code_invalid_fact) × (e.sensitive ≡ true))))

-- The error is one of a fact, or the value is as described.
pub Reads : {A : Type 0} → (A → Type 0) → Error ⊎ A → Type 0
Reads P (inl e) = IsFactError e
Reads P (inr a) = P a

missing_is : (name : Text) → IsFactError (missing_fact_error name)
unfolding missing_fact_error
missing_is name = (refl, (refl, inl (refl, refl)))

invalid_is : (name value reason : Text) → IsFactError (invalid_fact_error name value reason)
unfolding invalid_fact_error
invalid_is name value reason = (refl, (refl, inr (refl, refl)))

-- The default, or the value within both bounds, under the comparison of its type.
abbrev pub IsWithin : {A : Type 0} → (A → A → Bool) → Option A → Option A → A → Type 0
IsWithin lt min max a = (is_below lt a min ≡ false) × (is_above lt a max ≡ false)

module _ {A : Type 0} where
  absent_fact-Reads :
      (P : A → Type 0) (name : Text) (default : Option A)
      → ((a : A) → default ≡ some a → P a)
      → Reads P (absent_fact name default)
  unfolding absent_fact Reads
  absent_fact-Reads P name none h = missing_is name
  absent_fact-Reads P name (some a) h = h a refl

  within_bounds-Reads :
      (P : A → Type 0) (lt : A → A → Bool) (name raw : Text) (min max : Option A) (a : A)
      → (IsWithin lt min max a → P a)
      → Reads P (within_bounds lt name raw min max a)
  unfolding within_bounds Reads
  within_bounds-Reads P lt name raw min max a h = elim (Bool-cases (is_below lt a min)) [
    | inl b ↦ rw (b, within_bounds) (invalid_is name raw "fact is below its declared minimum")
    | inr b ↦ elim (Bool-cases (is_above lt a max)) [
      | inl c ↦ rw (b, c, within_bounds) (invalid_is name raw "fact is above its declared maximum")
      | inr c ↦ rw (b, c, within_bounds) (h (b, c))
    ]
  ]

  -- A reader gives the default of an absent fact, and what it makes of a value.
  reader-Reads :
      (P : A → Type 0) (name : Text) (default : Option A) (raw : Option Text)
      (of : Text → Error ⊎ A)
      → ((a : A) → default ≡ some a → P a)
      → ((t : Text) → Reads P (of t))
      → Reads P (elim raw as (λ _. Error ⊎ A) [ none ↦ absent_fact name default | some t ↦ of t ])
  reader-Reads P name default none of h k = absent_fact-Reads P name default h
  reader-Reads P name default (some t) of h k = k t

  returns : (P : A → Type 0) (a : A) → P a → Reads P (inr a)
  unfolding Reads
  returns P a h = h

  >>=-Reads :
      {B : Type 0} (P : A → Type 0) (Q : B → Type 0) (r : Error ⊎ A) (k : A → Error ⊎ B)
      → Reads P r
      → ((a : A) → P a → Reads Q (k a))
      → Reads Q (r >>= k)
  unfolding Reads ◌>>=◌
  >>=-Reads P Q (inl e) k h g = h
  >>=-Reads P Q (inr a) k h g = g a h

Reads-weaken :
    {A : Type 0} (P Q : A → Type 0) (r : Error ⊎ A) → Reads P r → ((a : A) → P a → Q a) → Reads Q r
unfolding Reads
Reads-weaken P Q (inl e) h k = h
Reads-weaken P Q (inr a) h k = k a h

-- A finite number.
abbrev pub IsFinite : {F : Type 0} ⦃fl : Float F⦄ → F → Type 0
IsFinite ⦃fl⦄ v = (fl.is_nan v ≡ false) × (fl.is_inf v ≡ false)

integer_of-Reads :
    (name : Text) (bounds : IntegerBounds) (raw : Text)
    → Reads (IsWithin ltb_ℤ bounds.min bounds.max) (integer_of name bounds raw)
unfolding integer_of Reads
integer_of-Reads name bounds raw = elim (Option-cases (parse_int raw)) [
  | inl n ↦ rw (n, integer_of) (invalid_is name raw "fact is not an integer")
  | inr (v, n) ↦
      rw (n, integer_of)
        (within_bounds-Reads (IsWithin ltb_ℤ bounds.min bounds.max) ltb_ℤ name raw bounds.min
          bounds.max v (λ h. h))
]

bool_of-Reads : (name raw : Text) → Reads (λ _. Unit {0}) (bool_of name raw)
unfolding bool_of Reads
bool_of-Reads name raw = elim (Option-cases (parse_bool raw)) [
  | inl n ↦ rw (n, bool_of) (invalid_is name raw "fact is not a bool")
  | inr (v, n) ↦ rw (n, bool_of) tt
]

enum_of-Reads :
    (name : Text) (allowed : List Text) (raw : Text)
    → Reads (λ v. Memᴰ v allowed) (enum_of name allowed raw)
unfolding enum_of Reads
enum_of-Reads name allowed raw = elim (Bool-cases (elem (lower raw) allowed)) [
  | inl m ↦ rw (m, enum_of) ((elem_iff (lower raw) allowed).0 m)
  | inr m ↦ rw (m, enum_of) (invalid_is name raw "fact is outside its declared domain")
]

number_of-Reads :
    {F : Type 0} ⦃fl : Float F⦄ (name : Text) (bounds : NumberBounds F) (raw : Text)
    → Reads (λ v. IsFinite v × IsWithin fl.lt bounds.min bounds.max v) (number_of name bounds raw)
unfolding number_of Reads
number_of-Reads ⦃fl⦄ name bounds raw = elim (Option-cases (fl.parse raw)) [
  | inl n ↦ rw (n, number_of) (invalid_is name raw "fact is not a number")
  | inr (v, n) ↦ elim (Bool-cases (fl.is_nan v || fl.is_inf v)) [
    | inl b ↦ rw (n, number_of, b) (invalid_is name raw "fact is not a finite number")
    | inr b ↦
        rw (n, number_of, b)
          (within_bounds-Reads (λ w. IsFinite w × IsWithin fl.lt bounds.min bounds.max w) fl.lt name
            raw bounds.min bounds.max v (λ h. (ground arith, h)))
  ]
]

module _ (req : Request) (name : Text) where
  fact_bool_value-Reads :
      (bounds : BoolBounds) → Reads (λ _. Unit {0}) (fact_bool_value req name bounds)
  unfolding fact_bool_value Reads
  fact_bool_value-Reads bounds =
      reader-Reads (λ _. Unit {0}) name bounds.default (fact_raw_value req name) (bool_of name)
        (λ a h. tt) (bool_of-Reads name)

  -- An integer that is read is the default, or within both bounds.
  fact_integer_value-Reads :
      (bounds : IntegerBounds)
      → Reads
          (λ v. (bounds.default ≡ some v) ⊎ IsWithin ltb_ℤ bounds.min bounds.max v)
          (fact_integer_value req name bounds)
  unfolding fact_integer_value
  fact_integer_value-Reads bounds =
      reader-Reads (λ v. (bounds.default ≡ some v) ⊎ IsWithin ltb_ℤ bounds.min bounds.max v) name
        bounds.default (fact_raw_value req name) (integer_of name bounds) (λ a h. inl h)
        (λ t.
          Reads-weaken _ _ (integer_of name bounds t) (integer_of-Reads name bounds t)
            (λ a h. inr h))

  fact_number_value-Reads :
      {F : Type 0} ⦃fl : Float F⦄ (bounds : NumberBounds F)
      → Reads
          (λ v. (bounds.default ≡ some v) ⊎ (IsFinite v × IsWithin fl.lt bounds.min bounds.max v))
          (fact_number_value req name bounds)
  unfolding fact_number_value
  fact_number_value-Reads ⦃fl⦄ bounds =
      reader-Reads
        (λ v. (bounds.default ≡ some v) ⊎ (IsFinite v × IsWithin fl.lt bounds.min bounds.max v))
        name bounds.default (fact_raw_value req name) (number_of name bounds) (λ a h. inl h)
        (λ t.
          Reads-weaken _ _ (number_of name bounds t) (number_of-Reads name bounds t) (λ a h. inr h))

  fact_enum_value-Reads :
      (allowed : List Text)
      → Reads (λ v. Memᴰ v allowed) (fact_enum_value req name allowed (record { default = none }))
  unfolding fact_enum_value
  fact_enum_value-Reads allowed =
      reader-Reads (λ v. Memᴰ v allowed) name none (fact_raw_value req name) (enum_of name allowed)
        (λ a h. cc) (enum_of-Reads name allowed)

-- What the policy declares of its facts: an environment of three, percentages that are finite and from
-- 0 to 100, of which the budget may be the default 1, and a depth that is not negative.
abbrev pub IsInRange : {F : Type 0} ⦃fl : Float F⦄ → FactFrame F → Type 0
IsInRange ⦃fl⦄ f =
    Memᴰ f.environment ("dev" ∷ "staging" ∷ "production" ∷ [])
    × (((some (fl.literal "1") ≡ some f.error_budget_pct)
          ⊎ (IsFinite f.error_budget_pct
              × IsWithin fl.lt (some (fl.literal "0")) (some (fl.literal "100"))
                  f.error_budget_pct))
        × ((IsFinite f.error_rate_pct
              × IsWithin fl.lt (some (fl.literal "0")) (some (fl.literal "100")) f.error_rate_pct)
            × IsWithin ltb_ℤ (some (pos 0)) none f.queue_depth))

-- Without a default, the value is as described.
settled : {A : Type 0} {v : A} {P : Type 0} → (none ≡ some v) ⊎ P → P
settled (inl n) = cc
settled (inr p) = p

-- A frame that is read is in its declared ranges; where there is none, the error is one of a fact, and
-- withholds the value.
pub new_fact_frame-Reads :
    (F : Type 0) ⦃fl : Float F⦄ (req : Request)
    → Reads {A = FactFrame F} IsInRange (new_fact_frame req)
unfolding new_fact_frame budget_bounds rate_bounds
new_fact_frame-Reads F ⦃fl⦄ req =
    >>=-Reads _ (IsInRange {F = F}) _ _
      (fact_bool_value-Reads req "change_freeze" (record { default = none }))
      (λ freeze _.
        >>=-Reads _ (IsInRange {F = F}) _ _
          (fact_enum_value-Reads req "environment" ("dev" ∷ "staging" ∷ "production" ∷ []))
          (λ environment e.
            >>=-Reads _ (IsInRange {F = F}) _ _
              (fact_number_value-Reads req "error_budget_pct" (budget_bounds {F = F}))
              (λ budget b.
                >>=-Reads _ (IsInRange {F = F}) _ _
                  (fact_number_value-Reads req "error_rate_pct" (rate_bounds {F = F}))
                  (λ rate r.
                    >>=-Reads _ (IsInRange {F = F}) _ _
                      (fact_integer_value-Reads req "queue_depth"
                        (record { default = none; min = some (pos 0); max = none }))
                      (λ depth d.
                        let frame : FactFrame F = record {
                          change_freeze = freeze;
                          environment = environment;
                          error_budget_pct = budget;
                          error_rate_pct = rate;
                          queue_depth = depth;
                        } in
                        let in_range : IsInRange frame = (e, (b, (settled r, settled d))) in
                        returns IsInRange frame in_range)))))
