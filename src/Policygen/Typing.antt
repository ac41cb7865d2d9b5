-- ===== src/Policygen/Typing.antt =====
-- internal/policygen/facts.go: what it means that a comparison fits the declared facts, and the agreement
-- of its validation.
use cervo_rules.Prelude.{
  ℕ, suc, ◌≡◌, refl, ◌≢◌, ◌↔◌, ◌⊎◌, inl, inr, Bool, true, false, ◌||◌, some, List, [], ◌∷◌,
  if◌then◌else◌, ◌==◌, arith, elem, elem_iff, eq_iff, Memᴰ, Memᴰ-cons, Memᴰ-nil, Bool-cases,
  sum_cases,
}
use cervo_rules.Prelude.Maps.{entry}
use cervo_rules.Prelude.Results.{Accepts}
use cervo_rules.Text.{Text, normalize, trim_space}
use cervo_rules.Float.{Float}
use cervo_rules.Policygen.Schema.{
  Scalar, null, text, flag, integer, number, other, Leaf, FactBinding, FactIndex,
}
use cervo_rules.Policygen.Kinds.{
  kind_number, kind_integer, kind_bool, kind_enum, kind_string, to_float, coerce_number,
  coerce_integer, coerce_bool, coerce_enum, coerce_string, coerce_fact_value,
}
use cervo_rules.Policygen.Predicate.{ops_by_kind, is_null, validate_elements}

pub rejected {ℓ} : {E : Type ℓ} {A : Type 0} (r : E ⊎ A) {e : E} → r ≡ inl e → Accepts r → ⊥
rejected (inl e) k h = h
rejected (inr a) k h = cc

pub accepted {ℓ} : {E : Type ℓ} {A : Type 0} (r : E ⊎ A) {a : A} → r ≡ inr a → Accepts r
accepted (inl e) k = cc
accepted (inr a) k = tt

pub apart : {b : Bool} → b ≡ false → b ≡ true → ⊥
apart h k = ground arith

module _ {F : Type 0} ⦃fl : Float F⦄ where
  abbrev pub IsFinite : F → Type 0
  IsFinite v = (fl.is_nan v ≡ false) × (fl.is_inf v ≡ false)

  -- The values that a number takes: finite ones, an integer by its conversion.
  abbrev pub IsNumber : Scalar F → Type 0
  IsNumber (integer i) = IsFinite (fl.of_int i)
  IsNumber (number v) = IsFinite v
  IsNumber _ = ⊥

  abbrev pub IsInteger : Scalar F → Type 0
  IsInteger (integer i) = Unit
  IsInteger _ = ⊥

  abbrev pub IsFlag : Scalar F → Type 0
  IsFlag (flag b) = Unit
  IsFlag _ = ⊥

  -- The texts that name a value of the domain.
  abbrev pub IsElement : List Text → Scalar F → Type 0
  IsElement values (text s) = Memᴰ (normalize s) values
  IsElement values _ = ⊥

  -- The texts that a request can carry: not empty, and with no space around them.
  abbrev pub IsWord : Scalar F → Type 0
  IsWord (text s) = (s ≢ "") × (trim_space s ≡ s)
  IsWord _ = ⊥

  -- The values of a fact's kind.
  abbrev pub IsOfKind : FactBinding F → Scalar F → Type 0
  IsOfKind b raw =
      if b.kind == kind_number
      then IsNumber raw
      else if b.kind == kind_integer
      then IsInteger raw
      else if b.kind == kind_bool
      then IsFlag raw
      else if b.kind == kind_enum
      then IsElement b.values raw
      else if b.kind == kind_string
      then IsWord raw
      else ⊥

  nan_iff : (v : F) → ((fl.is_nan v || fl.is_inf v) ≡ false) ↔ IsFinite v
  nan_iff v = ground arith

  coerce_number_iff : (raw : Scalar F) → Accepts (coerce_number raw) ↔ IsNumber raw
  unfolding coerce_number to_float
  coerce_number_iff (integer i) =
      elim (Bool-cases (fl.is_nan (fl.of_int i) || fl.is_inf (fl.of_int i))) [
        | inl h ↦ rw (h) (λ x. absurd x, λ x. ground (arith, nan_iff (fl.of_int i)))
        | inr h ↦ rw (h) (λ x. (nan_iff (fl.of_int i)).0 h, λ x. tt)
      ]
  coerce_number_iff (number v) = elim (Bool-cases (fl.is_nan v || fl.is_inf v)) [
    | inl h ↦ rw (h) (λ x. absurd x, λ x. ground (arith, nan_iff v))
    | inr h ↦ rw (h) (λ x. (nan_iff v).0 h, λ x. tt)
  ]
  coerce_number_iff null = (λ x. x, λ x. x)
  coerce_number_iff (text s) = (λ x. x, λ x. x)
  coerce_number_iff (flag s) = (λ x. x, λ x. x)
  coerce_number_iff (other s) = (λ x. x, λ x. x)

  coerce_integer_iff : (raw : Scalar F) → Accepts (coerce_integer raw) ↔ IsInteger raw
  unfolding coerce_integer
  coerce_integer_iff (integer i) = (λ x. x, λ x. x)
  coerce_integer_iff _ = (λ x. x, λ x. x)

  coerce_bool_iff : (raw : Scalar F) → Accepts (coerce_bool raw) ↔ IsFlag raw
  unfolding coerce_bool
  coerce_bool_iff (flag b) = (λ x. x, λ x. x)
  coerce_bool_iff _ = (λ x. x, λ x. x)

  coerce_enum_iff :
      (values : List Text) (raw : Scalar F)
      → Accepts (coerce_enum values raw) ↔ IsElement values raw
  unfolding coerce_enum
  coerce_enum_iff values (text s) = elim (Bool-cases (elem (normalize s) values)) [
    | inl h ↦ rw h (λ x. (elem_iff (normalize s) values).0 h, λ x. tt)
    | inr h ↦ rw h (λ x. absurd x, λ x. absurd (apart h ((elem_iff (normalize s) values).1 x)))
  ]
  coerce_enum_iff values _ = (λ x. x, λ x. x)

  coerce_string_iff : (raw : Scalar F) → Accepts (coerce_string raw) ↔ IsWord raw
  unfolding coerce_string
  coerce_string_iff (text s) = elim (Bool-cases (s == "")) [
    | inl e ↦ rw e (λ x. absurd x, λ (x, _). absurd (x ((eq_iff s "").0 e)))
    | inr e ↦ elim (Bool-cases (trim_space s == s)) [
      | inl t ↦
          rw (e, t)
            (λ x. (λ z. apart e ((eq_iff s "").1 z), (eq_iff (trim_space s) s).0 t), λ x. tt)
      | inr t ↦
          rw (e, t) (λ x. absurd x, λ (_, x). absurd (apart t ((eq_iff (trim_space s) s).1 x)))
    ]
  ]
  coerce_string_iff _ = (λ x. x, λ x. x)

  -- A value is accepted for a fact exactly where it is one of the fact's kind.
  pub coerce_fact_value_iff :
      (b : FactBinding F) (raw : Scalar F) → Accepts (coerce_fact_value b raw) ↔ IsOfKind b raw
  unfolding coerce_fact_value
  coerce_fact_value_iff b raw = elim (Bool-cases (b.kind == kind_number)) [
    | inl e ↦ rw e (coerce_number_iff raw)
    | inr e ↦ elim (Bool-cases (b.kind == kind_integer)) [
      | inl e' ↦ rw (e, e') (coerce_integer_iff raw)
      | inr e' ↦ elim (Bool-cases (b.kind == kind_bool)) [
        | inl i ↦ rw (e, e', i) (coerce_bool_iff raw)
        | inr i ↦ elim (Bool-cases (b.kind == kind_enum)) [
          | inl i' ↦ rw (e, e', i, i') (coerce_enum_iff b.values raw)
          | inr i' ↦ elim (Bool-cases (b.kind == kind_string)) [
            | inl j ↦ rw (e, e', i, i', j) (coerce_string_iff raw)
            | inr j ↦ rw (e, e', i, i', j) (λ x. x, λ x. x)
          ]
        ]
      ]
    ]
  ]

  -- An operator without an operand.
  abbrev pub TakesNone : Leaf F → Type 0
  TakesNone l = (is_null l.value ≡ true) × (l.fact_value ≡ "") × (l.values ≡ [])

  -- A list of values of the kind.
  abbrev pub TakesValues : FactBinding F → Leaf F → Type 0
  TakesValues b l =
      (l.values ≢ [])
      × (is_null l.value ≡ true)
      × (l.fact_value ≡ "")
      × ((raw : Scalar F) → Memᴰ raw l.values → IsOfKind b raw)

  -- Another declared fact of the same kind.
  abbrev pub TakesFact : FactIndex F → FactBinding F → Leaf F → Type 0
  TakesFact facts b l =
      (o : FactBinding F) × (entry (normalize l.fact_value) facts ≡ some o)
      × ((o.kind ≡ b.kind) × (o.name ≢ b.name))

  -- Exactly one operand: a fact, or a value of the kind.
  abbrev pub TakesOne : FactIndex F → FactBinding F → Leaf F → Type 0
  TakesOne facts b l =
      (l.values ≡ [])
      × (((l.fact_value ≢ "") × ((is_null l.value ≡ true) × TakesFact facts b l))
          ⊎ ((l.fact_value ≡ "") × ((is_null l.value ≡ false) × IsOfKind b l.value)))

  -- The operand that an operator takes.
  abbrev pub Fits : FactIndex F → FactBinding F → Leaf F → Text → Type 0
  Fits facts b l op =
      if op == "is_true" || op == "is_false"
      then TakesNone l
      else if op == "in"
      then TakesValues b l
      else TakesOne facts b l

  -- A declared fact, an operator of its kind, and the operand that the operator takes.
  abbrev pub LeafFits : FactIndex F → Leaf F → Type 0
  LeafFits facts l =
      (b : FactBinding F) × (entry (normalize l.fact) facts ≡ some b)
      × ((ops : List Text) × (ops_by_kind b.kind ≡ some ops)
          × (Memᴰ (normalize l.op) ops × Fits facts b l (normalize l.op)))

  pub validate_elements_iff :
      (b : FactBinding F) (path : Text) (i : ℕ) (values : List (Scalar F))
      → Accepts (validate_elements b path i values)
        ↔ ((raw : Scalar F) → Memᴰ raw values → IsOfKind b raw)
  unfolding validate_elements
  validate_elements_iff b path i [] = (λ h raw m. absurd (Memᴰ-nil raw m), λ h. tt)
  validate_elements_iff b path i (raw ∷ rest) = elim (sum_cases (coerce_fact_value b raw)) [
    | inl (e, k) ↦
        rw (k, validate_elements)
          (
            λ x. absurd x,
            λ h. absurd (
                rejected (coerce_fact_value b raw) k
                  ((coerce_fact_value_iff b raw).1 (h raw (Memᴰ.head refl)))),
          )
    | inr (v, k) ↦
        rw (k, validate_elements)
          (
            λ x a m. elim ((Memᴰ-cons a raw rest).0 m) [
              | inl e ↦
                  rw e ((coerce_fact_value_iff b raw).0 (accepted (coerce_fact_value b raw) k))
              | inr m' ↦ (validate_elements_iff b path (suc i) rest).0 x a m'
            ],
            λ h. (validate_elements_iff b path (suc i) rest).1 (λ a m. h a (Memᴰ.tail m)),
          )
  ]
