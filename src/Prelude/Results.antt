-- ===== src/Prelude/Results.antt =====
-- Results of fallible code: an error or a value.
use mathlib.Core.Path.{◌≡◌, refl}
use mathlib.Core.Logic.{◌↔◌, ◌⊎◌, inl, inr}
use mathlib.Core.Bool.{Bool, true, false}

-- `if err != nil { return ..., err }`
infixl 5 ◌>>=◌
unfoldable pub ◌>>=◌ {ℓ κ μ} : {E : Type ℓ} {A : Type κ} {B : Type μ} → E ⊎ A → (A → E ⊎ B) → E ⊎ B
inl e >>= f = inl e
inr a >>= f = f a

infixl 5 ◌>>◌
unfoldable pub ◌>>◌ {ℓ κ} : {E : Type ℓ} {B : Type κ} → E ⊎ Unit {0} → E ⊎ B → E ⊎ B
inl e >> k = inl e
inr a >> k = k

-- `if cond { return err }`
abbrev pub reject_if {ℓ} : {E : Type ℓ} → Bool → E → E ⊎ Unit {0}
reject_if true e = inl e
reject_if false e = inr tt

-- A chain of steps gives a value exactly where each step does.
pub >>=-inr_iff {ℓ κ μ} :
    {E : Type ℓ} {A : Type κ} {B : Type μ} (m : E ⊎ A) (f : A → E ⊎ B) (b : B)
    → ((m >>= f) ≡ inr b) ↔ ((a : A) × (m ≡ inr a) × (f a ≡ inr b))
unfolding ◌>>=◌
>>=-inr_iff (inl e) f b = (λ h. cc, λ (a, h, k). cc)
>>=-inr_iff (inr a) f b = (λ h. (a, refl, h), λ (a', h, k). let e : a ≡ a' = cc in rw e k)

pub >>-inr_iff {ℓ κ} :
    {E : Type ℓ} {B : Type κ} (m : E ⊎ Unit {0}) (k : E ⊎ B) (b : B)
    → ((m >> k) ≡ inr b) ↔ ((m ≡ inr tt) × (k ≡ inr b))
unfolding ◌>>◌
>>-inr_iff (inl e) k b = (λ h. cc, λ (h, j). cc)
>>-inr_iff (inr u) k b = (λ h. (refl, h), λ (h, j). j)

pub reject_if-inr_iff {ℓ} : {E : Type ℓ} (b : Bool) (e : E) → (reject_if b e ≡ inr tt) ↔ (b ≡ false)
reject_if-inr_iff true e = (λ h. cc, λ h. cc)
reject_if-inr_iff false e = (λ h. refl, λ h. refl)

-- The step gives a value.
abbrev pub Accepts {ℓ κ} : {E : Type ℓ} {A : Type κ} → E ⊎ A → Type 0
Accepts (inl e) = ⊥
Accepts (inr a) = Unit

pub Accepts->> {ℓ κ} :
    {E : Type ℓ} {B : Type κ} (m : E ⊎ Unit {0}) (k : E ⊎ B)
    → Accepts (m >> k) ↔ (Accepts m × Accepts k)
unfolding ◌>>◌
Accepts->> (inl e) k = (λ h. absurd h, λ (h, j). absurd h)
Accepts->> (inr u) k = (λ h. (tt, h), λ (h, j). j)
