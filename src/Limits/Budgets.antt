-- ===== src/Limits/Budgets.antt =====
-- limits/limits.go: which requests are within a budget, and which violation each other one has.
use cervo_rules.Prelude.{◌≤◌, ◌≡◌, ◌↔◌, ◌⊎◌, true, false, arith}
use cervo_rules.Prelude.Int.{ℤ, pos, negsuc, ltb_ℤ}
use cervo_rules.Limits.{Budget, Requested, has_violation, exceeds, check_budget}

-- The order of signed numbers.
abbrev pub IsAtMost : ℤ → ℤ → Type 0
IsAtMost (pos m) (pos n) = m ≤ n
IsAtMost (pos m) (negsuc n) = ⊥
IsAtMost (negsuc m) (pos n) = Unit
IsAtMost (negsuc m) (negsuc n) = n ≤ m

-- A limit that is zero or negative does not limit.
abbrev pub IsWithin : ℤ → ℤ → Type 0
IsWithin limit n = IsAtMost limit (pos 0) ⊎ IsAtMost n limit

exceeds_iff : (limit n : ℤ) → (exceeds limit n ≡ false) ↔ IsWithin limit n
unfolding exceeds ltb_ℤ
exceeds_iff (pos l) (pos n) = ground arith
exceeds_iff (pos l) (negsuc n) = ground arith
exceeds_iff (negsuc l) (pos n) = ground arith
exceeds_iff (negsuc l) (negsuc n) = ground arith

-- `Check` leaves each of the five fields out exactly where the request stays within its limit (a
-- limit that is not positive limits nothing), or does not want what the budget does not allow.
pub check_budget_iff :
    (b : Budget) (r : Requested)
    → ((has_violation "body_bytes" (check_budget b r) ≡ false)
        ↔ IsWithin b.max_body_bytes r.body_bytes)
      × ((has_violation "max_tokens" (check_budget b r) ≡ false)
          ↔ IsWithin b.max_tokens r.max_tokens)
      × ((has_violation "stream" (check_budget b r) ≡ false)
          ↔ ((r.stream ≡ false) ⊎ (b.allow_stream ≡ true)))
      × ((has_violation "tools" (check_budget b r) ≡ false)
          ↔ ((r.tools ≡ false) ⊎ (b.allow_tools ≡ true)))
      × ((has_violation "images" (check_budget b r) ≡ false)
          ↔ ((r.images ≡ false) ⊎ (b.allow_images ≡ true)))
unfolding check_budget has_violation
check_budget_iff b r =
    let body = exceeds_iff b.max_body_bytes r.body_bytes in
    let tokens = exceeds_iff b.max_tokens r.max_tokens in
    (ground (arith, body), ground (arith, tokens), ground arith, ground arith, ground arith)
