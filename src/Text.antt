-- ===== src/Text.antt =====
-- Texts as Go strings: `strings.TrimSpace`, `strings.ToLower`, the order of `<`, and the `normalize`
-- that core/types.go, ontology/types.go and internal/policygen/generator.go each define.
pub mod Order
pub mod Keys
pub mod Normal
use Prim.Native.Nat.{Ordering, compare as compare_ℕ, zero, suc, ◌/◌, ◌%◌}
use Prim.Native.Char.{Char, char, code, IsScalar}
use Prim.Native.String.{String, compare, slice}
use mathlib.Core.Logic.{dite}
use native.Mathlib.Decide.{dec_le}
use cervo_rules.Prelude.Int.{ℤ, pos, negsuc}
use cervo_rules.Prelude.{
  ℕ, List, [], ◌∷◌, ◌&◌, ◌≡◌, ◌+◌, ◌-◌, ◌≤◌, Bool, true, false, ◌&&◌, ◌||◌, arith, leb,
  if◌then◌else◌, nat_beq, ltb,
}

-- A Go string of ASCII characters; `String` is ordered as its bytes are.
abbrev pub Text : Type 0
Text = String

-- The ASCII white space of `unicode.IsSpace`: tab, newline, vertical tab, form feed, return, space.
unfoldable pub is_space : Char → Bool
is_space c = nat_beq (code c) 32 || leb 9 (code c) && leb (code c) 13

IsScalar-small : (n : ℕ) → n ≤ 122 → IsScalar n
IsScalar-small n h = let e : compare_ℕ n 55296 ≡ Ordering.lt = ground arith in rw e tt

-- `unicode.ToLower` on ASCII.
unfoldable pub lower_char : Char → Char
unfolding IsScalar-small
lower_char (char n p) =
    dite (dec_le 65 n)
      (λ lo.
        dite (dec_le n 90) (λ hi. char (n + 32) (IsScalar-small (n + 32) (omega arith)))
          (λ _. char n p))
      (λ _. char n p)

-- `unicode.ToUpper` on ASCII.
unfoldable pub upper_char : Char → Char
unfolding IsScalar-small
upper_char (char n p) =
    dite (dec_le 97 n)
      (λ lo.
        dite (dec_le n 122) (λ hi. char (n - 32) (IsScalar-small (n - 32) (omega arith)))
          (λ _. char n p))
      (λ _. char n p)

unfoldable pub lower : Text → Text
lower String.[] = String.[]
lower (String.◌∷◌ c s) = String.◌∷◌ (lower_char c) (lower s)

unfoldable pub trim_left : Text → Text
trim_left String.[] = String.[]
trim_left (String.◌∷◌ c s) = if is_space c then trim_left s else String.◌∷◌ c s

-- A character in front of a text that is already trimmed on the right.
unfoldable pub cons_trimmed : Char → Text → Text
cons_trimmed c String.[] = if is_space c then String.[] else String.◌∷◌ c String.[]
cons_trimmed c (String.◌∷◌ d s) = String.◌∷◌ c (String.◌∷◌ d s)

unfoldable pub trim_right : Text → Text
trim_right String.[] = String.[]
trim_right (String.◌∷◌ c s) = cons_trimmed c (trim_right s)

unfoldable pub trim_space : Text → Text
trim_space s = trim_right (trim_left s)

unfoldable pub normalize : Text → Text
normalize s = lower (trim_space s)

-- `a < b` on Go strings.
unfoldable pub text_less : Text → Text → Bool
text_less a b = elim (compare a b) [ Ordering.lt ↦ true | _ ↦ false ]

abbrev pub nul_text : Text
nul_text = String.◌∷◌ (char 0 tt) String.[]

-- `strings.Join`
unfoldable pub join : Text → List Text → Text
join sep [] = ""
join sep (x ∷ []) = x
join sep (x ∷ y ∷ rest) = x & (sep & join sep (y ∷ rest))

-- A decimal digit.
abbrev pub digit : ℕ → Text
digit d = slice "0123456789" d (suc d)

-- `strconv.Itoa` of a number that is not negative; a number has at most as many digits as its
-- successor counts.
unfoldable pub decimal_from : ℕ → ℕ → Text → Text
decimal_from zero n rest = rest
decimal_from (suc fuel) n rest =
    let more = decimal_from fuel (n / 10) (digit (n % 10) & rest) in
    if ltb n 10 then digit n & rest else more

unfoldable pub decimal : ℕ → Text
decimal n = decimal_from (suc n) n ""

-- `%d` of a signed number.
unfoldable pub decimal_ℤ : ℤ → Text
decimal_ℤ (pos n) = decimal n
decimal_ℤ (negsuc n) = "-" & decimal (suc n)
