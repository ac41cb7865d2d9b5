-- ===== src/Float.antt =====
-- Go's float64, of which the code parses, compares and tests values: a parameter.
use cervo_rules.Prelude.{Bool, Option}
use cervo_rules.Prelude.Int.{ℤ}
use cervo_rules.Text.{Text}

-- `parse` is `strconv.ParseFloat(s, 64)`, with none for an error, and `print` is
-- `strconv.FormatFloat(v, 'g', -1, 64)`; `literal` reads a constant of the source; `lt` and `eq` are `<`
-- and `==`; `is_nan`, `is_inf`, `trunc` and `abs` are of package math, with `is_inf` for either sign;
-- `of_int` and `to_int` are the conversions from and to int64.
pub record Float (F : Type 0) : Type 0 where
  pub parse : Text → Option F
  pub print : F → Text
  pub literal : Text → F
  pub lt : F → F → Bool
  pub eq : F → F → Bool
  pub is_nan : F → Bool
  pub is_inf : F → Bool
  pub trunc : F → F
  pub abs : F → F
  pub of_int : ℤ → F
  pub to_int : F → ℤ
