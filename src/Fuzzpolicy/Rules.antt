-- ===== src/Fuzzpolicy/Rules.antt =====
-- internal/fuzzpolicy/generated_policy.go: the frame of the facts that the policy reads, and the
-- predicates of its deny rules.
use cervo_rules.Prelude.{◌⊎◌, inr, Bool, true, false, not, none, some, [], ◌∷◌, if◌then◌else◌, ◌==◌}
use cervo_rules.Prelude.Int.{ℤ, pos, ltb_ℤ}
use cervo_rules.Prelude.Results.{◌>>=◌}
use cervo_rules.Text.{Text}
use cervo_rules.Core.Error.{Error}
use cervo_rules.Core.Types.{Request}
use cervo_rules.Float.{Float}
use cervo_rules.Fuzzpolicy.Facts.{
  NumberBounds, fact_bool_value, fact_enum_value, fact_number_value, fact_integer_value,
}

pub record FactFrame (F : Type 0) : Type 0 where
  pub change_freeze : Bool
  pub environment : Text
  pub error_budget_pct : F
  pub error_rate_pct : F
  pub queue_depth : ℤ

-- The matched flag, and the leaf that decided.
abbrev pub Match : Type 0
Match = Bool × Text

module _ {F : Type 0} where
  unfoldable pub budget_bounds : ⦃fl : Float F⦄ → NumberBounds F
  budget_bounds ⦃fl⦄ = record {
    default = some (fl.literal "1");
    min = some (fl.literal "0");
    max = some (fl.literal "100");
  }

  unfoldable pub rate_bounds : ⦃fl : Float F⦄ → NumberBounds F
  rate_bounds ⦃fl⦄ = record {
    default = none;
    min = some (fl.literal "0");
    max = some (fl.literal "100");
  }

  -- `newFactFrame`
  unfoldable pub new_fact_frame : ⦃fl : Float F⦄ → Request → Error ⊎ FactFrame F
  new_fact_frame req = do
    freeze ← fact_bool_value req "change_freeze" (record { default = none })
    environment ←
        fact_enum_value req "environment" ("dev" ∷ "staging" ∷ "production" ∷ [])
          (record { default = none })
    budget ← fact_number_value req "error_budget_pct" budget_bounds
    rate ← fact_number_value req "error_rate_pct" rate_bounds
    depth ←
        fact_integer_value req "queue_depth"
          (record { default = none; min = some (pos 0); max = none })
    inr (record {
      change_freeze = freeze;
      environment = environment;
      error_budget_pct = budget;
      error_rate_pct = rate;
      queue_depth = depth;
    })

  -- `matchRule0DenyChangeFreeze`
  unfoldable pub match_change_freeze : FactFrame F → Match
  match_change_freeze f =
      if not f.change_freeze
      then (false, "")
      else if not (f.environment == "production")
      then (false, "")
      else (true, "all(change_freeze is_true, environment eq production)")

  -- `matchRule1DenyUnhealthyTarget`
  unfoldable pub match_unhealthy_target : ⦃fl : Float F⦄ → FactFrame F → Match
  match_unhealthy_target ⦃fl⦄ f =
      if not (ltb_ℤ f.queue_depth (pos 10000))
      then (true, "queue_depth gte 10000")
      else if fl.lt f.error_budget_pct f.error_rate_pct
      then (true, "error_rate_pct gt error_budget_pct")
      else (false, "")

  -- `matchRule2DenyUnreviewedProductionDeployNode1`
  unfoldable pub match_unreviewed_node1 : ⦃fl : Float F⦄ → FactFrame F → Match
  match_unreviewed_node1 ⦃fl⦄ f =
      if fl.lt f.error_rate_pct (fl.literal "0.5")
      then (false, "")
      else (true, "not(error_rate_pct lt 0.5)")

  -- `matchRule2DenyUnreviewedProductionDeploy`
  unfoldable pub match_unreviewed_deploy : ⦃fl : Float F⦄ → FactFrame F → Match
  match_unreviewed_deploy f =
      if not (f.environment == "production")
      then (false, "")
      else if not (match_unreviewed_node1 f).0
      then (false, "")
      else (true, "all(environment eq production, not(error_rate_pct lt 0.5))")
