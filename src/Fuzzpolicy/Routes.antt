-- ===== src/Fuzzpolicy/Routes.antt =====
-- internal/fuzzpolicy/generated_policy.go: the routes of an engine that is built from a configuration.
use cervo_rules.Prelude.{
  ◌≡◌, refl, ◌≢◌, ◌↔◌, inl, inr, false, Option, none, some, List, [], ◌∷◌, arith, Bool-cases, ◌==◌,
  eq_iff,
}
use cervo_rules.Prelude.Maps.{entry, entry-put, put, put_all}
use cervo_rules.Text.{Text}
use cervo_rules.Core.Types.{Operation, Target, Executor}
use cervo_rules.Runtime.{copy_map, clone, PolicyRuntimeConfig}
use cervo_rules.Fuzzpolicy.Engine.{Evaluator, GeneratedRoute}
use cervo_rules.Fuzzpolicy.Factory.{
  retarget, override_routes, policy_routes, merge_map, entries, merge_runtime_config,
  default_config,
}

module _ {F W : Type 0} where
  -- The route asks neither for a trusted user nor for a condition, and has no predicate.
  pub record IsPlain (r : GeneratedRoute F W) : Type 0 where
    pub open_to_all : r.requires_trusted_user ≡ false
    pub unconditional : r.requires ≡ []
    pub no_matcher : r.matcher ≡ none

  retarget-IsPlain :
      (default : Executor) (op : Operation) (t : Target) (found : Option (GeneratedRoute F W))
      → ((r : GeneratedRoute F W) → found ≡ some r → IsPlain r)
      → IsPlain (retarget default op t found)
  unfolding retarget
  retarget-IsPlain default op t none h = record {
    open_to_all = refl;
    unconditional = refl;
    no_matcher = refl;
  }
  retarget-IsPlain default op t (some r) h =
      let p = h r refl in
      record {
        open_to_all = p.open_to_all;
        unconditional = p.unconditional;
        no_matcher = p.no_matcher;
      }

  override_routes-IsPlain :
      (default : Executor) (routes : List (Operation × GeneratedRoute F W))
      (ts : List (Operation × Target)) (op : Operation)
      → ((o : Operation) (r : GeneratedRoute F W) → entry o routes ≡ some r → IsPlain r)
      → (r : GeneratedRoute F W) → entry op (override_routes default routes ts) ≡ some r
      → IsPlain r
  unfolding override_routes
  override_routes-IsPlain default routes [] op h r k = h op r k
  override_routes-IsPlain default routes ((o, t) ∷ ts) op h r k =
      override_routes-IsPlain default (put o (retarget default o t (entry o routes)) routes) ts op
        (λ p q j. elim (Bool-cases (o == p)) [
          | inl e ↦
              let same : retarget default o t (entry o routes) ≡ q =
                ground (arith, entry-put o p (retarget default o t (entry o routes)) routes) in
              rw (← same) (retarget-IsPlain default o t (entry o routes) (λ r' i. h o r' i))
          | inr e ↦
              h p q (ground (arith, entry-put o p (retarget default o t (entry o routes)) routes))
        ])
        r k

  -- The operations that have a route: those of the policy, and those that the targets override.
  override_routes-none_iff :
      (default : Executor) (routes : List (Operation × GeneratedRoute F W))
      (ts : List (Operation × Target)) (op : Operation)
      → (entry op (override_routes default routes ts) ≡ none)
        ↔ ((entry op routes ≡ none) × (entry op ts ≡ none))
  unfolding override_routes entry
  override_routes-none_iff default routes [] op = ground arith
  override_routes-none_iff default routes ((o, t) ∷ ts) op = ground (
    arith,
    override_routes-none_iff default (put o (retarget default o t (entry o routes)) routes) ts op,
    entry-put o op (retarget default o t (entry o routes)) routes,
  )

merge_map-none_iff :
    {V : Type 0} (out : Option (List (Text × V))) (ts : List (Text × V)) (k : Text)
    → (entry k (entries (merge_map out ts)) ≡ none)
      ↔ ((entry k (entries out) ≡ none) × (entry k ts ≡ none))
unfolding merge_map entry
merge_map-none_iff out [] k = ground arith
merge_map-none_iff out ((j, v) ∷ ts) k =
    ground
      (arith, merge_map-none_iff (some (put j v (entries out))) ts k, entry-put j k v (entries out))

policy_routes-IsPlain :
    {F W : Type 0} (op : Operation) (q : GeneratedRoute F W)
    → entry op policy_routes ≡ some q
    → IsPlain q
unfolding policy_routes entry
policy_routes-IsPlain op q k = ground (arith, eq_iff "deploy" op, eq_iff "message_create" op)

module _ {F W : Type 0} (cfg : PolicyRuntimeConfig (Evaluator W)) where
  -- The routes of the engine that `Build` makes of a configuration.
  abbrev pub built_routes : List (Operation × GeneratedRoute F W)
  built_routes =
      let merged = merge_runtime_config default_config cfg in
      override_routes merged.default_executor policy_routes (entries merged.operation_targets)

  pub built_routes-IsPlain :
      (op : Operation) (r : GeneratedRoute F W) → entry op built_routes ≡ some r → IsPlain r
  built_routes-IsPlain op r h =
      override_routes-IsPlain (merge_runtime_config default_config cfg).default_executor
        policy_routes (entries (merge_runtime_config default_config cfg).operation_targets) op
        policy_routes-IsPlain r h

  pub built_routes-none_iff :
      (op : Operation)
      → (entry op built_routes ≡ none) ↔ (
          (op ≢ "deploy")
          × (op ≢ "message_create")
          × (entry op (entries cfg.operation_targets) ≡ none))
  unfolding policy_routes entry merge_runtime_config default_config clone copy_map put_all put
  built_routes-none_iff op = ground (
    arith,
    override_routes-none_iff {F = F} {W = W}
        (merge_runtime_config default_config cfg).default_executor policy_routes
        (entries (merge_runtime_config default_config cfg).operation_targets) op,
    merge_map-none_iff (some (("deploy", "deployer") ∷ ("message_create", "message_worker") ∷ []))
        (entries cfg.operation_targets) op,
    eq_iff "deploy" op,
    eq_iff "message_create" op,
  )
