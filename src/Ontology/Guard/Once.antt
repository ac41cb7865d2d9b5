-- ===== src/Ontology/Guard/Once.antt =====
-- ontology/scope.go, ontology/conditions.go: a scope resolves at most once, and keeps one snapshot.
use cervo_rules.Prelude.{◌≡◌, refl, ◌⊎◌, inl, inr, none, some, List, [], ◌∷◌, Memᴰ, eq_iff, arith}
use cervo_rules.Text.{Text}
use cervo_rules.Core.Errors.{single}
use cervo_rules.Core.Types.{Request}
use cervo_rules.Core.Conditions.{Condition, Verdict}
use cervo_rules.Ontology.Names.{Individual}
use cervo_rules.Ontology.Model.{Constraint}
use cervo_rules.Ontology.Scope.{
  SnapshotResolver, Resolution, Context, read_scope, resolve_once, normalize_answer, foreign_error,
  with_request_scope,
}
use cervo_rules.Ontology.Guard.{Check, Guard, ask, explain, holds}
use cervo_rules.Ontology.Guard.Closed.{explain-cases}

abbrev scope_of : Resolution → Context
scope_of r = some (record { done = some r })

-- A request that the scope of an owner does not refuse.
abbrev pub SameRequest : Text → Text → Type 0
SameRequest owner id = (owner ≡ "") ⊎ (id ≡ "") ⊎ (id ≡ owner)

module _ {W : Type 0} where
  -- Within one installed scope a second question with the ID of the first, or where one of the two
  -- has no ID, is answered by the snapshot (or the error) of the first, whatever resolver it
  -- brings, and neither the scope nor the world changes again.
  pub resolve_once-again :
      (ctx : Context) (resolve again : SnapshotResolver W) (first second : Request) (w : W)
      → SameRequest first.id second.id
      → let (answer, ctx', w') = resolve_once (with_request_scope ctx) resolve first w in
        (answer ≡ normalize_answer (resolve first w).0)
        × (w' ≡ (resolve first w).1)
        × (resolve_once ctx' again second w' ≡ (answer, ctx', w'))
  unfolding resolve_once with_request_scope read_scope
  resolve_once-again ctx resolve again first second w h = (
    ground (arith, eq_iff first.id first.id),
    refl,
    ground (
      arith,
      eq_iff second.id "",
      eq_iff first.id "",
      eq_iff second.id first.id,
      eq_iff first.id first.id,
    ),
  )

  -- Within one installed scope a question of another request is refused, where neither request has
  -- an empty ID: the answer is the error of a foreign request, and the world does not change.
  pub resolve_once-foreign :
      (ctx : Context) (resolve again : SnapshotResolver W) (first second : Request) (w : W)
      → ¬ SameRequest first.id second.id
      → let (answer, ctx', w') = resolve_once (with_request_scope ctx) resolve first w in
        resolve_once ctx' again second w'
        ≡ (inl (single (foreign_error second.id first.id)), ctx', w')
  unfolding resolve_once with_request_scope read_scope
  resolve_once-foreign ctx resolve again first second w h =
      ground (arith, eq_iff second.id "", eq_iff first.id "", eq_iff second.id first.id)

module _ {C : Type 0} {W : Type 0} where
  -- A policy that consults conditions one after another, in one context.
  abbrev pub holds_all :
      ⦃c : Constraint C⦄
      → Guard C W
      → List (Condition × Request)
      → Context
      → W
      → List Verdict × Context × W
  holds_all g [] ctx w = ([], ctx, w)
  holds_all g ((c, req) ∷ rest) ctx w =
      let (verdict, ctx', w') = holds g c req ctx w in
      let (verdicts, ctx'', w'') = holds_all g rest ctx' w' in (verdict ∷ verdicts, ctx'', w'')

module _ {C : Type 0} ⦃c : Constraint C⦄ {W : Type 0} (g : Guard C W) where
  abbrev fresh : Context
  fresh = some (record { done = none })

  ask-bound :
      (n : Condition) (k : Check) (i : Individual) (resolve : SnapshotResolver W) (req : Request)
      (r : Resolution) (w : W)
      → ((ask g.ontology n k i resolve req (scope_of r) w).1 ≡ scope_of r)
        × ((ask g.ontology n k i resolve req (scope_of r) w).2 ≡ w)
  unfolding ask resolve_once
  ask-bound n k i resolve req r w = ground arith

  explain-bound :
      (n : Condition) (req : Request) (r : Resolution) (w : W)
      → ((explain g n req (scope_of r) w).1 ≡ scope_of r) × ((explain g n req (scope_of r) w).2 ≡ w)
  explain-bound n req r w = elim (explain-cases g n req (scope_of r) w) [
    | inl (e, h) ↦ rw h (refl, refl)
    | inr (k, resolve, i, b, f, j, h) ↦ rw h (ask-bound n k i resolve req r w)
  ]

  ask-fresh :
      (n : Condition) (k : Check) (i : Individual) (resolve : SnapshotResolver W) (req : Request)
      (w : W)
      → (r : Resolution) × ((ask g.ontology n k i resolve req fresh w).1 ≡ scope_of r)
        × ((ask g.ontology n k i resolve req fresh w).2 ≡ (resolve req w).1)
  unfolding ask resolve_once
  ask-fresh n k i resolve req w = (
    record { owner = req.id; answer = normalize_answer (resolve req w).0 },
    ground arith,
    ground arith,
  )

  holds_all-bound :
      (questions : List (Condition × Request)) (r : Resolution) (w : W)
      → (holds_all g questions (scope_of r) w).2 ≡ w
  unfolding holds
  holds_all-bound [] r w = refl
  holds_all-bound ((n, req) ∷ rest) r w =
      let (same, still) = explain-bound n req r w in rw (same, still) (holds_all-bound rest r w)

  -- A policy that consults any number of conditions, of any requests, in one installed scope
  -- changes the world at most as one call of the guard's resolver does: the world is as it was, or
  -- as the resolver left it for one of the requests.
  pub holds_all-once :
      (questions : List (Condition × Request)) (ctx : Context) (w : W)
      → let after = (holds_all g questions (with_request_scope ctx) w).2 in
        (after ≡ w)
        ⊎ ((resolve : SnapshotResolver W) × (q : Condition × Request) × Memᴰ q questions
            × (g.resolve ≡ some resolve)
            × (after ≡ (resolve q.1 w).1))
  unfolding holds with_request_scope
  holds_all-once [] ctx w = inl refl
  holds_all-once ((n, req) ∷ rest) ctx w = elim (explain-cases g n req fresh w) [
    | inl (e, h) ↦ rw h (elim (holds_all-once rest ctx w) [
      | inl same ↦ inl same
      | inr (resolve, q, m, f, after) ↦ inr (resolve, q, Memᴰ.tail m, f, after)
    ])
    | inr (k, resolve, i, b, f, j, h) ↦
        let (r, bound, world) = ask-fresh n k i resolve req w in
        inr (
          resolve,
          (n, req),
          Memᴰ.head refl,
          f,
          rw (h, bound, world) (holds_all-bound rest r (resolve req w).1),
        )
  ]
