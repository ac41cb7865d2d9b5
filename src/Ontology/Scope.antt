-- ===== src/Ontology/Scope.antt =====
-- ontology/scope.go: the request scope, which resolves a snapshot at most once.
use cervo_rules.Prelude.{◌&◌, ◌⊎◌, inl, inr, not, ◌&&◌, Option, none, some, if◌then◌else◌, ◌==◌}
use cervo_rules.Text.{Text}
use cervo_rules.Core.Codes.{error_code_condition_failed}
use cervo_rules.Core.Error.{Error}
use cervo_rules.Core.Errors.{Failure, single}
use cervo_rules.Core.Types.{Request}
use cervo_rules.Ontology.Names.{fatal_error}
use cervo_rules.Ontology.Snapshot.{Snapshot, normalize_snapshot}

-- A caller's resolver, which reads and may change a world `W`: it gives an error or a snapshot.
abbrev pub SnapshotResolver : Type 0 → Type 0
SnapshotResolver W = Request → W → (Failure ⊎ Snapshot) × W

-- What `once.Do` stores: the owner of the scope, and the error or the snapshot.
pub record Resolution : Type 0 where
  pub owner : Text
  pub answer : Failure ⊎ Snapshot

-- `done` is none until `once` has run, and `bound` is set with it. A context holds a scope or none.
pub record RequestScope : Type 0 where
  pub done : Option Resolution

abbrev pub Context : Type 0
Context = Option RequestScope

-- `WithRequestScope`: an inner scope shadows an outer one.
unfoldable pub with_request_scope : Context → Context
with_request_scope ctx = some (record { done = none })

-- `snapshot.Normalize()`, where there is no error.
unfoldable pub normalize_answer : Failure ⊎ Snapshot → Failure ⊎ Snapshot
normalize_answer (inl e) = inl e
normalize_answer (inr s) = inr (normalize_snapshot s)

unfoldable pub foreign_error : Text → Text → Error
foreign_error id owner = record fatal_error {
  code = error_code_condition_failed;
  field = "request.id";
  value = id;
  reason =
      "request scope was created for request "
      & (owner & " and cannot be reused for another request");
  suggestion = "install ontology.WithRequestScope once per request, not per batch";
}

-- The answer of a scope that is bound.
unfoldable pub read_scope : Request → Resolution → Failure ⊎ Snapshot
read_scope req r =
    if not (req.id == "") && not (r.owner == "") && not (req.id == r.owner)
    then inl (single (foreign_error req.id r.owner))
    else r.answer

module _ {W : Type 0} where
  -- `resolveOnce`
  unfoldable pub resolve_once :
      Context → SnapshotResolver W → Request → W → (Failure ⊎ Snapshot) × Context × W
  resolve_once none resolve req w =
      let (answer, later) = resolve req w in (normalize_answer answer, none, later)
  resolve_once (some scope) resolve req w = elim scope.done [
    | some r ↦ (read_scope req r, some scope, w)
    | none ↦
        let (answer, later) = resolve req w in
        let r : Resolution = record { owner = req.id; answer = normalize_answer answer } in
        (read_scope req r, some (record { done = some r }), later)
  ]
