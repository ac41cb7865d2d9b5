-- ===== src/Ontology/Snapshot/Order.antt =====
-- The orders that `Normalize` sorts by are total, so the order of the caller's slices does not matter.

use cervo_rules.Prelude.{◌≡◌, refl, Bool, false, Perm, arith, eq_iff}
use cervo_rules.Prelude.Sort.{IsWeakOrder, IsConnected, sort-map-perm, sort-map-sort}
use cervo_rules.Text.Order.{
  by_name, by_name_then, by_name-IsWeakOrder, by_name_then-IsWeakOrder, text_less-IsConnected,
  Text-set,
}
use cervo_rules.Text.Normal.{trim_space-trim_space, normalize-normalize}
use cervo_rules.Ontology.Snapshot.{
  TypeAssertion, RelationAssertion, StateAssertion, Snapshot, less_type, less_relation, less_state,
  normalize_type, normalize_relation, normalize_state, normalize_snapshot,
}

abbrev key_type : TypeAssertion → TypeAssertion → Bool
key_type = by_name_then (λ a. a.individual) (by_name (λ a. a.type))

less_type-key : less_type ≡ key_type
unfolding less_type by_name by_name_then
less_type-key = refl

abbrev key_state : StateAssertion → StateAssertion → Bool
key_state =
    by_name_then (λ a. a.lifecycle) (by_name_then (λ a. a.individual) (by_name (λ a. a.state)))

less_state-key : less_state ≡ key_state
unfolding less_state by_name by_name_then
less_state-key = refl

pub less_type-IsWeakOrder : IsWeakOrder less_type
less_type-IsWeakOrder = rw less_type-key (by_name_then-IsWeakOrder _ _ (by_name-IsWeakOrder _))

pub less_state-IsWeakOrder : IsWeakOrder less_state
less_state-IsWeakOrder =
    rw less_state-key
      (by_name_then-IsWeakOrder _ _ (by_name_then-IsWeakOrder _ _ (by_name-IsWeakOrder _)))

abbrev key_relation : RelationAssertion → RelationAssertion → Bool
key_relation =
    by_name_then (λ a. a.relation) (by_name_then (λ a. a.subject) (by_name (λ a. a.object)))

less_relation-key : less_relation ≡ key_relation
unfolding less_relation by_name by_name_then
less_relation-key = refl

pub less_relation-IsWeakOrder : IsWeakOrder less_relation
less_relation-IsWeakOrder =
    rw less_relation-key
      (by_name_then-IsWeakOrder _ _ (by_name_then-IsWeakOrder _ _ (by_name-IsWeakOrder _)))

pub less_type-IsConnected : IsConnected less_type
unfolding less_type
less_type-IsConnected a b h k = ground (
  arith,
  eq_iff a.individual b.individual,
  eq_iff b.individual a.individual,
  text_less-IsConnected a.type b.type,
  text_less-IsConnected a.individual b.individual,
)

pub less_relation-IsConnected : IsConnected less_relation
unfolding less_relation
less_relation-IsConnected a b h k = ground (
  arith,
  eq_iff a.relation b.relation,
  eq_iff b.relation a.relation,
  eq_iff a.subject b.subject,
  eq_iff b.subject a.subject,
  text_less-IsConnected a.relation b.relation,
  text_less-IsConnected a.subject b.subject,
  text_less-IsConnected a.object b.object,
)

pub less_state-IsConnected : IsConnected less_state
unfolding less_state
less_state-IsConnected a b h k = ground (
  arith,
  eq_iff a.lifecycle b.lifecycle,
  eq_iff b.lifecycle a.lifecycle,
  eq_iff a.individual b.individual,
  eq_iff b.individual a.individual,
  text_less-IsConnected a.lifecycle b.lifecycle,
  text_less-IsConnected a.individual b.individual,
  text_less-IsConnected a.state b.state,
)

pub normalize_type_idem : (a : TypeAssertion) → normalize_type (normalize_type a) ≡ normalize_type a
unfolding normalize_type
normalize_type_idem a = rw (trim_space-trim_space, normalize-normalize)

pub normalize_relation_idem :
    (a : RelationAssertion) → normalize_relation (normalize_relation a) ≡ normalize_relation a
unfolding normalize_relation
normalize_relation_idem a = simp (trim_space-trim_space, normalize-normalize)

pub normalize_state_idem :
    (a : StateAssertion) → normalize_state (normalize_state a) ≡ normalize_state a
unfolding normalize_state
normalize_state_idem a = simp (trim_space-trim_space, normalize-normalize)

TypeAssertion-set : IsSet TypeAssertion
TypeAssertion-set = hlevel Text-set

RelationAssertion-set : IsSet RelationAssertion
RelationAssertion-set = hlevel Text-set

StateAssertion-set : IsSet StateAssertion
StateAssertion-set = hlevel Text-set

-- `Normalize` gives the same for two snapshots, neither marked as normalized, that list the same
-- assertions in different orders.
pub normalize_snapshot-perm :
    (s t : Snapshot)
    → s.normalized ≡ false
    → t.normalized ≡ false
    → Perm s.types t.types
    → Perm s.relations t.relations
    → Perm s.states t.states
    → normalize_snapshot s ≡ normalize_snapshot t
unfolding normalize_snapshot
normalize_snapshot-perm s t hs ht p q r =
    let types =
      sort-map-perm less_type normalize_type less_type-IsWeakOrder less_type-IsConnected
        TypeAssertion-set p in
    let relations =
      sort-map-perm less_relation normalize_relation less_relation-IsWeakOrder
        less_relation-IsConnected RelationAssertion-set q in
    let states =
      sort-map-perm less_state normalize_state less_state-IsWeakOrder less_state-IsConnected
        StateAssertion-set r in
    ground arith

-- For a snapshot that is not marked as normalized, normalizing the normalized one again with the
-- mark taken away changes nothing.
pub normalize_snapshot_flag :
    (s : Snapshot)
    → s.normalized ≡ false
    → normalize_snapshot (record (normalize_snapshot s) { normalized = false })
      ≡ normalize_snapshot s
unfolding normalize_snapshot
normalize_snapshot_flag s h =
    let types =
      sort-map-sort less_type normalize_type less_type-IsWeakOrder less_type-IsConnected
        TypeAssertion-set normalize_type_idem s.types in
    let relations =
      sort-map-sort less_relation normalize_relation less_relation-IsWeakOrder
        less_relation-IsConnected RelationAssertion-set normalize_relation_idem s.relations in
    let states =
      sort-map-sort less_state normalize_state less_state-IsWeakOrder less_state-IsConnected
        StateAssertion-set normalize_state_idem s.states in
    ground arith
