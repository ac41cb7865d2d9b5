-- ===== src/Ontology/Lifecycle/Normal.antt =====
-- What `Normalize` of a lifecycle leaves as it is.
use cervo_rules.Prelude.{◌≡◌, ◌↔◌, true, Memᴰ, arith, elem_iff}
use cervo_rules.Text.{normalize}
use cervo_rules.Text.Normal.{normalize-normalize}
use cervo_rules.Ontology.Names.{State, new_state}
use cervo_rules.Ontology.Lifecycle.{Lifecycle, normalize_lifecycle, has_state, next}

normalize_lifecycle_flag : (l : Lifecycle) → (normalize_lifecycle l).normalized ≡ true
unfolding normalize_lifecycle
normalize_lifecycle_flag l = ground arith

normalize_lifecycle_marked : (l : Lifecycle) → l.normalized ≡ true → normalize_lifecycle l ≡ l
unfolding normalize_lifecycle
normalize_lifecycle_marked l h = rw h

pub normalize_lifecycle_idem :
    (l : Lifecycle) → normalize_lifecycle (normalize_lifecycle l) ≡ normalize_lifecycle l
normalize_lifecycle_idem l =
    normalize_lifecycle_marked (normalize_lifecycle l) (normalize_lifecycle_flag l)

-- The name of a lifecycle that is marked as normalized is; only `Normalize` sets the mark.
abbrev pub IsNamed : Lifecycle → Type 0
IsNamed l = l.normalized ≡ true → normalize l.name ≡ l.name

pub normal_name :
    (l : Lifecycle)
    → IsNamed l
    → normalize (normalize_lifecycle l).name ≡ (normalize_lifecycle l).name
unfolding normalize_lifecycle
normal_name l h = ground (arith, normalize-normalize l.name)

pub next-normalize : (l : Lifecycle) (s : State) → next (normalize_lifecycle l) s ≡ next l s
unfolding next
next-normalize l s = rw normalize_lifecycle_idem

-- `HasState` of a name that is normalized already.
pub has_state-normalize :
    (l : Lifecycle) (s : State)
    → (has_state (normalize_lifecycle l) (new_state s) ≡ true)
      ↔ Memᴰ (new_state s) (normalize_lifecycle l).states
unfolding has_state
has_state-normalize l s =
    rw (normalize_lifecycle_idem, normalize-normalize)
      (elem_iff (new_state s) (normalize_lifecycle l).states)
