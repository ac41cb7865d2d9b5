-- ===== src/Facts/Binding.antt =====
-- facts/binding_profile.go: the slots of a rule's variables, and the frame that binds them.
pub mod Frames
use cervo_rules.Prelude.{
  ℕ, zero, suc, Bool, true, false, not, ◌||◌, Option, none, some, List, [], ◌∷◌, ◌++◌, map,
  if◌then◌else◌, ◌==◌, elem,
}
use cervo_rules.Text.{Text}
use cervo_rules.Facts.Contract.{Term, Pattern, term_var}

pub record BindingSlot : Type 0 where
  pub name : Text
  pub index : ℕ

pub record BindingLayout : Type 0 where
  pub rule : Text
  pub variables : List BindingSlot

-- The terms of all patterns, in the order of the two loops.
abbrev pub terms_of : List Pattern → List Term
terms_of [] = []
terms_of (p ∷ ps) = p.terms ++ terms_of ps

-- The body of the loops: the names seen, and the index that the next slot gets.
unfoldable pub slots_from : List Text → ℕ → List Term → List BindingSlot
slots_from seen i [] = []
slots_from seen i (t ∷ ts) =
    let passed = slots_from seen i ts in
    let slot = record { name = t.value; index = i } ∷ slots_from (t.value ∷ seen) (suc i) ts in
    if not (t.kind == term_var) || t.value == ""
    then passed
    else if elem t.value seen
    then passed
    else slot

-- `NewBindingLayout`
unfoldable pub new_binding_layout : Text → List Pattern → BindingLayout
new_binding_layout rule patterns = record {
  rule = rule;
  variables = slots_from [] 0 (terms_of patterns);
}

-- `SlotFor`
unfoldable pub slot_for : List BindingSlot → Text → Option ℕ
slot_for [] v = none
slot_for (s ∷ rest) v = if s.name == v then some s.index else slot_for rest v

pub record BindingFrame : Type 0 where
  pub layout : BindingLayout
  pub values : List Term
  pub set : List Bool

module _ {ℓ} {A : Type ℓ} where
  -- `make([]T, len(xs))`
  abbrev pub make {κ} : {B : Type κ} → A → List B → List A
  make a [] = []
  make a (x ∷ xs) = a ∷ make a xs

  -- `xs[i]` and `xs[i] = a`, where none is the panic of an index out of range.
  abbrev pub get_elem? : List A → ℕ → Option A
  get_elem? [] i = none
  get_elem? (x ∷ xs) zero = some x
  get_elem? (x ∷ xs) (suc i) = get_elem? xs i

  abbrev pub set_elem? : List A → ℕ → A → Option (List A)
  set_elem? [] i a = none
  set_elem? (x ∷ xs) zero a = some (a ∷ xs)
  set_elem? (x ∷ xs) (suc i) a = elim (set_elem? xs i a) [ none ↦ none | some ys ↦ some (x ∷ ys) ]

abbrev pub zero_term : Term
zero_term = record { kind = ""; value = "" }

-- `NewBindingFrame`
unfoldable pub new_binding_frame : BindingLayout → BindingFrame
new_binding_frame layout = record {
  layout = layout;
  values = make zero_term layout.variables;
  set = make false layout.variables;
}

-- `Bind`: none is a panic; the frame that the pointer refers to is given back.
unfoldable pub bind : BindingFrame → Text → Term → Option (Bool × BindingFrame)
bind f v t = elim (slot_for f.layout.variables v) [
  | none ↦ some (false, f)
  | some i ↦ elim (set_elem? f.values i t) [
    | none ↦ none
    | some values ↦ elim (set_elem? f.set i true) [
      | none ↦ none
      | some set ↦ some (true, record { layout = f.layout; values = values; set = set })
    ]
  ]
]

-- `Lookup`: none is a panic, and `some none` the answer that the variable is not bound.
unfoldable pub lookup : BindingFrame → Text → Option (Option Term)
lookup f v = elim (slot_for f.layout.variables v) [
  | none ↦ some none
  | some i ↦ elim (get_elem? f.set i) [
    | none ↦ none
    | some false ↦ some none
    | some true ↦ elim (get_elem? f.values i) [ none ↦ none | some t ↦ some (some t) ]
  ]
]

-- `Binding`: the variables that are bound, with their values.
unfoldable pub binding_from : BindingFrame → List BindingSlot → Option (List (Text × Term))
binding_from f [] = some []
binding_from f (s ∷ rest) = elim (get_elem? f.set s.index) [
  | none ↦ none
  | some false ↦ binding_from f rest
  | some true ↦ elim (get_elem? f.values s.index) [
    | none ↦ none
    | some t ↦ elim (binding_from f rest) [ none ↦ none | some out ↦ some ((s.name, t) ∷ out) ]
  ]
]

unfoldable pub binding : BindingFrame → Option (List (Text × Term))
binding f = binding_from f f.layout.variables
