-- ===== src/Facts/Binding/Frames.antt =====
-- facts/binding_profile.go: a frame of a layout never panics, and gives back what was bound.
use cervo_rules.Prelude.{
  ℕ, zero, suc, ◌+◌, ◌≤◌, ◌<◌, ◌≡◌, refl, ◌≢◌, inl, inr, true, false, none, some, List, [], ◌∷◌,
  eq_iff, length, arith, Option-cases, ap, ◌∙◌,
}
use cervo_rules.Text.{Text}
use cervo_rules.Facts.Contract.{Term, Pattern}
use cervo_rules.Facts.Binding.{
  BindingSlot, BindingFrame, terms_of, slots_from, new_binding_layout, slot_for, make, get_elem?,
  set_elem?, zero_term, new_binding_frame, bind, lookup,
}

-- The slots are numbered one after another.
abbrev pub Numbered : ℕ → List BindingSlot → Type 0
Numbered i [] = Unit
Numbered i (s ∷ rest) = (s.index ≡ i) × Numbered (suc i) rest

slots_from-Numbered :
    (seen : List Text) (i : ℕ) (ts : List Term) → Numbered i (slots_from seen i ts)
unfolding slots_from
slots_from-Numbered seen i [] = tt
slots_from-Numbered seen i (t ∷ ts) =
    ground (arith, slots_from-Numbered seen i ts, slots_from-Numbered (t.value ∷ seen) (suc i) ts)

slot_for-range :
    (i j : ℕ) (slots : List BindingSlot) (v : Text)
    → Numbered i slots
    → slot_for slots v ≡ some j
    → (i ≤ j) × (j < i + length slots)
unfolding slot_for
slot_for-range i j [] v n h = absurd (ground arith)
slot_for-range i j (s ∷ rest) v n h = ground (arith, slot_for-range (suc i) j rest v)

-- Two variables with one slot are one.
slot_for-injective :
    (i j : ℕ) (slots : List BindingSlot) (u v : Text)
    → Numbered i slots
    → slot_for slots u ≡ some j
    → slot_for slots v ≡ some j
    → u ≡ v
unfolding slot_for
slot_for-injective i j [] u v n h k = absurd (ground arith)
slot_for-injective i j (s ∷ rest) u v n h k = ground (
  arith,
  eq_iff s.name u,
  eq_iff s.name v,
  slot_for-range (suc i) j rest u,
  slot_for-range (suc i) j rest v,
  slot_for-injective (suc i) j rest u v,
)

module _ {ℓ} {A : Type ℓ} where
  length-make {κ} : {B : Type κ} (a : A) (xs : List B) → length (make a xs) ≡ length xs
  length-make a [] = refl
  length-make a (x ∷ xs) = omega (arith, length-make a xs)

  get_elem-make {κ} :
      {B : Type κ} (a : A) (xs : List B) (i : ℕ) → i < length xs → get_elem? (make a xs) i ≡ some a
  get_elem-make a [] i h = absurd (omega arith)
  get_elem-make a (x ∷ xs) zero h = refl
  get_elem-make a (x ∷ xs) (suc i) h = get_elem-make a xs i (omega arith)

  -- In range, an update succeeds, keeps the length, and changes that item alone.
  set_elem-in_range :
      (xs : List A) (i : ℕ) (a : A)
      → i < length xs
      → (ys : List A) × (set_elem? xs i a ≡ some ys)
        × (length ys ≡ length xs)
        × (get_elem? ys i ≡ some a)
        × ((j : ℕ) → j ≢ i → get_elem? ys j ≡ get_elem? xs j)
  set_elem-in_range [] i a h = absurd (omega arith)
  set_elem-in_range (x ∷ xs) zero a h = (
    a ∷ xs,
    refl,
    refl,
    refl,
    λ j. elim j as (λ j. j ≢ 0 → get_elem? (a ∷ xs) j ≡ get_elem? (x ∷ xs) j) [
      | zero ↦ λ k. absurd (k refl)
      | suc j ↦ λ k. refl
    ],
  )
  set_elem-in_range (x ∷ xs) (suc i) a h =
      let (ys, e, n, g, rest) = set_elem-in_range xs i a (omega arith) in
      (
        x ∷ ys,
        rw e refl,
        omega (arith, n),
        g,
        λ j. elim j as (λ j. j ≢ suc i → get_elem? (x ∷ ys) j ≡ get_elem? (x ∷ xs) j) [
          | zero ↦ λ k. refl
          | suc j ↦ λ k. rest j (λ e. k (ap suc e))
        ],
      )

-- A frame has a value and a mark for each slot of its layout.
pub record IsFrame (f : BindingFrame) : Type 0 where
  pub numbered : Numbered 0 f.layout.variables
  pub values : length f.values ≡ length f.layout.variables
  pub marks : length f.set ≡ length f.layout.variables

-- A new frame of a new layout is well formed, and no variable is bound in it.
pub new_binding_frame-IsFrame :
    (rule : Text) (patterns : List Pattern) (v : Text)
    → IsFrame (new_binding_frame (new_binding_layout rule patterns))
      × (lookup (new_binding_frame (new_binding_layout rule patterns)) v ≡ some none)
unfolding new_binding_frame new_binding_layout lookup
new_binding_frame-IsFrame rule patterns v =
    let slots = slots_from [] 0 (terms_of patterns) in
    let numbered = slots_from-Numbered [] 0 (terms_of patterns) in
    (
      record {
        numbered = numbered;
        values = length-make zero_term slots;
        marks = length-make false slots;
      },
      elim (Option-cases (slot_for slots v)) [
        | inl e ↦ rw (e, lookup) refl
        | inr (i, e) ↦
            rw
              (
                e,
                get_elem-make false slots i
                    (omega (arith, (slot_for-range 0 i slots v numbered e).1)),
                lookup,
              )
              refl
      ],
    )

lookup-agree :
    (f g : BindingFrame) (u : Text) (j : ℕ)
    → slot_for f.layout.variables u ≡ some j
    → slot_for g.layout.variables u ≡ some j
    → get_elem? g.set j ≡ get_elem? f.set j
    → get_elem? g.values j ≡ get_elem? f.values j
    → lookup g u ≡ lookup f u
unfolding lookup
lookup-agree f g u j n m h k = ground arith

-- On a well-formed frame, `Bind` of a variable of the layout succeeds without a panic and keeps the
-- frame well formed; `Lookup` then gives the value that was bound, and for every other variable
-- what it gave before.
pub lookup-bind :
    (f : BindingFrame) (v : Text) (t : Term) (i : ℕ)
    → IsFrame f
    → slot_for f.layout.variables v ≡ some i
    → (g : BindingFrame) × (bind f v t ≡ some (true, g))
      × IsFrame g
      × (lookup g v ≡ some (some t))
      × ((u : Text) → u ≢ v → lookup g u ≡ lookup f u)
unfolding bind lookup
lookup-bind f v t i w e =
    let range = (slot_for-range 0 i f.layout.variables v w.numbered e).1 in
    let (values, ev, nv, gv, kv) =
      set_elem-in_range f.values i t (omega (arith, range, w.values)) in
    let (marks, em, nm, gm, km) = set_elem-in_range f.set i true (omega (arith, range, w.marks)) in
    (
      record { layout = f.layout; values = values; set = marks },
      rw (e, ev, em, bind) refl,
      record { numbered = w.numbered; values = nv ∙ w.values; marks = nm ∙ w.marks },
      rw (e, gm, gv, lookup) refl,
      λ u ne. elim (Option-cases (slot_for f.layout.variables u)) [
        | inl n ↦ rw (n, lookup) refl
        | inr (j, n) ↦
            let apart : j ≢ i = λ same.
              ne (slot_for-injective 0 i f.layout.variables u v w.numbered (rw same at n) e) in
            lookup-agree f (record { layout = f.layout; values = values; set = marks }) u j n n
              (km j apart) (kv j apart)
      ],
    )
