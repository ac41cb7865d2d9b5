-- ===== src/Ontology/Lifecycle/Reach.antt =====
-- The breadth-first loop of `unreachableFrom` ends, and finds exactly the states that no path reaches.
use mathlib.Core.List.{foldl}
use mathlib.Core.List.Memᴰ
use cervo_rules.Prelude.{
  ℕ, zero, suc, ◌+◌, ◌≤◌, ◌<◌, ◌≡◌, ◌≢◌, true, ◌==◌, Bool-cases, refl, ap, subst, ◌↔◌, ◌⊎◌, inl,
  inr, false, not, List, [], ◌∷◌, Memᴰ, Memᴰ-cons, Memᴰ-append, Memᴰ-nil, Memᴰ-keep, arith,
  if◌then◌else◌, eq_iff, elem, elem_iff, keep, length, length-append, List-cases,
}
use cervo_rules.Prelude.Sort.{mem-sort}
use cervo_rules.Text.{text_less}
use cervo_rules.Ontology.Names.{State, new_state}
use cervo_rules.Ontology.Lifecycle.{
  Transition, Lifecycle, normalize_lifecycle, next_in, next, Search, visit, expand, search_loop,
  all_targets, search_from, unreachable_from,
}

-- The first of the transitions out of a state.
abbrev pub IsFirst : State → Transition → List Transition → Type 0
IsFirst s t [] = ⊥
IsFirst s t (u ∷ us) = ((u ≡ t) × (t.from ≡ s)) ⊎ ((u.from ≢ s) × IsFirst s t us)

-- One step: the first transition that the normalized lifecycle declares out of `u` lists `v`.
abbrev pub Leads : Lifecycle → State → State → Type 0
Leads l u v =
    (t : Transition) × IsFirst (new_state u) t (normalize_lifecycle l).transitions × Memᴰ v t.to

-- The states that chains of such steps lead to.
pub data Reach (l : Lifecycle) (start : State) : State → Type 0 where
  here : Reach l start start
  step : {u v : State} → Reach l start u → Leads l u v → Reach l start v

next_in_iff :
    (s v : State) (ts : List Transition)
    → Memᴰ v (next_in s ts) ↔ ((t : Transition) × IsFirst s t ts × Memᴰ v t.to)
unfolding next_in
next_in_iff s v [] = (λ m. absurd (Memᴰ-nil v m), λ (t, h, m). absurd h)
next_in_iff s v (u ∷ us) = elim (Bool-cases (u.from == s)) [
  | inl e ↦
      let same : u.from ≡ s = (eq_iff u.from s).0 e in
      rw (next_in, e)
        (
          λ m. (u, inl (refl, same), m),
          λ (t, h, m). elim h [ inl (k, _) ↦ rw k m | inr (n, _) ↦ absurd (n same) ],
        )
  | inr e ↦
      let (sound, complete) = next_in_iff s v us in
      let differs : u.from ≢ s =
        λ k. let f : (u.from == s) ≡ true = (eq_iff u.from s).1 k in ground arith in
      rw (next_in, e)
        (
          λ m. let (t, h, k) = sound m in (t, inr (differs, h), k),
          λ (t, h, m). elim h [
            | inl (k, f) ↦ absurd (differs (rw k f))
            | inr (_, h') ↦ complete (t, h', m)
          ],
        )
]

-- `Next` lists exactly the states that one step leads to.
pub next_iff : (l : Lifecycle) (u v : State) → Memᴰ v (next l u) ↔ Leads l u v
unfolding next
next_iff l u v = next_in_iff (new_state u) v (normalize_lifecycle l).transitions

-- The targets that are not marked yet.
abbrev unseen : List State → List State → ℕ
unseen marked [] = 0
unseen marked (t ∷ ts) = if elem t marked then unseen marked ts else suc (unseen marked ts)

unseen-cons_le : (n : State) (marked ts : List State) → unseen (n ∷ marked) ts ≤ unseen marked ts
unseen-cons_le n marked [] = omega arith
unseen-cons_le n marked (t ∷ ts) = ground (arith, unseen-cons_le n marked ts)

unseen-cons_lt :
    (n : State) (marked ts : List State)
    → elem n marked ≡ false
    → Memᴰ n ts
    → unseen (n ∷ marked) ts < unseen marked ts
unseen-cons_lt n marked [] h m = absurd (Memᴰ-nil n m)
unseen-cons_lt n marked (t ∷ ts) h m =
    ground
      (arith, unseen-cons_le n marked ts, unseen-cons_lt n marked ts, Memᴰ-cons n t ts, eq_iff n t)

unseen-le-length : (marked ts : List State) → unseen marked ts ≤ length ts
unseen-le-length marked [] = omega arith
unseen-le-length marked (t ∷ ts) = ground (arith, unseen-le-length marked ts)

-- What is left to do: a round takes one state from the queue, and queues only what it marks.
abbrev work : List State → Search → ℕ
work targets s = length s.queue + unseen s.reachable targets

visit-work :
    (targets : List State) (s : Search) (n : State)
    → Memᴰ n targets
    → work targets (visit s n) ≤ work targets s
unfolding visit
visit-work targets s n m =
    ground (arith, unseen-cons_lt n s.reachable targets, length-append s.queue (n ∷ []))

visits-work :
    (targets : List State) (s : Search) (ns : List State)
    → ((n : State) → Memᴰ n ns → Memᴰ n targets)
    → work targets (foldl visit s ns) ≤ work targets s
visits-work targets s [] h = omega arith
visits-work targets s (n ∷ ns) h = omega (
  arith,
  visit-work targets s n (h n (Memᴰ.head refl)),
  visits-work targets (visit s n) ns (λ k m. h k (Memᴰ.tail m)),
)

next_in-targets :
    (s v : State) (ts : List Transition) → Memᴰ v (next_in s ts) → Memᴰ v (all_targets ts)
unfolding next_in
next_in-targets s v [] m = m
next_in-targets s v (t ∷ ts) m =
    ground (arith, next_in-targets s v ts, Memᴰ-append v t.to (all_targets ts))

next-targets :
    (l : Lifecycle) (s v : State)
    → Memᴰ v (next l s)
    → Memᴰ v (all_targets (normalize_lifecycle l).transitions)
unfolding next
next-targets l s v m = next_in-targets (new_state s) v (normalize_lifecycle l).transitions m

visits-reachable :
    (s : Search) (ns : List State) (v : State)
    → Memᴰ v (foldl visit s ns).reachable ↔ (Memᴰ v s.reachable ⊎ Memᴰ v ns)
unfolding visit
visits-reachable s [] v = (inl, λ m. elim m [ inl a ↦ a | inr b ↦ absurd (Memᴰ-nil v b) ])
visits-reachable s (n ∷ ns) v = ground (
  arith,
  visits-reachable (visit s n) ns v,
  Memᴰ-cons v n ns,
  Memᴰ-cons v n s.reachable,
  elem_iff n s.reachable,
)

-- The queue keeps what it had, and gets each state that is newly marked and nothing else.
visits-queue :
    (s : Search) (ns : List State) (v : State)
    → Memᴰ v (foldl visit s ns).queue
      ↔ (Memᴰ v s.queue ⊎ Memᴰ v (foldl visit s ns).reachable × (elem v s.reachable ≡ false))
unfolding visit
visits-queue s [] v = ground (arith, elem_iff v s.reachable)
visits-queue s (n ∷ ns) v = ground (
  arith,
  visits-queue (visit s n) ns v,
  visits-reachable (visit s n) ns v,
  Memᴰ-cons v n ns,
  Memᴰ-cons v n s.reachable,
  Memᴰ-append v s.queue (n ∷ []),
  Memᴰ-cons v n [],
  Memᴰ-nil v,
  elem_iff n s.reachable,
  eq_iff n v,
)

module _ (l : Lifecycle) (start : State) where
  record Inv (s : Search) : Type 0 where
    source : Memᴰ start s.reachable
    queued : (v : State) → Memᴰ v s.queue → Memᴰ v s.reachable
    sound : (v : State) → Memᴰ v s.reachable → Reach l start v
    closed :
        (u v : State) → Memᴰ u s.reachable → Memᴰ v (next l u) → Memᴰ u s.queue ⊎ Memᴰ v s.reachable

  Inv-expand :
      (s : Search) (current : State) (rest : List State)
      → s.queue ≡ current ∷ rest
      → Inv s
      → Inv (expand l s current rest)
  unfolding expand
  Inv-expand s current rest e h =
      let s' = record s { queue = rest } in
      let marks = λ (v : State). visits-reachable s' (next l current) v in
      let queue = λ (v : State). visits-queue s' (next l current) v in
      let reached : Reach l start current =
        h.sound current (h.queued current (rw e (Memᴰ.head refl))) in
      record {
        source = (marks start).1 (inl h.source);
        queued = λ v m. ground (arith, marks v, queue v, h.queued v, e, Memᴰ-cons v current rest);
        sound = λ v m. elim ((marks v).0 m) [
          | inl old ↦ h.sound v old
          | inr new ↦ step reached ((next_iff l current v).0 new)
        ];
        closed = λ u v m edge. ground (
          arith,
          marks u,
          marks v,
          queue u,
          h.closed u v,
          e,
          Memᴰ-cons u current rest,
          elem_iff u s.reachable,
        );
      }

  loop-Inv : (fuel : ℕ) (s : Search) → Inv s → Inv (search_loop l fuel s)
  unfolding search_loop
  loop-Inv zero s h = h
  loop-Inv (suc fuel) s h = elim (List-cases s.queue) [
    | inl e ↦ rw (e, search_loop) h
    | inr (current, rest, e) ↦
        rw (e, search_loop)
          (loop-Inv fuel (expand l s current rest) (Inv-expand s current rest e h))
  ]

  -- With as much fuel as there is work the loop ends by its own test.
  loop_ends :
      (fuel : ℕ) (s : Search)
      → work (all_targets (normalize_lifecycle l).transitions) s ≤ fuel
      → (search_loop l fuel s).queue ≡ []
  unfolding search_loop expand
  loop_ends zero s h = elim (List-cases s.queue) [
    | inl e ↦ e
    | inr (current, rest, e) ↦ absurd (omega (arith, ap length e))
  ]
  loop_ends (suc fuel) s h = elim (List-cases s.queue) [
    | inl e ↦ rw (e, search_loop) e
    | inr (current, rest, e) ↦
        rw (e, search_loop)
          (loop_ends fuel (expand l s current rest) (
            omega (
              arith,
              ap length e,
              visits-work (all_targets (normalize_lifecycle l).transitions)
                  (record s { queue = rest }) (next l current) (next-targets l current),
            )))
  ]

  search-Inv : Inv (search_from l start)
  unfolding search_from
  search-Inv = loop-Inv _ _ (record {
    source = Memᴰ.head refl;
    queued = λ v m. m;
    sound = λ v m. rw (Memᴰ.eq_of_singleton m) here;
    closed = λ u v m edge. inl m;
  })

  -- The breadth-first loop ends with an empty queue, whatever the lifecycle declares, so that its
  -- fuel is enough.
  pub search_from_ends : (search_from l start).queue ≡ []
  unfolding search_from
  search_from_ends = loop_ends _ _ (
      omega
        (arith, unseen-le-length (start ∷ []) (all_targets (normalize_lifecycle l).transitions)))

  complete :
      (s : Search) → Inv s → s.queue ≡ [] → {v : State} → Reach l start v → Memᴰ v s.reachable
  complete s h e here = h.source
  complete s h e (step {u} {v} p edge) =
      elim (h.closed u v (complete s h e p) ((next_iff l u v).1 edge)) [
        | inl waiting ↦ absurd (Memᴰ-nil u (subst (Memᴰ u) e waiting))
        | inr m ↦ m
      ]

  -- The marked states are exactly those that a chain of steps leads to.
  pub search_from-reachable : (v : State) → Memᴰ v (search_from l start).reachable ↔ Reach l start v
  search_from-reachable v =
      (search-Inv.sound v, complete (search_from l start) search-Inv search_from_ends)

  -- `unreachableFrom` lists exactly the declared states that no chain of steps leads to from the
  -- start, where a step goes from a state to a target of the first transition that the normalized
  -- lifecycle declares out of it.
  pub unreachable_from_iff :
      (v : State) → Memᴰ v (unreachable_from l start) ↔ (Memᴰ v l.states × ¬ Reach l start v)
  unfolding unreachable_from
  unreachable_from_iff v = ground (
    arith,
    mem-sort text_less v (keep (λ s. not (elem s (search_from l start).reachable)) l.states),
    Memᴰ-keep (λ s. not (elem s (search_from l start).reachable)) v l.states,
    elem_iff v (search_from l start).reachable,
    search_from-reachable v,
  )
