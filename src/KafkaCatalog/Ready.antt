-- ===== src/KafkaCatalog/Ready.antt =====
-- When the catalogue counts as complete (consumer.go).
use fulfillment_execution.Prelude.{
  ℕ, ◌+◌, ◌≡◌, refl, sym, ap, subst, ◌∙◌, inl, inr, String, Bool, true, false, not, ◌&&◌, ◌||◌,
  Option, none, some, List, [], ◌∷◌, Map, lookup, keys, Distinct, In, ite, ltb, ℕ_discrete, keep,
  arith, Option-cases, Bool-cases,
}
use fulfillment_execution.KafkaCatalog.{
  delete, CloudEvent, Message, Consumer, is_empty, new_consumer, check_ready, handle, run,
  apply_upsert, apply_deactivated,
}

-- A message that reaches the target of its partition.
abbrev pub reaches : Message → ℕ × ℕ → Bool
reaches m (partition, target) =
    ite (ℕ_discrete partition m.partition) true false && not (ltb (m.offset + 1) target)

abbrev pub reached : List Message → ℕ × ℕ → Bool
reached [] x = false
reached (m ∷ ms) x = reaches m x || reached ms x

-- Each partition's target was reached by one of the messages.
abbrev pub all_reached : List Message → Map ℕ ℕ → Bool
all_reached ms [] = true
all_reached ms (x ∷ xs) = reached ms x && all_reached ms xs

abbrev remaining : Message → Map ℕ ℕ → Map ℕ ℕ
remaining m target = keep (λ x. not (reaches m x)) target

all_reached-remaining :
    (m : Message) (ms : List Message) (t : Map ℕ ℕ)
    → all_reached ms (remaining m t) ≡ all_reached (m ∷ ms) t
unfolding keep
all_reached-remaining m ms [] = refl
all_reached-remaining m ms (x ∷ xs) = ground (arith, all_reached-remaining m ms xs)

absent_remaining : (m : Message) (t : Map ℕ ℕ) → ¬ In m.partition (keys t) → remaining m t ≡ t
unfolding keep
absent_remaining m [] out = refl
absent_remaining m ((p, n) ∷ t) out = ground (arith, absent_remaining m t)

absent_delete :
    (m : Message) (t : Map ℕ ℕ) → ¬ In m.partition (keys t) → delete ℕ_discrete m.partition t ≡ t
unfolding delete
absent_delete m [] out = refl
absent_delete m ((p, n) ∷ t) out = ground (arith, absent_delete m t)

unlisted : (m : Message) (t : Map ℕ ℕ) → lookup ℕ_discrete m.partition t ≡ none → remaining m t ≡ t
unfolding keep lookup
unlisted m [] h = refl
unlisted m ((p, n) ∷ t) h = ground (arith, unlisted m t)

below :
    (m : Message) (t : Map ℕ ℕ) (target : ℕ)
    → Distinct (keys t)
    → lookup ℕ_discrete m.partition t ≡ some target
    → ltb (m.offset + 1) target ≡ true
    → remaining m t ≡ t
unfolding keep lookup
below m [] target d h b = absurd (cc h)
below m ((p, n) ∷ t) target d h b = ground (arith, below m t target, absent_remaining m t)

attained :
    (m : Message) (t : Map ℕ ℕ) (target : ℕ)
    → Distinct (keys t)
    → lookup ℕ_discrete m.partition t ≡ some target
    → ltb (m.offset + 1) target ≡ false
    → remaining m t ≡ delete ℕ_discrete m.partition t
unfolding keep lookup delete
attained m [] target d h b = absurd (cc h)
attained m ((p, n) ∷ t) target d h b = elim (ℕ_discrete p m.partition) [
  | yes e ↦ ground (arith, absent_remaining m t, absent_delete m t)
  | no k ↦ ground (arith, attained m t target)
]

-- The state after a message: the targets that are not reached remain, and none remaining is ready.
abbrev Tracks : Consumer → Type 0
Tracks c = Distinct (keys c.target) × (c.ready ≡ is_empty c.target)

empty-remaining : (m : Message) (t : Map ℕ ℕ) → is_empty t ≡ true → remaining m t ≡ t
unfolding keep
empty-remaining m [] h = refl
empty-remaining m (x ∷ t) h = absurd (cc h)

keys-delete : (k j : ℕ) (t : Map ℕ ℕ) → ¬ In j (keys t) → ¬ In j (keys (delete ℕ_discrete k t))
unfolding delete
keys-delete k j [] out = out
keys-delete k j ((p, n) ∷ t) out = ground (arith, keys-delete k j t)

delete-Distinct :
    (k : ℕ) (t : Map ℕ ℕ) → Distinct (keys t) → Distinct (keys (delete ℕ_discrete k t))
unfolding delete
delete-Distinct k [] d = d
delete-Distinct k ((p, n) ∷ t) d = ground (arith, delete-Distinct k t, keys-delete k p t)

-- A message takes the targets that it reaches out of those that remain.
checked :
    (m : Message) (c : Consumer)
    → Tracks c
    → ((check_ready m c).target ≡ remaining m c.target)
      × Distinct (keys (check_ready m c).target)
      × ((check_ready m c).ready ≡ is_empty (check_ready m c).target)
unfolding check_ready
checked m c h = elim (Bool-cases c.ready) [
  | inl r ↦ rw r (sym (empty-remaining m c.target (sym h.1 ∙ r)), h.0, sym r ∙ h.1)
  | inr r ↦ elim (Option-cases (lookup ℕ_discrete m.partition c.target)) [
    | inl e ↦ rw (r, e) (sym (unlisted m c.target e), h.0, sym r ∙ h.1)
    | inr (target, e) ↦ elim (Bool-cases (ltb (m.offset + 1) target)) [
      | inl b ↦ rw (r, e, b) (sym (below m c.target target h.0 e b), h.0, sym r ∙ h.1)
      | inr b ↦
          rw (r, e, b)
            (
              sym (attained m c.target target h.0 e b),
              delete-Distinct m.partition c.target h.0,
              refl,
            )
    ]
  ]
]

nothing_reached : (t : Map ℕ ℕ) → is_empty t ≡ all_reached [] t
nothing_reached [] = refl
nothing_reached (x ∷ t) = refl

-- Handling an event concerns the paths only.
handled :
    (upper : String → String) (decode : String → Option CloudEvent) (m : Message) (c : Consumer)
    → ((handle upper decode m c).target ≡ c.target) × ((handle upper decode m c).ready ≡ c.ready)
unfolding handle apply_upsert apply_deactivated
handled upper decode m c = elim (Option-cases (decode m.value)) [
  | inl e ↦ rw e (refl, refl)
  | inr (event, e) ↦ elim (Option-cases event.payload) [
    | inl p ↦ rw (e, p) (refl, refl)
    | inr (d, p) ↦ (ground arith, ground arith)
  ]
]

run-ready :
    (upper : String → String) (decode : String → Option CloudEvent) (ms : List Message)
    (c : Consumer)
    → Tracks c
    → (run upper decode ms c).ready ≡ all_reached ms c.target
unfolding run
run-ready upper decode [] c h = h.1 ∙ nothing_reached c.target
run-ready upper decode (m ∷ ms) c h =
    let c' = handle upper decode m c in
    let (same_target, same_ready) = handled upper decode m c in
    let tracks : Tracks c' = (
      subst (λ (t : Map ℕ ℕ). Distinct (keys t)) (sym same_target) h.0,
      same_ready ∙ h.1 ∙ ap is_empty (sym same_target),
    ) in
    let (left, distinct, ready) = checked m c' tracks in
    run-ready upper decode ms (check_ready m c') (distinct, ready)
    ∙ ap (all_reached ms) (left ∙ ap (remaining m) same_target)
    ∙ all_reached-remaining m ms c.target

-- The catalogue is ready exactly when each partition that had messages at the start has delivered its
-- last one of them, or a later one: not before, and however many messages are malformed. Each
-- partition is listed once.
pub ready_when_caught_up :
    (upper : String → String) (decode : String → Option CloudEvent) (target : Map ℕ ℕ)
    (ms : List Message)
    → Distinct (keys target)
    → (run upper decode ms (new_consumer target)).ready ≡ all_reached ms target
ready_when_caught_up upper decode target ms d =
    run-ready upper decode ms (new_consumer target) (d, refl)
