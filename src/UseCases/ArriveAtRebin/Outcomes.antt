-- ===== src/UseCases/ArriveAtRebin/Outcomes.antt =====
-- What one arrival does to the world (internal/application/usecases/arrive_at_rebin.go).
use fulfillment_execution.Prelude.{
  ◌≡◌, refl, sym, ap, ◌∙◌, ◌⊎◌, inl, inr, ◌++◌, String, Bool, true, false, none, some, List, [],
  ◌∷◌, arith, Option-cases, Bool-cases, if◌then◌else◌,
}
use fulfillment_execution.Shared.{OrderRef}
use fulfillment_execution.Shared.Events.{
  DomainEvent, task_created, item_arrived_at_rebin, order_consolidated,
}
use fulfillment_execution.Task as Task
use fulfillment_execution.Consolidation.{OrderConsolidation, new, record_arrival, is_complete}
use fulfillment_execution.Memory.TaskRepo as TaskRepo
use fulfillment_execution.Memory.ConsolidationRepo as ConsolidationRepo
use fulfillment_execution.UseCases.Effects.{
  World, Env, Result, ok, err, AppError, publish, atomically, atomically_rolls_back, ◌>>◌,
  Result-cases, M, finds_consolidation, saves_consolidation, port_failed, publishes,
}
use fulfillment_execution.UseCases.TaskCalls.{create_task, save_task}
use fulfillment_execution.UseCases.ArriveAtRebin.{
  PackPlan, or_new, save_consolidation, settle, arrive_at_rebin,
}

-- The order as the call finds it: stored, or new with the lines that the call names.
abbrev pub found : World → OrderRef → List String → OrderConsolidation
found w order_ref ids =
    or_new (ConsolidationRepo.find_by_order_ref w.consolidations order_ref) order_ref ids

-- The world with the order saved and the arrival told.
abbrev pub with_arrival : Env → World → OrderConsolidation → OrderRef → String → World
with_arrival env w oc order_ref line_id = record w {
  consolidations = ConsolidationRepo.save w.consolidations oc;
  published = w.published ++ item_arrived_at_rebin order_ref line_id env.now ∷ [];
}

-- The world in which the order's PACK task has been created, and its consolidation told.
abbrev pub with_pack : Env → World → OrderRef → PackPlan → World
with_pack env w order_ref plan = record w {
  tasks =
      TaskRepo.save w.tasks
        (Task.new plan.id Task.pack plan.cpt order_ref plan.required plan.fragile plan.gift_wrap);
  published =
      (w.published ++ task_created plan.id env.now ∷ [])
      ++ order_consolidated order_ref env.now ∷ [];
}

bind-ok :
    {A B : Type 0} (m : M A) (n : M B) (w : World) (b : B)
    → ((m >> n) w).0 ≡ ok b
    → (a : A) × ((m w).0 ≡ ok a) × ((n (m w).1).0 ≡ ok b) × (((m >> n) w).1 ≡ (n (m w).1).1)
bind-ok m n w b h = elim (Result-cases (m w).0) [
  | inl (a, e) ↦ (a, e, rw e at h, rw e refl)
  | inr (x, e) ↦ absurd (let h' = rw e at h in ground arith)
]

told :
    (env : Env) (w : World) (events : List DomainEvent)
    → (publish env events w).0 ≡ ok tt
    → (publish env events w).1 ≡ record w { published = w.published ++ events }
unfolding publish
told env w events h = ground arith

create_task-ok :
    (env : Env) (in_tx : Bool) (ref : OrderRef) (plan : PackPlan) (w : World)
    → let t = Task.new plan.id Task.pack plan.cpt ref plan.required plan.fragile plan.gift_wrap in
      (r : Task.Task)
      → (create_task env in_tx plan.id Task.pack plan.cpt ref plan.required plan.fragile
          plan.gift_wrap w).0
        ≡ ok r
      → (create_task env in_tx plan.id Task.pack plan.cpt ref plan.required plan.fragile
          plan.gift_wrap w).1
        ≡ record w {
          tasks = TaskRepo.save w.tasks t;
          published = w.published ++ task_created plan.id env.now ∷ [];
        }
unfolding create_task atomically save_task publish
create_task-ok env in_tx ref plan w r h = ground arith

packed :
    (env : Env) (in_tx : Bool) (ref : OrderRef) (plan : PackPlan) (w : World)
    → let m =
        create_task env in_tx plan.id Task.pack plan.cpt ref plan.required plan.fragile
          plan.gift_wrap
        >> publish env (order_consolidated ref env.now ∷ []) in
      (m w).0 ≡ ok tt → (m w).1 ≡ with_pack env w ref plan
unfolding publish
packed env in_tx ref plan w h =
    let m =
      create_task env in_tx plan.id Task.pack plan.cpt ref plan.required plan.fragile
        plan.gift_wrap in
    let n = publish env (order_consolidated ref env.now ∷ []) in
    let (t, first, last, world) = bind-ok m n w tt h in
    let created = create_task-ok env in_tx ref plan w t first in
    world
    ∙ told env (m w).1 (order_consolidated ref env.now ∷ []) last
    ∙ ap
        (λ (x : World). record x { published = x.published ++ order_consolidated ref env.now ∷ [] })
        created

settle-outcome :
    (env : Env) (oc : OrderConsolidation) (ref : OrderRef) (line : String) (plan : PackPlan)
    (in_tx : Bool) (w : World)
    → (settle env oc ref line plan in_tx w).0 ≡ ok tt
    → (settle env oc ref line plan in_tx w).1 ≡ (
        if is_complete oc
        then with_pack env (with_arrival env w oc ref line) ref plan
        else with_arrival env w oc ref line)
unfolding settle publish save_consolidation
settle-outcome env oc ref line plan in_tx w h =
    elim (Bool-cases (env.fails (saves_consolidation oc.order_ref))) [
      | inl e ↦ let h' = rw e at h in ground arith
      | inr e ↦
          let h' = rw e at h in
          rw e
            (elim (Bool-cases
              (env.fails (publishes (item_arrived_at_rebin ref line env.now ∷ [])))) [
                | inl p ↦ let h'' = rw p at h' in ground arith
                | inr p ↦
                    let h'' = rw p at h' in
                    rw p (elim (Bool-cases (is_complete oc)) [
                      | inl c ↦ let h3 = rw c at h'' in rw c (packed env in_tx ref plan _ h3)
                      | inr c ↦ rw c refl
                    ])
              ])
    ]

-- The world after an arrival that succeeded.
abbrev pub settled : Env → World → OrderConsolidation → OrderRef → String → PackPlan → World
settled env w oc ref line plan =
    if is_complete oc
    then with_pack env (with_arrival env w oc ref line) ref plan
    else with_arrival env w oc ref line

scope-ok :
    (env : Env) (fn : Bool → M (Unit {0})) (w : World)
    → (atomically env false fn w).0 ≡ ok tt
    → (b : Bool) × ((fn b w).0 ≡ ok tt) × ((atomically env false fn w).1 ≡ (fn b w).1)
unfolding atomically
scope-ok env fn w h = elim (Bool-cases env.unit_of_work) [
  | inl u ↦
      (true, ground (arith, Result-cases (fn true w).0), ground (arith, Result-cases (fn true w).0))
  | inr u ↦ (false, ground arith, ground arith)
]

entered :
    (env : Env) (ref : OrderRef) (line : String) (ids : List String) (plan : PackPlan) (w : World)
    → (record_arrival (found w ref ids) line).1 ≡ none
    → is_complete (found w ref ids) ≡ false
    → (arrive_at_rebin env false ref line ids plan w
        ≡ (err (port_failed (finds_consolidation ref)), w))
      ⊎ (arrive_at_rebin env false ref line ids plan w
          ≡ atomically env false
              (settle env (record_arrival (found w ref ids) line).0 ref line plan)
              w)
unfolding arrive_at_rebin
entered env ref line ids plan w r c = elim (Bool-cases (env.fails (finds_consolidation ref))) [
  | inl e ↦ inl (rw e refl)
  | inr e ↦ inr (rw (e, r, c) refl)
]

broken_off :
    (env : Env) (ref : OrderRef) (line : String) (ids : List String) (plan : PackPlan) (w : World)
    → (record_arrival (found w ref ids) line).1 ≡ none
    → is_complete (found w ref ids) ≡ false
    → (e : AppError) → env.unit_of_work ≡ true
    → (arrive_at_rebin env false ref line ids plan w).0 ≡ err e
    → (arrive_at_rebin env false ref line ids plan w).1 ≡ w
broken_off env ref line ids plan w r c e u h = elim (entered env ref line ids plan w r c) [
  | inl run ↦ rw run refl
  | inr run ↦ rw run (
      atomically_rolls_back env (settle env (record_arrival (found w ref ids) line).0 ref line plan)
        w u (rw run at h))
]

begun :
    (env : Env) (ref : OrderRef) (line : String) (ids : List String) (plan : PackPlan) (w : World)
    → (record_arrival (found w ref ids) line).1 ≡ none
    → is_complete (found w ref ids) ≡ false
    → (arrive_at_rebin env false ref line ids plan w).0 ≡ ok tt
    → (arrive_at_rebin env false ref line ids plan w).1 ≡ (
        if is_complete (found w ref ids)
        then w
        else settled env w (record_arrival (found w ref ids) line).0 ref line plan)
unfolding arrive_at_rebin
begun env ref line ids plan w r c h =
    let oc = (record_arrival (found w ref ids) line).0 in
    elim (entered env ref line ids plan w r c) [
      | inl run ↦ ground arith
      | inr run ↦
          let (b, fine, world) =
            scope-ok env (settle env oc ref line plan) w
              (ap (λ (x : Result (Unit {0}) × World). x.0) (sym run) ∙ h) in
          ap (λ (x : Result (Unit {0}) × World). x.1) run
          ∙ world
          ∙ settle-outcome env oc ref line plan b w fine
          ∙ rw c refl
    ]

-- The outcome, on the order as `found` reads it.
pub arrival-outcome :
    (env : Env) (ref : OrderRef) (line : String) (ids : List String) (plan : PackPlan) (w : World)
    → let oc = found w ref ids in
      ((arrive_at_rebin env false ref line ids plan w).0 ≡ ok tt
        → ((record_arrival oc line).1 ≡ none)
          × ((arrive_at_rebin env false ref line ids plan w).1 ≡ (
              if is_complete oc
              then w
              else settled env w (record_arrival oc line).0 ref line plan)))
      × ((e : AppError)
          → env.unit_of_work ≡ true
          → (arrive_at_rebin env false ref line ids plan w).0 ≡ err e
          → (arrive_at_rebin env false ref line ids plan w).1 ≡ w)
unfolding arrive_at_rebin
arrival-outcome env ref line ids plan w =
    elim (Option-cases (record_arrival (found w ref ids) line).1) [
      | inr (x, r) ↦ (λ h. ground arith, λ x u h. ground arith)
      | inl r ↦ elim (Bool-cases (is_complete (found w ref ids))) [
        | inl c ↦ (λ h. (r, ground arith), λ x u h. ground arith)
        | inr c ↦
            (λ h. (r, begun env ref line ids plan w r c h), broken_off env ref line ids plan w r c)
      ]
    ]

found_as :
    (w : World) (ref : OrderRef) (ids : List String) (oc : OrderConsolidation)
    → (ConsolidationRepo.find_by_order_ref w.consolidations ref ≡ some oc)
      ⊎ ((ConsolidationRepo.find_by_order_ref w.consolidations ref ≡ none) × (oc ≡ new ref ids))
    → found w ref ids ≡ oc
found_as w ref ids oc (inl e) = rw e refl
found_as w ref ids oc (inr (e, fresh)) = rw e (sym fresh)

-- The order that an arrival meets is the stored one with all that it has recorded, or, where none is
-- stored, a new one with the lines that the call names. An arrival that succeeds is of a line that
-- this order requires. Where the order was complete before, it changes nothing. Otherwise the order
-- is saved with the arrival and the arrival is told, and exactly when that completes the order the
-- PACK task is created, saved and told, and then the consolidation. With a unit of work wired, a
-- call that fails, whatever fails, changes nothing.
pub arrive_at_rebin_outcome :
    (env : Env) (ref : OrderRef) (line : String) (ids : List String) (plan : PackPlan) (w : World)
    (oc : OrderConsolidation)
    → (ConsolidationRepo.find_by_order_ref w.consolidations ref ≡ some oc)
      ⊎ ((ConsolidationRepo.find_by_order_ref w.consolidations ref ≡ none) × (oc ≡ new ref ids))
    → ((arrive_at_rebin env false ref line ids plan w).0 ≡ ok tt
        → ((record_arrival oc line).1 ≡ none)
          × ((arrive_at_rebin env false ref line ids plan w).1 ≡ (
              if is_complete oc
              then w
              else settled env w (record_arrival oc line).0 ref line plan)))
      × ((e : AppError)
          → env.unit_of_work ≡ true
          → (arrive_at_rebin env false ref line ids plan w).0 ≡ err e
          → (arrive_at_rebin env false ref line ids plan w).1 ≡ w)
arrive_at_rebin_outcome env ref line ids plan w oc meets =
    rw (sym (found_as w ref ids oc meets)) (arrival-outcome env ref line ids plan w)
