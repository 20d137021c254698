-- ===== src/WorkReleased/Delivery.antt =====
-- How often an event creates a task (internal/adapters/inbound/kafka/consumer.go).
use fulfillment_execution.Prelude.{
  ℕ, ◌+◌, ◌≤◌, ◌≡◌, refl, ap, ◌∙◌, ◌⊎◌, inl, inr, ◌++◌, String, true, false, some, List, [], ◌∷◌,
  zero, suc, In, arith, Bool-cases, Option-cases,
}
use fulfillment_execution.Shared.{new_cpt}
use fulfillment_execution.Shared.Capabilities.{new_capability_set, contains, contains-In}
use fulfillment_execution.Shared.Events.{task_created}
use fulfillment_execution.Task as Task
use fulfillment_execution.PathCatalog.{PathDefinition, lookup}
use fulfillment_execution.Memory.TaskRepo as TaskRepo
use fulfillment_execution.Memory.ProcessedEvents as ProcessedEvents
use fulfillment_execution.UseCases.Effects.{
  World, Env, M, Result, ok, err, AppError, Result-cases, marks_processed, port_failed,
  unknown_path, ◌>>◌, pure,
}
use fulfillment_execution.UseCases.TaskCalls.{create_task}
use fulfillment_execution.UseCases.TaskCalls.Outcomes.{create_task_outcome}
use fulfillment_execution.WorkReleased.{
  Consumer, Retry, WorkReleasedData, released, decode_work_released, mark_processed, create_for,
  handle_claimed_event, claim_and_work, handle_message_with_retry,
}

-- An operation that is tried again after each failure, from attempt `i` on, `n` more times at most.
unfoldable pub tries : {A : Type 0} → ℕ → (ℕ → M A) → ℕ → M A
tries zero op i w = op i w
tries (suc n) op i w = elim (op i w).0 [ ok a ↦ op i w | err e ↦ tries n op (i + 1) (op i w).1 ]

-- A retry makes some number of retries within its bound.
abbrev pub IsRetry : {A : Type 0} → Retry A → Type 0
IsRetry {A} retry =
    (max : ℕ) (op : ℕ → M A) (w : World) → (n : ℕ) × (n ≤ max) × (retry max op w ≡ tries n op 0 w)

-- A failed attempt leaves the world as it was.
abbrev Restores : {A : Type 0} → (ℕ → M A) → Type 0
Restores op = (i : ℕ) (w : World) (e : AppError) → (op i w).0 ≡ err e → (op i w).1 ≡ w

-- Then the attempts together are as the last one alone.
tries_last :
    {A : Type 0} (n : ℕ) (op : ℕ → M A) (i : ℕ) (w : World)
    → Restores op
    → (j : ℕ) × (j ≤ i + n) × (tries n op i w ≡ op j w)
unfolding tries
tries_last zero op i w r = (i, omega arith, refl)
tries_last (suc n) op i w r = elim (Result-cases (op i w).0) [
  | inl (a, e) ↦ (i, omega arith, ground arith)
  | inr (x, e) ↦
      let (j, le, same) = tries_last n op (i + 1) w r in
      (j, omega arith, rw (e, tries) (rw (r i w x e) same))
]

retry_last :
    {A : Type 0} (retry : Retry A) (max : ℕ) (op : ℕ → M A) (w : World)
    → IsRetry retry
    → Restores op
    → (j : ℕ) × (j ≤ max) × (retry max op w ≡ op j w)
retry_last retry max op w is r =
    let (n, le, same) = is max op w in
    let (j, le', last) = tries_last n op 0 w r in (j, omega arith, same ∙ last)

mark_processed-Restores :
    (c : Consumer) (id : String) → Restores (λ i. mark_processed (c.mark_env i) id)
unfolding mark_processed
mark_processed-Restores c id i w e h = ground arith

marked :
    (env : Env) (id : String) (w : World)
    → (mark_processed env id w ≡ (err (port_failed (marks_processed id)), w))
      ⊎ (mark_processed env id w ≡ (
        ok (ProcessedEvents.mark_processed w.processed id).1,
        record w { processed = (ProcessedEvents.mark_processed w.processed id).0 },
      ))
unfolding mark_processed
marked env id w = elim (Bool-cases (env.fails (marks_processed id))) [
  | inl e ↦ inl (rw e refl)
  | inr e ↦ inr (rw e refl)
]

-- The world with the task of the event.
abbrev pub with_task : Consumer → ℕ → WorkReleasedData → PathDefinition → World → World
with_task c i d path w = record w {
  tasks = TaskRepo.save w.tasks (
      Task.new (c.new_id i) path.id (new_cpt d.cpt) d.work_unit_id
        (new_capability_set path.required_capabilities) d.fragile d.gift_wrap);
  published = w.published ++ task_created (c.new_id i) (c.work_env i).now ∷ [];
}

then_done :
    {A : Type 0} (m : M A) (w : World)
    → ((a : A) → (m w).0 ≡ ok a → (m >> pure tt) w ≡ (ok tt, (m w).1))
      × ((e : AppError) → (m w).0 ≡ err e → (m >> pure tt) w ≡ (err e, (m w).1))
then_done m w = (λ a h. rw h refl, λ e h. rw h refl)

created :
    (c : Consumer) (i : ℕ) (d : WorkReleasedData) (path : PathDefinition) (w : World)
    → (c.work_env i).unit_of_work ≡ true
    → ((e : AppError) × (create_for (c.work_env i) (c.new_id i) d (some path) w ≡ (err e, w)))
      ⊎ (create_for (c.work_env i) (c.new_id i) d (some path) w ≡ (ok tt, with_task c i d path w))
created c i d path w u =
    let caps = new_capability_set path.required_capabilities in
    let m =
      create_task (c.work_env i) false (c.new_id i) path.id (new_cpt d.cpt) d.work_unit_id caps
        d.fragile d.gift_wrap in
    let known =
      create_task_outcome (c.work_env i) (c.new_id i) path.id (new_cpt d.cpt) d.work_unit_id caps
        d.fragile d.gift_wrap w in
    elim (Result-cases (m w).0) [
      | inl (t, e) ↦ inr ((then_done m w).0 t e ∙ ap (λ (x : World). (ok tt, x)) (known.0 t e).1)
      | inr (x, e) ↦ inl (x, (then_done m w).1 x e ∙ ap (λ (v : World). (err x, v)) (known.1 x u e))
    ]

-- One attempt at the work either fails and changes nothing, or creates the task of the path.
worked :
    (c : Consumer) (i : ℕ) (d : WorkReleasedData) (w : World)
    → (c.work_env i).unit_of_work ≡ true
    → ((e : AppError) × (handle_claimed_event c i d w ≡ (err e, w)))
      ⊎ ((path : PathDefinition) × (lookup c.lower c.catalogue d.path_id ≡ some path)
          × (handle_claimed_event c i d w ≡ (ok tt, with_task c i d path w)))
unfolding handle_claimed_event
worked c i d w u = elim (Option-cases (lookup c.lower c.catalogue d.path_id)) [
  | inl e ↦ inl (unknown_path, rw e refl)
  | inr (path, e) ↦ elim (created c i d path w u) [
    | inl (x, f) ↦ inl (x, rw e f)
    | inr f ↦ inr (path, e, rw e f)
  ]
]

handle-Restores :
    (c : Consumer) (d : WorkReleasedData)
    → ((i : ℕ) → (c.work_env i).unit_of_work ≡ true)
    → Restores (λ i. handle_claimed_event c i d)
handle-Restores c d u i w e h = elim (worked c i d w (u i)) [
  | inl (x, f) ↦ rw f refl
  | inr (path, _, f) ↦ absurd (let h' = rw f at h in ground arith)
]

-- How the handling of a released event ends.
pub data Outcome (c : Consumer) (id : String) (d : WorkReleasedData) (w : World)
    (run : Result (Unit {0}) × World) : Type 0 where
  -- The event was claimed before: nothing happens.
  repeated : In id w.processed → run ≡ (ok tt, w) → Outcome c id d w run
  -- It is new: one attempt within the bound creates the one task.
  delivered :
      (i : ℕ) (path : PathDefinition)
      → ¬ In id w.processed
      → i ≤ 2
      → lookup c.lower c.catalogue d.path_id ≡ some path
      → run ≡ (ok tt, with_task c i d path (record w { processed = id ∷ w.processed }))
      → Outcome c id d w run
  -- It fails, and no task is stored or told.
  failed :
      (e : AppError)
      → run.0 ≡ err e
      → run.1.tasks ≡ w.tasks
      → run.1.published ≡ w.published
      → Outcome c id d w run

mark-cases :
    (seen : List String) (id : String)
    → (In id seen × (ProcessedEvents.mark_processed seen id ≡ (seen, false)))
      ⊎ ((¬ In id seen) × (ProcessedEvents.mark_processed seen id ≡ (id ∷ seen, true)))
unfolding ProcessedEvents.mark_processed
mark-cases seen id = elim (Bool-cases (contains seen id)) [
  | inl e ↦ inl ((contains-In seen id).0 e, rw (e, ProcessedEvents.mark_processed) refl)
  | inr e ↦
      inr (
        λ i. ground (arith, (contains-In seen id).1 i),
        rw (e, ProcessedEvents.mark_processed) refl,
      )
]

-- The work on an event that was just claimed.
work_stage :
    (c : Consumer) (id : String) (d : WorkReleasedData) (w : World)
    → IsRetry c.retry_work
    → ((i : ℕ) → (c.work_env i).unit_of_work ≡ true)
    → ¬ In id w.processed
    → Outcome c id d w (
        c.retry_work 2
          (λ i. handle_claimed_event c i d)
          (record w { processed = id ∷ w.processed }))
work_stage c id d w is_work u fresh =
    let claimed = record w { processed = id ∷ w.processed } in
    let (k, le, same) =
      retry_last c.retry_work 2 (λ i. handle_claimed_event c i d) claimed is_work
        (handle-Restores c d u) in
    elim (worked c k d claimed (u k)) [
      | inl (x, g) ↦ rw (same ∙ g) (failed x refl refl refl)
      | inr (path, at, g) ↦ rw (same ∙ g) (delivered k path fresh le at refl)
    ]

claim_stage :
    (c : Consumer) (id : String) (d : WorkReleasedData) (w : World)
    → IsRetry c.retry_mark
    → IsRetry c.retry_work
    → ((i : ℕ) → (c.work_env i).unit_of_work ≡ true)
    → Outcome c id d w (claim_and_work c id d w)
unfolding claim_and_work
claim_stage c id d w is_mark is_work u =
    let (j, _, m) =
      retry_last c.retry_mark 2 (λ i. mark_processed (c.mark_env i) id) w is_mark
        (mark_processed-Restores c id) in
    elim (marked (c.mark_env j) id w) [
      | inl f ↦ rw (m ∙ f) (failed (port_failed (marks_processed id)) refl refl refl)
      | inr f ↦ rw (m ∙ f) (elim (mark-cases w.processed id) [
        | inl (i, e) ↦ rw e (repeated i refl)
        | inr (n, e) ↦ rw e (work_stage c id d w is_work u n)
      ])
    ]

-- Handling a WorkReleased event, with its retries, ends in one of three ways. Its id was processed
-- before, and nothing happens. Or the id is new and is marked, and one of three attempts creates
-- one task as the event's path, order and hints say and tells it. Or the handling reports an
-- error, and no task is stored or told. The message decodes to such an event, a unit of work is
-- wired, and a retry repeats its operation, at most as often as its bound allows, until it
-- succeeds.
pub handle_message_creates_once :
    (c : Consumer) (raw id : String) (d : WorkReleasedData) (w : World)
    → decode_work_released c.decode raw ≡ released id d
    → IsRetry c.retry_mark
    → IsRetry c.retry_work
    → ((i : ℕ) → (c.work_env i).unit_of_work ≡ true)
    → Outcome c id d w (handle_message_with_retry c raw w)
unfolding handle_message_with_retry
handle_message_creates_once c raw id d w e is_mark is_work u =
    rw e (claim_stage c id d w is_mark is_work u)

seen_after :
    (c : Consumer) (id : String) (d : WorkReleasedData) (w : World)
    (run : Result (Unit {0}) × World)
    → Outcome c id d w run
    → run.0 ≡ ok tt
    → In id run.1.processed
seen_after c id d w run (repeated i e) h = rw e i
seen_after c id d w run (delivered i path n le at e) h = rw e (inl refl)
seen_after c id d w run (failed e r _ _) h = absurd (ground arith)

idle :
    (c : Consumer) (id : String) (d : WorkReleasedData) (w : World)
    (run : Result (Unit {0}) × World)
    → Outcome c id d w run
    → In id w.processed
    → (run.1.tasks ≡ w.tasks) × (run.1.published ≡ w.published)
idle c id d w run (repeated i e) h = rw e (refl, refl)
idle c id d w run (delivered i path n le at e) h = absurd (n h)
idle c id d w run (failed e r t p) h = (t, p)

-- A redelivery creates no second task: once a message's event was handled without an error, a
-- later delivery of the same event, in whatever message, to whatever consumer and with whatever
-- faults, stores no task and publishes nothing. Both consumers have a unit of work, and a retry
-- repeats its operation, at most as often as its bound allows, until it succeeds.
pub redelivery_creates_none :
    (c c' : Consumer) (raw raw' id : String) (d d' : WorkReleasedData) (w : World)
    → decode_work_released c.decode raw ≡ released id d
    → decode_work_released c'.decode raw' ≡ released id d'
    → IsRetry c.retry_mark
    → IsRetry c.retry_work
    → IsRetry c'.retry_mark
    → IsRetry c'.retry_work
    → ((i : ℕ) → (c.work_env i).unit_of_work ≡ true)
    → ((i : ℕ) → (c'.work_env i).unit_of_work ≡ true)
    → (handle_message_with_retry c raw w).0 ≡ ok tt
    → let first = (handle_message_with_retry c raw w).1 in
      let second = (handle_message_with_retry c' raw' first).1 in
      (second.tasks ≡ first.tasks) × (second.published ≡ first.published)
redelivery_creates_none c c' raw raw' id d d' w e e' m k m' k' u u' h =
    let first = handle_message_with_retry c raw w in
    idle c' id d' first.1 (handle_message_with_retry c' raw' first.1)
      (handle_message_creates_once c' raw' id d' first.1 e' m' k' u')
      (seen_after c id d w first (handle_message_creates_once c raw id d w e m k u) h)
