-- ===== src/UseCases/TaskCalls/Outcomes.antt =====
-- What the calls on one task do to the world (internal/application/usecases/create_task.go,
-- complete_task.go, renew_lease.go).
use fulfillment_execution.Prelude.{
  ◌≡◌, inl, inr, ◌++◌, Bool, true, false, none, some, [], ◌∷◌, ℤ, arith, Option-cases,
}
use fulfillment_execution.Shared.{TaskId, StationId, OrderRef, Time, Cpt}
use fulfillment_execution.Shared.Capabilities.{CapabilitySet}
use fulfillment_execution.Shared.Events.{task_created, task_completed}
use fulfillment_execution.Task.{Task, TaskType, new, complete, renew_lease as renew}
use fulfillment_execution.Memory.TaskRepo as TaskRepo
use fulfillment_execution.UseCases.Effects.{
  World, Env, ok, err, AppError, lease_duration_or_default,
}
use fulfillment_execution.UseCases.TaskCalls.{create_task, complete_task, renew_lease}

-- The world in which the station has completed the task.
abbrev pub with_completed : World → Task → TaskId → StationId → Time → World
with_completed w t id s now = record w {
  tasks = TaskRepo.save w.tasks (complete t s now).0;
  published = w.published ++ task_completed id s now ∷ [];
}

-- A call of CompleteTask that succeeds has completed the stored task by the rules of the
-- aggregate, saved it and published one TaskCompleted, and changed nothing else. With a unit of
-- work wired, a call that fails, whatever fails, has changed nothing at all.
pub complete_task_outcome :
    (env : Env) (id : TaskId) (s : StationId) (w : World)
    → ((complete_task env false id s w).0 ≡ ok tt
        → (t : Task) × (TaskRepo.find_by_id w.tasks id ≡ some t)
          × ((complete t s env.now).1 ≡ none)
          × ((complete_task env false id s w).1 ≡ with_completed w t id s env.now))
      × ((e : AppError)
          → env.unit_of_work ≡ true
          → (complete_task env false id s w).0 ≡ err e
          → (complete_task env false id s w).1 ≡ w)
unfolding complete_task
complete_task_outcome env id s w = elim (Option-cases (TaskRepo.find_by_id w.tasks id)) [
  | inl e ↦ (λ h. ground arith, λ x u h. ground arith)
  | inr (t, e) ↦ elim (Option-cases (complete t s env.now).1) [
    | inl c ↦ (λ h. (t, e, c, ground arith), λ x u h. ground arith)
    | inr (y, c) ↦ (λ h. ground arith, λ x u h. ground arith)
  ]
]

-- A call of CreateTask that succeeds returns the new task, has saved it and published one
-- TaskCreated, and changed nothing else. With a unit of work wired, one that fails has changed
-- nothing.
pub create_task_outcome :
    (env : Env) (id : TaskId) (ty : TaskType) (cpt : Cpt) (ref : OrderRef) (caps : CapabilitySet)
    (f g : Bool) (w : World)
    → let t = new id ty cpt ref caps f g in
      ((r : Task)
        → (create_task env false id ty cpt ref caps f g w).0 ≡ ok r
        → (r ≡ t)
          × ((create_task env false id ty cpt ref caps f g w).1 ≡ record w {
            tasks = TaskRepo.save w.tasks t;
            published = w.published ++ task_created id env.now ∷ [];
          }))
      × ((e : AppError)
          → env.unit_of_work ≡ true
          → (create_task env false id ty cpt ref caps f g w).0 ≡ err e
          → (create_task env false id ty cpt ref caps f g w).1 ≡ w)
unfolding create_task
create_task_outcome env id ty cpt ref caps f g w =
    (λ r h. (ground arith, ground arith), λ e u h. ground arith)

-- A call of RenewLease that succeeds has extended the stored task's lease by the rules of the
-- aggregate and saved it, and publishes nothing. A call that fails has changed nothing, with or
-- without a unit of work.
pub renew_lease_outcome :
    (env : Env) (lease : ℤ) (id : TaskId) (s : StationId) (w : World)
    → let d = lease_duration_or_default lease in
      ((renew_lease env lease id s w).0 ≡ ok tt
        → (t : Task) × (TaskRepo.find_by_id w.tasks id ≡ some t)
          × ((renew t s env.now d).1 ≡ none)
          × ((renew_lease env lease id s w).1
              ≡ record w { tasks = TaskRepo.save w.tasks (renew t s env.now d).0 }))
      × ((e : AppError)
          → (renew_lease env lease id s w).0 ≡ err e
          → (renew_lease env lease id s w).1 ≡ w)
unfolding renew_lease
renew_lease_outcome env lease id s w = elim (Option-cases (TaskRepo.find_by_id w.tasks id)) [
  | inl e ↦ (λ h. ground arith, λ x h. ground arith)
  | inr (t, e) ↦ elim (Option-cases (renew t s env.now (lease_duration_or_default lease)).1) [
    | inl c ↦ (λ h. (t, e, c, ground arith), λ x h. ground arith)
    | inr (y, c) ↦ (λ h. ground arith, λ x h. ground arith)
  ]
]
