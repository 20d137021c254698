-- ===== src/UseCases/TaskCalls.antt =====
-- internal/application/usecases/create_task.go, complete_task.go and renew_lease.go. The metrics
-- that CompleteTask counts are left out. The id that `NewId` makes is an argument.
pub mod Outcomes
use fulfillment_execution.Prelude.{ℕ, Bool, Option, none, some, List, [], ◌∷◌, ℤ}
use fulfillment_execution.Shared.{TaskId, StationId, OrderRef, Time, Cpt}
use fulfillment_execution.Shared.Capabilities.{CapabilitySet}
use fulfillment_execution.Shared.Events.{task_created, task_completed}
use fulfillment_execution.Task.{Task, TaskType, new, renew_lease as renew, complete}
use fulfillment_execution.Memory.TaskRepo as TaskRepo
use fulfillment_execution.UseCases.Effects.{
  World, Env, M, ◌>>=◌, ◌>>◌, pure, get, put, or_fail, refuse, calls, publish, atomically,
  finds_task, saves_task, task_not_found, task_failed, lease_duration_or_default,
}

-- `uc.Tasks.FindById`, and the error for a task that is not there
unfoldable pub find_task : Env → TaskId → M Task
find_task env id = do
  calls env (finds_task id)
  w ← get
  or_fail (TaskRepo.find_by_id w.tasks id) task_not_found

-- `uc.Tasks.Save`
unfoldable pub save_task : Env → Task → M (Unit {0})
save_task env t = do
  calls env (saves_task t.id)
  put λ w. record w { tasks = TaskRepo.save w.tasks t }

unfoldable pub create_task :
    Env → Bool → TaskId → TaskType → Cpt → OrderRef → CapabilitySet → Bool → Bool → M Task
unfolding atomically save_task publish
create_task env in_tx id task_type cpt order_ref required fragile gift_wrap =
    let t = new id task_type cpt order_ref required fragile gift_wrap in
    atomically env in_tx (λ _. save_task env t >> publish env (task_created id env.now ∷ []))
    >> pure t

unfoldable pub complete_task : Env → Bool → TaskId → StationId → M (Unit {0})
unfolding find_task atomically save_task publish
complete_task env in_tx task_id station_id = do
  t ← find_task env task_id
  refuse task_failed (complete t station_id env.now).1
  atomically env in_tx λ _.
      save_task env (complete t station_id env.now).0
      >> publish env (task_completed task_id station_id env.now ∷ [])

unfoldable pub renew_lease : Env → ℤ → TaskId → StationId → M (Unit {0})
unfolding find_task save_task
renew_lease env lease_duration task_id station_id = do
  t ← find_task env task_id
  let renewed = renew t station_id env.now (lease_duration_or_default lease_duration)
  refuse task_failed renewed.1
  save_task env renewed.0
