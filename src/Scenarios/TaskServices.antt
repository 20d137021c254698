-- ===== src/Scenarios/TaskServices.antt =====
-- Tests of the calls on one task (internal/application/usecases).
use fulfillment_execution.Prelude.{false, none, some, true, ◌≡◌}
use fulfillment_execution.Scenarios.Samples.{calm, floor}
use fulfillment_execution.Shared.{StationId, TaskId}
use fulfillment_execution.Task.{Task, complete}
use fulfillment_execution.UseCases.Effects.{AppError, Env, World, err, ok}
use fulfillment_execution.UseCases.TaskCalls.{complete_task}
use fulfillment_execution.UseCases.TaskCalls.Outcomes.{complete_task_outcome, with_completed}
use fulfillment_execution.Memory.TaskRepo as TaskRepo

complete_task_outcome_example :
    let env : Env = calm 10 in
    let id : TaskId = "packing" in
    let s : StationId = "bench" in
    let w : World = floor in
    ((complete_task env false id s w).0 ≡ ok tt
      → (t : Task) × (TaskRepo.find_by_id w.tasks id ≡ some t)
        × ((complete t s env.now).1 ≡ none)
        × ((complete_task env false id s w).1 ≡ with_completed w t id s env.now))
    × ((e : AppError)
        → env.unit_of_work ≡ true
        → (complete_task env false id s w).0 ≡ err e
        → (complete_task env false id s w).1 ≡ w)
complete_task_outcome_example = complete_task_outcome (calm 10) "packing" "bench" floor
