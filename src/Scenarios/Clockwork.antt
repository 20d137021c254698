-- ===== src/Scenarios/Clockwork.antt =====
-- Tests of the sweeps (internal/application/usecases).
use fulfillment_execution.Prelude.{Bool, false, keep, length, map, none, refl, some, ◌++◌, ◌≡◌}
use fulfillment_execution.Scenarios.Samples.{calm, floor, shelf-IsCoherent}
use fulfillment_execution.Shared.{TaskId}
use fulfillment_execution.Shared.Events.{lease_expired}
use fulfillment_execution.Task.{Task, expire_lease_if_due}
use fulfillment_execution.UseCases.Effects.{Env, World, ok}
use fulfillment_execution.UseCases.Sweeps.{expire_leases}
use fulfillment_execution.UseCases.Sweeps.Coverage.{due, expire_leases_frees_due}
use fulfillment_execution.Memory.TaskRepo as TaskRepo

expire_leases_frees_due_example :
    let env : Env = calm 60 in
    let in_tx : Bool = false in
    let w : World = floor in
    let freed_tasks = keep (due env) (TaskRepo.find_all_claimed w.tasks) in
    let after = (expire_leases env in_tx w).2 in
    ((expire_leases env in_tx w).0 ≡ length freed_tasks)
    × ((expire_leases env in_tx w).1 ≡ ok tt)
    × (after.published ≡ w.published ++ map (λ (t : Task). lease_expired t.id env.now) freed_tasks)
    × ((id : TaskId)
        → (TaskRepo.find_by_id w.tasks id ≡ none → TaskRepo.find_by_id after.tasks id ≡ none)
          × ((t : Task)
              → TaskRepo.find_by_id w.tasks id ≡ some t
              → TaskRepo.find_by_id after.tasks id ≡ some (expire_lease_if_due t env.now).0))
expire_leases_frees_due_example =
    expire_leases_frees_due (calm 60) false floor (λ c. refl) shelf-IsCoherent
