-- ===== src/Scenarios/TaskStore.antt =====
-- Tests of the task store (internal/adapters/outbound/memory/task_repo.go).
use fulfillment_execution.Memory.TaskRepo.{TaskRepo, save}
use fulfillment_execution.Memory.TaskRepo.Coherence.{IsCoherent, save-IsCoherent}
use fulfillment_execution.Scenarios.Samples.{early, leased, shelf, shelf-IsCoherent}
use fulfillment_execution.Task.{Task}

save-IsCoherent_example :
    let r : TaskRepo = shelf in let t : Task = leased early "bench" 50 in IsCoherent (save r t)
save-IsCoherent_example = save-IsCoherent shelf (leased early "bench" 50) shelf-IsCoherent
