-- ===== src/UseCases/Reads.antt =====
-- internal/application/usecases/get_queue_depth.go, get_installed_capacity.go, get_package.go,
-- get_packages_by_order_ref.go and get_tasks_by_order_ref.go: the reads. A read changes nothing,
-- and its failure is that of its port.
use fulfillment_execution.Prelude.{ℕ, List}
use fulfillment_execution.Shared.{OrderRef, PackageId}
use fulfillment_execution.Shared.Capabilities.{Capability}
use fulfillment_execution.Task.{Task, TaskType, pending}
use fulfillment_execution.Package.{Package}
use fulfillment_execution.Memory.TaskRepo as TaskRepo
use fulfillment_execution.Memory.PackageRepo as PackageRepo
use fulfillment_execution.Memory.StationRepo as StationRepo
use fulfillment_execution.UseCases.Effects.{
  Env, M, ◌>>=◌, ◌>>◌, pure, get, calls, counts_tasks, counts_stations, lists_packages, lists_tasks,
}
use fulfillment_execution.UseCases.RunSlam.{find_package}

unfoldable pub get_queue_depth : Env → TaskType → M ℕ
get_queue_depth env task_type = do
  calls env (counts_tasks task_type)
  w ← get
  pure (TaskRepo.count_by_type_and_status w.tasks task_type pending)

unfoldable pub get_installed_capacity : Env → Capability → M ℕ
get_installed_capacity env capability = do
  calls env (counts_stations capability)
  w ← get
  pure (StationRepo.count_by_capability w.stations capability)

unfoldable pub get_package : Env → PackageId → M Package
unfolding find_package
get_package env package_id = find_package env package_id

unfoldable pub get_packages_by_order_ref : Env → OrderRef → M (List Package)
get_packages_by_order_ref env order_ref = do
  calls env (lists_packages order_ref)
  w ← get
  pure (PackageRepo.find_by_order_ref w.packages order_ref)

unfoldable pub get_tasks_by_order_ref : Env → OrderRef → M (List Task)
get_tasks_by_order_ref env order_ref = do
  calls env (lists_tasks order_ref)
  w ← get
  pure (TaskRepo.find_by_order_ref w.tasks order_ref)
