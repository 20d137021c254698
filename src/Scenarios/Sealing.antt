-- ===== src/Scenarios/Sealing.antt =====
-- Tests of SealPackage (internal/application/usecases/seal_package.go).
use fulfillment_execution.Prelude.{
  Bool, List, String, [], false, insert, lookup, none, refl, some, string_discrete, true, values,
  ◌∷◌, ◌≡◌,
}
use fulfillment_execution.Package.{Package, scan_item_with_class, seal}
use fulfillment_execution.Package.Segregation.{is_segregation_incompatible}
use fulfillment_execution.Scenarios.Samples.{calm, floor, paints, sealed_box, sealed_paint}
use fulfillment_execution.Shared.{PackageId, StationId, TaskId}
use fulfillment_execution.Task.{Lease, Task, pack}
use fulfillment_execution.UseCases.Effects.{Env, World, atomically, ok, publish}
use fulfillment_execution.UseCases.RunSlam.{save_package}
use fulfillment_execution.UseCases.SealPackage.{
  ClassificationLookup, lookup_hazard_class, scan_all, seal_package,
}
use fulfillment_execution.UseCases.SealPackage.Outcomes.{
  SealedFor, seal_package_first, seal_package_retry, with_sealed,
}
use fulfillment_execution.UseCases.TaskCalls.{find_task}
use fulfillment_execution.Memory.PackageRepo as PackageRepo
use fulfillment_execution.Memory.TaskRepo as TaskRepo
use fulfillment_execution.Package as Package_

seal_package_first_example :
    let lookup : ClassificationLookup = some paints in
    let env : Env = calm 10 in
    let in_tx : Bool = false in
    let id : PackageId = "box" in
    let task_id : TaskId = "packing" in
    let s : StationId = "bench" in
    let r : Package = sealed_paint in
    let contents : List String = "paint" ∷ "paint" ∷ [] in
    let w : World = floor in
    (t : Task) × (TaskRepo.find_by_id w.tasks task_id ≡ some t)
    × (t.task_type ≡ pack)
    × ((l : Lease) × (t.lease ≡ some l) × (l.station_id ≡ s))
    × SealedFor lookup t id task_id contents r
    × ((seal_package lookup env in_tx id task_id s contents w).1 ≡ with_sealed env w r)
unfolding seal_package PackageRepo.find_by_task_id TaskRepo.find_by_id TaskRepo.save TaskRepo.empty
    lookup insert string_discrete values scan_all lookup_hazard_class scan_item_with_class seal
    Package_.new find_task atomically publish save_package Package_.violates
    is_segregation_incompatible
seal_package_first_example =
    seal_package_first (some paints) (calm 10) false "box" "packing" "bench" sealed_paint
      ("paint" ∷ "paint" ∷ []) floor refl refl

seal_package_retry_example :
    let lookup : ClassificationLookup = none in
    let lookup' : ClassificationLookup = none in
    let env : Env = calm 10 in
    let env' : Env = calm 70 in
    let in_tx : Bool = false in
    let in_tx' : Bool = true in
    let id : PackageId = "box" in
    let id' : PackageId = "box-2" in
    let task_id : TaskId = "packing" in
    let s : StationId = "bench" in
    let s' : StationId = "other" in
    let r : Package = sealed_box in
    let contents : List String = "lamp" ∷ [] in
    let contents' : List String = [] in
    let w : World = floor in
    let w' = (seal_package lookup env in_tx id task_id s contents w).1 in
    seal_package lookup' env' in_tx' id' task_id s' contents' w' ≡ (ok r, w')
unfolding seal_package PackageRepo.find_by_task_id TaskRepo.find_by_id TaskRepo.save TaskRepo.empty
    lookup insert string_discrete values scan_all lookup_hazard_class scan_item_with_class seal
    Package_.new find_task atomically publish save_package
seal_package_retry_example =
    seal_package_retry none none (calm 10) (calm 70) false true "box" "box-2" "packing" "bench"
      "other" sealed_box ("lamp" ∷ []) [] floor refl (λ e. cc e) refl refl
