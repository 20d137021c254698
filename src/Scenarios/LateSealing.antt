-- ===== src/Scenarios/LateSealing.antt =====
-- A test of SealPackage under a lease that has run out.
use fulfillment_execution.Prelude.{
  List, String, [], arith, false, insert, lookup, none, refl, some, string_discrete, values, ℕ, ◌∷◌,
  ◌≡◌,
}
use fulfillment_execution.Package.{Package, sealed}
use fulfillment_execution.Scenarios.Samples.{calm, floor, packing}
use fulfillment_execution.Shared.{PackageId, TaskId}
use fulfillment_execution.Task.{Lease, Task, complete, not_claimed, renew_lease}
use fulfillment_execution.UseCases.Effects.{Env, World, ok}
use fulfillment_execution.UseCases.SealPackage.{seal_package}
use fulfillment_execution.UseCases.SealPackage.ExpiredLease.{seal_package_expired_lease}
use fulfillment_execution.Memory.PackageRepo as PackageRepo
use fulfillment_execution.Memory.TaskRepo as TaskRepo

seal_package_expired_lease_example :
    let env : Env = calm 60 in
    let id : PackageId = "box" in
    let task_id : TaskId = "packing" in
    let t : Task = packing in
    let l : Lease = record { station_id = "bench"; expiry = 50 } in
    let d : ℕ = 30 in
    let sku : String = "lamp" in
    let skus : List String = "mug" ∷ [] in
    let w : World = floor in
    ((complete t l.station_id env.now).1 ≡ some not_claimed)
    × ((renew_lease t l.station_id env.now d).1 ≡ some not_claimed)
    × ((r : Package) × ((seal_package none env false id task_id l.station_id (sku ∷ skus) w).0
          ≡ ok r)
        × (r.status ≡ sealed)
        × (r.scanned_contents ≡ sku ∷ skus))
unfolding PackageRepo.find_by_task_id TaskRepo.find_by_id TaskRepo.save TaskRepo.empty lookup insert
    string_discrete values
seal_package_expired_lease_example =
    seal_package_expired_lease (calm 60) "box" "packing" packing
      (record { station_id = "bench"; expiry = 50 }) 30 "lamp" ("mug" ∷ []) floor (λ c. refl) refl
      refl refl refl refl (omega arith)
