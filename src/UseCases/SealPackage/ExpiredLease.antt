-- ===== src/UseCases/SealPackage/ExpiredLease.antt =====
-- Sealing under a lease that has run out (internal/application/usecases/seal_package.go).
use fulfillment_execution.Prelude.{
  ℕ, ◌≤◌, ◌≡◌, refl, ap, ◌∙◌, ◌++◌, String, false, Option, none, some, List, [], ◌∷◌, arith,
}
use fulfillment_execution.Shared.{TaskId, PackageId}
use fulfillment_execution.Shared.Events.{package_sealed}
use fulfillment_execution.Task.{
  Task, TaskError, Lease, pack, claimed, not_claimed, complete, renew_lease,
}
use fulfillment_execution.Package.{Package, open_, sealed, new, scan_item_with_class, seal}
use fulfillment_execution.Task.Lifecycle.{expired_frees}
use fulfillment_execution.Memory.PackageRepo as PackageRepo
use fulfillment_execution.Memory.TaskRepo as TaskRepo
use fulfillment_execution.UseCases.Effects.{
  World, Env, PortCall, ok, publish, atomically, finds_package_of_task, finds_task, saves_package,
  publishes, begins, commits,
}
use fulfillment_execution.UseCases.TaskCalls.{find_task}
use fulfillment_execution.UseCases.RunSlam.{save_package}
use fulfillment_execution.UseCases.SealPackage.{
  lookup_hazard_class, scan_all, scan_and_seal, seal_new, seal_package,
}
use fulfillment_execution.UseCases.SealPackage.Scans.{scan_all-Extends}

-- Without classes every item of an open package is scanned.
scan_all-plain :
    (skus : List String) (p : Package)
    → p.status ≡ open_
    → ((scan_all none p skus).1 ≡ none) × ((scan_all none p skus).0.status ≡ open_)
unfolding scan_all lookup_hazard_class scan_item_with_class
scan_all-plain [] p o = (refl, o)
scan_all-plain (sku ∷ skus) p o =
    ground (arith, scan_all-plain skus (scan_item_with_class p sku 0).0)

sealed_plain :
    (skus : List String) (sku : String) (p : Package)
    → p.status ≡ open_
    → p.scanned_contents ≡ []
    → let q = (scan_all none p (sku ∷ skus)).0 in
      ((seal q).1 ≡ none)
      × ((seal q).0.status ≡ sealed)
      × ((seal q).0.scanned_contents ≡ sku ∷ skus)
unfolding seal
sealed_plain skus sku p o c =
    let (fine, still) = scan_all-plain (sku ∷ skus) p o in
    let x = scan_all-Extends none (sku ∷ skus) p fine in
    let all = x.contents ∙ ap (λ (l : List String). l ++ sku ∷ skus) c in
    (ground arith, ground arith, ground arith)

-- The lease's end plays no part in sealing: a station whose lease has run out, and which can no
-- longer complete or renew the task, still seals a package with the contents for it. Here no product
-- lookup is wired, no port fails, and the contents are not empty.
pub seal_package_expired_lease :
    (env : Env) (id : PackageId) (task_id : TaskId) (t : Task) (l : Lease) (d : ℕ) (sku : String)
    (skus : List String) (w : World)
    → ((c : PortCall) → env.fails c ≡ false)
    → PackageRepo.find_by_task_id w.packages task_id ≡ none
    → TaskRepo.find_by_id w.tasks task_id ≡ some t
    → t.task_type ≡ pack
    → t.status ≡ claimed
    → t.lease ≡ some l
    → l.expiry ≤ env.now
    → ((complete t l.station_id env.now).1 ≡ some not_claimed)
      × ((renew_lease t l.station_id env.now d).1 ≡ some not_claimed)
      × ((r : Package) × ((seal_package none env false id task_id l.station_id (sku ∷ skus) w).0
            ≡ ok r)
          × (r.status ≡ sealed)
          × (r.scanned_contents ≡ sku ∷ skus))
unfolding seal_package seal_new scan_and_seal find_task save_package publish atomically new
seal_package_expired_lease env id task_id t l d sku skus w quiet f found typed c e late =
    let (_, completes, renews, _) = expired_frees t l.station_id [] env.now d l c e late in
    let p = new id t.order_ref task_id t.fragile t.gift_wrap in
    let r = (seal (scan_all none p (sku ∷ skus)).0).0 in
    let (scanned, _) = scan_all-plain (sku ∷ skus) p refl in
    let (closed, done, all) = sealed_plain skus sku p refl refl in
    (
      ap (λ (x : Task × Option TaskError). x.1) completes,
      ap (λ (x : Task × Option TaskError). x.1) renews,
      (
        r,
        ground (
          arith,
          quiet (finds_package_of_task task_id),
          quiet (finds_task task_id),
          quiet (saves_package r.id),
          quiet (publishes (package_sealed r.id env.now ∷ [])),
          quiet begins,
          quiet commits,
        ),
        done,
        all,
      ),
    )
