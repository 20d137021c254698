-- ===== src/UseCases/SealPackage.antt =====
-- internal/application/usecases/seal_package.go: scanning an order's contents and sealing them.
-- The classification of a product by the inventory service is an argument: a lookup that failed
-- is `none`. The id that `NewId` makes is an argument.
pub mod Scans
pub mod Declared
pub mod Outcomes
pub mod ExpiredLease
use fulfillment_execution.Prelude.{
  ℕ, String, Bool, true, false, not, ◌||◌, Option, none, some, List, [], ◌∷◌, if◌then◌else◌, ite,
  string_discrete,
}
use fulfillment_execution.Shared.{TaskId, StationId, PackageId}
use fulfillment_execution.Shared.Events.{package_sealed}
use fulfillment_execution.Task.{Task, Lease, not_owner}
use fulfillment_execution.Task as Task
use fulfillment_execution.Package.{Package, PackageError, new, scan_item_with_class, seal}
use fulfillment_execution.Memory.PackageRepo as PackageRepo
use fulfillment_execution.UseCases.Effects.{
  World, Env, M, ◌>>=◌, ◌>>◌, pure, fail, get, refuse, calls, publish, atomically,
  finds_package_of_task, wrong_task_type, task_failed, package_failed,
}
use fulfillment_execution.UseCases.TaskCalls.{find_task}
use fulfillment_execution.UseCases.RunSlam.{save_package}

pub record ProductClassification : Type 0 where
  pub known : Bool
  pub hazmat : Bool
  pub dot_hazard_class : ℕ

-- `none` where no lookup is wired; the lookup answers `none` where it fails.
abbrev pub ClassificationLookup : Type 0
ClassificationLookup = Option (String → Option ProductClassification)

abbrev class_of : Option ProductClassification → ℕ
class_of none = 0
class_of (some info) = if not info.known || not info.hazmat then 0 else info.dot_hazard_class

unfoldable pub lookup_hazard_class : ClassificationLookup → String → ℕ
lookup_hazard_class none sku = 0
lookup_hazard_class (some get_classification) sku = class_of (get_classification sku)

-- The loop over the contents: the package up to the first refusal, and that refusal.
unfoldable pub scan_all :
    ClassificationLookup → Package → List String → Package × Option PackageError
scan_all lookup p [] = (p, none)
scan_all lookup p (sku ∷ skus) =
    let (scanned, refusal) = scan_item_with_class p sku (lookup_hazard_class lookup sku) in
    elim refusal [ some e ↦ (scanned, some e) | none ↦ scan_all lookup scanned skus ]

-- `lease == nil || lease.StationId != stationId`
abbrev pub holds_lease : Option Lease → StationId → Bool
holds_lease none station_id = false
holds_lease (some l) station_id = ite (string_discrete l.station_id station_id) true false

-- The part of `Execute` from its `pack.New` on.
unfoldable pub scan_and_seal : ClassificationLookup → Env → Bool → Package → List String → M Package
scan_and_seal lookup env in_tx p contents = do
  let scanned = scan_all lookup p contents
  refuse package_failed scanned.1
  refuse package_failed (seal scanned.0).1
  atomically env in_tx λ _.
      save_package env (seal scanned.0).0
      >> publish env (package_sealed (seal scanned.0).0.id env.now ∷ [])
  pure (seal scanned.0).0

-- The part of `Execute` behind its search for a package that was sealed before.
unfoldable pub seal_new :
    ClassificationLookup → Env → Bool → PackageId → TaskId → StationId → List String → M Package
unfolding find_task scan_and_seal
seal_new lookup env in_tx new_id task_id station_id contents = do
  t ← find_task env task_id
  if ite (string_discrete t.task_type Task.pack) false true
      then fail wrong_task_type
      else if not (holds_lease t.lease station_id)
      then fail (task_failed not_owner)
      else scan_and_seal lookup env in_tx (new new_id t.order_ref task_id t.fragile t.gift_wrap)
          contents

-- `else if existing != nil { return existing, nil }`
abbrev pub or_seal : Option Package → M Package → M Package
or_seal (some existing) fresh = pure existing
or_seal none fresh = fresh

unfoldable pub seal_package :
    ClassificationLookup → Env → Bool → PackageId → TaskId → StationId → List String → M Package
unfolding seal_new
seal_package lookup env in_tx new_id task_id station_id contents = do
  calls env (finds_package_of_task task_id)
  w ← get
  or_seal (PackageRepo.find_by_task_id w.packages task_id)
      (seal_new lookup env in_tx new_id task_id station_id contents)
