-- ===== src/UseCases/RunSlam.antt =====
-- internal/application/usecases/run_slam.go: the weigh-check of a sealed package.
pub mod Outcomes
use fulfillment_execution.Prelude.{Bool, true, false, List, [], ◌∷◌}
use fulfillment_execution.Shared.{PackageId}
use fulfillment_execution.Shared.Events.{
  Float64, DomainEvent, weight_discrepancy_detected, package_diverted, label_applied,
  package_manifested,
}
use fulfillment_execution.Package.{Package, FloatOps, weigh}
use fulfillment_execution.Memory.PackageRepo as PackageRepo
use fulfillment_execution.UseCases.Effects.{
  World, Env, M, ◌>>=◌, ◌>>◌, get, put, or_fail, refuse, calls, publish, atomically, finds_package,
  saves_package, package_not_found, package_failed,
}

-- `uc.Packages.FindById`, and the error for a package that is not there
unfoldable pub find_package : Env → PackageId → M Package
find_package env id = do
  calls env (finds_package id)
  w ← get
  or_fail (PackageRepo.find_by_id w.packages id) package_not_found

-- `uc.Packages.Save`
unfoldable pub save_package : Env → Package → M (Unit {0})
save_package env p = do
  calls env (saves_package p.id)
  put λ w. record w { packages = PackageRepo.save w.packages p }

abbrev pub slam_events : Env → Package → Bool → PackageId → Float64 → Float64 → List DomainEvent
slam_events env p false package_id expected actual =
    weight_discrepancy_detected package_id expected actual env.now
    ∷ package_diverted package_id env.now
    ∷ []
slam_events env p true package_id expected actual =
    label_applied package_id env.now ∷ package_manifested package_id p.order_ref env.now ∷ []

unfoldable pub run_slam : FloatOps → Env → Bool → PackageId → Float64 → Float64 → M (Unit {0})
unfolding find_package save_package atomically publish
run_slam f env in_tx package_id actual expected = do
  p ← find_package env package_id
  let weighed = weigh f p expected actual
  refuse package_failed weighed.2
  atomically env in_tx λ _.
      save_package env weighed.0
      >> publish env (slam_events env weighed.0 weighed.1 package_id expected actual)
