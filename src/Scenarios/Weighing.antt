-- ===== src/Scenarios/Weighing.antt =====
-- Tests of RunSlam (internal/application/usecases/run_slam.go).
use fulfillment_execution.Prelude.{[], false, some, true, ◌∷◌, ◌≡◌}
use fulfillment_execution.Package.{FloatOps, Package, sealed}
use fulfillment_execution.Scenarios.Samples.{calm, floor, sealed_box, whole}
use fulfillment_execution.Shared.{PackageId}
use fulfillment_execution.Shared.Events.{Float64}
use fulfillment_execution.UseCases.Effects.{AppError, Env, World, err, ok}
use fulfillment_execution.UseCases.RunSlam.{run_slam}
use fulfillment_execution.UseCases.RunSlam.Outcomes.{LabeledOrDiverted, run_slam_outcome}
use fulfillment_execution.Memory.PackageRepo as PackageRepo

run_slam_outcome_example :
    let f : FloatOps = whole in
    let env : Env = calm 10 in
    let id : PackageId = "box" in
    let actual : Float64 = 4 in
    let expected : Float64 = 4 in
    let w : World = record floor { packages = ("box", sealed_box) ∷ [] } in
    ((run_slam f env false id actual expected w).0 ≡ ok tt
      → (p : Package) × (PackageRepo.find_by_id w.packages id ≡ some p)
        × (p.status ≡ sealed)
        × LabeledOrDiverted f env w p id actual expected
            (run_slam f env false id actual expected w).1)
    × ((e : AppError)
        → env.unit_of_work ≡ true
        → (run_slam f env false id actual expected w).0 ≡ err e
        → (run_slam f env false id actual expected w).1 ≡ w)
run_slam_outcome_example =
    run_slam_outcome whole (calm 10) "box" 4 4
      (record floor { packages = ("box", sealed_box) ∷ [] })
