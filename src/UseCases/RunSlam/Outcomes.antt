-- ===== src/UseCases/RunSlam/Outcomes.antt =====
-- What the weigh-check does to the world (internal/application/usecases/run_slam.go).
use fulfillment_execution.Prelude.{
  ◌≡◌, ◌⊎◌, inl, inr, ◌++◌, true, false, some, List, [], ◌∷◌, arith, Option-cases, Bool-cases,
}
use fulfillment_execution.Shared.{PackageId}
use fulfillment_execution.Shared.Events.{
  Float64, DomainEvent, weight_discrepancy_detected, package_diverted, label_applied,
  package_manifested,
}
use fulfillment_execution.Package.{Package, FloatOps, weigh, deviation, sealed, labeled, diverted}
use fulfillment_execution.Memory.PackageRepo as PackageRepo
use fulfillment_execution.UseCases.Effects.{World, Env, ok, err, AppError}
use fulfillment_execution.UseCases.RunSlam.{run_slam}

-- The world in which the package is stored as it is after the weigh-check, and the events are told.
abbrev pub with_weighed : World → Package → List DomainEvent → World
with_weighed w p events = record w {
  packages = PackageRepo.save w.packages p;
  published = w.published ++ events;
}

-- Either the package carries its label, within the tolerance, and its label and its manifest are told,
-- or it is diverted, above the tolerance, and its discrepancy and its diversion are.
abbrev pub LabeledOrDiverted :
    FloatOps → Env → World → Package → PackageId → Float64 → Float64 → World → Type 0
LabeledOrDiverted f env w p id actual expected w' =
    ((f.less f.weight_tolerance (deviation f expected actual) ≡ false)
      × (w'
          ≡ with_weighed w (record p { status = labeled })
              (label_applied id env.now ∷ package_manifested id p.order_ref env.now ∷ [])))
    ⊎ ((f.less f.weight_tolerance (deviation f expected actual) ≡ true)
        × (w'
            ≡ with_weighed w (record p { status = diverted })
                (weight_discrepancy_detected id expected actual env.now
                  ∷ package_diverted id env.now
                  ∷ [])))

run_slam-ok :
    (f : FloatOps) (env : Env) (id : PackageId) (p : Package) (actual expected : Float64)
    (w : World)
    → PackageRepo.find_by_id w.packages id ≡ some p
    → (run_slam f env false id actual expected w).0 ≡ ok tt
    → (p.status ≡ sealed)
      × LabeledOrDiverted f env w p id actual expected (run_slam f env false id actual expected w).1
unfolding run_slam weigh
run_slam-ok f env id p actual expected w e h =
    elim (Bool-cases (f.less f.weight_tolerance (deviation f expected actual))) [
      | inl over ↦ (ground arith, inr (over, ground arith))
      | inr within ↦ (ground arith, inl (within, ground arith))
    ]

-- A weigh-check that succeeds found the package, which was sealed. Where the deviation of the weights
-- is not above the tolerance, the package is saved as labelled, and the label and then the manifest
-- are published; where it is above, the package is saved as diverted, and the discrepancy with both
-- weights and then the diversion are published. Nothing else changes. With a unit of work wired, a
-- weigh-check that fails has changed nothing.
pub run_slam_outcome :
    (f : FloatOps) (env : Env) (id : PackageId) (actual expected : Float64) (w : World)
    → ((run_slam f env false id actual expected w).0 ≡ ok tt
        → (p : Package) × (PackageRepo.find_by_id w.packages id ≡ some p)
          × (p.status ≡ sealed)
          × LabeledOrDiverted f env w p id actual expected
              (run_slam f env false id actual expected w).1)
      × ((e : AppError)
          → env.unit_of_work ≡ true
          → (run_slam f env false id actual expected w).0 ≡ err e
          → (run_slam f env false id actual expected w).1 ≡ w)
unfolding run_slam
run_slam_outcome f env id actual expected w =
    elim (Option-cases (PackageRepo.find_by_id w.packages id)) [
      | inl e ↦ (λ h. ground arith, λ x u h. ground arith)
      | inr (p, e) ↦ (
        λ h.
            let (ready, done) = run_slam-ok f env id p actual expected w e h in (p, e, ready, done),
        elim (Option-cases (weigh f p expected actual).2) [
          | inl c ↦ λ x u h. ground arith
          | inr (y, c) ↦ λ x u h. ground arith
        ],
      )
    ]
