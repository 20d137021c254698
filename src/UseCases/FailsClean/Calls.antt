-- ===== src/UseCases/FailsClean/Calls.antt =====
-- Each use case that a station or an upstream service calls, under a unit of work
-- (internal/application/usecases).
use fulfillment_execution.Prelude.{
  ℕ, ◌≡◌, String, true, false, not, Option, none, some, List, [], ◌∷◌, ℤ, arith,
}
use fulfillment_execution.Shared.{TaskId, StationId, PackageId, OrderRef}
use fulfillment_execution.Shared.Capabilities.{Capability, CapabilitySet}
use fulfillment_execution.Task.{Task, TaskType, claim, not_owner}
use fulfillment_execution.Package.{Package, seal}
use fulfillment_execution.Memory.TaskRepo as TaskRepo
use fulfillment_execution.Memory.StationRepo as StationRepo
use fulfillment_execution.Memory.PackageRepo as PackageRepo
use fulfillment_execution.UseCases.Effects.{
  World, ok, Env, M, finds_station, finds_package, finds_package_of_task, lists_claimable,
  station_not_found, package_not_found, no_claimable_task, wrong_task_type, task_failed,
  package_failed, atomically,
}
use fulfillment_execution.UseCases.TaskCalls.{find_task}
use fulfillment_execution.UseCases.ClaimNext.{
  claim_next, try_candidates, persist_claim, save_claim, claim_and_publish,
}
use fulfillment_execution.UseCases.SealPackage.{
  ClassificationLookup, seal_package, seal_new, scan_and_seal, holds_lease, or_seal, scan_all,
}
use fulfillment_execution.UseCases.RunSlam.{find_package}
use fulfillment_execution.UseCases.Reads.{
  get_queue_depth, get_installed_capacity, get_package, get_packages_by_order_ref,
  get_tasks_by_order_ref,
}
use fulfillment_execution.UseCases.FailsClean.{
  FailsClean, Reads, read_then-FailsClean, then_pure-FailsClean, pure-FailsClean, fail-FailsClean,
  if-FailsClean, get_then-FailsClean, calls-Reads, or_fail-Reads, or_fail-FailsClean,
  retry-FailsClean, refused-FailsClean, refuse-Reads, atomically-FailsClean,
}

module _ (env : Env) where
  pub get_queue_depth-FailsClean : (ty : TaskType) → FailsClean (get_queue_depth env ty)
  unfolding get_queue_depth
  get_queue_depth-FailsClean ty =
      read_then-FailsClean (calls-Reads env _) λ _. get_then-FailsClean λ w. pure-FailsClean _

  pub get_installed_capacity-FailsClean :
      (c : Capability) → FailsClean (get_installed_capacity env c)
  unfolding get_installed_capacity
  get_installed_capacity-FailsClean c =
      read_then-FailsClean (calls-Reads env _) λ _. get_then-FailsClean λ w. pure-FailsClean _

  pub get_package-FailsClean : (id : PackageId) → FailsClean (get_package env id)
  unfolding get_package find_package
  get_package-FailsClean id = read_then-FailsClean (calls-Reads env (finds_package id)) λ _.
      get_then-FailsClean
        λ w. or_fail-FailsClean (PackageRepo.find_by_id w.packages id) package_not_found

  pub get_packages-FailsClean : (ref : OrderRef) → FailsClean (get_packages_by_order_ref env ref)
  unfolding get_packages_by_order_ref
  get_packages-FailsClean ref =
      read_then-FailsClean (calls-Reads env _) λ _. get_then-FailsClean λ w. pure-FailsClean _

  pub get_tasks-FailsClean : (ref : OrderRef) → FailsClean (get_tasks_by_order_ref env ref)
  unfolding get_tasks_by_order_ref
  get_tasks-FailsClean ref =
      read_then-FailsClean (calls-Reads env _) λ _. get_then-FailsClean λ w. pure-FailsClean _

  find_task-Reads : (id : TaskId) → Reads (find_task env id)
  unfolding find_task
  find_task-Reads id = record { same = λ w. ground arith }

module _ (env : Env) (unit : env.unit_of_work ≡ true) where
  scan_and_seal-FailsClean :
      (lookup : ClassificationLookup) (p : Package) (contents : List String)
      → FailsClean (scan_and_seal lookup env false p contents)
  unfolding scan_and_seal
  scan_and_seal-FailsClean lookup p contents =
      let scanned = scan_all lookup p contents in
      let sealed = seal scanned.0 in
      read_then-FailsClean (refuse-Reads package_failed scanned.1) λ _.
        read_then-FailsClean (refuse-Reads package_failed sealed.1)
          λ _. then_pure-FailsClean (λ _. sealed.0) (atomically-FailsClean env _ unit)

  seal_new-FailsClean :
      (lookup : ClassificationLookup) (id : PackageId) (task_id : TaskId) (s : StationId)
      (contents : List String)
      → FailsClean (seal_new lookup env false id task_id s contents)
  unfolding seal_new
  seal_new-FailsClean lookup id task_id s contents =
      read_then-FailsClean (find_task-Reads env task_id) λ t.
        if-FailsClean _ (fail-FailsClean wrong_task_type) (
          if-FailsClean (not (holds_lease t.lease s)) (fail-FailsClean (task_failed not_owner))
            (scan_and_seal-FailsClean lookup _ contents))

  or_seal-FailsClean :
      (existing : Option Package) {fresh : M Package}
      → FailsClean fresh
      → FailsClean (or_seal existing fresh)
  or_seal-FailsClean (some p) q = pure-FailsClean p
  or_seal-FailsClean none q = q

  pub seal_package-FailsClean :
      (lookup : ClassificationLookup) (id : PackageId) (task_id : TaskId) (s : StationId)
      (contents : List String)
      → FailsClean (seal_package lookup env false id task_id s contents)
  unfolding seal_package
  seal_package-FailsClean lookup id task_id s contents =
      read_then-FailsClean (calls-Reads env (finds_package_of_task task_id)) λ _.
        get_then-FailsClean λ w.
          or_seal-FailsClean (PackageRepo.find_by_task_id w.packages task_id)
            (seal_new-FailsClean lookup id task_id s contents)

  -- A claim that is not won has changed nothing, and neither has one that failed.
  persisted :
      (t : Task) (s : StationId) (w : World)
      → (persist_claim env false t s env.now w).0 ≡ ok false
      → (persist_claim env false t s env.now w).1 ≡ w
  unfolding persist_claim atomically claim_and_publish save_claim TaskRepo.save_claim
  persisted t s w h = ground arith

  persist_claim-FailsClean :
      (t : Task) (s : StationId) → FailsClean (persist_claim env false t s env.now)
  unfolding persist_claim
  persist_claim-FailsClean t s =
      atomically-FailsClean env (λ _. claim_and_publish env t s env.now) unit

  try_candidates-FailsClean :
      (s : StationId) (caps : CapabilitySet) (d : ℕ) (ts : List Task)
      → FailsClean (try_candidates env false s caps env.now d ts)
  unfolding try_candidates
  try_candidates-FailsClean s caps d [] = fail-FailsClean no_claimable_task
  try_candidates-FailsClean s caps d (t ∷ ts) =
      let rest = try_candidates-FailsClean s caps d ts in
      let claimed = (claim t s caps env.now d).0 in
      refused-FailsClean (claim t s caps env.now d).1
        (retry-FailsClean claimed _ rest (persist_claim-FailsClean claimed s) (persisted claimed s))
        rest

  pub claim_next-FailsClean :
      (d : ℤ) (s : StationId) (ty : TaskType) → FailsClean (claim_next env false d s ty)
  unfolding claim_next
  claim_next-FailsClean d s ty = read_then-FailsClean (calls-Reads env (finds_station s)) λ _.
      get_then-FailsClean λ w.
        read_then-FailsClean (or_fail-Reads (StationRepo.find_by_id w.stations s) station_not_found)
          λ st.
            read_then-FailsClean (calls-Reads env (lists_claimable ty))
              λ _. try_candidates-FailsClean s st.capabilities _ _
