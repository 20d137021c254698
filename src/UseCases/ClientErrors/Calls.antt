-- ===== src/UseCases/ClientErrors/Calls.antt =====
-- Each use case, while no port fails (internal/application/usecases).
use fulfillment_execution.Prelude.{
  ℕ, ◌+◌, String, Bool, true, false, not, Option, none, some, List, [], ◌∷◌, ℤ, arith,
}
use fulfillment_execution.Shared.{TaskId, StationId, PackageId, OrderRef, Cpt, Time}
use fulfillment_execution.Shared.Capabilities.{Capability, CapabilitySet}
use fulfillment_execution.Shared.Events.{Float64, package_sealed}
use fulfillment_execution.Task.{Task, TaskType, claim, expire_lease_if_due, not_owner}
use fulfillment_execution.Station.{Station, OccupantId}
use fulfillment_execution.Package.{Package, FloatOps, seal}
use fulfillment_execution.Consolidation.{OrderConsolidation, is_complete, record_arrival}
use fulfillment_execution.Memory.ConsolidationRepo as ConsolidationRepo
use fulfillment_execution.Memory.TaskRepo as TaskRepo
use fulfillment_execution.Memory.StationRepo as StationRepo
use fulfillment_execution.Memory.PackageRepo as PackageRepo
use fulfillment_execution.UseCases.Effects.{
  World, Result, ok, err, Env, M, finds_task, saves_task, finds_station, finds_package,
  finds_package_of_task, finds_consolidation, lists_claimable, claims_task, lists_claimed,
  lists_overdue, task_not_found, station_not_found, package_not_found, no_claimable_task,
  wrong_task_type, station_location_not_work_center, task_failed, station_failed, package_failed,
  consolidation_failed,
}
use fulfillment_execution.UseCases.TaskCalls.{
  create_task, complete_task, renew_lease, find_task, save_task,
}
use fulfillment_execution.UseCases.ClaimNext.{
  claim_next, try_candidates, persist_claim, save_claim, claim_and_publish,
}
use fulfillment_execution.UseCases.SealPackage.{
  ClassificationLookup, seal_package, seal_new, scan_and_seal, holds_lease, or_seal, scan_all,
}
use fulfillment_execution.UseCases.RunSlam.{run_slam, find_package, save_package}
use fulfillment_execution.UseCases.Stations.{
  LocationRoleLookup, register_station, check_in_station, check_out_station, find_station,
  save_station, wrong_location,
}
use fulfillment_execution.UseCases.ArriveAtRebin.{
  PackPlan, arrive_at_rebin, settle, save_consolidation, or_new,
}
use fulfillment_execution.UseCases.Sweeps.{
  Counted, counted, counting, expire_leases, free_each, free_one, sweep_cpt_misses, report_each,
  report_one,
}
use fulfillment_execution.UseCases.Reads.{
  get_queue_depth, get_installed_capacity, get_package, get_packages_by_order_ref,
  get_tasks_by_order_ref,
}
use fulfillment_execution.Http.Errors.{status_for}
use fulfillment_execution.UseCases.ClientErrors.{
  OfClient, fail-IsClient, elim-IsClient, refused-IsClient, if-IsClient, Calm, IsClient,
  bind-IsClient, pure-IsClient, put-IsClient, read-IsClient, refuse-IsClient, or_fail-IsClient,
  calls-IsClient, publish-IsClient, atomically-IsClient, task_client, station_client,
  package_client, consolidation_client,
}

or_seal-IsClient :
    (existing : Option Package) {fresh : M Package}
    → IsClient fresh
    → IsClient (or_seal existing fresh)
or_seal-IsClient (some p) q = pure-IsClient p
or_seal-IsClient none q = q

elim-holds :
    {X : Type 0} (P : X → Type 0) (b : Bool) (x y : X)
    → P x
    → P y
    → P (elim b [ true ↦ x | false ↦ y ])
elim-holds P true x y p q = p
elim-holds P false x y p q = q

counted-OfClient :
    (r : Result (Unit {0})) (n : ℕ) (rest : ℕ → Counted) (w : World)
    → OfClient r
    → ((w' : World) → OfClient (rest (n + 1) w').1)
    → OfClient (counted r n rest w).1
counted-OfClient (ok a) n rest w p q = q w
counted-OfClient (err e) n rest w p q = p

counting-OfClient :
    (scope : M (Unit {0})) (n : ℕ) (rest : ℕ → Counted) (w : World)
    → IsClient scope
    → ((w' : World) → OfClient (rest (n + 1) w').1)
    → OfClient (counting scope n rest w).1
counting-OfClient scope n rest w p q =
    counted-OfClient (scope w).0 n rest (scope w).1 (p.of_client w) q

module _ (env : Env) (calm : Calm env) where
  find_task-IsClient : (id : TaskId) → IsClient (find_task env id)
  unfolding find_task status_for
  find_task-IsClient id = bind-IsClient (calls-IsClient env calm (finds_task id)) λ _.
      read-IsClient
        λ w. or_fail-IsClient (TaskRepo.find_by_id w.tasks id) task_not_found (omega arith)

  save_task-IsClient : (t : Task) → IsClient (save_task env t)
  unfolding save_task
  save_task-IsClient t =
      bind-IsClient (calls-IsClient env calm (saves_task t.id)) λ _. put-IsClient _

  pub create_task-IsClient :
      (in_tx : Bool) (id : TaskId) (ty : TaskType) (cpt : Cpt) (ref : OrderRef)
      (caps : CapabilitySet) (f g : Bool)
      → IsClient (create_task env in_tx id ty cpt ref caps f g)
  unfolding create_task
  create_task-IsClient in_tx id ty cpt ref caps f g =
      bind-IsClient
        (atomically-IsClient env calm in_tx _
          λ _. bind-IsClient (save_task-IsClient _) λ _. publish-IsClient env calm _)
        λ _. pure-IsClient _

  pub complete_task-IsClient :
      (in_tx : Bool) (id : TaskId) (s : StationId) → IsClient (complete_task env in_tx id s)
  unfolding complete_task
  complete_task-IsClient in_tx id s = bind-IsClient (find_task-IsClient id) λ t.
      bind-IsClient (refuse-IsClient task_failed task_client _) λ _.
        atomically-IsClient env calm in_tx _
          λ _. bind-IsClient (save_task-IsClient _) λ _. publish-IsClient env calm _

  pub renew_lease-IsClient :
      (d : ℤ) (id : TaskId) (s : StationId) → IsClient (renew_lease env d id s)
  unfolding renew_lease
  renew_lease-IsClient d id s =
      bind-IsClient (find_task-IsClient id)
        λ t. bind-IsClient (refuse-IsClient task_failed task_client _) λ _. save_task-IsClient _

  find_station-IsClient : (id : StationId) → IsClient (find_station env id)
  unfolding find_station status_for
  find_station-IsClient id = bind-IsClient (calls-IsClient env calm (finds_station id)) λ _.
      read-IsClient
        λ w. or_fail-IsClient (StationRepo.find_by_id w.stations id) station_not_found (omega arith)

  save_station-IsClient : (s : Station) → IsClient (save_station env s)
  unfolding save_station
  save_station-IsClient s = bind-IsClient (calls-IsClient env calm _) λ _. put-IsClient _

  pub check_in_station-IsClient :
      (id : StationId) (who : OccupantId) → IsClient (check_in_station env id who)
  unfolding check_in_station
  check_in_station-IsClient id who = bind-IsClient (find_station-IsClient id) λ s.
      bind-IsClient (refuse-IsClient station_failed station_client _)
        λ _. bind-IsClient (save_station-IsClient _) λ _. pure-IsClient _

  pub check_out_station-IsClient : (id : StationId) → IsClient (check_out_station env id)
  unfolding check_out_station
  check_out_station-IsClient id = bind-IsClient (find_station-IsClient id) λ s.
      bind-IsClient (refuse-IsClient station_failed station_client _)
        λ _. bind-IsClient (save_station-IsClient _) λ _. pure-IsClient _

  pub register_station-IsClient :
      (lookup : LocationRoleLookup) (id : StationId) (caps : List Capability) (location : String)
      → IsClient (register_station lookup env id caps location)
  unfolding register_station status_for
  register_station-IsClient lookup id caps location =
      if-IsClient (wrong_location lookup location)
        (fail-IsClient station_location_not_work_center (omega arith))
        (bind-IsClient (save_station-IsClient _) λ _. pure-IsClient _)

  find_package-IsClient : (id : PackageId) → IsClient (find_package env id)
  unfolding find_package status_for
  find_package-IsClient id = bind-IsClient (calls-IsClient env calm (finds_package id)) λ _.
      read-IsClient
        λ w. or_fail-IsClient (PackageRepo.find_by_id w.packages id) package_not_found (omega arith)

  save_package-IsClient : (p : Package) → IsClient (save_package env p)
  unfolding save_package
  save_package-IsClient p = bind-IsClient (calls-IsClient env calm _) λ _. put-IsClient _

  pub run_slam-IsClient :
      (f : FloatOps) (in_tx : Bool) (id : PackageId) (actual expected : Float64)
      → IsClient (run_slam f env in_tx id actual expected)
  unfolding run_slam
  run_slam-IsClient f in_tx id actual expected = bind-IsClient (find_package-IsClient id) λ p.
      bind-IsClient (refuse-IsClient package_failed package_client _) λ _.
        atomically-IsClient env calm in_tx _
          λ _. bind-IsClient (save_package-IsClient _) λ _. publish-IsClient env calm _

  save_claim-IsClient : (t : Task) (now : Time) → IsClient (save_claim env t now)
  unfolding save_claim
  save_claim-IsClient t now = record { of_client = λ w. rw (calm (claims_task t.id)) tt }

  claim_and_publish-IsClient :
      (t : Task) (s : StationId) (now : Time) → IsClient (claim_and_publish env t s now)
  unfolding claim_and_publish
  claim_and_publish-IsClient t s now = bind-IsClient (save_claim-IsClient t now) λ won.
      elim-IsClient won (bind-IsClient (publish-IsClient env calm _) λ _. pure-IsClient true)
        (pure-IsClient false)

  persist_claim-IsClient :
      (in_tx : Bool) (t : Task) (s : StationId) (now : Time)
      → IsClient (persist_claim env in_tx t s now)
  unfolding persist_claim
  persist_claim-IsClient in_tx t s now =
      atomically-IsClient env calm in_tx _ λ _. claim_and_publish-IsClient t s now

  try_candidates-IsClient :
      (in_tx : Bool) (s : StationId) (caps : CapabilitySet) (now : Time) (d : ℕ) (ts : List Task)
      → IsClient (try_candidates env in_tx s caps now d ts)
  unfolding try_candidates status_for
  try_candidates-IsClient in_tx s caps now d [] = fail-IsClient no_claimable_task (omega arith)
  try_candidates-IsClient in_tx s caps now d (t ∷ ts) =
      let rest = try_candidates-IsClient in_tx s caps now d ts in
      refused-IsClient (claim t s caps now d).1
        (bind-IsClient (persist_claim-IsClient in_tx _ s now)
          λ won. elim-IsClient won (pure-IsClient _) rest)
        rest

  pub claim_next-IsClient :
      (in_tx : Bool) (d : ℤ) (s : StationId) (ty : TaskType)
      → IsClient (claim_next env in_tx d s ty)
  unfolding claim_next status_for
  claim_next-IsClient in_tx d s ty = bind-IsClient (calls-IsClient env calm (finds_station s)) λ _.
      read-IsClient λ w.
        bind-IsClient
          (or_fail-IsClient (StationRepo.find_by_id w.stations s) station_not_found (omega arith))
          λ st.
            bind-IsClient (calls-IsClient env calm (lists_claimable ty))
              λ _. try_candidates-IsClient in_tx s st.capabilities env.now _ _

  scan_and_seal-IsClient :
      (lookup : ClassificationLookup) (in_tx : Bool) (p : Package) (contents : List String)
      → IsClient (scan_and_seal lookup env in_tx p contents)
  unfolding scan_and_seal
  scan_and_seal-IsClient lookup in_tx p contents =
      let scanned = scan_all lookup p contents in
      let sealed = seal scanned.0 in
      bind-IsClient (refuse-IsClient package_failed package_client scanned.1) λ _.
        bind-IsClient (refuse-IsClient package_failed package_client sealed.1) λ _.
          bind-IsClient
            (atomically-IsClient env calm in_tx _ λ _.
              bind-IsClient (save_package-IsClient sealed.0)
                λ _. publish-IsClient env calm (package_sealed sealed.0.id env.now ∷ []))
            λ _. pure-IsClient sealed.0

  seal_new-IsClient :
      (lookup : ClassificationLookup) (in_tx : Bool) (id : PackageId) (task_id : TaskId)
      (s : StationId) (contents : List String)
      → IsClient (seal_new lookup env in_tx id task_id s contents)
  unfolding seal_new status_for
  seal_new-IsClient lookup in_tx id task_id s contents =
      bind-IsClient (find_task-IsClient task_id) λ t.
        if-IsClient _ (fail-IsClient wrong_task_type (omega arith)) (
          if-IsClient (not (holds_lease t.lease s))
            (fail-IsClient (task_failed not_owner) (omega arith))
            (scan_and_seal-IsClient lookup in_tx _ contents))

  pub seal_package-IsClient :
      (lookup : ClassificationLookup) (in_tx : Bool) (id : PackageId) (task_id : TaskId)
      (s : StationId) (contents : List String)
      → IsClient (seal_package lookup env in_tx id task_id s contents)
  unfolding seal_package
  seal_package-IsClient lookup in_tx id task_id s contents =
      bind-IsClient (calls-IsClient env calm (finds_package_of_task task_id)) λ _.
        read-IsClient λ w.
          or_seal-IsClient (PackageRepo.find_by_task_id w.packages task_id)
            (seal_new-IsClient lookup in_tx id task_id s contents)

  save_consolidation-IsClient : (oc : OrderConsolidation) → IsClient (save_consolidation env oc)
  unfolding save_consolidation
  save_consolidation-IsClient oc = bind-IsClient (calls-IsClient env calm _) λ _. put-IsClient _

  settle-IsClient :
      (oc : OrderConsolidation) (ref : OrderRef) (line : String) (plan : PackPlan) (in_tx : Bool)
      → IsClient (settle env oc ref line plan in_tx)
  unfolding settle
  settle-IsClient oc ref line plan in_tx = bind-IsClient (save_consolidation-IsClient oc) λ _.
      bind-IsClient (publish-IsClient env calm _) λ _.
        elim-IsClient (is_complete oc)
          (bind-IsClient (create_task-IsClient in_tx _ _ _ _ _ _ _)
            λ _. publish-IsClient env calm _)
          (pure-IsClient tt)

  pub arrive_at_rebin-IsClient :
      (in_tx : Bool) (ref : OrderRef) (line : String) (ids : List String) (plan : PackPlan)
      → IsClient (arrive_at_rebin env in_tx ref line ids plan)
  unfolding arrive_at_rebin
  arrive_at_rebin-IsClient in_tx ref line ids plan =
      bind-IsClient (calls-IsClient env calm (finds_consolidation ref)) λ _. read-IsClient λ w.
        let oc = or_new (ConsolidationRepo.find_by_order_ref w.consolidations ref) ref ids in
        bind-IsClient
          (refuse-IsClient consolidation_failed consolidation_client (record_arrival oc line).1)
          λ _. elim-IsClient (is_complete oc) (pure-IsClient tt) (
            atomically-IsClient env calm in_tx _
              (settle-IsClient (record_arrival oc line).0 ref line plan))

  pub get_queue_depth-IsClient : (ty : TaskType) → IsClient (get_queue_depth env ty)
  unfolding get_queue_depth
  get_queue_depth-IsClient ty =
      bind-IsClient (calls-IsClient env calm _) λ _. read-IsClient λ w. pure-IsClient _

  pub get_installed_capacity-IsClient : (c : Capability) → IsClient (get_installed_capacity env c)
  unfolding get_installed_capacity
  get_installed_capacity-IsClient c =
      bind-IsClient (calls-IsClient env calm _) λ _. read-IsClient λ w. pure-IsClient _

  pub get_package-IsClient : (id : PackageId) → IsClient (get_package env id)
  unfolding get_package
  get_package-IsClient id = find_package-IsClient id

  pub get_packages-IsClient : (ref : OrderRef) → IsClient (get_packages_by_order_ref env ref)
  unfolding get_packages_by_order_ref
  get_packages-IsClient ref =
      bind-IsClient (calls-IsClient env calm _) λ _. read-IsClient λ w. pure-IsClient _

  pub get_tasks-IsClient : (ref : OrderRef) → IsClient (get_tasks_by_order_ref env ref)
  unfolding get_tasks_by_order_ref
  get_tasks-IsClient ref =
      bind-IsClient (calls-IsClient env calm _) λ _. read-IsClient λ w. pure-IsClient _

  free_each-OfClient :
      (in_tx : Bool) (ts : List Task) (n : ℕ) (w : World) → OfClient (free_each env in_tx ts n w).1
  unfolding free_each free_one
  free_each-OfClient in_tx [] n w = tt
  free_each-OfClient in_tx (t ∷ ts) n w =
      elim-holds (λ (x : ℕ × Result (Unit {0}) × World). OfClient x.1)
        (expire_lease_if_due t env.now).1 _ _
        (counting-OfClient (free_one env in_tx t) n (free_each env in_tx ts) w
          (atomically-IsClient env calm in_tx _
            λ _. bind-IsClient (save_task-IsClient _) λ _. publish-IsClient env calm _)
          (λ w'. free_each-OfClient in_tx ts (n + 1) w'))
        (free_each-OfClient in_tx ts n w)

  pub expire_leases-OfClient : (in_tx : Bool) (w : World) → OfClient (expire_leases env in_tx w).1
  unfolding expire_leases
  expire_leases-OfClient in_tx w = rw (calm lists_claimed) (free_each-OfClient in_tx _ 0 w)

  report_each-OfClient :
      (in_tx : Bool) (ts : List Task) (n : ℕ) (w : World)
      → OfClient (report_each env in_tx ts n w).1
  unfolding report_each report_one
  report_each-OfClient in_tx [] n w = tt
  report_each-OfClient in_tx (t ∷ ts) n w =
      counting-OfClient (report_one env in_tx t) n (report_each env in_tx ts) w
        (atomically-IsClient env calm in_tx _ λ _. publish-IsClient env calm _)
        (λ w'. report_each-OfClient in_tx ts (n + 1) w')

  pub sweep_cpt_misses-OfClient :
      (in_tx : Bool) (w : World) → OfClient (sweep_cpt_misses env in_tx w).1
  unfolding sweep_cpt_misses
  sweep_cpt_misses-OfClient in_tx w = rw (calm lists_overdue) (report_each-OfClient in_tx _ 0 w)
