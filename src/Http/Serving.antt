-- ===== src/Http/Serving.antt =====
-- internal/adapters/inbound/http/router.go: the routes, each with the handler that serves it.
pub mod Ensures
pub mod Failures
pub mod ServerErrors
use fulfillment_execution.Prelude.{String, Bool, true, false, Option}
use fulfillment_execution.Http.Requests.{
  CreateTaskRequest, ClaimNextRequest, RenewLeaseRequest, CompleteTaskRequest, SealPackageRequest,
  RunSlamRequest, RegisterStationRequest, CheckInStationRequest, ArriveAtRebinRequest,
}
use fulfillment_execution.Http.Handlers.{
  Handlers, Handler, post_task, post_claim_next, post_renew_lease, post_complete_task,
  post_seal_package, post_run_slam, get_package_handler, get_packages_handler,
  get_queue_depth_handler, get_installed_capacity_handler, get_tasks_handler, post_expire_leases,
  post_sweep_cpt_misses, post_register_station, get_healthz, get_readyz, post_check_in_station,
  post_check_out_station, post_arrive_at_rebin,
}

-- A request that the router has matched, with its path values or its query, and its decoded body.
pub data Call : Type 0 where
  -- GET /healthz
  healthz : Call
  -- GET /readyz
  readyz : Call
  -- POST /stations
  register : Option RegisterStationRequest → Call
  -- POST /tasks
  create : Option CreateTaskRequest → Call
  -- GET /tasks?orderRef=
  tasks : String → Call
  -- POST /stations/{stationId}/claim-next
  claim_next : String → Option ClaimNextRequest → Call
  -- POST /stations/{stationId}/check-in
  check_in : String → Option CheckInStationRequest → Call
  -- POST /stations/{stationId}/check-out
  check_out : String → Call
  -- POST /tasks/{id}/renew-lease
  renew_lease : String → Option RenewLeaseRequest → Call
  -- POST /tasks/{id}/complete
  complete : String → Option CompleteTaskRequest → Call
  -- POST /tasks/{id}/seal-package
  seal_package : String → Option SealPackageRequest → Call
  -- GET /packages?orderRef=
  packages : String → Call
  -- GET /packages/{id}
  one_package : String → Call
  -- POST /packages/{id}/slam
  slam : String → Option RunSlamRequest → Call
  -- GET /queues/{taskType}/depth
  queue_depth : String → Call
  -- GET /capacity/{capability}
  capacity : String → Call
  -- POST /tasks/expire-leases
  expire_leases : Call
  -- POST /tasks/sweep-cpt-misses
  sweep_cpt_misses : Call
  -- POST /rebin/arrivals
  arrivals : Option ArriveAtRebinRequest → Call

abbrev pub is_readyz : Call → Bool
is_readyz readyz = true
is_readyz _ = false

abbrev pub is_sweep : Call → Bool
is_sweep expire_leases = true
is_sweep sweep_cpt_misses = true
is_sweep _ = false

module _ (h : Handlers) (in_tx : Bool) (path : String) where
  unfoldable pub serve : Call → Handler
  serve healthz = get_healthz h in_tx path
  serve readyz = get_readyz h in_tx path
  serve (register body) = post_register_station h in_tx path body
  serve (create body) = post_task h in_tx path body
  serve (tasks order_ref) = get_tasks_handler h in_tx path order_ref
  serve (claim_next station_id body) = post_claim_next h in_tx path station_id body
  serve (check_in station_id body) = post_check_in_station h in_tx path station_id body
  serve (check_out station_id) = post_check_out_station h in_tx path station_id
  serve (renew_lease id body) = post_renew_lease h in_tx path id body
  serve (complete id body) = post_complete_task h in_tx path id body
  serve (seal_package id body) = post_seal_package h in_tx path id body
  serve (packages order_ref) = get_packages_handler h in_tx path order_ref
  serve (one_package id) = get_package_handler h in_tx path id
  serve (slam id body) = post_run_slam h in_tx path id body
  serve (queue_depth task_type) = get_queue_depth_handler h in_tx path task_type
  serve (capacity capability) = get_installed_capacity_handler h in_tx path capability
  serve expire_leases = post_expire_leases h in_tx path
  serve sweep_cpt_misses = post_sweep_cpt_misses h in_tx path
  serve (arrivals body) = post_arrive_at_rebin h in_tx path body
