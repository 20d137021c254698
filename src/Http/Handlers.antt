-- ===== src/Http/Handlers.antt =====
-- internal/adapters/inbound/http/handlers.go: one function for each endpoint. A body is what the
-- JSON decoder made of it, `none` where it refused it; the path values are those that the router
-- found. `in_tx` says whether the request's context carries a transaction.
use fulfillment_execution.Prelude.{
  ℕ, String, Bool, false, not, if◌then◌else◌, Option, none, some, map, ite, string_discrete, ℤ,
}
use Prim.Native.String.{◌++◌}
use fulfillment_execution.Shared.{TaskId, PackageId, new_cpt}
use fulfillment_execution.Shared.Capabilities.{new_capability_set}
use fulfillment_execution.Package.{FloatOps}
use fulfillment_execution.UseCases.Effects.{World, Env, M, Result, ok, err, AppError}
use fulfillment_execution.UseCases.TaskCalls.{create_task, complete_task, renew_lease}
use fulfillment_execution.UseCases.ClaimNext.{claim_next}
use fulfillment_execution.UseCases.SealPackage.{ClassificationLookup, seal_package}
use fulfillment_execution.UseCases.RunSlam.{run_slam}
use fulfillment_execution.UseCases.Sweeps.{Counted, expire_leases, sweep_cpt_misses}
use fulfillment_execution.UseCases.Stations.{
  LocationRoleLookup, register_station, check_in_station, check_out_station,
}
use fulfillment_execution.UseCases.ArriveAtRebin.{PackPlan, arrive_at_rebin}
use fulfillment_execution.UseCases.Reads.{
  get_queue_depth, get_installed_capacity, get_package, get_packages_by_order_ref,
  get_tasks_by_order_ref,
}
use fulfillment_execution.Http.{
  Response, write_header, write_json, write_created, task_body, tasks_body, package_body,
  packages_body, station_body, queue_depth_body, installed_capacity_body, freed_body, reported_body,
  status_body,
}
use fulfillment_execution.Http.Readiness.{Readiness, ready}
use fulfillment_execution.Http.Errors.{
  write_error, write_bad_request, write_bad_request_no_instance,
}
use fulfillment_execution.Http.Requests.{
  CreateTaskRequest, validate_create_task, ClaimNextRequest, validate_claim_next, RenewLeaseRequest,
  validate_renew_lease, CompleteTaskRequest, validate_complete_task, SealPackageRequest,
  validate_seal_package, RunSlamRequest, RegisterStationRequest, validate_register_station,
  CheckInStationRequest, validate_check_in_station, ArriveAtRebinRequest, validate_arrive_at_rebin,
}
use fulfillment_execution.Http.Responses.{
  to_task_response, to_package_response, to_station_response,
}

-- What the use cases are wired with, the ids that `NewId` makes in the request, and `err.Error()`.
pub record Handlers : Type 0 where
  pub env : Env
  pub claim_lease_duration : ℤ
  pub renew_lease_duration : ℤ
  pub classifications : ClassificationLookup
  pub location_roles : LocationRoleLookup
  pub float_ops : FloatOps
  pub new_task_id : TaskId
  pub new_package_id : PackageId
  pub message : AppError → String
  -- `none` is nil
  pub readiness : Option Readiness

abbrev pub Handler : Type 0
Handler = World → Response × World

-- `if err != nil { writeError(w, r, err); return }`, and the response otherwise.
unfoldable pub answer : {A : Type 0} → Handlers → String → (A → Response) → Result A → Response
answer h path done (ok a) = done a
answer h path done (err e) = write_error h.message path e

unfoldable pub respond : {A : Type 0} → Handlers → String → (A → Response) → M A → Handler
respond h path done m w = let (r, w') = m w in (answer h path done r, w')

abbrev pub respond_counted : Handlers → String → (ℕ → Response) → Counted → Handler
respond_counted h path done m w =
    let (n, r, w') = m w in (answer h path (λ (_ : Unit {0}). done n) r, w')

abbrev pub refuse_with : Response → Handler
refuse_with response w = (response, w)

-- The decoding and the validation at the head of a handler.
unfoldable pub validated :
    {R : Type 0} → (String → Response) → (R → String) → Option R → (R → Handler) → Handler
validated bad_request validate none rest = refuse_with (bad_request "invalid request body")
validated bad_request validate (some req) rest =
    ite (string_discrete (validate req) "") (rest req) (refuse_with (bad_request (validate req)))

module _ (h : Handlers) (in_tx : Bool) (path : String) where
  unfoldable pub post_task : Option CreateTaskRequest → Handler
  unfolding validate_create_task create_task
  post_task body = validated write_bad_request_no_instance validate_create_task body λ req.
      respond h path (λ t. write_created ("/tasks/" ++ t.id) (task_body (to_task_response t)))
        (create_task h.env in_tx h.new_task_id req.task_type (new_cpt req.cpt) req.order_ref
          (new_capability_set req.required_capabilities) req.fragile false)

  unfoldable pub post_claim_next : String → Option ClaimNextRequest → Handler
  post_claim_next station_id body =
      validated (write_bad_request path) validate_claim_next body λ req.
        respond h path (λ t. write_json 200 (task_body (to_task_response t)))
          (claim_next h.env in_tx h.claim_lease_duration station_id req.task_type)

  unfoldable pub post_renew_lease : String → Option RenewLeaseRequest → Handler
  post_renew_lease task_id body =
      validated (write_bad_request path) validate_renew_lease body λ req.
        respond h path (λ _. write_header 204)
          (renew_lease h.env h.renew_lease_duration task_id req.station_id)

  unfoldable pub post_complete_task : String → Option CompleteTaskRequest → Handler
  post_complete_task task_id body =
      validated (write_bad_request path) validate_complete_task body λ req.
        respond h path (λ _. write_header 204) (complete_task h.env in_tx task_id req.station_id)

  unfoldable pub post_seal_package : String → Option SealPackageRequest → Handler
  post_seal_package task_id body =
      validated (write_bad_request path) validate_seal_package body λ req.
        respond h path
          (λ p. write_created ("/packages/" ++ p.id) (package_body (to_package_response p)))
          (seal_package h.classifications h.env in_tx h.new_package_id task_id req.station_id
            req.contents)

  unfoldable pub post_run_slam : String → Option RunSlamRequest → Handler
  post_run_slam package_id none = refuse_with (write_bad_request path "invalid request body")
  post_run_slam package_id (some req) =
      respond h path (λ _. write_header 204)
        (run_slam h.float_ops h.env in_tx package_id req.actual_weight req.expected_weight)

  unfoldable pub get_package_handler : String → Handler
  get_package_handler package_id =
      respond h path (λ p. write_json 200 (package_body (to_package_response p)))
        (get_package h.env package_id)

  unfoldable pub get_packages_handler : String → Handler
  get_packages_handler order_ref =
      ite (string_discrete order_ref "")
        (refuse_with (write_bad_request path "orderRef is required"))
        (respond h path (λ ps. write_json 200 (packages_body (map to_package_response ps)))
          (get_packages_by_order_ref h.env order_ref))

  unfoldable pub get_queue_depth_handler : String → Handler
  get_queue_depth_handler task_type =
      respond h path (λ depth. write_json 200 (queue_depth_body task_type depth))
        (get_queue_depth h.env task_type)

  unfoldable pub get_installed_capacity_handler : String → Handler
  get_installed_capacity_handler capability =
      respond h path (λ installed. write_json 200 (installed_capacity_body capability installed))
        (get_installed_capacity h.env capability)

  unfoldable pub get_tasks_handler : String → Handler
  get_tasks_handler order_ref =
      ite (string_discrete order_ref "")
        (refuse_with (write_bad_request path "orderRef is required"))
        (respond h path (λ ts. write_json 200 (tasks_body (map to_task_response ts)))
          (get_tasks_by_order_ref h.env order_ref))

  unfoldable pub post_expire_leases : Handler
  post_expire_leases =
      respond_counted h path (λ freed. write_json 200 (freed_body freed))
        (expire_leases h.env in_tx)

  unfoldable pub post_sweep_cpt_misses : Handler
  post_sweep_cpt_misses =
      respond_counted h path (λ reported. write_json 200 (reported_body reported))
        (sweep_cpt_misses h.env in_tx)

  unfoldable pub post_register_station : Option RegisterStationRequest → Handler
  post_register_station body =
      validated write_bad_request_no_instance validate_register_station body λ req.
        respond h path
          (λ s. write_created ("/stations/" ++ s.id) (station_body (to_station_response s)))
          (register_station h.location_roles h.env req.station_id req.capabilities
            req.location_code)

  unfoldable pub get_healthz : Handler
  get_healthz w = (write_header 200, w)

  -- readiness.go
  unfoldable pub get_readyz : Handler
  get_readyz w =
      if not (ready h.readiness)
      then (write_json 503 (status_body "not_ready"), w)
      else (write_json 200 (status_body "ready"), w)

  unfoldable pub post_check_in_station : String → Option CheckInStationRequest → Handler
  post_check_in_station station_id body =
      validated (write_bad_request path) validate_check_in_station body λ req.
        respond h path (λ s. write_json 200 (station_body (to_station_response s)))
          (check_in_station h.env station_id req.occupant_id)

  unfoldable pub post_check_out_station : String → Handler
  post_check_out_station station_id =
      respond h path (λ s. write_json 200 (station_body (to_station_response s)))
        (check_out_station h.env station_id)

  abbrev pack_plan : ArriveAtRebinRequest → PackPlan
  pack_plan req = record {
    id = h.new_task_id;
    cpt = new_cpt req.pack_cpt;
    required = new_capability_set req.pack_required_capabilities;
    fragile = req.pack_fragile;
    gift_wrap = req.pack_gift_wrap;
  }

  unfoldable pub post_arrive_at_rebin : Option ArriveAtRebinRequest → Handler
  post_arrive_at_rebin body =
      validated write_bad_request_no_instance validate_arrive_at_rebin body λ req.
        respond h path (λ _. write_header 204)
          (arrive_at_rebin h.env in_tx req.order_ref req.line_id req.required_line_ids
            (pack_plan req))
