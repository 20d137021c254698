-- ===== src/Scenarios/Requests.antt =====
-- Tests of the REST interface (internal/adapters/inbound/http).
use fulfillment_execution.Prelude.{
  Bool, String, arith, false, lookup, refl, some, string_discrete, ◌<◌, ◌≡◌, ◌⊎◌,
}
use fulfillment_execution.Http.Errors.{status_for, write_error}
use fulfillment_execution.Http.Errors.Catalog.{IsInCatalog, IsServer, status_for_catalog}
use fulfillment_execution.Http.Handlers.{Handlers, answer, post_claim_next, respond, validated}
use fulfillment_execution.Http.Readiness.{ready}
use fulfillment_execution.Http.Requests.{validate_claim_next}
use fulfillment_execution.Http.Serving.{Call, readyz, serve}
use fulfillment_execution.Http.Serving.Failures.{failure_changes_nothing}
use fulfillment_execution.Http.Serving.ServerErrors.{no_server_error}
use fulfillment_execution.Scenarios.Samples.{desk, floor, new_task}
use fulfillment_execution.UseCases.ClaimNext.{claim_next}
use fulfillment_execution.UseCases.Effects.{AppError, World, no_claimable_task}
use fulfillment_execution.Memory.StationRepo as StationRepo

failure_changes_nothing_example :
    let h : Handlers = desk in
    let path : String = "/stations/nobody/claim-next" in
    let call : Call = Call.claim_next "nobody" (some (record { task_type = "PICK" })) in
    let w : World = floor in (serve h false path call w).1 ≡ w
unfolding serve post_claim_next validated validate_claim_next respond answer claim_next write_error
    status_for StationRepo.find_by_id lookup string_discrete
failure_changes_nothing_example =
    failure_changes_nothing desk "/stations/nobody/claim-next"
      (Call.claim_next "nobody" (some (record { task_type = "PICK" }))) floor refl refl
      (omega arith)

no_server_error_example :
    let h : Handlers = desk in
    let in_tx : Bool = false in
    let path : String = "/tasks" in
    let call : Call = Call.create (some new_task) in
    let w : World = floor in
    ((serve h in_tx path call w).0.status < 500)
    ⊎ ((call ≡ readyz) × (ready h.readiness ≡ false) × ((serve h in_tx path call w).0.status ≡ 503))
no_server_error_example =
    no_server_error desk false "/tasks" (Call.create (some new_task)) floor (λ c. refl)

status_for_catalog_example : let e : AppError = no_claimable_task in IsServer e ⊎ IsInCatalog e
status_for_catalog_example = status_for_catalog no_claimable_task
