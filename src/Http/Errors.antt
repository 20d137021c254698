-- ===== src/Http/Errors.antt =====
-- internal/adapters/inbound/http/errors.go: the status and the problem type of each error. The
-- text of an error, `err.Error()`, is the argument `message`.
pub mod Catalog
use fulfillment_execution.Prelude.{
  ℕ, String, Bool, true, false, Option, none, some, List, [], ◌∷◌, ◌==◌, if◌then◌else◌,
}
use fulfillment_execution.Task as Task
use fulfillment_execution.Station as Station
use fulfillment_execution.Package as Package
use fulfillment_execution.Consolidation as Consolidation
use fulfillment_execution.Http.{Response, write_problem}
use fulfillment_execution.UseCases.Effects.{
  AppError, task_not_found, station_not_found, package_not_found, no_claimable_task,
  wrong_task_type, station_location_not_work_center, task_failed, station_failed, package_failed,
  consolidation_failed, unknown_path, not_cloud_event, bad_event_data, port_failed,
}

-- The arms of the switch, from the top.
unfoldable pub status_for : AppError → ℕ
status_for task_not_found = 404
status_for station_not_found = 404
status_for package_not_found = 404
status_for (task_failed Task.already_claimed) = 409
status_for (task_failed Task.already_completed) = 409
status_for (task_failed Task.not_claimed) = 409
status_for (task_failed Task.not_owner) = 409
status_for (station_failed Station.occupied) = 409
status_for (station_failed Station.not_occupied) = 409
status_for (package_failed Package.already_sealed) = 409
status_for (package_failed Package.already_processed) = 409
status_for (package_failed Package.not_sealed) = 409
status_for (package_failed Package.package_segregation_violation) = 409
status_for no_claimable_task = 409
status_for (task_failed Task.capability_mismatch) = 422
status_for (station_failed Station.capability_mismatch) = 422
status_for (package_failed Package.no_scanned_contents) = 422
status_for (consolidation_failed Consolidation.unknown_line) = 422
status_for wrong_task_type = 422
status_for station_location_not_work_center = 422
status_for unknown_path = 500
status_for not_cloud_event = 500
status_for bad_event_data = 500
status_for (port_failed _) = 500

-- Which `var Err… = errors.New(…)` an error is or wraps, of those that the table probes.
abbrev pub identity : AppError → ℕ
identity task_not_found = 1
identity station_not_found = 2
identity package_not_found = 3
identity (task_failed Task.already_claimed) = 4
identity (task_failed Task.already_completed) = 5
identity (task_failed Task.not_claimed) = 6
identity (task_failed Task.not_owner) = 7
identity (task_failed Task.capability_mismatch) = 8
identity (station_failed Station.occupied) = 9
identity (station_failed Station.not_occupied) = 10
identity (station_failed Station.capability_mismatch) = 11
identity (package_failed Package.already_sealed) = 12
identity (package_failed Package.already_processed) = 13
identity (package_failed Package.not_sealed) = 14
identity (package_failed Package.package_segregation_violation) = 15
identity (package_failed Package.no_scanned_contents) = 16
identity (consolidation_failed Consolidation.unknown_line) = 17
identity no_claimable_task = 18
identity wrong_task_type = 19
identity station_location_not_work_center = 20
identity unknown_path = 21
identity not_cloud_event = 22
identity bad_event_data = 23
identity (port_failed _) = 24

-- `errors.Is`, where the second error is one of the table's
abbrev pub is : AppError → AppError → Bool
is e target = identity e == identity target

pub record CatalogEntry : Type 0 where
  pub err : AppError
  pub slug : String
  pub title : String

abbrev pub entry : AppError → String → String → CatalogEntry
entry err slug title = record { err = err; slug = slug; title = title }

unfoldable pub problem_catalog : List CatalogEntry
problem_catalog =
    entry task_not_found "task-not-found" "Task not found"
    ∷ entry station_not_found "station-not-found" "Station not found"
    ∷ entry package_not_found "package-not-found" "Package not found"
    ∷ entry (task_failed Task.already_claimed) "task-already-claimed"
        "Task already claimed by another station"
    ∷ entry (task_failed Task.already_completed) "task-already-completed" "Task already completed"
    ∷ entry (task_failed Task.not_claimed) "task-not-claimed" "Task is not currently claimed"
    ∷ entry (task_failed Task.not_owner) "task-not-owner"
        "Station does not own the active claim on this task"
    ∷ entry (station_failed Station.occupied) "station-occupied" "Station is already occupied"
    ∷ entry (station_failed Station.not_occupied) "station-not-occupied" "Station is not occupied"
    ∷ entry (package_failed Package.already_sealed) "package-already-sealed"
        "Package already sealed"
    ∷ entry (package_failed Package.already_processed) "package-already-processed"
        "Package SLAM already processed"
    ∷ entry (package_failed Package.not_sealed) "package-not-sealed"
        "Package must be sealed before SLAM"
    ∷ entry (package_failed Package.package_segregation_violation) "package-segregation-violation"
        "Scanned item's DOT hazard class is incompatible with an already-scanned item"
    ∷ entry no_claimable_task "no-claimable-task" "No claimable task for station capabilities"
    ∷ entry (task_failed Task.capability_mismatch) "task-capability-mismatch"
        "Station capabilities do not match task requirements"
    ∷ entry (station_failed Station.capability_mismatch) "station-capability-mismatch"
        "Capabilities do not match"
    ∷ entry (package_failed Package.no_scanned_contents) "package-no-scanned-contents"
        "Cannot seal a package without scanned contents"
    ∷ entry (consolidation_failed Consolidation.unknown_line) "rebin-unknown-line"
        "Line is not part of this order's required consolidation set"
    ∷ entry wrong_task_type "wrong-task-type" "Wrong task type for this operation"
    ∷ entry station_location_not_work_center "station-location-not-workcenter"
        "Station's locationCode does not resolve to a facility-layout WorkCenter"
    ∷ []

-- The loop over the table.
unfoldable pub probe : AppError → List CatalogEntry → String × String
probe err [] = ("internal-error", "Internal server error")
probe err (e ∷ es) = let later = probe err es in if is err e.err then (e.slug, e.title) else later

unfoldable pub problem_type_and_title : AppError → String × String
unfolding probe problem_catalog
problem_type_and_title err = probe err problem_catalog

unfoldable pub write_error : (AppError → String) → String → AppError → Response
unfolding status_for problem_type_and_title
write_error message path err =
    let (slug, title) = problem_type_and_title err in
    write_problem (status_for err) slug title (message err) path

abbrev pub write_bad_request : String → String → Response
write_bad_request path detail =
    write_problem 400 "invalid-request" "The request is malformed or missing a required field"
      detail path

abbrev pub write_bad_request_no_instance : String → Response
write_bad_request_no_instance detail = write_bad_request "" detail
