-- ===== src/Http/Errors/Catalog.antt =====
-- That the two tables of internal/adapters/inbound/http/errors.go go together.
use fulfillment_execution.Prelude.{◌≡◌, refl, ◌⊎◌, inl, inr, ◌≤◌, ◌<◌, arith, In}
use fulfillment_execution.Task as Task
use fulfillment_execution.Station as Station
use fulfillment_execution.Package as Package
use fulfillment_execution.Consolidation as Consolidation
use fulfillment_execution.UseCases.Effects.{
  AppError, task_not_found, station_not_found, package_not_found, no_claimable_task,
  wrong_task_type, station_location_not_work_center, task_failed, station_failed, package_failed,
  consolidation_failed, unknown_path, not_cloud_event, bad_event_data, port_failed,
}
use fulfillment_execution.Http.Errors.{
  status_for, problem_catalog, problem_type_and_title, CatalogEntry, entry,
}

-- What the tables say of an error of the server, and of an error of the client.
abbrev pub IsServer : AppError → Type 0
IsServer e =
    (status_for e ≡ 500) × (problem_type_and_title e ≡ ("internal-error", "Internal server error"))

abbrev pub IsInCatalog : AppError → Type 0
IsInCatalog e =
    (400 ≤ status_for e)
    × (status_for e < 500)
    × (c : CatalogEntry) × In c problem_catalog
    × (c.err ≡ e)
    × (problem_type_and_title e ≡ (c.slug, c.title))

-- The two tables of errors go together: an error is answered either by 500 with the problem type
-- of an internal error, or by a status from 400 to 499 with the type and the title of its own entry
-- in the catalogue.
pub status_for_catalog : (e : AppError) → IsServer e ⊎ IsInCatalog e
unfolding status_for problem_type_and_title problem_catalog
status_for_catalog task_not_found = inr (
  omega arith,
  omega arith,
  entry task_not_found "task-not-found" "Task not found",
  inl refl,
  refl,
  refl,
)
status_for_catalog station_not_found = inr (
  omega arith,
  omega arith,
  entry station_not_found "station-not-found" "Station not found",
  inr (inl refl),
  refl,
  refl,
)
status_for_catalog package_not_found = inr (
  omega arith,
  omega arith,
  entry package_not_found "package-not-found" "Package not found",
  inr (inr (inl refl)),
  refl,
  refl,
)
status_for_catalog (task_failed Task.already_claimed) = inr (
  omega arith,
  omega arith,
  entry (task_failed Task.already_claimed) "task-already-claimed"
      "Task already claimed by another station",
  inr (inr (inr (inl refl))),
  refl,
  refl,
)
status_for_catalog (task_failed Task.already_completed) = inr (
  omega arith,
  omega arith,
  entry (task_failed Task.already_completed) "task-already-completed" "Task already completed",
  inr (inr (inr (inr (inl refl)))),
  refl,
  refl,
)
status_for_catalog (task_failed Task.not_claimed) = inr (
  omega arith,
  omega arith,
  entry (task_failed Task.not_claimed) "task-not-claimed" "Task is not currently claimed",
  inr (inr (inr (inr (inr (inl refl))))),
  refl,
  refl,
)
status_for_catalog (task_failed Task.not_owner) = inr (
  omega arith,
  omega arith,
  entry (task_failed Task.not_owner) "task-not-owner"
      "Station does not own the active claim on this task",
  inr (inr (inr (inr (inr (inr (inl refl)))))),
  refl,
  refl,
)
status_for_catalog (station_failed Station.occupied) = inr (
  omega arith,
  omega arith,
  entry (station_failed Station.occupied) "station-occupied" "Station is already occupied",
  inr (inr (inr (inr (inr (inr (inr (inl refl))))))),
  refl,
  refl,
)
status_for_catalog (station_failed Station.not_occupied) = inr (
  omega arith,
  omega arith,
  entry (station_failed Station.not_occupied) "station-not-occupied" "Station is not occupied",
  inr (inr (inr (inr (inr (inr (inr (inr (inl refl)))))))),
  refl,
  refl,
)
status_for_catalog (package_failed Package.already_sealed) = inr (
  omega arith,
  omega arith,
  entry (package_failed Package.already_sealed) "package-already-sealed" "Package already sealed",
  inr (inr (inr (inr (inr (inr (inr (inr (inr (inl refl))))))))),
  refl,
  refl,
)
status_for_catalog (package_failed Package.already_processed) = inr (
  omega arith,
  omega arith,
  entry (package_failed Package.already_processed) "package-already-processed"
      "Package SLAM already processed",
  inr (inr (inr (inr (inr (inr (inr (inr (inr (inr (inl refl)))))))))),
  refl,
  refl,
)
status_for_catalog (package_failed Package.not_sealed) = inr (
  omega arith,
  omega arith,
  entry (package_failed Package.not_sealed) "package-not-sealed"
      "Package must be sealed before SLAM",
  inr (inr (inr (inr (inr (inr (inr (inr (inr (inr (inr (inl refl))))))))))),
  refl,
  refl,
)
status_for_catalog (package_failed Package.package_segregation_violation) = inr (
  omega arith,
  omega arith,
  entry (package_failed Package.package_segregation_violation) "package-segregation-violation"
      "Scanned item's DOT hazard class is incompatible with an already-scanned item",
  inr (inr (inr (inr (inr (inr (inr (inr (inr (inr (inr (inr (inl refl)))))))))))),
  refl,
  refl,
)
status_for_catalog no_claimable_task = inr (
  omega arith,
  omega arith,
  entry no_claimable_task "no-claimable-task" "No claimable task for station capabilities",
  inr (inr (inr (inr (inr (inr (inr (inr (inr (inr (inr (inr (inr (inl refl))))))))))))),
  refl,
  refl,
)
status_for_catalog (task_failed Task.capability_mismatch) = inr (
  omega arith,
  omega arith,
  entry (task_failed Task.capability_mismatch) "task-capability-mismatch"
      "Station capabilities do not match task requirements",
  inr (inr (inr (inr (inr (inr (inr (inr (inr (inr (inr (inr (inr (inr (inl refl)))))))))))))),
  refl,
  refl,
)
status_for_catalog (station_failed Station.capability_mismatch) = inr (
  omega arith,
  omega arith,
  entry (station_failed Station.capability_mismatch) "station-capability-mismatch"
      "Capabilities do not match",
  inr (
      inr (inr (inr (inr (inr (inr (inr (inr (inr (inr (inr (inr (inr (inr (inl refl))))))))))))))),
  refl,
  refl,
)
status_for_catalog (package_failed Package.no_scanned_contents) = inr (
  omega arith,
  omega arith,
  entry (package_failed Package.no_scanned_contents) "package-no-scanned-contents"
      "Cannot seal a package without scanned contents",
  inr (
      inr (
        inr (
          inr (inr (inr (inr (inr (inr (inr (inr (inr (inr (inr (inr (inr (inl refl)))))))))))))))),
  refl,
  refl,
)
status_for_catalog (consolidation_failed Consolidation.unknown_line) = inr (
  omega arith,
  omega arith,
  entry (consolidation_failed Consolidation.unknown_line) "rebin-unknown-line"
      "Line is not part of this order's required consolidation set",
  inr (
      inr (
        inr (
          inr (
            inr (
              inr (inr (inr (inr (inr (inr (inr (inr (inr (inr (inr (inr (inl refl))))))))))))))))),
  refl,
  refl,
)
status_for_catalog wrong_task_type = inr (
  omega arith,
  omega arith,
  entry wrong_task_type "wrong-task-type" "Wrong task type for this operation",
  inr (
      inr (
        inr (
          inr (
            inr (
              inr (
                inr (
                  inr (inr (inr (inr (inr (inr (inr (inr (inr (inr (inr (inl refl)))))))))))))))))),
  refl,
  refl,
)
status_for_catalog station_location_not_work_center = inr (
  omega arith,
  omega arith,
  entry station_location_not_work_center "station-location-not-workcenter"
      "Station's locationCode does not resolve to a facility-layout WorkCenter",
  inr (
      inr (
        inr (
          inr (
            inr (
              inr (
                inr (
                  inr (
                    inr (
                      inr (inr (inr (inr (inr (inr (inr (inr (inr (inr (inl refl))))))))))))))))))),
  refl,
  refl,
)
status_for_catalog unknown_path = inl (refl, refl)
status_for_catalog not_cloud_event = inl (refl, refl)
status_for_catalog bad_event_data = inl (refl, refl)
status_for_catalog (port_failed _) = inl (refl, refl)
