-- ===== src/Http/Responses.antt =====
-- internal/adapters/inbound/http/handlers.go: the response bodies of tasks, packages and stations.
use fulfillment_execution.Prelude.{String, Option, none, some}
use fulfillment_execution.Shared.{Time}
use fulfillment_execution.Task as Task
use fulfillment_execution.Package as Package
use fulfillment_execution.Station as Station
use fulfillment_execution.Http.{TaskResponse, PackageResponse, StationResponse}

abbrev task_status_text : Task.Status → String
task_status_text Task.pending = "PENDING"
task_status_text Task.claimed = "CLAIMED"
task_status_text Task.completed = "COMPLETED"

abbrev package_status_text : Package.Status → String
package_status_text Package.open_ = "OPEN"
package_status_text Package.sealed = "SEALED"
package_status_text Package.labeled = "LABELED"
package_status_text Package.diverted = "DIVERTED"

abbrev sort_lane_text : Package.SortLane → String
sort_lane_text Package.hazmat_lane = "HAZMAT_LANE"
sort_lane_text Package.fragile_no_tilt = "FRAGILE_NO_TILT"
sort_lane_text Package.standard = "STANDARD"

abbrev lease_station : Option Task.Lease → Option String
lease_station none = none
lease_station (some lease) = some lease.station_id

abbrev lease_expiry_of : Option Task.Lease → Option Time
lease_expiry_of none = none
lease_expiry_of (some lease) = some lease.expiry

unfoldable pub to_task_response : Task.Task → TaskResponse
to_task_response t = record {
  id = t.id;
  task_type = t.task_type;
  status = task_status_text t.status;
  cpt = t.cpt.at;
  order_ref = t.order_ref;
  required_capabilities = t.required_capabilities;
  fragile = t.fragile;
  gift_wrap = t.gift_wrap;
  lease_station_id = lease_station t.lease;
  lease_expiry = lease_expiry_of t.lease;
}

unfoldable pub to_package_response : Package.Package → PackageResponse
unfolding Package.sort_lane
to_package_response p = record {
  id = p.id;
  order_ref = p.order_ref;
  status = package_status_text p.status;
  scanned_contents = p.scanned_contents;
  fragile_handling = p.fragile_handling;
  gift_wrap_requested = p.gift_wrap_requested;
  sort_lane = sort_lane_text (Package.sort_lane p);
}

unfoldable pub to_station_response : Station.Station → StationResponse
unfolding Station.is_occupied
to_station_response s = record {
  id = s.id;
  capabilities = s.capabilities;
  occupied = Station.is_occupied s;
  location_code = s.location_code;
}
