-- ===== src/Http/Requests.antt =====
-- internal/adapters/inbound/http/dto.go: the request bodies, as the JSON decoder leaves them (a
-- field that is absent is its zero value), and their validation. An empty text says that nothing is
-- missing.
use fulfillment_execution.Prelude.{
  String, Bool, true, false, not, List, [], ◌∷◌, ◌==◌, ite, if◌then◌else◌, string_discrete,
}
use fulfillment_execution.Shared.{Time}
use fulfillment_execution.Shared.Events.{Float64}
use fulfillment_execution.Task.{pick, pack, slam, rebin}

pub record CreateTaskRequest : Type 0 where
  pub task_type : String
  pub cpt : Time
  pub order_ref : String
  pub required_capabilities : List String
  pub fragile : Bool

abbrev is_empty : String → Bool
is_empty text = ite (string_discrete text "") true false

abbrev has_none : List String → Bool
has_none [] = true
has_none (_ ∷ _) = false

unfoldable pub is_valid_task_type : String → Bool
is_valid_task_type v = ite (string_discrete v pick) true (
    ite (string_discrete v pack) true
      (ite (string_discrete v slam) true (ite (string_discrete v rebin) true false)))

-- `cpt.IsZero()` is that the instant is Go's zero time.
unfoldable pub validate_create_task : CreateTaskRequest → String
unfolding is_valid_task_type
validate_create_task r =
    if is_empty r.task_type
    then "type is required"
    else if not (is_valid_task_type r.task_type)
    then "type must be one of PICK, PACK, SLAM, REBIN"
    else if r.cpt == 0
    then "cpt is required"
    else if is_empty r.order_ref
    then "orderRef is required"
    else if has_none r.required_capabilities
    then "requiredCapabilities must contain at least one capability"
    else ""

pub record ClaimNextRequest : Type 0 where
  pub task_type : String

unfoldable pub validate_claim_next : ClaimNextRequest → String
validate_claim_next r = if is_empty r.task_type then "taskType is required" else ""

pub record RenewLeaseRequest : Type 0 where
  pub station_id : String

unfoldable pub validate_renew_lease : RenewLeaseRequest → String
validate_renew_lease r = if is_empty r.station_id then "stationId is required" else ""

pub record CompleteTaskRequest : Type 0 where
  pub station_id : String

unfoldable pub validate_complete_task : CompleteTaskRequest → String
validate_complete_task r = if is_empty r.station_id then "stationId is required" else ""

pub record SealPackageRequest : Type 0 where
  pub station_id : String
  pub contents : List String

unfoldable pub validate_seal_package : SealPackageRequest → String
validate_seal_package r = if is_empty r.station_id then "stationId is required" else ""

pub record RunSlamRequest : Type 0 where
  pub actual_weight : Float64
  pub expected_weight : Float64

pub record RegisterStationRequest : Type 0 where
  pub station_id : String
  pub capabilities : List String
  pub location_code : String

unfoldable pub validate_register_station : RegisterStationRequest → String
validate_register_station r =
    if is_empty r.station_id
    then "stationId is required"
    else if has_none r.capabilities
    then "capabilities must contain at least one capability"
    else ""

pub record CheckInStationRequest : Type 0 where
  pub occupant_id : String

unfoldable pub validate_check_in_station : CheckInStationRequest → String
validate_check_in_station r = if is_empty r.occupant_id then "occupantId is required" else ""

pub record ArriveAtRebinRequest : Type 0 where
  pub order_ref : String
  pub line_id : String
  pub required_line_ids : List String
  pub pack_cpt : Time
  pub pack_required_capabilities : List String
  pub pack_fragile : Bool
  pub pack_gift_wrap : Bool

unfoldable pub validate_arrive_at_rebin : ArriveAtRebinRequest → String
validate_arrive_at_rebin r =
    if is_empty r.order_ref
    then "orderRef is required"
    else if is_empty r.line_id
    then "lineId is required"
    else if has_none r.required_line_ids
    then "requiredLineIds must contain at least one line id"
    else if r.pack_cpt == 0
    then "packCpt is required"
    else if has_none r.pack_required_capabilities
    then "packRequiredCapabilities must contain at least one capability"
    else ""
