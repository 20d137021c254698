-- ===== src/Http.antt =====
-- internal/adapters/inbound/http (dto.go, errors.go): what a response is. A JSON body is the value
-- that is encoded; the encoder is Go's.
pub mod Errors
pub mod Readiness
pub mod Requests
pub mod Responses
pub mod Handlers
pub mod Serving
pub mod Routing
use fulfillment_execution.Prelude.{ℕ, String, Bool, Option, none, some, List}
use fulfillment_execution.Shared.{Time}

pub record TaskResponse : Type 0 where
  pub id : String
  pub task_type : String
  pub status : String
  pub cpt : Time
  pub order_ref : String
  pub required_capabilities : List String
  pub fragile : Bool
  pub gift_wrap : Bool
  pub lease_station_id : Option String
  pub lease_expiry : Option Time

pub record PackageResponse : Type 0 where
  pub id : String
  pub order_ref : String
  pub status : String
  pub scanned_contents : List String
  pub fragile_handling : Bool
  pub gift_wrap_requested : Bool
  pub sort_lane : String

pub record StationResponse : Type 0 where
  pub id : String
  pub capabilities : List String
  pub occupied : Bool
  pub location_code : String

-- RFC 7807; the `type` is the base URI followed by the slug.
pub record Problem : Type 0 where
  pub slug : String
  pub title : String
  pub status : ℕ
  pub detail : String
  pub instance_path : String

pub data Body : Type 0 where
  no_body : Body
  problem_body : Problem → Body
  task_body : TaskResponse → Body
  tasks_body : List TaskResponse → Body
  package_body : PackageResponse → Body
  packages_body : List PackageResponse → Body
  station_body : StationResponse → Body
  queue_depth_body installed_capacity_body : String → ℕ → Body
  freed_body reported_body : ℕ → Body
  -- {"status": …}
  status_body : String → Body

pub record Response : Type 0 where
  pub status : ℕ
  pub content_type : Option String
  pub location : Option String
  pub body : Body

-- `w.WriteHeader(status)` and nothing else
abbrev pub write_header : ℕ → Response
write_header status = record {
  status = status;
  content_type = none;
  location = none;
  body = Body.no_body;
}

abbrev pub write_problem : ℕ → String → String → String → String → Response
write_problem status slug title detail instance_path = record {
  status = status;
  content_type = some "application/problem+json";
  location = none;
  body = Body.problem_body (record {
    slug = slug;
    title = title;
    status = status;
    detail = detail;
    instance_path = instance_path;
  });
}

abbrev pub write_json : ℕ → Body → Response
write_json status body = record {
  status = status;
  content_type = some "application/json";
  location = none;
  body = body;
}

abbrev pub write_created : String → Body → Response
write_created location body = record {
  status = 201;
  content_type = some "application/json";
  location = some location;
  body = body;
}
