-- ===== src/Analytics/Consumer.antt =====
-- internal/adapters/inbound/kafka/analytics_consumer.go: one message of the analytics topic. Decoding
-- is the CloudEvents SDK's, an argument; `faults` says which calls fail, with their texts.
pub mod Deliveries
use fulfillment_execution.Prelude.{
  String, Bool, true, false, Option, none, some, List, [], ◌∷◌, ite, string_discrete, if◌then◌else◌,
  ◌≡◌, refl, ◌≢◌, In, arith,
}
use fulfillment_execution.Shared.{Time}
use fulfillment_execution.Memory.ProcessedEvents as ProcessedEvents
use fulfillment_execution.Analytics.{ClaimSeconds, MemoryStore}
use fulfillment_execution.Analytics.Events.{
  Projected, task_claimed, task_completed, lease_expired, weight_discrepancy, package_manifested,
  apply,
}

pub record AnalyticsData : Type 0 where
  pub task_id : String
  pub task_type : String
  pub station_id : String
  pub package_id : String
  pub on_time : Bool
  pub resolved : Bool

-- A decoded event; its payload is `none` where it does not decode.
pub record CloudEvent : Type 0 where
  pub id : String
  pub event_type : String
  pub time : Time
  pub payload : Option AnalyticsData

-- The five types that project.
pub data EventType : Type 0 where
  of_task_claimed of_task_completed of_lease_expired of_weight_discrepancy of_package_manifested :
      EventType
  other : EventType

abbrev same_text : String → String → Bool
same_text text name = ite (string_discrete text name) true false

unfoldable pub event_type_of : String → EventType
event_type_of text =
    if same_text text "com.warehouse.wes.fulfillment-execution.task.TaskClaimed"
    then EventType.of_task_claimed
    else if same_text text "com.warehouse.wes.fulfillment-execution.task.TaskCompleted"
    then EventType.of_task_completed
    else if same_text text "com.warehouse.wes.fulfillment-execution.task.LeaseExpired"
    then EventType.of_lease_expired
    else if same_text text
        "com.warehouse.wes.fulfillment-execution.package.WeightDiscrepancyDetected"
    then EventType.of_weight_discrepancy
    else if same_text text "com.warehouse.wes.fulfillment-execution.package.PackageManifested"
    then EventType.of_package_manifested
    else EventType.other

-- The second switch: the call of the projection, if there is one.
unfoldable pub projection_of : EventType → CloudEvent → AnalyticsData → Option Projected
projection_of EventType.of_task_claimed e d =
    some (task_claimed e.id d.task_id d.task_type d.station_id e.time)
projection_of EventType.of_task_completed e d =
    some (task_completed e.id d.task_id d.task_type d.station_id e.time)
projection_of EventType.of_lease_expired e d =
    some (lease_expired e.id d.task_id d.task_type d.station_id e.time)
projection_of EventType.of_weight_discrepancy e d =
    some (weight_discrepancy e.id "SLAM" d.station_id e.time)
projection_of EventType.of_package_manifested e d =
    if d.resolved
    then some (package_manifested e.id d.task_type d.station_id e.time d.on_time)
    else none
projection_of EventType.other e d = none

pub record Faults : Type 0 where
  pub mark_processed : Option String
  pub projection : Option String

-- The ids that were handled, and the read model.
abbrev pub State : Type 0
State = List String × MemoryStore

abbrev pub apply_projection :
    ClaimSeconds → Faults → Option Projected → State → Option String × State
apply_projection f faults none s = (none, s)
apply_projection f faults (some p) s = elim faults.projection [
  | some e ↦ (some e, s)
  | none ↦ (none, (s.0, apply f p s.1))
]

abbrev pub decode_data :
    ClaimSeconds → Faults → EventType → CloudEvent → State → Option String × State
decode_data f faults ty e s = elim e.payload [
  | none ↦ (some "analytics: decode data", s)
  | some d ↦ apply_projection f faults (projection_of ty e d) s
]

abbrev pub mark_then :
    ClaimSeconds → Faults → EventType → CloudEvent → State → Option String × State
mark_then f faults EventType.other e s = (none, s)
mark_then f faults ty e s = elim faults.mark_processed [
  | some x ↦ (some x, s)
  | none ↦ elim (ProcessedEvents.mark_processed s.0 e.id).1 [
    | false ↦ (none, ((ProcessedEvents.mark_processed s.0 e.id).0, s.1))
    | true ↦ decode_data f faults ty e ((ProcessedEvents.mark_processed s.0 e.id).0, s.1)
  ]
]

unfoldable pub handle_message :
    ClaimSeconds → (String → Option CloudEvent) → Faults → String → State → Option String × State
unfolding event_type_of projection_of
handle_message f decode faults raw s = elim (decode raw) [
  | none ↦ (some "analytics: not a CloudEvent", s)
  | some e ↦ mark_then f faults (event_type_of e.event_type) e s
]
