-- ===== src/Shared/Events.antt =====
-- internal/domain/shared/events.go. The `base` name of an event is its constructor, and its
-- `At` is the last field. A weight is the bit pattern of a float64.
use fulfillment_execution.Prelude.{ℕ, String}

abbrev pub Float64 : Type 0
Float64 = ℕ

pub data DomainEvent : Type 0 where
  task_created : String → ℕ → DomainEvent
  task_claimed : String → String → ℕ → DomainEvent
  lease_expired : String → ℕ → DomainEvent
  task_completed : String → String → ℕ → DomainEvent
  item_picked : String → ℕ → DomainEvent
  package_sealed : String → ℕ → DomainEvent
  weight_discrepancy_detected : String → Float64 → Float64 → ℕ → DomainEvent
  label_applied : String → ℕ → DomainEvent
  package_diverted : String → ℕ → DomainEvent
  item_arrived_at_rebin : String → String → ℕ → DomainEvent
  order_consolidated : String → ℕ → DomainEvent
  task_cpt_missed : String → String → String → ℕ → ℕ → DomainEvent
  package_manifested : String → String → ℕ → DomainEvent

pub event_name : DomainEvent → String
event_name (task_created _ _) = "TaskCreated"
event_name (task_claimed _ _ _) = "TaskClaimed"
event_name (lease_expired _ _) = "LeaseExpired"
event_name (task_completed _ _ _) = "TaskCompleted"
event_name (item_picked _ _) = "ItemPicked"
event_name (package_sealed _ _) = "PackageSealed"
event_name (weight_discrepancy_detected _ _ _ _) = "WeightDiscrepancyDetected"
event_name (label_applied _ _) = "LabelApplied"
event_name (package_diverted _ _) = "PackageDiverted"
event_name (item_arrived_at_rebin _ _ _) = "ItemArrivedAtRebin"
event_name (order_consolidated _ _) = "OrderConsolidated"
event_name (task_cpt_missed _ _ _ _ _) = "TaskCPTMissed"
event_name (package_manifested _ _ _) = "PackageManifested"

pub occurred_at : DomainEvent → ℕ
occurred_at (task_created _ at) = at
occurred_at (task_claimed _ _ at) = at
occurred_at (lease_expired _ at) = at
occurred_at (task_completed _ _ at) = at
occurred_at (item_picked _ at) = at
occurred_at (package_sealed _ at) = at
occurred_at (weight_discrepancy_detected _ _ _ at) = at
occurred_at (label_applied _ at) = at
occurred_at (package_diverted _ at) = at
occurred_at (item_arrived_at_rebin _ _ at) = at
occurred_at (order_consolidated _ at) = at
occurred_at (task_cpt_missed _ _ _ _ at) = at
occurred_at (package_manifested _ _ at) = at
