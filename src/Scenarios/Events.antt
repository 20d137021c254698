-- ===== src/Scenarios/Events.antt =====
-- Tests of the WorkReleased consumer (internal/adapters/inbound/kafka/consumer.go).
use fulfillment_execution.Prelude.{String, arith, refl, string_discrete, ◌≡◌}
use fulfillment_execution.Scenarios.Samples.{feed, floor, release}
use fulfillment_execution.Shared.Capabilities.{contains, new_capability_set}
use fulfillment_execution.UseCases.Effects.{World, atomically, publish}
use fulfillment_execution.UseCases.TaskCalls.{create_task, save_task}
use fulfillment_execution.WorkReleased.{
  Consumer, WorkReleasedData, decode_work_released, handle_claimed_event, handle_message_with_retry,
  mark_processed,
}
use fulfillment_execution.WorkReleased.Delivery.{
  Outcome, handle_message_creates_once, redelivery_creates_none, tries,
}
use fulfillment_execution.Memory.ProcessedEvents as ProcessedEvents
use fulfillment_execution.PathCatalog as PathCatalog

handle_message_creates_once_example :
    let c : Consumer = feed in
    let raw : String = "message" in
    let id : String = "event" in
    let d : WorkReleasedData = release in
    let w : World = floor in Outcome c id d w (handle_message_with_retry c raw w)
unfolding decode_work_released string_discrete
handle_message_creates_once_example =
    handle_message_creates_once feed "message" "event" release floor refl
      (λ max op w. (max, omega arith, refl)) (λ max op w. (max, omega arith, refl)) (λ i. refl)

redelivery_creates_none_example :
    let c : Consumer = feed in
    let c' : Consumer = feed in
    let raw : String = "message" in
    let raw' : String = "message" in
    let w : World = floor in
    let first = (handle_message_with_retry c raw w).1 in
    let second = (handle_message_with_retry c' raw' first).1 in
    (second.tasks ≡ first.tasks) × (second.published ≡ first.published)
unfolding decode_work_released string_discrete handle_message_with_retry tries PathCatalog.lookup
    PathCatalog.search_from PathCatalog.recognizes PathCatalog.to_lower PathCatalog.matches_prefix
    contains new_capability_set mark_processed ProcessedEvents.mark_processed handle_claimed_event
    create_task atomically save_task publish
redelivery_creates_none_example =
    redelivery_creates_none feed feed "message" "message" "event" release release floor refl refl
      (λ max op w. (max, omega arith, refl)) (λ max op w. (max, omega arith, refl))
      (λ max op w. (max, omega arith, refl)) (λ max op w. (max, omega arith, refl)) (λ i. refl)
      (λ i. refl) refl
