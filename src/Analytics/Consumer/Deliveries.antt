-- ===== src/Analytics/Consumer/Deliveries.antt =====
-- How often a delivered event reaches the read model (analytics_consumer.go).
use fulfillment_execution.Prelude.{
  String, true, false, Option, none, some, ◌∷◌, ◌≡◌, refl, ◌∙◌, In, arith,
}
use fulfillment_execution.Shared.Capabilities.{contains-In}
use fulfillment_execution.Memory.ProcessedEvents as ProcessedEvents
use fulfillment_execution.Analytics.{ClaimSeconds}
use fulfillment_execution.Analytics.Events.{Projected, apply}
use fulfillment_execution.Analytics.Consumer.{
  AnalyticsData, CloudEvent, EventType, event_type_of, projection_of, Faults, State,
  apply_projection, handle_message,
}

abbrev pub marks_then : ClaimSeconds → Faults → Projected → String → State → Option String × State
marks_then f faults p id s = elim faults.mark_processed [
  | some x ↦ (some x, s)
  | none ↦ elim (ProcessedEvents.mark_processed s.0 id).1 [
    | false ↦ (none, ((ProcessedEvents.mark_processed s.0 id).0, s.1))
    | true ↦ apply_projection f faults (some p) ((ProcessedEvents.mark_processed s.0 id).0, s.1)
  ]
]

-- A message whose event projects.
handled :
    (f : ClaimSeconds) (decode : String → Option CloudEvent) (faults : Faults) (raw : String)
    (s : State) (e : CloudEvent) (d : AnalyticsData) (p : Projected)
    → decode raw ≡ some e
    → e.payload ≡ some d
    → (ty : EventType) → event_type_of e.event_type ≡ ty
    → projection_of ty e d ≡ some p
    → handle_message f decode faults raw s ≡ marks_then f faults p e.id s
unfolding handle_message projection_of
handled f decode faults raw s e d p a b EventType.other t h = absurd (cc h)
handled f decode faults raw s e d p a b EventType.of_task_claimed t h = ground arith
handled f decode faults raw s e d p a b EventType.of_task_completed t h = ground arith
handled f decode faults raw s e d p a b EventType.of_lease_expired t h = ground arith
handled f decode faults raw s e d p a b EventType.of_weight_discrepancy t h = ground arith
handled f decode faults raw s e d p a b EventType.of_package_manifested t h = ground arith

abbrev pub no_fault : Faults
no_fault = record { mark_processed = none; projection = none }

-- An event that projects and is new is applied when nothing fails, and its redelivery changes nothing.
-- Where the projection fails it is marked as handled all the same: its redelivery is taken for a
-- repetition and applies nothing, so the event never reaches the read model.
pub delivered_at_most_once :
    (f : ClaimSeconds) (decode : String → Option CloudEvent) (raw : String) (s : State)
    (e : CloudEvent) (d : AnalyticsData) (p : Projected) (failure : String)
    → decode raw ≡ some e
    → e.payload ≡ some d
    → projection_of (event_type_of e.event_type) e d ≡ some p
    → ¬ In e.id s.0
    → let failing : Faults = record { mark_processed = none; projection = some failure } in
      (handle_message f decode no_fault raw s ≡ (none, (e.id ∷ s.0, apply f p s.1)))
      × (handle_message f decode no_fault raw (e.id ∷ s.0, apply f p s.1)
          ≡ (none, (e.id ∷ s.0, apply f p s.1)))
      × (handle_message f decode failing raw s ≡ (some failure, (e.id ∷ s.0, s.1)))
      × (handle_message f decode no_fault raw (e.id ∷ s.0, s.1) ≡ (none, (e.id ∷ s.0, s.1)))
unfolding ProcessedEvents.mark_processed
delivered_at_most_once f decode raw s e d p failure a b h new =
    let failing : Faults = record { mark_processed = none; projection = some failure } in
    let ty = event_type_of e.event_type in
    (
      handled f decode no_fault raw s e d p a b ty refl h ∙ ground (arith, contains-In s.0 e.id),
      handled f decode no_fault raw (e.id ∷ s.0, apply f p s.1) e d p a b ty refl h
          ∙ ground (arith, contains-In (e.id ∷ s.0) e.id),
      handled f decode failing raw s e d p a b ty refl h ∙ ground (arith, contains-In s.0 e.id),
      handled f decode no_fault raw (e.id ∷ s.0, s.1) e d p a b ty refl h
          ∙ ground (arith, contains-In (e.id ∷ s.0) e.id),
    )
