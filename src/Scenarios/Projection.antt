-- ===== src/Scenarios/Projection.antt =====
-- Tests of the throughput read model (internal/adapters/outbound/analyticsstore, internal/adapters/inbound/kafka).
use fulfillment_execution.Prelude.{
  In, List, Map, Option, String, [], keep, length, none, refl, some, string_discrete, ◌+◌, ◌∷◌, ◌≡◌,
}
use fulfillment_execution.Analytics.{
  ClaimSeconds, MemoryStore, ReportQuery, Row, RowAcc, RowKey, empty_row, new_memory_store, query,
  row, to_row,
}
use fulfillment_execution.Analytics.Consumer.{
  CloudEvent, Faults, State, event_type_of, handle_message, projection_of,
}
use fulfillment_execution.Analytics.Consumer.Deliveries.{delivered_at_most_once, no_fault}
use fulfillment_execution.Analytics.Counts.{apply_all-counts, manifested_split}
use fulfillment_execution.Analytics.Events.{
  Counter, Projected, apply, apply_all, counts_at, firsts, task_completed, value,
}
use fulfillment_execution.Analytics.Reports.{Matches, query-Matches}
use fulfillment_execution.Scenarios.Records.{
  any_row, completed_data, completed_event, happened, shift, whole_seconds,
}

apply_all-counts_example :
    let f : ClaimSeconds = whole_seconds in
    let c : Counter = Counter.completions in
    let k : RowKey = shift in
    let es : List Projected = happened in
    let s : MemoryStore = new_memory_store in
    value c (row f (apply_all f es s) k)
    ≡ length (keep (counts_at c k) (firsts s.seen es)) + value c (row f s k)
apply_all-counts_example =
    apply_all-counts whole_seconds Counter.completions shift happened new_memory_store

manifested_split_example :
    let f : ClaimSeconds = whole_seconds in
    let k : RowKey = shift in
    let es : List Projected = happened in
    (row f (apply_all f es new_memory_store) k).packages_manifested
    ≡ (row f (apply_all f es new_memory_store) k).packages_on_time_to_cpt
      + (row f (apply_all f es new_memory_store) k).packages_late_to_cpt
manifested_split_example = manifested_split whole_seconds shift happened

query-Matches_example :
    let f : ClaimSeconds = whole_seconds in
    let q : ReportQuery = any_row in
    let rows : Map RowKey RowAcc = (shift, empty_row whole_seconds) ∷ [] in
    ((k : RowKey) (r : RowAcc) → In (k, r) rows → Matches q k → In (to_row f k r) (query f q rows))
    × ((row : Row)
        → In row (query f q rows)
        → (k : RowKey) × (r : RowAcc) × In (k, r) rows × Matches q k × (row ≡ to_row f k r))
query-Matches_example = query-Matches whole_seconds any_row ((shift, empty_row whole_seconds) ∷ [])

delivered_at_most_once_example :
    let f : ClaimSeconds = whole_seconds in
    let decode : String → Option CloudEvent = λ raw. some completed_event in
    let raw : String = "message" in
    let s : State = ([], new_memory_store) in
    let e : CloudEvent = completed_event in
    let p : Projected = task_completed "b" "task" "PICK" "bench" 9 in
    let failure : String = "down" in
    let failing : Faults = record { mark_processed = none; projection = some failure } in
    (handle_message f decode no_fault raw s ≡ (none, (e.id ∷ s.0, apply f p s.1)))
    × (handle_message f decode no_fault raw (e.id ∷ s.0, apply f p s.1)
        ≡ (none, (e.id ∷ s.0, apply f p s.1)))
    × (handle_message f decode failing raw s ≡ (some failure, (e.id ∷ s.0, s.1)))
    × (handle_message f decode no_fault raw (e.id ∷ s.0, s.1) ≡ (none, (e.id ∷ s.0, s.1)))
unfolding event_type_of projection_of string_discrete
delivered_at_most_once_example =
    delivered_at_most_once whole_seconds (λ raw. some completed_event) "message"
      (([], new_memory_store)) completed_event completed_data
      (task_completed "b" "task" "PICK" "bench" 9) "down" refl refl refl (λ i. i)
