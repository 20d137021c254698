-- ===== src/Memory/ProcessedEvents.antt =====
-- internal/adapters/outbound/memory/processed_events_repo.go: the ids that were processed.
use fulfillment_execution.Prelude.{◌≡◌, ◌⊎◌, ◌↔◌, Bool, true, false, String, List, ◌∷◌, In, arith}
use fulfillment_execution.Shared.Capabilities.{contains, contains-In}

abbrev pub ProcessedEvents : Type 0
ProcessedEvents = List String

unfoldable pub mark_processed : ProcessedEvents → String → ProcessedEvents × Bool
unfolding contains
mark_processed seen event_id = elim (contains seen event_id) [
  | true ↦ (seen, false)
  | false ↦ (event_id ∷ seen, true)
]

-- An id is new exactly the first time it is marked: the answer says whether it was unseen, and
-- afterwards that id is seen, beside those that were.
pub mark_processed-once :
    (seen : ProcessedEvents) (id other : String)
    → (((mark_processed seen id).1 ≡ true) ↔ (¬ In id seen))
      × (In other (mark_processed seen id).0 ↔ ((other ≡ id) ⊎ In other seen))
      × ((mark_processed (mark_processed seen id).0 id).1 ≡ false)
unfolding mark_processed
mark_processed-once seen id other = (
  (λ h. ground (arith, contains-In seen id), λ h. ground (arith, contains-In seen id)),
  (λ h. ground (arith, contains-In seen id), λ h. ground (arith, contains-In seen id)),
  ground (arith, contains-In seen id, contains-In (id ∷ seen) id),
)
