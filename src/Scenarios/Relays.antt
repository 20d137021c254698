-- ===== src/Scenarios/Relays.antt =====
-- Tests of the outbox relay (internal/adapters/outbound/postgres/outbox_relay.go).
use fulfillment_execution.Prelude.{
  In, List, [], arith, keep, not, refl, suc, ℕ, ◌&&◌, ◌++◌, ◌∷◌, ◌≡◌, ◌≤◌,
}
use fulfillment_execution.Outbox.{Outbox, OutboxRow, Pass, is_pending, relay_once, take}
use fulfillment_execution.Outbox.Drains.{passes, passes-drain, pending}
use fulfillment_execution.Outbox.Losses.{
  AllSent, Event, history, messages_of, no_message_lost, relayed, stored, stored_messages,
}
use fulfillment_execution.Outbox.Order.{ids, relay_once-sends_in_order}
use fulfillment_execution.Outbox.Overlap.{overlapping_relays_reorder}
use fulfillment_execution.Scenarios.Records.{
  beside, empty_outbox, quiet_pass, row_one, row_two, told, two_rows,
}

passes-drain_example :
    let k : ℕ = 1 in
    let batch_size : ℕ = 2 in
    let f : Pass = quiet_pass in
    let o : Outbox = two_rows in
    (pending (passes k batch_size f o).rows ≡ [])
    × ((passes k batch_size f o).sent ≡ o.sent ++ ids (pending o.rows))
unfolding keep
passes-drain_example =
    passes-drain 1 2 quiet_pass two_rows (refl, refl, (λ i. refl), (λ i. refl), refl, (λ i. refl))
      ((λ i. ground arith), ((λ i. i), tt)) (omega arith)

relay_once-sends_in_order_example :
    let batch_size : ℕ = 1 in
    let f : Pass = quiet_pass in
    let o : Outbox = two_rows in
    (j : ℕ) × (j ≤ batch_size)
    × ((relay_once batch_size f o).2.sent
        ≡ o.sent ++ ids (take j (keep (λ r. is_pending r && not (f.locked r.id)) o.rows)))
relay_once-sends_in_order_example = relay_once-sends_in_order 1 quiet_pass two_rows

no_message_lost_example :
    let batch_size : ℕ = 10 in
    let es : List Event = stored told ∷ relayed quiet_pass ∷ [] in
    let o : Outbox = empty_outbox in
    (messages_of (history batch_size es o).rows ≡ stored_messages es)
    × AllSent (history batch_size es o).sent (history batch_size es o).rows
no_message_lost_example =
    no_message_lost 10 (stored told ∷ relayed quiet_pass ∷ []) empty_outbox refl

overlapping_relays_reorder_example :
    let n : ℕ = 0 in
    let f : Pass = beside in
    let o : Outbox = two_rows in
    let first : OutboxRow = row_one in
    let second : OutboxRow = row_two in
    In second.id (relay_once (suc n) f o).2.sent × (¬ In first.id (relay_once (suc n) f o).2.sent)
overlapping_relays_reorder_example =
    overlapping_relays_reorder 0 beside two_rows row_one row_two refl refl refl refl (λ i. i) refl
      refl refl refl refl refl
