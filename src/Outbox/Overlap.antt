-- ===== src/Outbox/Overlap.antt =====
-- Two relays at once, as in a rolling deployment (outbox_relay.go).
use fulfillment_execution.Prelude.{
  ℕ, String, zero, suc, ◌≡◌, ◌≢◌, refl, ap, ◌∙◌, inl, inr, Bool, true, false, Option, none, List,
  [], ◌∷◌, ◌++◌, arith, In, keep,
}
use fulfillment_execution.Outbox.{
  OutboxRow, Outbox, Pass, Batch, take, claim_rows, publish_batch, relay_once,
}
use fulfillment_execution.Outbox.Losses.{In-last}
use fulfillment_execution.Outbox.Order.{batch_next, pass_lem, end_pass-sent}

take-nil : (n : ℕ) → take {A = OutboxRow} n [] ≡ []
take-nil zero = refl
take-nil (suc n) = refl

claims_second :
    (n : ℕ) (locked : ℕ → Bool) (first second : OutboxRow)
    → first.published ≡ false
    → second.published ≡ false
    → locked first.id ≡ true
    → locked second.id ≡ false
    → claim_rows locked (suc n) (first ∷ second ∷ []) ≡ second ∷ []
unfolding claim_rows keep
claims_second n locked first second a b c d = ground (arith, take-nil n)

In-append : (i j : ℕ) (xs : List ℕ) → In i (xs ++ j ∷ []) → i ≢ j → In i xs
In-append i j [] (inl e) n = n e
In-append i j [] (inr h) n = h
In-append i j (x ∷ xs) (inl e) n = inl e
In-append i j (x ∷ xs) (inr h) n = inr (In-append i j xs h n)

one_sent :
    (f : Pass) (o : Outbox) (r : OutboxRow)
    → f.send r.id ≡ none
    → f.mark r.id ≡ none
    → (publish_batch f o.rows (r ∷ []) o.rows o.sent 0).sent ≡ o.sent ++ r.id ∷ []
unfolding publish_batch
one_sent f o r s m = ap (λ (b : Batch). b.sent) (batch_next f o.rows [] o.rows r o.sent 0 s m)

-- Two relays that overlap do not keep the order of a key: while one has locked a row that it has not
-- sent yet, a pass of the other that meets no failure sends the row behind it, though both rows are
-- messages of one key, and the first is still not sent.
pub overlapping_relays_reorder :
    (n : ℕ) (f : Pass) (o : Outbox) (first second : OutboxRow)
    → o.rows ≡ first ∷ second ∷ []
    → first.enc.key ≡ second.enc.key
    → first.published ≡ false
    → second.published ≡ false
    → ¬ In first.id o.sent
    → f.locked first.id ≡ true
    → f.locked second.id ≡ false
    → f.begin_tx ≡ none
    → f.claim ≡ none
    → f.send second.id ≡ none
    → f.mark second.id ≡ none
    → In second.id (relay_once (suc n) f o).2.sent × (¬ In first.id (relay_once (suc n) f o).2.sent)
overlapping_relays_reorder n f o first second rows key a b out la lb g h s m =
    let claimed : claim_rows f.locked (suc n) o.rows ≡ second ∷ [] =
      rw rows (claims_second n f.locked first second a b la lb) in
    let sent : (relay_once (suc n) f o).2.sent ≡ o.sent ++ second.id ∷ [] =
      ap (λ (x : ℕ × Option String × Outbox). x.2.sent) (pass_lem (suc n) f o g h)
      ∙ end_pass-sent f o
          (publish_batch f o.rows (claim_rows f.locked (suc n) o.rows) o.rows o.sent 0)
      ∙ ap (λ batch. (publish_batch f o.rows batch o.rows o.sent 0).sent) claimed
      ∙ one_sent f o second s m in
    (
      rw sent (In-last second.id o.sent),
      λ i. out (In-append first.id second.id o.sent (rw sent at i) (λ e. let l = rw e at la in cc)),
    )
