-- ===== src/Outbox/Order.antt =====
-- What a pass of the relay sends (outbox_relay.go).
use fulfillment_execution.Prelude.{
  ℕ, zero, suc, ◌+◌, ◌≤◌, ◌≡◌, refl, sym, ap, ◌∙◌, inl, inr, String, not, ◌&&◌, Option, none, some,
  List, [], ◌∷◌, ◌++◌, keep, arith, Option-cases, length,
}
use fulfillment_execution.Outbox.{
  OutboxRow, Outbox, Pass, Batch, Transaction, is_open, is_over, take, is_pending, claim_rows,
  update, mark_published, publish_batch, fail_row, relay_once, commit_pass, end_pass,
}

abbrev pub ids : List OutboxRow → List ℕ
ids [] = []
ids (r ∷ rs) = r.id ∷ ids rs

pub append_assoc : {A : Type 0} (xs ys zs : List A) → (xs ++ ys) ++ zs ≡ xs ++ (ys ++ zs)
append_assoc [] ys zs = refl
append_assoc (x ∷ xs) ys zs = ap (λ l. x ∷ l) (append_assoc xs ys zs)

pub append_nil : {A : Type 0} (xs : List A) → xs ++ [] ≡ xs
append_nil [] = refl
append_nil (x ∷ xs) = ap (λ l. x ∷ l) (append_nil xs)

-- A row that the broker takes and that is marked, and then the others.
pub batch_next :
    (f : Pass) (before ps rows : List OutboxRow) (p : OutboxRow) (sent : List ℕ) (n : ℕ)
    → f.send p.id ≡ none
    → f.mark p.id ≡ none
    → publish_batch f before (p ∷ ps) rows sent n
      ≡ publish_batch f before ps (update p.id mark_published rows) (sent ++ p.id ∷ []) (n + 1)
unfolding publish_batch
batch_next f before ps rows p sent n h k = ground arith

-- A row that the broker refuses, and a row that is sent but not marked: the batch ends.
pub batch_refused :
    (f : Pass) (before ps rows : List OutboxRow) (p : OutboxRow) (sent : List ℕ) (n : ℕ)
    (e : String)
    → f.send p.id ≡ some e
    → publish_batch f before (p ∷ ps) rows sent n ≡ record {
      published = n;
      error = some e;
      transaction = is_over (fail_row f before p.id e rows);
      sent = sent;
    }
unfolding publish_batch
batch_refused f before ps rows p sent n e h = ground arith

pub batch_unmarked :
    (f : Pass) (before ps rows : List OutboxRow) (p : OutboxRow) (sent : List ℕ) (n : ℕ)
    (e : String)
    → f.send p.id ≡ none
    → f.mark p.id ≡ some e
    → publish_batch f before (p ∷ ps) rows sent n ≡ record {
      published = n;
      error = some e;
      transaction = is_open rows;
      sent = sent ++ p.id ∷ [];
    }
unfolding publish_batch
batch_unmarked f before ps rows p sent n e h k = ground arith

-- The broker takes the first rows of a batch, up to the first failure.
batch_sends :
    (f : Pass) (before batch rows : List OutboxRow) (sent : List ℕ) (n : ℕ)
    → (j : ℕ) × (j ≤ length batch)
      × ((publish_batch f before batch rows sent n).sent ≡ sent ++ ids (take j batch))
unfolding publish_batch
batch_sends f before [] rows sent n = (0, omega arith, sym (append_nil sent))
batch_sends f before (p ∷ ps) rows sent n = elim (Option-cases (f.send p.id)) [
  | inr (e, h) ↦ (0, omega arith, ground (arith, append_nil sent))
  | inl h ↦ elim (Option-cases (f.mark p.id)) [
    | inr (e, k) ↦ (1, omega arith, ground arith)
    | inl k ↦
        let (j, le, same) =
          batch_sends f before ps (update p.id mark_published rows) (sent ++ p.id ∷ []) (n + 1) in
        (
          suc j,
          omega arith,
          ap (λ (b : Batch). b.sent) (batch_next f before ps rows p sent n h k)
              ∙ same
              ∙ append_assoc sent (p.id ∷ []) (ids (take j ps)),
        )
  ]
]

length-take_le : {A : Type 0} (n : ℕ) (xs : List A) → length (take n xs) ≤ n
length-take_le zero xs = omega arith
length-take_le (suc n) [] = omega arith
length-take_le (suc n) (x ∷ xs) = let ih = length-take_le n xs in omega arith

take-take :
    {A : Type 0} (j n : ℕ) (xs : List A) → j ≤ length (take n xs) → take j (take n xs) ≡ take j xs
take-take zero n xs h = refl
take-take (suc j) zero xs h = absurd (omega arith)
take-take (suc j) (suc n) [] h = refl
take-take (suc j) (suc n) (x ∷ xs) h = ap (λ l. x ∷ l) (take-take j n xs (omega arith))

commit_pass-sent :
    (f : Pass) (o : Outbox) (n : ℕ) (t : Transaction) (sent : List ℕ)
    → (commit_pass f o n t sent).2.sent ≡ sent
commit_pass-sent f o n (is_open rows) sent = refl
commit_pass-sent f o n (is_over rows) sent = refl

pub end_pass-sent : (f : Pass) (o : Outbox) (b : Batch) → (end_pass f o b).2.sent ≡ b.sent
end_pass-sent f o b = elim (Option-cases b.error) [
  | inl e ↦ rw e (commit_pass-sent f o b.published b.transaction b.sent)
  | inr (x, e) ↦ rw e refl
]

-- A pass that claims its rows.
pub pass_lem :
    (batch_size : ℕ) (f : Pass) (o : Outbox)
    → f.begin_tx ≡ none
    → f.claim ≡ none
    → relay_once batch_size f o
      ≡ end_pass f o
          (publish_batch f o.rows (claim_rows f.locked batch_size o.rows) o.rows o.sent 0)
unfolding relay_once
pass_lem batch_size f o g h = ground arith

-- Whatever fails in a pass, what it sends is the first of the rows that are unpublished and not
-- locked, in the order of the table and at most as many as the batch size: none of them is sent
-- before another that stands ahead of it.
pub relay_once-sends_in_order :
    (batch_size : ℕ) (f : Pass) (o : Outbox)
    → (j : ℕ) × (j ≤ batch_size)
      × ((relay_once batch_size f o).2.sent
          ≡ o.sent ++ ids (take j (keep (λ r. is_pending r && not (f.locked r.id)) o.rows)))
unfolding relay_once claim_rows
relay_once-sends_in_order batch_size f o = elim (Option-cases f.begin_tx) [
  | inr (e, g) ↦ (0, omega arith, rw g (sym (append_nil o.sent)))
  | inl g ↦ elim (Option-cases f.claim) [
    | inr (e, h) ↦ (0, omega arith, rw (g, h) (sym (append_nil o.sent)))
    | inl h ↦
        let waiting = keep (λ (r : OutboxRow). is_pending r && not (f.locked r.id)) o.rows in
        let (j, le, same) = batch_sends f o.rows (take batch_size waiting) o.rows o.sent 0 in
        let most = length-take_le batch_size waiting in
        (
          j,
          omega arith,
          ap (λ (x : ℕ × Option String × Outbox). x.2.sent) (pass_lem batch_size f o g h)
              ∙ (end_pass-sent f o
                    (publish_batch f o.rows (take batch_size waiting) o.rows o.sent 0)
                  ∙ same
                  ∙ ap (λ rs. o.sent ++ ids rs) (take-take j batch_size waiting le)),
        )
  ]
]
