-- ===== src/Outbox/Losses.antt =====
-- That no message is lost between the outbox and the broker (outbox_publisher.go, outbox_relay.go).
use fulfillment_execution.Prelude.{
  ℕ, ◌+◌, ◌≡◌, refl, sym, ap, subst, ◌∙◌, inl, inr, String, true, Option, none, some, List, [], ◌∷◌,
  ◌++◌, ◌==◌, arith, Option-cases, Bool-cases, In,
}
use fulfillment_execution.Outbox.{
  Encoded, OutboxRow, Outbox, Pass, Batch, Transaction, is_open, is_over, update, mark_published,
  mark_failed, fail_row, keeps, left, publish_batch, claim_rows, relay_once, commit_pass, end_pass,
  enqueue,
}
use fulfillment_execution.Outbox.Order.{
  batch_next, batch_refused, batch_unmarked, pass_lem, append_nil, append_assoc,
}

abbrev pub messages_of : List OutboxRow → List Encoded
messages_of [] = []
messages_of (r ∷ rs) = r.enc ∷ messages_of rs

-- Every row that is marked as published has been sent.
abbrev pub AllSent : List ℕ → List OutboxRow → Type 0
AllSent sent [] = Unit
AllSent sent (r ∷ rs) = (r.published ≡ true → In r.id sent) × AllSent sent rs

-- The rows hold exactly these messages, and none is marked that was not sent.
abbrev Holds : List Encoded → List ℕ → List OutboxRow → Type 0
Holds ms sent rows = (messages_of rows ≡ ms) × AllSent sent rows

In-left : (i : ℕ) (xs ys : List ℕ) → In i xs → In i (xs ++ ys)
In-left i [] ys h = absurd h
In-left i (x ∷ xs) ys (inl e) = inl e
In-left i (x ∷ xs) ys (inr h) = inr (In-left i xs ys h)

pub In-last : (i : ℕ) (xs : List ℕ) → In i (xs ++ i ∷ [])
In-last i [] = inl refl
In-last i (x ∷ xs) = inr (In-last i xs)

AllSent-more :
    (sent more : List ℕ) (rows : List OutboxRow) → AllSent sent rows → AllSent (sent ++ more) rows
AllSent-more sent more [] h = tt
AllSent-more sent more (r ∷ rs) h =
    (λ p. In-left r.id sent more (h.0 p), AllSent-more sent more rs h.1)

messages_of-update :
    (id : ℕ) (change : OutboxRow → OutboxRow) (rows : List OutboxRow)
    → ((r : OutboxRow) → (change r).enc ≡ r.enc)
    → messages_of (update id change rows) ≡ messages_of rows
unfolding update
messages_of-update id change [] k = refl
messages_of-update id change (r ∷ rs) k = ground (arith, messages_of-update id change rs k, k r)

same_id : (a b : ℕ) → (a == b) ≡ true → a ≡ b
same_id a b e = ground arith

AllSent-mark :
    (sent : List ℕ) (id : ℕ) (rows : List OutboxRow)
    → AllSent sent rows
    → AllSent (sent ++ id ∷ []) (update id mark_published rows)
unfolding update
AllSent-mark sent id [] h = tt
AllSent-mark sent id (r ∷ rs) h = elim (Bool-cases (r.id == id)) [
  | inl e ↦ rw e (
    λ p. subst (λ i. In i (sent ++ id ∷ [])) (sym (same_id r.id id e)) (In-last id sent),
    AllSent-mark sent id rs h.1,
  )
  | inr e ↦ rw e (λ p. In-left r.id sent (id ∷ []) (h.0 p), AllSent-mark sent id rs h.1)
]

AllSent-fail :
    (sent : List ℕ) (id : ℕ) (e : String) (rows : List OutboxRow)
    → AllSent sent rows
    → AllSent sent (update id (mark_failed e) rows)
unfolding update
AllSent-fail sent id e [] h = tt
AllSent-fail sent id e (r ∷ rs) h = elim (Bool-cases (r.id == id)) [
  | inl b ↦ rw b (h.0, AllSent-fail sent id e rs h.1)
  | inr b ↦ rw b (h.0, AllSent-fail sent id e rs h.1)
]

keeps-Holds :
    (o : Option String) (ms : List Encoded) (sent : List ℕ) (new before : List OutboxRow)
    → Holds ms sent new
    → Holds ms sent before
    → Holds ms sent (keeps o new before)
keeps-Holds none ms sent new before p q = p
keeps-Holds (some e) ms sent new before p q = q

abbrev InTransaction : List Encoded → List ℕ → Transaction → Type 0
InTransaction ms sent (is_open rows) = Holds ms sent rows
InTransaction ms sent (is_over rows) = Holds ms sent rows

abbrev InBatch : List Encoded → List OutboxRow → Batch → Type 0
InBatch ms before b = Holds ms b.sent before × InTransaction ms b.sent b.transaction

fail_row-Holds :
    (ms : List Encoded) (f : Pass) (sent : List ℕ) (before : List OutboxRow) (id : ℕ) (e : String)
    (rows : List OutboxRow)
    → Holds ms sent before
    → Holds ms sent rows
    → Holds ms sent (fail_row f before id e rows)
unfolding fail_row
fail_row-Holds ms f sent before id e rows p q =
    keeps-Holds f.record_failure ms sent _ before
      (keeps-Holds f.commit ms sent _ before
        (
          messages_of-update id (mark_failed e) rows (λ _. refl) ∙ q.0,
          AllSent-fail sent id e rows q.1,
        )
        p)
      p

batch-Holds :
    (ms : List Encoded) (f : Pass) (before batch rows : List OutboxRow) (sent : List ℕ) (n : ℕ)
    → Holds ms sent before
    → Holds ms sent rows
    → InBatch ms before (publish_batch f before batch rows sent n)
unfolding publish_batch
batch-Holds ms f before [] rows sent n p q = (p, q)
batch-Holds ms f before (r ∷ rs) rows sent n p q = elim (Option-cases (f.send r.id)) [
  | inr (e, h) ↦
      rw (batch_refused f before rs rows r sent n e h)
        (p, fail_row-Holds ms f sent before r.id e rows p q)
  | inl h ↦ elim (Option-cases (f.mark r.id)) [
    | inr (e, k) ↦ rw (batch_unmarked f before rs rows r sent n e h k) (
      (p.0, AllSent-more sent (r.id ∷ []) before p.1),
      (q.0, AllSent-more sent (r.id ∷ []) rows q.1),
    )
    | inl k ↦ rw (batch_next f before rs rows r sent n h k) (
        batch-Holds ms f before rs (update r.id mark_published rows) (sent ++ r.id ∷ []) (n + 1)
          (p.0, AllSent-more sent (r.id ∷ []) before p.1)
          (
            messages_of-update r.id mark_published rows (λ _. refl) ∙ q.0,
            AllSent-mark sent r.id rows q.1,
          ))
  ]
]

commit_pass-Holds :
    (ms : List Encoded) (f : Pass) (o : Outbox) (n : ℕ) (t : Transaction) (sent : List ℕ)
    → Holds ms sent o.rows
    → InTransaction ms sent t
    → Holds ms (commit_pass f o n t sent).2.sent (commit_pass f o n t sent).2.rows
commit_pass-Holds ms f o n (is_open rows) sent p q = keeps-Holds f.commit ms sent rows o.rows q p
commit_pass-Holds ms f o n (is_over rows) sent p q = q

left-Holds :
    (ms : List Encoded) (sent : List ℕ) (t : Transaction) (before : List OutboxRow)
    → Holds ms sent before
    → InTransaction ms sent t
    → Holds ms sent (left t before)
left-Holds ms sent (is_open rows) before p q = p
left-Holds ms sent (is_over rows) before p q = q

end_pass-Holds :
    (ms : List Encoded) (f : Pass) (o : Outbox) (b : Batch)
    → InBatch ms o.rows b
    → Holds ms (end_pass f o b).2.sent (end_pass f o b).2.rows
end_pass-Holds ms f o b p = elim (Option-cases b.error) [
  | inl e ↦ rw e (commit_pass-Holds ms f o b.published b.transaction b.sent p.0 p.1)
  | inr (x, e) ↦ rw e (left-Holds ms b.sent b.transaction o.rows p.0 p.1)
]

relay_once-Holds :
    (ms : List Encoded) (batch_size : ℕ) (f : Pass) (o : Outbox)
    → Holds ms o.sent o.rows
    → Holds ms (relay_once batch_size f o).2.sent (relay_once batch_size f o).2.rows
unfolding relay_once
relay_once-Holds ms batch_size f o p = elim (Option-cases f.begin_tx) [
  | inr (e, g) ↦ rw g p
  | inl g ↦ elim (Option-cases f.claim) [
    | inr (e, h) ↦ rw (g, h) p
    | inl h ↦ rw (pass_lem batch_size f o g h) (
        end_pass-Holds ms f o _
          (batch-Holds ms f o.rows (claim_rows f.locked batch_size o.rows) o.rows o.sent 0 p p))
  ]
]

AllSent-append :
    (sent : List ℕ) (xs ys : List OutboxRow)
    → AllSent sent xs
    → AllSent sent ys
    → AllSent sent (xs ++ ys)
AllSent-append sent [] ys p q = q
AllSent-append sent (x ∷ xs) ys p q = (p.0, AllSent-append sent xs ys p.1 q)

messages_of-append :
    (xs ys : List OutboxRow) → messages_of (xs ++ ys) ≡ messages_of xs ++ messages_of ys
messages_of-append [] ys = refl
messages_of-append (x ∷ xs) ys = ap (λ l. x.enc ∷ l) (messages_of-append xs ys)

-- What happens to the outbox: a message is stored with its committed transaction, or a relay makes a
-- pass.
pub data Event : Type 0 where
  stored : Encoded → Event
  relayed : Pass → Event

abbrev pub stored_messages : List Event → List Encoded
stored_messages [] = []
stored_messages (stored m ∷ es) = m ∷ stored_messages es
stored_messages (relayed f ∷ es) = stored_messages es

unfoldable pub history : ℕ → List Event → Outbox → Outbox
unfolding relay_once enqueue
history batch_size [] o = o
history batch_size (stored m ∷ es) o = history batch_size es (enqueue m o)
history batch_size (relayed f ∷ es) o = history batch_size es (relay_once batch_size f o).2

history-Holds :
    (batch_size : ℕ) (es : List Event) (ms : List Encoded) (o : Outbox)
    → Holds ms o.sent o.rows
    → Holds (ms ++ stored_messages es) (history batch_size es o).sent (history batch_size es o).rows
unfolding history enqueue
history-Holds batch_size [] ms o p = (p.0 ∙ sym (append_nil ms), p.1)
history-Holds batch_size (stored m ∷ es) ms o p =
    subst
      (λ l.
        Holds l (history batch_size es (enqueue m o)).sent
          (history batch_size es (enqueue m o)).rows)
      (append_assoc ms (m ∷ []) (stored_messages es))
      (history-Holds batch_size es (ms ++ m ∷ []) (enqueue m o) (
        messages_of-append o.rows _ ∙ ap (λ l. l ++ m ∷ []) p.0,
        AllSent-append o.sent o.rows _ p.1 (λ e. cc, tt),
      ))
history-Holds batch_size (relayed f ∷ es) ms o p =
    history-Holds batch_size es ms (relay_once batch_size f o).2
      (relay_once-Holds ms batch_size f o p)

-- Whatever the relays' passes meet, broker and database failures, rollbacks and locked rows, the
-- table holds in the end exactly the messages that were stored, in that order, and each that is
-- marked as published has been sent: no message is lost. At the start the table is empty.
pub no_message_lost :
    (batch_size : ℕ) (es : List Event) (o : Outbox)
    → o.rows ≡ []
    → (messages_of (history batch_size es o).rows ≡ stored_messages es)
      × AllSent (history batch_size es o).sent (history batch_size es o).rows
no_message_lost batch_size es o e = history-Holds batch_size es [] o (rw e (refl, tt))
