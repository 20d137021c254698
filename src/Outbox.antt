-- ===== src/Outbox.antt =====
-- internal/adapters/outbound/postgres/outbox_publisher.go and outbox_relay.go: events wait in a
-- table, in the transaction of the use case, and a relay sends them to the broker. Encoders and the
-- broker are arguments, as are the calls that fail, each with the text of its error. A transaction
-- in which a statement failed does not commit, as in PostgreSQL.
pub mod Drains
pub mod Order
pub mod Losses
pub mod Overlap
use fulfillment_execution.Prelude.{
  ℕ, zero, suc, ◌+◌, String, Bool, true, false, not, ◌&&◌, Option, none, some, List, [], ◌∷◌, ◌++◌,
  ◌==◌, keep, if◌then◌else◌,
}

-- The wire form of an event for one topic.
pub record Encoded : Type 0 where
  pub topic : String
  pub event_type : String
  pub key : String
  pub value : String
  pub headers : List (String × String)

-- A row of `outbox_events`.
pub record OutboxRow : Type 0 where
  pub id : ℕ
  pub enc : Encoded
  -- `published_at IS NOT NULL`
  pub published : Bool
  pub attempts : ℕ
  pub last_error : Option String

-- The table, the next id of its sequence, and the ids of the rows that the broker took, in order.
pub record Outbox : Type 0 where
  pub rows : List OutboxRow
  pub next_id : ℕ
  pub sent : List ℕ

-- `INSERT INTO outbox_events`
unfoldable pub enqueue : Encoded → Outbox → Outbox
enqueue m o = record o {
  rows =
      o.rows
      ++ record { id = o.next_id; enc = m; published = false; attempts = 0; last_error = none }
        ∷ [];
  next_id = suc o.next_id;
}

abbrev pub take : {A : Type 0} → ℕ → List A → List A
take zero xs = []
take (suc n) [] = []
take (suc n) (x ∷ xs) = x ∷ take n xs

-- What an encoder makes of events: its messages, or its error.
pub data Encoding : Type 0 where
  messages : List Encoded → Encoding
  not_encoded : String → Encoding

module _ (insert_error : Encoded → Option String) where
  abbrev enqueue_all : List Encoded → Outbox → Option String × Outbox
  enqueue_all [] o = (none, o)
  enqueue_all (m ∷ ms) o = elim (insert_error m) [
    | some e ↦ (some e, o)
    | none ↦ enqueue_all ms (enqueue m o)
  ]

  abbrev after : Option String × Outbox → (Outbox → Option String × Outbox) → Option String × Outbox
  after (some e, o) rest = (some e, o)
  after (none, o) rest = rest o

  abbrev encode_all :
      {E : Type 0} → List E → List (List E → Encoding) → Outbox → Option String × Outbox
  encode_all events [] o = (none, o)
  encode_all events (encode ∷ encoders) o = elim (encode events) [
    | not_encoded e ↦ (some e, o)
    | messages ms ↦ after (enqueue_all ms o) (encode_all events encoders)
  ]

  -- `OutboxPublisher.Publish`
  unfoldable pub publish :
      {E : Type 0} → List (List E → Encoding) → List E → Outbox → Option String × Outbox
  publish encoders [] o = (none, o)
  publish encoders (e ∷ es) o = encode_all (e ∷ es) encoders o

-- What happens to one pass of the relay: the rows that another relay has locked, and the calls that
-- fail. A failure to decode the headers of a claimed row counts to `claim`.
pub record Pass : Type 0 where
  pub locked : ℕ → Bool
  pub begin_tx : Option String
  pub claim : Option String
  pub send : ℕ → Option String
  pub mark : ℕ → Option String
  pub record_failure : Option String
  pub commit : Option String

-- The rows that are not published.
abbrev pub is_pending : OutboxRow → Bool
is_pending r = not r.published

-- The rows that the pass claims. `ORDER BY id` is the order of the list: `enqueue` appends each row with
-- the next id.
unfoldable pub claim_rows : (ℕ → Bool) → ℕ → List OutboxRow → List OutboxRow
claim_rows locked batch_size rows =
    take batch_size (keep (λ r. is_pending r && not (locked r.id)) rows)

-- `UPDATE outbox_events SET … WHERE id = $1`
unfoldable pub update : ℕ → (OutboxRow → OutboxRow) → List OutboxRow → List OutboxRow
update id change [] = []
update id change (r ∷ rs) = (if r.id == id then change r else r) ∷ update id change rs

abbrev pub mark_published : OutboxRow → OutboxRow
mark_published r = record r { published = true; attempts = r.attempts + 1; last_error = none }

abbrev pub mark_failed : String → OutboxRow → OutboxRow
mark_failed e r = record r { attempts = r.attempts + 1; last_error = some e }

-- Where a pass stands: the transaction is open with these rows, or over and left these rows.
pub data Transaction : Type 0 where
  is_open is_over : List OutboxRow → Transaction

-- What `publishBatch` returns, with the transaction and what the broker has taken.
pub record Batch : Type 0 where
  pub published : ℕ
  pub error : Option String
  pub transaction : Transaction
  pub sent : List ℕ

abbrev pub keeps : Option String → List OutboxRow → List OutboxRow → List OutboxRow
keeps none new before = new
keeps (some e) new before = before

-- `failRow`: the row's error is recorded and the pass commits.
unfoldable pub fail_row : Pass → List OutboxRow → ℕ → String → List OutboxRow → List OutboxRow
fail_row f before id e rows =
    keeps f.record_failure (keeps f.commit (update id (mark_failed e) rows) before) before

unfoldable pub publish_batch :
    Pass → List OutboxRow → List OutboxRow → List OutboxRow → List ℕ → ℕ → Batch
unfolding update fail_row
publish_batch f before [] rows sent n = record {
  published = n;
  error = none;
  transaction = is_open rows;
  sent = sent;
}
publish_batch f before (p ∷ ps) rows sent n = elim (f.send p.id) [
  | some e ↦ record {
    published = n;
    error = some e;
    transaction = is_over (fail_row f before p.id e rows);
    sent = sent;
  }
  | none ↦ elim (f.mark p.id) [
    | some e ↦ record {
      published = n;
      error = some e;
      transaction = is_open rows;
      sent = sent ++ p.id ∷ [];
    }
    | none ↦ publish_batch f before ps (update p.id mark_published rows) (sent ++ p.id ∷ []) (n + 1)
  ]
]

abbrev pub left : Transaction → List OutboxRow → List OutboxRow
left (is_open rows) before = before
left (is_over rows) before = rows

-- The commit at the end of a pass, or the deferred rollback.
abbrev pub commit_pass : Pass → Outbox → ℕ → Transaction → List ℕ → ℕ × Option String × Outbox
commit_pass f o n (is_over rows) sent = (n, none, record o { rows = rows; sent = sent })
commit_pass f o n (is_open rows) sent =
    (n, f.commit, record o { rows = keeps f.commit rows o.rows; sent = sent })

abbrev pub end_pass : Pass → Outbox → Batch → ℕ × Option String × Outbox
end_pass f o b = elim b.error [
  | some e ↦ (b.published, some e, record o { rows = left b.transaction o.rows; sent = b.sent })
  | none ↦ commit_pass f o b.published b.transaction b.sent
]

unfoldable pub relay_once : ℕ → Pass → Outbox → ℕ × Option String × Outbox
unfolding claim_rows publish_batch
relay_once batch_size f o = elim f.begin_tx [
  | some e ↦ (0, some e, o)
  | none ↦ elim f.claim [
    | some e ↦ (0, some e, o)
    | none ↦
        end_pass f o
          (publish_batch f o.rows (claim_rows f.locked batch_size o.rows) o.rows o.sent 0)
  ]
]
