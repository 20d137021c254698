-- ===== src/Idempotency.antt =====
-- internal/adapters/inbound/http/idempotency.go: the middleware that runs a request at most once
-- for each Idempotency-Key. A table row and what the wrapped handler changes stand in one
-- transaction. Requests with the same key wait for one another at the key's unique index, so
-- requests are taken one after the other. The SHA-256 of a body is the argument `hash`, the
-- wrapped handler the argument `next`. A commit that reports an error has not committed.
pub mod Replays
pub mod OncePerKey
use fulfillment_execution.Prelude.{
  String, Option, none, some, List, [], ◌∷◌, Map, lookup, insert, ite, string_discrete,
}
use fulfillment_execution.Http.{Response, write_problem}

pub record Request : Type 0 where
  pub idempotency_key : String
  pub method : String
  pub path : String
  pub body : String

-- A row of `idempotency_keys`; the outcome is `status_code`, `response_body` and
-- `response_headers`, which are null until the outcome is written.
pub record KeyRow : Type 0 where
  pub method : String
  pub path : String
  pub request_hash : String
  pub outcome : Option Response

-- What a handler does: it answers, or it panics.
pub data Run : Type 0 where
  answered : Response → Run
  panicked : Run

-- The calls that fail in the course of one request, each with the text of its error.
pub record Faults : Type 0 where
  pub body_read : Option String
  pub begin_tx : Option String
  pub insert_key : Option String
  pub marshal_headers : Option String
  pub update_key : Option String
  pub commit_tx : Option String
  pub select_key : Option String

-- The answer of the middleware; a panic goes on to the Recoverer.
pub data Answer : Type 0 where
  sent : Response → Answer
  re_panicked : Answer

-- The table and all else that the transaction covers.
abbrev pub Database : Type 0 → Type 0
Database W = Map String KeyRow × W

abbrev pub internal_error : Request → String → Answer
internal_error r detail =
    sent (write_problem 500 "internal-error" "Internal server error" detail r.path)

abbrev pub idempotency_key_required : Request → Answer
idempotency_key_required r = sent (
    write_problem 400 "idempotency-key-required" "Idempotency-Key header is required"
      "This endpoint creates a new resource on every call and requires a caller-supplied Idempotency-Key header so a retried request is never applied twice."
      r.path)

abbrev pub idempotency_key_reused : Request → Answer
idempotency_key_reused r = sent (
    write_problem 422 "idempotency-key-reused"
      "Idempotency-Key was already used with a different request"
      "The Idempotency-Key header on this request was already used with a request that had a different body. Use a new Idempotency-Key for a genuinely different request."
      r.path)

abbrev no_outcome : String
no_outcome = "idempotency row committed with no recorded outcome — this should be impossible"

-- A call that may fail: on failure `failed` with the error's text, else `rest`.
abbrev pub or_fail {ℓ} : {A : Type ℓ} → Option String → (String → A) → A → A
or_fail none failed rest = rest
or_fail (some text) failed rest = failed text

module _ (hash : String → String) where
  abbrev pub new_row : Request → Option Response → KeyRow
  new_row r outcome = record {
    method = r.method;
    path = r.path;
    request_hash = hash r.body;
    outcome = outcome;
  }

  abbrev replay_outcome : Request → Option Response → Answer
  replay_outcome r none = internal_error r no_outcome
  replay_outcome r (some response) = sent response

  abbrev replay_row : Request → Option KeyRow → Answer
  replay_row r none = internal_error r "no rows in result set"
  replay_row r (some row) =
      ite (string_discrete row.request_hash (hash r.body)) (replay_outcome r row.outcome)
        (idempotency_key_reused r)

  unfoldable pub replay_cached_response : Faults → Request → Map String KeyRow → Answer
  replay_cached_response f r keys =
      or_fail f.select_key (internal_error r)
        (replay_row r (lookup string_discrete r.idempotency_key keys))

  -- The row of the request gets its outcome.
  unfoldable pub record_outcome : Request → Response → Map String KeyRow → Map String KeyRow
  record_outcome r response keys =
      insert string_discrete r.idempotency_key (new_row r (some response)) keys

  module _ {W : Type 0} where
    -- After the handler: the outcome is written and the transaction commits, or it rolls back.
    abbrev settle :
        Faults → Request → Database W → Map String KeyRow → Run × W → Answer × Database W
    settle f r before keys (panicked, w) = (re_panicked, before)
    settle f r before keys (answered response, w) =
        let roll_back : String → Answer × Database W = λ e. (internal_error r e, before) in
        or_fail f.marshal_headers roll_back (
          or_fail f.update_key roll_back
            (or_fail f.commit_tx roll_back (sent response, (record_outcome r response keys, w))))

    unfoldable pub run_fresh_request :
        (Request → W → Run × W) → Faults → Request → Database W → Answer × Database W
    run_fresh_request next f r db =
        let keys = insert string_discrete r.idempotency_key (new_row r none) db.0 in
        settle f r db keys (next r db.1)

    -- `INSERT … ON CONFLICT (key) DO NOTHING`, and the branch on the rows that it affected.
    abbrev on_insert :
        (Request → W → Run × W)
        → Faults
        → Request
        → Database W
        → Option KeyRow
        → Answer × Database W
    on_insert next f r db (some row) = (replay_cached_response f r db.0, db)
    on_insert next f r db none = run_fresh_request next f r db

    unfoldable pub require_idempotency_key :
        (Request → W → Run × W) → Faults → Request → Database W → Answer × Database W
    unfolding run_fresh_request replay_cached_response
    require_idempotency_key next f r db =
        let failed : String → Answer × Database W = λ e. (internal_error r e, db) in
        ite (string_discrete r.idempotency_key "") (idempotency_key_required r, db)
          (or_fail f.body_read
            (λ e. (
              sent (
                  write_problem 400 "malformed-request-body" "The request body could not be read" e
                    r.path),
              db,
            ))
            (or_fail f.begin_tx failed (
              or_fail f.insert_key failed
                (on_insert next f r db (lookup string_discrete r.idempotency_key db.0)))))
