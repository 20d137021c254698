-- ===== src/Idempotency/Replays.antt =====
-- A retry gets the first answer (idempotency.go).
use fulfillment_execution.Prelude.{
  String, ◌≡◌, refl, ◌≢◌, inl, inr, Option, none, some, List, [], ◌∷◌, Map, lookup, insert, ite,
  sym, ◌∙◌, string_discrete, if_pos, if_neg, lookup-insert, insert-insert, All, values, All-insert,
  arith, Option-cases,
}
use fulfillment_execution.Http.{Response}
use fulfillment_execution.Idempotency.{
  or_fail, Request, KeyRow, Run, answered, panicked, Faults, Answer, sent, Database,
  idempotency_key_reused, new_row, record_outcome, replay_cached_response, run_fresh_request,
  require_idempotency_key,
}

-- Requests one after the other, each with the faults that it meets.
unfoldable pub serve_all :
    {W : Type 0}
    → (String → String)
    → (Request → W → Run × W)
    → List (Faults × Request)
    → Database W
    → Database W
serve_all hash next [] db = db
serve_all hash next ((f, r) ∷ rest) db =
    serve_all hash next rest (require_idempotency_key hash next f r db).1

-- The calls that a request makes before it runs or replays all work.
abbrev pub ReachesKey : Faults → Type 0
ReachesKey f = (f.body_read ≡ none) × (f.begin_tx ≡ none) × (f.insert_key ≡ none)

abbrev pub Commits : Faults → Type 0
Commits f = (f.marshal_headers ≡ none) × (f.update_key ≡ none) × (f.commit_tx ≡ none)

-- What holds after a failure and otherwise holds of a call that may fail.
or_fail-holds :
    {A : Type 0} (P : A → Type 0) (o : Option String) (failed : String → A) (rest : A)
    → ((e : String) → P (failed e))
    → (o ≡ none → P rest)
    → P (or_fail o failed rest)
or_fail-holds P none failed rest f p = p refl
or_fail-holds P (some e) failed rest f p = f e

module _ {W : Type 0} (hash : String → String) (next : Request → W → Run × W) where
  -- The table after a first request.
  abbrev pub with_row : Request → Response → Map String KeyRow → Map String KeyRow
  with_row r response keys =
      record_outcome hash r response
        (insert string_discrete r.idempotency_key (new_row hash r none) keys)

  -- A request leaves all as it was, or it is the first with its key, has run, and is recorded.
  pub data Step (f : Faults) (r : Request) (db : Database W) (out : Answer × Database W)
      : Type 0 where
    unchanged : out.1 ≡ db → Step f r db out
    recorded :
        (response : Response) (w : W)
        → r.idempotency_key ≢ ""
        → ReachesKey f
        → Commits f
        → lookup string_discrete r.idempotency_key db.0 ≡ none
        → next r db.1 ≡ (answered response, w)
        → out ≡ (sent response, (with_row r response db.0, w))
        → Step f r db out

  settled :
      (f : Faults) (r : Request) (db : Database W)
      → r.idempotency_key ≢ ""
      → ReachesKey f
      → lookup string_discrete r.idempotency_key db.0 ≡ none
      → (ran : Run × W) → next r db.1 ≡ ran
      → Step f r db (run_fresh_request hash next f r db)
  unfolding run_fresh_request
  settled f r db k re absent (panicked, w) e = rw e (unchanged refl)
  settled f r db k re absent (answered response, w) e = rw e (
      or_fail-holds (Step f r db) f.marshal_headers _ _ (λ _. unchanged refl)
        (λ m.
          or_fail-holds (Step f r db) f.update_key _ _ (λ _. unchanged refl)
            (λ u.
              or_fail-holds (Step f r db) f.commit_tx _ _ (λ _. unchanged refl)
                (λ c. recorded response w k re (m, u, c) absent e refl))))

  pub step :
      (f : Faults) (r : Request) (db : Database W)
      → Step f r db (require_idempotency_key hash next f r db)
  unfolding require_idempotency_key
  step f r db = elim (string_discrete r.idempotency_key "") [
    | yes e ↦ rw (if_pos _ e) (unchanged refl)
    | no n ↦ rw (if_neg _ n) (
        or_fail-holds (Step f r db) f.body_read _ _ (λ _. unchanged refl)
          (λ b.
            or_fail-holds (Step f r db) f.begin_tx _ _ (λ _. unchanged refl)
              (λ t.
                or_fail-holds (Step f r db) f.insert_key _ _ (λ _. unchanged refl)
                  (λ i. elim (Option-cases (lookup string_discrete r.idempotency_key db.0)) [
                    | inl e ↦ rw e (settled f r db n (b, t, i) e (next r db.1) refl)
                    | inr (row, e) ↦ rw e (unchanged refl)
                  ]))))
  ]

  pub lookup-with_row :
      (r : Request) (response : Response) (keys : Map String KeyRow) (key : String)
      → lookup string_discrete key (with_row r response keys)
        ≡ ite
            (string_discrete r.idempotency_key key)
            (some (new_row hash r (some response)))
            (lookup string_discrete key keys)
  unfolding record_outcome
  lookup-with_row r response keys key = ground (
    arith,
    lookup-insert string_discrete r.idempotency_key key (new_row hash r (some response))
        (insert string_discrete r.idempotency_key (new_row hash r none) keys),
    lookup-insert string_discrete r.idempotency_key key (new_row hash r none) keys,
  )

  with_row_lem :
      (r : Request) (response : Response) (keys : Map String KeyRow)
      → with_row r response keys
        ≡ insert string_discrete r.idempotency_key (new_row hash r (some response)) keys
  unfolding record_outcome
  with_row_lem r response keys =
      insert-insert string_discrete r.idempotency_key (new_row hash r (some response))
        (new_row hash r none) keys

  -- A row that is there stays as it is, whatever is asked later and whatever fails.
  row_kept :
      (f : Faults) (r : Request) (db : Database W) (key : String) (row : KeyRow)
      → lookup string_discrete key db.0 ≡ some row
      → lookup string_discrete key (require_idempotency_key hash next f r db).1.0 ≡ some row
  row_kept f r db key row h = elim (step f r db) [
    | unchanged e ↦ rw e h
    | recorded response w k re co absent ran out ↦
        rw out (ground (arith, lookup-with_row r response db.0 key))
  ]

  rows_kept :
      (later : List (Faults × Request)) (db : Database W) (key : String) (row : KeyRow)
      → lookup string_discrete key db.0 ≡ some row
      → lookup string_discrete key (serve_all hash next later db).0 ≡ some row
  unfolding serve_all
  rows_kept [] db key row h = h
  rows_kept ((f, r) ∷ rest) db key row h =
      rows_kept rest (require_idempotency_key hash next f r db).1 key row
        (row_kept f r db key row h)

  -- The first request with a key: it runs, its answer is sent and recorded with what it changed.
  pub first_lem :
      (f : Faults) (r : Request) (db : Database W) (response : Response) (w : W)
      → r.idempotency_key ≢ ""
      → ReachesKey f
      → Commits f
      → lookup string_discrete r.idempotency_key db.0 ≡ none
      → next r db.1 ≡ (answered response, w)
      → require_idempotency_key hash next f r db ≡ (sent response, (with_row r response db.0, w))
  unfolding require_idempotency_key run_fresh_request
  first_lem f r db response w k re co absent ran =
      rw (if_neg _ k, re.0, re.1, re.2, absent, ran, co.0, co.1, co.2) refl

  -- A request whose key has a row.
  pub repeat_lem :
      (f : Faults) (r : Request) (db : Database W) (row : KeyRow)
      → r.idempotency_key ≢ ""
      → ReachesKey f
      → f.select_key ≡ none
      → lookup string_discrete r.idempotency_key db.0 ≡ some row
      → (response : Response) → row.outcome ≡ some response
      → require_idempotency_key hash next f r db ≡ (
        ite
            (string_discrete row.request_hash (hash r.body))
            (sent response)
            (idempotency_key_reused r),
        db,
      )
  unfolding require_idempotency_key replay_cached_response
  repeat_lem f r db row k re s there response out =
      rw (if_neg _ k, re.0, re.1, re.2, there, s, there, out) refl

-- The first request with a key is answered by the handler, and however many requests come in
-- between and whatever fails in them, a later request with that key never runs the handler: with
-- the same body it is sent that first response, with another body it is refused with 422, and
-- nothing changes. The key is not empty, the first request meets no failure and no panic, and the
-- later one reads its row.
pub replays_first :
    {W : Type 0} (hash : String → String) (next : Request → W → Run × W) (f g : Faults)
    (r retry : Request) (later : List (Faults × Request)) (db : Database W) (response : Response)
    (w : W)
    → r.idempotency_key ≢ ""
    → ReachesKey f
    → Commits f
    → lookup string_discrete r.idempotency_key db.0 ≡ none
    → next r db.1 ≡ (answered response, w)
    → retry.idempotency_key ≡ r.idempotency_key
    → ReachesKey g
    → g.select_key ≡ none
    → (require_idempotency_key hash next f r db
        ≡ (sent response, (with_row hash next r response db.0, w)))
      × (hash retry.body ≡ hash r.body
          → require_idempotency_key hash next g retry
              (serve_all hash next later (require_idempotency_key hash next f r db).1)
            ≡ (
              sent response,
              serve_all hash next later (require_idempotency_key hash next f r db).1,
            ))
      × (hash retry.body ≢ hash r.body
          → require_idempotency_key hash next g retry
              (serve_all hash next later (require_idempotency_key hash next f r db).1)
            ≡ (
              idempotency_key_reused retry,
              serve_all hash next later (require_idempotency_key hash next f r db).1,
            ))
replays_first hash next f g r retry later db response w k re co absent ran same re' s =
    let first = first_lem hash next f r db response w k re co absent ran in
    let there =
      rows_kept hash next later (require_idempotency_key hash next f r db).1 r.idempotency_key
        (new_row hash r (some response))
        (rw first (ground (arith, lookup-with_row hash next r response db.0 r.idempotency_key))) in
    let again =
      repeat_lem hash next g retry
        (serve_all hash next later (require_idempotency_key hash next f r db).1)
        (new_row hash r (some response)) (rw same k) re' s (rw same there) response refl in
    (
      first,
      λ e. again ∙ rw (if_pos _ (sym e)) refl,
      λ n. again ∙ rw (if_neg _ (λ e. n (sym e))) refl,
    )

-- Every row of the table has its outcome.
abbrev pub HasOutcomes : Map String KeyRow → Type 0
HasOutcomes keys = All (λ (row : KeyRow). row.outcome ≢ none) (values keys)

-- A table in which every row has its outcome stays so, whatever is asked and whatever fails: the
-- row without one is never seen outside its transaction.
pub outcomes_recorded :
    {W : Type 0} (hash : String → String) (next : Request → W → Run × W)
    (rs : List (Faults × Request)) (db : Database W)
    → HasOutcomes db.0
    → HasOutcomes (serve_all hash next rs db).0
unfolding serve_all
outcomes_recorded hash next [] db h = h
outcomes_recorded hash next ((f, r) ∷ rest) db h =
    outcomes_recorded hash next rest (require_idempotency_key hash next f r db).1
      (elim (step hash next f r db) [
        | unchanged e ↦ rw e h
        | recorded response w k re co absent ran out ↦
            rw (out, with_row_lem hash next r response db.0)
              (All-insert string_discrete (λ (row : KeyRow). row.outcome ≢ none) r.idempotency_key
                (new_row hash r (some response)) db.0 h (λ e. cc))
      ])
