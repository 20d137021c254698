-- ===== src/Idempotency/OncePerKey.antt =====
-- What a sequence of requests does to the service behind the middleware (idempotency.go).
use fulfillment_execution.Prelude.{
  String, Bool, true, false, ◌&&◌, not, ◌≡◌, refl, ap, sym, ◌∙◌, ◌≢◌, ◌⊎◌, inl, inr, Option, none,
  some, List, [], ◌∷◌, Map, lookup, ite, if◌then◌else◌, string_discrete, if_pos, if_neg, arith,
  Option-cases, Bool-cases,
}
use fulfillment_execution.Http.{Response}
use fulfillment_execution.Idempotency.{
  Request, KeyRow, Run, answered, panicked, Faults, Database, require_idempotency_key,
}
use fulfillment_execution.Idempotency.Replays.{
  serve_all, ReachesKey, Commits, unchanged, recorded, step, with_row, lookup-with_row, first_lem,
}

abbrev pub is_none : {A : Type 0} → Option A → Bool
is_none none = true
is_none (some _) = false

abbrev pub contains : String → List String → Bool
contains k [] = false
contains k (j ∷ js) = ite (string_discrete j k) true (contains k js)

-- A request that can be recorded: it names a key, and none of its calls fails.
abbrev pub counts : Faults → Request → Bool
counts f r =
    not (ite (string_discrete r.idempotency_key "") true false)
    && is_none f.body_read
    && is_none f.begin_tx
    && is_none f.insert_key
    && is_none f.marshal_headers
    && is_none f.update_key
    && is_none f.commit_tx

Run-cases :
    {W : Type 0} (ran : Run × W)
    → (ran.0 ≡ panicked) ⊎ ((response : Response) × (w : W) × (ran ≡ (answered response, w)))
Run-cases (panicked, w) = inl refl
Run-cases (answered response, w) = inr (response, w, refl)

-- What the middleware is for: of the requests that can be recorded, the handler runs on the first
-- with each key that it answers, in their order, and on no other.
module _ {W : Type 0} (next : Request → W → Run × W) where
  resume : (List String → W → W) → String → List String → W → Run × W → W
  resume go key seen w (answered _, w') = go (key ∷ seen) w'
  resume go key seen w (panicked, _) = go seen w

  unfoldable pub once_per_key : List (Faults × Request) → List String → W → W
  unfolding resume
  once_per_key [] seen w = w
  once_per_key ((f, r) ∷ rest) seen w =
      let skip = once_per_key rest seen w in
      let run = resume (once_per_key rest) r.idempotency_key seen w (next r w) in
      if counts f r && not (contains r.idempotency_key seen) then run else skip

is_none-none : {A : Type 0} (o : Option A) → is_none o ≡ true → o ≡ none
is_none-none none e = refl
is_none-none (some a) e = cc

counts-true :
    (f : Faults) (r : Request)
    → r.idempotency_key ≢ ""
    → ReachesKey f
    → Commits f
    → counts f r ≡ true
counts-true f r k re co = rw (if_neg _ k, re.0, re.1, re.2, co.0, co.1, co.2) refl

all_true :
    (b t i m u c : Bool)
    → (b && t && i && m && u && c) ≡ true
    → (b ≡ true) × (t ≡ true) × (i ≡ true) × (m ≡ true) × (u ≡ true) × (c ≡ true)
all_true b t i m u c e = ground arith

true-counts :
    (f : Faults) (r : Request)
    → counts f r ≡ true
    → (r.idempotency_key ≢ "") × ReachesKey f × Commits f
true-counts f r e = elim (string_discrete r.idempotency_key "") [
  | yes k ↦ absurd (let e' = rw (if_pos _ k) at e in cc)
  | no k ↦
      let (b, t, i, m, u, c) = all_true _ _ _ _ _ _ (rw (if_neg _ k) at e) in
      (
        k,
        (is_none-none f.body_read b, is_none-none f.begin_tx t, is_none-none f.insert_key i),
        (is_none-none f.marshal_headers m, is_none-none f.update_key u, is_none-none f.commit_tx c),
      )
]

module _ {W : Type 0} (next : Request → W → Run × W) where
  once-skip :
      (f : Faults) (r : Request) (rest : List (Faults × Request)) (seen : List String) (w : W)
      → (counts f r && not (contains r.idempotency_key seen)) ≡ false
      → once_per_key next ((f, r) ∷ rest) seen w ≡ once_per_key next rest seen w
  unfolding once_per_key
  once-skip f r rest seen w e = rw e refl

  once-panic :
      (f : Faults) (r : Request) (rest : List (Faults × Request)) (seen : List String) (w : W)
      → (next r w).0 ≡ panicked
      → once_per_key next ((f, r) ∷ rest) seen w ≡ once_per_key next rest seen w
  unfolding once_per_key
  once-panic f r rest seen w e = ground arith

  once-run :
      (f : Faults) (r : Request) (rest : List (Faults × Request)) (seen : List String) (w : W)
      → counts f r ≡ true
      → contains r.idempotency_key seen ≡ false
      → (response : Response) (w' : W) → next r w ≡ (answered response, w')
      → once_per_key next ((f, r) ∷ rest) seen w
        ≡ once_per_key next rest (r.idempotency_key ∷ seen) w'
  unfolding once_per_key
  once-run f r rest seen w c n response w' ran = rw (c, n, ran) refl

module _ {W : Type 0} (hash : String → String) (next : Request → W → Run × W) where
  -- The keys that are taken are those of the table.
  abbrev Agree : List String → Map String KeyRow → Type 0
  Agree seen keys = (k : String) → contains k seen ≡ not (is_none (lookup string_discrete k keys))

  -- A request that cannot be recorded, whose key is taken or whose handler panics changes nothing.
  skipped :
      (f : Faults) (r : Request) (db : Database W)
      → (counts f r ≡ false)
        ⊎ (is_none (lookup string_discrete r.idempotency_key db.0) ≡ false)
        ⊎ ((next r db.1).0 ≡ panicked)
      → (require_idempotency_key hash next f r db).1 ≡ db
  skipped f r db why = elim (step hash next f r db) [
    | unchanged e ↦ e
    | recorded response w k re co absent ran out ↦ absurd (elim why [
      | inl e ↦ let c = counts-true f r k re co in cc
      | inr (inl e) ↦ let e' = rw absent at e in cc
      | inr (inr e) ↦ let e' = rw ran at e in cc
    ])
  ]

  with_row-Agree :
      (seen : List String) (db : Database W)
      → Agree seen db.0
      → (r : Request) (response : Response) (w : W)
      → Agree (r.idempotency_key ∷ seen) (with_row hash next r response db.0)
  with_row-Agree seen db agree r response w k =
      ground (arith, lookup-with_row hash next r response db.0 k, agree k)

  once_per_key-from :
      (rs : List (Faults × Request)) (seen : List String) (db : Database W)
      → ((k : String) → contains k seen ≡ not (is_none (lookup string_discrete k db.0)))
      → (serve_all hash next rs db).1 ≡ once_per_key next rs seen db.1
  unfolding serve_all once_per_key
  once_per_key-from [] seen db agree = refl
  once_per_key-from ((f, r) ∷ rest) seen db agree =
      let taken = agree r.idempotency_key in
      let pass : (require_idempotency_key hash next f r db).1 ≡ db
          → once_per_key next ((f, r) ∷ rest) seen db.1 ≡ once_per_key next rest seen db.1
          → (serve_all hash next rest (require_idempotency_key hash next f r db).1).1
            ≡ once_per_key next ((f, r) ∷ rest) seen db.1 =
        λ same skip.
          ap (λ (x : Database W). (serve_all hash next rest x).1) same
          ∙ once_per_key-from rest seen db agree
          ∙ sym skip in
      elim (Bool-cases (counts f r)) [
        | inr e ↦ pass (skipped f r db (inl e)) (once-skip next f r rest seen db.1 (ground arith))
        | inl e ↦ elim (Option-cases (lookup string_discrete r.idempotency_key db.0)) [
          | inr (row, there) ↦
              pass (skipped f r db (inr (inl (rw there refl))))
                (once-skip next f r rest seen db.1 (rw (taken, there, e) refl))
          | inl absent ↦ elim (Run-cases (next r db.1)) [
            | inl p ↦ pass (skipped f r db (inr (inr p))) (once-panic next f r rest seen db.1 p)
            | inr (response, w, ran) ↦
                let (k, re, co) = true-counts f r e in
                ap (λ x. (serve_all hash next rest x.1).1)
                  (first_lem hash next f r db response w k re co absent ran)
                ∙ once_per_key-from rest (r.idempotency_key ∷ seen)
                    (with_row hash next r response db.0, w)
                    (with_row-Agree seen db agree r response w)
                ∙ sym (once-run next f r rest seen db.1 e (rw (taken, absent) refl) response w ran)
          ]
        ]
      ]

-- However many requests are made, whatever fails in each of them and whenever the handler panics,
-- the handler's state is in the end what it is when, of the requests with a key and no failure, only
-- the first with each key that the handler answers is run. The keys that count as taken at the
-- start are those of the table.
pub serve_all-once_per_key :
    {W : Type 0} (hash : String → String) (next : Request → W → Run × W)
    (rs : List (Faults × Request)) (seen : List String) (db : Database W)
    → ((k : String) → contains k seen ≡ not (is_none (lookup string_discrete k db.0)))
    → (serve_all hash next rs db).1 ≡ once_per_key next rs seen db.1
serve_all-once_per_key hash next rs seen db agree = once_per_key-from hash next rs seen db agree
