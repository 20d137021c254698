-- ===== src/Scenarios/Keys.antt =====
-- Tests of the idempotency middleware (internal/adapters/inbound/http/idempotency.go).
use fulfillment_execution.Prelude.{
  List, String, [], lookup, refl, some, true, values, ◌∷◌, ◌≡◌, ◌≢◌,
}
use fulfillment_execution.Http.{Response}
use fulfillment_execution.Http.Handlers.{post_task}
use fulfillment_execution.Idempotency.{
  Database, Faults, Request, Run, idempotency_key_reused, require_idempotency_key, sent,
}
use fulfillment_execution.Idempotency.OncePerKey.{once_per_key, serve_all-once_per_key}
use fulfillment_execution.Idempotency.Replays.{
  HasOutcomes, outcomes_recorded, replays_first, serve_all, with_row,
}
use fulfillment_execution.Scenarios.Samples.{
  desk, floor, new_task, no_faults, posted, tasks_endpoint,
}
use fulfillment_execution.UseCases.Effects.{World}

replays_first_example :
    let W : Type 0 = World in
    let hash : String → String = λ s. s in
    let next : Request → W → Run × W = tasks_endpoint in
    let f : Faults = no_faults in
    let g : Faults = no_faults in
    let r : Request = posted in
    let retry : Request = posted in
    let later : List (Faults × Request) = [] in
    let db : Database W = ([], floor) in
    let response : Response = (post_task desk true "/tasks" (some new_task) floor).0 in
    let w : W = (post_task desk true "/tasks" (some new_task) floor).1 in
    (require_idempotency_key hash next f r db
      ≡ (sent response, (with_row hash next r response db.0, w)))
    × (hash retry.body ≡ hash r.body
        → require_idempotency_key hash next g retry
            (serve_all hash next later (require_idempotency_key hash next f r db).1)
          ≡ (sent response, serve_all hash next later (require_idempotency_key hash next f r db).1))
    × (hash retry.body ≢ hash r.body
        → require_idempotency_key hash next g retry
            (serve_all hash next later (require_idempotency_key hash next f r db).1)
          ≡ (
            idempotency_key_reused retry,
            serve_all hash next later (require_idempotency_key hash next f r db).1,
          ))
unfolding lookup
replays_first_example =
    replays_first {W = World} (λ s. s) tasks_endpoint no_faults no_faults posted posted []
      (([], floor)) ((post_task desk true "/tasks" (some new_task) floor).0)
      ((post_task desk true "/tasks" (some new_task) floor).1) (λ e. cc) (refl, refl, refl)
      (refl, refl, refl) refl refl refl (refl, refl, refl) refl

outcomes_recorded_example :
    let W : Type 0 = World in
    let hash : String → String = λ s. s in
    let next : Request → W → Run × W = tasks_endpoint in
    let rs : List (Faults × Request) = (no_faults, posted) ∷ [] in
    let db : Database W = ([], floor) in HasOutcomes (serve_all hash next rs db).0
unfolding values
outcomes_recorded_example =
    outcomes_recorded {W = World} (λ s. s) tasks_endpoint ((no_faults, posted) ∷ []) (([], floor))
      tt

serve_all-once_per_key_example :
    let W : Type 0 = World in
    let hash : String → String = λ s. s in
    let next : Request → W → Run × W = tasks_endpoint in
    let rs : List (Faults × Request) = (no_faults, posted) ∷ (no_faults, posted) ∷ [] in
    let seen : List String = [] in
    let db : Database W = ([], floor) in
    (serve_all hash next rs db).1 ≡ once_per_key next rs seen db.1
unfolding lookup
serve_all-once_per_key_example =
    serve_all-once_per_key {W = World} (λ s. s) tasks_endpoint
      ((no_faults, posted) ∷ (no_faults, posted) ∷ []) [] (([], floor)) (λ k. refl)
