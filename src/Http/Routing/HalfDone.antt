-- ===== src/Http/Routing/HalfDone.antt =====
-- POST /tasks in the transaction of the middleware (internal/adapters/inbound/http/router.go,
-- idempotency.go, internal/adapters/outbound/postgres/unit_of_work.go).
use fulfillment_execution.Prelude.{
  String, ◌≡◌, refl, ap, ◌≢◌, true, false, none, some, [], ◌∷◌, lookup, string_discrete, arith,
  if_pos,
}
use fulfillment_execution.Shared.{new_cpt}
use fulfillment_execution.Shared.Capabilities.{new_capability_set}
use fulfillment_execution.Shared.Events.{task_created}
use fulfillment_execution.Task as Task
use fulfillment_execution.Memory.TaskRepo as TaskRepo
use fulfillment_execution.UseCases.Effects.{
  World, err, atomically, publish, publishes, saves_task, port_failed,
}
use fulfillment_execution.UseCases.TaskCalls.{create_task, save_task}
use fulfillment_execution.Idempotency.{Request, answered, Faults, sent, Database}
use fulfillment_execution.Idempotency.Replays.{ReachesKey, Commits, with_row, first_lem}
use fulfillment_execution.Http.{Response}
use fulfillment_execution.Http.Errors.{write_error, write_bad_request_no_instance}
use fulfillment_execution.Http.Requests.{CreateTaskRequest, validate_create_task}
use fulfillment_execution.Http.Handlers.{Handlers, Handler, validated, respond, answer, post_task}
use fulfillment_execution.Http.Serving.{create, serve}
use fulfillment_execution.Http.Routing.{wrapped_post_task, route}

-- The answer to a task whose TaskCreated cannot be published.
abbrev untold : Handlers → Request → Response
untold h r =
    write_error h.message r.path
      (port_failed (publishes (task_created h.new_task_id h.env.now ∷ [])))

-- The world with the requested task stored.
abbrev with_task : Handlers → CreateTaskRequest → World → World
with_task h req w = record w {
  tasks = TaskRepo.save w.tasks (
      Task.new h.new_task_id req.task_type (new_cpt req.cpt) req.order_ref
        (new_capability_set req.required_capabilities) req.fragile false);
}

module _ (h : Handlers) (r : Request) (req : CreateTaskRequest)
    (valid : validate_create_task req ≡ "") (unit : h.env.unit_of_work ≡ true)
    (saves : h.env.fails (saves_task h.new_task_id) ≡ false)
    (untellable : h.env.fails (publishes (task_created h.new_task_id h.env.now ∷ [])) ≡ true) where
  valid_rest :
      (bad : String → Response) (rest : CreateTaskRequest → Handler)
      → validated bad validate_create_task (some req) rest ≡ rest req
  unfolding validated
  valid_rest bad rest = if_pos (string_discrete (validate_create_task req) "") valid _ _

  -- Inside the middleware's transaction the use case takes nothing back.
  run_joined :
      (w : World)
      → (create_task h.env true h.new_task_id req.task_type
          (new_cpt req.cpt)
          req.order_ref
          (new_capability_set req.required_capabilities)
          req.fragile
          false
          w)
        ≡ (
          err (port_failed (publishes (task_created h.new_task_id h.env.now ∷ []))),
          with_task h req w,
        )
  unfolding create_task atomically save_task publish Task.new TaskRepo.save
  run_joined w = rw (unit, saves, untellable) refl

  -- On its own it takes the task back.
  run_alone :
      (w : World)
      → (create_task h.env false h.new_task_id req.task_type
          (new_cpt req.cpt)
          req.order_ref
          (new_capability_set req.required_capabilities)
          req.fragile
          false
          w).1
        ≡ w
  unfolding create_task atomically save_task publish
  run_alone w = ground arith

  joined :
      (w : World) → wrapped_post_task h (some req) r w ≡ (answered (untold h r), with_task h req w)
  unfolding wrapped_post_task post_task respond answer
  joined w = rw (valid_rest write_bad_request_no_instance _, run_joined w) refl

  alone : (w : World) → (serve h false r.path (create (some req)) w).1 ≡ w
  unfolding serve post_task respond
  alone w = rw (valid_rest write_bad_request_no_instance _) (run_alone w)

  -- A task whose TaskCreated cannot be published: with the idempotency pool, the first request with
  -- its key answers with the error, and yet keeps the task, and keeps the error for each retry;
  -- without the pool the request changes nothing. The publication fails while the transaction can
  -- still commit.
  pub route-keeps_untold_task :
      (hash : String → String) (f : Faults) (db : Database World)
      → r.idempotency_key ≢ ""
      → ReachesKey f
      → Commits f
      → lookup string_discrete r.idempotency_key db.0 ≡ none
      → (route hash h true f r (create (some req)) db ≡ (
        sent (untold h r),
        (with_row hash (wrapped_post_task h (some req)) r (untold h r) db.0, with_task h req db.1),
      ))
        × ((route hash h false f r (create (some req)) db).1 ≡ db)
  unfolding route
  route-keeps_untold_task hash f db k re co absent = (
    first_lem hash (wrapped_post_task h (some req)) f r db (untold h r) (with_task h req db.1) k re
        co absent (joined db.1),
    ap (λ (w : World). (db.0, w)) (alone db.1),
  )
