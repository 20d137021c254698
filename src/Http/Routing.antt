-- ===== src/Http/Routing.antt =====
-- internal/adapters/inbound/http/router.go: the router with an idempotency pool, which puts POST /tasks
-- behind the middleware, or without one.
pub mod HalfDone
use fulfillment_execution.Prelude.{String, Bool, true, false, Option}
use fulfillment_execution.UseCases.Effects.{World}
use fulfillment_execution.Idempotency.{
  Request, Run, answered, Faults, Answer, sent, Database, require_idempotency_key,
}
use fulfillment_execution.Http.Requests.{CreateTaskRequest}
use fulfillment_execution.Http.Handlers.{Handlers, post_task}
use fulfillment_execution.Http.Serving.{Call, serve, create}

module _ (h : Handlers) where
  -- `h.PostTask` behind the middleware, whose transaction stands in the context.
  unfoldable pub wrapped_post_task : Option CreateTaskRequest → Request → World → Run × World
  wrapped_post_task body r w =
      let (response, w') = post_task h true r.path body w in (answered response, w')

  -- A route without the middleware: the table of keys is not touched.
  abbrev pub plain : Request → Call → Database World → Answer × Database World
  plain r call db = let (response, w) = serve h false r.path call db.1 in (sent response, (db.0, w))

module _ (hash : String → String) (h : Handlers) where
  -- `cfg.idempotencyPool != nil`, on POST /tasks
  abbrev pub post_tasks :
      Bool → Faults → Request → Option CreateTaskRequest → Database World → Answer × Database World
  post_tasks true f r body db = require_idempotency_key hash (wrapped_post_task h body) f r db
  post_tasks false f r body db = plain h r (create body) db

  -- A matched request, with the body that the decoder makes of the request's.
  unfoldable pub route : Bool → Faults → Request → Call → Database World → Answer × Database World
  route pool f r (create body) db = post_tasks pool f r body db
  route pool f r call db = plain h r call db
