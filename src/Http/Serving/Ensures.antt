-- ===== src/Http/Serving/Ensures.antt =====
-- What a handler ensures of its response and of the world that it leaves, by the shape of the
-- handler (internal/adapters/inbound/http/handlers.go).
use fulfillment_execution.Prelude.{String, Option, none, some, ite, string_discrete}
use fulfillment_execution.UseCases.Effects.{World, M}
use fulfillment_execution.Http.{Response}
use fulfillment_execution.Http.Handlers.{Handlers, Handler, answer, respond, refuse_with, validated}

pub record Ensures (Q : World → Response × World → Type 0) (handler : Handler) : Type 0 where
  pub holds : (w : World) → Q w (handler w)

module _ {Q : World → Response × World → Type 0} where
  pub ite-Ensures :
      {P : Type 0} (d : Dec P) {m n : Handler} → Ensures Q m → Ensures Q n → Ensures Q (ite d m n)
  ite-Ensures (yes e) p q = p
  ite-Ensures (no n) p q = q

  pub refuse-Ensures :
      {response : Response} → ((w : World) → Q w (response, w)) → Ensures Q (refuse_with response)
  refuse-Ensures p = record { holds = p }

  pub validated-Ensures :
      {R : Type 0} (bad : String → Response) (validate : R → String) (body : Option R)
      (rest : R → Handler)
      → ((text : String) (w : World) → Q w (bad text, w))
      → ((req : R) → Ensures Q (rest req))
      → Ensures Q (validated bad validate body rest)
  unfolding validated
  validated-Ensures bad validate none rest b p = record { holds = b _ }
  validated-Ensures bad validate (some req) rest b p =
      ite-Ensures (string_discrete (validate req) "") (p req) (record { holds = b (validate req) })

  pub respond-Ensures :
      {A : Type 0} (h : Handlers) (path : String) (done : A → Response) (m : M A)
      → ((w : World) → Q w (answer h path done (m w).0, (m w).1))
      → Ensures Q (respond h path done m)
  unfolding respond
  respond-Ensures h path done m p = record { holds = p }
