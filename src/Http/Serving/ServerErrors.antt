-- ===== src/Http/Serving/ServerErrors.antt =====
-- When a response says that the server failed (internal/adapters/inbound/http).
use fulfillment_execution.Prelude.{
  ◌<◌, ◌≡◌, refl, ◌⊎◌, inl, inr, String, Bool, true, false, none, some, string_discrete, arith,
  Bool-cases,
}
use fulfillment_execution.UseCases.Effects.{World, M, Result, ok, err}
use fulfillment_execution.UseCases.ClientErrors.{Calm, IsClient, OfClient}
use fulfillment_execution.UseCases.ClientErrors.Calls.{
  create_task-IsClient, complete_task-IsClient, renew_lease-IsClient, claim_next-IsClient,
  seal_package-IsClient, run_slam-IsClient, check_in_station-IsClient, check_out_station-IsClient,
  register_station-IsClient, arrive_at_rebin-IsClient, get_queue_depth-IsClient,
  get_installed_capacity-IsClient, get_package-IsClient, get_packages-IsClient, get_tasks-IsClient,
  expire_leases-OfClient, sweep_cpt_misses-OfClient,
}
use fulfillment_execution.Http.{Response}
use fulfillment_execution.Http.Errors.{write_error}
use fulfillment_execution.Http.Handlers.{
  Handlers, answer, respond, post_task, post_claim_next, post_renew_lease, post_complete_task,
  post_seal_package, post_run_slam, get_package_handler, get_packages_handler,
  get_queue_depth_handler, get_installed_capacity_handler, get_tasks_handler, post_expire_leases,
  post_sweep_cpt_misses, post_register_station, get_healthz, get_readyz, post_check_in_station,
  post_check_out_station, post_arrive_at_rebin,
}
use fulfillment_execution.Http.Serving.{Call, readyz, is_readyz, serve}
use fulfillment_execution.Http.Readiness.{ready}
use fulfillment_execution.Http.Serving.Ensures.{
  Ensures, ite-Ensures, refuse-Ensures, validated-Ensures, respond-Ensures,
}

abbrev Below : World → Response × World → Type 0
Below w answered = answered.0.status < 500

module _ (h : Handlers) (path : String) where
  answer-below :
      {A : Type 0} (done : A → Response) (r : Result A)
      → ((a : A) → (done a).status < 500)
      → OfClient r
      → (answer h path done r).status < 500
  unfolding answer write_error
  answer-below done (ok a) d p = d a
  answer-below done (err e) d p = p

  respond-Below :
      {A : Type 0} (done : A → Response) (m : M A)
      → ((a : A) → (done a).status < 500)
      → IsClient m
      → Ensures Below (respond h path done m)
  respond-Below done m d p =
      respond-Ensures h path done m λ w. answer-below done (m w).0 d (p.of_client w)

module _ (h : Handlers) (in_tx : Bool) (path : String) (calm : Calm h.env) where
  served : (call : Call) → is_readyz call ≡ false → Ensures Below (serve h in_tx path call)
  unfolding serve post_task post_claim_next post_renew_lease post_complete_task post_seal_package
      post_run_slam get_package_handler get_packages_handler get_queue_depth_handler
      get_installed_capacity_handler get_tasks_handler post_expire_leases post_sweep_cpt_misses
      post_register_station get_healthz post_check_in_station post_check_out_station
      post_arrive_at_rebin
  served Call.healthz s = record { holds = λ w. omega arith }
  served Call.readyz s = absurd (cc s)
  served (Call.register body) s =
      validated-Ensures _ _ body _ (λ _ w. omega arith)
        λ req.
          respond-Below h path _ _ (λ _. omega arith) (register_station-IsClient h.env calm _ _ _ _)
  served (Call.create body) s =
      validated-Ensures _ _ body _ (λ _ w. omega arith)
        λ req.
          respond-Below h path _ _ (λ _. omega arith)
            (create_task-IsClient h.env calm in_tx _ _ _ _ _ _ _)
  served (Call.tasks ref) s =
      ite-Ensures (string_discrete ref "") (refuse-Ensures λ w. omega arith)
        (respond-Below h path _ _ (λ _. omega arith) (get_tasks-IsClient h.env calm ref))
  served (Call.claim_next id body) s =
      validated-Ensures _ _ body _ (λ _ w. omega arith)
        λ req.
          respond-Below h path _ _ (λ _. omega arith) (claim_next-IsClient h.env calm in_tx _ id _)
  served (Call.check_in id body) s =
      validated-Ensures _ _ body _ (λ _ w. omega arith)
        λ req.
          respond-Below h path _ _ (λ _. omega arith) (check_in_station-IsClient h.env calm id _)
  served (Call.check_out id) s =
      respond-Below h path _ _ (λ _. omega arith) (check_out_station-IsClient h.env calm id)
  served (Call.renew_lease id body) s =
      validated-Ensures _ _ body _ (λ _ w. omega arith)
        λ req. respond-Below h path _ _ (λ _. omega arith) (renew_lease-IsClient h.env calm _ id _)
  served (Call.complete id body) s =
      validated-Ensures _ _ body _ (λ _ w. omega arith)
        λ req.
          respond-Below h path _ _ (λ _. omega arith) (complete_task-IsClient h.env calm in_tx id _)
  served (Call.seal_package id body) s =
      validated-Ensures _ _ body _ (λ _ w. omega arith)
        λ req.
          respond-Below h path _ _ (λ _. omega arith)
            (seal_package-IsClient h.env calm _ in_tx _ id _ _)
  served (Call.packages ref) s =
      ite-Ensures (string_discrete ref "") (refuse-Ensures λ w. omega arith)
        (respond-Below h path _ _ (λ _. omega arith) (get_packages-IsClient h.env calm ref))
  served (Call.one_package id) s =
      respond-Below h path _ _ (λ _. omega arith) (get_package-IsClient h.env calm id)
  served (Call.slam id none) s = refuse-Ensures λ w. omega arith
  served (Call.slam id (some req)) s =
      respond-Below h path _ _ (λ _. omega arith) (run_slam-IsClient h.env calm _ in_tx id _ _)
  served (Call.queue_depth ty) s =
      respond-Below h path _ _ (λ _. omega arith) (get_queue_depth-IsClient h.env calm ty)
  served (Call.capacity c) s =
      respond-Below h path _ _ (λ _. omega arith) (get_installed_capacity-IsClient h.env calm c)
  served Call.expire_leases s = record {
    holds =
        λ w. answer-below h path _ _ (λ _. omega arith) (expire_leases-OfClient h.env calm in_tx w);
  }
  served Call.sweep_cpt_misses s = record {
    holds = λ w.
        answer-below h path _ _ (λ _. omega arith) (sweep_cpt_misses-OfClient h.env calm in_tx w);
  }
  served (Call.arrivals body) s =
      validated-Ensures _ _ body _ (λ _ w. omega arith)
        λ req.
          respond-Below h path _ _ (λ _. omega arith)
            (arrive_at_rebin-IsClient h.env calm in_tx _ _ _ _)

is_readyz-only : (call : Call) → is_readyz call ≡ true → call ≡ readyz
is_readyz-only call e = ground arith

readyz-answer :
    (h : Handlers) (in_tx : Bool) (path : String) (w : World)
    → ((serve h in_tx path readyz w).0.status < 500)
      ⊎ ((ready h.readiness ≡ false) × ((serve h in_tx path readyz w).0.status ≡ 503))
unfolding serve get_readyz
readyz-answer h in_tx path w = elim (Bool-cases (ready h.readiness)) [
  | inl e ↦ inl (ground arith)
  | inr e ↦ inr (e, ground arith)
]

-- While no port fails, whatever is asked of the router without an idempotency pool, a response has a
-- status of 500 or above only where it is the 503 of GET /readyz, once the readiness gate is closed:
-- every other error is the client's.
pub no_server_error :
    (h : Handlers) (in_tx : Bool) (path : String) (call : Call) (w : World)
    → Calm h.env
    → ((serve h in_tx path call w).0.status < 500)
      ⊎ ((call ≡ readyz)
          × (ready h.readiness ≡ false)
          × ((serve h in_tx path call w).0.status ≡ 503))
no_server_error h in_tx path call w calm = elim (Bool-cases (is_readyz call)) [
  | inr other ↦ inl ((served h in_tx path calm call other).holds w)
  | inl asked ↦
      let same = is_readyz-only call asked in
      rw same (elim (readyz-answer h in_tx path w) [
        | inl below ↦ inl below
        | inr (closed, status) ↦ inr (refl, closed, status)
      ])
]
