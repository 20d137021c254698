-- ===== src/Http/Serving/Failures.antt =====
-- What a request that is refused has changed (internal/adapters/inbound/http).
use fulfillment_execution.Prelude.{
  ◌≤◌, ◌<◌, ◌≡◌, refl, String, true, false, none, some, string_discrete, arith,
}
use fulfillment_execution.UseCases.Effects.{World, M, Result, ok, err}
use fulfillment_execution.UseCases.TaskCalls.Outcomes.{
  create_task_outcome, complete_task_outcome, renew_lease_outcome,
}
use fulfillment_execution.UseCases.RunSlam.Outcomes.{run_slam_outcome}
use fulfillment_execution.UseCases.ArriveAtRebin.Outcomes.{arrival-outcome}
use fulfillment_execution.UseCases.Stations.Outcomes.{
  register_station_outcome, check_in_station_outcome, check_out_station_outcome,
}
use fulfillment_execution.UseCases.FailsClean.{FailsClean, Undone, outcome-FailsClean}
use fulfillment_execution.UseCases.FailsClean.Calls.{
  claim_next-FailsClean, seal_package-FailsClean, get_queue_depth-FailsClean,
  get_installed_capacity-FailsClean, get_package-FailsClean, get_packages-FailsClean,
  get_tasks-FailsClean,
}
use fulfillment_execution.Http.{Response}
use fulfillment_execution.Http.Handlers.{
  Handlers, answer, respond, post_task, post_claim_next, post_renew_lease, post_complete_task,
  post_seal_package, post_run_slam, get_package_handler, get_packages_handler,
  get_queue_depth_handler, get_installed_capacity_handler, get_tasks_handler, post_register_station,
  get_healthz, get_readyz, post_check_in_station, post_check_out_station, post_arrive_at_rebin,
}
use fulfillment_execution.Http.Serving.{Call, serve, is_sweep}
use fulfillment_execution.Http.Serving.Ensures.{
  Ensures, ite-Ensures, refuse-Ensures, validated-Ensures, respond-Ensures,
}

abbrev Kept : World → Response × World → Type 0
Kept w answered = 400 ≤ answered.0.status → answered.1 ≡ w

module _ (h : Handlers) (path : String) where
  answer-kept :
      {A : Type 0} (done : A → Response) (r : Result A) (w v : World)
      → ((a : A) → (done a).status < 400)
      → Undone w r v
      → 400 ≤ (answer h path done r).status
      → v ≡ w
  unfolding answer
  answer-kept done (ok a) w v d p l = absurd (let below = d a in omega arith)
  answer-kept done (err e) w v d p l = p

  respond-Kept :
      {A : Type 0} (done : A → Response) (m : M A)
      → ((a : A) → (done a).status < 400)
      → FailsClean m
      → Ensures Kept (respond h path done m)
  respond-Kept done m d p =
      respond-Ensures h path done m λ w. answer-kept done (m w).0 w (m w).1 d (p.undone w)

module _ (h : Handlers) (path : String) (unit : h.env.unit_of_work ≡ true) where
  served : (call : Call) → is_sweep call ≡ false → Ensures Kept (serve h false path call)
  unfolding serve post_task post_claim_next post_renew_lease post_complete_task post_seal_package
      post_run_slam get_package_handler get_packages_handler get_queue_depth_handler
      get_installed_capacity_handler get_tasks_handler post_register_station get_healthz get_readyz
      post_check_in_station post_check_out_station post_arrive_at_rebin
  served Call.healthz s = record { holds = λ w l. refl }
  served Call.readyz s = record { holds = λ w l. ground arith }
  served (Call.register body) s =
      validated-Ensures _ _ body _ (λ _ w l. refl)
        λ req.
          respond-Kept h path _ _ (λ _. omega arith)
            (outcome-FailsClean _ (λ w. (register_station_outcome _ h.env _ _ _ w).1))
  served (Call.create body) s =
      validated-Ensures _ _ body _ (λ _ w l. refl)
        λ req.
          respond-Kept h path _ _ (λ _. omega arith)
            (outcome-FailsClean _ (λ w e. (create_task_outcome h.env _ _ _ _ _ _ _ w).1 e unit))
  served (Call.tasks ref) s =
      ite-Ensures (string_discrete ref "") (refuse-Ensures λ w l. refl)
        (respond-Kept h path _ _ (λ _. omega arith) (get_tasks-FailsClean h.env ref))
  served (Call.claim_next id body) s =
      validated-Ensures _ _ body _ (λ _ w l. refl)
        λ req. respond-Kept h path _ _ (λ _. omega arith) (claim_next-FailsClean h.env unit _ id _)
  served (Call.check_in id body) s =
      validated-Ensures _ _ body _ (λ _ w l. refl)
        λ req.
          respond-Kept h path _ _ (λ _. omega arith)
            (outcome-FailsClean _ (λ w. (check_in_station_outcome h.env id _ w).1))
  served (Call.check_out id) s =
      respond-Kept h path _ _ (λ _. omega arith)
        (outcome-FailsClean _ (λ w. (check_out_station_outcome h.env id w).1))
  served (Call.renew_lease id body) s =
      validated-Ensures _ _ body _ (λ _ w l. refl)
        λ req.
          respond-Kept h path _ _ (λ _. omega arith)
            (outcome-FailsClean _ (λ w. (renew_lease_outcome h.env _ id _ w).1))
  served (Call.complete id body) s =
      validated-Ensures _ _ body _ (λ _ w l. refl)
        λ req.
          respond-Kept h path _ _ (λ _. omega arith)
            (outcome-FailsClean _ (λ w e. (complete_task_outcome h.env id _ w).1 e unit))
  served (Call.seal_package id body) s =
      validated-Ensures _ _ body _ (λ _ w l. refl)
        λ req.
          respond-Kept h path _ _ (λ _. omega arith) (seal_package-FailsClean h.env unit _ _ id _ _)
  served (Call.packages ref) s =
      ite-Ensures (string_discrete ref "") (refuse-Ensures λ w l. refl)
        (respond-Kept h path _ _ (λ _. omega arith) (get_packages-FailsClean h.env ref))
  served (Call.one_package id) s =
      respond-Kept h path _ _ (λ _. omega arith) (get_package-FailsClean h.env id)
  served (Call.slam id none) s = refuse-Ensures λ w l. refl
  served (Call.slam id (some req)) s =
      respond-Kept h path _ _ (λ _. omega arith)
        (outcome-FailsClean _ (λ w e. (run_slam_outcome _ h.env id _ _ w).1 e unit))
  served (Call.queue_depth ty) s =
      respond-Kept h path _ _ (λ _. omega arith) (get_queue_depth-FailsClean h.env ty)
  served (Call.capacity c) s =
      respond-Kept h path _ _ (λ _. omega arith) (get_installed_capacity-FailsClean h.env c)
  served Call.expire_leases s = absurd (cc s)
  served Call.sweep_cpt_misses s = absurd (cc s)
  served (Call.arrivals body) s =
      validated-Ensures _ _ body _ (λ _ w l. refl)
        λ req.
          respond-Kept h path _ _ (λ _. omega arith)
            (outcome-FailsClean _ (λ w e. (arrival-outcome h.env _ _ _ _ w).1 e unit))

-- A request that is answered with a status of 400 or above has changed nothing: no store and no
-- published event, whichever port failed. The use cases run on a unit of work, the request is not
-- part of a larger transaction, and it is not one of the two sweeps, which keep what they did.
pub failure_changes_nothing :
    (h : Handlers) (path : String) (call : Call) (w : World)
    → h.env.unit_of_work ≡ true
    → is_sweep call ≡ false
    → 400 ≤ (serve h false path call w).0.status
    → (serve h false path call w).1 ≡ w
failure_changes_nothing h path call w unit s l = (served h path unit call s).holds w l
