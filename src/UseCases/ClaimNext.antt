-- ===== src/UseCases/ClaimNext.antt =====
-- internal/application/usecases/claim_next.go: pull dispatch. Metrics only count, and are left out.
pub mod BestFit
use fulfillment_execution.Prelude.{ℕ, Bool, true, false, Option, none, some, List, [], ◌∷◌, ℤ}
use fulfillment_execution.Shared.{TaskId, StationId, Time}
use fulfillment_execution.Shared.Capabilities.{CapabilitySet}
use fulfillment_execution.Shared.Events.{task_claimed}
use fulfillment_execution.Task.{Task, TaskType, TaskError, claim}
use fulfillment_execution.Station.{Station}
use fulfillment_execution.Memory.StationRepo as StationRepo
use fulfillment_execution.Memory.TaskRepo as TaskRepo
use fulfillment_execution.UseCases.Effects.{
  World, Env, M, ◌>>=◌, ◌>>◌, pure, fail, get, put, or_fail, calls, publish, atomically,
  claims_task, finds_station, lists_claimable, station_not_found, no_claimable_task,
  lease_duration_or_default, Result, ok, err, continue,
}

-- `uc.Tasks.SaveClaim`
unfoldable pub save_claim : Env → Task → Time → M Bool
save_claim env t now = do
  calls env (claims_task t.id)
  w ← get
  put λ w. record w { tasks = (TaskRepo.save_claim w.tasks t now).0 }
  pure (TaskRepo.save_claim w.tasks t now).1

-- The function that `persistClaim` runs atomically.
unfoldable pub claim_and_publish : Env → Task → StationId → Time → M Bool
unfolding save_claim publish
claim_and_publish env t station_id now = do
  won ← save_claim env t now
  elim won [
    | false ↦ pure false
    | true ↦ publish env (task_claimed t.id station_id now ∷ []) >> pure true
  ]

unfoldable pub persist_claim : Env → Bool → Task → StationId → Time → M Bool
unfolding atomically claim_and_publish
persist_claim env in_tx t station_id now =
    atomically env in_tx λ _. claim_and_publish env t station_id now

-- The loop over the candidates.
unfoldable pub try_candidates :
    Env → Bool → StationId → CapabilitySet → Time → ℕ → List Task → M Task
try_candidates env in_tx station_id capabilities now d [] = fail no_claimable_task
try_candidates env in_tx station_id capabilities now d (t ∷ ts) =
    let (claimed, refusal) = claim t station_id capabilities now d in
    elim refusal [
      | some _ ↦ try_candidates env in_tx station_id capabilities now d ts
      | none ↦ persist_claim env in_tx claimed station_id now >>= λ won. elim won [
        | true ↦ pure claimed
        | false ↦ try_candidates env in_tx station_id capabilities now d ts
      ]
    ]

unfoldable pub claim_next : Env → Bool → ℤ → StationId → TaskType → M Task
unfolding try_candidates
claim_next env in_tx lease_duration station_id task_type = do
  calls env (finds_station station_id)
  w ← get
  st ← or_fail (StationRepo.find_by_id w.stations station_id) station_not_found
  calls env (lists_claimable task_type)
  try_candidates env in_tx station_id st.capabilities env.now
      (lease_duration_or_default lease_duration)
      (TaskRepo.find_claimable_by_type w.tasks task_type env.now)
