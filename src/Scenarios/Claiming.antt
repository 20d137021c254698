-- ===== src/Scenarios/Claiming.antt =====
-- Tests of ClaimNext (internal/application/usecases/claim_next.go).
use fulfillment_execution.Prelude.{
  Bool, false, lookup, pos, refl, string_discrete, ℤ, ◌≡◌, ◌≤◌, ◌⊎◌,
}
use fulfillment_execution.Scenarios.Samples.{bench, calm, floor, shelf-IsCoherent}
use fulfillment_execution.Shared.{StationId}
use fulfillment_execution.Station.{Station}
use fulfillment_execution.Task.{Task, TaskType, claim}
use fulfillment_execution.UseCases.ClaimNext.{claim_next}
use fulfillment_execution.UseCases.ClaimNext.BestFit.{Fit, claim_next_earliest, with_claim}
use fulfillment_execution.UseCases.Effects.{
  Env, World, err, lease_duration_or_default, no_claimable_task, ok,
}
use fulfillment_execution.Memory.StationRepo as StationRepo

claim_next_earliest_example :
    let env : Env = calm 10 in
    let in_tx : Bool = false in
    let lease : ℤ = pos 30 in
    let s : StationId = "bench" in
    let ty : TaskType = "PICK" in
    let w : World = floor in
    let st : Station = bench in
    let given : Task → Task =
      λ t. (claim t s st.capabilities env.now (lease_duration_or_default lease)).0 in
    ((t : Task) × Fit w env.now ty st.capabilities t
      × ((o : Task) → Fit w env.now ty st.capabilities o → t.cpt.at ≤ o.cpt.at)
      × (claim_next env in_tx lease s ty w ≡ (ok (given t), with_claim w (given t) s env.now)))
    ⊎ (((o : Task) → ¬ Fit w env.now ty st.capabilities o)
        × (claim_next env in_tx lease s ty w ≡ (err no_claimable_task, w)))
unfolding StationRepo.find_by_id lookup string_discrete
claim_next_earliest_example =
    claim_next_earliest (calm 10) false (pos 30) "bench" "PICK" floor bench (λ c. refl)
      shelf-IsCoherent refl
