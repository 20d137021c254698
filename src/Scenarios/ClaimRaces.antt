-- ===== src/Scenarios/ClaimRaces.antt =====
-- Tests of the races for a claim (internal/adapters/outbound/memory/task_repo.go).
use fulfillment_execution.Prelude.{
  List, [], arith, false, insert, lookup, refl, some, string_discrete, true, ℕ, ◌+◌, ◌<◌, ◌∷◌, ◌≡◌,
}
use fulfillment_execution.Memory.TaskRepo.{
  TaskRepo, claimable, find_by_id, save, save_claim, snapshot_of,
}
use fulfillment_execution.Memory.TaskRepo.Claims.{
  Attempt, attempts, save_claim_at_most_once, stale_save_loses_claim,
}
use fulfillment_execution.Scenarios.Samples.{early, late, leased, packing, shelf}
use fulfillment_execution.Shared.{StationId, Time}
use fulfillment_execution.Shared.Capabilities.{CapabilitySet, contains, has_all}
use fulfillment_execution.Task.{Task, claim, expire_lease_if_due}
use fulfillment_execution.Memory.TaskRepo as TaskRepo

save_claim_at_most_once_example :
    let r : TaskRepo = shelf in
    let t : Task = leased early "bench" 50 in
    let u : Task = leased early "other" 60 in
    let now : Time = 10 in
    let later : Time = 12 in
    let between : List Attempt =
      record { copy = late; now = 11 } ∷ record { copy = early; now = 11 } ∷ [] in
    let r' = attempts (save_claim r t now).0 between in
    (find_by_id r' t.id ≡ some t) × (save_claim r' u later ≡ (r', false))
unfolding save_claim save claimable lookup insert string_discrete TaskRepo.empty
save_claim_at_most_once_example =
    save_claim_at_most_once shelf (leased early "bench" 50) (leased early "other" 60) 10 12
      (record { station_id = "bench"; expiry = 50 })
      (record { copy = late; now = 11 } ∷ record { copy = early; now = 11 } ∷ []) refl refl refl
      (omega arith, (omega arith, tt)) refl (omega arith)

stale_save_loses_claim_example :
    let r : TaskRepo = shelf in
    let t : Task = packing in
    let first : StationId = "bench" in
    let second : StationId = "other" in
    let caps : CapabilitySet = "scanner" ∷ [] in
    let caps' : CapabilitySet = "scanner" ∷ [] in
    let now : Time = 60 in
    let d : ℕ = 30 in
    let d' : ℕ = 30 in
    let won = save_claim r (claim t first caps now d).0 now in
    let swept = save won.0 (expire_lease_if_due t now).0 in
    (won.1 ≡ true)
    × (now < now + d)
    × (save_claim won.0 (claim t second caps' now d').0 now ≡ (won.0, false))
    × ((save_claim swept (claim t second caps' now d').0 now).1 ≡ true)
unfolding save expire_lease_if_due claim snapshot_of TaskRepo.empty lookup insert string_discrete
    has_all contains
stale_save_loses_claim_example =
    stale_save_loses_claim shelf packing "bench" "other" ("scanner" ∷ []) ("scanner" ∷ []) 60 30 30
      refl (omega arith) refl refl refl
