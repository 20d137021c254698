-- ===== src/Scenarios/TaskRules.antt =====
-- Tests of the rules of a task (internal/domain/task/task.go) at concrete values.
use fulfillment_execution.Prelude.{
  [], arith, none, refl, some, string_discrete, true, ℕ, ◌+◌, ◌∷◌, ◌≡◌, ◌≢◌,
}
use fulfillment_execution.Scenarios.Samples.{early, packing}
use fulfillment_execution.Shared.{StationId, Time}
use fulfillment_execution.Shared.Capabilities.{CapabilitySet, has_all}
use fulfillment_execution.Task.{
  Lease, Task, already_claimed, claim, complete, completed, expire_lease_if_due, not_claimed,
  not_owner, pending, renew_lease,
}
use fulfillment_execution.Task.Lifecycle.{claim_exclusive, expired_frees, owner_only}

claim_exclusive_example :
    let t : Task = early in
    let s : StationId = "bench" in
    let r : StationId = "other" in
    let caps : CapabilitySet = "scanner" ∷ [] in
    let caps' : CapabilitySet = "scanner" ∷ [] in
    let now : Time = 5 in
    let later : Time = 10 in
    let d : ℕ = 30 in
    let d' : ℕ = 7 in
    let held = (claim t s caps now d).0 in
    claim held r caps' later d' ≡ (held, some already_claimed)
unfolding claim has_all string_discrete
claim_exclusive_example =
    claim_exclusive early "bench" "other" ("scanner" ∷ []) ("scanner" ∷ []) 5 10 30 7 refl
      (omega arith)

owner_only_example :
    let t : Task = packing in
    let s : StationId = "bench" in
    let now : Time = 10 in
    let d : ℕ = 30 in
    let l : Lease = record { station_id = "bench"; expiry = 50 } in
    ((l.station_id ≡ s)
      → (complete t s now ≡ (record t { status = completed; lease = none }, none))
        × (renew_lease t s now d
            ≡ (record t { lease = some (record l { expiry = now + d }) }, none)))
    × (l.station_id ≢ s
        → (complete t s now ≡ (t, some not_owner)) × (renew_lease t s now d ≡ (t, some not_owner)))
owner_only_example =
    owner_only packing "bench" 10 30 (record { station_id = "bench"; expiry = 50 }) refl refl
      (omega arith)

expired_frees_example :
    let t : Task = packing in
    let s : StationId = "bench" in
    let caps : CapabilitySet = [] in
    let now : Time = 60 in
    let d : ℕ = 30 in
    let freed = record t { status = pending; lease = none } in
    (expire_lease_if_due t now ≡ (freed, true))
    × (complete t s now ≡ (freed, some not_claimed))
    × (renew_lease t s now d ≡ (freed, some not_claimed))
    × ((claim t s caps now d).1 ≡ (claim freed s caps now d).1)
expired_frees_example =
    expired_frees packing "bench" [] 60 30 (record { station_id = "bench"; expiry = 50 }) refl refl
      (omega arith)
