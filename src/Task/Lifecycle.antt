-- ===== src/Task/Lifecycle.antt =====
-- What one call of a method of the Task aggregate (internal/domain/task/task.go) guarantees.
use fulfillment_execution.Prelude.{
  ℕ, ◌+◌, ◌≤◌, ◌<◌, ◌≡◌, refl, ap, ◌≢◌, ◌↔◌, Bool, true, false, Option, none, some, arith,
}
use fulfillment_execution.Shared.{StationId, Time, Cpt, TaskId, OrderRef}
use fulfillment_execution.Shared.Capabilities.{CapabilitySet, has_all}
use fulfillment_execution.Task.{
  Task, TaskType, pending, claimed, completed, already_claimed, not_claimed, not_owner,
  already_completed, Lease, new, is_available, is_claimed, is_cpt_missed, expire_lease_if_due,
  claim, renew_lease, complete,
}

abbrev pub is_some {ℓ} : {A : Type ℓ} → Option A → Bool
is_some none = false
is_some (some _) = true

-- A lease is held exactly while the task is claimed.
pub record IsValid (t : Task) : Type 0 where
  pub leased_iff_claimed : is_some t.lease ≡ is_claimed t.status

pub new-IsValid :
    (id : TaskId) (ty : TaskType) (cpt : Cpt) (ref : OrderRef) (caps : CapabilitySet) (f g : Bool)
    → IsValid (new id ty cpt ref caps f g)
unfolding new
new-IsValid id ty cpt ref caps f g = record { leased_iff_claimed = refl }

pub expire-IsValid : (t : Task) (now : Time) → IsValid t → IsValid (expire_lease_if_due t now).0
unfolding expire_lease_if_due
expire-IsValid t now v = ground arith

pub claim-IsValid :
    (t : Task) (s : StationId) (caps : CapabilitySet) (now : Time) (d : ℕ)
    → IsValid t
    → IsValid (claim t s caps now d).0
unfolding claim
claim-IsValid t s caps now d v = ground arith

pub renew_lease-IsValid :
    (t : Task) (s : StationId) (now : Time) (d : ℕ) → IsValid t → IsValid (renew_lease t s now d).0
unfolding renew_lease
renew_lease-IsValid t s now d v = ground arith

pub complete-IsValid :
    (t : Task) (s : StationId) (now : Time) → IsValid t → IsValid (complete t s now).0
unfolding complete
complete-IsValid t s now v = ground arith

-- A claim succeeds exactly when the task is available and the station has every
-- capability that the task requires.
pub claim-ok_iff :
    (t : Task) (s : StationId) (caps : CapabilitySet) (now : Time) (d : ℕ)
    → ((claim t s caps now d).1 ≡ none)
      ↔ ((is_available t now ≡ true) × (has_all caps t.required_capabilities ≡ true))
unfolding claim is_available
claim-ok_iff t s caps now d = (λ h. ground arith, λ h. ground arith)

-- A successful claim leaves the task leased to the station until `now + d`, and changes nothing
-- else but the time of the claim.
pub claim-leases :
    (t : Task) (s : StationId) (caps : CapabilitySet) (now : Time) (d : ℕ)
    → (claim t s caps now d).1 ≡ none
    → (claim t s caps now d).0 ≡ record t {
      status = claimed;
      lease = some (record { station_id = s; expiry = now + d });
      claimed_at = some now;
    }
unfolding claim
claim-leases t s caps now d h = ground arith

pub claim-id :
    (t : Task) (s : StationId) (caps : CapabilitySet) (now : Time) (d : ℕ)
    → (claim t s caps now d).0.id ≡ t.id
unfolding claim
claim-id t s caps now d = ground arith

-- A lease that still runs keeps every claim out.
pub claim_running :
    (t : Task) (s : StationId) (caps : CapabilitySet) (now : Time) (d : ℕ) (l : Lease)
    → t.status ≡ claimed
    → t.lease ≡ some l
    → now < l.expiry
    → claim t s caps now d ≡ (t, some already_claimed)
unfolding claim
claim_running t s caps now d l c e lt = ground arith

-- While a claim's lease runs, no station can claim the task: every attempt is refused as already
-- claimed, and leaves the task as it is.
pub claim_exclusive :
    (t : Task) (s r : StationId) (caps caps' : CapabilitySet) (now later : Time) (d d' : ℕ)
    → (claim t s caps now d).1 ≡ none
    → later < now + d
    → let held = (claim t s caps now d).0 in
      claim held r caps' later d' ≡ (held, some already_claimed)
claim_exclusive t s r caps caps' now later d d' h lt =
    claim_running (claim t s caps now d).0 r caps' later d' _
      (ap (λ (u : Task). u.status) (claim-leases t s caps now d h))
      (ap (λ (u : Task). u.lease) (claim-leases t s caps now d h)) lt

-- A completed task refuses every operation as already completed, and is never changed again.
pub completed_absorbs :
    (t : Task) (s : StationId) (caps : CapabilitySet) (now : Time) (d : ℕ)
    → t.status ≡ completed
    → (claim t s caps now d ≡ (t, some already_completed))
      × (renew_lease t s now d ≡ (t, some already_completed))
      × (complete t s now ≡ (t, some already_completed))
      × (expire_lease_if_due t now ≡ (t, false))
      × (is_available t now ≡ false)
      × (is_cpt_missed t now ≡ false)
unfolding claim renew_lease complete expire_lease_if_due is_available is_cpt_missed
completed_absorbs t s caps now d h = ground arith

-- Only the owner of a lease that still runs can complete or renew: it succeeds, and any other
-- station is refused as not the owner, with the task as it was.
pub owner_only :
    (t : Task) (s : StationId) (now : Time) (d : ℕ) (l : Lease)
    → t.status ≡ claimed
    → t.lease ≡ some l
    → now < l.expiry
    → ((l.station_id ≡ s)
        → (complete t s now ≡ (record t { status = completed; lease = none }, none))
          × (renew_lease t s now d
              ≡ (record t { lease = some (record l { expiry = now + d }) }, none)))
      × (l.station_id ≢ s
          → (complete t s now ≡ (t, some not_owner))
            × (renew_lease t s now d ≡ (t, some not_owner)))
unfolding complete renew_lease
owner_only t s now d l c e lt = (λ o. ground arith, λ o. ground arith)

-- A lease that has run out frees the task whichever operation meets it: the sweep frees it, the
-- owner and everyone else are refused as not claimed with the task pending again, and a claim
-- is decided as on a pending task.
pub expired_frees :
    (t : Task) (s : StationId) (caps : CapabilitySet) (now : Time) (d : ℕ) (l : Lease)
    → t.status ≡ claimed
    → t.lease ≡ some l
    → l.expiry ≤ now
    → let freed = record t { status = pending; lease = none } in
      (expire_lease_if_due t now ≡ (freed, true))
      × (complete t s now ≡ (freed, some not_claimed))
      × (renew_lease t s now d ≡ (freed, some not_claimed))
      × ((claim t s caps now d).1 ≡ (claim freed s caps now d).1)
unfolding claim complete renew_lease expire_lease_if_due
expired_frees t s caps now d l c e le = ground arith

-- An availability test that passes is what makes the lease sweep free a claimed task.
pub available-expire :
    (t : Task) (now : Time)
    → t.status ≡ claimed
    → (is_available t now ≡ true) ↔ ((expire_lease_if_due t now).1 ≡ true)
unfolding is_available expire_lease_if_due
available-expire t now c = (λ h. ground arith, λ h. ground arith)
