-- ===== src/Task.antt =====
-- internal/domain/task/task.go: the Task aggregate. A method that changes `*Task` returns the
-- new record beside its result. A duration that reaches the aggregate is positive, since its
-- callers replace every other one by the default.
pub mod Lifecycle
pub mod Histories
use fulfillment_execution.Prelude.{
  ℕ, ◌+◌, String, Bool, true, false, not, ◌&&◌, ◌||◌, Option, none, some, ltb, if◌then◌else◌, ite,
  string_discrete,
}
use fulfillment_execution.Shared.{TaskId, StationId, OrderRef, Time, Cpt}
use fulfillment_execution.Shared.Capabilities.{CapabilitySet, has_all}

-- `Type` is a Go string: a catalogue may declare paths beyond the four constants.
abbrev pub TaskType : Type 0
TaskType = String

abbrev pub pick : TaskType
pick = "PICK"

abbrev pub pack : TaskType
pack = "PACK"

abbrev pub slam : TaskType
slam = "SLAM"

abbrev pub rebin : TaskType
rebin = "REBIN"

pub data Status : Type 0 where
  pending claimed completed : Status

pub data TaskError : Type 0 where
  capability_mismatch already_claimed not_claimed not_owner already_completed : TaskError

pub record Lease : Type 0 where
  pub station_id : StationId
  pub expiry : Time

unfoldable pub expired : Lease → Time → Bool
expired l now = not (ltb now l.expiry)

pub record Task : Type 0 where
  pub id : TaskId
  pub task_type : TaskType
  pub status : Status
  pub cpt : Cpt
  pub order_ref : OrderRef
  pub required_capabilities : CapabilitySet
  pub lease : Option Lease
  pub fragile : Bool
  pub gift_wrap : Bool
  pub claimed_at : Option Time

unfoldable pub new : TaskId → TaskType → Cpt → OrderRef → CapabilitySet → Bool → Bool → Task
new id task_type cpt order_ref required fragile gift_wrap = record {
  id = id;
  task_type = task_type;
  status = pending;
  cpt = cpt;
  order_ref = order_ref;
  required_capabilities = required;
  lease = none;
  fragile = fragile;
  gift_wrap = gift_wrap;
  claimed_at = none;
}

unfoldable pub rehydrate :
    TaskId
    → TaskType
    → Status
    → Cpt
    → OrderRef
    → CapabilitySet
    → Option Lease
    → Bool
    → Bool
    → Option Time
    → Task
rehydrate id task_type status cpt order_ref required lease fragile gift_wrap claimed_at = record {
  id = id;
  task_type = task_type;
  status = status;
  cpt = cpt;
  order_ref = order_ref;
  required_capabilities = required;
  lease = lease;
  fragile = fragile;
  gift_wrap = gift_wrap;
  claimed_at = claimed_at;
}

abbrev pub is_pending : Status → Bool
is_pending pending = true
is_pending _ = false

abbrev pub is_claimed : Status → Bool
is_claimed claimed = true
is_claimed _ = false

abbrev pub is_completed : Status → Bool
is_completed completed = true
is_completed _ = false

-- `==` on statuses.
abbrev pub same_status : Status → Status → Bool
same_status pending s = is_pending s
same_status claimed s = is_claimed s
same_status completed s = is_completed s

-- `t.lease != nil && t.lease.expired(now)`
has_expired_lease : Option Lease → Time → Bool
unfolding expired
has_expired_lease none now = false
has_expired_lease (some l) now = expired l now

unfoldable pub is_available : Task → Time → Bool
unfolding has_expired_lease
is_available t now =
    if is_pending t.status
    then true
    else if is_claimed t.status && has_expired_lease t.lease now
    then true
    else false

unfoldable pub is_cpt_missed : Task → Time → Bool
is_cpt_missed t now = if is_completed t.status then false else not (ltb now t.cpt.at)

-- The assignments that free a task.
free : Task → Task
free t = record t { status = pending; lease = none }

unfoldable pub expire_lease_if_due : Task → Time → Task × Bool
unfolding has_expired_lease free
expire_lease_if_due t now =
    if not (is_claimed t.status) || not (has_expired_lease t.lease now)
    then (t, false)
    else (free t, true)

-- The part of `Claim` behind its call of `ExpireLeaseIfDue`.
assign : Task → StationId → CapabilitySet → Time → ℕ → Task × Option TaskError
assign t station_id capabilities now lease_duration =
    if is_claimed t.status
    then (t, some already_claimed)
    else if not (has_all capabilities t.required_capabilities)
    then (t, some capability_mismatch)
    else (
      record t {
        status = claimed;
        lease = some (record { station_id = station_id; expiry = now + lease_duration });
        claimed_at = some now;
      },
      none,
    )

unfoldable pub claim : Task → StationId → CapabilitySet → Time → ℕ → Task × Option TaskError
unfolding expire_lease_if_due assign
claim t station_id capabilities now lease_duration =
    if is_completed t.status
    then (t, some already_completed)
    else assign (expire_lease_if_due t now).0 station_id capabilities now lease_duration

-- The tests that `RenewLease` and `Complete` share, up to the owner's; `act` is what follows.
owned : Option Lease → Task → StationId → Time → Task → Task × Option TaskError
unfolding expired free
owned none t station_id now act = (t, some not_claimed)
owned (some l) t station_id now act =
    if expired l now
    then (free t, some not_claimed)
    else ite (string_discrete l.station_id station_id) (act, none) (t, some not_owner)

held : Task → StationId → Time → Task → Task × Option TaskError
unfolding owned
held t station_id now act =
    if is_completed t.status
    then (t, some already_completed)
    else if not (is_claimed t.status)
    then (t, some not_claimed)
    else owned t.lease t station_id now act

abbrev extend : Option Lease → Time → Option Lease
extend none expiry = none
extend (some l) expiry = some (record l { expiry = expiry })

unfoldable pub renew_lease : Task → StationId → Time → ℕ → Task × Option TaskError
unfolding held
renew_lease t station_id now lease_duration =
    held t station_id now (record t { lease = extend t.lease (now + lease_duration) })

unfoldable pub complete : Task → StationId → Time → Task × Option TaskError
unfolding held
complete t station_id now = held t station_id now (record t { status = completed; lease = none })
