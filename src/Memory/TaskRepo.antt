-- ===== src/Memory/TaskRepo.antt =====
-- internal/adapters/outbound/memory/task_repo.go. Each method runs under the repository's mutex,
-- so it is one step. A Go map is a list of entries in the order in which Go iterates.
pub mod Claims
pub mod Coherence
pub mod Batches
pub mod Queries
use fulfillment_execution.Prelude.{
  ℕ, suc, String, Bool, true, false, not, ◌&&◌, Option, none, some, List, [], ◌∷◌, Map, lookup,
  insert, values, keep, sort, by_key, length, text_before, string_discrete, ltb, if◌then◌else◌, ite,
}
use fulfillment_execution.Shared.{TaskId, OrderRef, Time}
use fulfillment_execution.Task.{
  Task, TaskType, Status, pending, claimed, same_status, Lease, rehydrate, is_available,
  is_cpt_missed, is_pending, is_claimed,
}

pub record ClaimSnapshot : Type 0 where
  pub status : Status
  pub lease_expiry : Option Time

abbrev expiry_of : Option Lease → Option Time
expiry_of none = none
expiry_of (some l) = some l.expiry

unfoldable pub snapshot_of : Task → ClaimSnapshot
snapshot_of t = record { status = t.status; lease_expiry = expiry_of t.lease }

has_passed : Option Time → Time → Bool
has_passed none now = false
has_passed (some e) now = not (ltb now e)

unfoldable pub claimable : ClaimSnapshot → Time → Bool
unfolding has_passed
claimable s now =
    if is_pending s.status then true else is_claimed s.status && has_passed s.lease_expiry now

pub record TaskRepo : Type 0 where
  pub tasks : Map TaskId Task
  pub persisted : Map TaskId ClaimSnapshot

unfoldable pub empty : TaskRepo
empty = record { tasks = []; persisted = [] }

unfoldable pub clone_task : Task → Task
unfolding rehydrate
clone_task t =
    rehydrate t.id t.task_type t.status t.cpt t.order_ref t.required_capabilities t.lease t.fragile
      t.gift_wrap t.claimed_at

unfoldable pub save : TaskRepo → Task → TaskRepo
unfolding clone_task snapshot_of
save r t = record {
  tasks = insert string_discrete t.id (clone_task t) r.tasks;
  persisted = insert string_discrete t.id (snapshot_of t) r.persisted;
}

unfoldable pub save_claim : TaskRepo → Task → Time → TaskRepo × Bool
unfolding save claimable
save_claim r t now = elim (lookup string_discrete t.id r.persisted) [
  | none ↦ (save r t, true)
  | some snap ↦ if not (claimable snap now) then (r, false) else (save r t, true)
]

unfoldable pub find_by_id : TaskRepo → TaskId → Option Task
find_by_id r id = lookup string_discrete id r.tasks

unfoldable pub find_claimable_by_type : TaskRepo → TaskType → Time → List Task
find_claimable_by_type r task_type now = sort (by_key (λ (t : Task). t.cpt.at)) (
    keep (λ t. ite (string_discrete t.task_type task_type) (is_available t now) false)
      (values r.tasks))

unfoldable pub find_all_claimed : TaskRepo → List Task
find_all_claimed r = keep (λ (t : Task). is_claimed t.status) (values r.tasks)

unfoldable pub find_open_past_cpt : TaskRepo → Time → List Task
find_open_past_cpt r now =
    sort (λ (t u : Task). text_before t.id u.id) (keep (λ t. is_cpt_missed t now) (values r.tasks))

unfoldable pub count_by_type_and_status : TaskRepo → TaskType → Status → ℕ
count_by_type_and_status r task_type status = length (
    keep
      (λ (t : Task).
        ite (string_discrete t.task_type task_type) (same_status t.status status) false)
      (values r.tasks))

unfoldable pub find_by_order_ref : TaskRepo → OrderRef → List Task
find_by_order_ref r order_ref =
    sort (λ (t u : Task). text_before t.id u.id)
      (keep (λ (t : Task). ite (string_discrete t.order_ref order_ref) true false) (values r.tasks))
