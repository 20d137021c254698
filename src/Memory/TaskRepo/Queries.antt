-- ===== src/Memory/TaskRepo/Queries.antt =====
-- What the queries of internal/adapters/outbound/memory/task_repo.go return.
use fulfillment_execution.Prelude.{
  ◌≡◌, ◌↔◌, Bool, true, List, In, Ascending, In-keep, keep-In, In-sort, sort-In, sort-Ascending,
  values, arith, keep, ◌≢◌, ◌≤◌, sort,
}
use fulfillment_execution.Shared.{Time}
use fulfillment_execution.Task.{
  Task, TaskType, claimed, completed, is_available, is_cpt_missed, is_claimed,
}
use fulfillment_execution.Memory.TaskRepo.{
  TaskRepo, find_claimable_by_type, find_all_claimed, find_open_past_cpt,
}

-- A sorted selection holds exactly the entries that pass the test.
selected :
    (before : Task → Task → Bool) (p : Task → Bool) (ts : List Task) (t : Task)
    → In t (sort before (keep p ts)) ↔ (In t ts × (p t ≡ true))
selected before p ts t = (
  λ h. In-keep p ts t (In-sort before (keep p ts) t h),
  λ h. sort-In before (keep p ts) t (keep-In p ts t h.0 h.1),
)

-- The claimable tasks of a type are exactly the stored ones of that type that are available,
-- earliest critical pull time first.
pub find_claimable_by_type-In :
    (r : TaskRepo) (ty : TaskType) (now : Time) (t : Task)
    → In t (find_claimable_by_type r ty now)
      ↔ (In t (values r.tasks) × (t.task_type ≡ ty) × (is_available t now ≡ true))
unfolding find_claimable_by_type
find_claimable_by_type-In r ty now t = (
  λ h. ground (arith, (selected _ _ (values r.tasks) t).0 h),
  λ h. (selected _ _ (values r.tasks) t).1 (h.0, ground arith),
)

pub find_claimable_by_type-Ascending :
    (r : TaskRepo) (ty : TaskType) (now : Time)
    → Ascending (λ t. t.cpt.at) (find_claimable_by_type r ty now)
unfolding find_claimable_by_type
find_claimable_by_type-Ascending r ty now = sort-Ascending (λ (t : Task). t.cpt.at) _

pub find_all_claimed-In :
    (r : TaskRepo) (t : Task)
    → In t (find_all_claimed r) ↔ (In t (values r.tasks) × (t.status ≡ claimed))
unfolding find_all_claimed
find_all_claimed-In r t = (
  λ h. ground (arith, In-keep (λ (u : Task). is_claimed u.status) (values r.tasks) t h),
  λ h. keep-In _ (values r.tasks) t h.0 (ground arith),
)

-- The sweep's query holds exactly the stored tasks that are not completed and whose critical
-- pull time has come.
pub find_open_past_cpt-In :
    (r : TaskRepo) (now : Time) (t : Task)
    → In t (find_open_past_cpt r now)
      ↔ (In t (values r.tasks) × (t.status ≢ completed) × (t.cpt.at ≤ now))
unfolding find_open_past_cpt is_cpt_missed
find_open_past_cpt-In r now t = (
  λ h. ground (arith, (selected _ _ (values r.tasks) t).0 h),
  λ h. (selected _ _ (values r.tasks) t).1 (h.0, ground arith),
)
