-- ===== src/Analytics/Events.antt =====
-- The calls of the projection port (internal/analytics/report/ports.go), one constructor for each,
-- and the counters of a row with the events that they count.
use fulfillment_execution.Prelude.{
  ℕ, String, Bool, true, false, ◌&&◌, List, [], ◌∷◌, ite, if◌then◌else◌,
}
use fulfillment_execution.Shared.{Time}
use fulfillment_execution.Shared.Capabilities.{contains}
use fulfillment_execution.Analytics.{
  RowKey, RowAcc, MemoryStore, ClaimSeconds, row_key_discrete, key_at, apply_task_claimed,
  apply_task_completed, apply_lease_expired, apply_weight_discrepancy, apply_package_manifested,
}

-- The calls of the projection port.
pub data Projected : Type 0 where
  task_claimed task_completed lease_expired :
      (event_id task_id task_type station_id : String) → Time → Projected
  weight_discrepancy : (event_id task_type station_id : String) → Time → Projected
  package_manifested : (event_id task_type station_id : String) → Time → Bool → Projected

unfoldable pub apply : ClaimSeconds → Projected → MemoryStore → MemoryStore
unfolding apply_task_claimed apply_task_completed apply_lease_expired apply_weight_discrepancy
    apply_package_manifested
apply f (task_claimed id task ty st at) = apply_task_claimed id task ty st at
apply f (task_completed id task ty st at) = apply_task_completed f id task ty st at
apply f (lease_expired id task ty st at) = apply_lease_expired f id task ty st at
apply f (weight_discrepancy id ty st at) = apply_weight_discrepancy f id ty st at
apply f (package_manifested id ty st at on_time) = apply_package_manifested f id ty st at on_time

unfoldable pub apply_all : ClaimSeconds → List Projected → MemoryStore → MemoryStore
unfolding apply
apply_all f [] s = s
apply_all f (e ∷ es) s = apply_all f es (apply f e s)

abbrev pub event_id_of : Projected → String
event_id_of (task_claimed id task ty st at) = id
event_id_of (task_completed id task ty st at) = id
event_id_of (lease_expired id task ty st at) = id
event_id_of (weight_discrepancy id ty st at) = id
event_id_of (package_manifested id ty st at on_time) = id

abbrev pub key_of : Projected → RowKey
key_of (task_claimed id task ty st at) = key_at ty st at
key_of (task_completed id task ty st at) = key_at ty st at
key_of (lease_expired id task ty st at) = key_at ty st at
key_of (weight_discrepancy id ty st at) = key_at ty st at
key_of (package_manifested id ty st at on_time) = key_at ty st at

pub data Counter : Type 0 where
  completions lease_expiries diverts manifested on_time late : Counter

abbrev pub value : Counter → RowAcc → ℕ
value completions r = r.completions
value lease_expiries r = r.lease_expiries
value diverts r = r.weigh_check_diverts
value manifested r = r.packages_manifested
value on_time r = r.packages_on_time_to_cpt
value late r = r.packages_late_to_cpt

-- Which events a counter counts.
abbrev pub counts : Counter → Projected → Bool
counts completions (task_completed _ _ _ _ _) = true
counts lease_expiries (lease_expired _ _ _ _ _) = true
counts diverts (weight_discrepancy _ _ _ _) = true
counts manifested (package_manifested _ _ _ _ _) = true
counts on_time (package_manifested _ _ _ _ true) = true
counts late (package_manifested _ _ _ _ false) = true
counts _ _ = false

abbrev pub counts_at : Counter → RowKey → Projected → Bool
counts_at c k e = counts c e && ite (row_key_discrete (key_of e) k) true false

-- Of the events with one id the first, unless the id is taken.
unfoldable pub firsts : List String → List Projected → List Projected
firsts seen [] = []
firsts seen (e ∷ es) =
    let again = firsts seen es in
    let new = e ∷ firsts (event_id_of e ∷ seen) es in
    if contains seen (event_id_of e) then again else new
