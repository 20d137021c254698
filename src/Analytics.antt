-- ===== src/Analytics.antt =====
-- internal/analytics/report/throughput.go and internal/adapters/outbound/analyticsstore/
-- memory_store.go: the throughput read model, one row for each process path, station and hour. The
-- arithmetic of the float64 sums of seconds is the argument `f`.
pub mod Events
pub mod Steps
pub mod Counts
pub mod Consumer
pub mod Reports
use fulfillment_execution.Prelude.{
  ℕ, suc, ◌+◌, ◌-◌, ◌%◌, ◌≡◌, refl, ap, String, Bool, true, false, not, ◌&&◌, ◌||◌, Option, none,
  some, List, [], ◌∷◌, Map, lookup, insert, ite, ltb, ◌==◌, if◌then◌else◌, string_discrete,
  ℕ_discrete,
}
use Prim.Native.String.{◌++◌}
use fulfillment_execution.Shared.{Time}
use fulfillment_execution.Shared.Events.{Float64}
use fulfillment_execution.Shared.Capabilities.{contains}

pub record RowKey : Type 0 where
  pub task_type : String
  pub station_id : String
  pub hour_bucket : Time

-- Keys are compared field by field, as Go compares such structs.
unfoldable pub row_key_discrete : Discrete RowKey
row_key_discrete a b = elim (string_discrete a.task_type b.task_type) [
  | no n ↦ no (λ e. n (ap (λ (k : RowKey). k.task_type) e))
  | yes p ↦ elim (string_discrete a.station_id b.station_id) [
    | no n ↦ no (λ e. n (ap (λ (k : RowKey). k.station_id) e))
    | yes q ↦ elim (ℕ_discrete a.hour_bucket b.hour_bucket) [
      | no n ↦ no (λ e. n (ap (λ (k : RowKey). k.hour_bucket) e))
      | yes r ↦ yes (λ i. record { task_type = p i; station_id = q i; hour_bucket = r i })
    ]
  ]
]

-- The running totals of a row.
pub record RowAcc : Type 0 where
  pub completions : ℕ
  pub lease_expiries : ℕ
  pub weigh_check_diverts : ℕ
  pub total_claim_seconds : Float64
  pub completions_with_claim : ℕ
  pub packages_manifested : ℕ
  pub packages_on_time_to_cpt : ℕ
  pub packages_late_to_cpt : ℕ

pub record MemoryStore : Type 0 where
  pub seen : List String
  pub rows : Map RowKey RowAcc
  pub claims : Map String Time
  pub latest : Time

-- `at.Sub(claimed).Seconds()`, a sum, a mean, and zero.
pub record ClaimSeconds : Type 0 where
  pub seconds_between : Time → Time → Float64
  pub plus : Float64 → Float64 → Float64
  pub mean : Float64 → ℕ → Float64
  pub zero_seconds : Float64

abbrev pub new_memory_store : MemoryStore
new_memory_store = record { seen = []; rows = []; claims = []; latest = 0 }

unfoldable pub claim_key : String → String → String → String
claim_key task_type station_id task_id = task_type ++ "|" ++ station_id ++ "|" ++ task_id

-- The start of the hour, in nanoseconds.
unfoldable pub hour_bucket : Time → Time
hour_bucket t = t - t % 3600000000000

abbrev pub empty_row : ClaimSeconds → RowAcc
empty_row f = record {
  completions = 0;
  lease_expiries = 0;
  weigh_check_diverts = 0;
  total_claim_seconds = f.zero_seconds;
  completions_with_claim = 0;
  packages_manifested = 0;
  packages_on_time_to_cpt = 0;
  packages_late_to_cpt = 0;
}

abbrev pub or_empty : ClaimSeconds → Option RowAcc → RowAcc
or_empty f none = empty_row f
or_empty f (some r) = r

-- `s.row(k)`
unfoldable pub row : ClaimSeconds → MemoryStore → RowKey → RowAcc
row f s k = or_empty f (lookup row_key_discrete k s.rows)

unfoldable pub with_row : RowKey → RowAcc → MemoryStore → MemoryStore
with_row k r s = record s { rows = insert row_key_discrete k r s.rows }

-- `firstApply`: a duplicate skips the change.
unfoldable pub first_apply : String → Time → (MemoryStore → MemoryStore) → MemoryStore → MemoryStore
first_apply event_id at change s = elim (contains s.seen event_id) [
  | true ↦ s
  | false ↦
      change
        (record s { seen = event_id ∷ s.seen; latest = if ltb s.latest at then at else s.latest })
]

abbrev pub key_at : String → String → Time → RowKey
key_at task_type station_id at = record {
  task_type = task_type;
  station_id = station_id;
  hour_bucket = hour_bucket at;
}

-- A change of the row of a key.
abbrev pub on_row : ClaimSeconds → RowKey → (RowAcc → RowAcc) → MemoryStore → MemoryStore
on_row f k change s = with_row k (change (row f s k)) s

unfoldable pub apply_task_claimed :
    String → String → String → String → Time → MemoryStore → MemoryStore
unfolding first_apply claim_key
apply_task_claimed event_id task_id task_type station_id at = first_apply event_id at λ s.
    record s {
      claims = insert string_discrete (claim_key task_type station_id task_id) at s.claims;
    }

abbrev pub add_claim : ClaimSeconds → Time → Option Time → RowAcc → RowAcc
add_claim f at none r = r
add_claim f at (some claimed) r = record r {
  total_claim_seconds = f.plus r.total_claim_seconds (f.seconds_between claimed at);
  completions_with_claim = suc r.completions_with_claim;
}

unfoldable pub apply_task_completed :
    ClaimSeconds → String → String → String → String → Time → MemoryStore → MemoryStore
unfolding first_apply claim_key row with_row
apply_task_completed f event_id task_id task_type station_id at = first_apply event_id at λ s.
    let claimed = lookup string_discrete (claim_key task_type station_id task_id) s.claims in
    on_row f (key_at task_type station_id at)
      (λ r. add_claim f at claimed (record r { completions = suc r.completions })) s

unfoldable pub apply_lease_expired :
    ClaimSeconds → String → String → String → String → Time → MemoryStore → MemoryStore
unfolding first_apply row with_row
apply_lease_expired f event_id task_id task_type station_id at = first_apply event_id at (
    on_row f (key_at task_type station_id at)
      (λ r. record r { lease_expiries = suc r.lease_expiries }))

unfoldable pub apply_weight_discrepancy :
    ClaimSeconds → String → String → String → Time → MemoryStore → MemoryStore
unfolding first_apply row with_row
apply_weight_discrepancy f event_id task_type station_id at = first_apply event_id at (
    on_row f (key_at task_type station_id at)
      (λ r. record r { weigh_check_diverts = suc r.weigh_check_diverts }))

abbrev pub manifest : Bool → RowAcc → RowAcc
manifest true r = record r {
  packages_manifested = suc r.packages_manifested;
  packages_on_time_to_cpt = suc r.packages_on_time_to_cpt;
}
manifest false r = record r {
  packages_manifested = suc r.packages_manifested;
  packages_late_to_cpt = suc r.packages_late_to_cpt;
}

unfoldable pub apply_package_manifested :
    ClaimSeconds → String → String → String → Time → Bool → MemoryStore → MemoryStore
unfolding first_apply row with_row
apply_package_manifested f event_id task_type station_id at on_time =
    first_apply event_id at (on_row f (key_at task_type station_id at) (manifest on_time))

-- Lag of the read model behind `now`.
unfoldable pub freshness_lag : Time → MemoryStore → Time
freshness_lag now s = if s.latest == 0 then 0 else now - s.latest

pub record ReportQuery : Type 0 where
  pub from : Time
  pub to : Time
  pub task_type : String
  pub station_id : String

pub record Row : Type 0 where
  pub key : RowKey
  pub completions : ℕ
  pub avg_claim_to_complete_seconds : Float64
  pub lease_expiries : ℕ
  pub weigh_check_diverts : ℕ
  pub packages_manifested : ℕ
  pub packages_on_time_to_cpt : ℕ
  pub packages_late_to_cpt : ℕ

abbrev is_text : String → String → Bool
is_text a b = ite (string_discrete a b) true false

-- The three `continue`s of the loop.
unfoldable pub skips : ReportQuery → RowKey → Bool
skips q k =
    (ltb k.hour_bucket q.from || not (ltb k.hour_bucket q.to))
    || (not (is_text q.task_type "") && not (is_text k.task_type q.task_type))
    || (not (is_text q.station_id "") && not (is_text k.station_id q.station_id))

abbrev average : ClaimSeconds → RowAcc → Float64
average f r =
    if ltb 0 r.completions_with_claim
    then f.mean r.total_claim_seconds r.completions_with_claim
    else f.zero_seconds

abbrev pub to_row : ClaimSeconds → RowKey → RowAcc → Row
to_row f k r = record {
  key = k;
  completions = r.completions;
  avg_claim_to_complete_seconds = average f r;
  lease_expiries = r.lease_expiries;
  weigh_check_diverts = r.weigh_check_diverts;
  packages_manifested = r.packages_manifested;
  packages_on_time_to_cpt = r.packages_on_time_to_cpt;
  packages_late_to_cpt = r.packages_late_to_cpt;
}

unfoldable pub query : ClaimSeconds → ReportQuery → Map RowKey RowAcc → List Row
unfolding skips
query f q [] = []
query f q ((k, r) ∷ rows) =
    let rest = query f q rows in if skips q k then rest else to_row f k r ∷ rest
