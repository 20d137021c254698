-- ===== src/Package.antt =====
-- internal/domain/package/package.go: the Package aggregate, from scanned contents through
-- sealing to the weigh-check. Go's float64 subtraction, negation and comparison are an argument.
pub mod Segregation
pub mod Lifecycle
pub mod Histories
use fulfillment_execution.Prelude.{
  ℕ, String, Bool, true, false, not, Option, none, some, List, [], ◌∷◌, ◌++◌, ltb, ◌==◌,
  if◌then◌else◌, length,
}
use fulfillment_execution.Shared.{PackageId, OrderRef, TaskId}
use fulfillment_execution.Shared.Events.{Float64}
use Segregation.{is_segregation_incompatible}

pub data Status : Type 0 where
  open_ sealed labeled diverted : Status

pub data SortLane : Type 0 where
  hazmat_lane fragile_no_tilt standard : SortLane

pub data PackageError : Type 0 where
  no_scanned_contents already_sealed not_sealed already_processed package_segregation_violation :
      PackageError

pub record Package : Type 0 where
  pub id : PackageId
  pub order_ref : OrderRef
  pub task_id : TaskId
  pub status : Status
  pub scanned_contents : List String
  pub fragile_handling : Bool
  pub gift_wrap_requested : Bool
  pub scanned_hazard_classes : List ℕ

unfoldable pub new : PackageId → OrderRef → TaskId → Bool → Bool → Package
new id order_ref task_id fragile_handling gift_wrap_requested = record {
  id = id;
  order_ref = order_ref;
  task_id = task_id;
  status = open_;
  scanned_contents = [];
  fragile_handling = fragile_handling;
  gift_wrap_requested = gift_wrap_requested;
  scanned_hazard_classes = [];
}

abbrev pub is_open : Status → Bool
is_open open_ = true
is_open _ = false

abbrev pub is_sealed : Status → Bool
is_sealed sealed = true
is_sealed _ = false

-- The loop over the classes recorded so far: whether one is incompatible.
unfoldable pub violates : ℕ → List ℕ → Bool
violates hazard_class [] = false
violates hazard_class (existing ∷ rest) =
    let later = violates hazard_class rest in
    if is_segregation_incompatible hazard_class existing then true else later

-- The two appends; a class of 0 is not recorded.
append_item : Package → String → ℕ → Package
append_item p sku hazard_class = record p {
  scanned_contents = p.scanned_contents ++ sku ∷ [];
  scanned_hazard_classes =
      if hazard_class == 0
      then p.scanned_hazard_classes
      else p.scanned_hazard_classes ++ hazard_class ∷ [];
}

unfoldable pub scan_item_with_class : Package → String → ℕ → Package × Option PackageError
unfolding append_item
scan_item_with_class p sku hazard_class =
    if not (is_open p.status)
    then (p, some already_sealed)
    else if hazard_class == 0
    then (append_item p sku hazard_class, none)
    else if violates hazard_class p.scanned_hazard_classes
    then (p, some package_segregation_violation)
    else (append_item p sku hazard_class, none)

unfoldable pub scan_item : Package → String → Package × Option PackageError
unfolding scan_item_with_class
scan_item p sku = scan_item_with_class p sku 0

unfoldable pub sort_lane : Package → SortLane
sort_lane p =
    if ltb 0 (length p.scanned_hazard_classes)
    then hazmat_lane
    else if p.fragile_handling
    then fragile_no_tilt
    else standard

unfoldable pub seal : Package → Package × Option PackageError
seal p =
    if not (is_open p.status)
    then (p, some already_sealed)
    else if length p.scanned_contents == 0
    then (p, some no_scanned_contents)
    else (record p { status = sealed }, none)

-- The float64 operations that the weigh-check uses, on bit patterns.
pub record FloatOps : Type 0 where
  pub minus : Float64 → Float64 → Float64
  pub negate : Float64 → Float64
  pub less : Float64 → Float64 → Bool
  pub zero_weight : Float64
  pub weight_tolerance : Float64

unfoldable pub deviation : FloatOps → Float64 → Float64 → Float64
deviation f expected actual =
    let d = f.minus expected actual in if f.less d f.zero_weight then f.negate d else d

-- The result is `labelApplied` and the error.
unfoldable pub weigh : FloatOps → Package → Float64 → Float64 → Package × Bool × Option PackageError
weigh f p expected actual =
    if is_open p.status
    then (p, false, some not_sealed)
    else if not (is_sealed p.status)
    then (p, false, some already_processed)
    else if f.less f.weight_tolerance (deviation f expected actual)
    then (record p { status = diverted }, false, none)
    else (record p { status = labeled }, true, none)
