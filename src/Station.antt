-- ===== src/Station.antt =====
-- internal/domain/station/station.go: the Station aggregate, with one occupant at a time.
pub mod Lifecycle
use fulfillment_execution.Prelude.{
  String, Bool, true, false, not, Option, none, some, if◌then◌else◌,
}
use fulfillment_execution.Shared.{StationId}
use fulfillment_execution.Shared.Capabilities.{CapabilitySet, has_all}

abbrev pub OccupantId : Type 0
OccupantId = String

pub data StationError : Type 0 where
  occupied not_occupied capability_mismatch : StationError

pub record Station : Type 0 where
  pub id : StationId
  pub capabilities : CapabilitySet
  pub occupant : Option OccupantId
  -- "" where none was recorded
  pub location_code : String

unfoldable pub new : StationId → CapabilitySet → Station
new id capabilities = record {
  id = id;
  capabilities = capabilities;
  occupant = none;
  location_code = "";
}

unfoldable pub set_location_code : Station → String → Station
set_location_code s location_code = record s { location_code = location_code }

unfoldable pub is_occupied : Station → Bool
is_occupied s = elim s.occupant [ none ↦ false | some _ ↦ true ]

unfoldable pub check_in : Station → OccupantId → Station × Option StationError
check_in s occupant = elim s.occupant [
  | some _ ↦ (s, some occupied)
  | none ↦ (record s { occupant = some occupant }, none)
]

unfoldable pub check_out : Station → Station × Option StationError
check_out s = elim s.occupant [
  | none ↦ (s, some not_occupied)
  | some _ ↦ (record s { occupant = none }, none)
]

unfoldable pub can_accept : Station → CapabilitySet → Bool
can_accept s required = has_all s.capabilities required

unfoldable pub validate_accept : Station → CapabilitySet → Option StationError
unfolding can_accept
validate_accept s required = if not (can_accept s required) then some capability_mismatch else none
