-- ===== src/UseCases/Stations.antt =====
-- internal/application/usecases/register_station.go, check_in_station.go, check_out_station.go
-- and get_installed_capacity.go. The role of a location, which the facility-layout service tells,
-- is an argument: a lookup that failed is `none`.
pub mod Outcomes
use fulfillment_execution.Prelude.{
  ℕ, String, Bool, true, false, not, ◌&&◌, Option, none, some, List, [], ◌∷◌, if◌then◌else◌, ite,
  string_discrete,
}
use fulfillment_execution.Shared.{StationId}
use fulfillment_execution.Shared.Capabilities.{Capability, new_capability_set}
use fulfillment_execution.Station.{Station, OccupantId, new, set_location_code, check_in, check_out}
use fulfillment_execution.Memory.StationRepo as StationRepo
use fulfillment_execution.UseCases.Effects.{
  World, Env, M, ◌>>=◌, ◌>>◌, pure, fail, get, put, or_fail, refuse, calls, finds_station,
  saves_station, station_not_found, station_failed, station_location_not_work_center,
}

pub record LocationRole : Type 0 where
  pub known : Bool
  pub role : String

-- `none` where no lookup is wired; the lookup answers `none` where it fails.
abbrev pub LocationRoleLookup : Type 0
LocationRoleLookup = Option (String → Option LocationRole)

abbrev contradicts : Option LocationRole → Bool
contradicts none = false
contradicts (some info) = info.known && ite (string_discrete info.role "WorkCenter") false true

abbrev pub wrong_location : LocationRoleLookup → String → Bool
wrong_location none location_code = false
wrong_location (some get_role) location_code =
    ite (string_discrete location_code "") false (contradicts (get_role location_code))

unfoldable pub find_station : Env → StationId → M Station
find_station env id = do
  calls env (finds_station id)
  w ← get
  or_fail (StationRepo.find_by_id w.stations id) station_not_found

unfoldable pub save_station : Env → Station → M (Unit {0})
save_station env s = do
  calls env (saves_station s.id)
  put λ w. record w { stations = StationRepo.save w.stations s }

unfoldable pub register_station :
    LocationRoleLookup → Env → StationId → List Capability → String → M Station
unfolding save_station
register_station lookup env station_id capabilities location_code =
    if wrong_location lookup location_code then fail station_location_not_work_center else do
      let s = set_location_code (new station_id (new_capability_set capabilities)) location_code
      save_station env s
      pure s

unfoldable pub check_in_station : Env → StationId → OccupantId → M Station
unfolding find_station save_station
check_in_station env station_id occupant = do
  s ← find_station env station_id
  refuse station_failed (check_in s occupant).1
  save_station env (check_in s occupant).0
  pure (check_in s occupant).0

unfoldable pub check_out_station : Env → StationId → M Station
unfolding find_station save_station
check_out_station env station_id = do
  s ← find_station env station_id
  refuse station_failed (check_out s).1
  save_station env (check_out s).0
  pure (check_out s).0
