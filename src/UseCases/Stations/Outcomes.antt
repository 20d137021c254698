-- ===== src/UseCases/Stations/Outcomes.antt =====
-- What the calls on stations do to the world (internal/application/usecases/register_station.go,
-- check_in_station.go, check_out_station.go).
use fulfillment_execution.Prelude.{
  ◌≡◌, inl, inr, String, false, none, some, List, arith, Option-cases, Bool-cases,
}
use fulfillment_execution.Shared.{StationId}
use fulfillment_execution.Shared.Capabilities.{Capability, new_capability_set}
use fulfillment_execution.Station.{Station, OccupantId, new, set_location_code, check_in, check_out}
use fulfillment_execution.Memory.StationRepo as StationRepo
use fulfillment_execution.UseCases.Effects.{World, Env, ok, err, AppError}
use fulfillment_execution.UseCases.Stations.{
  LocationRoleLookup, wrong_location, find_station, save_station, register_station,
  check_in_station, check_out_station,
}

-- A check-in that succeeds has put the occupant into the stored station, which was free, and
-- saved and returned it, and has changed nothing else. One that fails has changed nothing.
pub check_in_station_outcome :
    (env : Env) (id : StationId) (who : OccupantId) (w : World)
    → ((r : Station)
        → (check_in_station env id who w).0 ≡ ok r
        → (s : Station) × (StationRepo.find_by_id w.stations id ≡ some s)
          × (s.occupant ≡ none)
          × (r ≡ record s { occupant = some who })
          × ((check_in_station env id who w).1
              ≡ record w { stations = StationRepo.save w.stations r }))
      × ((e : AppError)
          → (check_in_station env id who w).0 ≡ err e
          → (check_in_station env id who w).1 ≡ w)
unfolding check_in_station find_station save_station check_in
check_in_station_outcome env id who w = elim (Option-cases (StationRepo.find_by_id w.stations id)) [
  | inl e ↦ (λ r h. ground arith, λ x h. ground arith)
  | inr (s, e) ↦ elim (Option-cases s.occupant) [
    | inl c ↦ (λ r h. (s, e, c, ground arith, ground arith), λ x h. ground arith)
    | inr (y, c) ↦ (λ r h. ground arith, λ x h. ground arith)
  ]
]

-- A registration that succeeds has stored a station with nobody in it, with each of the named
-- capabilities once and with the location given, and returned it; the location's role was not
-- known to be other than a work center. One that fails has changed nothing.
pub register_station_outcome :
    (lookup : LocationRoleLookup) (env : Env) (id : StationId) (caps : List Capability)
    (location : String) (w : World)
    → let s = set_location_code (new id (new_capability_set caps)) location in
      ((r : Station)
        → (register_station lookup env id caps location w).0 ≡ ok r
        → (wrong_location lookup location ≡ false)
          × (r ≡ s)
          × ((register_station lookup env id caps location w).1
              ≡ record w { stations = StationRepo.save w.stations s }))
      × ((e : AppError)
          → (register_station lookup env id caps location w).0 ≡ err e
          → (register_station lookup env id caps location w).1 ≡ w)
unfolding register_station save_station set_location_code new
register_station_outcome lookup env id caps location w =
    elim (Bool-cases (wrong_location lookup location)) [
      | inl e ↦ (λ r h. ground arith, λ x h. ground arith)
      | inr e ↦ (λ r h. (e, ground arith, ground arith), λ x h. ground arith)
    ]

-- A check-out that succeeds has emptied the stored station, which was occupied, has saved and
-- returned it, and changed nothing else. One that fails has changed nothing.
pub check_out_station_outcome :
    (env : Env) (id : StationId) (w : World)
    → ((r : Station)
        → (check_out_station env id w).0 ≡ ok r
        → (s : Station) × (who : OccupantId) × (StationRepo.find_by_id w.stations id ≡ some s)
          × (s.occupant ≡ some who)
          × (r ≡ record s { occupant = none })
          × ((check_out_station env id w).1
              ≡ record w { stations = StationRepo.save w.stations r }))
      × ((e : AppError)
          → (check_out_station env id w).0 ≡ err e
          → (check_out_station env id w).1 ≡ w)
unfolding check_out_station find_station save_station check_out
check_out_station_outcome env id w = elim (Option-cases (StationRepo.find_by_id w.stations id)) [
  | inl e ↦ (λ r h. ground arith, λ x h. ground arith)
  | inr (s, e) ↦ elim (Option-cases s.occupant) [
    | inl c ↦ (λ r h. ground arith, λ x h. ground arith)
    | inr (y, c) ↦ (λ r h. (s, y, e, c, ground arith, ground arith), λ x h. ground arith)
  ]
]
