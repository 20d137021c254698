-- ===== src/Scenarios/Occupants.antt =====
-- Tests of stations (internal/domain/station/station.go and its use cases).
use fulfillment_execution.Prelude.{false, none, some, true, ◌↔◌, ◌≡◌}
use fulfillment_execution.Scenarios.Samples.{bench}
use fulfillment_execution.Station.{
  OccupantId, Station, check_in, check_out, is_occupied, not_occupied, occupied,
}
use fulfillment_execution.Station.Lifecycle.{one_occupant}

one_occupant_example :
    let s : Station = bench in
    let a : OccupantId = "ann" in
    let b : OccupantId = "bob" in
    (((check_in s a).1 ≡ none) ↔ (is_occupied s ≡ false))
    × (((check_out s).1 ≡ none) ↔ (is_occupied s ≡ true))
    × (is_occupied s ≡ true → check_in s a ≡ (s, some occupied))
    × (is_occupied s ≡ false
        → let t = (check_in s a).0 in
          (check_out s ≡ (s, some not_occupied))
          × (check_in t b ≡ (t, some occupied))
          × (check_out t ≡ (s, none)))
one_occupant_example = one_occupant bench "ann" "bob"
