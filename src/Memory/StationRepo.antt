-- ===== src/Memory/StationRepo.antt =====
-- internal/adapters/outbound/memory/station_repo.go.
use fulfillment_execution.Prelude.{
  ℕ, Option, Map, lookup, insert, values, keep, length, string_discrete,
}
use fulfillment_execution.Shared.{StationId}
use fulfillment_execution.Shared.Capabilities.{Capability, contains}
use fulfillment_execution.Station.{Station}

abbrev pub StationRepo : Type 0
StationRepo = Map StationId Station

unfoldable pub save : StationRepo → Station → StationRepo
save r s = insert string_discrete s.id s r

unfoldable pub find_by_id : StationRepo → StationId → Option Station
find_by_id r id = lookup string_discrete id r

unfoldable pub count_by_capability : StationRepo → Capability → ℕ
count_by_capability r capability =
    length (keep (λ (s : Station). contains s.capabilities capability) (values r))
