-- ===== src/Memory/ConsolidationRepo.antt =====
-- internal/adapters/outbound/memory/order_consolidation_repo.go.
use fulfillment_execution.Prelude.{Option, Map, lookup, insert, string_discrete}
use fulfillment_execution.Shared.{OrderRef}
use fulfillment_execution.Consolidation.{OrderConsolidation}

abbrev pub ConsolidationRepo : Type 0
ConsolidationRepo = Map OrderRef OrderConsolidation

unfoldable pub save : ConsolidationRepo → OrderConsolidation → ConsolidationRepo
save r oc = insert string_discrete oc.order_ref oc r

unfoldable pub find_by_order_ref : ConsolidationRepo → OrderRef → Option OrderConsolidation
find_by_order_ref r order_ref = lookup string_discrete order_ref r
