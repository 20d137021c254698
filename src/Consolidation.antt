-- ===== src/Consolidation.antt =====
-- internal/domain/consolidation/order_consolidation.go: the fan-in of an order's lines at Rebin.
-- A `map[string]struct{}` is the list of its keys, as for a capability set.
pub mod Arrivals
use fulfillment_execution.Prelude.{
  String, Bool, true, false, Option, none, some, List, [], ◌∷◌, ◌==◌, length,
}
use fulfillment_execution.Shared.Capabilities.{contains, new_capability_set}

pub data ConsolidationError : Type 0 where
  unknown_line : ConsolidationError

pub record OrderConsolidation : Type 0 where
  pub order_ref : String
  pub required_lines : List String
  pub arrived_lines : List String

-- `set[id] = struct{}{}`
unfoldable pub mark : String → List String → List String
unfolding contains
mark id set = elim (contains set id) [ true ↦ set | false ↦ id ∷ set ]

mark_all : List String → List String → List String
mark_all [] set = set
mark_all (id ∷ ids) set = mark_all ids (mark id set)

unfoldable pub new : String → List String → OrderConsolidation
unfolding mark_all
new order_ref required_line_ids = record {
  order_ref = order_ref;
  required_lines = mark_all required_line_ids [];
  arrived_lines = [];
}

unfoldable pub rehydrate : String → List String → List String → OrderConsolidation
unfolding mark_all
rehydrate order_ref required_line_ids arrived_line_ids =
    let oc = new order_ref required_line_ids in
    record oc { arrived_lines = mark_all arrived_line_ids oc.arrived_lines }

unfoldable pub record_arrival :
    OrderConsolidation → String → OrderConsolidation × Option ConsolidationError
record_arrival o line_id = elim (contains o.required_lines line_id) [
  | false ↦ (o, some unknown_line)
  | true ↦ (record o { arrived_lines = mark line_id o.arrived_lines }, none)
]

unfoldable pub is_complete : OrderConsolidation → Bool
is_complete o = length o.arrived_lines == length o.required_lines
