-- ===== src/UseCases/ArriveAtRebin.antt =====
-- internal/application/usecases/arrive_at_rebin.go: the arrival of one line of an order at Rebin.
-- The ids and values that the PACK task gets are arguments.
pub mod Outcomes
use fulfillment_execution.Prelude.{
  String, Bool, true, false, Option, none, some, List, [], ◌∷◌, if◌then◌else◌,
}
use fulfillment_execution.Shared.{TaskId, OrderRef, Cpt}
use fulfillment_execution.Shared.Capabilities.{CapabilitySet}
use fulfillment_execution.Shared.Events.{item_arrived_at_rebin, order_consolidated}
use fulfillment_execution.Task as Task
use fulfillment_execution.Consolidation.{OrderConsolidation, new, record_arrival, is_complete}
use fulfillment_execution.Memory.ConsolidationRepo as ConsolidationRepo
use fulfillment_execution.UseCases.Effects.{
  World, Env, M, ◌>>=◌, ◌>>◌, pure, get, put, refuse, calls, publish, atomically,
  finds_consolidation, saves_consolidation, consolidation_failed,
}
use fulfillment_execution.UseCases.TaskCalls.{create_task}

-- `packCPT`, `packRequired`, `packFragile` and `packGiftWrap`, with the id of the task.
pub record PackPlan : Type 0 where
  pub id : TaskId
  pub cpt : Cpt
  pub required : CapabilitySet
  pub fragile : Bool
  pub gift_wrap : Bool

abbrev pub or_new : Option OrderConsolidation → OrderRef → List String → OrderConsolidation
or_new none order_ref required_line_ids = new order_ref required_line_ids
or_new (some oc) order_ref required_line_ids = oc

unfoldable pub save_consolidation : Env → OrderConsolidation → M (Unit {0})
save_consolidation env oc = do
  calls env (saves_consolidation oc.order_ref)
  put λ w. record w { consolidations = ConsolidationRepo.save w.consolidations oc }

-- The function that `Execute` runs atomically.
unfoldable pub settle :
    Env → OrderConsolidation → OrderRef → String → PackPlan → Bool → M (Unit {0})
unfolding save_consolidation
settle env oc order_ref line_id plan in_tx = do
  save_consolidation env oc
  publish env (item_arrived_at_rebin order_ref line_id env.now ∷ [])
  elim (is_complete oc) [
    | false ↦ pure tt
    | true ↦
        create_task env in_tx plan.id Task.pack plan.cpt order_ref plan.required plan.fragile
          plan.gift_wrap
        >> publish env (order_consolidated order_ref env.now ∷ [])
  ]

unfoldable pub arrive_at_rebin :
    Env → Bool → OrderRef → String → List String → PackPlan → M (Unit {0})
unfolding settle
arrive_at_rebin env in_tx order_ref line_id required_line_ids plan = do
  calls env (finds_consolidation order_ref)
  w ← get
  let oc =
      or_new (ConsolidationRepo.find_by_order_ref w.consolidations order_ref) order_ref
        required_line_ids
  refuse consolidation_failed (record_arrival oc line_id).1
  elim (is_complete oc) [
    | true ↦ pure tt
    | false ↦ atomically env in_tx (settle env (record_arrival oc line_id).0 order_ref line_id plan)
  ]
