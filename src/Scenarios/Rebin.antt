-- ===== src/Scenarios/Rebin.antt =====
-- Tests of the fan-in at Rebin.
use fulfillment_execution.Prelude.{
  All, In, List, String, [], false, if◌then◌else◌, inl, lookup, none, refl, string_discrete, true,
  ◌↔◌, ◌∷◌, ◌≡◌,
}
use fulfillment_execution.Consolidation.{OrderConsolidation, is_complete, new, record_arrival}
use fulfillment_execution.Consolidation.Arrivals.{arrivals, arrivals_complete}
use fulfillment_execution.Scenarios.Samples.{calm, floor, half, plan as pack_plan}
use fulfillment_execution.Shared.{OrderRef}
use fulfillment_execution.UseCases.ArriveAtRebin.{PackPlan, arrive_at_rebin}
use fulfillment_execution.UseCases.ArriveAtRebin.Outcomes.{arrive_at_rebin_outcome, settled}
use fulfillment_execution.UseCases.Effects.{AppError, Env, World, err, ok}
use fulfillment_execution.Memory.ConsolidationRepo as ConsolidationRepo

arrivals_complete_example :
    let ref : String = "order" in
    let ids : List String = "a" ∷ "b" ∷ [] in
    let ls : List String = "b" ∷ "x" ∷ "a" ∷ "b" ∷ [] in
    (is_complete (arrivals (new ref ids) ls) ≡ true) ↔ All (λ l. In l ls) ids
arrivals_complete_example = arrivals_complete "order" ("a" ∷ "b" ∷ []) ("b" ∷ "x" ∷ "a" ∷ "b" ∷ [])

arrive_at_rebin_outcome_example :
    let env : Env = calm 10 in
    let ref : OrderRef = "order" in
    let line : String = "a" in
    let ids : List String = [] in
    let plan : PackPlan = pack_plan in
    let w : World = record floor { consolidations = ("order", half) ∷ [] } in
    let oc : OrderConsolidation = half in
    ((arrive_at_rebin env false ref line ids plan w).0 ≡ ok tt
      → ((record_arrival oc line).1 ≡ none)
        × ((arrive_at_rebin env false ref line ids plan w).1 ≡ (
            if is_complete oc then w else settled env w (record_arrival oc line).0 ref line plan)))
    × ((e : AppError)
        → env.unit_of_work ≡ true
        → (arrive_at_rebin env false ref line ids plan w).0 ≡ err e
        → (arrive_at_rebin env false ref line ids plan w).1 ≡ w)
unfolding ConsolidationRepo.find_by_order_ref lookup string_discrete
arrive_at_rebin_outcome_example =
    arrive_at_rebin_outcome (calm 10) "order" "a" [] pack_plan
      (record floor { consolidations = ("order", half) ∷ [] }) half (inl refl)
