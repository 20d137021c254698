-- ===== src/Scenarios/TaskHistories.antt =====
-- Tests of the histories of a task (internal/domain/task/task.go).
use fulfillment_execution.Prelude.{Bool, List, [], false, refl, string_discrete, ◌∷◌}
use fulfillment_execution.Shared.{Cpt, OrderRef, StationId, TaskId}
use fulfillment_execution.Shared.Capabilities.{CapabilitySet, has_all}
use fulfillment_execution.Task.{TaskType, claim, complete, new}
use fulfillment_execution.Task.Histories.{
  Call, CompletedBy, after, claims, completer_had_claimed, completes, step,
}

completer_had_claimed_example :
    let id : TaskId = "n" in
    let ty : TaskType = "PICK" in
    let cpt : Cpt = record { at = 9 } in
    let ref : OrderRef = "order" in
    let caps : CapabilitySet = [] in
    let f : Bool = false in
    let g : Bool = false in
    let h : List Call = completes "bench" 8 ∷ claims "bench" [] 5 30 ∷ [] in
    (s : StationId) × CompletedBy s caps (new id ty cpt ref caps f g) h
unfolding after step new complete claim string_discrete has_all
completer_had_claimed_example =
    completer_had_claimed "n" "PICK" (record { at = 9 }) "order" [] false false
      (completes "bench" 8 ∷ claims "bench" [] 5 30 ∷ []) refl
