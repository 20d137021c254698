-- ===== src/Scenarios/Packing.antt =====
-- Tests of a package (internal/domain/package/package.go, segregation.go).
use fulfillment_execution.Prelude.{
  All, Bool, List, String, [], false, none, some, ℕ, ◌↔◌, ◌∷◌, ◌≡◌, ◌≢◌, ◌⊎◌,
}
use fulfillment_execution.Package.{
  FloatOps, Package, already_processed, already_sealed, new, open_, scan_item_with_class, seal,
  sealed, weigh,
}
use fulfillment_execution.Package.Histories.{
  Call, Holds, after, after_segregated, items_of, scans, seals,
}
use fulfillment_execution.Package.Lifecycle.{Compatible, scan-ok_iff, seal_then_weigh}
use fulfillment_execution.Scenarios.Samples.{open_box, whole}
use fulfillment_execution.Shared.{OrderRef, PackageId, TaskId}
use fulfillment_execution.Shared.Events.{Float64}

after_segregated_example :
    let f : FloatOps = whole in
    let id : PackageId = "box" in
    let ref : OrderRef = "order" in
    let t : TaskId = "packing" in
    let fragile : Bool = false in
    let gift_wrap : Bool = false in
    let calls : List Call = scans "paint" 3 ∷ scans "flare" 1 ∷ seals ∷ [] in
    let p = new id ref t fragile gift_wrap in Holds (items_of f p calls) (after f p calls)
after_segregated_example =
    after_segregated whole "box" "order" "packing" false false
      (scans "paint" 3 ∷ scans "flare" 1 ∷ seals ∷ [])

scan-ok_iff_example :
    let p : Package = open_box in
    let sku : String = "flare" in
    let c : ℕ = 1 in
    ((scan_item_with_class p sku c).1 ≡ none)
    ↔ ((p.status ≡ open_) × ((c ≡ 0) ⊎ All (λ d. Compatible c d) p.scanned_hazard_classes))
scan-ok_iff_example = scan-ok_iff open_box "flare" 1

seal_then_weigh_example :
    let f : FloatOps = whole in
    let p : Package = record open_box { status = sealed } in
    let e : Float64 = 4 in
    let a : Float64 = 4 in
    let e' : Float64 = 9 in
    let a' : Float64 = 8 in
    let sku : String = "lamp" in
    let c : ℕ = 0 in
    (((seal p).1 ≡ none) ↔ ((p.status ≡ open_) × (p.scanned_contents ≢ [])))
    × (((weigh f p e a).2 ≡ none) ↔ (p.status ≡ sealed))
    × ((weigh f p e a).2 ≡ none
        → let q = (weigh f p e a).0 in
          (weigh f q e' a' ≡ (q, false, some already_processed))
          × (seal q ≡ (q, some already_sealed))
          × (scan_item_with_class q sku c ≡ (q, some already_sealed)))
seal_then_weigh_example =
    seal_then_weigh whole (record open_box { status = sealed }) 4 4 9 8 "lamp" 0
