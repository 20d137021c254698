-- ===== src/UseCases/SealPackage/Scans.antt =====
-- What the scan of all the contents leaves (internal/application/usecases/seal_package.go).
use fulfillment_execution.Prelude.{
  ◌≡◌, refl, ap, sym, subst, inl, inr, ◌++◌, ◌∙◌, String, none, some, List, [], ◌∷◌, arith,
  Option-cases,
}
use mathlib.Core.List.{append_assoc, append-nil}
use fulfillment_execution.Package.{Package, PackageError, scan_item_with_class}
use fulfillment_execution.Package.Lifecycle.{IsValid, scan-IsValid, scan_fields}
use fulfillment_execution.UseCases.SealPackage.{ClassificationLookup, lookup_hazard_class, scan_all}

-- What a scan of all the contents leaves of a package.
pub record Extends (p q : Package) (skus : List String) : Type 0 where
  pub contents : q.scanned_contents ≡ p.scanned_contents ++ skus
  pub same_id : q.id ≡ p.id
  pub same_order : q.order_ref ≡ p.order_ref
  pub same_task : q.task_id ≡ p.task_id
  pub same_fragile : q.fragile_handling ≡ p.fragile_handling
  pub same_gift_wrap : q.gift_wrap_requested ≡ p.gift_wrap_requested

pub scan_all-refused :
    (lookup : ClassificationLookup) (p : Package) (sku : String) (skus : List String)
    (x : PackageError)
    → (scan_item_with_class p sku (lookup_hazard_class lookup sku)).1 ≡ some x
    → scan_all lookup p (sku ∷ skus)
      ≡ ((scan_item_with_class p sku (lookup_hazard_class lookup sku)).0, some x)
unfolding scan_all
scan_all-refused lookup p sku skus x e = rw (e, scan_all)

pub scan_all-scanned :
    (lookup : ClassificationLookup) (p : Package) (sku : String) (skus : List String)
    → (scan_item_with_class p sku (lookup_hazard_class lookup sku)).1 ≡ none
    → scan_all lookup p (sku ∷ skus)
      ≡ scan_all lookup (scan_item_with_class p sku (lookup_hazard_class lookup sku)).0 skus
unfolding scan_all
scan_all-scanned lookup p sku skus e = rw (e, scan_all)

Extends-cons :
    (p q r : Package) (sku : String) (skus : List String)
    → (q.scanned_contents ≡ p.scanned_contents ++ sku ∷ [])
      × (q.id ≡ p.id)
      × (q.order_ref ≡ p.order_ref)
      × (q.task_id ≡ p.task_id)
      × (q.fragile_handling ≡ p.fragile_handling)
      × (q.gift_wrap_requested ≡ p.gift_wrap_requested)
    → Extends q r skus
    → Extends p r (sku ∷ skus)
Extends-cons p q r sku skus f x = record {
  contents =
      x.contents
      ∙ ap (λ (l : List String). l ++ skus) f.0
      ∙ append_assoc p.scanned_contents (sku ∷ []) skus;
  same_id = x.same_id ∙ f.1;
  same_order = x.same_order ∙ f.2;
  same_task = x.same_task ∙ f.3;
  same_fragile = x.same_fragile ∙ f.4;
  same_gift_wrap = x.same_gift_wrap ∙ f.5;
}

pub scan_all-Extends :
    (lookup : ClassificationLookup) (skus : List String) (p : Package)
    → (scan_all lookup p skus).1 ≡ none
    → Extends p (scan_all lookup p skus).0 skus
scan_all-Extends lookup [] p h =
    unfold scan_all in
    record {
      contents = sym (append-nil p.scanned_contents);
      same_id = refl;
      same_order = refl;
      same_task = refl;
      same_fragile = refl;
      same_gift_wrap = refl;
    }
scan_all-Extends lookup (sku ∷ skus) p h =
    elim (Option-cases (scan_item_with_class p sku (lookup_hazard_class lookup sku)).1) [
      | inr (x, e) ↦ absurd (ground (arith, scan_all-refused lookup p sku skus x e))
      | inl e ↦
          let s = scan_all-scanned lookup p sku skus e in
          subst (λ r. Extends p r.0 (sku ∷ skus)) (sym s)
            (Extends-cons p (scan_item_with_class p sku (lookup_hazard_class lookup sku)).0 _ sku
              skus (scan_fields p sku (lookup_hazard_class lookup sku) e)
              (scan_all-Extends lookup skus
                (scan_item_with_class p sku (lookup_hazard_class lookup sku)).0 (rw s at h)))
    ]

pub scan_all-IsValid :
    (lookup : ClassificationLookup) (skus : List String) (p : Package)
    → IsValid p
    → IsValid (scan_all lookup p skus).0
scan_all-IsValid lookup [] p v = unfold scan_all in v
scan_all-IsValid lookup (sku ∷ skus) p v =
    let v' = scan-IsValid p sku (lookup_hazard_class lookup sku) v in
    elim (Option-cases (scan_item_with_class p sku (lookup_hazard_class lookup sku)).1) [
      | inr (x, e) ↦ rw (scan_all-refused lookup p sku skus x e) v'
      | inl e ↦ rw (scan_all-scanned lookup p sku skus e) (
          scan_all-IsValid lookup skus
            (scan_item_with_class p sku (lookup_hazard_class lookup sku)).0 v')
    ]
