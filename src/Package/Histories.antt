-- ===== src/Package/Histories.antt =====
-- What stands in a Package (internal/domain/package/package.go) after any sequence of calls.
use fulfillment_execution.Prelude.{
  subst, ℕ, ◌≡◌, refl, sym, ap, ◌∙◌, inl, inr, String, Bool, Option, none, some, List, [], ◌∷◌,
  ◌++◌, ◌==◌, arith, All, Option-cases, if◌then◌else◌,
}
use mathlib.Core.List.{append_assoc, append-nil}
use fulfillment_execution.Shared.{PackageId, OrderRef, TaskId}
use fulfillment_execution.Shared.Events.{Float64}
use fulfillment_execution.Package.Segregation.{is_segregation_incompatible, incompatible_symmetric}
use fulfillment_execution.Package.{
  Package, PackageError, new, scan_item_with_class, seal, FloatOps, weigh,
}
use fulfillment_execution.Package.Lifecycle.{
  Compatible, Segregated, Segregated-snoc, scan_fields, scan-ok_iff, scan_refused,
}

pub data Call : Type 0 where
  scans : String → ℕ → Call
  seals : Call
  weighs : Float64 → Float64 → Call

-- An item that was scanned: its SKU and its hazard class, 0 where it has none.
abbrev pub Item : Type 0
Item = String × ℕ

abbrev pub skus : List Item → List String
skus [] = []
skus ((sku, c) ∷ items) = sku ∷ skus items

abbrev pub classes : List Item → List ℕ
classes [] = []
classes ((sku, c) ∷ items) = c ∷ classes items

abbrev pub hazardous : List Item → List ℕ
hazardous [] = []
hazardous ((sku, c) ∷ items) = let rest = hazardous items in if c == 0 then rest else c ∷ rest

abbrev pub unless_refused : Option PackageError → Item → List Item
unless_refused none item = item ∷ []
unless_refused (some e) item = []

module _ (f : FloatOps) where
  unfoldable pub step : Package → Call → Package
  step p (scans sku c) = (scan_item_with_class p sku c).0
  step p seals = (seal p).0
  step p (weighs e a) = (weigh f p e a).0

  -- The items of a call: the scanned one, unless the package refused it.
  unfoldable pub taken : Package → Call → List Item
  taken p (scans sku c) = unless_refused (scan_item_with_class p sku c).1 (sku, c)
  taken p seals = []
  taken p (weighs e a) = []

  unfoldable pub after : Package → List Call → Package
  after p [] = p
  after p (c ∷ calls) = after (step p c) calls

  unfoldable pub items_of : Package → List Call → List Item
  items_of p [] = []
  items_of p (c ∷ calls) = taken p c ++ items_of (step p c) calls

-- The package holds these items: in their order, with the classes that are not 0, and no two of them
-- of classes that may not share a package.
pub record Holds (items : List Item) (p : Package) : Type 0 where
  pub contents : p.scanned_contents ≡ skus items
  pub recorded : p.scanned_hazard_classes ≡ hazardous items
  pub apart : Segregated (classes items)

pub Compatible-zero : (c : ℕ) → Compatible c 0
unfolding is_segregation_incompatible
Compatible-zero c = ground arith

zero-Compatible : (cs : List ℕ) → All (Compatible 0) cs
zero-Compatible [] = tt
zero-Compatible (c ∷ cs) = (incompatible_symmetric 0 c ∙ Compatible-zero c, zero-Compatible cs)

hazardous-All :
    (c : ℕ) (items : List Item)
    → All (Compatible c) (hazardous items)
    → All (Compatible c) (classes items)
hazardous-All c [] h = tt
hazardous-All c ((sku, d) ∷ items) h = ground (arith, hazardous-All c items, Compatible-zero c)

skus-snoc :
    (items : List Item) (sku : String) (c : ℕ)
    → skus (items ++ (sku, c) ∷ []) ≡ skus items ++ sku ∷ []
skus-snoc [] sku c = refl
skus-snoc (i ∷ items) sku c = ap (◌∷◌ i.0) (skus-snoc items sku c)

classes-snoc :
    (items : List Item) (sku : String) (c : ℕ)
    → classes (items ++ (sku, c) ∷ []) ≡ classes items ++ c ∷ []
classes-snoc [] sku c = refl
classes-snoc (i ∷ items) sku c = ap (◌∷◌ i.1) (classes-snoc items sku c)

hazardous-snoc :
    (items : List Item) (sku : String) (c : ℕ)
    → hazardous (items ++ (sku, c) ∷ [])
      ≡ (if c == 0 then hazardous items else hazardous items ++ c ∷ [])
hazardous-snoc [] sku c = refl
hazardous-snoc (i ∷ items) sku c = ground (arith, hazardous-snoc items sku c)

pub scan-recorded :
    (p : Package) (sku : String) (c : ℕ)
    → (scan_item_with_class p sku c).1 ≡ none
    → (scan_item_with_class p sku c).0.scanned_hazard_classes
      ≡ (if c == 0 then p.scanned_hazard_classes else p.scanned_hazard_classes ++ c ∷ [])
unfolding scan_item_with_class
scan-recorded p sku c h = ground arith

scan-Holds :
    (items : List Item) (p : Package) (sku : String) (c : ℕ)
    → Holds items p
    → (scan_item_with_class p sku c).1 ≡ none
    → Holds (items ++ (sku, c) ∷ []) (scan_item_with_class p sku c).0
scan-Holds items p sku c h fine = record {
  contents =
      (scan_fields p sku c fine).0
      ∙ ap (λ (l : List String). l ++ sku ∷ []) h.contents
      ∙ sym (skus-snoc items sku c);
  recorded =
      scan-recorded p sku c fine
      ∙ ap (λ (l : List ℕ). if c == 0 then l else l ++ c ∷ []) h.recorded
      ∙ sym (hazardous-snoc items sku c);
  apart = subst Segregated (sym (classes-snoc items sku c)) (
      Segregated-snoc (classes items) c h.apart (elim ((scan-ok_iff p sku c).0 fine).1 [
        | inl z ↦
            subst (λ d. All (Compatible d) (classes items)) (sym z)
              (zero-Compatible (classes items))
        | inr all ↦ hazardous-All c items (subst (All (Compatible c)) h.recorded all)
      ]));
}

same-Holds :
    (items : List Item) (p q : Package)
    → q.scanned_contents ≡ p.scanned_contents
    → q.scanned_hazard_classes ≡ p.scanned_hazard_classes
    → Holds items p
    → Holds (items ++ []) q
same-Holds items p q e f h =
    subst (λ l. Holds l q) (sym (append-nil items))
      (record { contents = e ∙ h.contents; recorded = f ∙ h.recorded; apart = h.apart })

scan_step :
    (items : List Item) (p : Package) (sku : String) (c : ℕ)
    → Holds items p
    → Holds
        (items ++ unless_refused (scan_item_with_class p sku c).1 (sku, c))
        (scan_item_with_class p sku c).0
scan_step items p sku c h = elim (Option-cases (scan_item_with_class p sku c).1) [
  | inl e ↦ rw e (scan-Holds items p sku c h e)
  | inr (x, e) ↦
      let same = (scan_refused p sku c e).0 in
      rw e (
        same-Holds items p (scan_item_with_class p sku c).0
          (ap (λ (q : Package). q.scanned_contents) same)
          (ap (λ (q : Package). q.scanned_hazard_classes) same) h)
]

step-Holds :
    (f : FloatOps) (items : List Item) (p : Package) (c : Call)
    → Holds items p
    → Holds (items ++ taken f p c) (step f p c)
unfolding step taken seal weigh
step-Holds f items p (scans sku c) h = scan_step items p sku c h
step-Holds f items p seals h = same-Holds items p (seal p).0 (ground arith) (ground arith) h
step-Holds f items p (weighs e a) h =
    same-Holds items p (weigh f p e a).0 (ground arith) (ground arith) h

after-Holds :
    (f : FloatOps) (items : List Item) (p : Package) (calls : List Call)
    → Holds items p
    → Holds (items ++ items_of f p calls) (after f p calls)
unfolding after items_of
after-Holds f items p [] h = subst (λ l. Holds l p) (sym (append-nil items)) h
after-Holds f items p (c ∷ calls) h =
    subst (λ l. Holds l (after f (step f p c) calls))
      (append_assoc items (taken f p c) (items_of f (step f p c) calls))
      (after-Holds f (items ++ taken f p c) (step f p c) calls (step-Holds f items p c h))

-- Whatever is called on a new package, it holds the items of the scans that it accepted, in their
-- order, it has recorded their hazard classes, those of 0 left out, and no two of these items are of
-- classes that may not share a package.
pub after_segregated :
    (f : FloatOps) (id : PackageId) (ref : OrderRef) (t : TaskId) (fragile gift_wrap : Bool)
    (calls : List Call)
    → let p = new id ref t fragile gift_wrap in Holds (items_of f p calls) (after f p calls)
unfolding new
after_segregated f id ref t fragile gift_wrap calls =
    after-Holds f [] (new id ref t fragile gift_wrap) calls
      (record { contents = refl; recorded = refl; apart = tt })
