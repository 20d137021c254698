-- ===== src/Package/Lifecycle.antt =====
-- What the Package aggregate (internal/domain/package/package.go) guarantees.
use fulfillment_execution.Prelude.{
  ℕ, ◌≡◌, refl, ◌≢◌, ◌↔◌, ◌⊎◌, inl, inr, ◌<◌, String, Bool, true, false, none, some, List, [], ◌∷◌,
  ◌++◌, arith, All, In, Bool-cases, if◌then◌else◌, length, ◌∙◌,
}
use fulfillment_execution.Shared.{PackageId, OrderRef, TaskId}
use fulfillment_execution.Shared.Events.{Float64}
use fulfillment_execution.Package.Segregation.{is_segregation_incompatible, incompatible_symmetric}
use fulfillment_execution.Package.{
  Package, open_, sealed, labeled, diverted, hazmat_lane, fragile_no_tilt, PackageError,
  already_sealed, already_processed, package_segregation_violation, new, is_open, violates,
  scan_item_with_class, sort_lane, seal, FloatOps, deviation, weigh,
}

abbrev pub Compatible : ℕ → ℕ → Type 0
Compatible a b = is_segregation_incompatible a b ≡ false

-- No two recorded classes are incompatible.
abbrev pub Segregated : List ℕ → Type 0
Segregated [] = Unit
Segregated (c ∷ cs) = All (Compatible c) cs × Segregated cs

-- No recorded class is 0, the recorded classes may share the package, and a package that is no
-- longer open has contents.
pub record IsValid (p : Package) : Type 0 where
  pub segregated : Segregated p.scanned_hazard_classes
  pub known : All (◌<◌ 0) p.scanned_hazard_classes
  pub filled : is_open p.status ≡ false → 0 < length p.scanned_contents

pub violates-All : (c : ℕ) (cs : List ℕ) → (violates c cs ≡ false) ↔ All (λ d. Compatible c d) cs
unfolding violates
violates-All c [] = (λ _. tt, λ _. refl)
violates-All c (d ∷ cs) =
    (λ h. ground (arith, violates-All c cs), λ h. ground (arith, violates-All c cs))

violates-In :
    (c : ℕ) (cs : List ℕ)
    → violates c cs ≡ true
    → (d : ℕ) × In d cs × (is_segregation_incompatible c d ≡ true)
unfolding violates
violates-In c [] h = cc
violates-In c (x ∷ cs) h = elim (Bool-cases (is_segregation_incompatible c x)) [
  | inl e ↦ (x, inl refl, e)
  | inr n ↦ let (d, i, e) = violates-In c cs (ground arith) in (d, inr i, e)
]

All-snoc : (P : ℕ → Type 0) (cs : List ℕ) (c : ℕ) → All P cs → P c → All P (cs ++ c ∷ [])
All-snoc P [] c h p = (p, tt)
All-snoc P (d ∷ cs) c h p = (h.0, All-snoc P cs c h.1 p)

pub Segregated-snoc :
    (cs : List ℕ) (c : ℕ) → Segregated cs → All (Compatible c) cs → Segregated (cs ++ c ∷ [])
Segregated-snoc [] c s a = (tt, tt)
Segregated-snoc (d ∷ cs) c s a = (
  All-snoc (Compatible d) cs c s.0 (incompatible_symmetric d c ∙ a.0),
  Segregated-snoc cs c s.1 a.1,
)

length-snoc : {A : Type 0} (xs : List A) (x : A) → 0 < length (xs ++ x ∷ [])
length-snoc [] x = omega arith
length-snoc (y ∷ xs) x = omega arith

pub new-IsValid :
    (id : PackageId) (ref : OrderRef) (t : TaskId) (f g : Bool) → IsValid (new id ref t f g)
unfolding new
new-IsValid id ref t f g = record { segregated = tt; known = tt; filled = λ e. cc }

-- Scanning keeps a package valid: in particular no two recorded classes are incompatible.
pub scan-IsValid :
    (p : Package) (sku : String) (c : ℕ) → IsValid p → IsValid (scan_item_with_class p sku c).0
unfolding scan_item_with_class
scan-IsValid p sku c v = record {
  segregated =
      ground (
        arith,
        violates-All c p.scanned_hazard_classes,
        Segregated-snoc p.scanned_hazard_classes c,
      );
  known = ground (arith, All-snoc (◌<◌ 0) p.scanned_hazard_classes c);
  filled = ground (arith, length-snoc p.scanned_contents sku);
}

-- Scanning adds items, and leaves the rest of the package alone.
pub scan_fields :
    (p : Package) (sku : String) (c : ℕ)
    → (scan_item_with_class p sku c).1 ≡ none
    → let q = (scan_item_with_class p sku c).0 in
      (q.scanned_contents ≡ p.scanned_contents ++ sku ∷ [])
      × (q.id ≡ p.id)
      × (q.order_ref ≡ p.order_ref)
      × (q.task_id ≡ p.task_id)
      × (q.fragile_handling ≡ p.fragile_handling)
      × (q.gift_wrap_requested ≡ p.gift_wrap_requested)
unfolding scan_item_with_class
scan_fields p sku c h = ground arith

pub seal-fields : (p : Package) → (seal p).1 ≡ none → (seal p).0 ≡ record p { status = sealed }
unfolding seal
seal-fields p h = ground arith

pub seal-IsValid : (p : Package) → IsValid p → IsValid (seal p).0
unfolding seal
seal-IsValid p v = record { segregated = ground arith; known = ground arith; filled = ground arith }

pub weigh-IsValid :
    (f : FloatOps) (p : Package) (e a : Float64) → IsValid p → IsValid (weigh f p e a).0
unfolding weigh
weigh-IsValid f p e a v = record {
  segregated = ground arith;
  known = ground arith;
  filled = ground arith;
}

-- A scan is accepted exactly when the package is open and the item either has no hazard class or
-- one that is compatible with every class recorded before.
pub scan-ok_iff :
    (p : Package) (sku : String) (c : ℕ)
    → ((scan_item_with_class p sku c).1 ≡ none)
      ↔ ((p.status ≡ open_) × ((c ≡ 0) ⊎ All (λ d. Compatible c d) p.scanned_hazard_classes))
unfolding scan_item_with_class
scan-ok_iff p sku c = (
  λ h. ground (arith, violates-All c p.scanned_hazard_classes),
  λ h. ground (arith, violates-All c p.scanned_hazard_classes),
)

-- A refused scan leaves the package as it was, and a refusal for segregation names a recorded
-- class that is incompatible with the item's.
pub scan_refused :
    (p : Package) (sku : String) (c : ℕ) {e : PackageError}
    → (scan_item_with_class p sku c).1 ≡ some e
    → ((scan_item_with_class p sku c).0 ≡ p)
      × (e ≡ package_segregation_violation
          → (d : ℕ) × In d p.scanned_hazard_classes × (is_segregation_incompatible c d ≡ true))
unfolding scan_item_with_class
scan_refused p sku c h = (ground arith, λ v. violates-In c p.scanned_hazard_classes (ground arith))

sort_lane-priority_of :
    (p : Package) (cs : List ℕ)
    → p.scanned_hazard_classes ≡ cs
    → ((sort_lane p ≡ hazmat_lane) ↔ (cs ≢ []))
      × ((sort_lane p ≡ fragile_no_tilt) ↔ ((cs ≡ []) × (p.fragile_handling ≡ true)))
unfolding sort_lane
sort_lane-priority_of p [] e =
    ((λ h. ground arith, λ n. absurd (n refl)), (λ h. ground arith, λ h. ground arith))
sort_lane-priority_of p (c ∷ cs) e =
    ((λ h n. cc n, λ _. ground arith), (λ h. ground arith, λ h. cc h.0))

-- Hazmat beats fragile beats standard: the lane is the hazmat lane exactly when a class was
-- recorded, and otherwise follows the fragile flag.
pub sort_lane-priority :
    (p : Package)
    → ((sort_lane p ≡ hazmat_lane) ↔ (p.scanned_hazard_classes ≢ []))
      × ((sort_lane p ≡ fragile_no_tilt)
          ↔ ((p.scanned_hazard_classes ≡ []) × (p.fragile_handling ≡ true)))
unfolding sort_lane
sort_lane-priority p = sort_lane-priority_of p p.scanned_hazard_classes refl

seal-ok_iff_of :
    (p : Package) (xs : List String)
    → p.scanned_contents ≡ xs
    → ((seal p).1 ≡ none) ↔ ((p.status ≡ open_) × (xs ≢ []))
unfolding seal
seal-ok_iff_of p [] e = (λ h. ground arith, λ h. absurd (h.1 refl))
seal-ok_iff_of p (x ∷ xs) e = (λ h. (ground arith, λ n. cc n), λ h. ground arith)

weigh_moves :
    (f : FloatOps) (p : Package) (e a : Float64)
    → (weigh f p e a).2 ≡ none
    → ((weigh f p e a).0.status ≡ labeled) ⊎ ((weigh f p e a).0.status ≡ diverted)
unfolding weigh
weigh_moves f p e a h = ground arith

processed_refuses :
    (f : FloatOps) (q : Package) (e a : Float64) (sku : String) (c : ℕ)
    → (q.status ≡ labeled) ⊎ (q.status ≡ diverted)
    → (weigh f q e a ≡ (q, false, some already_processed))
      × (seal q ≡ (q, some already_sealed))
      × (scan_item_with_class q sku c ≡ (q, some already_sealed))
unfolding seal weigh scan_item_with_class
processed_refuses f q e a sku c h = ground arith

-- Exactly an open package with contents can be sealed and exactly a sealed one can be weighed.
-- The weigh-check moves it for good: after it, scanning, sealing and weighing are all refused
-- and leave the package as it is.
pub seal_then_weigh :
    (f : FloatOps) (p : Package) (e a e' a' : Float64) (sku : String) (c : ℕ)
    → (((seal p).1 ≡ none) ↔ ((p.status ≡ open_) × (p.scanned_contents ≢ [])))
      × (((weigh f p e a).2 ≡ none) ↔ (p.status ≡ sealed))
      × ((weigh f p e a).2 ≡ none
          → let q = (weigh f p e a).0 in
            (weigh f q e' a' ≡ (q, false, some already_processed))
            × (seal q ≡ (q, some already_sealed))
            × (scan_item_with_class q sku c ≡ (q, some already_sealed)))
unfolding weigh
seal_then_weigh f p e a e' a' sku c = (
  seal-ok_iff_of p p.scanned_contents refl,
  (λ h. ground arith, λ h. ground arith),
  λ h. processed_refuses f (weigh f p e a).0 e' a' sku c (weigh_moves f p e a h),
)

-- The label goes on exactly when the deviation is not above the tolerance.
pub weigh-label_iff :
    (f : FloatOps) (p : Package) (e a : Float64)
    → p.status ≡ sealed
    → let r = weigh f p e a in
      ((r.1 ≡ true) ↔ (f.less f.weight_tolerance (deviation f e a) ≡ false))
      × (r.0 ≡ record p { status = if r.1 then labeled else diverted })
unfolding weigh
weigh-label_iff f p e a s = ((λ h. ground arith, λ h. ground arith), ground arith)
