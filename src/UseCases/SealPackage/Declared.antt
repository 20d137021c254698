-- ===== src/UseCases/SealPackage/Declared.antt =====
-- The hazard classes that the inventory service declares, and what sealing makes of them
-- (internal/application/usecases/seal_package.go).
use fulfillment_execution.Prelude.{
  ℕ, ℕ_discrete, ◌≡◌, refl, sym, ap, inl, inr, ◌++◌, ◌∙◌, String, ◌&&◌, Option, none, some, List,
  [], ◌∷◌, ◌==◌, arith, All, Option-cases, if◌then◌else◌,
}
use mathlib.Core.List.{append_assoc, append-nil}
use fulfillment_execution.Package.{Package, scan_item_with_class}
use fulfillment_execution.Package.Segregation.{incompatible_symmetric}
use fulfillment_execution.Package.Lifecycle.{Compatible, Segregated}
use fulfillment_execution.Package.Histories.{scan-recorded, Compatible-zero}
use fulfillment_execution.UseCases.SealPackage.{
  ProductClassification, ClassificationLookup, lookup_hazard_class, scan_all,
}
use fulfillment_execution.UseCases.SealPackage.Scans.{scan_all-refused, scan_all-scanned}

-- The class of a product that is known and hazardous; none where the service does not answer.
abbrev declared_by : Option ProductClassification → Option ℕ
declared_by none = none
declared_by (some info) = if info.known && info.hazmat then some info.dot_hazard_class else none

abbrev pub declared : ClassificationLookup → String → Option ℕ
declared none sku = none
declared (some get_classification) sku = declared_by (get_classification sku)

-- Products of declared classes share a package only where these are compatible.
abbrev pub MayShare : Option ℕ → Option ℕ → Type 0
MayShare none other = Unit
MayShare (some c) none = Unit
MayShare (some c) (some d) = Compatible c d

-- No two of the items are of classes that may not share a package.
abbrev pub Apart : ClassificationLookup → List String → Type 0
Apart lookup [] = Unit
Apart lookup (sku ∷ skus) =
    All (λ other. MayShare (declared lookup sku) (declared lookup other)) skus × Apart lookup skus

abbrev with_class : Option ℕ → List ℕ → List ℕ
with_class none cs = cs
with_class (some c) cs = if c == 0 then cs else c ∷ cs

-- The declared classes of the items, in order; class 0 is no hazard.
abbrev pub declared_classes : ClassificationLookup → List String → List ℕ
declared_classes lookup [] = []
declared_classes lookup (sku ∷ skus) =
    with_class (declared lookup sku) (declared_classes lookup skus)

abbrev or_zero : Option ℕ → ℕ
or_zero none = 0
or_zero (some c) = c

lookup_hazard_class-declared :
    (lookup : ClassificationLookup) (sku : String)
    → lookup_hazard_class lookup sku ≡ or_zero (declared lookup sku)
unfolding lookup_hazard_class
lookup_hazard_class-declared none sku = refl
lookup_hazard_class-declared (some get_classification) sku =
    ground (arith, Option-cases (get_classification sku))

append-with_class :
    (o : Option ℕ) (cs rest : List ℕ)
    → (if or_zero o == 0 then cs else cs ++ or_zero o ∷ []) ++ rest ≡ cs ++ with_class o rest
append-with_class none cs rest = refl
append-with_class (some c) cs rest = ground (arith, append_assoc cs (c ∷ []) rest)

-- A scan of all the items records their declared classes.
pub scan_all-declared :
    (lookup : ClassificationLookup) (skus : List String) (p : Package)
    → (scan_all lookup p skus).1 ≡ none
    → (scan_all lookup p skus).0.scanned_hazard_classes
      ≡ p.scanned_hazard_classes ++ declared_classes lookup skus
scan_all-declared lookup [] p h = unfold scan_all in sym (append-nil p.scanned_hazard_classes)
scan_all-declared lookup (sku ∷ skus) p h =
    let c = lookup_hazard_class lookup sku in
    elim (Option-cases (scan_item_with_class p sku c).1) [
      | inr (x, e) ↦ absurd (ground (arith, scan_all-refused lookup p sku skus x e))
      | inl e ↦
          let s = scan_all-scanned lookup p sku skus e in
          ap (λ (r : Package × _). r.0.scanned_hazard_classes) s
          ∙ scan_all-declared lookup skus (scan_item_with_class p sku c).0 (rw s at h)
          ∙ ap (λ (l : List ℕ). l ++ declared_classes lookup skus)
              (scan-recorded p sku c e
                ∙ ap
                    (λ n.
                      if n == 0
                      then p.scanned_hazard_classes
                      else p.scanned_hazard_classes ++ n ∷ [])
                    (lookup_hazard_class-declared lookup sku))
          ∙ append-with_class (declared lookup sku) p.scanned_hazard_classes
              (declared_classes lookup skus)
    ]

declared-All :
    (lookup : ClassificationLookup) (c : ℕ) (skus : List String)
    → All (Compatible c) (declared_classes lookup skus)
    → All (λ other. MayShare (some c) (declared lookup other)) skus
declared-All lookup c [] h = tt
declared-All lookup c (sku ∷ skus) h = elim (Option-cases (declared lookup sku)) [
  | inl e ↦ let h' = rw e at h in rw e (tt, declared-All lookup c skus h')
  | inr (d, e) ↦
      let h' = rw e at h in rw e (ground (arith, declared-All lookup c skus, Compatible-zero c))
]

harmless-All :
    (lookup : ClassificationLookup) (skus : List String)
    → All (λ other. MayShare none (declared lookup other)) skus
harmless-All lookup [] = tt
harmless-All lookup (sku ∷ skus) = (tt, harmless-All lookup skus)

zero-All :
    (lookup : ClassificationLookup) (skus : List String)
    → All (λ other. MayShare (some 0) (declared lookup other)) skus
zero-All lookup [] = tt
zero-All lookup (sku ∷ skus) = elim (Option-cases (declared lookup sku)) [
  | inl e ↦ rw e (tt, zero-All lookup skus)
  | inr (d, e) ↦ rw e (incompatible_symmetric 0 d ∙ Compatible-zero d, zero-All lookup skus)
]

-- Items whose declared classes may all share a package are apart.
pub Segregated-Apart :
    (lookup : ClassificationLookup) (skus : List String)
    → Segregated (declared_classes lookup skus)
    → Apart lookup skus
Segregated-Apart lookup [] h = tt
Segregated-Apart lookup (sku ∷ skus) h = elim (Option-cases (declared lookup sku)) [
  | inl e ↦ let h' = rw e at h in rw e (harmless-All lookup skus, Segregated-Apart lookup skus h')
  | inr (c, e) ↦ elim (ℕ_discrete c 0) [
    | yes z ↦
        let h' = rw z at (rw e at h) in
        rw e (rw z (zero-All lookup skus, Segregated-Apart lookup skus h'))
    | no n ↦
        let h' = rw e at h in
        rw e (ground (arith, declared-All lookup c skus, Segregated-Apart lookup skus))
  ]
]
