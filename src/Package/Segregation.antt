-- ===== src/Package/Segregation.antt =====
-- internal/domain/package/segregation.go: which DOT hazard classes may share a package. A Go
-- `int` class is a native number: a negative one is out of range like every number above 9.
use fulfillment_execution.Prelude.{
  ℕ, ◌≡◌, refl, Bool, true, false, ◌||◌, ltb, ◌==◌, if◌then◌else◌, ◌≤◌, ◌<◌, List, In, [], ◌∷◌,
  get_or, arith, ◌≢◌, ◌⊎◌, inl, inr, dec_lt, ◌∙◌, sym, not,
}

-- Row and column 0 are the padding of the Go array; the rows that Go leaves out are all false.
abbrev segregation_matrix : List (List Bool)
segregation_matrix =
    []
    ∷ (false ∷ true ∷ true ∷ true ∷ true ∷ true ∷ true ∷ true ∷ true ∷ true ∷ [])
    ∷ (false ∷ true ∷ false ∷ true ∷ true ∷ true ∷ true ∷ true ∷ true ∷ false ∷ [])
    ∷ (false ∷ true ∷ true ∷ false ∷ false ∷ true ∷ true ∷ false ∷ false ∷ false ∷ [])
    ∷ (false ∷ true ∷ true ∷ false ∷ false ∷ false ∷ true ∷ false ∷ true ∷ false ∷ [])
    ∷ (false ∷ true ∷ true ∷ true ∷ false ∷ false ∷ true ∷ false ∷ true ∷ false ∷ [])
    ∷ (false ∷ true ∷ true ∷ true ∷ true ∷ true ∷ false ∷ false ∷ true ∷ false ∷ [])
    ∷ (false ∷ true ∷ true ∷ false ∷ false ∷ false ∷ false ∷ false ∷ false ∷ false ∷ [])
    ∷ (false ∷ true ∷ true ∷ false ∷ true ∷ true ∷ true ∷ false ∷ false ∷ false ∷ [])
    ∷ (false ∷ true ∷ false ∷ false ∷ false ∷ false ∷ false ∷ false ∷ false ∷ false ∷ [])
    ∷ []

unfoldable pub is_segregation_incompatible : ℕ → ℕ → Bool
is_segregation_incompatible a b =
    if ltb a 1 || ltb 9 a || ltb b 1 || ltb 9 b
    then false
    else get_or (get_or segregation_matrix a []) b false

-- The ten classes of the matrix, over which a table is checked by evaluation.
abbrev classes : List ℕ
classes = 0 ∷ 1 ∷ 2 ∷ 3 ∷ 4 ∷ 5 ∷ 6 ∷ 7 ∷ 8 ∷ 9 ∷ []

each : List ℕ → (ℕ → Bool) → Bool
each [] test = true
each (c ∷ cs) test = let others = each cs test in if test c then others else false

each-In : (cs : List ℕ) (test : ℕ → Bool) (c : ℕ) → each cs test ≡ true → In c cs → test c ≡ true
unfolding each
each-In [] test c h i = elim i [ ]
each-In (d ∷ cs) test c h (inl e) = rw e (ground arith)
each-In (d ∷ cs) test c h (inr i) = each-In cs test c (ground arith) i

class-In : (c : ℕ) → c < 10 → In c classes
class-In c lt = ground arith

pairs_of_classes :
    (test : ℕ → ℕ → Bool) (a b : ℕ)
    → each classes (λ x. each classes (test x)) ≡ true
    → a < 10
    → b < 10
    → test a b ≡ true
pairs_of_classes test a b h la lb =
    each-In classes (test a) b (each-In classes (λ x. each classes (test x)) a h (class-In a la))
      (class-In b lb)

abbrev same : Bool → Bool → Bool
same true b = b
same false true = false
same false false = true

same→≡ : (a b : Bool) → same a b ≡ true → a ≡ b
same→≡ a b h = ground arith

symmetric_table :
    each classes (λ x.
      each classes (λ y. same (is_segregation_incompatible x y) (is_segregation_incompatible y x)))
    ≡ true
unfolding each is_segregation_incompatible
symmetric_table = refl

out_of_range : (a b : ℕ) → (9 < a) ⊎ (9 < b) → is_segregation_incompatible a b ≡ false
unfolding is_segregation_incompatible
out_of_range a b h = ground arith

-- Two classes are incompatible in whichever order they are scanned.
pub incompatible_symmetric :
    (a b : ℕ) → is_segregation_incompatible a b ≡ is_segregation_incompatible b a
incompatible_symmetric a b = elim (dec_lt a 10) [
  | yes la ↦ elim (dec_lt b 10) [
    | yes lb ↦ same→≡ _ _ (
        pairs_of_classes
          (λ x y. same (is_segregation_incompatible x y) (is_segregation_incompatible y x)) a b
          symmetric_table la lb)
    | no nb ↦ out_of_range a b (inr (omega arith)) ∙ sym (out_of_range b a (inl (omega arith)))
  ]
  | no na ↦ out_of_range a b (inl (omega arith)) ∙ sym (out_of_range b a (inr (omega arith)))
]

-- The rules that the matrix is said to follow: class 1 is apart from every class, itself
-- included; class 9 is apart from class 1 alone; any other class goes with itself.
abbrev by_rules : ℕ → ℕ → Bool
by_rules a b =
    if ltb a 1 || ltb b 1
    then not (is_segregation_incompatible a b)
    else if a == 1 || b == 1
    then is_segregation_incompatible a b
    else if a == 9 || b == 9 || a == b
    then not (is_segregation_incompatible a b)
    else true

rules_table : each classes (λ x. each classes (by_rules x)) ≡ true
unfolding each is_segregation_incompatible
rules_table = refl

-- Class 1 is apart from each of the classes 1 to 9. Of the others, each may share a package with
-- its own class and with class 9.
pub segregation_rules :
    (c : ℕ)
    → 1 ≤ c
    → c ≤ 9
    → (is_segregation_incompatible 1 c ≡ true)
      × (c ≢ 1
          → (is_segregation_incompatible 9 c ≡ false) × (is_segregation_incompatible c c ≡ false))
segregation_rules c lo hi = (
  ground (arith, pairs_of_classes by_rules 1 c rules_table),
  λ n. (
    ground (arith, pairs_of_classes by_rules 9 c rules_table),
    ground (arith, pairs_of_classes by_rules c c rules_table),
  ),
)
