-- ===== src/Prelude/Sorting.antt =====
-- What the program relies on of `sort.Slice` by a key: an insertion sort, which also keeps the
-- order of equal keys.
use Prim.Native.Nat.{ℕ, ◌≤◌}
use mathlib.Core.Path.{◌≡◌}
use mathlib.Core.Logic.{◌⊎◌}
use mathlib.Core.Bool.{Bool}
use mathlib.Core.List.{List, [], ◌∷◌}
use native.Mathlib.Omega.{arith}
use fulfillment_execution.Prelude.Tests.{ltb, if◌then◌else◌}
use fulfillment_execution.Prelude.Lists.{In, All}

module _ {A : Type 0} (before : A → A → Bool) where
  unfoldable pub place : A → List A → List A
  place x [] = x ∷ []
  place x (y ∷ ys) = let rest = place x ys in if before y x then y ∷ rest else x ∷ y ∷ ys

  unfoldable pub sort : List A → List A
  unfolding place
  sort [] = []
  sort (x ∷ xs) = place x (sort xs)

  pub In-place : (x : A) (ys : List A) (a : A) → In a (place x ys) → (a ≡ x) ⊎ In a ys
  unfolding place
  In-place x [] a h = h
  In-place x (y ∷ ys) a h = ground (arith, In-place x ys a)

  pub place-In : (x : A) (ys : List A) (a : A) → (a ≡ x) ⊎ In a ys → In a (place x ys)
  unfolding place
  place-In x [] a h = h
  place-In x (y ∷ ys) a h = ground (arith, place-In x ys a)

  pub In-sort : (xs : List A) (a : A) → In a (sort xs) → In a xs
  unfolding sort
  In-sort [] a h = h
  In-sort (x ∷ xs) a h = ground (arith, In-place x (sort xs) a, In-sort xs a)

  pub sort-In : (xs : List A) (a : A) → In a xs → In a (sort xs)
  unfolding sort
  sort-In [] a h = h
  sort-In (x ∷ xs) a h = ground (arith, place-In x (sort xs) a, sort-In xs a)

-- Ascending in a key.
module _ {A : Type 0} (key : A → ℕ) where
  abbrev pub by_key : A → A → Bool
  by_key x y = ltb (key x) (key y)

  abbrev pub Ascending : List A → Type 0
  Ascending [] = Unit
  Ascending (x ∷ xs) = All (λ y. key x ≤ key y) xs × Ascending xs

  All-place :
      (k : ℕ) (x : A) (ys : List A)
      → k ≤ key x
      → All (λ y. k ≤ key y) ys
      → All (λ y. k ≤ key y) (place by_key x ys)
  unfolding place
  All-place k x [] h a = (h, tt)
  All-place k x (y ∷ ys) h a = ground (arith, All-place k x ys)

  All-weaken : (j k : ℕ) (ys : List A) → j ≤ k → All (λ y. k ≤ key y) ys → All (λ y. j ≤ key y) ys
  All-weaken j k [] h a = tt
  All-weaken j k (y ∷ ys) h a = (omega arith, All-weaken j k ys h a.1)

  place-Ascending : (x : A) (ys : List A) → Ascending ys → Ascending (place by_key x ys)
  unfolding place
  place-Ascending x [] a = (tt, tt)
  place-Ascending x (y ∷ ys) a =
      ground (arith, place-Ascending x ys, All-place (key y) x ys, All-weaken (key x) (key y) ys)

  pub sort-Ascending : (xs : List A) → Ascending (sort by_key xs)
  unfolding sort
  sort-Ascending [] = tt
  sort-Ascending (x ∷ xs) = place-Ascending x (sort by_key xs) (sort-Ascending xs)
