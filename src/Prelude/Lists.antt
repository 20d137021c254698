-- ===== src/Prelude/Lists.antt =====
-- Lists over the native numbers, and predicates on them by recursion.
use Prim.Native.Nat.{ℕ, zero, suc}
use mathlib.Core.Path.{◌≡◌, refl, subst, sym}
use mathlib.Core.Logic.{◌≢◌, ◌⊎◌, inl, inr}
use mathlib.Core.Bool.{Bool, true}
use mathlib.Core.List.{List, [], ◌∷◌}
use native.Mathlib.Omega.{arith}
use fulfillment_execution.Prelude.Tests.{if◌then◌else◌}

module _ {ℓ} {A : Type ℓ} where
  abbrev pub length : List A → ℕ
  length [] = 0
  length (_ ∷ xs) = suc (length xs)

  abbrev pub get_or : List A → ℕ → A → A
  get_or [] i d = d
  get_or (x ∷ xs) zero d = x
  get_or (x ∷ xs) (suc i) d = get_or xs i d

  -- The elements that pass a Boolean test, in their order.
  unfoldable pub keep : (A → Bool) → List A → List A
  keep p [] = []
  keep p (x ∷ xs) = let rest = keep p xs in if p x then x ∷ rest else rest

-- Membership by recursion, which the tactics take apart.
abbrev pub In : {A : Type 0} → A → List A → Type 0
In a [] = ⊥
In a (x ∷ xs) = (a ≡ x) ⊎ In a xs

abbrev pub All : {A : Type 0} → (A → Type 0) → List A → Type 0
All P [] = Unit
All P (x ∷ xs) = P x × All P xs

-- No element occurs twice.
abbrev pub Distinct : {A : Type 0} → List A → Type 0
Distinct [] = Unit
Distinct (x ∷ xs) = (¬ In x xs) × Distinct xs

module _ {A : Type 0} where
  pub All-in : (P : A → Type 0) (xs : List A) → All P xs → (a : A) → In a xs → P a
  All-in P [] h a i = elim i [ ]
  All-in P (x ∷ xs) h a (inl e) = subst P (sym e) h.0
  All-in P (x ∷ xs) h a (inr i) = All-in P xs h.1 a i

  pub In-All : (P : A → Type 0) (xs : List A) → ((a : A) → In a xs → P a) → All P xs
  In-All P [] h = tt
  In-All P (x ∷ xs) h = (h x (inl refl), In-All P xs λ a i. h a (inr i))

  pub In-keep : (p : A → Bool) (xs : List A) (a : A) → In a (keep p xs) → In a xs × (p a ≡ true)
  unfolding keep
  In-keep p [] a h = elim h [ ]
  In-keep p (x ∷ xs) a h = ground (arith, In-keep p xs a)

  pub keep-In : (p : A → Bool) (xs : List A) (a : A) → In a xs → p a ≡ true → In a (keep p xs)
  unfolding keep
  keep-In p [] a i e = elim i [ ]
  keep-In p (x ∷ xs) a i e = ground (arith, keep-In p xs a)

  pub not-In-All : (a : A) (xs : List A) → All (λ x. x ≢ a) xs → ¬ In a xs
  not-In-All a [] h i = i
  not-In-All a (x ∷ xs) h (inl e) = h.0 (sym e)
  not-In-All a (x ∷ xs) h (inr i) = not-In-All a xs h.1 i
