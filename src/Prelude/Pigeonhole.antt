-- ===== src/Prelude/Pigeonhole.antt =====
-- Lists of distinct texts: one that lies in another is no longer than it.
use Prim.Native.Nat.{suc, ◌≤◌}
use Prim.Native.String.{String}
use mathlib.Core.Path.{◌≡◌, subst}
use mathlib.Core.Logic.{◌≢◌, ite}
use mathlib.Core.List.{List, [], ◌∷◌}
use native.Mathlib.Omega.{arith}
use fulfillment_execution.Prelude.Lists.{length, In, All, Distinct, All-in, In-All}
use fulfillment_execution.Prelude.Keys.{string_discrete}

without : String → List String → List String
without x [] = []
without x (y ∷ ys) = ite (string_discrete y x) ys (y ∷ without x ys)

length-without : (x : String) (ys : List String) → In x ys → suc (length (without x ys)) ≡ length ys
unfolding without
length-without x [] i = elim i [ ]
length-without x (y ∷ ys) i = ground (arith, length-without x ys)

In-without : (x : String) (ys : List String) (a : String) → In a ys → a ≢ x → In a (without x ys)
unfolding without
In-without x [] a i n = elim i [ ]
In-without x (y ∷ ys) a i n = ground (arith, In-without x ys a)

pub length-le_of_subset :
    (xs ys : List String) → Distinct xs → All (λ x. In x ys) xs → length xs ≤ length ys
length-le_of_subset [] ys d s = omega arith
length-le_of_subset (x ∷ xs) ys d s =
    omega (arith, length-without x ys s.0, length-le_of_subset xs (without x ys) d.1 rest)
  where
    rest : All (λ a. In a (without x ys)) xs
    rest =
        In-All _ xs
          λ a i. In-without x ys a (All-in _ xs s.1 a i) (λ e. d.0 (subst (λ b. In b xs) e i))
