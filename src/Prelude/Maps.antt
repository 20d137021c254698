-- ===== src/Prelude/Maps.antt =====
-- Go maps as association lists with distinct keys. The order of the entries stands for the
-- order in which Go happens to iterate.
use mathlib.Core.Path.{◌≡◌, refl, sym, ap, subst, ◌∙◌}
use mathlib.Core.Logic.{inl, inr, ◌⊎◌, ◌≢◌, ite, if_pos, if_neg}
use mathlib.Core.Option.{Option, none, some}
use mathlib.Core.List.{List, [], ◌∷◌}
use native.Mathlib.Omega.{arith}
use fulfillment_execution.Prelude.Lists.{In, All, Distinct, All-in, In-All}

abbrev pub Map {ℓ} : Type ℓ → Type ℓ → Type ℓ
Map K V = List (K × V)

module _ {ℓ} {K V : Type ℓ} (dec : Discrete K) where
  unfoldable pub lookup : K → Map K V → Option V
  lookup k [] = none
  lookup k ((j, v) ∷ m) = ite (dec j k) (some v) (lookup k m)

  unfoldable pub insert : K → V → Map K V → Map K V
  insert k v [] = (k, v) ∷ []
  insert k v ((j, w) ∷ m) = ite (dec j k) ((k, v) ∷ m) ((j, w) ∷ insert k v m)

  pub lookup-insert :
      (k j : K) (v : V) (m : Map K V)
      → lookup j (insert k v m) ≡ ite (dec k j) (some v) (lookup j m)
  unfolding lookup insert
  lookup-insert k j v [] = refl
  lookup-insert k j v ((i, w) ∷ m) = ground (arith, lookup-insert k j v m)

  pub lookup-insert_self : (k : K) (v : V) (m : Map K V) → lookup k (insert k v m) ≡ some v
  lookup-insert_self k v m = ground (arith, lookup-insert k k v m)

module _ {K V : Type 0} (dec : Discrete K) where
  -- Of two writes under one key the later stays.
  pub insert-insert :
      (k : K) (v w : V) (m : Map K V) → insert dec k v (insert dec k w m) ≡ insert dec k v m
  unfolding insert
  insert-insert k v w [] = ground arith
  insert-insert k v w ((j, u) ∷ m) = ground (arith, insert-insert k v w m)

unfoldable pub values {ℓ} : {K V : Type ℓ} → Map K V → List V
values [] = []
values ((_, v) ∷ m) = v ∷ values m

abbrev pub keys {ℓ} : {K V : Type ℓ} → Map K V → List K
keys [] = []
keys ((k, _) ∷ m) = k ∷ keys m

module _ {K V : Type 0} (dec : Discrete K) where
  pub lookup-In : (k : K) (m : Map K V) (v : V) → lookup dec k m ≡ some v → In v (values m)
  unfolding lookup values
  lookup-In k [] v h = cc
  lookup-In k ((j, w) ∷ m) v h = ground (arith, lookup-In k m v)

  pub In-insert :
      (k : K) (v : V) (m : Map K V) (a : V)
      → In a (values (insert dec k v m))
      → (a ≡ v) ⊎ In a (values m)
  unfolding insert values
  In-insert k v [] a h = h
  In-insert k v ((j, w) ∷ m) a h = ground (arith, In-insert k v m a)

  -- What holds of every stored value still holds after a write of such a value.
  pub All-insert :
      (P : V → Type 0) (k : K) (v : V) (m : Map K V)
      → All P (values m)
      → P v
      → All P (values (insert dec k v m))
  unfolding insert values
  All-insert P k v [] h p = (p, tt)
  All-insert P k v ((j, w) ∷ m) h p = ground (arith, All-insert P k v m)

  pub All-lookup :
      (P : V → Type 0) (k : K) (m : Map K V) (v : V)
      → All P (values m)
      → lookup dec k m ≡ some v
      → P v
  All-lookup P k m v h e = All-in P (values m) h v (lookup-In k m v e)

  pub keys-insert :
      (k : K) (v : V) (m : Map K V) (j : K)
      → ¬ In j (keys m)
      → j ≢ k
      → ¬ In j (keys (insert dec k v m))
  unfolding insert
  keys-insert k v [] j f n = ground arith
  keys-insert k v ((i, w) ∷ m) j f n = ground (arith, keys-insert k v m j)

  pub insert-Distinct :
      (k : K) (v : V) (m : Map K V) → Distinct (keys m) → Distinct (keys (insert dec k v m))
  unfolding insert
  insert-Distinct k v [] d = (λ i. i, tt)
  insert-Distinct k v ((j, w) ∷ m) d = elim (dec j k) [
    | yes e ↦ rw (if_pos _ e) (subst (λ x. (¬ In x (keys m)) × Distinct (keys m)) e d)
    | no n ↦ rw (if_neg _ n) (keys-insert k v m j d.0 n, insert-Distinct k v m d.1)
  ]

  In-keys : (k : K) (v : V) (m : Map K V) → In (k, v) m → In k (keys m)
  In-keys k v [] i = i
  In-keys k v ((j, w) ∷ m) i = ground (arith, In-keys k v m)

  -- With distinct keys, an entry of the list is what a lookup of its key finds.
  pub In-lookup :
      (k : K) (v : V) (m : Map K V) → Distinct (keys m) → In (k, v) m → lookup dec k m ≡ some v
  unfolding lookup
  In-lookup k v [] d i = elim i [ ]
  In-lookup k v ((j, w) ∷ m) d i = ground (arith, In-lookup k v m, In-keys k v m)

  -- A write replaces what stood under its key, and keeps every other entry.
  pub All-entries :
      (P Q : K × V → Type 0) (k : K) (v : V) (m : Map K V)
      → Distinct (keys m)
      → All P m
      → ((j : K) (w : V) → P (j, w) → j ≢ k → Q (j, w))
      → Q (k, v)
      → All Q (insert dec k v m)
  unfolding insert
  All-entries P Q k v [] d h f q = (q, tt)
  All-entries P Q k v ((j, w) ∷ m) d h f q = elim (dec j k) [
    | yes e ↦ rw (if_pos _ e) (
      q,
      In-All Q m λ x i.
          f x.0 x.1 (All-in P m h.1 x i)
            (λ same. d.0 (subst (λ a. In a (keys m)) (same ∙ sym e) (In-keys x.0 x.1 m i))),
    )
    | no n ↦ rw (if_neg _ n) (f j w h.0 n, All-entries P Q k v m d.1 h.1 f q)
  ]

  pub In-values :
      (P : K × V → Type 0) (m : Map K V) (v : V)
      → All P m
      → In v (values m)
      → (k : K) × P (k, v) × In (k, v) m
  unfolding values
  In-values P [] v h i = elim i [ ]
  In-values P ((j, w) ∷ m) v h (inl e) =
      (j, subst (λ u. P (j, u)) (sym e) h.0, inl (ap (λ u. (j, u)) e))
  In-values P ((j, w) ∷ m) v h (inr i) = let (k, p, at) = In-values P m v h.1 i in (k, p, inr at)

  pub lookup-entry : (k : K) (m : Map K V) (v : V) → lookup dec k m ≡ some v → In (k, v) m
  unfolding lookup
  lookup-entry k [] v h = cc
  lookup-entry k ((j, w) ∷ m) v h = ground (arith, lookup-entry k m v)
