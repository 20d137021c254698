-- ===== src/PathCatalog/Families.antt =====
-- Which definition a path id finds (internal/domain/pathcatalog/path_definition.go).
use fulfillment_execution.Prelude.{
  ℕ, ◌≤◌, ◌≡◌, refl, ◌↔◌, ◌⊎◌, inl, inr, String, true, false, none, some, List, [], ◌∷◌, ◌++◌,
  arith, In, length, subst, Bool-cases, suc, if◌then◌else◌,
}
use native.Mathlib.Nat.{le_trans}
use fulfillment_execution.PathCatalog.{
  PathDefinition, Catalogue, same, has_prefix, matches_prefix, to_lower, recognizes, Best, nothing,
  found, keep_longer, search_from, lookup,
}

same_iff : (xs ys : List ℕ) → (same xs ys ≡ true) ↔ (xs ≡ ys)
unfolding same
same_iff [] [] = (λ _. refl, λ _. refl)
same_iff [] (y ∷ ys) = (λ h. cc, λ h. cc)
same_iff (x ∷ xs) [] = (λ h. cc, λ h. cc)
same_iff (x ∷ xs) (y ∷ ys) =
    (λ h. ground (arith, same_iff xs ys), λ h. ground (arith, same_iff xs ys))

has_prefix_iff :
    (xs ps : List ℕ) → (has_prefix xs ps ≡ true) ↔ ((rest : List ℕ) × (xs ≡ ps ++ rest))
unfolding has_prefix
has_prefix_iff xs [] = (λ _. (xs, refl), λ _. refl)
has_prefix_iff [] (p ∷ ps) = (λ h. cc, λ h. cc h.1)
has_prefix_iff (x ∷ xs) (p ∷ ps) = (
  λ h. let (rest, e) = (has_prefix_iff xs ps).0 (ground arith) in (rest, ground arith),
  λ h. ground (arith, (has_prefix_iff xs ps).1 (h.0, ground arith)),
)

-- An id belongs to a prefix's family exactly when it is the prefix, or goes on with a hyphen.
pub matches_prefix_iff :
    (id prefix : List ℕ)
    → (matches_prefix id prefix ≡ true)
      ↔ ((id ≡ prefix) ⊎ ((rest : List ℕ) × (id ≡ (prefix ++ b'-' ∷ []) ++ rest)))
unfolding matches_prefix
matches_prefix_iff id prefix = (
  λ h. elim (Bool-cases (same id prefix)) [
    | inl e ↦ inl ((same_iff id prefix).0 e)
    | inr n ↦ inr ((has_prefix_iff id (prefix ++ b'-' ∷ [])).0 (ground arith))
  ],
  λ h. elim h [
    | inl e ↦ ground (arith, (same_iff id prefix).1 e)
    | inr p ↦ ground (arith, (has_prefix_iff id (prefix ++ b'-' ∷ [])).1 p)
  ],
)

-- One more than `bestLen`.
abbrev score : Best → ℕ
score nothing = 0
score (found _ n) = suc n

score-keep_longer :
    (b : Best) (d : PathDefinition) (n : ℕ)
    → (score b ≤ score (keep_longer b d n)) × (suc n ≤ score (keep_longer b d n))
unfolding keep_longer
score-keep_longer nothing d n = omega arith
score-keep_longer (found c m) d n = ground arith

keep_longer-found :
    (b : Best) (d : PathDefinition) (n : ℕ)
    → (keep_longer b d n ≡ found d n) ⊎ (keep_longer b d n ≡ b)
unfolding keep_longer
keep_longer-found nothing d n = inl refl
keep_longer-found (found c m) d n = ground arith

module _ (lower : ℕ → ℕ) (id : List ℕ) where
  abbrev prefix_length : PathDefinition → ℕ
  prefix_length d = length (to_lower lower d.match_prefix)

  abbrev pass : Best → PathDefinition → Best
  pass best d = if recognizes lower id d then keep_longer best d (prefix_length d) else best

  score-pass : (b : Best) (d : PathDefinition) → score b ≤ score (pass b d)
  score-pass b d = ground (arith, score-keep_longer b d (prefix_length d))

  score-pass_recognized :
      (b : Best) (d : PathDefinition)
      → recognizes lower id d ≡ true
      → suc (prefix_length d) ≤ score (pass b d)
  score-pass_recognized b d h = ground (arith, score-keep_longer b d (prefix_length d))

  score-search :
      (b : Best) (defs : List PathDefinition) → score b ≤ score (search_from lower id b defs)
  unfolding search_from
  score-search b [] = omega arith
  score-search b (d ∷ defs) = le_trans (score-pass b d) (score-search (pass b d) defs)

  score-search_recognized :
      (b : Best) (defs : List PathDefinition) (d : PathDefinition)
      → In d defs
      → recognizes lower id d ≡ true
      → suc (prefix_length d) ≤ score (search_from lower id b defs)
  unfolding search_from
  score-search_recognized b [] d i h = elim i [ ]
  score-search_recognized b (c ∷ defs) d (inl e) h =
      rw e (le_trans (score-pass_recognized b c (rw e at h)) (score-search (pass b c) defs))
  score-search_recognized b (c ∷ defs) d (inr i) h = score-search_recognized (pass b c) defs d i h

  -- What the search holds at the end it had at the start, or met and recognised.
  search-found :
      (b : Best) (defs : List PathDefinition)
      → (search_from lower id b defs ≡ b)
        ⊎ ((d : PathDefinition) × In d defs
            × (recognizes lower id d ≡ true)
            × (search_from lower id b defs ≡ found d (prefix_length d)))
  unfolding search_from
  search-found b [] = inl refl
  search-found b (c ∷ defs) = elim (search-found (pass b c) defs) [
    | inr (d, i, r, e) ↦ inr (d, inr i, r, e)
    | inl e ↦ elim (Bool-cases (recognizes lower id c)) [
      | inr n ↦ inl (ground arith)
      | inl r ↦ elim (keep_longer-found b c (prefix_length c)) [
        | inl k ↦ inr (c, inl refl, r, ground arith)
        | inr k ↦ inl (ground arith)
      ]
    ]
  ]

-- A lookup is answered by a declared definition that recognises the id, and of those by one with
-- the longest prefix. It is refused only if no declared definition recognises the id.
pub lookup-longest :
    (lower : ℕ → ℕ) (c : Catalogue) (id : String)
    → ((d : PathDefinition) × (lookup lower c id ≡ some d)
        × In d c.defs
        × (recognizes lower (to_lower lower id) d ≡ true)
        × ((other : PathDefinition)
            → In other c.defs
            → recognizes lower (to_lower lower id) other ≡ true
            → length (to_lower lower other.match_prefix) ≤ length (to_lower lower d.match_prefix)))
      ⊎ ((lookup lower c id ≡ none)
          × ((other : PathDefinition)
              → In other c.defs
              → recognizes lower (to_lower lower id) other ≡ false))
unfolding lookup
lookup-longest lower c id = elim (search-found lower (to_lower lower id) nothing c.defs) [
  | inr (d, i, r, e) ↦ inl (
    d,
    rw e,
    i,
    r,
    λ other j h. omega (
      arith,
      subst (λ b. suc (length (to_lower lower other.match_prefix)) ≤ score b) e
          (score-search_recognized lower (to_lower lower id) nothing c.defs other j h),
    ),
  )
  | inl e ↦ inr (
    rw e,
    λ other j. elim (Bool-cases (recognizes lower (to_lower lower id) other)) [
      | inr n ↦ n
      | inl h ↦ absurd (
          omega (
            arith,
            subst (λ b. suc (length (to_lower lower other.match_prefix)) ≤ score b) e
                (score-search_recognized lower (to_lower lower id) nothing c.defs other j h),
          ))
    ],
  )
]
