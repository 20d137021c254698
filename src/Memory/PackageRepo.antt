-- ===== src/Memory/PackageRepo.antt =====
-- internal/adapters/outbound/memory/package_repo.go.
use fulfillment_execution.Prelude.{
  ◌≡◌, refl, ◌≢◌, ◌⊎◌, inl, inr, true, false, Option, none, some, List, [], ◌∷◌, Map, lookup,
  insert, values, keep, sort, text_before, string_discrete, ite, arith, In, In-insert, lookup-In,
  lookup-insert_self, ap, ◌∙◌,
}
use fulfillment_execution.Shared.{PackageId, TaskId, OrderRef}
use fulfillment_execution.Package.{Package}

abbrev pub PackageRepo : Type 0
PackageRepo = Map PackageId Package

unfoldable pub save : PackageRepo → Package → PackageRepo
save r p = insert string_discrete p.id p r

unfoldable pub find_by_id : PackageRepo → PackageId → Option Package
find_by_id r id = lookup string_discrete id r

scan_for : TaskId → List Package → Option Package
scan_for task_id [] = none
scan_for task_id (p ∷ ps) = ite (string_discrete p.task_id task_id) (some p) (scan_for task_id ps)

unfoldable pub find_by_task_id : PackageRepo → TaskId → Option Package
unfolding scan_for
find_by_task_id r task_id = ite (string_discrete task_id "") none (scan_for task_id (values r))

unfoldable pub find_by_order_ref : PackageRepo → OrderRef → List Package
find_by_order_ref r order_ref =
    sort (λ (p q : Package). text_before p.id q.id)
      (keep (λ (p : Package). ite (string_discrete p.order_ref order_ref) true false) (values r))

scan_for-finds :
    (task_id : TaskId) (ps : List Package)
    → ((p : Package) × (scan_for task_id ps ≡ some p) × In p ps × (p.task_id ≡ task_id))
      ⊎ ((scan_for task_id ps ≡ none) × ((p : Package) → In p ps → p.task_id ≢ task_id))
unfolding scan_for
scan_for-finds task_id [] = inr (refl, λ p i. elim i [ ])
scan_for-finds task_id (q ∷ ps) = elim (string_discrete q.task_id task_id) [
  | yes e ↦ inl (q, ground arith, inl refl, e)
  | no n ↦ elim (scan_for-finds task_id ps) [
    | inl (p, e, i, same) ↦ inl (p, ground arith, inr i, same)
    | inr (e, none_of) ↦ inr (ground arith, λ p i. ground (arith, none_of p))
  ]
]

-- A package is found for a task exactly when one is stored for it and the task id is not empty.
pub find_by_task_id-finds :
    (r : PackageRepo) (task_id : TaskId)
    → ((p : Package) × (find_by_task_id r task_id ≡ some p)
        × In p (values r)
        × (p.task_id ≡ task_id)
        × (task_id ≢ ""))
      ⊎ ((find_by_task_id r task_id ≡ none)
          × ((task_id ≡ "") ⊎ ((p : Package) → In p (values r) → p.task_id ≢ task_id)))
unfolding find_by_task_id
find_by_task_id-finds r task_id = elim (string_discrete task_id "") [
  | yes e ↦ inr (ground arith, inl e)
  | no n ↦ elim (scan_for-finds task_id (values r)) [
    | inl (p, e, i, same) ↦ inl (p, ground arith, i, same, n)
    | inr (e, none_of) ↦ inr (ground arith, inr none_of)
  ]
]

-- A package that is saved for a task without one is what the task then finds.
pub find_by_task_id-save :
    (r : PackageRepo) (p : Package) (task_id : TaskId)
    → find_by_task_id r task_id ≡ none
    → p.task_id ≡ task_id
    → task_id ≢ ""
    → find_by_task_id (save r p) task_id ≡ some p
unfolding save
find_by_task_id-save r p task_id missing same n = go (find_by_task_id-finds (save r p) task_id)
  where
    stored : In p (values (save r p))
    stored =
        lookup-In string_discrete p.id (save r p) p (lookup-insert_self string_discrete p.id p r)

    only : (q : Package) → In q (values r) → q.task_id ≢ task_id
    only q i = elim (find_by_task_id-finds r task_id) [
      | inl (_, e, _, _, _) ↦ absurd (ground arith)
      | inr (_, inl empty) ↦ absurd (n empty)
      | inr (_, inr none_of) ↦ none_of q i
    ]

    go :
        ((q : Package) × (find_by_task_id (save r p) task_id ≡ some q)
            × In q (values (save r p))
            × (q.task_id ≡ task_id)
            × (task_id ≢ ""))
          ⊎ ((find_by_task_id (save r p) task_id ≡ none)
              × ((task_id ≡ "") ⊎ ((q : Package) → In q (values (save r p)) → q.task_id ≢ task_id)))
        → find_by_task_id (save r p) task_id ≡ some p
    go (inl (q, e, i, same', _)) = elim (In-insert string_discrete p.id p r q i) [
      | inl is ↦ e ∙ ap some is
      | inr old ↦ absurd (only q old same')
    ]
    go (inr (e, inl empty)) = absurd (n empty)
    go (inr (e, inr none_of)) = absurd (none_of p stored same)
