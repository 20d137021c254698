-- ===== src/Memory/TaskRepo/Batches.antt =====
-- Many saves in a row (internal/adapters/outbound/memory/task_repo.go).
use fulfillment_execution.Prelude.{
  ◌≡◌, refl, sym, ap, subst, ◌∙◌, ◌↔◌, inl, inr, if_pos, if_neg, Bool-cases, Bool, true, false,
  some, none, List, [], ◌∷◌, In, Distinct, keep, In-keep, values, keys, lookup-insert, lookup-entry,
  lookup-In, string_discrete, ite, arith, All, All-in, Map,
}
use fulfillment_execution.Shared.{TaskId}
use fulfillment_execution.Task.{Task}
use fulfillment_execution.Memory.TaskRepo.{TaskRepo, ClaimSnapshot, save, find_by_id}
use fulfillment_execution.Memory.TaskRepo.Coherence.{Agrees, IsCoherent, stored}

abbrev pub ids : List Task → List TaskId
ids [] = []
ids (t ∷ ts) = t.id ∷ ids ts

-- Saves what `f` makes of each task.
unfoldable pub save_all : (Task → Task) → List Task → TaskRepo → TaskRepo
save_all f [] r = r
save_all f (t ∷ ts) r = save_all f ts (save r (f t))

pub find-save :
    (r : TaskRepo) (t : Task) (id : TaskId)
    → find_by_id (save r t) id ≡ ite (string_discrete t.id id) (some t) (find_by_id r id)
unfolding find_by_id save
find-save r t id = lookup-insert string_discrete t.id id t r.tasks

save_all-other :
    (f : Task → Task) (ts : List Task) (r : TaskRepo) (id : TaskId)
    → ((t : Task) → (f t).id ≡ t.id)
    → ¬ In id (ids ts)
    → find_by_id (save_all f ts r) id ≡ find_by_id r id
unfolding save_all
save_all-other f [] r id same n = refl
save_all-other f (t ∷ ts) r id same n =
    save_all-other f ts (save r (f t)) id same (λ i. n (inr i))
    ∙ find-save r (f t) id
    ∙ if_neg (string_discrete (f t).id id) (λ e. n (inl (sym (sym (same t) ∙ e)))) (some (f t))
        (find_by_id r id)

save_all_self :
    (f : Task → Task) (ts : List Task) (r : TaskRepo) (t : Task)
    → ((u : Task) → (f u).id ≡ u.id)
    → Distinct (ids ts)
    → In t ts
    → find_by_id (save_all f ts r) t.id ≡ some (f t)
unfolding save_all
save_all_self f [] r t same d i = elim i [ ]
save_all_self f (u ∷ ts) r t same d (inl e) = rw e (
    save_all-other f ts (save r (f u)) u.id same d.0
    ∙ find-save r (f u) u.id
    ∙ if_pos (string_discrete (f u).id u.id) (same u) (some (f u)) (find_by_id r u.id))
save_all_self f (u ∷ ts) r t same d (inr i) = save_all_self f ts (save r (f u)) t same d.1 i

In-ids : (ts : List Task) (id : TaskId) → In id (ids ts) → (t : Task) × In t ts × (t.id ≡ id)
In-ids [] id i = elim i [ ]
In-ids (t ∷ ts) id (inl e) = (t, inl refl, sym e)
In-ids (t ∷ ts) id (inr i) = let (u, j, e) = In-ids ts id i in (u, inr j, e)

ids-In : (ts : List Task) (t : Task) → In t ts → In t.id (ids ts)
ids-In [] t i = elim i [ ]
ids-In (u ∷ ts) t (inl e) = inl (ap (λ (x : Task). x.id) e)
ids-In (u ∷ ts) t (inr i) = inr (ids-In ts t i)

pub keep-Distinct :
    (p : Task → Bool) (ts : List Task) → Distinct (ids ts) → Distinct (ids (keep p ts))
unfolding keep
keep-Distinct p [] d = tt
keep-Distinct p (t ∷ ts) d = ground (arith, keep-Distinct p ts d.1, fresh)
  where
    fresh : ¬ In t.id (ids (keep p ts))
    fresh i =
        let (u, j, e) = In-ids (keep p ts) t.id i in
        d.0 (subst (λ x. In x (ids ts)) e (ids-In ts u (In-keep p ts u j).0))

ids-values :
    (persisted : Map TaskId ClaimSnapshot) (m : Map TaskId Task)
    → All (Agrees persisted) m
    → ids (values m) ≡ keys m
unfolding values
ids-values persisted [] a = refl
ids-values persisted ((k, t) ∷ m) a = ground (arith, ids-values persisted m a.1)

pub values-Distinct : (r : TaskRepo) → IsCoherent r → Distinct (ids (values r.tasks))
values-Distinct r c = rw (ids-values r.persisted r.tasks c.agrees) c.once

-- A save of what `f` makes of some of the stored tasks changes just those, wherever `f` leaves
-- the others alone: every stored task becomes its image.
pub save_all-pointwise :
    (f : Task → Task) (due : Task → Bool) (ts : List Task) (r : TaskRepo)
    → IsCoherent r
    → ((t : Task) → (f t).id ≡ t.id)
    → ((t : Task) → due t ≡ false → f t ≡ t)
    → Distinct (ids ts)
    → ((t : Task) → In t ts ↔ (In t (values r.tasks) × (due t ≡ true)))
    → (id : TaskId)
    → (find_by_id r id ≡ none → find_by_id (save_all f ts r) id ≡ none)
      × ((t : Task) → find_by_id r id ≡ some t → find_by_id (save_all f ts r) id ≡ some (f t))
unfolding find_by_id
save_all-pointwise f due ts r c same still d exact id = (
  λ e. save_all-other f ts r id same (missing e) ∙ e,
  λ t e. elim (Bool-cases (due t)) [
    | inl now ↦
        subst (λ j. find_by_id (save_all f ts r) j ≡ some (f t)) (keyed t e)
          (save_all_self f ts r t same d
            ((exact t).1 (lookup-In string_discrete id r.tasks t e, now)))
    | inr later ↦
        save_all-other f ts r id same (spared t e later) ∙ e ∙ ap some (sym (still t later))
  ],
)
  where
    keyed : (t : Task) → find_by_id r id ≡ some t → t.id ≡ id
    keyed t e =
        (All-in (Agrees r.persisted) r.tasks c.agrees (id, t)
          (lookup-entry string_discrete id r.tasks t e)).0

    only : (t : Task) → In t ts → find_by_id r t.id ≡ some t
    only t i = (stored r t c ((exact t).0 i).0).0

    missing : find_by_id r id ≡ none → ¬ In id (ids ts)
    missing e i =
        let (u, j, at) = In-ids ts id i in
        let is : find_by_id r id ≡ some u = subst (λ k. find_by_id r k ≡ some u) at (only u j) in
        absurd (ground (arith, e, is))

    spared : (t : Task) → find_by_id r id ≡ some t → due t ≡ false → ¬ In id (ids ts)
    spared t e later i =
        let (u, j, at) = In-ids ts id i in
        let is : find_by_id r id ≡ some u = subst (λ k. find_by_id r k ≡ some u) at (only u j) in
        absurd (ground (arith, ((exact u).0 j).1, e, is))
