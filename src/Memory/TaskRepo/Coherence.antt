-- ===== src/Memory/TaskRepo/Coherence.antt =====
-- The two maps of the store agree (internal/adapters/outbound/memory/task_repo.go): a task stands
-- under its own id, once, beside the snapshot of its claim state.
use fulfillment_execution.Prelude.{
  ◌≡◌, refl, sym, subst, ◌∙◌, true, some, All, In, Distinct, keys, Map, values, lookup,
  lookup-insert, lookup-insert_self, All-entries, insert-Distinct, In-values, In-lookup,
  string_discrete, arith,
}
use fulfillment_execution.Shared.{TaskId, Time}
use fulfillment_execution.Task.{Task, is_available}
use fulfillment_execution.Memory.TaskRepo.{
  TaskRepo, ClaimSnapshot, empty, snapshot_of, claimable, save, save_claim, find_by_id,
}
use fulfillment_execution.Memory.TaskRepo.Claims.{wins}

abbrev pub Agrees : Map TaskId ClaimSnapshot → TaskId × Task → Type 0
Agrees persisted e =
    (e.1.id ≡ e.0) × (lookup string_discrete e.0 persisted ≡ some (snapshot_of e.1))

pub record IsCoherent (r : TaskRepo) : Type 0 where
  pub once : Distinct (keys r.tasks)
  pub agrees : All (Agrees r.persisted) r.tasks

pub empty-IsCoherent : IsCoherent empty
unfolding empty
empty-IsCoherent = record { once = tt; agrees = tt }

-- A save keeps the two maps of a coherent store coherent.
pub save-IsCoherent : (r : TaskRepo) (t : Task) → IsCoherent r → IsCoherent (save r t)
unfolding save
save-IsCoherent r t c = record {
  once = insert-Distinct string_discrete t.id t r.tasks c.once;
  agrees =
      All-entries string_discrete (Agrees r.persisted) _ t.id t r.tasks c.once c.agrees
        (λ j w a n. (
          a.0,
          lookup-insert string_discrete t.id j (snapshot_of t) r.persisted ∙ ground (arith, a.1),
        ))
        (refl, lookup-insert_self string_discrete t.id (snapshot_of t) r.persisted);
}

pub save_claim-IsCoherent :
    (r : TaskRepo) (t : Task) (now : Time) → IsCoherent r → IsCoherent (save_claim r t now).0
unfolding save_claim
save_claim-IsCoherent r t now c = ground (arith, save-IsCoherent r t c)

-- A stored task is what its id finds, and its snapshot is what SaveClaim compares with.
pub stored :
    (r : TaskRepo) (t : Task)
    → IsCoherent r
    → In t (values r.tasks)
    → (find_by_id r t.id ≡ some t)
      × (lookup string_discrete t.id r.persisted ≡ some (snapshot_of t))
unfolding find_by_id
stored r t c i =
    let (k, a, at) = In-values string_discrete (Agrees r.persisted) r.tasks t c.agrees i in
    (
      subst (λ j. lookup string_discrete j r.tasks ≡ some t) (sym a.0)
          (In-lookup string_discrete k t r.tasks c.once at),
      subst (λ j. lookup string_discrete j r.persisted ≡ some (snapshot_of t)) (sym a.0) a.1,
    )

snapshot-available : (t : Task) (now : Time) → claimable (snapshot_of t) now ≡ is_available t now
unfolding claimable snapshot_of is_available
snapshot-available t now = ground arith

-- With no other station in between, a claim of a stored task that is available is won.
pub available_wins :
    (r : TaskRepo) (t u : Task) (now : Time)
    → IsCoherent r
    → In t (values r.tasks)
    → u.id ≡ t.id
    → is_available t now ≡ true
    → save_claim r u now ≡ (save r u, true)
available_wins r t u now c i same a =
    wins r u (snapshot_of t) now (rw same (stored r t c i).1) (snapshot-available t now ∙ a)
