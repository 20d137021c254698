-- ===== src/UseCases/Sweeps/Coverage.antt =====
-- What the sweeps reach (internal/application/usecases/expire_leases.go, sweep_cpt_misses.go).
use fulfillment_execution.Prelude.{
  ℕ, ◌+◌, ◌≡◌, ◌↔◌, inl, inr, ◌++◌, Bool, true, false, none, some, List, [], ◌∷◌, map, arith, In,
  keep, In-keep, keep-In, length, Distinct, values, Bool-cases,
}
use mathlib.Core.List.{append_assoc, append-nil}
use fulfillment_execution.Shared.{TaskId}
use fulfillment_execution.Shared.Events.{DomainEvent, lease_expired, task_cpt_missed}
use fulfillment_execution.Task.{Task, claimed, expire_lease_if_due}
use fulfillment_execution.Memory.TaskRepo as TaskRepo
use fulfillment_execution.Memory.TaskRepo.Coherence.{IsCoherent}
use fulfillment_execution.Memory.TaskRepo.Batches.{
  ids, save_all, save_all-pointwise, keep-Distinct, values-Distinct,
}
use fulfillment_execution.Memory.TaskRepo.Queries.{find_all_claimed-In}
use fulfillment_execution.UseCases.Effects.{
  World, Env, ok, saves_task, publishes, begins, commits, lists_claimed, lists_overdue, publish,
  atomically,
}
use fulfillment_execution.UseCases.TaskCalls.{save_task}
use fulfillment_execution.UseCases.ClaimNext.BestFit.{Quiet}
use fulfillment_execution.UseCases.Sweeps.{
  free_one, free_each, expire_leases, report_one, report_each, sweep_cpt_misses,
}

abbrev freed : Env → Task → Task
freed env t = (expire_lease_if_due t env.now).0

abbrev pub due : Env → Task → Bool
due env t = (expire_lease_if_due t env.now).1

freed-id : (env : Env) (t : Task) → (freed env t).id ≡ t.id
unfolding expire_lease_if_due
freed-id env t = ground arith

free_one-Quiet :
    (env : Env) (in_tx : Bool) (t : Task) (w : World)
    → Quiet env
    → free_one env in_tx t w ≡ (
      ok tt,
      record w {
        tasks = TaskRepo.save w.tasks (freed env t);
        published = w.published ++ lease_expired t.id env.now ∷ [];
      },
    )
unfolding free_one atomically save_task publish
free_one-Quiet env in_tx t w quiet = ground (
  arith,
  quiet (saves_task (freed env t).id),
  quiet (publishes (lease_expired t.id env.now ∷ [])),
  quiet begins,
  quiet commits,
)

-- The world after the tasks have been freed, one after the other.
after_freeing : Env → List Task → World → World
after_freeing env ts w = record w {
  tasks = save_all (freed env) ts w.tasks;
  published = w.published ++ map (λ (t : Task). lease_expired t.id env.now) ts;
}

free_each-Quiet :
    (env : Env) (in_tx : Bool) (ts : List Task) (n : ℕ) (w : World)
    → Quiet env
    → free_each env in_tx ts n w
      ≡ (n + length (keep (due env) ts), ok tt, after_freeing env (keep (due env) ts) w)
unfolding free_each after_freeing save_all keep
free_each-Quiet env in_tx [] n w quiet = rw (append-nil w.published) (ground arith)
free_each-Quiet env in_tx (t ∷ ts) n w quiet = elim (Bool-cases (due env t)) [
  | inr e ↦ ground (arith, e, free_each-Quiet env in_tx ts n w quiet)
  | inl e ↦
      let one = free_one-Quiet env in_tx t w quiet in
      let rest = free_each-Quiet env in_tx ts (n + 1) (after_freeing env (t ∷ []) w) quiet in
      let assoc =
        append_assoc w.published (lease_expired t.id env.now ∷ [])
          (map (λ (t : Task). lease_expired t.id env.now) (keep (due env) ts)) in
      ground (arith, e, one, rest, assoc)
]

freed-still : (env : Env) (t : Task) → due env t ≡ false → freed env t ≡ t
unfolding expire_lease_if_due
freed-still env t e = ground arith

due-claimed : (env : Env) (t : Task) → due env t ≡ true → t.status ≡ claimed
unfolding expire_lease_if_due
due-claimed env t e = ground arith

claimed-Distinct :
    (r : TaskRepo.TaskRepo) → IsCoherent r → Distinct (ids (TaskRepo.find_all_claimed r))
unfolding TaskRepo.find_all_claimed
claimed-Distinct r c = keep-Distinct _ (values r.tasks) (values-Distinct r c)

due-exact :
    (env : Env) (r : TaskRepo.TaskRepo) (t : Task)
    → In t (keep (due env) (TaskRepo.find_all_claimed r))
      ↔ (In t (values r.tasks) × (due env t ≡ true))
due-exact env r t = (
  λ i.
      let (j, d) = In-keep (due env) (TaskRepo.find_all_claimed r) t i in
      (((find_all_claimed-In r t).0 j).0, d),
  λ (i, d).
      keep-In (due env) (TaskRepo.find_all_claimed r) t
        ((find_all_claimed-In r t).1 (i, due-claimed env t d)) d,
)

-- With no fault, ExpireLeases counts the stored claimed tasks whose lease has lapsed, publishes
-- one LeaseExpired for each of them, and turns every stored task into what the rules of the
-- aggregate make of it: those whose lease has lapsed are freed, the others stay as they were,
-- and no task appears.
pub expire_leases_frees_due :
    (env : Env) (in_tx : Bool) (w : World)
    → Quiet env
    → IsCoherent w.tasks
    → let freed_tasks = keep (due env) (TaskRepo.find_all_claimed w.tasks) in
      let after = (expire_leases env in_tx w).2 in
      ((expire_leases env in_tx w).0 ≡ length freed_tasks)
      × ((expire_leases env in_tx w).1 ≡ ok tt)
      × (after.published
          ≡ w.published ++ map (λ (t : Task). lease_expired t.id env.now) freed_tasks)
      × ((id : TaskId)
          → (TaskRepo.find_by_id w.tasks id ≡ none → TaskRepo.find_by_id after.tasks id ≡ none)
            × ((t : Task)
                → TaskRepo.find_by_id w.tasks id ≡ some t
                → TaskRepo.find_by_id after.tasks id ≡ some (expire_lease_if_due t env.now).0))
unfolding expire_leases after_freeing
expire_leases_frees_due env in_tx w quiet c = (
  ground (arith, run),
  ground (arith, run),
  ground (arith, run),
  λ id. rw run (
      save_all-pointwise (freed env) (due env) (keep (due env) (TaskRepo.find_all_claimed w.tasks))
        w.tasks c (freed-id env) (freed-still env)
        (keep-Distinct (due env) _ (claimed-Distinct w.tasks c)) (due-exact env w.tasks) id),
)
  where
    run : expire_leases env in_tx w ≡ (
      length (keep (due env) (TaskRepo.find_all_claimed w.tasks)),
      ok tt,
      after_freeing env (keep (due env) (TaskRepo.find_all_claimed w.tasks)) w,
    )
    run = ground (
      arith,
      quiet lists_claimed,
      free_each-Quiet env in_tx (TaskRepo.find_all_claimed w.tasks) 0 w quiet,
    )

report_each-Quiet :
    (env : Env) (in_tx : Bool) (ts : List Task) (n : ℕ) (w : World)
    → Quiet env
    → report_each env in_tx ts n w ≡ (
      n + length ts,
      ok tt,
      record w {
        published =
            w.published
            ++ map (λ (t : Task). task_cpt_missed t.id t.order_ref t.task_type t.cpt.at env.now) ts;
      },
    )
unfolding report_each report_one atomically publish
report_each-Quiet env in_tx [] n w quiet = rw (append-nil w.published) (ground arith)
report_each-Quiet env in_tx (t ∷ ts) n w quiet =
    let missed : Task → DomainEvent =
      λ t. task_cpt_missed t.id t.order_ref t.task_type t.cpt.at env.now in
    let w' = record w { published = w.published ++ missed t ∷ [] } in
    ground (
      arith,
      quiet (publishes (missed t ∷ [])),
      quiet begins,
      quiet commits,
      report_each-Quiet env in_tx ts (n + 1) w' quiet,
      append_assoc w.published (missed t ∷ []) (map missed ts),
    )

-- With no fault, SweepCPTMisses counts the open overdue tasks, publishes one TaskCPTMissed for
-- each of them in the order of the list, and changes no store.
pub sweep_cpt_misses_reports :
    (env : Env) (in_tx : Bool) (w : World)
    → Quiet env
    → let overdue = TaskRepo.find_open_past_cpt w.tasks env.now in
      sweep_cpt_misses env in_tx w ≡ (
        length overdue,
        ok tt,
        record w {
          published =
              w.published
              ++ map
                  (λ (t : Task). task_cpt_missed t.id t.order_ref t.task_type t.cpt.at env.now)
                  overdue;
        },
      )
unfolding sweep_cpt_misses
sweep_cpt_misses_reports env in_tx w quiet = ground (
  arith,
  quiet lists_overdue,
  report_each-Quiet env in_tx (TaskRepo.find_open_past_cpt w.tasks env.now) 0 w quiet,
)
