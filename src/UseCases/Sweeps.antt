-- ===== src/UseCases/Sweeps.antt =====
-- internal/application/usecases/expire_leases.go and sweep_cpt_misses.go: the sweeps that the
-- clock drives. Each freed or overdue task has a scope of its own.
pub mod Coverage
use fulfillment_execution.Prelude.{ℕ, suc, ◌+◌, Bool, true, false, List, [], ◌∷◌, if◌then◌else◌}
use fulfillment_execution.Shared.Events.{lease_expired, task_cpt_missed}
use fulfillment_execution.Task.{Task, expire_lease_if_due}
use fulfillment_execution.Memory.TaskRepo as TaskRepo
use fulfillment_execution.UseCases.Effects.{
  World, Env, M, Result, ok, err, continue, AppError, ◌>>=◌, ◌>>◌, get, calls, publish, atomically,
  lists_claimed, lists_overdue, port_failed,
}
use fulfillment_execution.UseCases.TaskCalls.{save_task}

-- A sweep returns its count beside its error, as in Go.
abbrev pub Counted : Type 0
Counted = World → ℕ × Result (Unit {0}) × World

-- One pass of a loop: an error ends it with the count so far.
abbrev pub counted : Result (Unit {0}) → ℕ → (ℕ → Counted) → Counted
counted (ok _) n rest w = rest (n + 1) w
counted (err e) n rest w = (n, err e, w)

abbrev pub counting : M (Unit {0}) → ℕ → (ℕ → Counted) → Counted
counting scope n rest w = let (r, w') = scope w in counted r n rest w'

unfoldable pub free_one : Env → Bool → Task → M (Unit {0})
free_one env in_tx t = atomically env in_tx λ _.
    save_task env (expire_lease_if_due t env.now).0 >> publish env (lease_expired t.id env.now ∷ [])

unfoldable pub free_each : Env → Bool → List Task → ℕ → Counted
free_each env in_tx [] freed w = (freed, ok tt, w)
free_each env in_tx (t ∷ ts) freed w = elim (expire_lease_if_due t env.now).1 [
  | false ↦ free_each env in_tx ts freed w
  | true ↦ counting (free_one env in_tx t) freed (free_each env in_tx ts) w
]

unfoldable pub expire_leases : Env → Bool → Counted
unfolding free_each free_one
expire_leases env in_tx w =
    if env.fails lists_claimed
    then (0, err (port_failed lists_claimed), w)
    else free_each env in_tx (TaskRepo.find_all_claimed w.tasks) 0 w

unfoldable pub report_one : Env → Bool → Task → M (Unit {0})
report_one env in_tx t =
    atomically env in_tx
      λ _. publish env (task_cpt_missed t.id t.order_ref t.task_type t.cpt.at env.now ∷ [])

unfoldable pub report_each : Env → Bool → List Task → ℕ → Counted
report_each env in_tx [] reported w = (reported, ok tt, w)
report_each env in_tx (t ∷ ts) reported w =
    counting (report_one env in_tx t) reported (report_each env in_tx ts) w

unfoldable pub sweep_cpt_misses : Env → Bool → Counted
unfolding report_each report_one
sweep_cpt_misses env in_tx w =
    if env.fails lists_overdue
    then (0, err (port_failed lists_overdue), w)
    else report_each env in_tx (TaskRepo.find_open_past_cpt w.tasks env.now) 0 w
