-- ===== src/UseCases/ClientErrors.antt =====
-- Which errors the use cases return while no port fails: those that are the client's
-- (internal/adapters/inbound/http/errors.go, over internal/application/usecases).
pub mod Calls
use fulfillment_execution.Prelude.{
  ℕ, ◌<◌, ◌≡◌, refl, ◌⊎◌, inl, inr, String, Bool, true, false, not, Option, none, some, List, [],
  ◌∷◌, ℤ, arith, Option-cases, Bool-cases, if◌then◌else◌, string_discrete, ite,
}
use fulfillment_execution.Shared.{TaskId, StationId, PackageId, OrderRef, Cpt, Time}
use fulfillment_execution.Shared.Capabilities.{Capability, CapabilitySet}
use fulfillment_execution.Shared.Events.{DomainEvent, Float64}
use fulfillment_execution.Task as Task
use fulfillment_execution.Station as Station
use fulfillment_execution.Package as Package
use fulfillment_execution.Consolidation as Consolidation
use fulfillment_execution.Task.{Task, TaskType}
use fulfillment_execution.Memory.TaskRepo as TaskRepo
use fulfillment_execution.UseCases.Effects.{
  task_not_found, finds_task, saves_task, World, Env, M, Result, ok, err, AppError, PortCall, ◌>>=◌,
  ◌>>◌, pure, fail, get, put, or_fail, refuse, calls, publish, atomically, continue, execute,
  finish, task_failed, station_failed, package_failed, consolidation_failed, begins, commits,
  publishes,
}
use fulfillment_execution.UseCases.TaskCalls.{
  create_task, complete_task, renew_lease, find_task, save_task,
}
use fulfillment_execution.Http.Errors.{status_for}

-- No port fails.
abbrev pub Calm : Env → Type 0
Calm env = (c : PortCall) → env.fails c ≡ false

abbrev pub OfClient : {A : Type 0} → Result A → Type 0
OfClient (ok a) = Unit {0}
OfClient (err e) = status_for e < 500

pub record IsClient {A : Type 0} (m : M A) : Type 0 where
  pub of_client : (w : World) → OfClient (m w).0

module _ {A B : Type 0} {f : A → M B} where
  continue-OfClient :
      ((a : A) → IsClient (f a))
      → (r : Result A) (w : World) → OfClient r
      → OfClient (continue r f w).0
  continue-OfClient q (ok a) w p = (q a).of_client w
  continue-OfClient q (err e) w p = p

  pub bind-IsClient : {m : M A} → IsClient m → ((a : A) → IsClient (f a)) → IsClient (m >>= f)
  bind-IsClient {m} p q = record {
    of_client = λ w. continue-OfClient q (m w).0 (m w).1 (p.of_client w);
  }

pub pure-IsClient : {A : Type 0} (a : A) → IsClient (pure a)
pure-IsClient a = record { of_client = λ w. tt }

pub put-IsClient : (f : World → World) → IsClient (put f)
put-IsClient f = record { of_client = λ w. tt }

pub read-IsClient :
    {A : Type 0} {f : World → M A} → ((w : World) → IsClient (f w)) → IsClient (get >>= f)
read-IsClient p = record { of_client = λ w. (p w).of_client w }

pub fail-IsClient : {A : Type 0} (e : AppError) → status_for e < 500 → IsClient {A = A} (fail e)
fail-IsClient e p = record { of_client = λ w. p }

pub if-IsClient :
    {A : Type 0} (b : Bool) {m n : M A} → IsClient m → IsClient n → IsClient (if b then m else n)
if-IsClient true p q = p
if-IsClient false p q = q

pub elim-IsClient :
    {A : Type 0} (b : Bool) {m n : M A}
    → IsClient m
    → IsClient n
    → IsClient (elim b [ true ↦ m | false ↦ n ])
elim-IsClient true p q = p
elim-IsClient false p q = q

pub refused-IsClient :
    {A E : Type 0} (refusal : Option E) {m n : M A}
    → IsClient m
    → IsClient n
    → IsClient (elim refusal [ some _ ↦ n | none ↦ m ])
refused-IsClient (some x) p q = q
refused-IsClient none p q = p

pub refuse-IsClient :
    {E : Type 0} (wrap : E → AppError)
    → ((x : E) → status_for (wrap x) < 500)
    → (o : Option E) → IsClient (refuse wrap o)
refuse-IsClient wrap p none = record { of_client = λ w. tt }
refuse-IsClient wrap p (some x) = record { of_client = λ w. p x }

pub or_fail-IsClient :
    {A : Type 0} (o : Option A) (e : AppError) → status_for e < 500 → IsClient (or_fail o e)
or_fail-IsClient none e p = record { of_client = λ w. p }
or_fail-IsClient (some a) e p = record { of_client = λ w. tt }

finish-OfClient :
    {A : Type 0} (env : Env) (before : World) (r : Result A) (after : World)
    → env.fails commits ≡ false
    → OfClient r
    → OfClient (finish env before (r, after)).0
finish-OfClient env before (ok a) after c p = rw c tt
finish-OfClient env before (err e) after c p = p

module _ (env : Env) (calm : Calm env) where
  pub calls-IsClient : (c : PortCall) → IsClient (calls env c)
  calls-IsClient c = record { of_client = λ w. rw (calm c) tt }

  pub publish-IsClient : (es : List DomainEvent) → IsClient (publish env es)
  unfolding publish
  publish-IsClient es = record { of_client = λ w. rw (calm (publishes es)) tt }

  execute-IsClient :
      {A : Type 0} (in_tx : Bool) (fn : Bool → M A)
      → ((b : Bool) → IsClient (fn b))
      → IsClient (execute env in_tx fn)
  execute-IsClient true fn p = p true
  execute-IsClient false fn p = record {
    of_client = λ w.
        rw (calm begins)
          (finish-OfClient env w (fn true w).0 (fn true w).1 (calm commits) ((p true).of_client w));
  }

  pub atomically-IsClient :
      {A : Type 0} (in_tx : Bool) (fn : Bool → M A)
      → ((b : Bool) → IsClient (fn b))
      → IsClient (atomically env in_tx fn)
  unfolding atomically
  atomically-IsClient in_tx fn p = record {
    of_client = λ w. elim (Bool-cases env.unit_of_work) [
      | inl e ↦ rw e ((execute-IsClient in_tx fn p).of_client w)
      | inr e ↦ rw e ((p in_tx).of_client w)
    ];
  }

pub task_client : (x : Task.TaskError) → status_for (task_failed x) < 500
unfolding status_for
task_client Task.capability_mismatch = omega arith
task_client Task.already_claimed = omega arith
task_client Task.not_claimed = omega arith
task_client Task.not_owner = omega arith
task_client Task.already_completed = omega arith

pub station_client : (x : Station.StationError) → status_for (station_failed x) < 500
unfolding status_for
station_client Station.occupied = omega arith
station_client Station.not_occupied = omega arith
station_client Station.capability_mismatch = omega arith

pub package_client : (x : Package.PackageError) → status_for (package_failed x) < 500
unfolding status_for
package_client Package.no_scanned_contents = omega arith
package_client Package.already_sealed = omega arith
package_client Package.not_sealed = omega arith
package_client Package.already_processed = omega arith
package_client Package.package_segregation_violation = omega arith

pub consolidation_client :
    (x : Consolidation.ConsolidationError) → status_for (consolidation_failed x) < 500
unfolding status_for
consolidation_client Consolidation.unknown_line = omega arith
