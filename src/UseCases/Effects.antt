-- ===== src/UseCases/Effects.antt =====
-- What the use cases run on: the stores and the published events, the calls of ports that may
-- fail, and the unit of work (internal/application/usecases/unit_of_work.go, errors.go,
-- internal/application/ports/ports.go, internal/adapters/outbound/postgres/unit_of_work.go).
--
-- A use case changes the world and returns a result; what it changed before an error stays
-- changed, unless a unit of work takes it back. Which calls of a port fail is an argument.
use fulfillment_execution.Prelude.{
  ℕ, suc, ◌≡◌, refl, ◌⊎◌, inl, inr, String, Bool, true, false, Option, none, some, List, ◌++◌,
  if◌then◌else◌, ℤ, pos, negsuc, arith, zero,
}
use fulfillment_execution.Shared.{TaskId, StationId, PackageId, OrderRef, Time}
use fulfillment_execution.Shared.Capabilities.{Capability}
use fulfillment_execution.Shared.Events.{DomainEvent}
use fulfillment_execution.Task.{TaskType, TaskError}
use fulfillment_execution.Station.{StationError}
use fulfillment_execution.Package.{PackageError}
use fulfillment_execution.Consolidation.{ConsolidationError}
use fulfillment_execution.Memory.TaskRepo.{TaskRepo}
use fulfillment_execution.Memory.PackageRepo.{PackageRepo}
use fulfillment_execution.Memory.StationRepo.{StationRepo}
use fulfillment_execution.Memory.ConsolidationRepo.{ConsolidationRepo}
use fulfillment_execution.Memory.ProcessedEvents.{ProcessedEvents}

pub record World : Type 0 where
  pub tasks : TaskRepo
  pub stations : StationRepo
  pub packages : PackageRepo
  pub consolidations : ConsolidationRepo
  pub processed : ProcessedEvents
  -- oldest first
  pub published : List DomainEvent

-- A call of a port, with what tells it apart from other calls of one run.
pub data PortCall : Type 0 where
  finds_task saves_task claims_task : TaskId → PortCall
  lists_claimable : TaskType → PortCall
  lists_claimed lists_overdue begins commits : PortCall
  finds_station saves_station : StationId → PortCall
  finds_package saves_package : PackageId → PortCall
  finds_package_of_task : TaskId → PortCall
  finds_consolidation saves_consolidation : OrderRef → PortCall
  counts_tasks : TaskType → PortCall
  counts_stations : Capability → PortCall
  lists_packages lists_tasks : OrderRef → PortCall
  publishes : List DomainEvent → PortCall
  marks_processed : String → PortCall

pub data AppError : Type 0 where
  task_not_found station_not_found package_not_found no_claimable_task wrong_task_type
        station_location_not_work_center :
      AppError
  task_failed : TaskError → AppError
  station_failed : StationError → AppError
  package_failed : PackageError → AppError
  consolidation_failed : ConsolidationError → AppError
  unknown_path not_cloud_event bad_event_data : AppError
  port_failed : PortCall → AppError

-- The clock's time, whether a UnitOfWork is wired, and the calls that fail.
pub record Env : Type 0 where
  pub now : Time
  pub unit_of_work : Bool
  pub fails : PortCall → Bool

pub data Result (A : Type 0) : Type 0 where
  ok : A → Result A
  err : AppError → Result A

abbrev pub M : Type 0 → Type 0
M A = World → Result A × World

abbrev pub continue : {A B : Type 0} → Result A → (A → M B) → M B
continue (ok a) f w = f a w
continue (err e) f w = (err e, w)

infixl 5 ◌>>=◌ ◌>>◌
abbrev pub ◌>>=◌ : {A B : Type 0} (first : M A) (next : A → M B) → M B
◌>>=◌ first next w = let (r, after) = first w in continue r next after

abbrev pub ◌>>◌ : {A B : Type 0} → M A → M B → M B
m >> n = m >>= λ _. n

abbrev pub pure : {A : Type 0} → A → M A
pure a w = (ok a, w)

abbrev pub fail : {A : Type 0} → AppError → M A
fail e w = (err e, w)

abbrev pub get : M World
get w = (ok w, w)

-- A change of the world.
abbrev pub put : (World → World) → M (Unit {0})
put f w = (ok tt, f w)

abbrev pub or_fail : {A : Type 0} → Option A → AppError → M A
or_fail none e = fail e
or_fail (some a) e = pure a

-- An error of the domain, if there is one.
abbrev pub refuse : {E : Type 0} → (E → AppError) → Option E → M (Unit {0})
refuse wrap none = pure tt
refuse wrap (some e) = fail (wrap e)

-- `if err := port.Call(...); err != nil { return err }`
abbrev pub calls : Env → PortCall → M (Unit {0})
calls env c = if env.fails c then fail (port_failed c) else pure tt

unfoldable pub publish : Env → List DomainEvent → M (Unit {0})
publish env events = do
  calls env (publishes events)
  put λ w. record w { published = w.published ++ events }

-- The end of `UnitOfWork.Execute`: a rollback leaves the world of the beginning.
abbrev pub finish : {A : Type 0} → Env → World → Result A × World → Result A × World
finish env before (err e, after) = (err e, before)
finish env before (ok a, after) =
    if env.fails commits then (err (port_failed commits), before) else (ok a, after)

abbrev pub execute : {A : Type 0} → Env → Bool → (Bool → M A) → M A
execute env true fn w = fn true w
execute env false fn w =
    if env.fails begins then (err (port_failed begins), w) else finish env w (fn true w)

-- `in_tx` says whether the context carries a transaction, which a nested call joins.
unfoldable pub atomically : {A : Type 0} → Env → Bool → (Bool → M A) → M A
atomically env in_tx fn w = elim env.unit_of_work [
  | false ↦ fn in_tx w
  | true ↦ execute env in_tx fn w
]

pub Result-cases :
    {A : Type 0} (r : Result A) → ((a : A) × (r ≡ ok a)) ⊎ ((e : AppError) × (r ≡ err e))
Result-cases (ok a) = inl (a, refl)
Result-cases (err e) = inr (e, refl)

-- Durations in nanoseconds: 5 * time.Minute.
abbrev pub default_lease_duration : ℕ
default_lease_duration = 300000000000

unfoldable pub lease_duration_or_default : ℤ → ℕ
lease_duration_or_default (pos zero) = default_lease_duration
lease_duration_or_default (pos (suc n)) = suc n
lease_duration_or_default (negsuc n) = default_lease_duration

-- A unit of work that reports an error has changed nothing: no store and no published event.
pub atomically_rolls_back :
    {A : Type 0} (env : Env) (fn : Bool → M A) (w : World) {e : AppError}
    → env.unit_of_work ≡ true
    → (atomically env false fn w).0 ≡ err e
    → (atomically env false fn w).1 ≡ w
unfolding atomically
atomically_rolls_back env fn w u h = ground arith

-- What a scope did, seen from outside: a success is a success of its body, whose world it keeps.
pub atomically-ok :
    {A : Type 0} (env : Env) (in_tx : Bool) (m : M A) (w : World) (a : A)
    → (atomically env in_tx (λ _. m) w).0 ≡ ok a
    → (m w).0 ≡ ok a
unfolding atomically
atomically-ok env in_tx m w a h = ground (arith, Result-cases (m w).0)

pub atomically_keeps :
    {A : Type 0} (env : Env) (in_tx : Bool) (m : M A) (w : World) (a : A)
    → (atomically env in_tx (λ _. m) w).0 ≡ ok a
    → (atomically env in_tx (λ _. m) w).1 ≡ (m w).1
unfolding atomically
atomically_keeps env in_tx m w a h = ground (arith, Result-cases (m w).0)
