-- ===== src/UseCases/ClaimNext/BestFit.antt =====
-- Which task a station is given (internal/application/usecases/claim_next.go).
use fulfillment_execution.Prelude.{
  ℕ, ◌≤◌, ◌≡◌, refl, ◌∙◌, ◌⊎◌, ◌↔◌, inl, inr, ◌++◌, Bool, true, false, some, List, [], ◌∷◌, ℤ, In,
  All, Ascending, values, arith, All-in, Bool-cases, Option-cases,
}
use fulfillment_execution.Shared.{StationId, Time}
use fulfillment_execution.Shared.Capabilities.{CapabilitySet, has_all}
use fulfillment_execution.Shared.Events.{task_claimed}
use fulfillment_execution.Task.{Task, TaskType, claim, is_available}
use fulfillment_execution.Task.Lifecycle.{claim-ok_iff, claim-id}
use fulfillment_execution.Station.{Station}
use fulfillment_execution.Memory.StationRepo as StationRepo
use fulfillment_execution.Memory.TaskRepo as TaskRepo
use fulfillment_execution.Memory.TaskRepo.Coherence.{IsCoherent, available_wins}
use fulfillment_execution.Memory.TaskRepo.Queries.{
  find_claimable_by_type-In, find_claimable_by_type-Ascending,
}
use fulfillment_execution.UseCases.Effects.{
  World, Env, PortCall, ok, err, no_claimable_task, lease_duration_or_default, claims_task,
  finds_station, lists_claimable, publishes, begins, commits,
}
use fulfillment_execution.UseCases.ClaimNext.{persist_claim, try_candidates, claim_next}

-- The world in which the station has the task.
abbrev pub with_claim : World → Task → StationId → Time → World
with_claim w t station_id now = record w {
  tasks = TaskRepo.save w.tasks t;
  published = w.published ++ task_claimed t.id station_id now ∷ [];
}

-- No call of a port fails.
abbrev pub Quiet : Env → Type 0
Quiet env = (c : PortCall) → env.fails c ≡ false

persist_claim-wins :
    (env : Env) (in_tx : Bool) (u : Task) (s : StationId) (now : Time) (w : World)
    → Quiet env
    → TaskRepo.save_claim w.tasks u now ≡ (TaskRepo.save w.tasks u, true)
    → persist_claim env in_tx u s now w ≡ (ok true, with_claim w u s now)
unfolding persist_claim
persist_claim-wins env in_tx u s now w quiet e = ground (
  arith,
  quiet (claims_task u.id),
  quiet (publishes (task_claimed u.id s now ∷ [])),
  quiet begins,
  quiet commits,
)

module _ (env : Env) (in_tx : Bool) (s : StationId) (caps : CapabilitySet) (d : ℕ) (w : World)
    (quiet : Quiet env) (coherent : IsCoherent w.tasks) where
  abbrev Fits : Task → Type 0
  Fits t = has_all caps t.required_capabilities ≡ true

  -- The candidates of the loop: stored and available.
  abbrev Candidate : Task → Type 0
  Candidate t = In t (values w.tasks.tasks) × (is_available t env.now ≡ true)

  given : Task → Task
  given t = (claim t s caps env.now d).0

  try_one :
      (t : Task) (ts : List Task)
      → Candidate t
      → Fits t
      → try_candidates env in_tx s caps env.now d (t ∷ ts) w
        ≡ (ok (given t), with_claim w (given t) s env.now)
  unfolding try_candidates given
  try_one t ts c f =
      rw ((claim-ok_iff t s caps env.now d).1 (c.1, f), try_candidates)
        (rw (
          persist_claim-wins env in_tx (given t) s env.now w quiet (
            available_wins w.tasks t (given t) env.now coherent c.0 (claim-id t s caps env.now d)
              c.1)))

  skip_one :
      (t : Task) (ts : List Task)
      → has_all caps t.required_capabilities ≡ false
      → try_candidates env in_tx s caps env.now d (t ∷ ts) w
        ≡ try_candidates env in_tx s caps env.now d ts w
  unfolding try_candidates
  skip_one t ts n = elim (Option-cases (claim t s caps env.now d).1) [
    | inl e ↦ ground (arith, ((claim-ok_iff t s caps env.now d).0 e).1)
    | inr (x, e) ↦ rw (e, try_candidates)
  ]

  -- The loop ends with the first candidate that fits, which is an earliest one, or with none.
  abbrev Outcome : List Task → Type 0
  Outcome ts =
      ((t : Task) × In t ts
        × Fits t
        × ((o : Task) → In o ts → Fits o → t.cpt.at ≤ o.cpt.at)
        × (try_candidates env in_tx s caps env.now d ts w
            ≡ (ok (given t), with_claim w (given t) s env.now)))
      ⊎ (((o : Task) → In o ts → has_all caps o.required_capabilities ≡ false)
          × (try_candidates env in_tx s caps env.now d ts w ≡ (err no_claimable_task, w)))

  earliest :
      (t : Task) (ts : List Task)
      → All (λ o. t.cpt.at ≤ o.cpt.at) ts
      → (o : Task) → In o (t ∷ ts)
      → t.cpt.at ≤ o.cpt.at
  earliest t ts a o (inl e) = rw e (omega arith)
  earliest t ts a o (inr i) = All-in (λ (x : Task). t.cpt.at ≤ x.cpt.at) ts a o i

  outcome :
      (ts : List Task)
      → Ascending (λ t. t.cpt.at) ts
      → ((t : Task) → In t ts → Candidate t)
      → Outcome ts
  unfolding try_candidates
  outcome [] a c = inr (λ o i. elim i [ ], refl)
  outcome (t ∷ ts) a c = elim (Bool-cases (has_all caps t.required_capabilities)) [
    | inl f ↦ inl (t, inl refl, f, λ o i _. earliest t ts a.0 o i, try_one t ts (c t (inl refl)) f)
    | inr n ↦ elim (outcome ts a.1 (λ o i. c o (inr i))) [
      | inl (u, i, f, least, e) ↦
          inl (u, inr i, f, λ o j g. ground (arith, least o), skip_one t ts n ∙ e)
      | inr (none_fit, e) ↦ inr (λ o j. ground (arith, none_fit o), skip_one t ts n ∙ e)
    ]
  ]

claim_next-tries :
    (env : Env) (in_tx : Bool) (lease : ℤ) (s : StationId) (ty : TaskType) (w : World)
    (st : Station)
    → Quiet env
    → StationRepo.find_by_id w.stations s ≡ some st
    → claim_next env in_tx lease s ty w
      ≡ try_candidates env in_tx s st.capabilities env.now
          (lease_duration_or_default lease)
          (TaskRepo.find_claimable_by_type w.tasks ty env.now)
          w
unfolding claim_next
claim_next-tries env in_tx lease s ty w st quiet found =
    rw (quiet (finds_station s)) (rw found (rw (quiet (lists_claimable ty))))

-- A stored task of the type that is available and asks for no capability beyond the given ones.
pub record Fit (w : World) (now : Time) (ty : TaskType) (caps : CapabilitySet) (t : Task)
    : Type 0 where
  pub stored : In t (values w.tasks.tasks)
  pub typed : t.task_type ≡ ty
  pub available : is_available t now ≡ true
  pub capable : has_all caps t.required_capabilities ≡ true

-- A registered station is given the best fit. If some task fits, the call returns a fitting task
-- of the earliest critical pull time, claimed for the station from now on; the store has it so,
-- one TaskClaimed is published, and nothing else changes. If none fits, the call reports that no
-- task can be claimed and changes nothing. No port fails, and no other station is in between.
pub claim_next_earliest :
    (env : Env) (in_tx : Bool) (lease : ℤ) (s : StationId) (ty : TaskType) (w : World)
    (st : Station)
    → Quiet env
    → IsCoherent w.tasks
    → StationRepo.find_by_id w.stations s ≡ some st
    → let given : Task → Task =
        λ t. (claim t s st.capabilities env.now (lease_duration_or_default lease)).0 in
      ((t : Task) × Fit w env.now ty st.capabilities t
        × ((o : Task) → Fit w env.now ty st.capabilities o → t.cpt.at ≤ o.cpt.at)
        × (claim_next env in_tx lease s ty w ≡ (ok (given t), with_claim w (given t) s env.now)))
      ⊎ (((o : Task) → ¬ Fit w env.now ty st.capabilities o)
          × (claim_next env in_tx lease s ty w ≡ (err no_claimable_task, w)))
unfolding given
claim_next_earliest env in_tx lease s ty w st quiet coherent found =
    elim (outcome env in_tx s st.capabilities (lease_duration_or_default lease) w quiet coherent
      candidates (find_claimable_by_type-Ascending w.tasks ty env.now)
      (λ t i. let c = (candidate t).0 i in (c.0, c.2))) [
        | inl (t, i, f, least, e) ↦
            let c = (candidate t).0 i in
            inl (
              t,
              record { stored = c.0; typed = c.1; available = c.2; capable = f },
              λ o fit. least o ((candidate o).1 (fit.stored, fit.typed, fit.available)) fit.capable,
              claim_next-tries env in_tx lease s ty w st quiet found ∙ e,
            )
        | inr (none_fit, e) ↦ inr (
          λ o fit.
              ground (arith, none_fit o ((candidate o).1 (fit.stored, fit.typed, fit.available))),
          claim_next-tries env in_tx lease s ty w st quiet found ∙ e,
        )
      ]
  where
    candidates : List Task
    candidates = TaskRepo.find_claimable_by_type w.tasks ty env.now

    candidate :
        (t : Task)
        → In t candidates
          ↔ (In t (values w.tasks.tasks) × (t.task_type ≡ ty) × (is_available t env.now ≡ true))
    candidate t = find_claimable_by_type-In w.tasks ty env.now t
