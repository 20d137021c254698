-- ===== src/WorkReleased.antt =====
-- internal/adapters/inbound/kafka/consumer.go: one task for each WorkReleased event. The
-- CloudEvents SDK is the argument `decode`, and `backoff.Retry` with its bound and context is an
-- argument of the type Retry. Each attempt has an environment of its own.
pub mod Delivery
use fulfillment_execution.Prelude.{
  ℕ, ◌-◌, ◌+◌, ◌≤◌, ◌≡◌, String, Bool, true, false, Option, none, some, List, [], ◌∷◌, ite,
  string_discrete, zero, suc,
}
use fulfillment_execution.Shared.{TaskId, Time, new_cpt}
use fulfillment_execution.Shared.Capabilities.{new_capability_set}
use fulfillment_execution.PathCatalog.{PathDefinition, Catalogue, lookup}
use fulfillment_execution.Memory.ProcessedEvents as ProcessedEvents
use fulfillment_execution.UseCases.Effects.{
  World, Env, M, Result, ok, err, ◌>>=◌, ◌>>◌, pure, fail, get, put, calls, continue,
  marks_processed, unknown_path, not_cloud_event, bad_event_data,
}
use fulfillment_execution.UseCases.TaskCalls.{create_task}

pub record WorkReleasedData : Type 0 where
  pub path_id : String
  pub work_unit_id : String
  pub cpt : Time
  pub ref : String
  pub fragile : Bool
  pub gift_wrap : Bool

-- A valid CloudEvent: its id and type, and what `DataAs` reads from its payload.
pub record CloudEvent : Type 0 where
  pub id : String
  pub event_type : String
  pub payload : Option WorkReleasedData

abbrev pub type_work_released : String
type_work_released = "com.warehouse.wes.work-planning.workunit.WorkReleased"

-- The four ways in which `decodeWorkReleased` ends.
pub data Decoded : Type 0 where
  no_event no_data other_type : Decoded
  released : String → WorkReleasedData → Decoded

abbrev of_data : String → Option WorkReleasedData → Decoded
of_data id none = no_data
of_data id (some d) = released id d

abbrev of_event : Option CloudEvent → Decoded
of_event none = no_event
of_event (some e) =
    ite (string_discrete e.event_type type_work_released) (of_data e.id e.payload) other_type

unfoldable pub decode_work_released : (String → Option CloudEvent) → String → Decoded
decode_work_released decode raw = of_event (decode raw)

-- `c.Processed.MarkProcessed`
unfoldable pub mark_processed : Env → String → M Bool
mark_processed env event_id = do
  calls env (marks_processed event_id)
  w ← get
  put λ _. record w { processed = (ProcessedEvents.mark_processed w.processed event_id).0 }
  pure (ProcessedEvents.mark_processed w.processed event_id).1

abbrev pub create_for : Env → TaskId → WorkReleasedData → Option PathDefinition → M (Unit {0})
create_for env new_id d none = fail unknown_path
create_for env new_id d (some path_def) =
    create_task env false new_id path_def.id (new_cpt d.cpt) d.work_unit_id
      (new_capability_set path_def.required_capabilities) d.fragile d.gift_wrap
    >> pure tt

-- What `backoff.Retry` does with a bound on the retries and an operation, which is told the
-- number of the attempt.
abbrev pub Retry : Type 0 → Type 0
Retry A = ℕ → (ℕ → M A) → M A

abbrev pub max_handler_attempts : ℕ
max_handler_attempts = 3

-- What a consumer is built from: the SDK, the catalogue, the retries of its two operations,
-- and for each attempt at one its environment and the id that `NewId` makes.
pub record Consumer : Type 0 where
  pub decode : String → Option CloudEvent
  pub lower : ℕ → ℕ
  pub catalogue : Catalogue
  pub retry_mark : Retry Bool
  pub retry_work : Retry (Unit {0})
  pub mark_env : ℕ → Env
  pub work_env : ℕ → Env
  pub new_id : ℕ → TaskId

unfoldable pub handle_claimed_event : Consumer → ℕ → WorkReleasedData → M (Unit {0})
handle_claimed_event c attempt d =
    create_for (c.work_env attempt) (c.new_id attempt) d (lookup c.lower c.catalogue d.path_id)

-- `if !isNew { return nil }`, and the work otherwise
abbrev pub if_new : Bool → M (Unit {0}) → M (Unit {0})
if_new false work = pure tt
if_new true work = work

abbrev on_released : Decoded → (String → WorkReleasedData → M (Unit {0})) → M (Unit {0})
on_released no_event handle = fail not_cloud_event
on_released no_data handle = fail bad_event_data
on_released other_type handle = pure tt
on_released (released id d) handle = handle id d

-- The two stages of a released event, each under its retries.
claim_and_work : Consumer → String → WorkReleasedData → M (Unit {0})
claim_and_work c event_id d = do
  is_new ←
      c.retry_mark (max_handler_attempts - 1)
        (λ attempt. mark_processed (c.mark_env attempt) event_id)
  if_new is_new
      (c.retry_work (max_handler_attempts - 1) (λ attempt. handle_claimed_event c attempt d))

unfoldable pub handle_message_with_retry : Consumer → String → M (Unit {0})
unfolding claim_and_work
handle_message_with_retry c raw = on_released (decode_work_released c.decode raw) (claim_and_work c)

-- One attempt at each stage.
once : Consumer → String → WorkReleasedData → M (Unit {0})
once c event_id d = do
  is_new ← mark_processed (c.mark_env 0) event_id
  if_new is_new (handle_claimed_event c 0 d)

unfoldable pub handle_message : Consumer → String → M (Unit {0})
unfolding once
handle_message c raw = on_released (decode_work_released c.decode raw) (once c)
