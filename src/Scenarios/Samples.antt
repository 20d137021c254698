-- ===== src/Scenarios/Samples.antt =====
-- Data of a small warehouse that the scenarios run on: two PICK tasks, a PACK task, a station,
-- and the calm world in which no port fails.
use fulfillment_execution.Prelude.{
  String, Option, true, false, none, some, [], ◌∷◌, ltb, ◌-◌, ◌+◌, pos,
}
use fulfillment_execution.Shared.{Time, StationId}
use fulfillment_execution.Task.{Task, TaskType, pending, claimed}
use fulfillment_execution.Station.{Station}
use fulfillment_execution.Package.{Package, FloatOps, open_, sealed}
use fulfillment_execution.PathCatalog.{Catalogue}
use fulfillment_execution.Memory.TaskRepo as TaskRepo
use fulfillment_execution.Memory.TaskRepo.Coherence.{IsCoherent, empty-IsCoherent, save-IsCoherent}
use fulfillment_execution.WorkReleased.{Consumer, WorkReleasedData, type_work_released}
use fulfillment_execution.WorkReleased.Delivery.{tries}
use fulfillment_execution.Consolidation.{OrderConsolidation}
use fulfillment_execution.UseCases.SealPackage.{ProductClassification}
use fulfillment_execution.UseCases.Effects.{World, Env}
use fulfillment_execution.UseCases.ArriveAtRebin.{PackPlan}
use fulfillment_execution.Http.Requests.{CreateTaskRequest}
use fulfillment_execution.Http.Handlers.{Handlers, post_task}
use fulfillment_execution.Idempotency.{Request, Run, answered, Faults}

-- A task that waits, of the given id, type and critical pull time.
abbrev pub waiting : String → TaskType → Time → Task
waiting id task_type cpt = record {
  id = id;
  task_type = task_type;
  status = pending;
  cpt = record { at = cpt };
  order_ref = "order";
  required_capabilities = "scanner" ∷ [];
  lease = none;
  fragile = true;
  gift_wrap = false;
  claimed_at = none;
}

-- The task, leased to the station until the given time.
abbrev pub leased : Task → StationId → Time → Task
leased t s expiry = record t {
  status = claimed;
  lease = some (record { station_id = s; expiry = expiry });
  claimed_at = some 1;
}

abbrev pub early : Task
early = waiting "early" "PICK" 20

abbrev pub late : Task
late = waiting "late" "PICK" 40

abbrev pub packing : Task
packing = leased (waiting "packing" "PACK" 30) "bench" 50

abbrev pub bench : Station
bench = record {
  id = "bench";
  capabilities = "scanner" ∷ [];
  occupant = none;
  location_code = "A1";
}

abbrev pub shelf : TaskRepo.TaskRepo
shelf = TaskRepo.save (TaskRepo.save (TaskRepo.save TaskRepo.empty late) early) packing

pub shelf-IsCoherent : IsCoherent shelf
shelf-IsCoherent =
    save-IsCoherent (TaskRepo.save (TaskRepo.save TaskRepo.empty late) early) packing (
      save-IsCoherent (TaskRepo.save TaskRepo.empty late) early
        (save-IsCoherent TaskRepo.empty late empty-IsCoherent))

abbrev pub calm : Time → Env
calm now = record { now = now; unit_of_work = true; fails = λ _. false }

abbrev pub floor : World
floor = record {
  tasks = shelf;
  stations = ("bench", bench) ∷ [];
  packages = [];
  consolidations = [];
  processed = [];
  published = [];
}

abbrev pub open_box : Package
open_box = record {
  id = "box";
  order_ref = "order";
  task_id = "packing";
  status = open_;
  scanned_contents = "lamp" ∷ [];
  fragile_handling = false;
  gift_wrap_requested = false;
  scanned_hazard_classes = 3 ∷ [];
}

-- Weights in whole units; a difference is its absolute value, and one unit may be missing.
abbrev pub whole : FloatOps
whole = record {
  minus = λ x y. (x - y) + (y - x);
  negate = λ x. x;
  less = ltb;
  zero_weight = 0;
  weight_tolerance = 1;
}

abbrev pub plan : PackPlan
plan = record {
  id = "pack-1";
  cpt = record { at = 90 };
  required = [];
  fragile = false;
  gift_wrap = true;
}

abbrev pub paths : Catalogue
paths = record {
  defs =
      record {
        id = "PICK";
        match_prefix = "PICK";
        direct = true;
        required_capabilities = "scanner" ∷ [];
        destination_location_role = "WorkCenter";
      }
      ∷ [];
}

abbrev pub sealed_box : Package
sealed_box = record {
  id = "box";
  order_ref = "order";
  task_id = "packing";
  status = sealed;
  scanned_contents = "lamp" ∷ [];
  fragile_handling = true;
  gift_wrap_requested = false;
  scanned_hazard_classes = [];
}

-- Every product is known as hazardous, of class 3.
abbrev pub paints : String → Option ProductClassification
paints sku = some (record { known = true; hazmat = true; dot_hazard_class = 3 })

abbrev pub sealed_paint : Package
sealed_paint = record {
  id = "box";
  order_ref = "order";
  task_id = "packing";
  status = sealed;
  scanned_contents = "paint" ∷ "paint" ∷ [];
  fragile_handling = true;
  gift_wrap_requested = false;
  scanned_hazard_classes = 3 ∷ 3 ∷ [];
}

-- An order of two lines, of which one has arrived.
abbrev pub half : OrderConsolidation
half = record { order_ref = "order"; required_lines = "b" ∷ "a" ∷ []; arrived_lines = "b" ∷ [] }

abbrev pub release : WorkReleasedData
release = record {
  path_id = "PICK";
  work_unit_id = "order";
  cpt = 80;
  ref = "ref";
  fragile = false;
  gift_wrap = true;
}

-- A consumer to which every message is the same event, and whose retries use their whole bound.
abbrev pub feed : Consumer
feed = record {
  decode = λ raw.
      some (record { id = "event"; event_type = type_work_released; payload = some release });
  lower = λ c. c;
  catalogue = paths;
  retry_mark = λ max op. tries max op 0;
  retry_work = λ max op. tries max op 0;
  mark_env = λ i. calm 10;
  work_env = λ i. calm 10;
  new_id = λ i. "task";
}

-- The handlers of the REST interface in the calm world.
abbrev pub desk : Handlers
desk = record {
  env = calm 10;
  claim_lease_duration = pos 0;
  renew_lease_duration = pos 0;
  classifications = none;
  location_roles = none;
  float_ops = whole;
  new_task_id = "task";
  new_package_id = "box";
  message = λ e. "refused";
  readiness = none;
}

abbrev pub new_task : CreateTaskRequest
new_task = record {
  task_type = "PICK";
  cpt = 80;
  order_ref = "order";
  required_capabilities = "scanner" ∷ [];
  fragile = false;
}

-- POST /tasks behind the middleware; every body decodes to the same task.
abbrev pub tasks_endpoint : Request → World → Run × World
tasks_endpoint r w = (
  answered (post_task desk true r.path (some new_task) w).0,
  (post_task desk true r.path (some new_task) w).1,
)

abbrev pub posted : Request
posted = record { idempotency_key = "key"; method = "POST"; path = "/tasks"; body = "{}" }

abbrev pub no_faults : Faults
no_faults = record {
  body_read = none;
  begin_tx = none;
  insert_key = none;
  marshal_headers = none;
  update_key = none;
  commit_tx = none;
  select_key = none;
}
