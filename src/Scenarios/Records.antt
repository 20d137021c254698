-- ===== src/Scenarios/Records.antt =====
-- Data of a small outbox, of a small read model and of a small catalogue that the scenarios run on.
use fulfillment_execution.Prelude.{true, false, none, some, List, [], ◌∷◌, ◌+◌, ◌-◌, ◌==◌}
use fulfillment_execution.Outbox.{Encoded, OutboxRow, Outbox, Pass}
use fulfillment_execution.Analytics.{RowKey, ClaimSeconds, ReportQuery}
use fulfillment_execution.Analytics.Events.{
  Projected, task_claimed, task_completed, package_manifested,
}
use fulfillment_execution.Analytics.Consumer.{AnalyticsData, CloudEvent}
use fulfillment_execution.KafkaCatalog.{PathData, Message}
use fulfillment_execution.KafkaCatalog as KafkaCatalog

abbrev pub told : Encoded
told = record {
  topic = "events";
  event_type = "TaskCreated";
  key = "task";
  value = "{}";
  headers = [];
}

abbrev pub row_one : OutboxRow
row_one = record { id = 1; enc = told; published = false; attempts = 0; last_error = none }

abbrev pub row_two : OutboxRow
row_two = record { id = 2; enc = told; published = false; attempts = 0; last_error = none }

abbrev pub two_rows : Outbox
two_rows = record { rows = row_one ∷ row_two ∷ []; next_id = 3; sent = [] }

abbrev pub empty_outbox : Outbox
empty_outbox = record { rows = []; next_id = 1; sent = [] }

abbrev pub quiet_pass : Pass
quiet_pass = record {
  locked = λ i. false;
  begin_tx = none;
  claim = none;
  send = λ i. none;
  mark = λ i. none;
  record_failure = none;
  commit = none;
}

-- Another relay holds the first row.
abbrev pub beside : Pass
beside = record quiet_pass { locked = λ i. i == 1 }

-- Seconds as whole numbers.
abbrev pub whole_seconds : ClaimSeconds
whole_seconds = record {
  seconds_between = λ a b. b - a;
  plus = λ a b. a + b;
  mean = λ total n. total;
  zero_seconds = 0;
}

abbrev pub shift : RowKey
shift = record { task_type = "PICK"; station_id = "bench"; hour_bucket = 0 }

-- A claim, a completion that arrives twice, and a package on time.
abbrev pub happened : List Projected
happened =
    task_claimed "a" "task" "PICK" "bench" 5
    ∷ task_completed "b" "task" "PICK" "bench" 9
    ∷ task_completed "b" "task" "PICK" "bench" 9
    ∷ package_manifested "c" "PICK" "bench" 11 true
    ∷ []

abbrev pub any_row : ReportQuery
any_row = record { from = 0; to = 10; task_type = ""; station_id = "" }

abbrev pub completed_data : AnalyticsData
completed_data = record {
  task_id = "task";
  task_type = "PICK";
  station_id = "bench";
  package_id = "";
  on_time = false;
  resolved = false;
}

abbrev pub completed_event : CloudEvent
completed_event = record {
  id = "b";
  event_type = "com.warehouse.wes.fulfillment-execution.task.TaskCompleted";
  time = 9;
  payload = some completed_data;
}

abbrev pub first_message : Message
first_message = record { partition = 0; offset = 0; value = "{}" }

abbrev single_path : PathData
single_path = record {
  path_id = "PPSINGLE";
  match_prefix = "PPSINGLE";
  direct = false;
  required_capabilities = [];
  destination_location_role = "";
}

abbrev pub path_created : KafkaCatalog.CloudEvent
path_created = record {
  event_type = "com.warehouse.wes.process-path-management.processpath.ProcessPathCreated";
  payload = some single_path;
}
