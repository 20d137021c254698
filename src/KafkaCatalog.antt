-- ===== src/KafkaCatalog.antt =====
-- internal/adapters/outbound/kafkacatalog/consumer.go: the process-path catalogue that is rebuilt from
-- a Kafka topic, and when it is complete. Decoding is the CloudEvents SDK's, the argument `decode`;
-- `strings.ToUpper` is the argument `upper`.
pub mod Ready
pub mod LastWord
use fulfillment_execution.Prelude.{
  ℕ, ◌+◌, String, Bool, true, false, not, ◌&&◌, Option, none, some, List, [], ◌∷◌, Map, lookup,
  insert, values, ite, ltb, if◌then◌else◌, string_discrete, ℕ_discrete,
}
use fulfillment_execution.PathCatalog.{PathDefinition}
use fulfillment_execution.PathCatalog as PathCatalog

-- Go's `delete`
unfoldable pub delete : {K V : Type 0} → Discrete K → K → Map K V → Map K V
delete dec k [] = []
delete dec k ((j, v) ∷ m) = let rest = delete dec k m in ite (dec j k) rest ((j, v) ∷ rest)

pub record PathData : Type 0 where
  pub path_id : String
  pub match_prefix : String
  pub direct : Bool
  pub required_capabilities : List String
  pub destination_location_role : String

pub record CloudEvent : Type 0 where
  pub event_type : String
  -- `none` where the payload does not decode
  pub payload : Option PathData

pub record Message : Type 0 where
  pub partition : ℕ
  pub offset : ℕ
  pub value : String

pub record Consumer : Type 0 where
  pub paths : Map String PathDefinition
  pub ready : Bool
  -- the partitions that are not caught up, each with the offset behind its last message
  pub target : Map ℕ ℕ

abbrev pub is_empty : Map ℕ ℕ → Bool
is_empty [] = true
is_empty (_ ∷ _) = false

abbrev pub new_consumer : Map ℕ ℕ → Consumer
new_consumer target = record { paths = []; ready = is_empty target; target = target }

abbrev pub definition : PathData → PathDefinition
definition d = record {
  id = d.path_id;
  match_prefix = d.match_prefix;
  direct = d.direct;
  required_capabilities = d.required_capabilities;
  destination_location_role = d.destination_location_role;
}

-- The part of `checkReady` behind its early returns.
abbrev caught_up : Map ℕ ℕ → Consumer → Consumer
caught_up target c = record c { ready = is_empty target; target = target }

abbrev pub reach : Message → Consumer → Option ℕ → Consumer
reach m c none = c
reach m c (some target) =
    if ltb (m.offset + 1) target then c else caught_up (delete ℕ_discrete m.partition c.target) c

unfoldable pub check_ready : Message → Consumer → Consumer
unfolding delete
check_ready m c = if c.ready then c else reach m c (lookup ℕ_discrete m.partition c.target)

abbrev pub is_text : String → String → Bool
is_text a b = ite (string_discrete a b) true false

module _ (upper : String → String) where
  unfoldable pub apply_upsert : PathData → Consumer → Consumer
  apply_upsert d c = record c {
    paths = insert string_discrete (upper d.path_id) (definition d) c.paths;
  }

  unfoldable pub apply_deactivated : String → Consumer → Consumer
  unfolding delete
  apply_deactivated id c = record c { paths = delete string_discrete (upper id) c.paths }

  -- What an event asks for, once its payload is decoded.
  abbrev pub apply_event : String → PathData → Consumer → Consumer
  apply_event ty d c =
      if is_text ty "com.warehouse.wes.process-path-management.processpath.ProcessPathCreated"
      then apply_upsert d c
      else if is_text ty "com.warehouse.wes.process-path-management.processpath.ProcessPathUpdated"
      then apply_upsert d c
      else if is_text ty
          "com.warehouse.wes.process-path-management.processpath.ProcessPathDeactivated"
      then apply_deactivated d.path_id c
      else c

  abbrev pub on_payload : String → Option PathData → Consumer → Consumer
  on_payload ty none c = c
  on_payload ty (some d) c = apply_event ty d c

  abbrev pub on_event : Option CloudEvent → Consumer → Consumer
  on_event none c = c
  on_event (some e) c = on_payload e.event_type e.payload c

  unfoldable pub handle : (String → Option CloudEvent) → Message → Consumer → Consumer
  handle decode m c = on_event (decode m.value) c

  -- `Run`, over the messages that the reader returns.
  unfoldable pub run : (String → Option CloudEvent) → List Message → Consumer → Consumer
  unfolding handle check_ready
  run decode [] c = c
  run decode (m ∷ ms) c = run decode ms (check_ready m (handle decode m c))

-- `Lookup`, on the current snapshot
unfoldable pub lookup_path : (ℕ → ℕ) → Consumer → String → Option PathDefinition
lookup_path lower c id = PathCatalog.lookup lower (PathCatalog.new (values c.paths)) id
