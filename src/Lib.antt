-- ===== src/Lib.antt =====
-- Fulfillment execution: the tasks of a warehouse floor, from their creation to the labelled
-- package.
--
-- The program. A task waits for a station that has the capabilities it requires (ClaimNext); the
-- station holds it under a lease, which it renews (RenewLease) or ends by completing the task
-- (CompleteTask), and which the clock takes away when it runs out (ExpireLeases). A sweep reports
-- the open tasks whose critical pull time has come (SweepCPTMisses). The lines of an order meet
-- at Rebin (ArriveAtRebin), and the last one creates the order's PACK task (CreateTask). A PACK
-- task is packed and sealed (SealPackage) under the rules for hazardous goods, and the sealed
-- package is weighed, labelled or diverted (RunSlam). Stations are registered and manned
-- (RegisterStation, CheckInStation, CheckOutStation). The use cases change aggregates, keep them
-- in stores and publish events, inside a unit of work where one is wired. The REST interface serves
-- them, POST /tasks behind a middleware that runs a request at most once for each key. The consumer
-- of WorkReleased events creates a task for each event. Published events wait in an outbox table,
-- from which a relay sends them to the broker, and the analytics consumer counts them by process
-- path, station and hour for the throughput report. The catalogue of process paths is rebuilt
-- from its own topic at each start, and is ready once the topic has been read as far as it went then.
--
-- What models what, with paths from the repository's root:
--   Shared            internal/domain/shared (ids, CPT; Capabilities: CapabilitySet; Events)
--   Task              internal/domain/task/task.go (Lifecycle, Histories: what holds of it)
--   Package           internal/domain/package/package.go (Segregation: segregation.go; Lifecycle,
--                     Histories)
--   Station           internal/domain/station/station.go (Lifecycle)
--   Consolidation     internal/domain/consolidation/order_consolidation.go (Arrivals)
--   PathCatalog       internal/domain/pathcatalog/path_definition.go (Families)
--   Memory            internal/adapters/outbound/memory: TaskRepo, PackageRepo, StationRepo,
--                     ConsolidationRepo, ProcessedEvents
--   UseCases          internal/application/usecases: Effects (unit_of_work.go, errors.go and
--                     internal/adapters/outbound/postgres/unit_of_work.go), ClaimNext, TaskCalls
--                     (create, complete, renew), Sweeps, RunSlam, SealPackage, ArriveAtRebin,
--                     Stations, Reads; FailsClean and ClientErrors: what their errors mean
--   Http              internal/adapters/inbound/http: Errors (errors.go), Requests (dto.go),
--                     Responses and Handlers (handlers.go), Readiness (readiness.go),
--                     Serving and Routing (router.go, without and with an idempotency
--                     pool; HalfDone)
--   Idempotency       internal/adapters/inbound/http/idempotency.go (Replays, OncePerKey)
--   Outbox            internal/adapters/outbound/postgres/outbox_publisher.go, outbox_relay.go
--                     (Order, Drains, Losses, Overlap)
--   Analytics         internal/adapters/outbound/analyticsstore/memory_store.go (Events, Steps,
--                     Counts, Reports), internal/adapters/inbound/kafka/analytics_consumer.go
--                     (Consumer)
--   KafkaCatalog      internal/adapters/outbound/kafkacatalog/consumer.go (Ready, LastWord)
--   BootRetry         internal/adapters/outbound/bootretry/retry.go (Waits)
--   WorkReleased      internal/adapters/inbound/kafka/consumer.go (Delivery)
--   Prelude           Booleans, lists, maps, sorting and counting that the parts share
--   Scenarios         the theorems at concrete inputs
--
-- How the source is translated. Names are the source's, in this language's spelling. A method
-- that changes its receiver returns the new record beside its result; a nil pointer is `none`. A
-- Go map is a list of entries with distinct keys, in the order in which Go iterates, and a set is
-- the list of its keys. Instants are nanoseconds from Go's zero time and durations are positive
-- numbers of them once the default has replaced the others. A float64 is its bit pattern, and its
-- arithmetic is the parameter FloatOps; unicode.ToLower is the parameter `lower`. Hazard classes
-- are natural numbers: a negative one, which the matrix treats as one above 9, is not modelled.
-- sort.Slice is an insertion sort, which keeps equal entries in their order as one of the results
-- that Go allows. Every loop is structural recursion, so no fuel is used; the retries of the
-- consumer, a library's, are a parameter with its bound as a hypothesis.
--
-- A use case takes an environment (the clock's time, whether a unit of work is wired, and which
-- calls of a port fail) and the world (the stores and the published events), and returns a result
-- and a new world. What it changed before an error stays changed, unless a unit of work takes it
-- back: then the world is that of the beginning. A nested call joins the transaction that the
-- context carries. Ids from NewId, the answers of the facility-layout and product-classification
-- services and those of other ports are arguments.
--
-- A handler takes the decoded body and the world, and returns a response and a new world; a JSON
-- body of a response is the value that is encoded. The idempotency middleware takes requests one
-- after the other, as the unique index on the key makes those with one key, and the handler's
-- changes stand in its transaction. A pass of the outbox relay takes the calls that fail and the
-- rows that another relay has locked; the ids that the broker took are kept in order. Passes are
-- counted by the room that they have for the unpublished rows, which is enough to empty the table.
--
-- Not modelled: the pointers that the memory stores of packages, stations and orders share with
-- their callers (stores are values here); SQL, JSON, HTTP, Kafka and CloudEvents transport; the
-- read loops and the dead letters of the consumers; the Postgres stores and the Postgres
-- projection; the encoding of published events; the file of the process-path catalogue; circuit
-- breakers; the MCP server; metrics, tracing, logs and start-up wiring.
pub mod Prelude
pub mod Shared
pub mod Task
pub mod Package
pub mod Station
pub mod Consolidation
pub mod PathCatalog
pub mod Memory
pub mod UseCases
pub mod WorkReleased
pub mod BootRetry
pub mod Http
pub mod Idempotency
pub mod Outbox
pub mod Analytics
pub mod KafkaCatalog
pub mod Scenarios
