-- ===== src/Memory.antt =====
-- internal/adapters/outbound/memory: the stores. They copy what they hand out, or hold aggregates
-- that a use case saves after every change, so a stored aggregate is a value.
pub mod TaskRepo
pub mod PackageRepo
pub mod StationRepo
pub mod ConsolidationRepo
pub mod ProcessedEvents
