-- ===== src/UseCases.antt =====
-- internal/application/usecases: one module for each group of use cases.
pub mod Effects
pub mod ClaimNext
pub mod TaskCalls
pub mod Sweeps
pub mod SealPackage
pub mod RunSlam
pub mod ArriveAtRebin
pub mod Stations
pub mod Reads
pub mod ClientErrors
pub mod FailsClean
