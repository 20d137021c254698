-- ===== src/Scenarios.antt =====
-- Tests: the theorems at concrete inputs.
mod Samples
mod Records
mod TaskRules
mod TaskHistories
mod ClaimRaces
mod TaskStore
mod Claiming
mod Sealing
mod LateSealing
mod Rebin
mod TaskServices
mod Clockwork
mod Weighing
mod Packing
mod Paths
mod Occupants
mod Events
mod Requests
mod Keys
mod Start
mod Relays
mod Projection
mod Replay
