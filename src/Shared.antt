-- ===== src/Shared.antt =====
-- internal/domain/shared: identifiers, the critical pull time, and the results of fallible calls.
pub mod Capabilities
pub mod Events
use fulfillment_execution.Prelude.{ℕ, String, Bool, ltb}

abbrev pub TaskId : Type 0
TaskId = String

abbrev pub StationId : Type 0
StationId = String

abbrev pub PackageId : Type 0
PackageId = String

abbrev pub OrderRef : Type 0
OrderRef = String

-- Instants count nanoseconds from Go's zero time; `t.Before(u)` is `ltb t u`.
abbrev pub Time : Type 0
Time = ℕ

pub record Cpt : Type 0 where
  pub at : Time

pub new_cpt : Time → Cpt
new_cpt at = record { at = at }

pub before : Cpt → Cpt → Bool
before c other = ltb c.at other.at
