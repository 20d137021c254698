-- ===== src/Http/Readiness.antt =====
-- internal/adapters/inbound/http/readiness.go: the gate that a shutdown closes first.
use fulfillment_execution.Prelude.{ℕ, Bool, true, Option, none, some, ◌==◌}

pub record Readiness : Type 0 where
  -- 0 is ready, 1 is not
  pub not_ready : ℕ

-- A nil gate is always ready, and stays so.
unfoldable pub ready : Option Readiness → Bool
ready none = true
ready (some g) = g.not_ready == 0

unfoldable pub set_not_ready : Option Readiness → Option Readiness
set_not_ready none = none
set_not_ready (some g) = some (record g { not_ready = 1 })
