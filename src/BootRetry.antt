-- ===== src/BootRetry.antt =====
-- internal/adapters/outbound/bootretry/retry.go: the retries with which the process connects at
-- start-up. The operation answers its attempt by an error or none, and `ended` says whether the
-- context is done before the wait after an attempt is over.
pub mod Waits
use fulfillment_execution.Prelude.{
  ℕ, zero, suc, ◌+◌, ◌*◌, Bool, true, false, Option, none, some, List, [], ◌∷◌, ◌++◌, ◌==◌,
}

abbrev pub boot_retries : ℕ
boot_retries = 5

-- One second, in nanoseconds.
abbrev pub boot_retry_delay : ℕ
boot_retry_delay = 1000000000

pub data Ended (E : Type 0) : Type 0 where
  succeeded cancelled : Ended E
  -- the last error
  gave_up : Option E → Ended E

module _ {E : Type 0} (op : ℕ → Option E) (ended : ℕ → Bool) where
  -- The loop: the rounds left, `attempt`, `delay`, `err` and the waits so far.
  pub rounds : ℕ → ℕ → ℕ → Option E → List ℕ → Ended E × List ℕ
  rounds zero attempt delay err waits = (gave_up err, waits)
  rounds (suc left) attempt delay err waits = elim (op attempt) [
    | none ↦ (succeeded, waits)
    | some e ↦ elim (attempt == boot_retries) [
      | true ↦ (gave_up (some e), waits)
      | false ↦ elim (ended attempt) [
        | true ↦ (cancelled, waits)
        | false ↦ rounds left (attempt + 1) (delay * 2) (some e) (waits ++ delay ∷ [])
      ]
    ]
  ]

  pub retry_with_delay : ℕ → Ended E × List ℕ
  unfolding rounds
  retry_with_delay base = rounds boot_retries 1 base none []

  pub retry : Ended E × List ℕ
  unfolding retry_with_delay
  retry = retry_with_delay boot_retry_delay
