-- ===== src/BootRetry/Waits.antt =====
-- How long a start-up retries (internal/adapters/outbound/bootretry/retry.go).
use fulfillment_execution.Prelude.{
  ℕ, ◌+◌, ◌*◌, ◌≤◌, ◌≡◌, refl, Bool, false, Option, some, List, [], ◌∷◌, arith,
}
use fulfillment_execution.BootRetry.{gave_up, rounds, retry_with_delay}

abbrev pub total : List ℕ → ℕ
total [] = 0
total (w ∷ ws) = w + total ws

-- Where the context does not end, an operation that never succeeds is given up with its fifth error,
-- after four waits, each twice the one before it: fifteen times the base delay in all. No retry waits
-- longer than that, whatever the operation and the context do.
pub retry_waits :
    {E : Type 0} (op : ℕ → Option E) (ended : ℕ → Bool) (base : ℕ)
    → (total (retry_with_delay op ended base).1 ≤ base * 15)
      × ((e : ℕ → E)
          → ((i : ℕ) → op i ≡ some (e i))
          → ((i : ℕ) → ended i ≡ false)
          → retry_with_delay op ended base
            ≡ (gave_up (some (e 5)), base ∷ base * 2 ∷ base * 2 * 2 ∷ base * 2 * 2 * 2 ∷ []))
unfolding retry_with_delay rounds
retry_waits op ended base =
    (ground arith, λ e f g. rw (f 1, g 1, f 2, g 2, f 3, g 3, f 4, g 4, f 5) refl)
