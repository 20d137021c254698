-- ===== src/Scenarios/Start.antt =====
-- Tests of the start-up retries (internal/adapters/outbound/bootretry/retry.go).
use fulfillment_execution.Prelude.{Bool, Option, String, [], false, some, ℕ, ◌*◌, ◌∷◌, ◌≡◌, ◌≤◌}
use fulfillment_execution.BootRetry.{gave_up, retry_with_delay}
use fulfillment_execution.BootRetry.Waits.{retry_waits, total}

retry_waits_example :
    let E : Type 0 = String in
    let op : ℕ → Option E = λ i. some "down" in
    let ended : ℕ → Bool = λ i. false in
    let base : ℕ = 1 in
    (total (retry_with_delay op ended base).1 ≤ base * 15)
    × ((e : ℕ → E)
        → ((i : ℕ) → op i ≡ some (e i))
        → ((i : ℕ) → ended i ≡ false)
        → retry_with_delay op ended base
          ≡ (gave_up (some (e 5)), base ∷ base * 2 ∷ base * 2 * 2 ∷ base * 2 * 2 * 2 ∷ []))
retry_waits_example = retry_waits {E = String} (λ i. some "down") (λ i. false) 1
