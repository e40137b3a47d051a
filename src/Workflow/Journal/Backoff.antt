-- ===== src/Workflow/Journal/Backoff.antt =====
-- internal/workflow/service.go: the closed form of `retryBackoff`.
use remote_code.Prelude.{ℕ, zero, suc, ◌-◌, ◌*◌, ◌^◌, ◌≡◌, ◌≤◌, min, arith, if◌then◌else◌}
use remote_code.Workflow.Definition.{Config}
use remote_code.Workflow.Journal.{backoff_loop, retry_backoff}

pow_suc : (delay rounds : ℕ) → delay * 2 ^ suc rounds ≡ (delay * 2) * 2 ^ rounds
pow_suc delay rounds = grind arith

grows : (delay rounds : ℕ) → delay ≤ delay * 2 ^ rounds
grows delay zero = omega arith
grows delay (suc rounds) = omega (arith, pow_suc delay rounds, grows (delay * 2) rounds)

backoff_loop-min :
    (rounds delay limit : ℕ) → backoff_loop rounds delay limit ≡ min (delay * 2 ^ rounds) limit
unfolding backoff_loop if◌then◌else◌
backoff_loop-min zero delay limit = ground arith
backoff_loop-min (suc rounds) delay limit =
    rw (backoff_loop-min rounds (delay * 2) limit, pow_suc delay rounds)
      (ground (arith, grows (delay * 2) rounds))

-- The delay before the next attempt is the initial one, doubled for each attempt after the first,
-- up to the greatest one.
pub retry_backoff-min :
    (config : Config) (attempts : ℕ)
    → retry_backoff config attempts
      ≡ min (config.retry_initial_backoff * 2 ^ (attempts - 1)) config.retry_max_backoff
unfolding retry_backoff
retry_backoff-min config attempts = backoff_loop-min (attempts - 1) _ _
