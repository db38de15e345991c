-- ===== src/Agent/Retry.antt =====
-- app/agent/retry.py: `RetryPolicy` and `retry_async`. The base delay is a whole number of some
-- unit of time. The operation, its classifier and the clock are the caller's; what the n-th call of
-- the operation does is its n-th outcome, counted from 1.
pub mod Budget
use mini_alpha.Common.{
  ℕ, zero, suc, ◌+◌, ◌-◌, ◌*◌, ◌^◌, Bool, true, false, Option, none, some, List, [], ◌∷◌, ltb, leb,
  if◌then◌else◌,
}

pub record RetryPolicy : Type 0 where
  pub max_attempts : ℕ
  pub base_delay : ℕ

-- `__post_init__` raises `ValueError` on any other policy; a delay is never negative here.
abbrev pub is_policy : RetryPolicy → Bool
is_policy p = ltb 0 p.max_attempts

-- `max(completed_attempt - 1, 0)` is the truncated difference.
unfoldable pub delay : RetryPolicy → ℕ → ℕ
delay p completed_attempt = p.base_delay * 2 ^ (completed_attempt - 1)

pub data Outcome {ℓ} (A E : Type ℓ) : Type ℓ where
  returned : A → Outcome A E
  raised : E → Outcome A E

-- What a call of `retry_async` ends with, the call of the operation that it ends at, and the delays
-- that it slept, oldest first
pub record Ending {ℓ} (A E : Type ℓ) : Type ℓ where
  pub outcome : Option (Outcome A E)
  pub attempt : ℕ
  pub slept : List ℕ

abbrev prepend {ℓ} : {A E : Type ℓ} → ℕ → Ending A E → Ending A E
prepend d e = record e { slept = d ∷ e.slept }

module _ {ℓ} {A E : Type ℓ} (policy : RetryPolicy) (retryable : E → Bool)
    (operation : ℕ → Outcome A E) where
  -- Whether the handler goes on to the next attempt
  unfoldable pub goes_on : ℕ → Outcome A E → Bool
  goes_on attempt (returned a) = false
  goes_on attempt (raised e) = if leb policy.max_attempts attempt then false else retryable e

  -- The rounds that are left of the `for` loop, and the attempt; no outcome is the `AssertionError`
  -- behind the loop.
  unfoldable pub retry_from : ℕ → ℕ → Ending A E
  retry_from zero attempt = record { outcome = none; attempt = attempt; slept = [] }
  retry_from (suc left) attempt =
      let rest = prepend (delay policy attempt) (retry_from left (attempt + 1)) in
      if goes_on attempt (operation attempt)
      then rest
      else record { outcome = some (operation attempt); attempt = attempt; slept = [] }

  unfoldable pub retry_async : Ending A E
  unfolding retry_from
  retry_async = retry_from policy.max_attempts 1
