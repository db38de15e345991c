-- ===== src/Agent/Retry/Budget.antt =====
-- The budget of app/agent/retry.py's loop.
use mini_alpha.Common.{
  ℕ, zero, suc, ◌+◌, ◌-◌, ◌*◌, ◌^◌, ◌≤◌, ◌<◌, ◌≡◌, ◌⊎◌, inl, inr, refl, Bool, true, false, some,
  List, [], ◌∷◌, arith, Bool-cases,
}
use native.Mathlib.Decide.{dec_le}
use mini_alpha.Agent.Retry.{
  prepend, RetryPolicy, is_policy, delay, Outcome, returned, raised, Ending, goes_on, retry_from,
  retry_async,
}

-- The exponential delays after the attempts `first`, `first + 1`, …, as many as the number says
abbrev pub delays : RetryPolicy → ℕ → ℕ → List ℕ
delays p first zero = []
delays p first (suc n) = p.base_delay * 2 ^ (first - 1) ∷ delays p (first + 1) n

module _ {ℓ} {A E : Type ℓ} (policy : RetryPolicy) (retryable : E → Bool)
    (operation : ℕ → Outcome A E) where
  -- The operation raised what is retryable.
  abbrev pub is_transient : Outcome A E → Bool
  is_transient (returned a) = false
  is_transient (raised e) = retryable e

  -- The loop goes on just after a transient outcome with an attempt left.
  goes_on-transient :
      (attempt : ℕ) (o : Outcome A E)
      → goes_on policy retryable operation attempt o ≡ true
      → (is_transient o ≡ true) × (attempt < policy.max_attempts)
  unfolding goes_on
  goes_on-transient attempt (returned a) h = absurd (ground (arith, h))
  goes_on-transient attempt (raised e) h = (ground (arith, h), ground (arith, h))

  stops-final :
      (attempt : ℕ) (o : Outcome A E)
      → goes_on policy retryable operation attempt o ≡ false
      → (is_transient o ≡ false) ⊎ (policy.max_attempts ≤ attempt)
  unfolding goes_on
  stops-final attempt (returned a) h = inl refl
  stops-final attempt (raised e) h = elim (dec_le policy.max_attempts attempt) [
    | yes le ↦ inr le
    | no lt ↦ inl (ground (arith, h, lt))
  ]

  -- How the loop ends that starts at the attempt `first`
  pub record EndsFrom (first : ℕ) (e : Ending A E) : Type ℓ where
    pub first_le : first ≤ e.attempt
    pub within_budget : e.attempt ≤ policy.max_attempts
    pub outcome : e.outcome ≡ some (operation e.attempt)
    pub last : (is_transient (operation e.attempt) ≡ false) ⊎ (e.attempt ≡ policy.max_attempts)
    pub earlier_transient : (k : ℕ) → first ≤ k → k < e.attempt → is_transient (operation k) ≡ true
    pub slept : e.slept ≡ delays policy first (e.attempt - first)

  stops_at_end :
      (attempt : ℕ) (o : Outcome A E)
      → policy.max_attempts ≤ attempt
      → goes_on policy retryable operation attempt o ≡ false
  unfolding goes_on
  stops_at_end attempt (returned a) h = refl
  stops_at_end attempt (raised e) h = ground arith

  delays-suc :
      (first n : ℕ)
      → first + 1 ≤ n
      → policy.base_delay * 2 ^ (first - 1) ∷ delays policy (first + 1) (n - (first + 1))
        ≡ delays policy first (n - first)
  delays-suc first n h = let e : n - first ≡ suc (n - (first + 1)) = omega arith in rw e refl

  ends_from :
      (left first : ℕ)
      → left + first ≡ policy.max_attempts + 1
      → 1 ≤ left
      → EndsFrom first (retry_from policy retryable operation left first)
  unfolding retry_from delay
  ends_from zero first h p = elim p [ ]
  ends_from (suc left) first h p =
      elim (Bool-cases (goes_on policy retryable operation first (operation first))) [
        | inr stop ↦ rw (stop) (record {
          first_le = omega arith;
          within_budget = omega arith;
          outcome = refl;
          last = elim (stops-final first (operation first) stop) [
            | inl final ↦ inl final
            | inr spent ↦ inr (omega (arith, h, p, spent))
          ];
          earlier_transient = λ k a b. absurd (omega arith);
          slept = nothing_slept first;
        })
        | inl go ↦ rw go (continued left first h go (ends_from left (first + 1)))
      ]
    where
      nothing_slept : (n : ℕ) → ◌≡◌ {A = List ℕ} [] (delays policy n (n - n))
      nothing_slept n = let e : n - n ≡ 0 = omega arith in rw e

      continued :
          (left first : ℕ)
          → suc left + first ≡ policy.max_attempts + 1
          → goes_on policy retryable operation first (operation first) ≡ true
          → (left + (first + 1) ≡ policy.max_attempts + 1
              → 1 ≤ left
              → EndsFrom (first + 1) (retry_from policy retryable operation left (first + 1)))
          → EndsFrom first (
              prepend (delay policy first) (retry_from policy retryable operation left (first + 1)))
      continued zero first h go ih =
          absurd (ground (arith, stops_at_end first (operation first) (omega arith)))
      continued (suc left) first h go ih =
          let e = ih (omega arith) (omega arith) in
          record {
            first_le = omega (arith, e.first_le);
            within_budget = e.within_budget;
            outcome = e.outcome;
            last = e.last;
            earlier_transient = λ k a b. elim (dec_le (first + 1) k) [
              | yes later ↦ e.earlier_transient k later b
              | no now ↦
                  let same : k ≡ first = omega arith in
                  rw same (goes_on-transient first (operation first) go).0
            ];
            slept = rw e.slept (
                delays-suc first
                  (retry_from policy retryable operation (suc left) (first + 1)).attempt
                  e.first_le);
          }

  -- A retry whose policy allows an attempt ends, within the budget, with the outcome of one attempt:
  -- the first at which the operation returns, raises what is not retryable, or has no attempt left;
  -- and it has slept the exponential delay after each attempt before that one.
  pub retry_async-ends :
      is_policy policy ≡ true → EndsFrom 1 (retry_async policy retryable operation)
  unfolding retry_async
  retry_async-ends h = ends_from policy.max_attempts 1 (omega arith) (ground arith)
