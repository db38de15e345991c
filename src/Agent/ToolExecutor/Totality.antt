-- ===== src/Agent/ToolExecutor/Totality.antt =====
-- How the attempt loop of app/agent/tool_executor.py ends.
use native.Mathlib.Decide.{dec_le}
use mini_alpha.Agent.Retry.Budget.{delays}
use mini_alpha.Agent.Retry.{RetryPolicy, is_policy, delay}
use mini_alpha.Agent.ToolExecutor.Message.{ToolMessage, artifact_is_retryable}
use mini_alpha.Agent.ToolExecutor.{
  Outcome, message, no_message, timeout_error, invalid_arguments, provider_timeout, provider_error,
  other_error, ToolCall, Tools, answer, Execution, after_sleep, execute_from, execute_call,
}
use mini_alpha.Common.Value.{Value}
use mini_alpha.Common.{
  ℕ, String, zero, suc, ◌+◌, ◌-◌, ◌≤◌, ◌<◌, ◌≡◌, ◌⊎◌, inl, inr, refl, Bool, true, false, none, some,
  [], arith, Option-cases,
}

-- The outcomes that the executor tries again while attempts are left
abbrev pub is_transient : Outcome → Bool
is_transient (message m) = artifact_is_retryable m
is_transient no_message = false
is_transient timeout_error = true
is_transient invalid_arguments = false
is_transient provider_timeout = true
is_transient provider_error = true
is_transient other_error = false

module _ (to_str : Value → String) (policy : RetryPolicy) (call : ToolCall) where
  -- The loop goes on just after a transient outcome with an attempt left.
  answer-none :
      (attempt : ℕ) (o : Outcome)
      → answer to_str policy call attempt o ≡ none
      → (is_transient o ≡ true) × (attempt < policy.max_attempts)
  unfolding answer
  answer-none attempt (message m) h = ground arith
  answer-none attempt _ h = ground arith

  answer-some :
      (attempt : ℕ) (o : Outcome) (m : ToolMessage)
      → answer to_str policy call attempt o ≡ some m
      → (is_transient o ≡ false) ⊎ (policy.max_attempts ≤ attempt)
  unfolding answer
  answer-some attempt (message x) m h = ground arith
  answer-some attempt _ m h = ground arith

  -- How the loop ends that starts at the attempt `first`
  pub record SettlesFrom (tool : ℕ → Outcome) (first : ℕ) (e : Execution to_str policy call)
      : Type 0 where
    pub result : ToolMessage
    pub first_le : first ≤ e.attempt
    pub within_budget : e.attempt ≤ policy.max_attempts
    pub returned : e.result ≡ some result
    pub answered : answer to_str policy call e.attempt (tool e.attempt) ≡ some result
    pub last : (is_transient (tool e.attempt) ≡ false) ⊎ (e.attempt ≡ policy.max_attempts)
    pub earlier_transient : (k : ℕ) → first ≤ k → k < e.attempt → is_transient (tool k) ≡ true
    pub slept : e.slept ≡ delays policy first (e.attempt - first)

  module _ (tool : ℕ → Outcome) where
    stopped :
        (attempt : ℕ) (m : ToolMessage)
        → attempt ≤ policy.max_attempts
        → answer to_str policy call attempt (tool attempt) ≡ some m
        → SettlesFrom tool attempt (record { result = some m; attempt = attempt; slept = [] })
    stopped attempt m h a = record {
      result = m;
      first_le = omega arith;
      within_budget = h;
      returned = refl;
      answered = a;
      last = ground (arith, answer-some attempt (tool attempt) m a);
      earlier_transient = λ k p q. absurd (omega arith);
      slept = let e : attempt - attempt ≡ 0 = omega arith in rw e;
    }

    continued :
        (attempt : ℕ) (e : Execution to_str policy call)
        → answer to_str policy call attempt (tool attempt) ≡ none
        → SettlesFrom tool (attempt + 1) e
        → SettlesFrom tool attempt (after_sleep to_str policy call (delay policy attempt) e)
    unfolding delay
    continued attempt e a s = record {
      result = s.result;
      first_le = omega (arith, s.first_le);
      within_budget = s.within_budget;
      returned = s.returned;
      answered = s.answered;
      last = s.last;
      earlier_transient = λ k p q. elim (dec_le (attempt + 1) k) [
        | yes later ↦ s.earlier_transient k later q
        | no now ↦
            let same : k ≡ attempt = omega arith in rw same (answer-none attempt (tool attempt) a).0
      ];
      slept =
          let n : e.attempt - attempt ≡ suc (e.attempt - (attempt + 1)) =
            omega (arith, s.first_le) in
          rw (n, s.slept) refl;
    }

    settles_from :
        (left first : ℕ)
        → left + first ≡ policy.max_attempts + 1
        → 1 ≤ left
        → SettlesFrom tool first (execute_from to_str policy call tool left first)
    unfolding execute_from
    settles_from zero first h p = elim p [ ]
    settles_from (suc zero) first h p =
        elim (Option-cases (answer to_str policy call first (tool first))) [
          | inl a ↦ absurd (omega (arith, answer-none first (tool first) a))
          | inr (m, a) ↦ rw a (stopped first m (omega arith) a)
        ]
    settles_from (suc (suc left)) first h p =
        elim (Option-cases (answer to_str policy call first (tool first))) [
          | inl a ↦ rw a (
              continued first _ a (settles_from (suc left) (first + 1) (omega arith) (omega arith)))
          | inr (m, a) ↦ rw a (stopped first m (omega arith) a)
        ]

  -- Under a policy that allows an attempt, a call of a known tool always ends with a message, at an
  -- attempt within the budget: the first whose outcome is not transient, or the last one. It is the
  -- executor's answer to that attempt, and before it the executor has slept the exponential delay
  -- after each transient attempt.
  pub execute_call-settles :
      (tools : Tools) (tool : ToolCall → ℕ → Outcome)
      → is_policy policy ≡ true
      → tools call.name ≡ some tool
      → SettlesFrom (tool call) 1 (execute_call to_str policy call tools)
  unfolding execute_call
  execute_call-settles tools tool p k =
      rw (execute_call, k)
        (settles_from (tool call) policy.max_attempts 1 (omega arith) (ground arith))
