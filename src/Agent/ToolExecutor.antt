-- ===== src/Agent/ToolExecutor.antt =====
-- app/agent/tool_executor.py: `IsolatedToolExecutor`. A tool is the model's parameter: what its
-- n-th invocation for a call ends with is its n-th outcome, counted from 1. The tracing spans of
-- app/observability.py record attributes and change no result, so they are left out.
pub mod Message
pub mod Totality
pub mod Storage
use Message.{
  ToolMessage, failure_message, is_error_artifact, artifact_is_retryable, with_attempt_metadata,
}
use mini_alpha.Agent.Failures.{
  FailureCategory, FailureRecovery, tool_input, provider, tool_runtime, model_correction, exhausted,
  degraded,
}
use mini_alpha.Agent.Retry.{RetryPolicy, delay}
use mini_alpha.Common.{
  ℕ, zero, suc, ◌+◌, String, Bool, true, false, Option, none, some, List, [], ◌∷◌, map, ◌==◌,
  string_eq, ltb, if◌then◌else◌,
}
use mini_alpha.Common.Value.{Value}

-- How one invocation ends: with a message, with a value that is no message, or with an exception
pub data Outcome : Type 0 where
  message : ToolMessage → Outcome
  no_message timeout_error invalid_arguments provider_timeout provider_error other_error : Outcome

pub record ToolCall : Type 0 where
  pub name : String
  pub id : Option String

-- `call.get("id") or "unknown-call"`
abbrev pub call_id : Option String → String
call_id none = "unknown-call"
call_id (some i) = if i == "" then "unknown-call" else i

abbrev pub or_unknown : String → String
or_unknown name = if name == "" then "unknown" else name

-- `self._tools.get(name)` and the invocations of the tool that is there
abbrev pub Tools : Type 0
Tools = String → Option (ToolCall → ℕ → Outcome)

-- `to_str` is Python's `str` of a value.
module _ (to_str : Value → String) (policy : RetryPolicy) (call : ToolCall) where
  unfoldable pub unknown_tool : ToolMessage
  unknown_tool =
      failure_message (or_unknown call.name) (call_id call.id) "unknown_tool" tool_input
        (or_unknown call.name) false 1 1 model_correction
        "The requested tool is not available for this request."

  -- The message of an attempt that is the last, and none where the loop goes on
  abbrev pub unless_more : ℕ → ToolMessage → Option ToolMessage
  unless_more attempt result = if ltb attempt policy.max_attempts then none else some result

  abbrev pub failed : ℕ → String → FailureCategory → Bool → FailureRecovery → String → ToolMessage
  failed attempt code category retryable recovery public_message =
      failure_message call.name (call_id call.id) code category call.name retryable attempt
        policy.max_attempts recovery public_message

  abbrev malformed : ℕ → ToolMessage
  malformed attempt =
      failed attempt "malformed_tool_arguments" tool_input false model_correction
        "The tool arguments were invalid; correct them and retry."

  unfoldable pub answer : ℕ → Outcome → Option ToolMessage
  answer attempt (message result) =
      if artifact_is_retryable result
      then unless_more attempt (
          with_attempt_metadata to_str result attempt policy.max_attempts (some exhausted)
            (call_id call.id))
      else if is_error_artifact result
      then some
          (with_attempt_metadata to_str result attempt policy.max_attempts none (call_id call.id))
      else some result
  answer attempt no_message = some (malformed attempt)
  answer attempt timeout_error =
      unless_more attempt
        (failed attempt "tool_timeout" tool_runtime true exhausted "The financial tool timed out.")
  answer attempt invalid_arguments = some (malformed attempt)
  answer attempt provider_timeout = unless_more attempt (
      failed attempt "provider_timeout" provider true exhausted
        "Financial data is temporarily unavailable.")
  answer attempt provider_error = unless_more attempt (
      failed attempt "provider_unavailable" provider true exhausted
        "Financial data is temporarily unavailable.")
  answer attempt other_error = some (
      failed attempt "tool_internal_error" tool_runtime false degraded
        "The financial tool could not complete safely.")

  -- The result, the attempt and the delays slept; no result is the end of the loop.
  pub record Execution : Type 0 where
    pub result : Option ToolMessage
    pub attempt : ℕ
    pub slept : List ℕ

  abbrev after_sleep : ℕ → Execution → Execution
  after_sleep d e = record e { slept = d ∷ e.slept }

  abbrev settle : ℕ → Option ToolMessage → Execution → Execution
  settle attempt none rest = after_sleep (delay policy attempt) rest
  settle attempt (some result) rest = record { result = some result; attempt = attempt; slept = [] }

  unfoldable pub execute_from : (ℕ → Outcome) → ℕ → ℕ → Execution
  execute_from tool zero attempt = record { result = none; attempt = attempt; slept = [] }
  execute_from tool (suc left) attempt =
      settle attempt (answer attempt (tool attempt)) (execute_from tool left (attempt + 1))

  unfoldable pub execute_call : Tools → Execution
  unfolding execute_from
  execute_call tools = elim (tools call.name) [
    | none ↦ record { result = some unknown_tool; attempt = 1; slept = [] }
    | some tool ↦ execute_from (tool call) policy.max_attempts 1
  ]

-- `ainvoke` over the calls of the last message: `gather` keeps their order.
unfoldable pub ainvoke :
    (Value → String) → RetryPolicy → Tools → List ToolCall → List (Option ToolMessage)
unfolding execute_call
ainvoke to_str policy tools = map (λ call. (execute_call to_str policy call tools).result)
