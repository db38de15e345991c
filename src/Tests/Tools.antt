-- ===== src/Tests/Tools.antt =====
-- Runs of app/agent's models.
use mini_alpha.Agent.Failures.RoundTrip.{
  IsValid, parse_structured_failure-to_dict, parse_structured_failure-IsValid,
  parse-failure_for_financial_error,
}
use mini_alpha.Agent.Failures.{
  StructuredFailure, symbol_not_found, provider, exhausted, to_dict, parse_structured_failure,
  failure_for_financial_error, ok, is_identifier, bad_identifier,
}
use mini_alpha.Agent.Retry.Budget.{EndsFrom, retry_async-ends}
use mini_alpha.Agent.Retry.{RetryPolicy, retry_async}
use mini_alpha.Agent.Retry
use mini_alpha.Agent.ToolExecutor.Message.{ToolMessage, failure_message}
use mini_alpha.Agent.ToolExecutor.Storage.{
  Accepted, artifact_of, parse_artifact-answer, parse_artifact-unknown_tool,
}
use mini_alpha.Agent.ToolExecutor.Totality.{SettlesFrom, execute_call-settles}
use mini_alpha.Agent.ToolExecutor.{
  Outcome, provider_timeout, other_error, ToolCall, Tools, answer, execute_call, unknown_tool,
}
use mini_alpha.Common.Value.{Value, is_blank, has_space, is_space}
use mini_alpha.Common.{
  ℕ, String, ◌≡◌, refl, true, false, Option, none, some, arith, ◌==◌, string_eq, nat_eq,
  if◌then◌else◌,
}
use mini_alpha.Persistence.Artifacts
use mini_alpha.Persistence.Artifacts.{parse_artifact}

abbrev policy : RetryPolicy
policy = record { max_attempts = 3; base_delay = 5 }

-- An operation that raises twice and returns at its third call
abbrev third_time : ℕ → Retry.Outcome ℕ ℕ
third_time n = if n == 3 then Retry.returned 42 else Retry.raised n

retry_async-ends_example :
    EndsFrom policy (λ (e : ℕ). true) third_time 1 (retry_async policy (λ (e : ℕ). true) third_time)
retry_async-ends_example = retry_async-ends policy (λ (e : ℕ). true) third_time refl

abbrev call : ToolCall
call = record { name = "get_ownership"; id = some "call-1" }

abbrev spaced_call : ToolCall
spaced_call = record { name = "get ownership"; id = some "call-1" }

abbrev text_of : Value → String
text_of v = "value"

-- A tool whose provider times out once, and which then fails
abbrev tool : ToolCall → ℕ → Outcome
tool c n = if n == 1 then provider_timeout else other_error

abbrev tools : Tools
tools name = if name == "get_ownership" then some tool else none

execute_call-settles_example :
    SettlesFrom text_of policy call (tool call) 1 (execute_call text_of policy call tools)
execute_call-settles_example = execute_call-settles text_of policy call tools tool refl refl

abbrev failure : StructuredFailure
failure = record {
  code = "provider_timeout";
  category = provider;
  source = "mini_alpha";
  operation = "get_ownership";
  retryable = true;
  attempt = 3;
  max_attempts = 3;
  recovery = exhausted;
  tool_call_id = some "call-1";
  schema_version = 1;
}

failure-IsValid : IsValid failure
unfolding is_identifier is_blank has_space is_space
failure-IsValid = ground arith

parse_structured_failure-to_dict_example : parse_structured_failure (to_dict failure) ≡ ok failure
parse_structured_failure-to_dict_example = parse_structured_failure-to_dict failure failure-IsValid

failure_is_read : parse_structured_failure (to_dict failure) ≡ ok failure
failure_is_read = parse_structured_failure-to_dict failure failure-IsValid

parse_structured_failure-IsValid_example : IsValid failure
parse_structured_failure-IsValid_example =
    parse_structured_failure-IsValid (to_dict failure) failure failure_is_read

operation_identifier : is_identifier "get_ownership" ≡ true
unfolding is_identifier is_blank has_space is_space
operation_identifier = refl

call_text : is_blank "call-1" ≡ false
unfolding is_blank is_space
call_text = refl

parse-failure_for_financial_error_example :
    parse_structured_failure
      (to_dict (failure_for_financial_error symbol_not_found "get_ownership" 1 3 none))
    ≡ ok (failure_for_financial_error symbol_not_found "get_ownership" 1 3 none)
parse-failure_for_financial_error_example =
    parse-failure_for_financial_error symbol_not_found "get_ownership" 1 3 none operation_identifier
      (omega arith) (omega arith) tt

abbrev no_uuid : Value → Option ℕ
no_uuid v = none

abbrev timed_out : ToolMessage
timed_out =
    failure_message "get_ownership" "call-1" "provider_timeout" provider "get_ownership" true 3 3
      exhausted "Financial data is temporarily unavailable."

answered : answer text_of policy call 3 provider_timeout ≡ some timed_out
unfolding answer
answered = refl

parse_artifact-answer_example : Accepted no_uuid text_of policy call 3 timed_out
parse_artifact-answer_example =
    parse_artifact-answer no_uuid text_of policy call 3 operation_identifier call_text (omega arith)
      (omega arith) provider_timeout timed_out (λ x e. cc) answered

spaced : has_space "get ownership" ≡ true
unfolding has_space is_space
spaced = refl

parse_artifact-unknown_tool_example :
    parse_artifact no_uuid (artifact_of (unknown_tool text_of policy spaced_call))
    ≡ Artifacts.err (Artifacts.failure (bad_identifier "operation"))
parse_artifact-unknown_tool_example =
    parse_artifact-unknown_tool no_uuid text_of policy spaced_call spaced
