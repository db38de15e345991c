-- ===== src/Agent/ToolExecutor/Storage.antt =====
-- Whether the failure messages of app/agent/tool_executor.py pass the artifact validation of
-- app/persistence/artifacts.py, which stores them.
use mini_alpha.Agent.Failures.RoundTrip.{IsValid, parse_structured_failure-to_dict}
use mini_alpha.Agent.Failures.{
  StructuredFailure, is_identifier, to_dict, parse_structured_failure, bad_identifier,
  required_identifier, is_allowed, provider, tool_input, tool_runtime, FailureCategory,
  FailureRecovery, retry, model_correction, exhausted, degraded,
}
use mini_alpha.Agent.Retry.{RetryPolicy}
use mini_alpha.Agent.ToolExecutor.Message.{
  ToolMessage, artifact_type, artifact_type-ne_empty, executor_failure, failure_artifact,
  failure_message,
}
use mini_alpha.Agent.ToolExecutor.{
  Outcome, message, no_message, timeout_error, invalid_arguments, provider_timeout, provider_error,
  other_error, ToolCall, call_id, answer, unless_more, failed, unknown_tool, or_unknown,
}
use mini_alpha.Common.Value.{Value, Fields, dict, end, is_blank, has_space, is_space}
use mini_alpha.Common.{
  Bool-cases, inl, inr, ℕ, String, ◌≤◌, ◌≡◌, ◌≢◌, refl, subst, Bool, true, false, Option, none,
  some, arith, eq_iff, ◌==◌, string_eq,
}
use mini_alpha.Persistence.Artifacts
use mini_alpha.Persistence.Artifacts.{ParsedArtifact, parse_artifact}

abbrev pub artifact_of : ToolMessage → Fields
artifact_of m = elim m.artifact [ dict a ↦ a | _ ↦ end ]

some_same : {x m : ToolMessage} → some x ≡ some m → x ≡ m
some_same h = ground arith

mini_alpha_identifier : is_identifier "mini_alpha" ≡ true
unfolding is_identifier is_blank has_space is_space
mini_alpha_identifier = refl

module _ (parse_uuid : Value → Option ℕ) where
  abbrev pub stored_failure : String → String → StructuredFailure → ParsedArtifact
  stored_failure name public_message f = record {
    artifact_id = none;
    artifact_type = artifact_type name;
    schema_version = 1;
    status = Artifacts.failed;
    payload = none;
    error = some public_message;
    failure = some (to_dict f);
    provenance = none;
  }

  parse_failure_artifact :
      (name public_message : String) (f : StructuredFailure)
      → IsValid f
      → (public_message == "") ≡ false
      → parse_artifact parse_uuid (failure_artifact name f public_message)
        ≡ Artifacts.ok (stored_failure name public_message f)
  unfolding parse_artifact
  parse_failure_artifact name public_message f v m =
      rw (artifact_type-ne_empty name, m, parse_structured_failure-to_dict f v) refl

  module _ (to_str : Value → String) (policy : RetryPolicy) (call : ToolCall) (attempt : ℕ) where
    -- The validation accepts the artifact of a message, as an error with the executor's failure.
    abbrev pub Accepted : ToolMessage → Type 0
    Accepted m =
        (f : StructuredFailure) × (public_message : String) × (parse_artifact parse_uuid
            (artifact_of m)
          ≡ Artifacts.ok (stored_failure call.name public_message f))
        × (f.operation ≡ call.name)
        × (f.attempt ≡ attempt)

    of_unless_more : (x m : ToolMessage) → unless_more to_str policy call attempt x ≡ some m → x ≡ m
    of_unless_more x m h = ground arith

    module _ (n : is_identifier call.name ≡ true) (i : is_blank (call_id call.id) ≡ false)
        (p : 1 ≤ attempt) (q : attempt ≤ policy.max_attempts) where
      accept :
          (code : String) (category : FailureCategory) (retryable : Bool)
          (recovery : FailureRecovery) (public_message : String)
          → is_identifier code ≡ true
          → (recovery ≡ retry → retryable ≡ true)
          → (public_message == "") ≡ false
          → Accepted
              (failed to_str policy call attempt code category retryable recovery public_message)
      unfolding failure_message
      accept code category retryable recovery public_message c r m =
          let f : StructuredFailure =
            executor_failure (call_id call.id) code category call.name retryable attempt
              policy.max_attempts recovery in
          let v : IsValid f = record {
            code_identifier = c;
            source_identifier = mini_alpha_identifier;
            operation_identifier = n;
            positive = p;
            within_budget = q;
            retry_retryable = r;
            call_text = i;
            version = refl;
          } in
          (f, public_message, parse_failure_artifact call.name public_message f v m, refl, refl)

      -- When an attempt within the budget raises any exception, for a call whose tool name is an
      -- identifier and whose id is not blank, the message that the executor answers with carries an
      -- artifact that the validation accepts, as an error with the executor's structured failure.
      pub parse_artifact-answer :
          (o : Outcome) (m : ToolMessage)
          → ((x : ToolMessage) → o ≢ message x)
          → answer to_str policy call attempt o ≡ some m
          → Accepted m
      unfolding answer is_identifier is_blank has_space is_space
      parse_artifact-answer (message x) m o h = absurd (o x refl)
      parse_artifact-answer no_message m o h = subst Accepted (some_same h) (
          accept "malformed_tool_arguments" tool_input false model_correction
            "The tool arguments were invalid; correct them and retry." refl (λ e. cc) refl)
      parse_artifact-answer timeout_error m o h = subst Accepted (of_unless_more _ m h) (
          accept "tool_timeout" tool_runtime true exhausted "The financial tool timed out." refl
            (λ e. refl) refl)
      parse_artifact-answer invalid_arguments m o h = subst Accepted (some_same h) (
          accept "malformed_tool_arguments" tool_input false model_correction
            "The tool arguments were invalid; correct them and retry." refl (λ e. cc) refl)
      parse_artifact-answer provider_timeout m o h = subst Accepted (of_unless_more _ m h) (
          accept "provider_timeout" provider true exhausted
            "Financial data is temporarily unavailable." refl (λ e. refl) refl)
      parse_artifact-answer provider_error m o h = subst Accepted (of_unless_more _ m h) (
          accept "provider_unavailable" provider true exhausted
            "Financial data is temporarily unavailable." refl (λ e. refl) refl)
      parse_artifact-answer other_error m o h = subst Accepted (some_same h) (
          accept "tool_internal_error" tool_runtime false degraded
            "The financial tool could not complete safely." refl (λ e. cc) refl)

  refused_operation :
      (name id public_message : String) (attempt max_attempts : ℕ)
      → is_identifier name ≡ false
      → is_identifier "unknown_tool" ≡ true
      → (public_message == "") ≡ false
      → parse_artifact parse_uuid (
          failure_artifact name
            (executor_failure id "unknown_tool" tool_input name false attempt max_attempts
              model_correction)
            public_message)
        ≡ Artifacts.err (Artifacts.failure (bad_identifier "operation"))
  unfolding parse_artifact parse_structured_failure to_dict is_allowed required_identifier
  refused_operation name id public_message attempt max_attempts n u m =
      rw (artifact_type-ne_empty name, m, n, u, mini_alpha_identifier) refl

  is_identifier-has_space : (s : String) → has_space s ≡ true → is_identifier s ≡ false
  unfolding is_identifier
  is_identifier-has_space s h = ground arith

  is_empty : (s : String) → (s == "") ≡ true → s ≡ ""
  is_empty s h = (eq_iff s "").0 h

  has_space-empty : (s : String) → s ≡ "" → has_space s ≢ true
  unfolding has_space
  has_space-empty s e h = let g : has_space "" ≡ true = subst (λ x. has_space x ≡ true) e h in cc

  or_unknown-has_space : (s : String) → has_space s ≡ true → or_unknown s ≡ s
  unfolding has_space is_space
  or_unknown-has_space s h = elim (Bool-cases (s == "")) [
    | inl e ↦ absurd (has_space-empty s (is_empty s e) h)
    | inr e ↦ rw (e) refl
  ]

  -- The message for a tool that is not known repeats the name that the model asked for; when that
  -- name has white space, the validation refuses the message's artifact.
  pub parse_artifact-unknown_tool :
      (to_str : Value → String) (policy : RetryPolicy) (call : ToolCall)
      → has_space call.name ≡ true
      → parse_artifact parse_uuid (artifact_of (unknown_tool to_str policy call))
        ≡ Artifacts.err (Artifacts.failure (bad_identifier "operation"))
  unfolding unknown_tool failure_message is_identifier is_blank has_space is_space
  parse_artifact-unknown_tool to_str policy call h = rw (or_unknown-has_space call.name h) (
      refused_operation call.name (call_id call.id) _ 1 1 (is_identifier-has_space call.name h) refl
        refl)
