-- ===== src/Agent/Failures/RoundTrip.antt =====
-- The validation of app/agent/failures.py against what it is given and what `to_dict` writes.
use mini_alpha.Common.{ℕ, String, ◌≡◌, refl, true, false, Option, none, some, arith, ◌≤◌}
use mini_alpha.Common.Value.{Fields, str, is_blank, has_space, is_space, all_keys, get_field}
use mini_alpha.Agent.Failures.{
  StructuredFailure, FailureCategory, FailureRecovery, FinancialError, tool_input, provider,
  tool_runtime, model_correction, retry, exhausted, degraded, continue_without_tool, to_dict,
  category_text, recovery_text, tool_call_field, ok, is_allowed, is_identifier, required_identifier,
  required_positive_integer, required_category, required_recovery, required_bool,
  optional_tool_call_id, parse_structured_failure, failure_for_financial_error,
}

abbrev pub IsText : Option String → Type 0
IsText none = Unit {0}
IsText (some s) = is_blank s ≡ false

-- The failures that the public contract allows.
pub record IsValid (f : StructuredFailure) : Type 0 where
  pub code_identifier : is_identifier f.code ≡ true
  pub source_identifier : is_identifier f.source ≡ true
  pub operation_identifier : is_identifier f.operation ≡ true
  pub positive : 1 ≤ f.attempt
  pub within_budget : f.attempt ≤ f.max_attempts
  pub retry_retryable : f.recovery ≡ retry → f.retryable ≡ true
  pub call_text : IsText f.tool_call_id
  pub version : f.schema_version ≡ 1

category_back : (c : FailureCategory) → required_category (str (category_text c)) ≡ ok c
unfolding required_category
category_back tool_input = refl
category_back provider = refl
category_back tool_runtime = refl

recovery_back : (r : FailureRecovery) → required_recovery (str (recovery_text r)) ≡ ok r
unfolding required_recovery
recovery_back model_correction = refl
recovery_back retry = refl
recovery_back exhausted = refl
recovery_back degraded = refl
recovery_back continue_without_tool = refl

allowed_call : (i : Option String) → all_keys is_allowed (tool_call_field i) ≡ true
unfolding is_allowed
allowed_call none = refl
allowed_call (some i) = refl

allowed_back : (f : StructuredFailure) → all_keys is_allowed (to_dict f) ≡ true
unfolding is_allowed to_dict
allowed_back f = ground (arith, allowed_call f.tool_call_id)

call_back :
    (i : Option String)
    → IsText i
    → optional_tool_call_id (get_field "tool_call_id" (tool_call_field i)) ≡ ok i
unfolding optional_tool_call_id
call_back none h = refl
call_back (some i) h = ground arith

-- A valid failure that is written as a mapping is read back unchanged.
pub parse_structured_failure-to_dict :
    (f : StructuredFailure) → IsValid f → parse_structured_failure (to_dict f) ≡ ok f
unfolding parse_structured_failure required_identifier required_positive_integer required_bool
parse_structured_failure-to_dict f v = rw (allowed_back f) (
    unfold to_dict in
    ground (arith, category_back f.category, recovery_back f.recovery, call_back f.tool_call_id))

-- What is read is valid.
pub parse_structured_failure-IsValid :
    (value : Fields) (f : StructuredFailure) → parse_structured_failure value ≡ ok f → IsValid f
unfolding parse_structured_failure required_identifier required_positive_integer
    optional_tool_call_id
parse_structured_failure-IsValid value f h = ground arith

classified_IsValid :
    (e : FinancialError) (operation : String) (attempt max_attempts : ℕ) (call : Option String)
    → is_identifier operation ≡ true
    → 1 ≤ attempt
    → attempt ≤ max_attempts
    → IsText call
    → IsValid (failure_for_financial_error e operation attempt max_attempts call)
unfolding failure_for_financial_error is_identifier is_blank has_space is_space
classified_IsValid FinancialError.invalid_symbol operation a m call i p q t = ground arith
classified_IsValid _ operation a m call i p q t = ground arith

-- Every classified domain error, whose operation is an identifier and whose attempt is within a
-- budget, is written as a mapping that the validation reads back unchanged.
pub parse-failure_for_financial_error :
    (e : FinancialError) (operation : String) (attempt max_attempts : ℕ) (call : Option String)
    → is_identifier operation ≡ true
    → 1 ≤ attempt
    → attempt ≤ max_attempts
    → IsText call
    → parse_structured_failure
        (to_dict (failure_for_financial_error e operation attempt max_attempts call))
      ≡ ok (failure_for_financial_error e operation attempt max_attempts call)
parse-failure_for_financial_error e operation a m call i p q t =
    parse_structured_failure-to_dict _ (classified_IsValid e operation a m call i p q t)
