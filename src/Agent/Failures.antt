-- ===== src/Agent/Failures.antt =====
-- app/agent/failures.py: the structured failure carried beside an artifact error, its public
-- mapping, its validation at a boundary, and the classification of the domain errors of
-- app/domain/errors.py. Attempts are counts, so they are natural numbers.
pub mod RoundTrip
use mini_alpha.Common.{
  ℕ, String, Bool, true, false, Option, none, some, length, leb, ltb, ◌==◌, string_eq, nat_eq,
  if◌then◌else◌,
}
use mini_alpha.Common.Value.{
  Value, Fields, null, bool, int, str, dict, list, end, field, pos, get_field, all_keys, codes,
  has_space, is_blank, is_one, is_null,
}

pub data FailureCategory : Type 0 where
  tool_input provider tool_runtime : FailureCategory

pub data FailureRecovery : Type 0 where
  model_correction retry exhausted degraded continue_without_tool : FailureRecovery

pub record StructuredFailure : Type 0 where
  pub code : String
  pub category : FailureCategory
  pub source : String
  pub operation : String
  pub retryable : Bool
  pub attempt : ℕ
  pub max_attempts : ℕ
  pub recovery : FailureRecovery
  pub tool_call_id : Option String
  pub schema_version : ℕ

abbrev pub category_text : FailureCategory → String
category_text tool_input = "tool_input"
category_text provider = "provider"
category_text tool_runtime = "tool_runtime"

abbrev pub recovery_text : FailureRecovery → String
recovery_text model_correction = "model_correction"
recovery_text retry = "retry"
recovery_text exhausted = "exhausted"
recovery_text degraded = "degraded"
recovery_text continue_without_tool = "continue_without_tool"

abbrev pub tool_call_field : Option String → Fields
tool_call_field none = end
tool_call_field (some i) = field "tool_call_id" (str i) end

-- `StructuredFailure.to_dict`
unfoldable pub to_dict : StructuredFailure → Fields
to_dict f = field "schema_version" (int (pos f.schema_version)) (
    field "code" (str f.code) (
      field "category" (str (category_text f.category)) (
        field "source" (str f.source) (
          field "operation" (str f.operation) (
            field "retryable" (bool f.retryable) (
              field "attempt" (int (pos f.attempt)) (
                field "max_attempts" (int (pos f.max_attempts)) (
                  field "recovery" (str (recovery_text f.recovery))
                    (tool_call_field f.tool_call_id)))))))))

-- The exceptions of the validation: each `ValueError`, and the `TypeError` of looking for an
-- unhashable value in a set.
pub data Invalid : Type 0 where
  unsupported_fields bad_schema_version bad_category bad_retryable attempt_exceeds_max : Invalid
  bad_recovery retry_needs_retryable bad_tool_call_id unhashable : Invalid
  bad_identifier bad_positive_integer : String → Invalid

pub data Result {ℓ} (A : Type ℓ) : Type ℓ where
  ok : A → Result A
  err : Invalid → Result A

infixl 5 ◌>>=◌ ◌>>◌
abbrev pub ◌>>=◌ {ℓ κ} : {A : Type ℓ} {B : Type κ} → Result A → (A → Result B) → Result B
ok x >>= next = next x
err e >>= next = err e

abbrev pub ◌>>◌ {ℓ} : {B : Type ℓ} → Result (Unit {0}) → Result B → Result B
m >> k = m >>= λ _. k

abbrev pub reject_if : Bool → Invalid → Result (Unit {0})
reject_if true e = err e
reject_if false e = ok tt

-- The set `allowed`
unfoldable pub is_allowed : String → Bool
is_allowed k =
    if k == "schema_version"
    then true
    else if k == "code"
    then true
    else if k == "category"
    then true
    else if k == "source"
    then true
    else if k == "operation"
    then true
    else if k == "retryable"
    then true
    else if k == "attempt"
    then true
    else if k == "max_attempts"
    then true
    else if k == "recovery"
    then true
    else k == "tool_call_id"

-- The tests of `_required_identifier` on a text
unfoldable pub is_identifier : String → Bool
is_identifier s =
    if is_blank s
    then false
    else if ltb 100 (length (codes s))
    then false
    else if has_space s
    then false
    else true

unfoldable pub required_identifier : Fields → String → Result String
required_identifier value name = elim (get_field name value) [
  | str raw ↦ if is_identifier raw then ok raw else err (bad_identifier name)
  | _ ↦ err (bad_identifier name)
]

unfoldable pub required_positive_integer : Fields → String → Result ℕ
required_positive_integer value name = elim (get_field name value) [
  | int (pos n) ↦ if ltb n 1 then err (bad_positive_integer name) else ok n
  | _ ↦ err (bad_positive_integer name)
]

category_of_text : String → Result FailureCategory
category_of_text s =
    if s == "tool_input"
    then ok tool_input
    else if s == "provider"
    then ok provider
    else if s == "tool_runtime"
    then ok tool_runtime
    else err bad_category

-- `raw not in {…}`: a list or a dict cannot be hashed
unfoldable pub required_category : Value → Result FailureCategory
unfolding category_of_text
required_category (str s) = category_of_text s
required_category (list _) = err unhashable
required_category (dict _) = err unhashable
required_category _ = err bad_category

recovery_of_text : String → Result FailureRecovery
recovery_of_text s =
    if s == "model_correction"
    then ok model_correction
    else if s == "retry"
    then ok retry
    else if s == "exhausted"
    then ok exhausted
    else if s == "degraded"
    then ok degraded
    else if s == "continue_without_tool"
    then ok continue_without_tool
    else err bad_recovery

unfoldable pub required_recovery : Value → Result FailureRecovery
unfolding recovery_of_text
required_recovery (str s) = recovery_of_text s
required_recovery (list _) = err unhashable
required_recovery (dict _) = err unhashable
required_recovery _ = err bad_recovery

unfoldable pub required_bool : Value → Result Bool
required_bool (bool b) = ok b
required_bool _ = err bad_retryable

unfoldable pub optional_tool_call_id : Value → Result (Option String)
optional_tool_call_id null = ok none
optional_tool_call_id (str s) = if is_blank s then err bad_tool_call_id else ok (some s)
optional_tool_call_id _ = err bad_tool_call_id

abbrev pub is_retry : FailureRecovery → Bool
is_retry retry = true
is_retry _ = false

unfoldable pub parse_structured_failure : Fields → Result StructuredFailure
parse_structured_failure value = do
  reject_if (if all_keys is_allowed value then false else true) unsupported_fields
  reject_if (if is_one (get_field "schema_version" value) then false else true) bad_schema_version
  code ← required_identifier value "code"
  source ← required_identifier value "source"
  operation ← required_identifier value "operation"
  category ← required_category (get_field "category" value)
  retryable ← required_bool (get_field "retryable" value)
  attempt ← required_positive_integer value "attempt"
  max_attempts ← required_positive_integer value "max_attempts"
  reject_if (ltb max_attempts attempt) attempt_exceeds_max
  recovery ← required_recovery (get_field "recovery" value)
  reject_if (if is_retry recovery then (if retryable then false else true) else false)
      retry_needs_retryable
  tool_call_id ← optional_tool_call_id (get_field "tool_call_id" value)
  ok (record {
    code = code;
    category = category;
    source = source;
    operation = operation;
    retryable = retryable;
    attempt = attempt;
    max_attempts = max_attempts;
    recovery = recovery;
    tool_call_id = tool_call_id;
    schema_version = 1;
  })

-- The classes of app/domain/errors.py; the base class stands for any other `FinancialDataError`.
pub data FinancialError : Type 0 where
  invalid_symbol invalid_price_query invalid_fundamental_query : FinancialError
  invalid_quantitative_query symbol_not_found provider_timeout provider_error : FinancialError
  financial_data : FinancialError

abbrev failure :
    String
    → FailureCategory
    → String
    → Bool
    → FailureRecovery
    → String
    → ℕ
    → ℕ
    → Option String
    → StructuredFailure
failure code category source retryable recovery operation attempt max_attempts tool_call_id =
    record {
      code = code;
      category = category;
      source = source;
      operation = operation;
      retryable = retryable;
      attempt = attempt;
      max_attempts = max_attempts;
      recovery = recovery;
      tool_call_id = tool_call_id;
      schema_version = 1;
    }

unfoldable pub failure_for_financial_error :
    FinancialError → String → ℕ → ℕ → Option String → StructuredFailure
failure_for_financial_error invalid_symbol =
    failure "invalid_symbol" tool_input "financial_tool" false model_correction
failure_for_financial_error invalid_price_query =
    failure "invalid_price_query" tool_input "financial_tool" false model_correction
failure_for_financial_error invalid_fundamental_query =
    failure "invalid_fundamental_query" tool_input "financial_tool" false model_correction
failure_for_financial_error invalid_quantitative_query =
    failure "invalid_quantitative_query" tool_input "financial_tool" false model_correction
failure_for_financial_error symbol_not_found =
    failure "symbol_not_found" provider "yahoo_finance" false model_correction
failure_for_financial_error provider_timeout =
    failure "provider_timeout" provider "yahoo_finance" true retry
failure_for_financial_error provider_error =
    failure "provider_unavailable" provider "yahoo_finance" true retry
failure_for_financial_error financial_data =
    failure "financial_data_error" tool_runtime "financial_tool" false continue_without_tool
