-- ===== src/Agent/ToolExecutor/Message.antt =====
-- The messages of app/agent/tool_executor.py and the metadata that the executor writes into them.
use Prim.Native.Char.{code}
use Prim.Native.String as Text
use mini_alpha.Agent.Failures.{
  StructuredFailure, FailureCategory, FailureRecovery, to_dict, recovery_text,
}
use mini_alpha.Common.{
  ℕ, String, Bool, false, Option, none, some, List, [], ◌∷◌, ◌==◌, string_eq, nat_eq, if◌then◌else◌,
  ◌≡◌, refl, Bool-cases, inl, inr,
}
use mini_alpha.Common.Value.{Value, Fields, bool, int, str, dict, end, field, pos, get_field}

pub data MessageStatus : Type 0 where
  success error : MessageStatus

pub record ToolMessage : Type 0 where
  pub content : String
  pub name : Option String
  pub tool_call_id : String
  pub status : MessageStatus
  pub artifact : Value

-- What follows a prefix of a text
strip : String → String → Option String
strip Text.[] s = some s
strip (Text.◌∷◌ c p) Text.[] = none
strip (Text.◌∷◌ c p) (Text.◌∷◌ d s) = if code c == code d then strip p s else none

-- The loop over the prefixes: the first that fits is removed.
strip_first : List String → String → String
unfolding strip
strip_first [] s = s
strip_first (p ∷ prefixes) s = elim (strip p s) [ some rest ↦ rest | none ↦ strip_first prefixes s ]

-- `value or "tool_failure"`
unfoldable pub or_tool_failure : String → String
or_tool_failure value = if value == "" then "tool_failure" else value

unfoldable pub artifact_type : String → String
unfolding strip_first or_tool_failure
artifact_type tool_name =
    or_tool_failure (strip_first ("get_" ∷ "calculate_" ∷ "analyze_" ∷ "backtest_" ∷ []) tool_name)

pub or_tool_failure-ne_empty : (value : String) → (or_tool_failure value == "") ≡ false
unfolding or_tool_failure
or_tool_failure-ne_empty value = elim (Bool-cases (value == "")) [
  | inl e ↦ rw (or_tool_failure, e) refl
  | inr e ↦ rw (or_tool_failure, e) e
]

-- The artifact type of a tool is never empty.
pub artifact_type-ne_empty : (name : String) → (artifact_type name == "") ≡ false
unfolding artifact_type
artifact_type-ne_empty name =
    or_tool_failure-ne_empty
      (strip_first ("get_" ∷ "calculate_" ∷ "analyze_" ∷ "backtest_" ∷ []) name)

abbrev pub executor_failure :
    String → String → FailureCategory → String → Bool → ℕ → ℕ → FailureRecovery → StructuredFailure
executor_failure call_id code category operation retryable attempt max_attempts recovery = record {
  code = code;
  category = category;
  source = "mini_alpha";
  operation = operation;
  retryable = retryable;
  attempt = attempt;
  max_attempts = max_attempts;
  recovery = recovery;
  tool_call_id = some call_id;
  schema_version = 1;
}

-- The artifact of `_failure_message`
abbrev pub failure_artifact : String → StructuredFailure → String → Fields
failure_artifact name failure public_message = field "artifact_type" (str (artifact_type name)) (
    field "schema_version" (int (pos 1)) (
      field "status" (str "error")
        (field "error" (str public_message) (field "failure" (dict (to_dict failure)) end))))

unfoldable pub failure_message :
    String
    → String
    → String
    → FailureCategory
    → String
    → Bool
    → ℕ
    → ℕ
    → FailureRecovery
    → String
    → ToolMessage
failure_message name call_id code category operation retryable attempt max_attempts recovery
      public_message =
    record {
      content = public_message;
      name = some name;
      tool_call_id = call_id;
      status = error;
      artifact = dict (
          failure_artifact name
            (executor_failure call_id code category operation retryable attempt max_attempts
              recovery)
            public_message);
    }

abbrev is_text : String → Value → Bool
is_text s (str t) = t == s
is_text s _ = false

-- `isinstance(artifact, dict) and artifact.get("status") == "error"`
unfoldable pub is_error_artifact : ToolMessage → Bool
is_error_artifact m = elim m.artifact [
  | dict a ↦ is_text "error" (get_field "status" a)
  | _ ↦ false
]

abbrev is_true : Value → Bool
is_true (bool b) = b
is_true _ = false

abbrev has_retryable : Value → Bool
has_retryable (dict f) = is_true (get_field "retryable" f)
has_retryable _ = false

unfoldable pub artifact_is_retryable : ToolMessage → Bool
unfolding is_error_artifact
artifact_is_retryable m =
    if is_error_artifact m
    then elim m.artifact [ dict a ↦ has_retryable (get_field "failure" a) | _ ↦ false ]
    else false

-- `mapping.get(key, default)`
abbrev pub get_or : String → Value → Fields → Value
get_or k d end = d
get_or k d (field j v fs) = if j == k then v else get_or k d fs

-- `{**mapping, key: value}`
abbrev pub set_field : String → Value → Fields → Fields
set_field k v end = field k v end
set_field k v (field j w fs) = if j == k then field j v fs else field j w (set_field k v fs)

abbrev or_text : Option String → String
or_text none = "unknown"
or_text (some s) = if s == "" then "unknown" else s

abbrev recovery_value : Option FailureRecovery → Fields → Value
recovery_value (some r) failure = str (recovery_text r)
recovery_value none failure = get_or "recovery" (str "continue_without_tool") failure

module _ (to_str : Value → String) where
  -- `str(value)`, which is the text itself for a text
  abbrev pub text_of : Value → String
  text_of (str s) = s
  text_of v = to_str v

  -- The mapping of the `StructuredFailure` that `_with_attempt_metadata` builds. Its category and
  -- its own recovery are taken as they stand, unchecked.
  unfoldable pub attempt_failure :
      Option String → Fields → ℕ → ℕ → Option FailureRecovery → String → Fields
  attempt_failure name failure attempt max_attempts recovery tool_call_id =
      field "schema_version" (int (pos 1)) (
        field "code" (str (text_of (get_or "code" (str "financial_data_error") failure))) (
          field "category" (get_or "category" (str "tool_runtime") failure) (
            field "source" (str (text_of (get_or "source" (str "financial_tool") failure))) (
              field "operation" (str (text_of (get_or "operation" (str (or_text name)) failure))) (
                field "retryable" (bool (is_true (get_field "retryable" failure))) (
                  field "attempt" (int (pos attempt)) (
                    field "max_attempts" (int (pos max_attempts)) (
                      field "recovery" (recovery_value recovery failure)
                        (field "tool_call_id" (str tool_call_id) end)))))))))

  abbrev with_failure :
      ToolMessage → Fields → Value → ℕ → ℕ → Option FailureRecovery → String → ToolMessage
  with_failure m a (dict f) attempt max_attempts recovery tool_call_id = record m {
    artifact = dict (
        set_field "failure"
          (dict (attempt_failure m.name f attempt max_attempts recovery tool_call_id)) a);
    status = error;
  }
  with_failure m a _ attempt max_attempts recovery tool_call_id = m

  unfoldable pub with_attempt_metadata :
      ToolMessage → ℕ → ℕ → Option FailureRecovery → String → ToolMessage
  unfolding attempt_failure
  with_attempt_metadata m attempt max_attempts recovery tool_call_id = elim m.artifact [
    | dict a ↦ with_failure m a (get_field "failure" a) attempt max_attempts recovery tool_call_id
    | _ ↦ m
  ]
