-- ===== src/Cache/Results.antt =====
-- app/cache/research_results.py: complete research results as cache payloads. A `ValueError` is none.
pub mod RoundTrip
use mini_alpha.Common.{
  ℕ, String, Bool, true, false, Option, none, some, List, [], ◌∷◌, ◌==◌, string_eq, any, map,
  if◌then◌else◌, ◌&&◌,
}
use mini_alpha.Common.Value.{
  Value, null, bool, int, pos, str, list, dict, Items, nil, cons, Fields, end, field, get_field,
  is_blank, is_one,
}
use mini_alpha.Research.Models.{
  ExecutedToolCall, ExecutedToolResult, ModelUsage, ResearchResult, CallStatus, ok, error,
}
use mini_alpha.Research.Thread.Stored.{status_text}

-- `x if x is not None`, as JSON has it
abbrev pub nullable : {A : Type 0} → (A → Value) → Option A → Value
nullable f none = null
nullable f (some a) = f a

abbrev pub items : List Fields → Items
items [] = nil
items (fields ∷ rest) = cons (dict fields) (items rest)

abbrev pub number : ℕ → Value
number n = int (pos n)

unfoldable pub call_payload : ExecutedToolCall → Fields
call_payload call = field "name" (str call.name) (
    field "arguments" (dict call.arguments) (
      field "status" (nullable (λ s. str (status_text s)) call.status)
        (field "summary" (nullable str call.summary) end)))

unfoldable pub result_payload : ExecutedToolResult → Fields
result_payload item =
    field "name" (str item.name)
      (field "content" (str item.content) (field "artifact" (nullable dict item.artifact) end))

unfoldable pub usage_payload : ModelUsage → Fields
usage_payload usage = field "input_tokens" (number usage.input_tokens) (
    field "output_tokens" (number usage.output_tokens)
      (field "total_tokens" (number usage.total_tokens) end))

unfoldable pub serialize_research_result : ResearchResult → Fields
serialize_research_result result = field "schema_version" (number 1) (
    field "answer" (str result.answer) (
      field "tool_calls" (list (items (map call_payload result.tool_calls))) (
        field "tool_results" (list (items (map result_payload result.tool_results))) (
          field "artifacts" (list (items result.artifacts))
            (field "usage" (dict (usage_payload result.usage)) end)))))

infixl 5 ◌>>=◌
abbrev pub ◌>>=◌ {ℓ κ} : {A : Type ℓ} {B : Type κ} → Option A → (A → Option B) → Option B
none >>= decode = none
some read >>= decode = decode read

-- `value == 1`, for which `True` will do
abbrev pub is_schema : Value → Bool
is_schema (bool b) = b
is_schema v = is_one v

abbrev pub when {ℓ} : {A : Type ℓ} → Bool → A → Option A
when holds a = if holds then some a else none

abbrev pub not_empty : String → Bool
not_empty t = if t == "" then false else true

abbrev pub not_blank : String → Bool
not_blank t = if is_blank t then false else true

abbrev pub text : Value → Option String
text (str t) = some t
text _ = none

abbrev pub mapping : Value → Option Fields
mapping (dict fields) = some fields
mapping _ = none

abbrev natural : Value → Option ℕ
natural (int (pos n)) = some n
natural _ = none

abbrev pub optional_text : Value → Option (Option String)
optional_text null = some none
optional_text (str t) = some (some t)
optional_text _ = none

abbrev pub optional_mapping : Value → Option (Option Fields)
optional_mapping null = some none
optional_mapping (dict fields) = some (some fields)
optional_mapping _ = none

abbrev pub status_named : String → Option (Option CallStatus)
status_named t =
    if t == "ok" then some (some ok) else if t == "error" then some (some error) else none

abbrev pub optional_status : Value → Option (Option CallStatus)
optional_status null = some none
optional_status (str t) = status_named t
optional_status _ = none

abbrev pub mappings : Items → Option (List Fields)
mappings nil = some []
mappings (cons v rest) =
    let others = mappings rest in do fields ← mapping v; all ← others; some (fields ∷ all)

-- `_object_list`
abbrev pub object_list : Value → Option (List Fields)
object_list (list values) = mappings values
object_list _ = none

unfoldable pub read_call : Fields → Option ExecutedToolCall
read_call raw = do
  name ← text (get_field "name" raw)
  arguments ← mapping (get_field "arguments" raw)
  status ← optional_status (get_field "status" raw)
  summary ← optional_text (get_field "summary" raw)
  when (not_empty name)
      (record { name = name; arguments = arguments; status = status; summary = summary })

unfoldable pub read_result : Fields → Option ExecutedToolResult
read_result raw = do
  name ← text (get_field "name" raw)
  content ← text (get_field "content" raw)
  artifact ← optional_mapping (get_field "artifact" raw)
  some (record { name = name; content = content; artifact = artifact })

unfoldable pub read_usage : Fields → Option ModelUsage
read_usage raw = do
  input_tokens ← natural (get_field "input_tokens" raw)
  output_tokens ← natural (get_field "output_tokens" raw)
  total_tokens ← natural (get_field "total_tokens" raw)
  some (record {
    input_tokens = input_tokens;
    output_tokens = output_tokens;
    total_tokens = total_tokens;
  })

unfoldable pub read_each {ℓ} : {A : Type ℓ} → (Fields → Option A) → List Fields → Option (List A)
read_each decode [] = some []
read_each decode (raw ∷ raws) =
    let others = read_each decode raws in do first ← decode raw; rest ← others; some (first ∷ rest)

abbrev pub is_success : Fields → Bool
is_success artifact = elim (get_field "status" artifact) [ str t ↦ t == "ok" | _ ↦ false ]

abbrev pub all_successful : List Fields → Bool
all_successful artifacts =
    if any (λ a. if is_success a then false else true) artifacts then false else true

unfoldable pub read_answer : Fields → Option String
read_answer payload = do answer ← text (get_field "answer" payload); when (not_blank answer) answer

unfoldable pub read_calls : Fields → Option (List ExecutedToolCall)
read_calls payload = object_list (get_field "tool_calls" payload) >>= read_each read_call

unfoldable pub read_results : Fields → Option (List ExecutedToolResult)
read_results payload = object_list (get_field "tool_results" payload) >>= read_each read_result

unfoldable pub read_artifacts : Fields → Option (List Fields)
read_artifacts payload = do
  artifacts ← object_list (get_field "artifacts" payload)
  when (all_successful artifacts) artifacts

-- The result, where the schema is supported and every part is read
abbrev pub assemble :
    Bool
    → Option String
    → Option (List ExecutedToolCall)
    → Option (List ExecutedToolResult)
    → Option (List Fields)
    → Option ModelUsage
    → Option ResearchResult
assemble true (some answer) (some calls) (some results) (some artifacts) (some usage) =
    some (record {
      answer = answer;
      tool_calls = calls;
      tool_results = results;
      artifacts = artifacts;
      checkpoint_id = none;
      usage = usage;
      cache = none;
    })
assemble _ _ _ _ _ _ = none

unfoldable pub deserialize_research_result : Fields → Option ResearchResult
deserialize_research_result payload =
    assemble (is_schema (get_field "schema_version" payload)) (read_answer payload)
      (read_calls payload) (read_results payload) (read_artifacts payload)
      (mapping (get_field "usage" payload) >>= read_usage)
