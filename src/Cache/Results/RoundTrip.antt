-- ===== src/Cache/Results/RoundTrip.antt =====
-- Cached research results, written and read back.
use mini_alpha.Cache.Results.{
  call_payload, result_payload, usage_payload, serialize_research_result, items, object_list,
  read_call, read_result, read_usage, read_each, deserialize_research_result, not_empty, not_blank,
  all_successful, ◌>>=◌, when, mappings, text, mapping, assemble, read_answer, read_calls,
  read_results, read_artifacts, nullable, optional_status, optional_text, optional_mapping,
}
use mini_alpha.Common.{
  ◌≡◌, refl, ap, ◌∙◌, sym, String, Bool, true, false, Option, none, some, List, [], ◌∷◌, All, map,
  arith, Option-cases, inl, inr,
}
use mini_alpha.Common.Value.{Fields, get_field, str, dict}
use mini_alpha.Research.Thread.Stored.{status_text}
use mini_alpha.Research.Models.{
  ExecutedToolCall, ExecutedToolResult, ModelUsage, ResearchResult, CallStatus, ok, error,
}

-- A result that a payload may hold
pub record IsCacheable (result : ResearchResult) : Type 0 where
  pub answered : not_blank result.answer ≡ true
  pub named : All (λ (call : ExecutedToolCall). not_empty call.name ≡ true) result.tool_calls
  pub successful : all_successful result.artifacts ≡ true

mappings-items : (fields : List Fields) → mappings (items fields) ≡ some fields
mappings-items [] = refl
mappings-items (f ∷ fields) = rw (mappings-items fields) refl

status-read :
    (status : Option CallStatus)
    → optional_status (nullable (λ s. str (status_text s)) status) ≡ some status
status-read none = refl
status-read (some ok) = refl
status-read (some error) = refl

summary-read : (summary : Option String) → optional_text (nullable str summary) ≡ some summary
summary-read none = refl
summary-read (some t) = refl

artifact-read :
    (artifact : Option Fields) → optional_mapping (nullable dict artifact) ≡ some artifact
artifact-read none = refl
artifact-read (some t) = refl

read_call-payload :
    (call : ExecutedToolCall)
    → not_empty call.name ≡ true
    → read_call (call_payload call) ≡ some call
unfolding read_call call_payload
read_call-payload call named =
    rw (status-read call.status) (rw (summary-read call.summary) (rw named refl))

read_each-calls :
    (calls : List ExecutedToolCall)
    → All (λ (call : ExecutedToolCall). not_empty call.name ≡ true) calls
    → read_each read_call (map call_payload calls) ≡ some calls
unfolding read_each
read_each-calls [] h = refl
read_each-calls (call ∷ calls) h = rw (read_call-payload call h.0, read_each-calls calls h.1) refl

read_result-payload : (item : ExecutedToolResult) → read_result (result_payload item) ≡ some item
unfolding read_result result_payload
read_result-payload item = rw (artifact-read item.artifact) refl

read_each-results :
    (results : List ExecutedToolResult)
    → read_each read_result (map result_payload results) ≡ some results
unfolding read_each
read_each-results [] = refl
read_each-results (item ∷ results) = rw (read_result-payload item, read_each-results results) refl

read_usage-payload : (usage : ModelUsage) → read_usage (usage_payload usage) ≡ some usage
unfolding read_usage usage_payload
read_usage-payload usage = refl

-- A result whose answer is not blank, whose tool calls are named and whose artifacts are all
-- successful is read back from its payload unchanged, without its checkpoint and its cache outcome.
pub deserialize-serialize :
    (result : ResearchResult)
    → IsCacheable result
    → deserialize_research_result (serialize_research_result result)
      ≡ some (record result { checkpoint_id = none; cache = none })
unfolding deserialize_research_result serialize_research_result read_answer read_calls read_results
    read_artifacts
deserialize-serialize result c =
    rw
      (
        c.answered,
        mappings-items (map call_payload result.tool_calls),
        read_each-calls result.tool_calls c.named,
        mappings-items (map result_payload result.tool_results),
        read_each-results result.tool_results,
        mappings-items result.artifacts,
        c.successful,
        read_usage-payload result.usage,
      )
      refl

bind-some :
    {A : Type 0} {B : Type 0} (o : Option A) (f : A → Option B) (b : B)
    → (o >>= f) ≡ some b
    → (a : A) × (o ≡ some a) × (f a ≡ some b)
bind-some none f b h = absurd (ground (arith, h))
bind-some (some a) f b h = (a, refl, h)

when-some : {A : Type 0} (holds : Bool) (a b : A) → when holds a ≡ some b → (holds ≡ true) × (a ≡ b)
when-some true a b h = (refl, ground (arith, h))
when-some false a b h = absurd (ground (arith, h))

parts-named :
    (name : Option String) (arguments : Option Fields) (status : Option (Option CallStatus))
    (summary : Option (Option String)) (call : ExecutedToolCall)
    → (name >>= λ n. arguments >>= λ a. status >>= λ s. summary >>= λ t.
        when (not_empty n) (record { name = n; arguments = a; status = s; summary = t }))
      ≡ some call
    → not_empty call.name ≡ true
parts-named none arguments status summary call h = absurd (ground (arith, h))
parts-named (some n) none status summary call h = absurd (ground (arith, h))
parts-named (some n) (some a) none summary call h = absurd (ground (arith, h))
parts-named (some n) (some a) (some s) none call h = absurd (ground (arith, h))
parts-named (some n) (some a) (some s) (some t) call h =
    let (named, same) =
      when-some (not_empty n) (record { name = n; arguments = a; status = s; summary = t }) call
        h in
    ap (λ (c : ExecutedToolCall). not_empty c.name) (sym same) ∙ named

read_call-named :
    (raw : Fields) (call : ExecutedToolCall)
    → read_call raw ≡ some call
    → not_empty call.name ≡ true
unfolding read_call
read_call-named raw call h =
    parts-named (text (get_field "name" raw)) (mapping (get_field "arguments" raw))
      (optional_status (get_field "status" raw)) (optional_text (get_field "summary" raw)) call h

read_each-named :
    (raws : List Fields) (calls : List ExecutedToolCall)
    → read_each read_call raws ≡ some calls
    → All (λ (call : ExecutedToolCall). not_empty call.name ≡ true) calls
unfolding read_each
read_each-named [] [] h = tt
read_each-named [] (call ∷ calls) h = absurd (ground (arith, h))
read_each-named (raw ∷ raws) [] h = elim (Option-cases (read_call raw)) [
  | inl e ↦ absurd (ground (arith, h, e))
  | inr (first, e) ↦ elim (Option-cases (read_each read_call raws)) [
    | inl e' ↦ absurd (ground (arith, h, e, e'))
    | inr (rest, e') ↦ absurd (ground (arith, h, e, e'))
  ]
]
read_each-named (raw ∷ raws) (call ∷ calls) h = elim (Option-cases (read_call raw)) [
  | inl e ↦ absurd (ground (arith, h, e))
  | inr (first, e) ↦ elim (Option-cases (read_each read_call raws)) [
    | inl e' ↦ absurd (ground (arith, h, e, e'))
    | inr (rest, e') ↦ (
      read_call-named raw call (ground (arith, h, e, e')),
      read_each-named raws calls (ground (arith, h, e, e')),
    )
  ]
]

read_answer-kept :
    (payload : Fields) (answer : String)
    → read_answer payload ≡ some answer
    → not_blank answer ≡ true
unfolding read_answer
read_answer-kept payload answer h =
    let (given, _, kept) =
      bind-some (text (get_field "answer" payload)) (λ t. when (not_blank t) t) answer h in
    let (held, same) = when-some (not_blank given) given answer kept in
    ap not_blank (sym same) ∙ held

read_artifacts-kept :
    (payload : Fields) (artifacts : List Fields)
    → read_artifacts payload ≡ some artifacts
    → all_successful artifacts ≡ true
unfolding read_artifacts
read_artifacts-kept payload artifacts h =
    let (given, _, kept) =
      bind-some (object_list (get_field "artifacts" payload)) (λ xs. when (all_successful xs) xs)
        artifacts h in
    let (held, same) = when-some (all_successful given) given artifacts kept in
    ap all_successful (sym same) ∙ held

read_calls-kept :
    (payload : Fields) (calls : List ExecutedToolCall)
    → read_calls payload ≡ some calls
    → All (λ (call : ExecutedToolCall). not_empty call.name ≡ true) calls
unfolding read_calls
read_calls-kept payload calls h =
    let (raws, _, kept) =
      bind-some (object_list (get_field "tool_calls" payload)) (read_each read_call) calls h in
    read_each-named raws calls kept

record Parts (schema : Bool) (answer : Option String) (calls : Option (List ExecutedToolCall))
    (artifacts : Option (List Fields)) (result : ResearchResult) : Type 0 where
  answered : answer ≡ some result.answer
  called : calls ≡ some result.tool_calls
  shown : artifacts ≡ some result.artifacts
  bare : record result { checkpoint_id = none; cache = none } ≡ result

assemble-Parts :
    (schema : Bool) (a : Option String) (c : Option (List ExecutedToolCall))
    (t : Option (List ExecutedToolResult)) (x : Option (List Fields)) (u : Option ModelUsage)
    (result : ResearchResult)
    → assemble schema a c t x u ≡ some result
    → Parts schema a c x result
assemble-Parts false a c t x u result h = absurd (ground (arith, h))
assemble-Parts true none c t x u result h = absurd (ground (arith, h))
assemble-Parts true (some a) none t x u result h = absurd (ground (arith, h))
assemble-Parts true (some a) (some c) none x u result h = absurd (ground (arith, h))
assemble-Parts true (some a) (some c) (some t) none u result h = absurd (ground (arith, h))
assemble-Parts true (some a) (some c) (some t) (some x) none result h = absurd (ground (arith, h))
assemble-Parts true (some a) (some c) (some t) (some x) (some u) result h = record {
  answered = ground (arith, h);
  called = ground (arith, h);
  shown = ground (arith, h);
  bare = ground (arith, h);
}

-- What a cache payload is read as may be kept again: its answer is not blank, its tool calls are named,
-- its artifacts are all successful, and writing and reading it gives the same.
pub deserialize-IsCacheable :
    (payload : Fields) (result : ResearchResult)
    → deserialize_research_result payload ≡ some result
    → IsCacheable result
      × (deserialize_research_result (serialize_research_result result) ≡ some result)
unfolding deserialize_research_result
deserialize-IsCacheable payload result h =
    let parts =
      assemble-Parts _ (read_answer payload) (read_calls payload) (read_results payload)
        (read_artifacts payload) _ result h in
    let cacheable : IsCacheable result = record {
      answered = read_answer-kept payload result.answer parts.answered;
      named = read_calls-kept payload result.tool_calls parts.called;
      successful = read_artifacts-kept payload result.artifacts parts.shown;
    } in
    (cacheable, deserialize-serialize result cacheable ∙ ap some parts.bare)
