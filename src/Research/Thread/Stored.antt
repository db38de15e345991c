-- ===== src/Research/Thread/Stored.antt =====
-- app/services/thread_research.py: tool calls and artifacts between the agent and the repository.
use mini_alpha.Common.{
  ℕ, ◌≡◌, refl, String, Option, none, some, List, [], ◌∷◌, ◌==◌, string_eq, if◌then◌else◌, map,
}
use mini_alpha.Common.Value.{Fields, Value, str, int, pos, dict, end, field, get_field}
use mini_alpha.Persistence.Artifacts.{ArtifactStatus, success, failed}
use mini_alpha.Persistence.Models.{StoredArtifact}
use mini_alpha.Research.Models.{ExecutedToolCall, CallStatus, ok, error}

abbrev pub status_text : CallStatus → String
status_text ok = "ok"
status_text error = "error"

-- The optional fields of the payload, present where they are not `None`
abbrev status_field : Option CallStatus → Fields → Fields
status_field none rest = rest
status_field (some s) rest = field "status" (str (status_text s)) rest

abbrev summary_field : Option String → Fields
summary_field none = end
summary_field (some t) = field "summary" (str t) end

unfoldable pub tool_call_payload : ExecutedToolCall → Fields
tool_call_payload call = field "name" (str call.name) (
    field "arguments" (dict call.arguments) (status_field call.status (summary_field call.summary)))

abbrev call_status : Value → Option CallStatus
call_status (str s) = if s == "ok" then some ok else if s == "error" then some error else none
call_status _ = none

abbrev call_summary : Value → Option String
call_summary (str t) = some t
call_summary _ = none

-- A call is skipped unless its name is a text and its arguments are a mapping.
abbrev pub stored_tool_call : Value → Value → Fields → Option ExecutedToolCall
stored_tool_call (str name) (dict arguments) stored = some (record {
  name = name;
  arguments = arguments;
  status = call_status (get_field "status" stored);
  summary = call_summary (get_field "summary" stored);
})
stored_tool_call _ _ stored = none

abbrev or_skip : Option ExecutedToolCall → List ExecutedToolCall → List ExecutedToolCall
or_skip none calls = calls
or_skip (some call) calls = call ∷ calls

unfoldable pub stored_tool_calls : List Fields → List ExecutedToolCall
stored_tool_calls [] = []
stored_tool_calls (stored ∷ rest) =
    or_skip (stored_tool_call (get_field "name" stored) (get_field "arguments" stored) stored)
      (stored_tool_calls rest)

abbrev artifact_status : ArtifactStatus → String
artifact_status success = "ok"
artifact_status failed = "error"

abbrev provenance_field : Option Fields → Fields
provenance_field none = end
provenance_field (some p) = field "provenance" (dict p) end

abbrev error_field : Option String → Fields → Fields
error_field none rest = rest
error_field (some e) rest = field "error" (str e) rest

abbrev data_field : Option Fields → Fields → Fields
data_field none rest = rest
data_field (some d) rest = field "data" (dict d) rest

-- `uuid_text` is `str` of a UUID.
unfoldable pub artifact_envelope : (ℕ → String) → StoredArtifact → Fields
artifact_envelope uuid_text artifact = field "artifact_id" (str (uuid_text artifact.artifact_id)) (
    field "artifact_type" (str artifact.artifact_type) (
      field "schema_version" (int (pos artifact.schema_version)) (
        field "status" (str (artifact_status artifact.status)) (
          data_field artifact.payload
            (error_field artifact.error (provenance_field artifact.provenance))))))

read_status :
    (status : Option CallStatus) (summary : Option String)
    → call_status (get_field "status" (status_field status (summary_field summary))) ≡ status
read_status none none = refl
read_status none (some t) = refl
read_status (some ok) summary = refl
read_status (some error) summary = refl

read_summary :
    (status : Option CallStatus) (summary : Option String)
    → call_summary (get_field "summary" (status_field status (summary_field summary))) ≡ summary
read_summary none none = refl
read_summary none (some t) = refl
read_summary (some s) none = refl
read_summary (some s) (some t) = refl

stored-payload :
    (call : ExecutedToolCall) (rest : List Fields)
    → stored_tool_calls (tool_call_payload call ∷ rest) ≡ call ∷ stored_tool_calls rest
unfolding stored_tool_calls tool_call_payload
stored-payload call rest =
    rw (read_status call.status call.summary, read_summary call.status call.summary) refl

-- The tool calls of an agent's answer are read back unchanged from the payloads that are stored.
pub stored_tool_calls-payloads :
    (calls : List ExecutedToolCall) → stored_tool_calls (map tool_call_payload calls) ≡ calls
unfolding stored_tool_calls
stored_tool_calls-payloads [] = refl
stored_tool_calls-payloads (call ∷ calls) =
    rw (stored-payload call (map tool_call_payload calls), stored_tool_calls-payloads calls) refl
