-- ===== src/Research/Thread.antt =====
-- app/services/thread_research.py: `ThreadResearchService`. A method is one step on the repository;
-- between the events of a stream the service touches nothing else. An answer of the agent is an
-- argument, and so is what the clock and `uuid4` give. A stored tool call's status is a text or
-- missing, as `_tool_call_payload` writes it.
pub mod Stored
pub mod Turn
pub mod Ends
pub mod Stream
pub mod Repeat
use mini_alpha.Common.{
  ℕ, ◌+◌, String, Bool, true, false, Option, none, some, List, [], ◌∷◌, ◌++◌, ◌==◌, nat_eq,
  string_eq, if◌then◌else◌, map, is_some,
}
use mini_alpha.Common.Value.{Fields, Value, end, field, pos}
use mini_alpha.Common.Value
use mini_alpha.Common.Text.{decimal, join}
use mini_alpha.Events.Models
use mini_alpha.Events.Models.{EventName, RunEvent, RunEventProducer, emit, new_producer}
use mini_alpha.Persistence.Memory.{FreshIds, admit_run, complete_run, fail_run}
use mini_alpha.Persistence.Memory
use mini_alpha.Persistence.Memory.Reader.{get_turn}
use mini_alpha.Persistence.Memory.State.{Repository}
use mini_alpha.Persistence.Memory.State
use mini_alpha.Persistence.Models.{
  ConversationRun, ConversationTurn, RunAdmission, RepositoryError, checkpoint_conflict,
  run_not_found,
}
use mini_alpha.Persistence.Models as Persisted
use mini_alpha.Research.Models.{
  ExecutedToolCall, ResearchResult, AgentStreamItem, stream_event, stream_complete, Ending,
  exhausted, research_error, crashed, AgentRun, event_name,
}
use Stored.{tool_call_payload, stored_tool_calls, artifact_envelope}

pub record ThreadResearchResult : Type 0 where
  pub thread_id : ℕ
  pub run_id : ℕ
  pub turn_index : ℕ
  pub answer : String
  pub tool_calls : List ExecutedToolCall
  pub artifacts : List Fields
  pub replayed : Bool

pub record ThreadResearchStream : Type 0 where
  pub admission : RunAdmission
  pub replay : Option ThreadResearchResult

-- What a method raises; `agent_crashed` is any exception of the agent but its own.
pub data ServiceError : Type 0 where
  refused : RepositoryError → ServiceError
  existing_run_in_progress : ConversationRun → ServiceError
  persisted_run_failed : ConversationRun → ServiceError
  research_failed : String → ServiceError
  agent_crashed : ServiceError

pub data Outcome {ℓ} (A : Type ℓ) : Type ℓ where
  returns : A → Outcome A
  raises : ServiceError → Outcome A

abbrev text_or_empty : Option String → String
text_or_empty none = ""
text_or_empty (some t) = t

unfoldable pub execution_error_message : String → String
execution_error_message code =
    if code == "model_timeout"
    then "The research model timed out."
    else if code == "tool_timeout"
    then "A research tool timed out."
    else "The research agent could not complete the request."

-- `PersistedRunFailedError.error_code`
abbrev pub failure_code : ConversationRun → String
failure_code run = elim run.error_code [
  | none ↦ "research_failed"
  | some code ↦ if code == "" then "research_failed" else code
]

module _ (uuid_text : ℕ → String) where
  unfoldable pub completed_result : Bool → ConversationTurn → ThreadResearchResult
  completed_result replayed turn = record {
    thread_id = turn.run.thread_id;
    run_id = turn.run.run_id;
    turn_index = turn.run.turn_index;
    answer = text_or_empty turn.run.answer;
    tool_calls = stored_tool_calls turn.run.tool_calls;
    artifacts = map (artifact_envelope uuid_text) turn.artifacts;
    replayed = replayed;
  }

  abbrev pub replayed_turn : Option ConversationTurn → Outcome ThreadResearchResult
  replayed_turn none = raises (refused run_not_found)
  replayed_turn (some turn) = returns (completed_result true turn)

  abbrev pub replay_by :
      Persisted.Status → ConversationRun → Repository → Outcome ThreadResearchResult
  replay_by Persisted.in_progress run s = raises (existing_run_in_progress run)
  replay_by Persisted.error run s = raises (persisted_run_failed run)
  replay_by Persisted.cancelled run s = raises (persisted_run_failed run)
  replay_by Persisted.completed run s = replayed_turn (get_turn run.run_id s)

  unfoldable pub replay : ConversationRun → Repository → Outcome ThreadResearchResult
  replay run s = replay_by run.status run s

  abbrev pub with_replay :
      RunAdmission → Outcome ThreadResearchResult → Outcome ThreadResearchStream
  with_replay admission (returns result) =
      returns (record { admission = admission; replay = some result })
  with_replay admission (raises e) = raises e

  abbrev pub prepared :
      State.Result RunAdmission × Repository → Outcome ThreadResearchStream × Repository
  prepared (State.err e, s) = (raises (refused e), s)
  prepared (State.ok admission, s) = (
    if admission.replayed
        then with_replay admission (replay admission.run s)
        else returns (record { admission = admission; replay = none }),
    s,
  )

  unfoldable pub prepare_stream :
      FreshIds
      → ℕ
      → Option ℕ
      → String
      → Option ℕ
      → Repository
      → Outcome ThreadResearchStream × Repository
  prepare_stream fresh now thread_id message key s =
      prepared (admit_run fresh now thread_id message key s)

-- An event before it is numbered
abbrev pub Line : Type 0
Line = EventName × Fields

-- The lines as one producer emits them; `clock n` is the time of the event after the n-th.
abbrev pub emit_each : (ℕ → ℕ) → List Line → RunEventProducer → List RunEvent
emit_each clock [] p = []
emit_each clock ((name, payload) ∷ lines) p =
    let (event, p') = emit (clock p.sequence) name payload p in event ∷ emit_each clock lines p'

-- The `async for` of `_stream`: what it yields, and the last result that it saw
abbrev pub spoken : List AgentStreamItem → List Line
spoken [] = []
spoken (stream_event name payload ∷ items) = (event_name name, payload) ∷ spoken items
spoken (stream_complete result ∷ items) = spoken items

abbrev pub last_result : Option ResearchResult → List AgentStreamItem → Option ResearchResult
last_result seen [] = seen
last_result seen (stream_event name payload ∷ items) = last_result seen items
last_result seen (stream_complete result ∷ items) = last_result (some result) items

-- What a stream has yielded when it stops, whether it raised, and the repository then
pub record Closing : Type 0 where
  pub lines : List Line
  pub raised : Option ServiceError
  pub repository : Repository

abbrev number : ℕ → Value
number n = Value.int (pos n)

-- The two lines that tell of a failure
abbrev pub failure_lines : String → String → List Line
failure_lines code message =
    (Models.error, field "code" (Value.str code) (field "message" (Value.str message) end))
    ∷ (Models.run_end, field "status" (Value.str "error") (field "error_code" (Value.str code) end))
    ∷ []

abbrev pub failed : String → String → State.Result ConversationRun × Repository → Closing
failed code message (State.ok run, s) = record {
  lines = failure_lines code message;
  raised = none;
  repository = s;
}
failed code message (State.err e, s) = record {
  lines = [];
  raised = some (refused e);
  repository = s;
}

-- `fail_run` with the stored message, then the two lines with the public one
unfoldable pub close_failed : ℕ → ℕ → String → String → String → Repository → Closing
close_failed now run_id code stored public s =
    failed code public (fail_run now run_id code stored s)

-- `except ResearchExecutionError`
unfoldable pub close_research_error : ℕ → ℕ → String → Repository → Closing
close_research_error now run_id code =
    close_failed now run_id code (execution_error_message code) (execution_error_message code)

-- `except CheckpointConflictError`
unfoldable pub close_conflict : ℕ → ℕ → Repository → Closing
close_conflict now run_id =
    close_failed now run_id "thread_conflict"
      "The research thread changed while the request was running."
      "The research thread changed during execution."

abbrev pub is_conflict : RepositoryError → Bool
is_conflict checkpoint_conflict = true
is_conflict _ = false

abbrev pub committed : ℕ → ℕ → State.Result ConversationTurn × Repository → Closing
committed now run_id (State.ok turn, s) = record {
  lines =
      (
        Models.run_end,
        field "status" (Value.str "completed")
            (field "turn_index" (number turn.run.turn_index) end),
      )
      ∷ [];
  raised = none;
  repository = s;
}
committed now run_id (State.err e, s) =
    if is_conflict e
    then close_conflict now run_id s
    else record { lines = []; raised = some (refused e); repository = s }

-- The lines of a replay
abbrev pub replay_calls : ℕ → List ExecutedToolCall → List Line
replay_calls index [] = []
replay_calls index (call ∷ calls) =
    (
      Models.tool_call,
      field "tool_call_id" (Value.str (join ("replay-tool-" ∷ decimal index ∷ [])))
          (field "name" (Value.str call.name) (field "arguments" (Value.dict call.arguments) end)),
    )
    ∷ replay_calls (index + 1) calls

abbrev pub replay_answer : String → List Line
replay_answer answer =
    if answer == "" then [] else (Models.message_chunk, field "delta" (Value.str answer) end) ∷ []

unfoldable pub replay_lines : ThreadResearchResult → List Line
replay_lines result =
    replay_calls 0 result.tool_calls
    ++ map (λ envelope. (Models.artifact, envelope)) result.artifacts
    ++ replay_answer result.answer
    ++ (Models.run_end, field "status" (Value.str "completed") end) ∷ []

-- What a stream has yielded when it stops
pub record Streamed : Type 0 where
  pub events : List RunEvent
  pub raised : Option ServiceError
  pub repository : Repository

abbrev pub opening : ThreadResearchStream → Line
opening stream = (
  Models.metadata,
  field "turn_index" (number stream.admission.run.turn_index)
      (field "replayed" (Value.bool (is_some stream.replay)) end),
)

module _ (parse_uuid : Value → Option ℕ) (uuid4 : ℕ → ℕ) where
  abbrev pub commit_result : ℕ → RunAdmission → ResearchResult → String → Repository → Closing
  commit_result now admission result checkpoint s = committed now admission.run.run_id (
      complete_run parse_uuid uuid4 now admission.run.run_id admission.from_checkpoint_id checkpoint
        result.answer (map tool_call_payload result.tool_calls) result.artifacts s)

  abbrev pub commit : ℕ → RunAdmission → Option ResearchResult → Repository → Closing
  commit now admission none s = close_research_error now admission.run.run_id "research_failed" s
  commit now admission (some result) s = elim result.checkpoint_id [
    | none ↦ close_research_error now admission.run.run_id "research_failed" s
    | some checkpoint ↦ commit_result now admission result checkpoint s
  ]

  -- What follows the agent's own events
  unfoldable pub close : ℕ → RunAdmission → AgentRun → Repository → Closing
  close now admission agent s = elim agent.ending [
    | exhausted ↦ commit now admission (last_result none agent.items) s
    | research_error code ↦ close_research_error now admission.run.run_id code s
    | crashed ↦ record { lines = []; raised = some agent_crashed; repository = s }
  ]

  unfoldable pub body : ℕ → ThreadResearchStream → AgentRun → Repository → Closing
  body now stream agent s = elim stream.replay [
    | some result ↦ record { lines = replay_lines result; raised = none; repository = s }
    | none ↦
        let closing = close now stream.admission agent s in
        record closing { lines = spoken agent.items ++ closing.lines }
  ]

  -- `stream`: `clock` times the events, `now` is the repository's clock when the agent stops.
  unfoldable pub stream : (ℕ → ℕ) → ℕ → ThreadResearchStream → AgentRun → Repository → Streamed
  stream clock now prepared agent s =
      let closing = body now prepared agent s in
      let run = prepared.admission.run in
      record {
        events =
            emit_each clock (opening prepared ∷ closing.lines)
              (new_producer run.run_id run.thread_id);
        raised = closing.raised;
        repository = closing.repository;
      }
