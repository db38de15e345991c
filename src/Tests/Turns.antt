-- ===== src/Tests/Turns.antt =====
-- Runs of the models of app/services/thread_research.py and app/services/run_manager.py.
use mini_alpha.Common.{
  ℕ, ◌≡◌, refl, String, true, false, none, some, List, [], ◌∷◌, inl, map, nat_eq,
}
use mini_alpha.Common.Dict.{get, put}
use mini_alpha.Common.Value.{Fields, str, int, pos, dict, end, field}
use mini_alpha.Events.Models.{RunEvent, EventName, tool_call, artifact}
use mini_alpha.Persistence.Artifacts
use mini_alpha.Persistence.Artifacts.{parse_artifact}
use mini_alpha.Research.Execution.Delivery.{publish_each}
use mini_alpha.Persistence.Memory.Calls.{perform, perform_all, perform_all-IsValid}
use mini_alpha.Persistence.Memory.Effects.{Active, IsFresh}
use mini_alpha.Persistence.Memory.Invariant.{IsValid}
use mini_alpha.Persistence.Memory.State.{empty, active_run}
use mini_alpha.Persistence.Memory.{admit_run, complete_run, store_artifact, store_artifacts}
use mini_alpha.Persistence.Models.{ConversationThread, RunAdmission, StoredArtifact, in_progress}
use mini_alpha.Research.Channel.{new_channel}
use mini_alpha.Research.Execution.{World, cancel_channel}
use mini_alpha.Research.Execution.Cancels.{CancelledAs, cancel_channel-CancelledAs}
use mini_alpha.Research.Execution.Settles.{IsOpen}
use mini_alpha.Research.Manager.{Manager, RunSubmission, submit, work}
use mini_alpha.Research.Manager.Serving.{IsServed, submit-IsServed}
use mini_alpha.Research.Models.{
  AgentRun, ResearchResult, stream_event, stream_complete, exhausted, message_chunk,
}
use mini_alpha.Research.Thread.{
  ThreadResearchStream, ThreadResearchResult, returns, stream, prepare_stream, completed_result,
}
use mini_alpha.Research.Thread.Ends.{Stops}
use mini_alpha.Research.Thread.Repeat.{research-repeats}
use mini_alpha.Research.Thread.Stored.{stored_tool_calls}
use mini_alpha.Research.Thread.Stream.{Numbered, line_of, stream-Stops}
use mini_alpha.Research.Thread.Turn.{AgentAnswer, answered, research}
use mini_alpha.Tests.Conversations.{no_uuid, drawn, fresh, first_run, admitted, admitted-IsValid}
use mini_alpha.Tests.Transports.{failing, resilient}

abbrev clock : ℕ → ℕ
clock n = n

abbrev result : ResearchResult
result = record {
  answer = "answer";
  tool_calls = [];
  tool_results = [];
  artifacts = [];
  checkpoint_id = some "c1";
  usage = record { input_tokens = 1; output_tokens = 2; total_tokens = 3 };
  cache = none;
}

abbrev agent : AgentRun
agent = record {
  items =
      stream_event message_chunk (field "delta" (str "answer") end) ∷ stream_complete result ∷ [];
  ending = exhausted;
}

abbrev waiting : ThreadResearchStream
waiting = record {
  admission = record { run = first_run; from_checkpoint_id = none; replayed = false };
  replay = none;
}

stream-Stops_example :
    Numbered 1 (stream no_uuid drawn clock 20 waiting agent admitted).events
    × Stops 2
        (map line_of (stream no_uuid drawn clock 20 waiting agent admitted).events)
        (stream no_uuid drawn clock 20 waiting agent admitted).raised
        admitted
        (stream no_uuid drawn clock 20 waiting agent admitted).repository
stream-Stops_example =
    stream-Stops no_uuid drawn clock 20 waiting agent admitted admitted-IsValid refl

empty-IsValid : IsValid empty
unfolding perform_all
empty-IsValid = perform_all-IsValid no_uuid drawn [] tt

empty-IsFresh : IsFresh fresh empty
unfolding get
empty-IsFresh = record { run = refl; thread = refl }

abbrev uuid_name : ℕ → String
uuid_name n = "id"

abbrev answering : RunAdmission → AgentAnswer
answering a = answered result

abbrev answer : ThreadResearchResult
answer = record {
  thread_id = 1;
  run_id = 2;
  turn_index = 1;
  answer = "answer";
  tool_calls = [];
  artifacts = [];
  replayed = false;
}

research-returns :
    (research uuid_name no_uuid drawn fresh 10 20 answering none "hello" (some 7) empty).0
    ≡ returns answer
unfolding research admit_run complete_run get put completed_result store_artifacts active_run
    stored_tool_calls
research-returns = refl

research-repeats_example :
    let s' =
      (research uuid_name no_uuid drawn fresh 10 20 answering none "hello" (some 7) empty).1 in
    research uuid_name no_uuid drawn fresh 30 40 answering none "hello" (some 7) s'
    ≡ (returns (record answer { replayed = true }), s')
research-repeats_example =
    research-repeats uuid_name no_uuid drawn fresh fresh 10 20 30 40 answering answering none
      "hello" 7 empty answer empty-IsValid empty-IsFresh research-returns none (inl refl)

abbrev home : ConversationThread
home = record {
  thread_id = 1;
  status = in_progress;
  title = none;
  latest_checkpoint_id = none;
  next_turn_index = 2;
  created_at = 10;
  updated_at = 10;
}

admitted-Active : Active admitted 2
unfolding perform_all active_run get perform admit_run put
admitted-Active = record {
  run = first_run;
  thread = home;
  there = refl;
  active = refl;
  home = refl;
  accepted = refl;
}

abbrev sent : RunEvent → ℕ
sent event = event.timestamp

abbrev sent_as : ℕ → EventName → Fields → RunEvent
sent_as event_id event payload = record {
  event_id = event_id;
  event = event;
  run_id = 2;
  thread_id = 1;
  timestamp = 20;
  payload = payload;
}

abbrev shown_artifact : Fields
shown_artifact =
    field "artifact_type" (str "price_history") (
      field "schema_version" (int (pos 1))
        (field "status" (str "ok") (field "data" (dict end) end)))

abbrev sent_events : List RunEvent
sent_events =
    sent_as 1 EventName.message_chunk (field "delta" (str "part") end)
    ∷ sent_as 2 tool_call (field "name" (str "get_ownership") (field "arguments" (dict end) end))
    ∷ sent_as 3 artifact shown_artifact
    ∷ []

abbrev open_world : World failing sent
open_world = record {
  channel = record (new_channel first_run) { events = sent_events };
  transport = publish_each failing sent sent_events resilient;
  repository = admitted;
}

open_world-IsOpen : IsOpen failing sent resilient open_world
open_world-IsOpen = record {
  idle = refl;
  numbered = (refl, (refl, (refl, tt)));
  quiet = refl;
  published = refl;
}

abbrev shown_stored : StoredArtifact
shown_stored = record {
  artifact_id = drawn 0;
  run_id = 2;
  ordinal = 0;
  artifact_type = "price_history";
  schema_version = 1;
  status = Artifacts.success;
  payload = some end;
  error = none;
  failure = none;
  provenance = none;
  created_at = 30;
}

shown_accepted :
    store_artifacts no_uuid drawn 2 30 0 (shown_artifact ∷ []) ≡ Artifacts.ok (shown_stored ∷ [])
unfolding store_artifacts store_artifact parse_artifact
shown_accepted = refl

cancel_channel-CancelledAs_example :
    CancelledAs failing sent 2
      ("part" ∷ [])
      (field "name" (str "get_ownership") (field "arguments" (dict end) end) ∷ [])
      (shown_stored ∷ [])
      resilient
      (cancel_channel failing sent no_uuid drawn 30 2 open_world)
cancel_channel-CancelledAs_example =
    cancel_channel-CancelledAs failing sent 2 no_uuid drawn 30 resilient open_world
      (shown_stored ∷ []) admitted-IsValid admitted-Active open_world-IsOpen shown_accepted

abbrev manager : Manager failing sent
manager = record {
  accepting = true;
  recovered = true;
  channels = [];
  queue = [];
  transport = resilient;
  repository = empty;
}

abbrev submission : RunSubmission
submission = record {
  run_id = 2;
  thread_id = 1;
  turn_index = 1;
  status = in_progress;
  replayed = false;
}

submitted :
    (submit failing sent uuid_name fresh 10 none "hello" none manager).0 ≡ some (returns submission)
unfolding submit prepare_stream admit_run get put
submitted = refl

no_channel : get fresh.run_id manager.channels ≡ none
unfolding get
no_channel = refl

submit-IsServed_example : IsServed failing sent 2 resilient (
    work failing sent no_uuid drawn clock 20 agent
      (submit failing sent uuid_name fresh 10 none "hello" none manager).1)
submit-IsServed_example =
    submit-IsServed failing sent uuid_name no_uuid drawn fresh 10 none "hello" none clock 20 agent
      manager submission empty-IsValid empty-IsFresh no_channel refl submitted refl
