-- ===== src/Research/Channel.antt =====
-- app/services/run_manager.py: `_RunChannel`, what the worker process knows of one run. Its methods
-- run under the channel's lock, so each is one step.
pub mod Kept
use mini_alpha.Common.{
  ℕ, ◌+◌, String, Bool, true, false, Option, none, some, List, [], ◌∷◌, ◌++◌, length, if◌then◌else◌,
}
use mini_alpha.Common.Text.{join}
use mini_alpha.Common.Value.{Fields, Value, str, dict, end, field, get_field}
use mini_alpha.Events.Models.{
  RunEvent, run_end, is_run_end, EventName, message_chunk, tool_call, artifact,
}
use mini_alpha.Persistence.Models.{ConversationRun}

pub record RunChannel : Type 0 where
  pub run : ConversationRun
  pub events : List RunEvent
  pub terminal : Bool
  pub cancel_requested : Bool

abbrev pub new_channel : ConversationRun → RunChannel
new_channel run = record { run = run; events = []; terminal = false; cancel_requested = false }

abbrev pub with_event : RunEvent → RunChannel → RunChannel
with_event event channel = record channel {
  events = channel.events ++ event ∷ [];
  terminal = is_run_end event.event;
}

-- `record`: whether the event is taken
unfoldable pub record_event : RunEvent → RunChannel → Bool × RunChannel
record_event event channel =
    if channel.terminal then (false, channel) else (true, with_event event channel)

abbrev pub code_field : Option String → Fields
code_field none = end
code_field (some code) = field "error_code" (str code) end

-- The `run_end` that the channel itself makes
abbrev pub terminal_event : ℕ → String → Option String → RunChannel → RunEvent
terminal_event now status error_code channel = record {
  event_id = length channel.events + 1;
  event = run_end;
  run_id = channel.run.run_id;
  thread_id = channel.run.thread_id;
  timestamp = now;
  payload = field "status" (str status) (code_field error_code);
}

unfoldable pub publish_terminal :
    ℕ → String → Option String → RunChannel → Option RunEvent × RunChannel
publish_terminal now status error_code channel =
    let event = terminal_event now status error_code channel in
    if channel.terminal
    then (none, channel)
    else (some event, record channel { events = channel.events ++ event ∷ []; terminal = true })

-- The partial answer, the tool calls and the artifacts of a cancelled run
pub record Snapshot : Type 0 where
  pub answer_parts : List String
  pub tool_calls : List Fields
  pub artifacts : List Fields

abbrev pub add_delta : Value → Snapshot → Snapshot
add_delta (str delta) rest = record rest { answer_parts = delta ∷ rest.answer_parts }
add_delta _ rest = rest

abbrev pub add_call : Value → Value → Snapshot → Snapshot
add_call (str name) (dict arguments) rest = record rest {
  tool_calls = field "name" (str name) (field "arguments" (dict arguments) end) ∷ rest.tool_calls;
}
add_call _ _ rest = rest

abbrev pub add_event : EventName → Fields → Snapshot → Snapshot
add_event message_chunk payload rest = add_delta (get_field "delta" payload) rest
add_event tool_call payload rest =
    add_call (get_field "name" payload) (get_field "arguments" payload) rest
add_event artifact payload rest = record rest { artifacts = payload ∷ rest.artifacts }
add_event _ payload rest = rest

unfoldable pub snapshot : List RunEvent → Snapshot
snapshot [] = record { answer_parts = []; tool_calls = []; artifacts = [] }
snapshot (event ∷ events) = add_event event.event event.payload (snapshot events)

unfoldable pub cancellation_snapshot : RunChannel → String × List Fields × List Fields
cancellation_snapshot channel =
    let seen = snapshot channel.events in (join seen.answer_parts, seen.tool_calls, seen.artifacts)
