-- ===== src/Research/Channel/Kept.antt =====
-- What the snapshot of app/services/run_manager.py's `_RunChannel` keeps of the events that were sent.
use mini_alpha.Common.{◌≡◌, refl, ap, ◌∙◌, String, Option, none, some, List, [], ◌∷◌}
use mini_alpha.Common.Value.{
  Value, Fields, null, bool, int, float, str, uuid, datetime, list, dict, end, field, get_field,
}
use mini_alpha.Events.Models.{
  RunEvent, EventName, metadata, progress, message_chunk, tool_call, tool_result, artifact, error,
  run_end,
}
use mini_alpha.Research.Channel.{Snapshot, add_delta, add_call, add_event, snapshot}

abbrev pub prepended {ℓ} : {A : Type ℓ} → Option A → List A → List A
prepended none xs = xs
prepended (some x) xs = x ∷ xs

-- What a function finds in the elements of a list, in order
abbrev pub found {ℓ κ} : {A : Type ℓ} {B : Type κ} → (A → Option B) → List A → List B
found f [] = []
found f (x ∷ xs) = prepended (f x) (found f xs)

-- The text of a message chunk
abbrev pub text_in : EventName → Value → Option String
text_in message_chunk (str delta) = some delta
text_in _ _ = none

abbrev pub text_sent : RunEvent → Option String
text_sent event = text_in event.event (get_field "delta" event.payload)

-- A tool call, which has a name and arguments
abbrev pub call_in : EventName → Value → Value → Option Fields
call_in tool_call (str name) (dict arguments) =
    some (field "name" (str name) (field "arguments" (dict arguments) end))
call_in _ _ _ = none

abbrev pub call_sent : RunEvent → Option Fields
call_sent event =
    call_in event.event (get_field "name" event.payload) (get_field "arguments" event.payload)

abbrev pub artifact_in : EventName → Fields → Option Fields
artifact_in artifact payload = some payload
artifact_in _ payload = none

abbrev pub artifact_sent : RunEvent → Option Fields
artifact_sent event = artifact_in event.event event.payload

-- What one event adds to the snapshot of the events after it
record Adds (text : Option String) (call shown : Option Fields) (rest seen : Snapshot)
    : Type 0 where
  texts : seen.answer_parts ≡ prepended text rest.answer_parts
  calls : seen.tool_calls ≡ prepended call rest.tool_calls
  evidence : seen.artifacts ≡ prepended shown rest.artifacts

same-Adds : (seen : Snapshot) → Adds none none none seen seen
same-Adds seen = record { texts = refl; calls = refl; evidence = refl }

add_delta-Adds :
    (delta : Value) (rest : Snapshot)
    → Adds (text_in message_chunk delta) none none rest (add_delta delta rest)
add_delta-Adds null rest = same-Adds rest
add_delta-Adds (bool _) rest = same-Adds rest
add_delta-Adds (int _) rest = same-Adds rest
add_delta-Adds (float _ _) rest = same-Adds rest
add_delta-Adds (str _) rest = record { texts = refl; calls = refl; evidence = refl }
add_delta-Adds (uuid _) rest = same-Adds rest
add_delta-Adds (datetime _) rest = same-Adds rest
add_delta-Adds (list _) rest = same-Adds rest
add_delta-Adds (dict _) rest = same-Adds rest

add_call-Adds :
    (name arguments : Value) (rest : Snapshot)
    → Adds none (call_in tool_call name arguments) none rest (add_call name arguments rest)
add_call-Adds null arguments rest = same-Adds rest
add_call-Adds (bool _) arguments rest = same-Adds rest
add_call-Adds (int _) arguments rest = same-Adds rest
add_call-Adds (float _ _) arguments rest = same-Adds rest
add_call-Adds (str _) null rest = same-Adds rest
add_call-Adds (str _) (bool _) rest = same-Adds rest
add_call-Adds (str _) (int _) rest = same-Adds rest
add_call-Adds (str _) (float _ _) rest = same-Adds rest
add_call-Adds (str _) (str _) rest = same-Adds rest
add_call-Adds (str _) (uuid _) rest = same-Adds rest
add_call-Adds (str _) (datetime _) rest = same-Adds rest
add_call-Adds (str _) (list _) rest = same-Adds rest
add_call-Adds (str _) (dict _) rest = record { texts = refl; calls = refl; evidence = refl }
add_call-Adds (uuid _) arguments rest = same-Adds rest
add_call-Adds (datetime _) arguments rest = same-Adds rest
add_call-Adds (list _) arguments rest = same-Adds rest
add_call-Adds (dict _) arguments rest = same-Adds rest

add_event-Adds :
    (event : EventName) (payload : Fields) (rest : Snapshot)
    → Adds
        (text_in event (get_field "delta" payload))
        (call_in event (get_field "name" payload) (get_field "arguments" payload))
        (artifact_in event payload)
        rest
        (add_event event payload rest)
add_event-Adds metadata payload rest = same-Adds rest
add_event-Adds progress payload rest = same-Adds rest
add_event-Adds message_chunk payload rest = add_delta-Adds (get_field "delta" payload) rest
add_event-Adds tool_call payload rest =
    add_call-Adds (get_field "name" payload) (get_field "arguments" payload) rest
add_event-Adds tool_result payload rest = same-Adds rest
add_event-Adds artifact payload rest = record { texts = refl; calls = refl; evidence = refl }
add_event-Adds error payload rest = same-Adds rest
add_event-Adds run_end payload rest = same-Adds rest

-- The parts of a snapshot of events
pub record Kept (events : List RunEvent) (seen : Snapshot) : Type 0 where
  pub texts : seen.answer_parts ≡ found text_sent events
  pub calls : seen.tool_calls ≡ found call_sent events
  pub evidence : seen.artifacts ≡ found artifact_sent events

pub snapshot-Kept : (events : List RunEvent) → Kept events (snapshot events)
unfolding snapshot
snapshot-Kept [] = record { texts = refl; calls = refl; evidence = refl }
snapshot-Kept (event ∷ events) =
    let rest = snapshot-Kept events in
    let adds = add_event-Adds event.event event.payload (snapshot events) in
    record {
      texts = adds.texts ∙ ap (prepended (text_sent event)) rest.texts;
      calls = adds.calls ∙ ap (prepended (call_sent event)) rest.calls;
      evidence = adds.evidence ∙ ap (prepended (artifact_sent event)) rest.evidence;
    }
