-- ===== src/Tests/Transports.antt =====
-- Runs of app/events' models.
use mini_alpha.Common.{
  ℕ, ◌≡◌, ◌≤◌, refl, true, false, none, some, List, [], ◌∷◌, inr, length, select, last?, nat_eq,
  arith,
}
use mini_alpha.Common.Dict.{Distinct, get}
use mini_alpha.Common.Value.{end}
use mini_alpha.Events.Models.{RunEvent, EventName, metadata, progress, run_end}
use mini_alpha.Events.Resilient.FailOpen.{publish-fallback, publish-failed}
use mini_alpha.Events.Resilient.{Transport, ResilientStore}
use mini_alpha.Events.Resilient
use mini_alpha.Events.Store.Bounds.{IsBounded, publish-IsBounded}
use mini_alpha.Events.Store.Eviction.{publish-other_stream, publish-ended_stream}
use mini_alpha.Events.Store.Reading.{Turn, publishes, reads, take_turns, opening, read-take_turns}
use mini_alpha.Events.Store.{EventStore, MemoryStream, publish, read, is_after, stream_of}

abbrev event_of : ℕ → ℕ → EventName → RunEvent
event_of r i name = record {
  event_id = i;
  event = name;
  run_id = r;
  thread_id = 1;
  timestamp = 100;
  payload = end;
}

abbrev turns : List Turn
turns =
    publishes 10 metadata end ∷ reads ∷ publishes 11 progress end ∷ publishes 12 run_end end ∷ []

read-take_turns_example :
    let s = take_turns turns (opening 2 1 1) in
    ((read s.stream s.reader).yielded ≡ select (is_after 1) s.stream.events)
    × ((read s.stream s.reader).returned ≡ s.stream.terminal)
read-take_turns_example = read-take_turns 2 1 1 turns

abbrev live_stream : MemoryStream
live_stream = record { events = event_of 2 1 metadata ∷ []; terminal = false }

abbrev ended_stream : MemoryStream
ended_stream = record { events = event_of 3 1 run_end ∷ []; terminal = true }

-- Two streams, one of them ended, where two is the limit
abbrev store : EventStore
store = record {
  max_streams = some 2;
  max_events_per_stream = some 1;
  streams = (3, ended_stream) ∷ (2, live_stream) ∷ [];
}

two_of : (r : ℕ) (x : MemoryStream) → get r store.streams ≡ some x → length x.events ≤ 1
unfolding get
two_of r x h = ground arith

store-Distinct : Distinct store.streams
unfolding get
store-Distinct = ground arith

store-IsBounded : IsBounded store
store-IsBounded = record {
  streams_capacity = refl;
  events_capacity = refl;
  distinct = store-Distinct;
  streams = omega arith;
  events = two_of;
}

publish-IsBounded_example : IsBounded (publish (event_of 4 1 metadata) store)
publish-IsBounded_example = publish-IsBounded (event_of 4 1 metadata) store store-IsBounded

live_there : get 2 store.streams ≡ some live_stream
unfolding get
live_there = refl

ended_there : get 3 store.streams ≡ some ended_stream
unfolding get
ended_there = refl

publish-other_stream_example :
    get 2 (publish (event_of 4 1 metadata) store).streams ≡ some live_stream
publish-other_stream_example =
    publish-other_stream (event_of 4 1 metadata) store store-IsBounded 2 live_stream live_there
      (inr (inr (refl, refl))) (λ e. omega arith)

publish-ended_stream_example :
    get 2 (publish (event_of 3 2 progress) store).streams ≡ get 2 store.streams
publish-ended_stream_example =
    publish-ended_stream (event_of 3 2 progress) store store-IsBounded ended_stream ended_there refl
      2

-- A primary transport that has no event and refuses every publication
abbrev pub failing : Transport
failing = record {
  State = Unit;
  publish = λ event s. (some "ConnectionError", s);
  exists = λ r s. false;
  latest = λ r s. (none, s);
}

abbrev pub resilient : ResilientStore failing
resilient = record {
  remote = tt;
  fallback = store;
  diagnostics = [];
  max_diagnostics = 1;
  max_degraded_runs = 1;
  degraded_runs = 9 ∷ [];
}

publish-fallback_example :
    ((Resilient.publish failing 50 (event_of 4 1 metadata) resilient).fallback
      ≡ publish (event_of 4 1 metadata) store)
    × IsBounded (Resilient.publish failing 50 (event_of 4 1 metadata) resilient).fallback
    × (length (Resilient.publish failing 50 (event_of 4 1 metadata) resilient).diagnostics ≤ 1)
    × (length (Resilient.publish failing 50 (event_of 4 1 metadata) resilient).degraded_runs ≤ 1)
publish-fallback_example =
    publish-fallback failing 50 (event_of 4 1 metadata) resilient store-IsBounded (omega arith)
      (omega arith)

live_locally : (stream_of 4 store).0.terminal ≡ false
unfolding stream_of get
live_locally = refl

publish-failed_example :
    (last? (Resilient.publish failing 50 (event_of 4 1 metadata) resilient).diagnostics
      ≡ some (record { error_type = "ConnectionError"; timestamp = 50; run_id = 4; event_id = 1 }))
    × (Resilient.is_member 4
          (Resilient.publish failing 50 (event_of 4 1 metadata) resilient).degraded_runs
        ≡ true)
    × (Resilient.exists failing 4 (Resilient.publish failing 50 (event_of 4 1 metadata) resilient)
        ≡ true)
    × ((Resilient.latest failing 4
          (Resilient.publish failing 50 (event_of 4 1 metadata) resilient)).0
        ≡ some (event_of 4 1 metadata))
publish-failed_example =
    publish-failed failing 50 (event_of 4 1 metadata) resilient "ConnectionError" store-IsBounded
      (omega arith) (omega arith) live_locally refl
