-- ===== src/Events/Store.antt =====
-- app/events/store.py: `InMemoryRunEventStore`. A coroutine runs to its next `await` without
-- interruption, so `publish` is one step and a reader's round is one step; a reader holds the
-- stream that `_stream` gave it.
pub mod Bounds
pub mod Eviction
mod Ascending
pub mod Reading
use mini_alpha.Common.{
  ℕ, ◌-◌, Bool, true, false, Option, none, some, List, [], ◌∷◌, ◌++◌, ◌==◌, nat_eq, ltb, leb,
  if◌then◌else◌, any, length, drop, select, last?, is_some, map, not,
}
use mini_alpha.Common.Dict.{Dict, get, put, del, values}
use mini_alpha.Events.Models.{RunEvent, is_run_end}

pub record MemoryStream : Type 0 where
  pub events : List RunEvent
  pub terminal : Bool

abbrev pub new_stream : MemoryStream
new_stream = record { events = []; terminal = false }

pub record EventStore : Type 0 where
  pub max_streams : Option ℕ
  pub max_events_per_stream : Option ℕ
  pub streams : Dict ℕ MemoryStream

-- The capacity limits that the constructor accepts; it raises `ValueError` on any other.
abbrev pub is_capacity : Option ℕ → Bool
is_capacity none = true
is_capacity (some n) = leb 1 n

unfoldable pub init : Option ℕ → Option ℕ → Option EventStore
init max_streams max_events =
    if is_capacity max_streams
    then (if is_capacity max_events
        then some
            (record { max_streams = max_streams; max_events_per_stream = max_events; streams = [] })
        else none)
    else none

-- `self._streams.move_to_end(run_id)` of a stream that is there
unfoldable pub move_to_end : ℕ → MemoryStream → Dict ℕ MemoryStream → Dict ℕ MemoryStream
move_to_end r stream streams = del r streams ++ (r, stream) ∷ []

-- The id of the first terminal stream, or `first`
unfoldable pub first_terminal : ℕ → Dict ℕ MemoryStream → ℕ
first_terminal first [] = first
first_terminal first ((r, stream) ∷ streams) =
    if stream.terminal then r else first_terminal first streams

unfoldable pub evict : Dict ℕ MemoryStream → Dict ℕ MemoryStream
evict [] = []
evict ((r, stream) ∷ streams) =
    del (first_terminal r ((r, stream) ∷ streams)) ((r, stream) ∷ streams)

abbrev pub is_full : Option ℕ → Dict ℕ MemoryStream → Bool
is_full none streams = false
is_full (some n) streams = leb n (length streams)

-- `_stream`: the stream of a run, made if it is not there, and the store after it
unfoldable pub stream_of : ℕ → EventStore → MemoryStream × EventStore
stream_of r s = elim (get r s.streams) [
  | some stream ↦ (stream, record s { streams = move_to_end r stream s.streams })
  | none ↦ (
    new_stream,
    record s {
      streams =
          put r new_stream (if is_full s.max_streams s.streams then evict s.streams else s.streams);
    },
  )
]

-- `del events[:-n]` when there are more than `n`
abbrev pub trim : Option ℕ → List RunEvent → List RunEvent
trim none events = events
trim (some n) events = if ltb n (length events) then drop (length events - n) events else events

unfoldable pub append : Option ℕ → RunEvent → MemoryStream → MemoryStream
append max_events event stream = if stream.terminal then stream else record {
  events = trim max_events (stream.events ++ event ∷ []);
  terminal = is_run_end event.event;
}

unfoldable pub publish : RunEvent → EventStore → EventStore
publish event s =
    let (stream, s') = stream_of event.run_id s in
    if stream.terminal then s' else record s' {
      streams = put event.run_id (append s.max_events_per_stream event stream) s'.streams;
    }

-- A reader of `events`: its cursor, what it has yielded, and whether it has returned
pub record Reader : Type 0 where
  pub cursor : ℕ
  pub yielded : List RunEvent
  pub returned : Bool

abbrev pub new_reader : ℕ → Reader
new_reader after_event_id = record { cursor = after_event_id; yielded = []; returned = false }

abbrev pub is_after : ℕ → RunEvent → Bool
is_after cursor event = ltb cursor event.event_id

abbrev pub pending : ℕ → MemoryStream → List RunEvent
pending cursor stream = select (is_after cursor) stream.events

abbrev cursor_after : ℕ → Option RunEvent → ℕ
cursor_after cursor none = cursor
cursor_after cursor (some event) = event.event_id

-- What the `wait_for` of a round waits for
unfoldable pub is_ready : MemoryStream → Reader → Bool
is_ready stream reader =
    if reader.returned
    then false
    else if any (is_after reader.cursor) stream.events
    then true
    else stream.terminal

-- One round of the loop, when it is ready; else the reader waits
unfoldable pub read : MemoryStream → Reader → Reader
unfolding is_ready
read stream reader =
    if is_ready stream reader
    then record {
      cursor = cursor_after reader.cursor (last? (pending reader.cursor stream));
      yielded = reader.yielded ++ pending reader.cursor stream;
      returned = stream.terminal;
    }
    else reader

unfoldable pub exists : ℕ → EventStore → Bool
exists r s = is_some (get r s.streams)

unfoldable pub latest : ℕ → EventStore → Option RunEvent × EventStore
latest r s = elim (get r s.streams) [
  | none ↦ (none, s)
  | some stream ↦ (last? stream.events, record s { streams = move_to_end r stream s.streams })
]
