-- ===== src/Events/Store/Reading.antt =====
-- One run of app/events: its producer numbers the events, the in-memory transport of
-- app/events/store.py appends them to the run's stream, and a reader follows the stream. The
-- stream has no event limit here, since a limit forgets events that a reader may not have seen.
use mini_alpha.Common.{
  ℕ, ◌+◌, ◌<◌, ◌≤◌, ◌≡◌, ◌⊎◌, refl, sym, ◌∙◌, true, false, Option, none, List, [], ◌∷◌, ◌++◌,
  nat_eq, any, arith, select, select-append, last?, All, All-append, Bool-cases, Option-cases, inl,
  inr,
}
use mathlib.Core.List.{append-nil, append_assoc}
use mini_alpha.Common.Value.{Fields}
use mini_alpha.Events.Models.{EventName, RunEvent, RunEventProducer, new_producer, emit, is_run_end}
use mini_alpha.Events.Store.Ascending.{
  Increasing, All-select, All-last, none_of_any, select-true, last-none, drained_of_last,
  Increasing-append, All-weaken,
}
use mini_alpha.Events.Store.{
  MemoryStream, new_stream, append, Reader, new_reader, is_after, pending, is_ready, read,
}

-- A turn of the publisher, which emits an event and appends it, or of the reader
pub data Turn : Type 0 where
  publishes : ℕ → EventName → Fields → Turn
  reads : Turn

pub record Scene : Type 0 where
  pub producer : RunEventProducer
  pub stream : MemoryStream
  pub reader : Reader

abbrev pub opening : ℕ → ℕ → ℕ → Scene
opening run_id thread_id start = record {
  producer = new_producer run_id thread_id;
  stream = new_stream;
  reader = new_reader start;
}

unfoldable pub take_turn : Turn → Scene → Scene
take_turn (publishes now name payload) s =
    let (event, producer) = emit now name payload s.producer in
    record s { producer = producer; stream = append none event s.stream }
take_turn reads s = record s { reader = read s.stream s.reader }

unfoldable pub take_turns : List Turn → Scene → Scene
take_turns [] s = s
take_turns (t ∷ ts) s = take_turns ts (take_turn t s)

-- What was yielded, with what is pending, are the events after the first cursor.
record IsFollowing (start : ℕ) (s : Scene) : Type 0 where
  increasing : Increasing s.stream.events
  numbered : All (λ e. e.event_id ≤ s.producer.sequence) s.stream.events
  cursor :
      (s.reader.cursor ≡ start)
      ⊎ (start ≤ s.reader.cursor) × (s.reader.cursor ≤ s.producer.sequence)
  complete :
      s.reader.yielded ++ pending s.reader.cursor s.stream ≡ select (is_after start) s.stream.events
  over : s.reader.returned ≡ true → s.stream.terminal ≡ true
  drained : s.reader.returned ≡ true → pending s.reader.cursor s.stream ≡ []

opening-IsFollowing : (r t start : ℕ) → IsFollowing start (opening r t start)
opening-IsFollowing r t start = ground arith

same_after :
    (start : ℕ) (s : Scene) (e : RunEvent)
    → IsFollowing start s
    → s.producer.sequence < e.event_id
    → is_after s.reader.cursor e ≡ is_after start e
same_after start s e f h = ground (arith, f.cursor)

append_ended :
    (m : Option ℕ) (e : RunEvent) (st : MemoryStream) → st.terminal ≡ true → append m e st ≡ st
unfolding append
append_ended m e st h = ground arith

append_live :
    (e : RunEvent) (st : MemoryStream)
    → st.terminal ≡ false
    → append none e st ≡ record { events = st.events ++ e ∷ []; terminal = is_run_end e.event }
unfolding append
append_live e st h = ground arith

publishes-IsFollowing :
    (start now : ℕ) (name : EventName) (payload : Fields) (s : Scene)
    → IsFollowing start s
    → IsFollowing start (take_turn (publishes now name payload) s)
unfolding take_turn emit
publishes-IsFollowing start now name payload s f = elim (Bool-cases s.stream.terminal) [
  | inl t ↦ simp (append_ended none (emit now name payload s.producer).0 s.stream t) (record {
    increasing = f.increasing;
    numbered =
        All-weaken s.producer.sequence (s.producer.sequence + 1) s.stream.events (omega arith)
          f.numbered;
    cursor = ground (arith, f.cursor);
    complete = f.complete;
    over = λ h. t;
    drained = f.drained;
  })
  | inr t ↦
      let e = (emit now name payload s.producer).0 in
      simp (append_live e s.stream t) (record {
        increasing =
            Increasing-append s.producer.sequence s.stream.events e f.increasing f.numbered
              (omega arith);
        numbered =
            All-append (λ e. e.event_id ≤ s.producer.sequence + 1) s.stream.events (e ∷ [])
              (All-weaken s.producer.sequence (s.producer.sequence + 1) s.stream.events
                (omega arith) f.numbered)
              (omega arith, tt);
        cursor = ground (arith, f.cursor);
        complete =
            rw
              (
                select-append,
                select-append,
                same_after start s e f (omega arith),
                ← append_assoc,
                f.complete,
              )
              refl;
        over = λ h. absurd (ground (arith, f.over h));
        drained = λ h. absurd (ground (arith, f.over h));
      })
]

reads-IsFollowing :
    (start : ℕ) (s : Scene) → IsFollowing start s → IsFollowing start (take_turn reads s)
unfolding take_turn read
reads-IsFollowing start s f = elim (Bool-cases (is_ready s.stream s.reader)) [
  | inr wait ↦ rw (take_turn, read, wait) f
  | inl go ↦ elim (Option-cases (last? (pending s.reader.cursor s.stream))) [
    | inl empty ↦
        let none' = last-none (pending s.reader.cursor s.stream) empty in
        rw (take_turn, read, go, empty)
          (record {
            increasing = f.increasing;
            numbered = f.numbered;
            cursor = f.cursor;
            complete = rw (none', append-nil) (rw none' at f.complete);
            over = λ h. h;
            drained = λ h. none';
          })
    | inr (g, last) ↦
        let gone = drained_of_last s.reader.cursor s.stream.events g f.increasing last in
        let bound =
          All-last (λ e. e.event_id ≤ s.producer.sequence) (pending s.reader.cursor s.stream) g
            (All-select (is_after s.reader.cursor) (λ e. e.event_id ≤ s.producer.sequence)
              s.stream.events f.numbered)
            last in
        let past =
          All-last (λ e. is_after s.reader.cursor e ≡ true) (pending s.reader.cursor s.stream) g
            (select-true (is_after s.reader.cursor) s.stream.events) last in
        rw (take_turn, read, go, last)
          (record {
            increasing = f.increasing;
            numbered = f.numbered;
            cursor = inr (ground (arith, f.cursor), bound);
            complete = rw (gone, append-nil) f.complete;
            over = λ h. h;
            drained = λ h. gone;
          })
  ]
]

take_turn-IsFollowing :
    (start : ℕ) (t : Turn) (s : Scene) → IsFollowing start s → IsFollowing start (take_turn t s)
take_turn-IsFollowing start (publishes now name payload) s f =
    publishes-IsFollowing start now name payload s f
take_turn-IsFollowing start reads s f = reads-IsFollowing start s f

take_turns-IsFollowing :
    (start : ℕ) (ts : List Turn) (s : Scene)
    → IsFollowing start s
    → IsFollowing start (take_turns ts s)
unfolding take_turns
take_turns-IsFollowing start [] s f = f
take_turns-IsFollowing start (t ∷ ts) s f =
    take_turns-IsFollowing start ts (take_turn t s) (take_turn-IsFollowing start t s f)

waiting :
    (stream : MemoryStream) (reader : Reader)
    → is_ready stream reader ≡ false
    → reader.returned ≡ false
    → (any (is_after reader.cursor) stream.events ≡ false) × (stream.terminal ≡ false)
unfolding is_ready
waiting stream reader h r = ground arith

-- A round that comes next has yielded everything, and has returned just where the stream ended.
read-all :
    (start : ℕ) (s : Scene)
    → IsFollowing start s
    → ((read s.stream s.reader).yielded ≡ select (is_after start) s.stream.events)
      × ((read s.stream s.reader).returned ≡ s.stream.terminal)
unfolding read
read-all start s f = elim (Bool-cases (is_ready s.stream s.reader)) [
  | inl go ↦ rw (read, go) (f.complete, refl)
  | inr wait ↦
      rw (read, wait)
        (elim (Bool-cases s.reader.returned) [
          | inl r ↦ (
            sym (append-nil s.reader.yielded) ∙ (rw (f.drained r) at f.complete),
            r ∙ sym (f.over r),
          )
          | inr r ↦
              let (quiet, live) = waiting s.stream s.reader wait r in
              (
                sym (append-nil s.reader.yielded)
                    ∙ (rw (none_of_any (is_after s.reader.cursor) s.stream.events quiet) at
                        f.complete),
                r ∙ sym live,
              )
        ])
]

-- A reader that starts after the cursor `start` and follows a run from its first event, on a stream
-- that has no event limit: whatever the turns of the publisher and the reader, its next round leaves
-- it with exactly the events of the stream whose id is past `start`, each once and in the order of
-- publication, and it has returned just when the stream has ended.
pub read-take_turns :
    (run_id thread_id start : ℕ) (turns : List Turn)
    → let s = take_turns turns (opening run_id thread_id start) in
      ((read s.stream s.reader).yielded ≡ select (is_after start) s.stream.events)
      × ((read s.stream s.reader).returned ≡ s.stream.terminal)
read-take_turns run_id thread_id start turns =
    read-all start (take_turns turns (opening run_id thread_id start)) (
      take_turns-IsFollowing start turns (opening run_id thread_id start)
        (opening-IsFollowing run_id thread_id start))
