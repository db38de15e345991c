-- ===== src/Events/Store/Bounds.antt =====
-- The capacity limits of app/events/store.py's in-memory transport.
use mini_alpha.Common.{
  ℕ, ◌+◌, ◌-◌, ◌≤◌, ◌≡◌, ◌⊎◌, refl, subst, true, Option, none, some, List, [], ◌∷◌, ◌++◌, ◌==◌,
  nat_eq, if◌then◌else◌, length, length-append, length-drop, arith, is_some, Option-cases,
  Bool-cases, inl, inr,
}
use mini_alpha.Common.Dict.{
  Dict, get, put, del, get-put, get-put_self, length-put, length-del, Distinct, del-Distinct,
  put-Distinct, get-del, get-del-append, del-append-Distinct,
}
use mini_alpha.Events.Models.{RunEvent}
use mini_alpha.Events.Store.{
  EventStore, MemoryStream, new_stream, append, publish, stream_of, evict, first_terminal,
  move_to_end, trim, is_full, is_capacity,
}

abbrev pub Within : Option ℕ → ℕ → Type 0
Within none n = Unit
Within (some m) n = n ≤ m

-- The limits are positive; there are no more streams and no more events in a stream than they say.
pub record IsBounded (s : EventStore) : Type 0 where
  pub streams_capacity : is_capacity s.max_streams ≡ true
  pub events_capacity : is_capacity s.max_events_per_stream ≡ true
  pub distinct : Distinct s.streams
  pub streams : Within s.max_streams (length s.streams)
  pub events :
      (r : ℕ) (stream : MemoryStream)
      → get r s.streams ≡ some stream
      → Within s.max_events_per_stream (length stream.events)

length-trim : (m : Option ℕ) (xs : List RunEvent) → Within m (length (trim m xs))
length-trim none xs = tt
length-trim (some n) xs = ground (arith, length-drop (length xs - n) xs)

append_bound :
    (m : Option ℕ) (e : RunEvent) (stream : MemoryStream)
    → Within m (length stream.events)
    → Within m (length (append m e stream).events)
unfolding append
append_bound m e stream h = elim (Bool-cases stream.terminal) [
  | inl t ↦ rw t h
  | inr t ↦ rw t (length-trim m (stream.events ++ e ∷ []))
]

-- The eviction finds a stream and removes it.
first_terminal-there :
    (first : ℕ) (streams : Dict ℕ MemoryStream)
    → (first_terminal first streams ≡ first)
      ⊎ (is_some (get (first_terminal first streams) streams) ≡ true)
unfolding first_terminal get
first_terminal-there first [] = inl refl
first_terminal-there first ((r, st) ∷ streams) = ground (arith, first_terminal-there first streams)

length-evict : (streams : Dict ℕ MemoryStream) → length (evict streams) ≡ length streams - 1
unfolding evict get
length-evict [] = refl
length-evict ((r, st) ∷ streams) =
    let d = (r, st) ∷ streams in
    ground (arith, length-del (first_terminal r d) d, first_terminal-there r d)

pub evict-Distinct : (streams : Dict ℕ MemoryStream) → Distinct streams → Distinct (evict streams)
unfolding evict
evict-Distinct [] h = tt
evict-Distinct ((r, st) ∷ streams) h =
    del-Distinct (first_terminal r ((r, st) ∷ streams)) ((r, st) ∷ streams) h

-- An eviction only forgets.
pub get-evict :
    (q : ℕ) (streams : Dict ℕ MemoryStream) (stream : MemoryStream)
    → Distinct streams
    → get q (evict streams) ≡ some stream
    → get q streams ≡ some stream
unfolding evict
get-evict q [] st h g = g
get-evict q ((r, x) ∷ streams) st h g =
    ground (arith, get-del (first_terminal r ((r, x) ∷ streams)) q ((r, x) ∷ streams) h)

abbrev roomed : EventStore → Dict ℕ MemoryStream
roomed s = if is_full s.max_streams s.streams then evict s.streams else s.streams

room : (s : EventStore) → IsBounded s → Within s.max_streams (length (roomed s) + 1)
room s b = ground (arith, b.streams, b.streams_capacity, length-evict s.streams)

roomed-Distinct : (s : EventStore) → IsBounded s → Distinct (roomed s)
roomed-Distinct s b = elim (Bool-cases (is_full s.max_streams s.streams)) [
  | inl f ↦ rw f (evict-Distinct s.streams b.distinct)
  | inr f ↦ rw f b.distinct
]

get-roomed :
    (q : ℕ) (s : EventStore) (x : MemoryStream)
    → IsBounded s
    → get q (roomed s) ≡ some x
    → get q s.streams ≡ some x
get-roomed q s x b h = ground (arith, get-evict q s.streams x b.distinct)

Within-le : (m : Option ℕ) (n k : ℕ) → n ≤ k → Within m k → Within m n
Within-le none n k h w = tt
Within-le (some m) n k h w = omega arith

Within-same :
    (m : Option ℕ) (x y : MemoryStream)
    → x ≡ y
    → Within m (length x.events)
    → Within m (length y.events)
Within-same m x y e = subst (λ (t : MemoryStream). Within m (length t.events)) e

Within-zero : (m : Option ℕ) → Within m 0
Within-zero none = tt
Within-zero (some m) = omega arith

module _ (r : ℕ) (s : EventStore) (b : IsBounded s) where
  length-move :
      (st : MemoryStream)
      → get r s.streams ≡ some st
      → length (del r s.streams ++ (r, st) ∷ []) ≤ length s.streams
  length-move st e =
      ground (arith, length-append (del r s.streams) ((r, st) ∷ []), length-del r s.streams)

  -- `_stream` keeps the bounds.
  pub stream_of-IsBounded : IsBounded (stream_of r s).1
  unfolding stream_of move_to_end
  stream_of-IsBounded = elim (Option-cases (get r s.streams)) [
    | inl e ↦
        rw (stream_of, e)
          (record {
            streams_capacity = b.streams_capacity;
            events_capacity = b.events_capacity;
            distinct = put-Distinct r new_stream (roomed s) (roomed-Distinct s b);
            streams =
                Within-le s.max_streams _ (length (roomed s) + 1)
                  (ground (arith, length-put r new_stream (roomed s))) (room s b);
            events = λ q x h. elim (Bool-cases (r == q)) [
              | inl same ↦
                  Within-same s.max_events_per_stream new_stream x
                    (ground (arith, get-put r q new_stream (roomed s)))
                    (Within-zero s.max_events_per_stream)
              | inr other ↦
                  b.events q x
                    (get-roomed q s x b (ground (arith, get-put r q new_stream (roomed s))))
            ];
          })
    | inr (st, e) ↦
        rw (stream_of, e)
          (record {
            streams_capacity = b.streams_capacity;
            events_capacity = b.events_capacity;
            distinct = del-append-Distinct r st s.streams b.distinct;
            streams = Within-le s.max_streams _ (length s.streams) (length-move st e) b.streams;
            events =
                λ q x h. b.events q x (ground (arith, get-del-append r st s.streams b.distinct q));
          })
  ]

  -- What `_stream` hands out stands in the store under the run.
  pub get-stream_of : get r (stream_of r s).1.streams ≡ some (stream_of r s).0
  unfolding stream_of move_to_end
  get-stream_of = elim (Option-cases (get r s.streams)) [
    | inl e ↦ rw (stream_of, e) (get-put_self r new_stream (roomed s))
    | inr (st, e) ↦ rw (stream_of, e) (ground (arith, get-del-append r st s.streams b.distinct r))
  ]

  pub limits-stream_of :
      ((stream_of r s).1.max_streams ≡ s.max_streams)
      × ((stream_of r s).1.max_events_per_stream ≡ s.max_events_per_stream)
  unfolding stream_of
  limits-stream_of = elim (Option-cases (get r s.streams)) [
    | inl e ↦ rw (stream_of, e) (refl, refl)
    | inr (st, e) ↦ rw (stream_of, e) (refl, refl)
  ]

put_stream-IsBounded :
    (r : ℕ) (st st' : MemoryStream) (s : EventStore)
    → IsBounded s
    → get r s.streams ≡ some st
    → Within s.max_events_per_stream (length st'.events)
    → IsBounded (record s { streams = put r st' s.streams })
put_stream-IsBounded r st st' s b there w = record {
  streams_capacity = b.streams_capacity;
  events_capacity = b.events_capacity;
  distinct = put-Distinct r st' s.streams b.distinct;
  streams =
      Within-le s.max_streams _ (length s.streams) (ground (arith, length-put r st' s.streams))
        b.streams;
  events = λ q x h. elim (Bool-cases (r == q)) [
    | inl same ↦
        Within-same s.max_events_per_stream st' x (ground (arith, get-put r q st' s.streams)) w
    | inr other ↦ b.events q x (ground (arith, get-put r q st' s.streams))
  ];
}

-- Publishing any event to a bounded store leaves no more streams than `max_streams` and no more
-- events in a stream than `max_events_per_stream`.
pub publish-IsBounded : (e : RunEvent) (s : EventStore) → IsBounded s → IsBounded (publish e s)
unfolding publish
publish-IsBounded e s b =
    let st = (stream_of e.run_id s).0 in
    let s' = (stream_of e.run_id s).1 in
    let b' = stream_of-IsBounded e.run_id s b in
    let limits = limits-stream_of e.run_id s b in
    elim (Bool-cases st.terminal) [
      | inl t ↦ rw (publish, t) b'
      | inr t ↦
          rw (publish, t)
            (put_stream-IsBounded e.run_id st (append s.max_events_per_stream e st) s' b'
              (get-stream_of e.run_id s b)
              (rw limits.1 (
                append_bound s.max_events_per_stream e st
                  (rw limits.1 at (b'.events e.run_id st (get-stream_of e.run_id s b))))))
    ]
