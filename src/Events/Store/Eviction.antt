-- ===== src/Events/Store/Eviction.antt =====
-- What publishing to app/events/store.py's in-memory transport does to other streams.
use mini_alpha.Common.{
  ℕ, ◌≡◌, ◌≢◌, ◌⊎◌, Bool, true, false, some, [], ◌∷◌, nat_eq, any, arith, is_some, Option-cases,
  Bool-cases, inl, inr,
}
use mini_alpha.Common.Dict.{
  Dict, get, values, get-put, get-put_self, Distinct, get-del, get-del-append,
}
use mini_alpha.Events.Models.{RunEvent}
use mini_alpha.Events.Store.Bounds.{IsBounded, get-stream_of}
use mini_alpha.Events.Store.{
  EventStore, MemoryStream, new_stream, append, publish, stream_of, evict, first_terminal,
  move_to_end, is_full,
}

abbrev pub has_terminal : Dict ℕ MemoryStream → Bool
has_terminal streams = any (λ x. x.terminal) (values streams)

first_terminal-terminal :
    (first : ℕ) (streams : Dict ℕ MemoryStream)
    → Distinct streams
    → has_terminal streams ≡ true
    → (x : MemoryStream) × (get (first_terminal first streams) streams ≡ some x)
      × (x.terminal ≡ true)
unfolding first_terminal get
first_terminal-terminal first [] d h = cc
first_terminal-terminal first ((r, st) ∷ streams) d h = elim (Bool-cases st.terminal) [
  | inl t ↦ (st, ground arith, t)
  | inr t ↦
      let (x, there, over) = first_terminal-terminal first streams d.1 (ground arith) in
      (x, ground (arith, d.0), over)
]

-- An eviction takes a terminal stream if there is one, so it forgets no live stream then.
evict-live :
    (q : ℕ) (x : MemoryStream) (streams : Dict ℕ MemoryStream)
    → Distinct streams
    → has_terminal streams ≡ true
    → get q streams ≡ some x
    → x.terminal ≡ false
    → get q (evict streams) ≡ some x
unfolding evict
evict-live q x [] d h g live = g
evict-live q x ((r, st) ∷ streams) d h g live =
    let all = (r, st) ∷ streams in
    let (y, there, over) = first_terminal-terminal r all d h in
    ground (arith, get-del (first_terminal r all) q all d, there, over)

module _ (e : RunEvent) (s : EventStore) (b : IsBounded s) where
  stream_of-others :
      (q : ℕ) (x : MemoryStream)
      → get q s.streams ≡ some x
      → (is_some (get e.run_id s.streams) ≡ true)
        ⊎ (is_full s.max_streams s.streams ≡ false)
        ⊎ (has_terminal s.streams ≡ true) × (x.terminal ≡ false)
      → q ≢ e.run_id
      → get q (stream_of e.run_id s).1.streams ≡ some x
  unfolding stream_of move_to_end
  stream_of-others q x g why ne = elim (Option-cases (get e.run_id s.streams)) [
    | inr (st, h) ↦
        rw (stream_of, h) (ground (arith, get-del-append e.run_id st s.streams b.distinct q))
    | inl h ↦ elim (Bool-cases (is_full s.max_streams s.streams)) [
      | inr f ↦ rw (stream_of, h, f) (ground (arith, get-put e.run_id q new_stream s.streams))
      | inl f ↦
          rw (stream_of, h, f)
            (ground (
              arith,
              get-put e.run_id q new_stream (evict s.streams),
              evict-live q x s.streams b.distinct,
            ))
    ]
  ]

  -- Publishing an event to a bounded store leaves the stream of every other run as it was, if the
  -- event's run has a stream already, or the store is not full, or the other stream has not ended
  -- and some stream has.
  pub publish-other_stream :
      (q : ℕ) (x : MemoryStream)
      → get q s.streams ≡ some x
      → (is_some (get e.run_id s.streams) ≡ true)
        ⊎ (is_full s.max_streams s.streams ≡ false)
        ⊎ (has_terminal s.streams ≡ true) × (x.terminal ≡ false)
      → q ≢ e.run_id
      → get q (publish e s).streams ≡ some x
  unfolding publish
  publish-other_stream q x g why ne =
      let kept = stream_of-others q x g why ne in
      elim (Bool-cases (stream_of e.run_id s).0.terminal) [
        | inl t ↦ rw (publish, t) kept
        | inr t ↦
            rw (publish, t)
              (ground (
                arith,
                get-put e.run_id q (append s.max_events_per_stream e (stream_of e.run_id s).0)
                    (stream_of e.run_id s).1.streams,
              ))
      ]

  -- An event of a run whose stream has ended changes no stream at all, that run's included.
  pub publish-ended_stream :
      (st : MemoryStream)
      → get e.run_id s.streams ≡ some st
      → st.terminal ≡ true
      → (q : ℕ) → get q (publish e s).streams ≡ get q s.streams
  unfolding publish stream_of move_to_end
  publish-ended_stream st h t q =
      rw (publish, stream_of, h, t)
        (ground (arith, get-del-append e.run_id st s.streams b.distinct q))

  -- An event of a run whose stream has not ended, or that has no stream, is appended to it.
  pub publish-own_stream :
      get e.run_id (publish e s).streams
      ≡ some (append s.max_events_per_stream e (stream_of e.run_id s).0)
  unfolding publish append
  publish-own_stream = elim (Bool-cases (stream_of e.run_id s).0.terminal) [
    | inl t ↦ rw (publish, append, t) (get-stream_of e.run_id s b)
    | inr t ↦ rw (publish, append, t) (get-put_self e.run_id _ (stream_of e.run_id s).1.streams)
  ]
