-- ===== src/Events/Resilient/FailOpen.antt =====
-- The resilient transport of app/events/store.py when its primary transport fails.
use mini_alpha.Common.{
  ℕ, zero, suc, ◌-◌, ◌≤◌, ◌≡◌, refl, true, false, Option, none, some, List, [], ◌∷◌, ◌++◌, nat_eq,
  length, length-append, arith, String, last?, drop,
}
use mini_alpha.Events.Models.{RunEvent}
use mini_alpha.Events.Resilient.{
  Transport, ResilientStore, publish, mark_degraded, after_publish, drop_oldest, is_member,
  remove_id, exists, latest,
}
use mini_alpha.Events.Store
use mini_alpha.Events.Store.Bounds.{IsBounded, publish-IsBounded}
use mini_alpha.Events.Store.Eviction.{publish-own_stream}
use mini_alpha.Events.Store.{EventStore, MemoryStream, stream_of, append, trim}

length-drop_oldest {ℓ} : {A : Type ℓ} (n : ℕ) (xs : List A) → length (drop_oldest n xs) ≤ n
unfolding drop_oldest
length-drop_oldest n [] = omega arith
length-drop_oldest n (x ∷ xs) = ground (arith, length-drop_oldest n xs)

last-append {ℓ} : {A : Type ℓ} (xs : List A) (x : A) → last? (xs ++ x ∷ []) ≡ some x
last-append [] x = refl
last-append (y ∷ []) x = refl
last-append (y ∷ z ∷ xs) x = last-append (z ∷ xs) x

last-drop_oldest {ℓ} :
    {A : Type ℓ} (n : ℕ) (xs : List A) (x : A)
    → 1 ≤ n
    → last? (drop_oldest n (xs ++ x ∷ [])) ≡ some x
unfolding drop_oldest
last-drop_oldest n [] x h = ground arith
last-drop_oldest n (y ∷ xs) x h = ground (arith, last-drop_oldest n xs x h, last-append (y ∷ xs) x)

is_member-append : (r : ℕ) (xs : List ℕ) → is_member r (xs ++ r ∷ []) ≡ true
is_member-append r [] = ground arith
is_member-append r (x ∷ xs) = ground (arith, is_member-append r xs)

is_member-drop_oldest :
    (n r : ℕ) (xs : List ℕ) → 1 ≤ n → is_member r (drop_oldest n (xs ++ r ∷ [])) ≡ true
unfolding drop_oldest
is_member-drop_oldest n r [] h = ground arith
is_member-drop_oldest n r (x ∷ xs) h =
    ground (arith, is_member-drop_oldest n r xs h, is_member-append r (x ∷ xs))

last-drop {ℓ} :
    {A : Type ℓ} (k : ℕ) (xs : List A) (x : A)
    → k ≤ length xs
    → last? (drop k (xs ++ x ∷ [])) ≡ some x
last-drop zero xs x h = last-append xs x
last-drop (suc k) [] x h = elim h [ ]
last-drop (suc k) (y ∷ xs) x h = last-drop k xs x (omega arith)

last-trim :
    (m : Option ℕ) (xs : List RunEvent) (e : RunEvent)
    → Store.is_capacity m ≡ true
    → last? (trim m (xs ++ e ∷ [])) ≡ some e
last-trim none xs e h = last-append xs e
last-trim (some n) xs e h =
    ground (
      arith,
      last-append xs e,
      length-append xs (e ∷ []),
      last-drop (length (xs ++ e ∷ []) - n) xs e,
    )

module _ (primary : Transport) (now : ℕ) (event : RunEvent) where
  record Kept (s t : ResilientStore primary) : Type 0 where
    fallback : t.fallback ≡ s.fallback
    few_diagnostics : length t.diagnostics ≤ s.max_diagnostics
    few_degraded : length t.degraded_runs ≤ s.max_degraded_runs

  after_publish-Kept :
      (outcome : Option String) (s : ResilientStore primary)
      → length s.diagnostics ≤ s.max_diagnostics
      → length s.degraded_runs ≤ s.max_degraded_runs
      → Kept s (after_publish primary now event outcome s)
  unfolding mark_degraded
  after_publish-Kept none s d g = record { fallback = refl; few_diagnostics = d; few_degraded = g }
  after_publish-Kept (some error_type) s d g = record {
    fallback = refl;
    few_diagnostics = length-drop_oldest s.max_diagnostics _;
    few_degraded = length-drop_oldest s.max_degraded_runs _;
  }

  -- However the primary transport answers a publication, the local buffer records the event as an
  -- in-memory store of its own would, and stays within its bounds; and the diagnostics and the
  -- degraded runs stay within theirs.
  pub publish-fallback :
      (s : ResilientStore primary)
      → IsBounded s.fallback
      → length s.diagnostics ≤ s.max_diagnostics
      → length s.degraded_runs ≤ s.max_degraded_runs
      → ((publish primary now event s).fallback ≡ Store.publish event s.fallback)
        × IsBounded (publish primary now event s).fallback
        × (length (publish primary now event s).diagnostics ≤ s.max_diagnostics)
        × (length (publish primary now event s).degraded_runs ≤ s.max_degraded_runs)
  unfolding publish
  publish-fallback s b d g =
      let (outcome, remote) = primary.publish event s.remote in
      let s' : ResilientStore primary = record s {
        fallback = Store.publish event s.fallback;
        remote = remote;
      } in
      let k = after_publish-Kept outcome s' d g in
      (
        k.fallback,
        rw k.fallback (publish-IsBounded event s.fallback b),
        k.few_diagnostics,
        k.few_degraded,
      )

  latest_in_buffer :
      (s : EventStore)
      → IsBounded s
      → (stream_of event.run_id s).0.terminal ≡ false
      → (Store.latest event.run_id (Store.publish event s)).0 ≡ some event
  unfolding Store.latest append
  latest_in_buffer s b live =
      rw (Store.latest, publish-own_stream event s b, append, live)
        (last-trim s.max_events_per_stream (stream_of event.run_id s).0.events event
          b.events_capacity)

  -- When the primary transport fails to publish an event of a run that has not ended locally, the
  -- run becomes degraded, the newest diagnostic names the failure and the event, and both `exists`
  -- and `latest` then answer from the local buffer: the run is there, and its latest event is this.
  pub publish-failed :
      (s : ResilientStore primary) (error_type : String)
      → IsBounded s.fallback
      → 1 ≤ s.max_diagnostics
      → 1 ≤ s.max_degraded_runs
      → (stream_of event.run_id s.fallback).0.terminal ≡ false
      → (primary.publish event s.remote).0 ≡ some error_type
      → (last? (publish primary now event s).diagnostics
          ≡ some (record {
            error_type = error_type;
            timestamp = now;
            run_id = event.run_id;
            event_id = event.event_id;
          }))
        × (is_member event.run_id (publish primary now event s).degraded_runs ≡ true)
        × (exists primary event.run_id (publish primary now event s) ≡ true)
        × ((latest primary event.run_id (publish primary now event s)).0 ≡ some event)
  unfolding publish mark_degraded exists latest Store.exists
  publish-failed s error_type b p q live failed =
      let degraded =
        is_member-drop_oldest s.max_degraded_runs event.run_id
          (remove_id event.run_id s.degraded_runs) q in
      rw (publish, failed)
        (
          last-drop_oldest s.max_diagnostics s.diagnostics _ p,
          degraded,
          rw (degraded, publish-own_stream event s.fallback b) refl,
          rw (degraded) (latest_in_buffer s.fallback b live),
        )
