-- ===== src/Events/Resilient.antt =====
-- app/events/store.py: `ResilientRunEventStore`, a primary transport backed by the in-memory one.
-- The primary is any `RunEventStore`; how its publication ends, a timeout included, is its answer.
pub mod FailOpen
use mini_alpha.Common.{
  ℕ, suc, ◌+◌, ◌≤◌, ◌≡◌, refl, ap, Bool, true, false, not, Option, none, some, List, [], ◌∷◌, ◌++◌,
  ◌==◌, nat_eq, ltb, leb, if◌then◌else◌, any, length, length-append, arith, String, last?,
  Bool-cases, inl, inr, ◌||◌,
}
use mini_alpha.Events.Models.{RunEvent}
use mini_alpha.Events.Store
use mini_alpha.Events.Store.Bounds.{IsBounded, publish-IsBounded}
use mini_alpha.Events.Store.{EventStore}

-- The protocol `RunEventStore`, over the transport's own state. `publish` answers the name of the
-- exception's type, if it raises or is cancelled at the time limit.
pub record Transport : Type 1 where
  pub State : Type 0
  pub publish : RunEvent → State → Option String × State
  pub exists : ℕ → State → Bool
  pub latest : ℕ → State → Option RunEvent × State

-- `EventTransportDiagnostic`; its operation is always `publish`.
pub record Diagnostic : Type 0 where
  pub error_type : String
  pub timestamp : ℕ
  pub run_id : ℕ
  pub event_id : ℕ

-- Appending to a `deque(maxlen=n)` drops from the front.
pub drop_oldest {ℓ} : {A : Type ℓ} → ℕ → List A → List A
drop_oldest n [] = []
drop_oldest n (x ∷ xs) = if ltb n (suc (length xs)) then drop_oldest n xs else x ∷ xs

abbrev pub remove_id : ℕ → List ℕ → List ℕ
remove_id r [] = []
remove_id r (q ∷ ids) = if q == r then remove_id r ids else q ∷ remove_id r ids

abbrev pub is_member : ℕ → List ℕ → Bool
is_member r ids = any (λ q. q == r) ids

module _ (primary : Transport) where
  open primary use {State}

  pub record ResilientStore : Type 0 where
    pub remote : State
    pub fallback : EventStore
    pub diagnostics : List Diagnostic
    pub max_diagnostics : ℕ
    pub max_degraded_runs : ℕ
    pub degraded_runs : List ℕ

  -- The store, and whether this is the run's first failure. The `while` loop pops the oldest runs.
  unfoldable pub mark_degraded : ℕ → ResilientStore → Bool × ResilientStore
  unfolding drop_oldest
  mark_degraded r s = (
    not (is_member r s.degraded_runs),
    record s {
      degraded_runs = drop_oldest s.max_degraded_runs (remove_id r s.degraded_runs ++ r ∷ []);
    },
  )

  abbrev after_publish : ℕ → RunEvent → Option String → ResilientStore → ResilientStore
  after_publish now event none s = s
  after_publish now event (some error_type) s =
      let (first_failure, s') = mark_degraded event.run_id s in
      record s' {
        diagnostics = drop_oldest s.max_diagnostics (
            s.diagnostics
            ++ record {
              error_type = error_type;
              timestamp = now;
              run_id = event.run_id;
              event_id = event.event_id;
            }
              ∷ []);
      }

  unfoldable pub publish : ℕ → RunEvent → ResilientStore → ResilientStore
  unfolding mark_degraded
  publish now event s =
      let (outcome, remote) = primary.publish event s.remote in
      after_publish now event outcome
        (record s { fallback = Store.publish event s.fallback; remote = remote })

  unfoldable pub exists : ℕ → ResilientStore → Bool
  exists r s =
      if is_member r s.degraded_runs
      then Store.exists r s.fallback
      else primary.exists r s.remote || Store.exists r s.fallback

  abbrev or_fallback : ℕ → ResilientStore → Option RunEvent → Option RunEvent × ResilientStore
  or_fallback r s (some event) = (some event, s)
  or_fallback r s none =
      let (event, fallback) = Store.latest r s.fallback in (event, record s { fallback = fallback })

  unfoldable pub latest : ℕ → ResilientStore → Option RunEvent × ResilientStore
  latest r s =
      if is_member r s.degraded_runs
      then (let (event, fallback) = Store.latest r s.fallback in
          (event, record s { fallback = fallback }))
      else (let (event, remote) = primary.latest r s.remote in
          or_fallback r (record s { remote = remote }) event)
