-- ===== src/Persistence/Memory/Transition.antt =====
-- An abstract view of app/persistence/memory.py: the repository as a machine that either keeps its
-- tables, admits one run to an idle thread, or ends one active run.
use mini_alpha.Common.{
  ℕ, ◌+◌, ◌≡◌, ◌⊎◌, inl, inr, refl, true, false, none, some, arith, any, nat_eq,
}
use mini_alpha.Common.Dict.{get, put, get-put, values}
use mini_alpha.Persistence.Memory.Invariant.{
  Threads, WellFormed, IsValid, SameRun, SameThread, put-run-WellFormed, put-thread-WellFormed,
  new-thread-WellFormed, new-run-WellFormed, put-key-WellFormed,
}
use mini_alpha.Persistence.Memory.{is_active_in}
use mini_alpha.Persistence.Memory.State.{Repository, is_active}
use mini_alpha.Persistence.Models.{ConversationThread, ConversationRun, completed}

-- The run `r` goes from active to an outcome, and only a completion moves its thread's checkpoint.
pub record Ended (s : Repository) (r : ℕ) (s' : Repository) : Type 0 where
  pub before : ConversationRun
  pub after : ConversationRun
  pub thread : ConversationThread
  pub thread' : ConversationThread
  pub there : get r s.runs ≡ some before
  pub active : is_active before.status ≡ true
  pub over : is_active after.status ≡ false
  pub same : SameRun after before
  pub home : get before.thread_id s.threads ≡ some thread
  pub kept : SameThread thread' thread
  pub checkpoint :
      (after.status ≡ completed) ⊎ (thread'.latest_checkpoint_id ≡ thread.latest_checkpoint_id)
  pub runs : s'.runs ≡ put r after s.runs
  pub threads : s'.threads ≡ put before.thread_id thread' s.threads
  pub keys : s'.request_keys ≡ s.request_keys

-- A run under an unused id joins an idle thread, which is there or is made for it.
pub record Admitted (s s' : Repository) : Type 0 where
  pub run : ConversationRun
  pub thread : ConversationThread
  pub thread' : ConversationThread
  pub base : Threads
  pub origin :
      (base ≡ s.threads)
      ⊎ ((get run.thread_id s.threads ≡ none)
          × (base ≡ put run.thread_id thread s.threads)
          × (thread.thread_id ≡ run.thread_id))
  pub here : get run.thread_id base ≡ some thread
  pub unused : get run.run_id s.runs ≡ none
  pub turn : run.turn_index ≡ thread.next_turn_index
  pub idle : any (is_active_in run.thread_id) (values s.runs) ≡ false
  pub kept : thread'.thread_id ≡ thread.thread_id
  pub next : thread'.next_turn_index ≡ thread.next_turn_index + 1
  pub checkpoint : thread'.latest_checkpoint_id ≡ thread.latest_checkpoint_id
  pub runs : s'.runs ≡ put run.run_id run s.runs
  pub threads : s'.threads ≡ put run.thread_id thread' base
  pub keys :
      (s'.request_keys ≡ s.request_keys)
      ⊎ ((k : ℕ) × (run.request_key ≡ some k)
          × (get k s.request_keys ≡ none)
          × (s'.request_keys ≡ put k run.run_id s.request_keys))

pub data Transition (s : Repository) : Repository → Type 0 where
  stay : Transition s s
  finish : {s' : Repository} (r : ℕ) → Ended s r s' → Transition s s'
  start : {s' : Repository} → Admitted s s' → Transition s s'

pub data Reach (s : Repository) : Repository → Type 0 where
  here : Reach s s
  next : {t u : Repository} → Reach s t → Transition t u → Reach s u

Ended-IsValid : {s s' : Repository} {r : ℕ} → Ended s r s' → IsValid s → IsValid s'
Ended-IsValid {s} {s'} {r} e v =
    rw (e.runs, e.threads, e.keys)
      (put-run-WellFormed
        (put-thread-WellFormed v e.before.thread_id e.thread e.thread' e.home e.kept) r e.before
        e.after e.there e.same e.over)

base_WellFormed :
    {s s' : Repository} (a : Admitted s s') → IsValid s → WellFormed a.base s.runs s.request_keys
base_WellFormed {s} a v = elim a.origin [
  | inl e ↦ rw e v
  | inr (absent, e, own) ↦
      rw e (new-thread-WellFormed v a.run.thread_id a.thread a.thread absent own)
]

Admitted-IsValid : {s s' : Repository} → Admitted s s' → IsValid s → IsValid s'
Admitted-IsValid {s} {s'} a v =
    let w =
      new-run-WellFormed (base_WellFormed a v) a.run.run_id a.run a.thread a.thread' a.unused a.here
        refl a.turn a.idle a.kept a.next in
    elim a.keys [
      | inl e ↦ rw (a.runs, a.threads, e) w
      | inr (k, own, absent, e) ↦
          rw (a.runs, a.threads, e)
            (put-key-WellFormed k a.run.run_id a.run w
              (ground (arith, get-put a.run.run_id a.run.run_id a.run s.runs)) own)
    ]

-- Every transition keeps the invariant.
pub Transition-IsValid : {s s' : Repository} → Transition s s' → IsValid s → IsValid s'
Transition-IsValid stay v = v
Transition-IsValid (finish r e) v = Ended-IsValid e v
Transition-IsValid (start a) v = Admitted-IsValid a v

pub Reach-IsValid : {s s' : Repository} → Reach s s' → IsValid s → IsValid s'
Reach-IsValid here v = v
Reach-IsValid (next r t) v = Transition-IsValid t (Reach-IsValid r v)

pub Reach-trans : {s t u : Repository} → Reach s t → Reach t u → Reach s u
Reach-trans r here = r
Reach-trans r (next q t) = next (Reach-trans r q) t
