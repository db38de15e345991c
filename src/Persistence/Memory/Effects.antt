-- ===== src/Persistence/Memory/Effects.antt =====
-- The methods of app/persistence/memory.py as transitions of the abstract machine.
use mini_alpha.Common.{
  ℕ, ◌+◌, ◌≡◌, ◌⊎◌, inl, inr, refl, sym, true, false, Option, none, some, arith, any, nat_eq,
  String, List, Option-cases, Bool-cases,
}
use mini_alpha.Common.Dict.{Dict, get, put, get-put_self, put-get, values}
use mini_alpha.Common.Value.{Fields, Value}
use mini_alpha.Persistence.Memory.Invariant.{Threads, IsValid, SameRun, SameThread, idle_of_absent}
use mini_alpha.Persistence.Memory.Transition.{Transition, stay, finish, start}
use mini_alpha.Persistence.Memory.{
  FreshIds, is_active_in, fail_run, cancel_run, complete_run, admit_run, known_run, store_artifacts,
  parsed_artifacts, checkpoint_changed, new_run, new_thread, reject_active, known_thread,
  replay_admission, new_admission, differs,
}
use mini_alpha.Persistence.Memory.State.{Repository, ok, err, is_active, active_run}
use mini_alpha.Persistence.Artifacts
use mini_alpha.Persistence.Models.{
  ConversationThread, ConversationRun, completed, in_progress, RepositoryError,
}

-- What `_require_active_run` finds in a valid repository: an error, or an active run and its thread.
pub record Active (s : Repository) (r : ℕ) : Type 0 where
  pub run : ConversationRun
  pub thread : ConversationThread
  pub there : get r s.runs ≡ some run
  pub active : is_active run.status ≡ true
  pub home : get run.thread_id s.threads ≡ some thread
  pub accepted : active_run (get r s.runs) ≡ ok run

pub home_of :
    (s : Repository) (v : IsValid s) (r : ℕ) (x : ConversationRun)
    → get r s.runs ≡ some x
    → (t : ConversationThread) × (get x.thread_id s.threads ≡ some t)
home_of s v r x there = elim (Option-cases (get x.thread_id s.threads)) [
  | inl e ↦ absurd (ground (arith, v.run_thread r x there))
  | inr t ↦ t
]

pub Active-cases :
    (s : Repository) (v : IsValid s) (r : ℕ)
    → ((e : RepositoryError) × (active_run (get r s.runs) ≡ err e)) ⊎ Active s r
unfolding active_run
Active-cases s v r = elim (Option-cases (get r s.runs)) [
  | inl e ↦ inl (RepositoryError.run_not_found, rw e)
  | inr (x, e) ↦ elim (Bool-cases (is_active x.status)) [
    | inl a ↦
        let (t, home) = home_of s v r x e in
        inr (record {
          run = x;
          thread = t;
          there = e;
          active = a;
          home = home;
          accepted = ground arith;
        })
    | inr a ↦ inl (RepositoryError.run_lifecycle_conflict, ground arith)
  ]
]

abbrev keys_with : Option ℕ → ℕ → Dict ℕ ℕ → Dict ℕ ℕ
keys_with none r keys = keys
keys_with (some k) r keys = put k r keys

pub ended :
    {s : Repository} {r : ℕ} (a : Active s r) (s' : Repository) (after : ConversationRun)
    (thread' : ConversationThread)
    → SameRun after a.run
    → is_active after.status ≡ false
    → SameThread thread' a.thread
    → (after.status ≡ completed) ⊎ (thread'.latest_checkpoint_id ≡ a.thread.latest_checkpoint_id)
    → s'.runs ≡ put r after s.runs
    → s'.threads ≡ put a.run.thread_id thread' s.threads
    → s'.request_keys ≡ s.request_keys
    → Transition s s'
ended {s} {r} a s' after thread' same over kept c p q k = finish r (record {
  before = a.run;
  after = after;
  thread = a.thread;
  thread' = thread';
  there = a.there;
  active = a.active;
  over = over;
  same = same;
  home = a.home;
  kept = kept;
  checkpoint = c;
  runs = p;
  threads = q;
  keys = k;
})

pub stored_cases {ℓ} :
    {A : Type ℓ} (x : Artifacts.Result A)
    → ((e : Artifacts.Invalid) × (x ≡ Artifacts.err e)) ⊎ ((a : A) × (x ≡ Artifacts.ok a))
stored_cases (Artifacts.ok a) = inr (a, refl)
stored_cases (Artifacts.err e) = inl (e, refl)

module _ (s : Repository) (v : IsValid s) (now r : ℕ) where
  pub fail_run-Transition : (code message : String) → Transition s (fail_run now r code message s).1
  unfolding fail_run
  fail_run-Transition code message = elim (Active-cases s v r) [
    | inl (e, refused) ↦ rw (refused) stay
    | inr a ↦
        rw (a.accepted, a.home)
          (ended a _ _ _ (ground arith) refl (ground arith) (inr refl) refl refl refl)
  ]

  module _ (parse_uuid : Value → Option ℕ) (uuid4 : ℕ → ℕ)
      (tool_calls artifacts : List Fields) where
    pub complete_run-Transition :
        (expected : Option String) (checkpoint answer : String)
        → Transition s
            (complete_run parse_uuid uuid4 now r expected checkpoint answer tool_calls artifacts
              s).1
    unfolding complete_run
    complete_run-Transition expected checkpoint answer = elim (Active-cases s v r) [
      | inl (e, refused) ↦ rw (refused) stay
      | inr a ↦ elim (Bool-cases (checkpoint_changed a.thread expected)) [
        | inl c ↦ rw (a.accepted, a.home, c) stay
        | inr c ↦ elim (stored_cases (store_artifacts parse_uuid uuid4 r now 0 artifacts)) [
          | inl (e, bad) ↦ rw (a.accepted, a.home, c, bad, parsed_artifacts) stay
          | inr (xs, good) ↦
              rw (a.accepted, a.home, c, good, parsed_artifacts)
                (ended a _ _ _ (ground arith) refl (ground arith) (inl refl) refl refl refl)
        ]
      ]
    ]

    -- A cancellation whose artifacts are refused ends the run and leaves its thread as it was.
    pub cancel_run-Transition :
        (partial_answer : String)
        → Transition s (cancel_run parse_uuid uuid4 now r partial_answer tool_calls artifacts s).1
    unfolding cancel_run
    cancel_run-Transition partial_answer = elim (Active-cases s v r) [
      | inl (e, refused) ↦ rw (refused) stay
      | inr a ↦ elim (stored_cases (store_artifacts parse_uuid uuid4 r now 0 artifacts)) [
        | inl (e, bad) ↦
            rw (a.accepted, bad, parsed_artifacts)
              (ended a _ _ a.thread (ground arith) refl (ground arith) (inr refl) refl
                (sym (put-get a.run.thread_id a.thread s.threads a.home)) refl)
        | inr (xs, good) ↦
            rw (a.accepted, good, parsed_artifacts, a.home)
              (ended a _ _ _ (ground arith) refl (ground arith) (inr refl) refl refl refl)
      ]
    ]

pub replay_admission-unchanged :
    (s : Repository) (r : ℕ) (t : Option ℕ) (message : String)
    → (replay_admission r t message s).1 ≡ s
unfolding replay_admission
replay_admission-unchanged s r t message = elim (Option-cases (get r s.runs)) [
  | inl e ↦ rw e
  | inr (x, e) ↦ elim (Bool-cases (differs x t message)) [
    | inl d ↦ rw (e, d)
    | inr d ↦ elim (Option-cases (get x.thread_id s.threads)) [
      | inl h ↦ rw (e, d, h)
      | inr (y, h) ↦ rw (e, d, h)
    ]
  ]
]

-- The ids that an admission draws are not in use.
pub record IsFresh (fresh : FreshIds) (s : Repository) : Type 0 where
  pub run : get fresh.run_id s.runs ≡ none
  pub thread : get fresh.thread_id s.threads ≡ none

module _ (fresh : FreshIds) (now : ℕ) (message : String) (s : Repository) (v : IsValid s)
    (f : IsFresh fresh s) where
  abbrev after_admission : ℕ → ConversationThread → Threads → Option ℕ → Dict ℕ ℕ → Repository
  after_admission t thread base key keys = record s {
    threads =
        put t
          (record thread {
            status = in_progress;
            next_turn_index = thread.next_turn_index + 1;
            updated_at = now;
          })
          base;
    runs = put fresh.run_id (new_run fresh now t thread message key) s.runs;
    request_keys = keys;
  }

  admitted :
      (t : ℕ) (thread : ConversationThread) (base : Threads) (key : Option ℕ)
      → known_run key s ≡ none
      → (base ≡ s.threads)
        ⊎ ((get t s.threads ≡ none) × (base ≡ put t thread s.threads) × (thread.thread_id ≡ t))
      → get t base ≡ some thread
      → any (is_active_in t) (values s.runs) ≡ false
      → (keys : Dict ℕ ℕ) → keys ≡ keys_with key fresh.run_id s.request_keys
      → Transition s (after_admission t thread base key keys)
  admitted t thread base key unknown origin h idle keys e = start (record {
    run = new_run fresh now t thread message key;
    thread = thread;
    thread' = record thread {
      status = in_progress;
      next_turn_index = thread.next_turn_index + 1;
      updated_at = now;
    };
    base = base;
    origin = origin;
    here = h;
    unused = f.run;
    turn = refl;
    idle = idle;
    kept = refl;
    next = refl;
    checkpoint = refl;
    runs = refl;
    threads = refl;
    keys = keys_cases key unknown keys e;
  })
    where
      keys_cases :
          (key : Option ℕ)
          → known_run key s ≡ none
          → (keys : Dict ℕ ℕ) → keys ≡ keys_with key fresh.run_id s.request_keys
          → (keys ≡ s.request_keys)
            ⊎ ((k : ℕ) × (key ≡ some k)
                × (get k s.request_keys ≡ none)
                × (keys ≡ put k fresh.run_id s.request_keys))
      keys_cases none u keys e = inl e
      keys_cases (some k) u keys e = inr (k, refl, u, e)

  new_admission-Transition :
      (thread_id key : Option ℕ)
      → known_run key s ≡ none
      → Transition s (new_admission fresh now thread_id message key s).1
  unfolding new_admission
  new_admission-Transition none none unknown =
      rw (reject_active, idle_of_absent v fresh.thread_id f.thread)
        (admitted fresh.thread_id (new_thread fresh.thread_id now) _ none unknown
          (inr (f.thread, refl, refl)) (get-put_self fresh.thread_id _ s.threads)
          (idle_of_absent v fresh.thread_id f.thread) s.request_keys refl)
  new_admission-Transition none (some k) unknown =
      rw (reject_active, idle_of_absent v fresh.thread_id f.thread)
        (admitted fresh.thread_id (new_thread fresh.thread_id now) _ (some k) unknown
          (inr (f.thread, refl, refl)) (get-put_self fresh.thread_id _ s.threads)
          (idle_of_absent v fresh.thread_id f.thread) _ refl)
  new_admission-Transition (some t) none unknown = elim (Option-cases (get t s.threads)) [
    | inl e ↦ rw (e, known_thread) stay
    | inr (thread, e) ↦ elim (Bool-cases (any (is_active_in t) (values s.runs))) [
      | inl busy ↦ rw (known_thread, e, reject_active, busy) stay
      | inr idle ↦
          rw (known_thread, e, reject_active, idle)
            (admitted t thread s.threads none unknown (inl refl) e idle s.request_keys refl)
    ]
  ]
  new_admission-Transition (some t) (some k) unknown = elim (Option-cases (get t s.threads)) [
    | inl e ↦ rw (e, known_thread) stay
    | inr (thread, e) ↦ elim (Bool-cases (any (is_active_in t) (values s.runs))) [
      | inl busy ↦ rw (known_thread, e, reject_active, busy) stay
      | inr idle ↦
          rw (known_thread, e, reject_active, idle)
            (admitted t thread s.threads (some k) unknown (inl refl) e idle _ refl)
    ]
  ]

  -- Every admission, whether it replays, refuses or starts a run, is a transition.
  pub admit_run-Transition :
      (thread_id key : Option ℕ) → Transition s (admit_run fresh now thread_id message key s).1
  unfolding admit_run
  admit_run-Transition thread_id key = elim (Option-cases (known_run key s)) [
    | inl e ↦ rw (admit_run, e) (new_admission-Transition thread_id key e)
    | inr (r, e) ↦ rw (admit_run, e, replay_admission-unchanged) stay
  ]
