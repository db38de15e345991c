-- ===== src/Persistence/Memory/Invariant.antt =====
-- The invariant of the tables of app/persistence/memory.py, and the writes of its methods.
use mini_alpha.Common.{
  ℕ, ◌+◌, ◌<◌, ◌≡◌, true, false, none, some, [], ◌∷◌, arith, any, is_some, nat_eq, Bool-cases, inl,
  inr,
}
use mini_alpha.Common.Dict.{Dict, get, put, get-put, Distinct, put-Distinct, any-values, values}
use mini_alpha.Persistence.Memory.{is_active_in}
use mini_alpha.Persistence.Memory.State.{Repository, is_active}
use mini_alpha.Persistence.Models.{ConversationThread, ConversationRun}

abbrev pub Threads : Type 0
Threads = Dict ℕ ConversationThread

abbrev pub Runs : Type 0
Runs = Dict ℕ ConversationRun

pub record WellFormed (threads : Threads) (runs : Runs) (keys : Dict ℕ ℕ) : Type 0 where
  -- a run id stands once
  pub distinct : Distinct runs
  -- a run and a thread stand under their own id
  pub run_key : (r : ℕ) (x : ConversationRun) → get r runs ≡ some x → x.run_id ≡ r
  pub thread_key : (t : ℕ) (x : ConversationThread) → get t threads ≡ some x → x.thread_id ≡ t
  -- the thread of a run is there, and its next turn index is past the run's
  pub run_thread :
      (r : ℕ) (x : ConversationRun) → get r runs ≡ some x → is_some (get x.thread_id threads) ≡ true
  pub turn_lt :
      (r : ℕ) (x : ConversationRun) (t : ConversationThread)
      → get r runs ≡ some x
      → get x.thread_id threads ≡ some t
      → x.turn_index < t.next_turn_index
  -- a request key leads to a run that is there and that was admitted under the key
  pub key_run : (k r : ℕ) → get k keys ≡ some r → is_some (get r runs) ≡ true
  pub key_owner :
      (k r : ℕ) (x : ConversationRun)
      → get k keys ≡ some r
      → get r runs ≡ some x
      → x.request_key ≡ some k
  -- a thread has at most one active run, and no two runs with one turn index
  pub one_active :
      (r q : ℕ) (x y : ConversationRun)
      → get r runs ≡ some x
      → get q runs ≡ some y
      → x.thread_id ≡ y.thread_id
      → is_active x.status ≡ true
      → is_active y.status ≡ true
      → r ≡ q
  pub turn_unique :
      (r q : ℕ) (x y : ConversationRun)
      → get r runs ≡ some x
      → get q runs ≡ some y
      → x.thread_id ≡ y.thread_id
      → x.turn_index ≡ y.turn_index
      → r ≡ q

abbrev pub IsValid : Repository → Type 0
IsValid s = WellFormed s.threads s.runs s.request_keys

-- Two versions of a run that differ in its outcome alone.
pub record SameRun (x y : ConversationRun) : Type 0 where
  pub run_id : x.run_id ≡ y.run_id
  pub thread_id : x.thread_id ≡ y.thread_id
  pub turn_index : x.turn_index ≡ y.turn_index
  pub request_key : x.request_key ≡ y.request_key
  pub message : x.message ≡ y.message

pub record SameThread (x y : ConversationThread) : Type 0 where
  pub thread_id : x.thread_id ≡ y.thread_id
  pub next_turn_index : x.next_turn_index ≡ y.next_turn_index

module _ {threads : Threads} {runs : Runs} {keys : Dict ℕ ℕ} (w : WellFormed threads runs keys)
    (r : ℕ) (x y : ConversationRun) (there : get r runs ≡ some x) (same : SameRun y x)
    (over : is_active y.status ≡ false) where
  -- Ending a run keeps the invariant.
  pub put-run-WellFormed : WellFormed threads (put r y runs) keys
  put-run-WellFormed = record {
    distinct = put-Distinct r y runs w.distinct;
    run_key = λ q z h. ground (arith, get-put r q y runs, w.run_key q z, w.run_key r x);
    thread_key = w.thread_key;
    run_thread = λ q z h. ground (arith, get-put r q y runs, w.run_thread q z, w.run_thread r x);
    turn_lt = λ q z t h k. ground (arith, get-put r q y runs, w.turn_lt q z t, w.turn_lt r x t);
    key_run = λ k q h. ground (arith, get-put r q y runs, w.key_run k q);
    key_owner =
        λ k q z h p. ground (arith, get-put r q y runs, w.key_owner k q z, w.key_owner k r x);
    one_active = λ q p z u h k e a b.
        ground (arith, get-put r q y runs, get-put r p y runs, w.one_active q p z u);
    turn_unique = λ q p z u h k e i. ground (
      arith,
      get-put r q y runs,
      get-put r p y runs,
      w.turn_unique q p z u,
      w.turn_unique q r z x,
      w.turn_unique r p x u,
    );
  }

module _ {threads : Threads} {runs : Runs} {keys : Dict ℕ ℕ} (w : WellFormed threads runs keys)
    (t : ℕ) (x y : ConversationThread) where
  pub put-thread-WellFormed :
      get t threads ≡ some x → SameThread y x → WellFormed (put t y threads) runs keys
  put-thread-WellFormed there same = record {
    distinct = w.distinct;
    run_key = w.run_key;
    thread_key = λ q z h. ground (arith, get-put t q y threads, w.thread_key q z, w.thread_key t x);
    run_thread = λ q z h. ground (arith, get-put t z.thread_id y threads, w.run_thread q z);
    turn_lt = λ q z u h k.
        ground (arith, get-put t z.thread_id y threads, w.turn_lt q z u, w.turn_lt q z x);
    key_run = w.key_run;
    key_owner = w.key_owner;
    one_active = w.one_active;
    turn_unique = w.turn_unique;
  }

  pub new-thread-WellFormed :
      get t threads ≡ none → y.thread_id ≡ t → WellFormed (put t y threads) runs keys
  new-thread-WellFormed absent same = record {
    distinct = w.distinct;
    run_key = w.run_key;
    thread_key = λ q z h. ground (arith, get-put t q y threads, w.thread_key q z);
    run_thread = λ q z h. ground (arith, get-put t z.thread_id y threads, w.run_thread q z);
    turn_lt = λ q z u h k.
        ground (arith, get-put t z.thread_id y threads, w.turn_lt q z u, w.run_thread q z);
    key_run = w.key_run;
    key_owner = w.key_owner;
    one_active = w.one_active;
    turn_unique = w.turn_unique;
  }

-- No run in a table is active in a thread if the search says so.
pub not_active_of_any :
    (t r : ℕ) (x : ConversationRun) (runs : Runs)
    → any (is_active_in t) (values runs) ≡ false
    → get r runs ≡ some x
    → is_active_in t x ≡ false
unfolding get
not_active_of_any t r x [] h g = cc
not_active_of_any t r x ((q, y) ∷ runs) h g = ground (arith, not_active_of_any t r x runs)

module _ {threads : Threads} {runs : Runs} {keys : Dict ℕ ℕ} (w : WellFormed threads runs keys)
    (r : ℕ) (x : ConversationRun) (thread thread' : ConversationThread) (fresh : get r runs ≡ none)
    (here : get x.thread_id threads ≡ some thread) (own : x.run_id ≡ r)
    (turn : x.turn_index ≡ thread.next_turn_index)
    (idle : any (is_active_in x.thread_id) (values runs) ≡ false)
    (kept : thread'.thread_id ≡ thread.thread_id)
    (next : thread'.next_turn_index ≡ thread.next_turn_index + 1) where
  -- Adding a run to an idle thread keeps the invariant.
  pub new-run-WellFormed : WellFormed (put x.thread_id thread' threads) (put r x runs) keys
  new-run-WellFormed = record {
    distinct = put-Distinct r x runs w.distinct;
    run_key = λ q z h. ground (arith, get-put r q x runs, w.run_key q z);
    thread_key = λ q z h. ground (
      arith,
      get-put x.thread_id q thread' threads,
      w.thread_key q z,
      w.thread_key x.thread_id thread,
    );
    run_thread = λ q z h. ground (
      arith,
      get-put r q x runs,
      get-put x.thread_id z.thread_id thread' threads,
      w.run_thread q z,
    );
    turn_lt = λ q z u h k. ground (
      arith,
      get-put r q x runs,
      get-put x.thread_id z.thread_id thread' threads,
      w.turn_lt q z u,
      w.turn_lt q z thread,
    );
    key_run = λ k q h. ground (arith, get-put r q x runs, w.key_run k q);
    key_owner = λ k q z h p. ground (arith, get-put r q x runs, w.key_owner k q z, w.key_run k q);
    one_active = λ q p z u h k e a b. ground (
      arith,
      get-put r q x runs,
      get-put r p x runs,
      w.one_active q p z u,
      not_active_of_any x.thread_id q z runs idle,
      not_active_of_any x.thread_id p u runs idle,
    );
    turn_unique = λ q p z u h k e i. ground (
      arith,
      get-put r q x runs,
      get-put r p x runs,
      w.turn_unique q p z u,
      w.turn_lt q z thread,
      w.turn_lt p u thread,
    );
  }

pub put-key-WellFormed :
    {threads : Threads} {runs : Runs} {keys : Dict ℕ ℕ} (k r : ℕ) (x : ConversationRun)
    → WellFormed threads runs keys
    → get r runs ≡ some x
    → x.request_key ≡ some k
    → WellFormed threads runs (put k r keys)
put-key-WellFormed {keys = keys} k r x w there own = record {
  distinct = w.distinct;
  run_key = w.run_key;
  thread_key = w.thread_key;
  run_thread = w.run_thread;
  turn_lt = w.turn_lt;
  key_run = λ j q h. ground (arith, get-put k j r keys, w.key_run j q);
  key_owner = λ j q z h p. ground (arith, get-put k j r keys, w.key_owner j q z);
  one_active = w.one_active;
  turn_unique = w.turn_unique;
}

-- A thread that is not there has no runs.
pub idle_of_absent :
    {threads : Threads} {runs : Runs} {keys : Dict ℕ ℕ} (w : WellFormed threads runs keys) (t : ℕ)
    → get t threads ≡ none
    → any (is_active_in t) (values runs) ≡ false
idle_of_absent {runs = runs} w t absent = elim (Bool-cases (any (is_active_in t) (values runs))) [
  | inl e ↦
      let (r, x, there, active) = any-values (is_active_in t) runs w.distinct e in
      absurd (ground (arith, w.run_thread r x there))
  | inr e ↦ e
]
