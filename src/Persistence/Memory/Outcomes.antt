-- ===== src/Persistence/Memory/Outcomes.antt =====
-- What the finishing methods of app/persistence/memory.py leave behind, errors included.
use mini_alpha.Common.{
  ℕ, ◌≡◌, ◌≢◌, inl, inr, refl, subst, true, Option, some, arith, nat_eq, String, List, Bool-cases,
  string_eq, option_beq_iff,
}
use mini_alpha.Common.Dict.{get, get-put, get-put_self}
use mini_alpha.Common.Value.{Fields, Value}
use mini_alpha.Persistence.Artifacts
use mini_alpha.Persistence.Memory.Invariant.{IsValid}
use mini_alpha.Persistence.Memory.Effects.{Active-cases, stored_cases}
use mini_alpha.Persistence.Memory.Storing.{AreStored, store_artifacts-AreStored}
use mini_alpha.Persistence.Memory.{
  complete_run, cancel_run, store_artifacts, parsed_artifacts, checkpoint_changed,
}
use mini_alpha.Persistence.Memory.State.{Repository, Result, ok, err, is_active, active_run}
use mini_alpha.Persistence.Models.{
  ConversationThread, ConversationRun, ConversationTurn, RepositoryError, completed, cancelled,
  invalid_artifact,
}

module _ (parse_uuid : Value → Option ℕ) (uuid4 : ℕ → ℕ) (now r : ℕ)
    (tool_calls artifacts : List Fields) where
  -- A completion that raises, for whatever reason, has written nothing.
  pub complete_run-error_unchanged :
      (expected : Option String) (checkpoint answer : String) (s : Repository) (e : RepositoryError)
      → (complete_run parse_uuid uuid4 now r expected checkpoint answer tool_calls artifacts s).0
        ≡ err e
      → (complete_run parse_uuid uuid4 now r expected checkpoint answer tool_calls artifacts s).1
        ≡ s
  unfolding complete_run
  complete_run-error_unchanged expected checkpoint answer s e h = ground arith

  -- What a completion that returns has done
  pub record Published (expected : Option String) (checkpoint answer : String) (s : Repository)
      (turn : ConversationTurn) (s' : Repository) : Type 0 where
    pub before : ConversationThread
    pub after : ConversationThread
    pub run : ConversationRun
    pub was_stored : get r s.runs ≡ some run
    pub was_active : is_active run.status ≡ true
    pub home : get turn.run.thread_id s.threads ≡ some before
    pub was_expected : before.latest_checkpoint_id ≡ expected
    pub stored_run : get r s'.runs ≡ some turn.run
    pub done : turn.run.status ≡ completed
    pub answered : turn.run.answer ≡ some answer
    pub completed_run : turn.run ≡ record run {
      status = completed;
      answer = some answer;
      tool_calls = tool_calls;
      completed_at = some now;
    }
    pub given : AreStored parse_uuid r now 0 artifacts turn.artifacts
    pub evidence : get r s'.artifacts ≡ some turn.artifacts
    pub stored_thread : get turn.run.thread_id s'.threads ≡ some after
    pub moved : after.latest_checkpoint_id ≡ some checkpoint
    pub settled : after.status ≡ completed
    pub touched : after ≡ record before {
      status = completed;
      latest_checkpoint_id = some checkpoint;
      updated_at = now;
    }
    pub other_runs : (q : ℕ) → q ≢ r → get q s'.runs ≡ get q s.runs
    pub other_threads : (t : ℕ) → t ≢ turn.run.thread_id → get t s'.threads ≡ get t s.threads
    pub other_artifacts : (q : ℕ) → q ≢ r → get q s'.artifacts ≡ get q s.artifacts
    pub same_keys : s'.request_keys ≡ s.request_keys

  pub complete_run-Published :
      (expected : Option String) (checkpoint answer : String) (s : Repository)
      (turn : ConversationTurn)
      → IsValid s
      → (complete_run parse_uuid uuid4 now r expected checkpoint answer tool_calls artifacts s).0
        ≡ ok turn
      → Published expected checkpoint answer s turn
          (complete_run parse_uuid uuid4 now r expected checkpoint answer tool_calls artifacts s).1
  unfolding complete_run
  complete_run-Published expected checkpoint answer s turn v h = elim (Active-cases s v r) [
    | inl (e, refused) ↦ absurd (ground arith)
    | inr a ↦ elim (Bool-cases (checkpoint_changed a.thread expected)) [
      | inl c ↦ absurd (ground (arith, a.accepted, a.home))
      | inr c ↦ elim (stored_cases (store_artifacts parse_uuid uuid4 r now 0 artifacts)) [
        | inl (e, bad) ↦ absurd (ground (arith, a.accepted, a.home))
        | inr (xs, good) ↦
            let t = turn in
            let same : ◌≡◌ {A = Result ConversationTurn}
                (ok (record {
                  run = record a.run {
                    status = completed;
                    answer = some answer;
                    tool_calls = tool_calls;
                    completed_at = some now;
                  };
                  artifacts = xs;
                }))
                (ok turn) =
              rw (a.accepted, a.home, c, good, parsed_artifacts, complete_run) at h in
            rw (a.accepted, a.home, c, good, parsed_artifacts, complete_run)
              (record {
                before = a.thread;
                after = record a.thread {
                  status = completed;
                  latest_checkpoint_id = some checkpoint;
                  updated_at = now;
                };
                run = a.run;
                was_stored = a.there;
                was_active = a.active;
                home = ground (arith, a.home);
                was_expected =
                    ground (arith, option_beq_iff a.thread.latest_checkpoint_id expected);
                stored_run = ground (
                  arith,
                  get-put_self r
                      (record a.run {
                        status = completed;
                        answer = some answer;
                        tool_calls = tool_calls;
                        completed_at = some now;
                      })
                      s.runs,
                );
                done = ground arith;
                answered = ground arith;
                completed_run = ground arith;
                given =
                    subst (AreStored parse_uuid r now 0 artifacts) (ground arith)
                      (store_artifacts-AreStored parse_uuid r now uuid4 0 artifacts xs good);
                evidence = ground (arith, get-put_self r xs s.artifacts);
                stored_thread = ground (
                  arith,
                  get-put_self a.run.thread_id
                      (record a.thread {
                        status = completed;
                        latest_checkpoint_id = some checkpoint;
                        updated_at = now;
                      })
                      s.threads,
                );
                moved = refl;
                settled = refl;
                touched = refl;
                other_runs = λ q n. rw get-put (ground arith);
                other_threads = λ q n. rw get-put (ground arith);
                other_artifacts = λ q n. rw get-put (ground arith);
                same_keys = refl;
              })
      ]
    ]
  ]

  -- A cancellation of an active run whose artifacts are refused raises after it has stored the
  -- cancelled run: the run is cancelled and the thread, its status included, is as it was.
  pub cancel_run-invalid_artifact :
      (partial_answer : String) (s : Repository) (x : ConversationRun) (e : Artifacts.Invalid)
      → get r s.runs ≡ some x
      → is_active x.status ≡ true
      → store_artifacts parse_uuid uuid4 r now 0 artifacts ≡ Artifacts.err e
      → (y : ConversationRun) × ((cancel_run parse_uuid uuid4 now r partial_answer tool_calls
            artifacts s).0
          ≡ err (invalid_artifact e))
        × (get r (cancel_run parse_uuid uuid4 now r partial_answer tool_calls artifacts s).1.runs
            ≡ some y)
        × (y.status ≡ cancelled)
        × ((cancel_run parse_uuid uuid4 now r partial_answer tool_calls artifacts s).1.threads
            ≡ s.threads)
  unfolding cancel_run active_run
  cancel_run-invalid_artifact partial_answer s x e there active bad =
      rw (there, active, bad, parsed_artifacts) (_, refl, get-put_self r _ s.runs, refl, refl)
