-- ===== src/Persistence/Memory.antt =====
-- app/persistence/memory.py: `InMemoryConversationRepository`. A method runs under the repository's
-- lock, so it is one step. What was written before a raise stays written: the state comes back
-- beside the error too. `now` is what the clock gives the call, and the fresh ids are what `uuid4`
-- gives it.
pub mod State
pub mod Reader
pub mod Effects
pub mod Recovery
pub mod Invariant
pub mod Transition
pub mod Histories
pub mod Calls
pub mod Storing
pub mod Outcomes
pub mod Failing
pub mod Admitting
use State.{
  Repository, Exec, ok, err, ◌>>=◌, pure, raise, run_at, thread_at, set_run, set_thread,
  set_request_key, set_artifacts, require_active_run, is_active, ◌>>◌,
}
use mini_alpha.Common.{
  ℕ, zero, suc, ◌+◌, String, Bool, true, false, Option, none, some, List, [], ◌∷◌, ◌==◌, nat_eq,
  string_eq, option_beq, if◌then◌else◌, any, length, ◌&&◌,
}
use mini_alpha.Common.Dict.{Dict, get, values}
use mini_alpha.Common.Value.{Fields, Value}
use mini_alpha.Persistence.Artifacts
use mini_alpha.Persistence.Artifacts.{ParsedArtifact, parse_artifact}
use mini_alpha.Persistence.Models.{
  Status, in_progress, completed, error, cancelled, ConversationThread, ConversationRun,
  StoredArtifact, RunAdmission, ConversationTurn, RepositoryError, thread_not_found,
  run_in_progress, request_key_conflict, checkpoint_conflict, invalid_artifact,
}

-- The ids that `uuid4` hands one admission
pub record FreshIds : Type 0 where
  pub thread_id : ℕ
  pub run_id : ℕ
  pub query_id : ℕ

abbrev pub known_run : Option ℕ → Repository → Option ℕ
known_run none s = none
known_run (some k) s = get k s.request_keys

-- `existing.message != message or thread_id is not None and existing.thread_id != thread_id`
abbrev pub differs : ConversationRun → Option ℕ → String → Bool
differs run none message = if run.message == message then false else true
differs run (some t) message =
    if run.message == message then (if run.thread_id == t then false else true) else true

unfoldable pub replay_admission : ℕ → Option ℕ → String → Exec RunAdmission
replay_admission run_id thread_id message = do
  existing ← run_at run_id
  if differs existing thread_id message then raise request_key_conflict else do
    thread ← thread_at existing.thread_id
    pure (record {
      run = existing;
      from_checkpoint_id = thread.latest_checkpoint_id;
      replayed = true;
    })

abbrev pub new_thread : ℕ → ℕ → ConversationThread
new_thread thread_id now = record {
  thread_id = thread_id;
  status = in_progress;
  title = none;
  latest_checkpoint_id = none;
  next_turn_index = 1;
  created_at = now;
  updated_at = now;
}

known_thread : ℕ → Exec (ℕ × ConversationThread)
known_thread thread_id s = elim (get thread_id s.threads) [
  | none ↦ (err thread_not_found, s)
  | some thread ↦ (ok (thread_id, thread), s)
]

unfoldable pub admission_thread : FreshIds → ℕ → Option ℕ → Exec (ℕ × ConversationThread)
unfolding known_thread
admission_thread fresh now none = do
  set_thread fresh.thread_id (new_thread fresh.thread_id now)
  pure (fresh.thread_id, new_thread fresh.thread_id now)
admission_thread fresh now (some thread_id) = known_thread thread_id

abbrev pub is_active_in : ℕ → ConversationRun → Bool
is_active_in thread_id run = run.thread_id == thread_id && is_active run.status

unfoldable pub reject_active : ℕ → Exec (Unit {0})
reject_active thread_id s =
    if any (is_active_in thread_id) (values s.runs) then (err run_in_progress, s) else (ok tt, s)

abbrev pub new_run : FreshIds → ℕ → ℕ → ConversationThread → String → Option ℕ → ConversationRun
new_run fresh now thread_id thread message request_key = record {
  run_id = fresh.run_id;
  query_id = fresh.query_id;
  thread_id = thread_id;
  turn_index = thread.next_turn_index;
  attempt_no = 1;
  request_key = request_key;
  status = in_progress;
  message = message;
  answer = none;
  tool_calls = [];
  error_code = none;
  error_message = none;
  started_at = now;
  completed_at = none;
}

unfoldable pub new_admission : FreshIds → ℕ → Option ℕ → String → Option ℕ → Exec RunAdmission
unfolding admission_thread reject_active
new_admission fresh now thread_id message request_key = do
  (t, thread) ← admission_thread fresh now thread_id
  reject_active t
  set_run fresh.run_id (new_run fresh now t thread message request_key)
  set_request_key request_key fresh.run_id
  set_thread t (record thread {
    status = in_progress;
    next_turn_index = thread.next_turn_index + 1;
    updated_at = now;
  })
  pure (record {
    run = new_run fresh now t thread message request_key;
    from_checkpoint_id = thread.latest_checkpoint_id;
    replayed = false;
  })

unfoldable pub admit_run : FreshIds → ℕ → Option ℕ → String → Option ℕ → Exec RunAdmission
unfolding replay_admission new_admission
admit_run fresh now thread_id message request_key s = elim (known_run request_key s) [
  | some run_id ↦ replay_admission run_id thread_id message s
  | none ↦ new_admission fresh now thread_id message request_key s
]

unfoldable pub fail_run : ℕ → ℕ → String → String → Exec ConversationRun
fail_run now run_id error_code error_message = do
  run ← require_active_run run_id
  let failed = record run {
    status = error;
    error_code = some error_code;
    error_message = some error_message;
    completed_at = some now;
  }
  set_run run_id failed
  thread ← thread_at run.thread_id
  set_thread run.thread_id (record thread { status = error; updated_at = now })
  pure failed

active_ids : Dict ℕ ConversationRun → List ℕ
active_ids [] = []
active_ids ((r, run) ∷ runs) = if is_active run.status then r ∷ active_ids runs else active_ids runs

-- One round of the loop of `recover_abandoned_runs`
recover_run : ℕ → ℕ → Exec (Unit {0})
recover_run now run_id = do
  run ← run_at run_id
  set_run run_id (record run {
    status = error;
    error_code = some "process_interrupted";
    error_message = some "The worker process stopped before completing the run.";
    completed_at = some now;
  })
  thread ← thread_at run.thread_id
  set_thread run.thread_id (record thread { status = error; updated_at = now })

recover_each : ℕ → List ℕ → Exec (Unit {0})
recover_each now [] = pure tt
recover_each now (r ∷ ids) = do recover_run now r; recover_each now ids

unfoldable pub recover_abandoned_runs : ℕ → Exec ℕ
unfolding active_ids recover_run recover_each
recover_abandoned_runs now s =
    let ids = active_ids s.runs in (do recover_each now ids; pure (length ids)) s

abbrev pub checkpoint_changed : ConversationThread → Option String → Bool
checkpoint_changed thread expected =
    if option_beq thread.latest_checkpoint_id expected then false else true

-- `parse_uuid` is `UUID(str(value))`, and `uuid4 n` the id that `uuid4` gives the n-th artifact.
module _ (parse_uuid : Value → Option ℕ) (uuid4 : ℕ → ℕ) where
  stored : ℕ → ℕ → ℕ → ParsedArtifact → StoredArtifact
  stored run_id ordinal created_at parsed = record {
    artifact_id = elim parsed.artifact_id [ none ↦ uuid4 ordinal | some i ↦ i ];
    run_id = run_id;
    ordinal = ordinal;
    artifact_type = parsed.artifact_type;
    schema_version = parsed.schema_version;
    status = parsed.status;
    payload = parsed.payload;
    error = parsed.error;
    failure = parsed.failure;
    provenance = parsed.provenance;
    created_at = created_at;
  }

  unfoldable pub store_artifact : ℕ → ℕ → ℕ → Fields → Artifacts.Result StoredArtifact
  unfolding stored
  store_artifact run_id ordinal created_at artifact = elim (parse_artifact parse_uuid artifact) [
    | Artifacts.ok parsed ↦ Artifacts.ok (stored run_id ordinal created_at parsed)
    | Artifacts.err e ↦ Artifacts.err e
  ]

  -- The `tuple(… for ordinal, artifact in enumerate(artifacts))`
  unfoldable pub store_artifacts : ℕ → ℕ → ℕ → List Fields → Artifacts.Result (List StoredArtifact)
  store_artifacts run_id created_at ordinal [] = Artifacts.ok []
  store_artifacts run_id created_at ordinal (a ∷ rest) =
      Artifacts.◌>>=◌ (store_artifact run_id ordinal created_at a) λ x.
        Artifacts.◌>>=◌ (store_artifacts run_id created_at (suc ordinal) rest)
          λ xs. Artifacts.ok (x ∷ xs)

  unfoldable pub parsed_artifacts : ℕ → ℕ → List Fields → Exec (List StoredArtifact)
  parsed_artifacts run_id now artifacts s = elim (store_artifacts run_id now 0 artifacts) [
    | Artifacts.ok xs ↦ (ok xs, s)
    | Artifacts.err e ↦ (err (invalid_artifact e), s)
  ]

  unfoldable pub complete_run :
      ℕ → ℕ → Option String → String → String → List Fields → List Fields → Exec ConversationTurn
  unfolding parsed_artifacts
  complete_run now run_id expected_checkpoint_id checkpoint_id answer tool_calls artifacts = do
    run ← require_active_run run_id
    thread ← thread_at run.thread_id
    if checkpoint_changed thread expected_checkpoint_id then raise checkpoint_conflict else do
      let done = record run {
        status = completed;
        answer = some answer;
        tool_calls = tool_calls;
        completed_at = some now;
      }
      stored_artifacts ← parsed_artifacts run_id now artifacts
      set_run run_id done
      set_artifacts run_id stored_artifacts
      set_thread run.thread_id (record thread {
        status = completed;
        latest_checkpoint_id = some checkpoint_id;
        updated_at = now;
      })
      pure (record { run = done; artifacts = stored_artifacts })

  unfoldable pub cancel_run : ℕ → ℕ → String → List Fields → List Fields → Exec ConversationRun
  unfolding parsed_artifacts
  cancel_run now run_id partial_answer tool_calls artifacts = do
    run ← require_active_run run_id
    let stopped = record run {
      status = cancelled;
      answer = if partial_answer == "" then none else some partial_answer;
      tool_calls = tool_calls;
      error_code = some "cancelled";
      error_message = some "The research run was cancelled.";
      completed_at = some now;
    }
    set_run run_id stopped
    stored_artifacts ← parsed_artifacts run_id now artifacts
    set_artifacts run_id stored_artifacts
    thread ← thread_at run.thread_id
    set_thread run.thread_id (record thread { status = cancelled; updated_at = now })
    pure stopped
