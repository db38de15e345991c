-- ===== src/Tests/Conversations.antt =====
-- Runs of app/persistence/memory.py's model.
use mathlib.Core.List.{Perm}
use mini_alpha.Common.{
  ℕ, ◌≡◌, ◌+◌, ◌++◌, ◌≤◌, refl, true, false, Option, none, some, List, [], ◌∷◌, inr, length, map,
  select, All, leb, ◌==◌, nat_eq,
}
use mini_alpha.Common.Dict.{get, put, values}
use mini_alpha.Common.Sort.{IsSorted}
use mini_alpha.Common.Value.{Value, end}
use mini_alpha.Persistence.Artifacts
use mini_alpha.Persistence.Artifacts.{parse_artifact}
use mini_alpha.Persistence.Memory.Calls.{
  Call, admit, complete, fail, cancel, recover, perform, perform_all, AllFresh, perform_all-IsValid,
  ended_run_unchanged, admit_run_idempotent,
}
use mini_alpha.Persistence.Memory.Effects.{IsFresh}
use mini_alpha.Persistence.Memory.Invariant.{IsValid}
use mini_alpha.Persistence.Memory.Outcomes.{
  complete_run-error_unchanged, cancel_run-invalid_artifact,
}
use mini_alpha.Persistence.Memory.Reader.{
  list_turns, list_threads, list_turns-transcript, list_threads-pages, InOrder, HasArtifacts,
}
use mini_alpha.Persistence.Memory.Recovery.{active_at, active_runs, recover_abandoned_runs_lem}
use mini_alpha.Persistence.Memory.State.{Repository, empty, ok, err, active_run}
use mini_alpha.Persistence.Memory.{
  FreshIds, admit_run, complete_run, cancel_run, store_artifacts, store_artifact,
  recover_abandoned_runs,
}
use mini_alpha.Persistence.Models.{
  ConversationThread, ConversationRun, ConversationTurn, RunAdmission, in_progress, completed,
  cancelled, checkpoint_conflict, invalid_artifact,
}

abbrev pub no_uuid : Value → Option ℕ
no_uuid v = none

abbrev pub drawn : ℕ → ℕ
drawn n = 100 + n

abbrev pub fresh : FreshIds
fresh = record { thread_id = 1; run_id = 2; query_id = 3 }

abbrev other_fresh : FreshIds
other_fresh = record { thread_id = 4; run_id = 5; query_id = 6 }

abbrev pub first_run : ConversationRun
first_run = record {
  run_id = 2;
  query_id = 3;
  thread_id = 1;
  turn_index = 1;
  attempt_no = 1;
  request_key = some 7;
  status = in_progress;
  message = "hello";
  answer = none;
  tool_calls = [];
  error_code = none;
  error_message = none;
  started_at = 10;
  completed_at = none;
}

abbrev completed_run : ConversationRun
completed_run = record first_run {
  status = completed;
  answer = some "answer";
  tool_calls = [];
  completed_at = some 20;
}

abbrev pub admission : Call
admission = admit fresh 10 none "hello" (some 7)

abbrev completion : Call
completion = complete 20 2 none "c1" "answer" [] []

abbrev pub admitted : Repository
admitted = perform_all no_uuid drawn (admission ∷ []) empty

abbrev answered : Repository
answered = perform_all no_uuid drawn (admission ∷ completion ∷ []) empty

fresh_at_first : IsFresh fresh empty
unfolding get
fresh_at_first = record { run = refl; thread = refl }

pub admission_fresh : AllFresh no_uuid drawn (admission ∷ []) empty
admission_fresh = (fresh_at_first, tt)

answering_fresh : AllFresh no_uuid drawn (admission ∷ completion ∷ []) empty
answering_fresh = (fresh_at_first, (tt, tt))

perform_all-IsValid_example :
    IsValid (perform_all no_uuid drawn (admission ∷ completion ∷ []) empty)
perform_all-IsValid_example =
    perform_all-IsValid no_uuid drawn (admission ∷ completion ∷ []) answering_fresh

pub admitted-IsValid : IsValid admitted
admitted-IsValid = perform_all-IsValid no_uuid drawn (admission ∷ []) admission_fresh

answered-IsValid : IsValid answered
answered-IsValid = perform_all-IsValid no_uuid drawn (admission ∷ completion ∷ []) answering_fresh

there : get 2 answered.runs ≡ some completed_run
unfolding complete_run perform_all active_run get perform admit_run put store_artifacts
there = refl

abbrev afterwards : List Call
afterwards = cancel 30 2 "partial" [] [] ∷ fail 31 2 "code" "text" ∷ recover 40 ∷ []

ended_run_unchanged_example :
    get 2 (perform_all no_uuid drawn afterwards answered).runs ≡ some completed_run
ended_run_unchanged_example =
    ended_run_unchanged no_uuid drawn afterwards answered 2 completed_run answered-IsValid
      (tt, (tt, (tt, tt))) there refl

abbrev first_admission : RunAdmission
first_admission = record { run = first_run; from_checkpoint_id = none; replayed = false }

empty-IsValid_here : IsValid empty
unfolding complete_run perform_all active_run get perform admit_run put store_artifacts
empty-IsValid_here = perform_all-IsValid no_uuid drawn [] tt

accepted : (admit_run fresh 10 none "hello" (some 7) empty).0 ≡ ok first_admission
unfolding complete_run perform_all active_run get perform admit_run put store_artifacts
accepted = refl

admit_run_idempotent_example :
    let s' =
      perform_all no_uuid drawn
        (completion ∷ [])
        (admit_run fresh 10 none "hello" (some 7) empty).1 in
    (b : RunAdmission) × (admit_run other_fresh 50 (some 1) "hello" (some 7) s' ≡ (ok b, s'))
    × (b.run.run_id ≡ 2)
    × (b.replayed ≡ true)
admit_run_idempotent_example =
    admit_run_idempotent no_uuid drawn empty empty-IsValid_here fresh other_fresh 10 50 none "hello"
      7 first_admission (completion ∷ []) fresh_at_first accepted (tt, tt) (some 1) (inr refl)

abbrev first_turn : ConversationTurn
first_turn = record { run = completed_run; artifacts = [] }

completion_raises :
    (complete_run no_uuid drawn 20 2 (some "c0") "c1" "answer" [] [] admitted).0
    ≡ err checkpoint_conflict
unfolding complete_run perform_all active_run get perform admit_run put store_artifacts
completion_raises = refl

complete_run-error_unchanged_example :
    (complete_run no_uuid drawn 20 2 (some "c0") "c1" "answer" [] [] admitted).1 ≡ admitted
complete_run-error_unchanged_example =
    complete_run-error_unchanged no_uuid drawn 20 2 [] [] (some "c0") "c1" "answer" admitted
      checkpoint_conflict completion_raises

recover_abandoned_runs_example :
    ((recover_abandoned_runs 60 admitted).0 ≡ ok (length (active_runs admitted.runs)))
    × ((r : ℕ) → active_at r (recover_abandoned_runs 60 admitted).1.runs ≡ false)
    × ((r : ℕ)
        → active_at r admitted.runs ≡ false
        → get r (recover_abandoned_runs 60 admitted).1.runs ≡ get r admitted.runs)
recover_abandoned_runs_example = recover_abandoned_runs_lem 60 admitted admitted-IsValid

admitted_there : get 2 admitted.runs ≡ some first_run
unfolding complete_run perform_all active_run get perform admit_run put store_artifacts
admitted_there = refl

refused : store_artifacts no_uuid drawn 2 70 0 (end ∷ []) ≡ Artifacts.err Artifacts.bad_type
unfolding store_artifacts store_artifact parse_artifact
refused = refl

cancel_run-invalid_artifact_example :
    (y : ConversationRun) × ((cancel_run no_uuid drawn 70 2 "part" [] (end ∷ []) admitted).0
      ≡ err (invalid_artifact Artifacts.bad_type))
    × (get 2 (cancel_run no_uuid drawn 70 2 "part" [] (end ∷ []) admitted).1.runs ≡ some y)
    × (y.status ≡ cancelled)
    × ((cancel_run no_uuid drawn 70 2 "part" [] (end ∷ []) admitted).1.threads ≡ admitted.threads)
cancel_run-invalid_artifact_example =
    cancel_run-invalid_artifact no_uuid drawn 70 2 [] (end ∷ []) "part" admitted first_run
      Artifacts.bad_type admitted_there refl refused

abbrev first_thread : ConversationThread
first_thread = record {
  thread_id = 1;
  status = completed;
  title = none;
  latest_checkpoint_id = some "c1";
  next_turn_index = 2;
  created_at = 10;
  updated_at = 20;
}

thread_there : get 1 answered.threads ≡ some first_thread
unfolding complete_run perform_all active_run get perform admit_run put store_artifacts
thread_there = refl

list_turns-transcript_example :
    (turns : List ConversationTurn) × (list_turns 1 answered ≡ ok turns)
    × Perm
        (map (λ turn. turn.run) turns)
        (select (λ run. run.thread_id == 1) (values answered.runs))
    × InOrder turns
    × All (HasArtifacts answered) turns
list_turns-transcript_example = list_turns-transcript 1 answered first_thread thread_there

list_threads-pages_example :
    (length (list_threads 1 0 answered).threads ≤ 1)
    × ((list_threads 1 0 answered).threads ++ (list_threads 2 1 answered).threads
        ≡ (list_threads 3 0 answered).threads)
    × Perm
        (list_threads (list_threads 0 0 answered).total 0 answered).threads
        (values answered.threads)
    × IsSorted
        (λ a b. leb b.updated_at a.updated_at)
        (list_threads (list_threads 0 0 answered).total 0 answered).threads
list_threads-pages_example = list_threads-pages 1 2 0 answered
